-- ===== src/Sched/Rounds.antt =====
-- The rounds of schedule() in kernel/process.c: when it returns, and what it leaves alone.
use operator_system.Common.{
  ℕ, zero, suc, ◌≡◌, refl, ap, ◌∙◌, ◌⊎◌, inl, inr, true, false, Option, none, some, [], ◌∷◌, map,
  Bool-cases, arith,
}
use operator_system.Common.Int.{ℤ, pos, negsuc, ◌≤ℤ◌, ◌<ℤ◌, is_zero, signed32}
use operator_system.Sched.{
  Process, Tasks, Kernel, running, select, recharge, wake_signalled, schedule_loop, schedule, tail,
  with_tail,
}
use operator_system.Sched.Select.{Runs, Scan, Found, select-Scan, schedule-some}

-- every running process has a positive priority
abbrev pub HasPriority : Tasks → Type 0
HasPriority [] = Unit
HasPriority (none ∷ ts) = HasPriority ts
HasPriority (some p ∷ ts) = (p.state ≡ running → pos 0 <ℤ signed32 p.priority) × HasPriority ts

Runs-recharge :
    (ts : Tasks) (j : ℕ) (c : ℤ)
    → HasPriority ts
    → Runs ts j c
    → (d : ℤ) × Runs (recharge ts) j d × (pos 0 <ℤ d)
unfolding recharge
Runs-recharge [] j c h r = absurd r
Runs-recharge (none ∷ ts) zero c h r = absurd r
Runs-recharge (some p ∷ ts) zero c h r = (signed32 p.priority, (r.0, refl), h.0 r.0)
Runs-recharge (none ∷ ts) (suc j) c h r = Runs-recharge ts j c h r
Runs-recharge (some p ∷ ts) (suc j) c h r = Runs-recharge ts j c h.1 r

-- A scan whose best counter is 0 met a running process.
Scan-zero :
    (ts : Tasks) (r : ℤ × ℕ)
    → Scan ts 1 (negsuc 0) 0 r
    → is_zero r.0 ≡ true
    → (j : ℕ) × Runs ts j r.0
Scan-zero ts r s z = met s.from
  where
    met : ((r.0 ≡ negsuc 0) × (r.1 ≡ 0)) ⊎ Found ts 1 (negsuc 0) r.0 r.1 → (j : ℕ) × Runs ts j r.0
    met (inl (e, q)) = absurd (cc (ap is_zero e))
    met (inr f) = (f.at, f.runs)

positive→is_zero : (c d : ℤ) → pos 0 <ℤ d → d ≤ℤ c → is_zero c ≡ false
positive→is_zero c d l m = ground arith

schedule_loop-total :
    (rounds : ℕ) (ts : Tasks)
    → HasPriority ts
    → (r : ℕ × Tasks) × (schedule_loop (suc (suc rounds)) ts ≡ some r)
unfolding schedule_loop
schedule_loop-total rounds ts h = elim (Bool-cases (is_zero (select ts 1 (negsuc 0) 0).0)) [
  | inl e ↦
      let (j, met) = Scan-zero ts _ (select-Scan ts 1 (negsuc 0) 0) e in
      let (d, up, more) = Runs-recharge ts j _ h met in
      let s = select-Scan (recharge ts) 1 (negsuc 0) 0 in
      let nz = positive→is_zero _ d more (s.bound j d up) in
      (((select (recharge ts) 1 (negsuc 0) 0).1, recharge ts), rw (e, nz))
  | inr e ↦ (((select ts 1 (negsuc 0) 0).1, ts), rw e)
]

-- Where every running process in a slot from 1 on has a priority that is positive as an int,
-- schedule() returns after at most two rounds of its `while (1)`.
pub schedule-total :
    (rounds : ℕ) (k : Kernel)
    → HasPriority (tail k.tasks)
    → (k' : Kernel) × (schedule (suc (suc rounds)) k ≡ some k')
unfolding schedule
schedule-total rounds k h =
    let (r, e) = schedule_loop-total rounds (tail k.tasks) h in
    (
      record k {
        tasks = with_tail k.tasks r.1;
        at_null = wake_signalled (tail k.tasks) k.at_null;
        current = r.0;
      },
      rw (e, schedule),
    )

-- a slot without its counter
abbrev pub forget : Option Process → Option Process
forget none = none
forget (some p) = some (record p { counter = pos 0 })

forget-recharge : (ts : Tasks) → map forget (recharge ts) ≡ map forget ts
unfolding recharge
forget-recharge [] = refl
forget-recharge (none ∷ ts) = ap (λ us. none ∷ us) (forget-recharge ts)
forget-recharge (some p ∷ ts) =
    ap (λ us. some (record p { counter = pos 0 }) ∷ us) (forget-recharge ts)

forget-schedule_loop :
    (rounds : ℕ) (ts : Tasks) {next : ℕ} {us : Tasks}
    → schedule_loop rounds ts ≡ some (next, us)
    → map forget us ≡ map forget ts
unfolding schedule_loop
forget-schedule_loop zero ts h = cc
forget-schedule_loop (suc rounds) ts {next} {us} h =
    elim (Bool-cases (is_zero (select ts 1 (negsuc 0) 0).0)) [
      | inl e ↦ forget-schedule_loop rounds (recharge ts) (rw e at h) ∙ forget-recharge ts
      | inr e ↦ ground arith
    ]

-- Whatever signals are pending, a return from schedule() leaves each process slot as it was but for
-- the counter: the same process, with the same state, priority, signals, mask and pid. So no
-- interruptible process is made runnable by a signal.
pub schedule-keeps :
    (rounds : ℕ) (k : Kernel) {k' : Kernel}
    → schedule rounds k ≡ some k'
    → map forget k'.tasks ≡ map forget k.tasks
schedule-keeps rounds k {k'} h =
    let (next, us, loop, q, c) = schedule-some rounds k h in
    rw q (whole k.tasks us (forget-schedule_loop rounds (tail k.tasks) loop))
  where
    whole :
        (ts us : Tasks)
        → map forget us ≡ map forget (tail ts)
        → map forget (with_tail ts us) ≡ map forget ts
    whole [] us e = refl
    whole (t ∷ ts) us e = ap (λ vs. forget t ∷ vs) e
