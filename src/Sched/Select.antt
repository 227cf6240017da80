-- ===== src/Sched/Select.antt =====
-- The choice of schedule() in kernel/process.c: which slot runs next.
use operator_system.Common.{
  ℕ, zero, suc, ◌+◌, ◌<◌, ◌≡◌, refl, sym, ap, ◌⊎◌, inl, inr, false, ◌&&◌, Option, none, some, [],
  ◌∷◌, ◌==◌, Bool-cases, Option-cases, arith,
}
use operator_system.Common.Int.{ℤ, pos, negsuc, pos_part, neg_part, ◌≤ℤ◌, ◌<ℤ◌, ltb_ℤ, is_zero}
use operator_system.Sched.{
  Process, Tasks, Kernel, running, select, recharge, schedule_loop, schedule, tail, with_tail,
}

-- slot `j` holds a running process with counter `c`
abbrev pub Runs : Tasks → ℕ → ℤ → Type 0
Runs [] j c = ⊥
Runs (none ∷ ts) zero c = ⊥
Runs (some p ∷ ts) zero c = (p.state ≡ running) × (p.counter ≡ c)
Runs (t ∷ ts) (suc j) c = Runs ts j c

-- The scan of `ts` from slot `i` on found a counter above `c₀`: the slot, and no earlier one as good.
pub record Found (ts : Tasks) (i : ℕ) (c₀ c : ℤ) (n : ℕ) : Type 0 where
  pub at : ℕ
  pub slot : n ≡ i + at
  pub runs : Runs ts at c
  pub larger : c₀ <ℤ c
  pub first : (j : ℕ) (d : ℤ) → j < at → Runs ts j d → d <ℤ c

-- what the scan makes of the best so far, `c₀` at `n₀`
pub record Scan (ts : Tasks) (i : ℕ) (c₀ : ℤ) (n₀ : ℕ) (r : ℤ × ℕ) : Type 0 where
  pub grows : c₀ ≤ℤ r.0
  pub bound : (j : ℕ) (d : ℤ) → Runs ts j d → d ≤ℤ r.0
  pub from : ((r.0 ≡ c₀) × (r.1 ≡ n₀)) ⊎ Found ts i c₀ r.0 r.1

module _ {ts : Tasks} {i : ℕ} {c₀ : ℤ} {n₀ : ℕ} {r : ℤ × ℕ} where
  Scan-none : Scan ts (i + 1) c₀ n₀ r → Scan (none ∷ ts) i c₀ n₀ r
  Scan-none s = record { grows = s.grows; bound = later; from = shift s.from }
    where
      later : (j : ℕ) (d : ℤ) → Runs (none ∷ ts) j d → d ≤ℤ r.0
      later zero d h = absurd h
      later (suc j) d h = s.bound j d h

      shift :
          ((r.0 ≡ c₀) × (r.1 ≡ n₀)) ⊎ Found ts (i + 1) c₀ r.0 r.1
          → ((r.0 ≡ c₀) × (r.1 ≡ n₀)) ⊎ Found (none ∷ ts) i c₀ r.0 r.1
      shift (inl e) = inl e
      shift (inr f) = inr (record {
        at = suc f.at;
        slot = omega (arith, f.slot);
        runs = f.runs;
        larger = f.larger;
        first = first;
      })
        where
          first : (j : ℕ) (d : ℤ) → j < suc f.at → Runs (none ∷ ts) j d → d <ℤ r.0
          first zero d h e = absurd e
          first (suc j) d h e = f.first j d (omega arith) e

  -- a slot that is not better: it waits, or its counter is at most the best so far
  Scan-skip :
      (p : Process)
      → ((p.state ≡ running) → p.counter ≤ℤ c₀)
      → Scan ts (i + 1) c₀ n₀ r
      → Scan (some p ∷ ts) i c₀ n₀ r
  Scan-skip p worse s = record { grows = s.grows; bound = later; from = shift s.from }
    where
      later : (j : ℕ) (d : ℤ) → Runs (some p ∷ ts) j d → d ≤ℤ r.0
      later zero d (q, e) = rw (← e) (omega (arith, worse q, s.grows))
      later (suc j) d h = s.bound j d h

      shift :
          ((r.0 ≡ c₀) × (r.1 ≡ n₀)) ⊎ Found ts (i + 1) c₀ r.0 r.1
          → ((r.0 ≡ c₀) × (r.1 ≡ n₀)) ⊎ Found (some p ∷ ts) i c₀ r.0 r.1
      shift (inl e) = inl e
      shift (inr f) = inr (record {
        at = suc f.at;
        slot = omega (arith, f.slot);
        runs = f.runs;
        larger = f.larger;
        first = first;
      })
        where
          first : (j : ℕ) (d : ℤ) → j < suc f.at → Runs (some p ∷ ts) j d → d <ℤ r.0
          first zero d h (q, e) = rw (← e) (omega (arith, worse q, f.larger))
          first (suc j) d h e = f.first j d (omega arith) e

  -- a slot that is better
  Scan-take :
      (p : Process)
      → p.state ≡ running
      → c₀ <ℤ p.counter
      → Scan ts (i + 1) p.counter i r
      → Scan (some p ∷ ts) i c₀ n₀ r
  Scan-take p run better s = record {
    grows = omega (arith, s.grows);
    bound = later;
    from = inr (shift s.from);
  }
    where
      later : (j : ℕ) (d : ℤ) → Runs (some p ∷ ts) j d → d ≤ℤ r.0
      later zero d (q, e) = rw (← e) s.grows
      later (suc j) d h = s.bound j d h

      shift :
          ((r.0 ≡ p.counter) × (r.1 ≡ i)) ⊎ Found ts (i + 1) p.counter r.0 r.1
          → Found (some p ∷ ts) i c₀ r.0 r.1
      shift (inl (e, q)) = record {
        at = 0;
        slot = omega (arith, q);
        runs = (run, sym e);
        larger = rw e better;
        first = λ j d h. elim h [ ];
      }
      shift (inr f) = record {
        at = suc f.at;
        slot = omega (arith, f.slot);
        runs = f.runs;
        larger = omega (arith, f.larger);
        first = first;
      }
        where
          first : (j : ℕ) (d : ℤ) → j < suc f.at → Runs (some p ∷ ts) j d → d <ℤ r.0
          first zero d h (q, e) = rw (← e) f.larger
          first (suc j) d h e = f.first j d (omega arith) e

pub select-Scan : (ts : Tasks) (i : ℕ) (c : ℤ) (n : ℕ) → Scan ts i c n (select ts i c n)
unfolding select
select-Scan [] i c n = record {
  grows = omega arith;
  bound = λ j d h. absurd h;
  from = inl (refl, refl);
}
select-Scan (none ∷ ts) i c n = Scan-none (select-Scan ts (i + 1) c n)
select-Scan (some p ∷ ts) i c n = elim (Bool-cases (p.state == running && ltb_ℤ c p.counter)) [
  | inl e ↦ rw e (Scan-take p (ground arith) (ground arith) (select-Scan ts (i + 1) p.counter i))
  | inr e ↦ rw e (Scan-skip p (ground arith) (select-Scan ts (i + 1) c n))
]

-- Of the slots from 1 on: what schedule() may choose. Slot 0 runs where no process waits for the
-- CPU with a counter of 0 or more; else a running process with the largest counter, which is
-- positive, and of those the first.
pub data Chosen (ts : Tasks) (next : ℕ) : Type 0 where
  idle : next ≡ 0 → ((j : ℕ) (d : ℤ) → Runs ts j d → d <ℤ pos 0) → Chosen ts next
  best :
      (j : ℕ) (c : ℤ)
      → next ≡ 1 + j
      → Runs ts j c
      → pos 0 <ℤ c
      → ((i : ℕ) (d : ℤ) → Runs ts i d → d ≤ℤ c)
      → ((i : ℕ) (d : ℤ) → i < j → Runs ts i d → d <ℤ c)
      → Chosen ts next

is_zero-false→pos : (c : ℤ) → is_zero c ≡ false → negsuc 0 <ℤ c → pos 0 <ℤ c
is_zero-false→pos (pos n) h l = ground arith
is_zero-false→pos (negsuc n) h l = absurd (omega arith)

Chosen-of_Scan :
    (ts : Tasks) (r : ℤ × ℕ) → Scan ts 1 (negsuc 0) 0 r → is_zero r.0 ≡ false → Chosen ts r.1
Chosen-of_Scan ts r s nz = choose s.from
  where
    choose : ((r.0 ≡ negsuc 0) × (r.1 ≡ 0)) ⊎ Found ts 1 (negsuc 0) r.0 r.1 → Chosen ts r.1
    choose (inl (e, q)) = idle q λ j d h. omega (arith, s.bound j d h, ap pos_part e, ap neg_part e)
    choose (inr f) = best f.at r.0 f.slot f.runs (is_zero-false→pos r.0 nz f.larger) s.bound f.first

schedule_loop-Chosen :
    (rounds : ℕ) (ts : Tasks) {next : ℕ} {us : Tasks}
    → schedule_loop rounds ts ≡ some (next, us)
    → Chosen us next
unfolding schedule_loop
schedule_loop-Chosen zero ts h = cc
schedule_loop-Chosen (suc rounds) ts {next} {us} h = elim (Bool-cases (is_zero r.0)) [
  | inl e ↦ schedule_loop-Chosen rounds (recharge ts) (rw e at h)
  | inr e ↦ taken e (rw e at h)
]
  where
    r : ℤ × ℕ
    r = select ts 1 (negsuc 0) 0

    taken :
        is_zero r.0 ≡ false
        → ◌≡◌ {A = Option (ℕ × Tasks)} (some (r.1, ts)) (some (next, us))
        → Chosen us next
    taken e q =
        let q0 : r.1 ≡ next = cc in
        let q1 : ts ≡ us = cc in
        rw (← q0, ← q1) (Chosen-of_Scan ts r (select-Scan ts 1 (negsuc 0) 0) e)

pub schedule-some :
    (rounds : ℕ) (k : Kernel) {k' : Kernel}
    → schedule rounds k ≡ some k'
    → (next : ℕ) × (us : Tasks) × (schedule_loop rounds (tail k.tasks) ≡ some (next, us))
      × (k'.tasks ≡ with_tail k.tasks us)
      × (k'.current ≡ next)
unfolding schedule
schedule-some rounds k {k'} h = elim (Option-cases (schedule_loop rounds (tail k.tasks))) [
  | inl e ↦ absurd (ground arith)
  | inr (r, e) ↦ (r.0, r.1, e, ground arith, ground arith)
]

tail-with_tail :
    (ks us : Tasks) {t : Option Process} {ts : Tasks} → ks ≡ t ∷ ts → tail (with_tail ks us) ≡ us
tail-with_tail [] us e = cc
tail-with_tail (k ∷ ks) us e = refl

-- Whenever schedule() returns, its choice is right for the counters that it leaves: slot 0 runs
-- where no process in another slot is running with a counter of 0 or more; otherwise the first of
-- the running processes with the largest counter does, and that counter is positive. `t` is slot 0.
pub schedule-Chosen :
    (rounds : ℕ) (k : Kernel) {k' : Kernel} {t : Option Process} {ts : Tasks}
    → k.tasks ≡ t ∷ ts
    → schedule rounds k ≡ some k'
    → Chosen (tail k'.tasks) k'.current
schedule-Chosen rounds k e h =
    let (next, us, loop, q, c) = schedule-some rounds k h in
    rw (q, c, tail-with_tail k.tasks us e) (schedule_loop-Chosen rounds (tail k.tasks) loop)
