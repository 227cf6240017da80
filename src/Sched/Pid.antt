-- ===== src/Sched/Pid.antt =====
-- findEmptyProcess of kernel/process.c: a pid that no process has, and a slot that no process holds.
use operator_system.Common.{
  ℕ, zero, suc, ◌+◌, ◌-◌, ◌%◌, ◌^◌, ◌≤◌, ◌<◌, ◌≡◌, ◌≢◌, refl, sym, ◌∙◌, inl, inr, true, false, none,
  some, [], ◌∷◌, ◌==◌, if◌then◌else◌, length, Bool-cases, Option-cases, arith,
}
use operator_system.Common.Int.{ℤ, pos, negsuc}
use operator_system.Sched.{
  Process, Tasks, Kernel, pid_used, next_pid, empty_slot, find_empty_process,
}

-- no process has the pid
abbrev pub IsFresh : Tasks → ℕ → Type 0
IsFresh [] pid = Unit
IsFresh (none ∷ ts) pid = IsFresh ts pid
IsFresh (some p ∷ ts) pid = (p.pid ≢ pid) × IsFresh ts pid

-- every slot is taken
abbrev pub IsFull : Tasks → Type 0
IsFull [] = Unit
IsFull (none ∷ ts) = ⊥
IsFull (some p ∷ ts) = IsFull ts

-- slot `i` is NULL, and every slot before it is taken
abbrev pub FirstEmpty : Tasks → ℕ → Type 0
FirstEmpty [] i = ⊥
FirstEmpty (none ∷ ts) zero = Unit
FirstEmpty (none ∷ ts) (suc i) = ⊥
FirstEmpty (some p ∷ ts) zero = ⊥
FirstEmpty (some p ∷ ts) (suc i) = FirstEmpty ts i

-- what the slot that findEmptyProcess returns stands for
abbrev pub SlotOf : Tasks → ℤ → Type 0
SlotOf ts (pos i) = FirstEmpty ts i
SlotOf ts (negsuc n) = (n ≡ 0) × IsFull ts

IsFresh-pid_used : (ts : Tasks) (pid : ℕ) → pid_used ts pid ≡ false → IsFresh ts pid
unfolding pid_used
IsFresh-pid_used [] pid h = tt
IsFresh-pid_used (none ∷ ts) pid h = IsFresh-pid_used ts pid h
IsFresh-pid_used (some p ∷ ts) pid h = (ground arith, IsFresh-pid_used ts pid (ground arith))

next_pid-IsFresh :
    (fuel : ℕ) (ts : Tasks) (pid : ℕ) {out : ℕ} → next_pid fuel ts pid ≡ some out → IsFresh ts out
unfolding next_pid
next_pid-IsFresh zero ts pid h = cc
next_pid-IsFresh (suc fuel) ts pid {out} h = elim (Bool-cases (pid_used ts pid)) [
  | inl e ↦ next_pid-IsFresh fuel ts ((pid + 1) % 2 ^ 32) (rw e at h)
  | inr e ↦ let q : pid ≡ out = ground arith in rw (← q) (IsFresh-pid_used ts pid e)
]

-- Where the search from slot `i` on ends, `i` slots before `ts`.
SlotFrom : Tasks → ℕ → ℤ → Type 0
SlotFrom ts i (pos n) = (j : ℕ) × (n ≡ i + j) × FirstEmpty ts j
SlotFrom ts i (negsuc n) = (n ≡ 0) × IsFull ts

SlotFrom-some :
    (p : Process) (ts : Tasks) (i : ℕ) (z : ℤ) → SlotFrom ts (i + 1) z → SlotFrom (some p ∷ ts) i z
unfolding SlotFrom
SlotFrom-some p ts i (pos n) (j, e, f) = (suc j, omega (arith, e), f)
SlotFrom-some p ts i (negsuc n) h = h

empty_slot-SlotFrom : (ts : Tasks) (i : ℕ) → SlotFrom ts i (empty_slot ts i)
unfolding SlotFrom empty_slot
empty_slot-SlotFrom [] i = (refl, tt)
empty_slot-SlotFrom (none ∷ ts) i = (0, omega arith, tt)
empty_slot-SlotFrom (some p ∷ ts) i =
    SlotFrom-some p ts i (empty_slot ts (i + 1)) (empty_slot-SlotFrom ts (i + 1))

SlotOf-from : (ts : Tasks) (z : ℤ) → SlotFrom ts 0 z → SlotOf ts z
unfolding SlotFrom
SlotOf-from ts (pos n) (j, e, f) = let q : n ≡ j = omega (arith, e) in rw q f
SlotOf-from ts (negsuc n) h = h

-- Whenever findEmptyProcess returns, no process has the new last_pid; the slot returned is the
-- first NULL one, or -1 where every slot is taken; and the slots are as they were.
pub find_empty_process-IsFresh :
    (fuel : ℕ) (k : Kernel) {slot : ℤ} {k' : Kernel}
    → find_empty_process fuel k ≡ some (slot, k')
    → IsFresh k.tasks k'.last_pid × SlotOf k.tasks slot × (k'.tasks ≡ k.tasks)
unfolding find_empty_process
find_empty_process-IsFresh fuel k {slot} {k'} h =
    elim (Option-cases (next_pid fuel k.tasks ((k.last_pid + 1) % 2 ^ 32))) [
      | inl e ↦ absurd (ground arith)
      | inr (pid, e) ↦
          let q : k'.last_pid ≡ pid = ground arith in
          let s : slot ≡ empty_slot k.tasks 0 = ground arith in
          (
            rw q (next_pid-IsFresh fuel k.tasks _ e),
            rw s (SlotOf-from k.tasks _ (empty_slot-SlotFrom k.tasks 0)),
            ground arith,
          )
    ]

-- the processes whose pid is not `pid`
without : ℕ → Tasks → Tasks
without pid [] = []
without pid (none ∷ ts) = without pid ts
without pid (some p ∷ ts) = if p.pid == pid then without pid ts else some p ∷ without pid ts

length-without-le : (pid : ℕ) (ts : Tasks) → length (without pid ts) ≤ length ts
unfolding without
length-without-le pid [] = omega arith
length-without-le pid (none ∷ ts) = omega (arith, length-without-le pid ts)
length-without-le pid (some p ∷ ts) = ground (arith, length-without-le pid ts)

length-without-lt :
    (pid : ℕ) (ts : Tasks) → pid_used ts pid ≡ true → length (without pid ts) < length ts
unfolding without pid_used
length-without-lt pid [] h = cc
length-without-lt pid (none ∷ ts) h = omega (arith, length-without-lt pid ts h)
length-without-lt pid (some p ∷ ts) h =
    ground (arith, length-without-le pid ts, length-without-lt pid ts)

pid_used-without :
    (pid other : ℕ) (ts : Tasks) → other ≢ pid → pid_used (without pid ts) other ≡ pid_used ts other
unfolding without pid_used
pid_used-without pid other [] ne = refl
pid_used-without pid other (none ∷ ts) ne = pid_used-without pid other ts ne
pid_used-without pid other (some p ∷ ts) ne = ground (arith, pid_used-without pid other ts ne)

-- A pid that the next `fuel` candidates do not reach does not matter.
next_pid-without :
    (fuel pid from : ℕ) (ts : Tasks)
    → from < 2 ^ 32
    → pid < 2 ^ 32
    → fuel ≤ (pid + 2 ^ 32 - from) % 2 ^ 32
    → next_pid fuel (without pid ts) from ≡ next_pid fuel ts from
unfolding next_pid
next_pid-without zero pid from ts hf hp h = refl
next_pid-without (suc fuel) pid from ts hf hp h = rw (
  pid_used-without pid from ts (ground arith),
  next_pid-without fuel pid ((from + 1) % 2 ^ 32) ts (omega arith) hp (omega arith),
)

next_pid-total :
    (fuel from : ℕ) (ts : Tasks)
    → from < 2 ^ 32
    → fuel ≤ 2 ^ 32
    → length ts < fuel
    → (out : ℕ) × (next_pid fuel ts from ≡ some out)
unfolding next_pid
next_pid-total zero from ts hf h l = absurd (omega arith)
next_pid-total (suc fuel) from ts hf h l = elim (Bool-cases (pid_used ts from)) [
  | inl e ↦
      let from' : ℕ = (from + 1) % 2 ^ 32 in
      let (out, q) =
        next_pid-total fuel from' (without from ts) (omega arith) (omega arith)
          (omega (arith, length-without-lt from ts e)) in
      (out, rw e (sym (next_pid-without fuel from from' ts (omega arith) hf (omega arith)) ∙ q))
  | inr e ↦ (from, rw e)
]

-- findEmptyProcess ends: with more rounds than slots (at most 2 ^ 32), among which the code's 65
-- for its 64 slots, the search for a pid finds one.
pub find_empty_process-total :
    (fuel : ℕ) (k : Kernel)
    → length k.tasks < fuel
    → fuel ≤ 2 ^ 32
    → (r : ℤ × Kernel) × (find_empty_process fuel k ≡ some r)
unfolding find_empty_process
find_empty_process-total fuel k l h =
    let (pid, e) = next_pid-total fuel ((k.last_pid + 1) % 2 ^ 32) k.tasks (omega arith) h l in
    ((empty_slot k.tasks 0, record k { last_pid = pid }), rw (e, find_empty_process))
