-- ===== src/Wait/Guard.antt =====
-- The guard of sleepOn, and what a process that goes to sleep leaves behind.
use operator_system.Common.{
  ℕ, zero, suc, ◌≡◌, ◌≢◌, refl, sym, ap, ◌∙◌, none, some, [], ◌∷◌, map, ◌==◌, if◌then◌else◌, arith,
}
use operator_system.Sched.{Tasks, Kernel, uninterruptible, set_state, schedule}
use operator_system.Sched.Rounds.{forget, schedule-keeps}
use operator_system.Wait.{Queue, asleep, sleep_on, state_at}

pub state_at-set_state :
    (ts : Tasks) (i j s : ℕ)
    → state_at (set_state ts i s) j
      ≡ (if i == j then elim (state_at ts i) [ none ↦ none | some _ ↦ some s ] else state_at ts j)
unfolding state_at set_state
state_at-set_state [] i j s = ground arith
state_at-set_state (none ∷ ts) zero zero s = ground arith
state_at-set_state (none ∷ ts) zero (suc j) s = ground arith
state_at-set_state (some p ∷ ts) zero zero s = ground arith
state_at-set_state (some p ∷ ts) zero (suc j) s = ground arith
state_at-set_state (none ∷ ts) (suc i) zero s = ground arith
state_at-set_state (some p ∷ ts) (suc i) zero s = ground arith
state_at-set_state (none ∷ ts) (suc i) (suc j) s = ground (arith, state_at-set_state ts i j s)
state_at-set_state (some p ∷ ts) (suc i) (suc j) s = ground (arith, state_at-set_state ts i j s)

state_at-forget : (ts : Tasks) (i : ℕ) → state_at (map forget ts) i ≡ state_at ts i
unfolding state_at
state_at-forget [] i = refl
state_at-forget (none ∷ ts) zero = refl
state_at-forget (some p ∷ ts) zero = refl
state_at-forget (none ∷ ts) (suc i) = state_at-forget ts i
state_at-forget (some p ∷ ts) (suc i) = state_at-forget ts i

-- Whichever process calls it, slot 0's included, sleepOn does not take its "task[0]" branch: where
-- the caller's slot holds a process and schedule() returns, the caller is uninterruptible, heads
-- the queue and has kept the head before it, and every other process has the state it had.
pub sleep_on-asleep :
    (rounds : ℕ) (q : Queue) (k : Kernel) {s : ℕ} {k' : Kernel}
    → state_at k.tasks k.current ≡ some s
    → schedule rounds (record k { tasks = set_state k.tasks k.current uninterruptible }) ≡ some k'
    → (sleep_on rounds (some q) k ≡ asleep q (some k.current) k')
      × (state_at k'.tasks k.current ≡ some uninterruptible)
      × ((j : ℕ) → k.current ≢ j → state_at k'.tasks j ≡ state_at k.tasks j)
unfolding sleep_on
sleep_on-asleep rounds q k {k'} here h = (
  rw h,
  after k.current ∙ ground (arith, state_at-set_state k.tasks k.current k.current uninterruptible),
  λ j ne. after j ∙ ground (arith, state_at-set_state k.tasks k.current j uninterruptible),
)
  where
    after : (j : ℕ) → state_at k'.tasks j ≡ state_at (set_state k.tasks k.current uninterruptible) j
    after j =
        sym (state_at-forget k'.tasks j)
        ∙ ap (λ ts. state_at ts j) (schedule-keeps rounds _ h)
        ∙ state_at-forget _ j
