-- ===== src/Wait/Drain.antt =====
-- Sleepers on one wait queue, woken one after the other.
use operator_system.Common.{
  ℕ, ◌≡◌, ◌≢◌, refl, ap, ◌∙◌, true, false, Option, none, some, List, [], ◌∷◌, ◌==◌, arith,
}
use operator_system.Sched.{Tasks, running, uninterruptible, set_state}
use operator_system.Wait.{Queue, set_running, sleep_on_resume, wake_up, state_at}
use operator_system.Wait.Guard.{state_at-set_state}

-- the suspended calls of sleepOn on a queue, the last first: a slot and its `tmp`
abbrev pub Sleepers : Type 0
Sleepers = List (ℕ × Queue)

set_running-some :
    (ts : Tasks) (i : ℕ)
    → state_at ts i ≢ none
    → state_at (set_running (some i) ts) i ≡ some running
unfolding set_running
set_running-some ts i h = ground (arith, state_at-set_state ts i i running)

-- From the head of the queue the saved pointers lead through the sleepers, each in a slot that
-- holds a process.
abbrev pub Chain : Tasks → Queue → Sleepers → Type 0
Chain ts q [] = q ≡ none
Chain ts q ((i, tmp) ∷ r) = (q ≡ some i) × (state_at ts i ≢ none) × Chain ts tmp r

-- The suspended calls go on, the last sleeper first; `none` where one that should go on is not
-- running, and so is never scheduled.
unfoldable pub resume_all : Sleepers → Queue × Tasks → Option (Queue × Tasks)
resume_all [] s = some s
resume_all ((i, tmp) ∷ r) s = elim (state_at s.1 i) [
  | none ↦ none
  | some st ↦ elim (st == running) [ true ↦ resume_all r (sleep_on_resume tmp s.1) | false ↦ none ]
]

-- every sleeper is running
abbrev pub AllRunning : Tasks → Sleepers → Type 0
AllRunning ts [] = Unit
AllRunning ts ((i, tmp) ∷ r) = (state_at ts i ≡ some running) × AllRunning ts r

-- A store of TASK_RUNNING keeps what runs running, and every slot that holds a process.
set_running-keeps :
    (q : Queue) (ts : Tasks) (j : ℕ)
    → state_at ts j ≡ some running
    → state_at (set_running q ts) j ≡ some running
unfolding set_running
set_running-keeps none ts j h = h
set_running-keeps (some i) ts j h = ground (arith, state_at-set_state ts i j running)

set_state-ne_none :
    (ts : Tasks) (i j s : ℕ) → state_at ts j ≢ none → state_at (set_state ts i s) j ≢ none
set_state-ne_none ts i j s h = ground (arith, state_at-set_state ts i j s)

set_state_self :
    (ts : Tasks) (i s : ℕ) → state_at ts i ≢ none → state_at (set_state ts i s) i ≡ some s
set_state_self ts i s h = ground (arith, state_at-set_state ts i i s)

set_state-ne : (ts : Tasks) (i j s : ℕ) → i ≢ j → state_at (set_state ts i s) j ≡ state_at ts j
set_state-ne ts i j s h = ground (arith, state_at-set_state ts i j s)

Chain-set_state :
    (ts : Tasks) (i s : ℕ) (q : Queue) (sl : Sleepers)
    → Chain ts q sl
    → Chain (set_state ts i s) q sl
Chain-set_state ts i s q [] c = c
Chain-set_state ts i s q ((j, tmp) ∷ r) (e, h, c) =
    (e, set_state-ne_none ts i j s h, Chain-set_state ts i s tmp r c)

set_running-ne_none :
    (q : Queue) (ts : Tasks) (j : ℕ) → state_at ts j ≢ none → state_at (set_running q ts) j ≢ none
unfolding set_running
set_running-ne_none none ts j h = h
set_running-ne_none (some i) ts j h = ground (arith, state_at-set_state ts i j running)

Chain-set_running :
    (p : Queue) (ts : Tasks) (q : Queue) (sl : Sleepers)
    → Chain ts q sl
    → Chain (set_running p ts) q sl
Chain-set_running p ts q [] c = c
Chain-set_running p ts q ((i, tmp) ∷ r) (e, h, c) =
    (e, set_running-ne_none p ts i h, Chain-set_running p ts tmp r c)

-- with no call left to resume, the queue is empty
abbrev Ends : Sleepers → Queue → Type 0
Ends [] q = q ≡ none
Ends (s ∷ r) q = Unit

Ends-of_Chain : (ts : Tasks) (q : Queue) (sl : Sleepers) → Chain ts q sl → Ends sl q
Ends-of_Chain ts q [] c = c
Ends-of_Chain ts q (s ∷ r) c = tt

Ends-none : (sl : Sleepers) → Ends sl none
Ends-none [] = refl
Ends-none (s ∷ r) = tt

-- what the resumed calls leave
record Drained (ts : Tasks) (sl : Sleepers) (q₀ : Queue) (out : Queue × Tasks) : Type 0 where
  queue : Ends sl q₀ → out.0 ≡ none
  woken : AllRunning out.1 sl
  kept : (j : ℕ) → state_at ts j ≡ some running → state_at out.1 j ≡ some running

resume_all-Drained :
    (sl : Sleepers) (q₀ q : Queue) (ts : Tasks)
    → Chain ts q sl
    → (out : Queue × Tasks) × (resume_all sl (q₀, set_running q ts) ≡ some out)
      × Drained ts sl q₀ out
unfolding resume_all sleep_on_resume
resume_all-Drained [] q₀ q ts c = (
  (q₀, set_running q ts),
  refl,
  record { queue = λ e. e; woken = tt; kept = set_running-keeps q ts },
)
resume_all-Drained ((i, tmp) ∷ r) q₀ q ts (e, h, c) =
    let ts' = set_running q ts in
    let now : state_at ts' i ≡ some running = rw e (set_running-some ts i h) in
    let (out, go, d) = resume_all-Drained r tmp tmp ts' (Chain-set_running q ts tmp r c) in
    (
      out,
      rw (now, resume_all) go,
      record {
        queue = λ _. d.queue (Ends-of_Chain ts tmp r c);
        woken = (d.kept i now, d.woken);
        kept = λ j k. d.kept j (set_running-keeps q ts j k);
      },
    )

wake_up-eq : (q : Queue) (ts : Tasks) → wake_up q ts ≡ (none, set_running q ts)
unfolding wake_up
wake_up-eq none ts = refl
wake_up-eq (some i) ts = refl

-- Sleepers on a queue that the saved pointers link, as sleepOn links them, all wake: after one
-- wakeUp and the sleepers' going on in turn, the last first, each was found running when its turn
-- came, all are running, the queue is empty, and every process that was running still is.
pub wake_up-drains :
    (ts : Tasks) (q : Queue) (sl : Sleepers)
    → Chain ts q sl
    → (ts' : Tasks) × (resume_all sl (wake_up q ts) ≡ some (none, ts'))
      × AllRunning ts' sl
      × ((j : ℕ) → state_at ts j ≡ some running → state_at ts' j ≡ some running)
wake_up-drains ts q sl c =
    let (out, go, d) = resume_all-Drained sl none q ts c in
    (
      out.1,
      rw (wake_up-eq q ts, go) (ap (λ p. some (p, out.1)) (d.queue (Ends-none sl))),
      d.woken,
      d.kept,
    )

-- sleepOn's effect on its queue and on the states, up to the switch (Guard.sleep_on-asleep)
unfoldable pub fall_asleep : ℕ → Queue × Tasks → Queue × Tasks
fall_asleep i s = (some i, set_state s.1 i uninterruptible)

-- A sleeper who joins a chain heads it.
pub Chain-fall_asleep :
    (i : ℕ) (ts : Tasks) (q : Queue) (sl : Sleepers)
    → state_at ts i ≢ none
    → Chain ts q sl
    → let s = fall_asleep i (q, ts) in Chain s.1 s.0 ((i, q) ∷ sl)
unfolding fall_asleep
Chain-fall_asleep i ts q sl h c =
    (refl, set_state-ne_none ts i i uninterruptible h, Chain-set_state ts i uninterruptible q sl c)

-- A sleeper can be lost. Let `a` and then `b` sleep on an empty queue, a wakeUp follow, and `c`
-- sleep on the queue before `b` and `a` go on. Then, whichever three different slots these are, the
-- queue is empty while `c` is uninterruptible, and no later wakeUp changes that.
pub sleep_on-lost_wakeup :
    (ts : Tasks) (a b c : ℕ)
    → a ≢ c
    → b ≢ c
    → state_at ts c ≢ none
    → let (q₁, ts₁) = fall_asleep b (fall_asleep a (none, ts)) in
      let (q₂, ts₂) = fall_asleep c (wake_up q₁ ts₁) in
      let (q₃, ts₃) = sleep_on_resume (some a) ts₂ in
      let (q₄, ts₄) = sleep_on_resume none ts₃ in
      (wake_up q₄ ts₄ ≡ (none, ts₄)) × (state_at ts₄ c ≡ some uninterruptible)
unfolding fall_asleep sleep_on_resume wake_up
sleep_on-lost_wakeup ts a b c ac bc h =
    let ts₁ = set_state (set_state ts a uninterruptible) b uninterruptible in
    let ts₂ = set_state ts₁ b running in
    let ts₃ = set_state ts₂ c uninterruptible in
    let h₁ = set_state-ne_none ts a c uninterruptible h in
    let h₂ = set_state-ne_none (set_state ts a uninterruptible) b c uninterruptible h₁ in
    let h₃ = set_state-ne_none ts₁ b c running h₂ in
    (refl, set_state-ne ts₃ a c running ac ∙ set_state_self ts₂ c uninterruptible h₃)
