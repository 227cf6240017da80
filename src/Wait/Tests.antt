-- ===== src/Wait/Tests.antt =====
-- Wait queues at a small table of processes.
use operator_system.Common.{ℕ, ◌≡◌, refl, none, some, [], ◌∷◌, arith}
use operator_system.Common.Int.{pos}
use operator_system.Sched.{Process, Tasks, Kernel, running, uninterruptible}
use operator_system.Wait.{sleep_on_resume, wake_up, state_at}
use operator_system.Wait.Drain.{
  Sleepers, resume_all, AllRunning, fall_asleep, wake_up-drains, sleep_on-lost_wakeup,
}

abbrev worker : ℕ → ℕ → Process
worker pid state = record {
  state = state;
  counter = pos 15;
  priority = 15;
  signal = 0;
  blocked = 0;
  pid = pid;
}

abbrev four : Tasks
four = some (worker 0 0) ∷ some (worker 1 0) ∷ some (worker 2 0) ∷ some (worker 3 0) ∷ []

-- slots 1 and 2 sleep, 2 the last
abbrev two_asleep : Tasks
two_asleep = some (worker 0 0) ∷ some (worker 1 2) ∷ some (worker 2 2) ∷ some (worker 3 0) ∷ []

abbrev chain : Sleepers
chain = (2, some 1) ∷ (1, none) ∷ []

abbrev idle_kernel : Kernel
idle_kernel = record { tasks = four; at_null = worker 0 0; current = 0; last_pid = 3; ticks = 0 }

abbrev switched : Kernel
switched = record {
  tasks = some (worker 0 2) ∷ some (worker 1 0) ∷ some (worker 2 0) ∷ some (worker 3 0) ∷ [];
  at_null = worker 0 0;
  current = 1;
  last_pid = 3;
  ticks = 0;
}

wake_up-drains_example :
    (ts' : Tasks) × (resume_all chain (wake_up (some 2) two_asleep) ≡ some (none, ts'))
    × AllRunning ts' chain
    × ((j : ℕ) → state_at two_asleep j ≡ some running → state_at ts' j ≡ some running)
unfolding state_at
wake_up-drains_example =
    wake_up-drains two_asleep (some 2) chain (refl, ground arith, (refl, ground arith, refl))

sleep_on-lost_wakeup_example :
    let (q₁, ts₁) = fall_asleep 2 (fall_asleep 1 (none, four)) in
    let (q₂, ts₂) = fall_asleep 3 (wake_up q₁ ts₁) in
    let (q₃, ts₃) = sleep_on_resume (some 1) ts₂ in
    let (q₄, ts₄) = sleep_on_resume none ts₃ in
    (wake_up q₄ ts₄ ≡ (none, ts₄)) × (state_at ts₄ 3 ≡ some uninterruptible)
unfolding state_at
sleep_on-lost_wakeup_example =
    sleep_on-lost_wakeup four 1 2 3 (omega arith) (omega arith) (ground arith)
