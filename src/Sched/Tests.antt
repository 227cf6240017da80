-- ===== src/Sched/Tests.antt =====
-- The scheduler and the pid search at small tables.
use operator_system.Common.{ℕ, ◌≡◌, refl, none, some, [], ◌∷◌, map, arith}
use operator_system.Common.Int.{ℤ, pos}
use operator_system.Sched.{Process, Tasks, Kernel, schedule, find_empty_process, tail}
use operator_system.Sched.Select.{Chosen, schedule-Chosen}
use operator_system.Sched.Rounds.{forget, schedule-total, schedule-keeps}
use operator_system.Sched.Pid.{
  IsFresh, SlotOf, find_empty_process-IsFresh, find_empty_process-total,
}

abbrev worker : ℕ → ℕ → ℕ → Process
worker pid state counter = record {
  state = state;
  counter = pos counter;
  priority = 15;
  signal = 0;
  blocked = 0;
  pid = pid;
}

-- slot 1 interruptible with a pending signal, 2 and 3 running, their time used up, slot 4 free
abbrev table : Tasks
table =
    some (worker 0 0 0)
    ∷ some (record { state = 1; counter = pos 3; priority = 15; signal = 2; blocked = 0; pid = 1 })
    ∷ some (worker 2 0 0)
    ∷ some (worker 4 0 0)
    ∷ none
    ∷ []

abbrev kernel : Kernel
kernel = record { tasks = table; at_null = worker 0 0 0; current = 0; last_pid = 0; ticks = 7 }

abbrev after : Kernel
after = record {
  tasks =
      some (worker 0 0 0)
      ∷ some
          (record { state = 1; counter = pos 15; priority = 15; signal = 2; blocked = 0; pid = 1 })
      ∷ some (worker 2 0 15)
      ∷ some (worker 4 0 15)
      ∷ none
      ∷ [];
  at_null = worker 0 0 0;
  current = 2;
  last_pid = 0;
  ticks = 7;
}

schedule_recharges : schedule 2 kernel ≡ some after
unfolding schedule
schedule_recharges = refl

schedule-Chosen_example : Chosen (tail after.tasks) 2
schedule-Chosen_example = schedule-Chosen 2 kernel refl schedule_recharges

schedule-total_example : (k' : Kernel) × (schedule 2 kernel ≡ some k')
schedule-total_example = schedule-total 0 kernel (omega arith)

schedule-keeps_example : map forget after.tasks ≡ map forget table
schedule-keeps_example = schedule-keeps 2 kernel schedule_recharges

-- pids 1 and 2 are taken, so 3 is next
found : find_empty_process 65 kernel ≡ some (pos 4, record kernel { last_pid = 3 })
unfolding find_empty_process
found = refl

find_empty_process-IsFresh_example : IsFresh table 3 × SlotOf table (pos 4) × (table ≡ table)
find_empty_process-IsFresh_example = find_empty_process-IsFresh 65 kernel found

find_empty_process-total_example : (r : ℤ × Kernel) × (find_empty_process 65 kernel ≡ some r)
find_empty_process-total_example = find_empty_process-total 65 kernel (omega arith) (omega arith)
