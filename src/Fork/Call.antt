-- ===== src/Fork/Call.antt =====
-- kernel/syscall.asm: sysFork, over findEmptyProcess and copyProcess.
use operator_system.Common.{ℕ, Option, none, some, map}
use operator_system.Common.Int.{ℤ, pos, negsuc}
use operator_system.Common.Steps.{◌>>=◌}
use operator_system.Sched.{Process, Tasks, Kernel, find_empty_process}
use operator_system.Fork.{Pcb, System}
use operator_system.Fork.Copy.{Frame, copy_process}

-- what the scheduler and findEmptyProcess see of a PCB, of TASKS, and of the kernel; `at_null` is the
-- PCB at address 0
unfoldable pub scheduled : Pcb → Process
scheduled p = record {
  state = p.state;
  counter = p.counter;
  priority = p.priority;
  signal = p.signal;
  blocked = p.blocked;
  pid = p.pid;
}

abbrev pub slot_of : (ℕ → Pcb) → Option ℕ → Option Process
slot_of pcbs none = none
slot_of pcbs (some a) = some (scheduled (pcbs a))

unfoldable pub tasks_of : System → Tasks
tasks_of s = map (slot_of s.pcbs) s.tasks

unfoldable pub kernel_of : System → Kernel
kernel_of s = record {
  tasks = tasks_of s;
  at_null = scheduled (s.pcbs 0);
  current = s.current;
  last_pid = s.last_pid;
  ticks = s.ticks;
}

-- sysFork with the slot that findEmptyProcess returned
unfoldable pub fork_in :
    (desc_limit : (selector : ℕ) → ℕ) → ℤ → Frame → System → Option (ℤ × System)
fork_in desc_limit (pos nr) f s = copy_process desc_limit nr f s
fork_in desc_limit (negsuc n) f s = some (negsuc n, s)

-- sysFork
unfoldable pub sys_fork :
    (fuel : ℕ) → (desc_limit : (selector : ℕ) → ℕ) → Frame → System → Option (ℤ × System)
sys_fork fuel desc_limit f s = find_empty_process fuel (kernel_of s) >>= λ (slot, k).
    fork_in desc_limit slot f (record s { last_pid = k.last_pid })
