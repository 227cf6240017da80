-- ===== src/Wait.antt =====
-- sleepOn and wakeUp of kernel/process.c: wait queues. A queue is a PROCESS* that names the last
-- sleeper; each sleeper keeps the one before it in its local `tmp`. A process is its slot.
pub mod Guard
pub mod Drain
mod Tests
use operator_system.Common.{
  ℕ, zero, suc, Bool, true, false, Option, none, some, List, [], ◌∷◌, ◌==◌, if◌then◌else◌,
}
use operator_system.Sched.{Process, Tasks, Kernel, running, uninterruptible, set_state, schedule}

abbrev pub Queue : Type 0
Queue = Option ℕ

-- Addresses that the code compares: of a PCB, and of an entry of the array TASKS itself.
pub data Addr : Type 0 where
  pcb : ℕ → Addr
  tasks_entry : ℕ → Addr

unfoldable pub same_addr : Addr → Addr → Bool
same_addr (pcb i) (pcb j) = i == j
same_addr (pcb i) (tasks_entry j) = false
same_addr (tasks_entry i) (pcb j) = false
same_addr (tasks_entry i) (tasks_entry j) = i == j

-- How the part of sleepOn before its process is switched away ends: it returns at once, it spins on
-- "task[0] trying to sleep", schedule() spins, or the process sleeps with `tmp` on its stack.
pub data Entered : Type 0 where
  returned : Kernel → Entered
  panic : Entered
  spinning : Entered
  asleep : (tmp queue : Queue) → Kernel → Entered

-- sleepOn up to and with schedule(); `none` is a NULL `p`, `some q` a queue that holds `q`. The
-- test compares CURRENT with the address `&TASKS[0]`.
unfoldable pub sleep_on : ℕ → Option Queue → Kernel → Entered
unfolding same_addr
sleep_on rounds none k = returned k
sleep_on rounds (some q) k =
    if same_addr (pcb k.current) (tasks_entry 0)
    then panic
    else elim (schedule rounds (record k { tasks = set_state k.tasks k.current uninterruptible })) [
      | none ↦ spinning
      | some k' ↦ asleep q (some k.current) k'
    ]

-- `if (tmp) tmp->state = TASK_RUNNING`
unfoldable pub set_running : Queue → Tasks → Tasks
set_running none ts = ts
set_running (some i) ts = set_state ts i running

-- The rest of sleepOn, run when the process is next scheduled: `*p = tmp`, and `tmp` runs.
unfoldable pub sleep_on_resume : Queue → Tasks → Queue × Tasks
unfolding set_running
sleep_on_resume tmp ts = (tmp, set_running tmp ts)

-- wakeUp with `p` not NULL: the process at the head runs, and the queue is empty.
unfoldable pub wake_up : Queue → Tasks → Queue × Tasks
unfolding set_running
wake_up none ts = (none, ts)
wake_up (some i) ts = (none, set_running (some i) ts)

-- the state of the process in a slot
unfoldable pub state_at : Tasks → ℕ → Option ℕ
state_at [] i = none
state_at (none ∷ ts) zero = none
state_at (some p ∷ ts) zero = some p.state
state_at (t ∷ ts) (suc i) = state_at ts i
