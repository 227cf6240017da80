-- ===== src/Sched.antt =====
-- kernel/process.c and the timer handler of kernel/time.c: process slots, the scheduler, sleeping.
-- A pointer to a PCB is its slot in TASKS; a NULL slot is `none`.
pub mod Pid
pub mod Rounds
pub mod Select
mod Tests
use Prim.Native.Nat.{bit_and}
use operator_system.Common.{
  ℕ, zero, suc, ◌+◌, ◌-◌, ◌%◌, ◌^◌, Bool, true, false, not, ◌&&◌, Option, none, some, List, [], ◌∷◌,
  ◌==◌, if◌then◌else◌,
}
use operator_system.Common.Int.{ℤ, pos, negsuc, ltb_ℤ, is_zero, pred_ℤ, signed32}

-- TASK_RUNNING, TASK_INTERRUPTIBLE, TASK_UNINTERRUPTIBLE
abbrev pub running : ℕ
running = 0

abbrev pub interruptible : ℕ
interruptible = 1

abbrev pub uninterruptible : ℕ
uninterruptible = 2

-- BLOCKABLE: ~(S(SIGKILL) | S(SIGSTOP)) with SIGKILL = 9 and SIGSTOP = 19
abbrev pub blockable : ℕ
blockable = 2 ^ 32 - 1 - 2 ^ 8 - 2 ^ 18

-- `PROCESS`: the fields that the scheduler and the pid allocator touch
pub record Process : Type 0 where
  pub state : ℕ
  pub counter : ℤ
  pub priority : ℕ
  pub signal : ℕ
  pub blocked : ℕ
  pub pid : ℕ

abbrev pub Tasks : Type 0
Tasks = List (Option Process)

-- TASKS, CURRENT (a slot), last_pid and TICKS. `at_null` is what the words from address 0 on, which
-- the kernel maps, hold where a PCB is read through a NULL pointer.
pub record Kernel : Type 0 where
  pub tasks : Tasks
  pub at_null : Process
  pub current : ℕ
  pub last_pid : ℕ
  pub ticks : ℕ

-- `p->signal & (BLOCKABLE & ~p->blocked)`, as a condition
unfoldable pub has_signal : Process → Bool
has_signal p = not (bit_and p.signal (bit_and blockable (2 ^ 32 - 1 - p.blocked)) == 0)

-- The first loop of schedule(), over the slots from 1 on. Its body runs where the slot IS NULL, so
-- it reads and writes the PCB at address 0, and no other.
unfoldable pub wake_signalled : Tasks → Process → Process
unfolding has_signal
wake_signalled [] at_null = at_null
wake_signalled (none ∷ ts) at_null = wake_signalled ts (
    if has_signal at_null && at_null.state == interruptible
    then record at_null { state = running }
    else at_null)
wake_signalled (some p ∷ ts) at_null = wake_signalled ts at_null

-- The second loop, from slot `i` on: the largest counter so far and its slot.
unfoldable pub select : Tasks → ℕ → ℤ → ℕ → ℤ × ℕ
select [] i c next = (c, next)
select (none ∷ ts) i c next = select ts (i + 1) c next
select (some p ∷ ts) i c next =
    let better = p.state == running && ltb_ℤ c p.counter in
    select ts (i + 1) (if better then p.counter else c) (if better then i else next)

-- `TASKS[i]->counter = TASKS[i]->priority`, from slot 1 on
unfoldable pub recharge : Tasks → Tasks
recharge [] = []
recharge (none ∷ ts) = none ∷ recharge ts
recharge (some p ∷ ts) = some (record p { counter = signed32 p.priority }) ∷ recharge ts

-- The `while (1)` over the slots from 1 on; `none` when the rounds run out.
unfoldable pub schedule_loop : ℕ → Tasks → Option (ℕ × Tasks)
unfolding select recharge
schedule_loop zero ts = none
schedule_loop (suc rounds) ts =
    let (c, next) = select ts 1 (negsuc 0) 0 in
    let again = schedule_loop rounds (recharge ts) in
    if not (is_zero c) then some (next, ts) else again

-- the slots from 1 on
abbrev pub tail : Tasks → Tasks
tail [] = []
tail (t ∷ ts) = ts

abbrev pub with_tail : Tasks → Tasks → Tasks
with_tail [] us = []
with_tail (t ∷ ts) us = t ∷ us

-- schedule(); SWITCH_TO of kernel/krn.asm makes `next` the current process.
unfoldable pub schedule : ℕ → Kernel → Option Kernel
unfolding wake_signalled schedule_loop
schedule rounds k = elim (schedule_loop rounds (tail k.tasks)) [
  | none ↦ none
  | some (next, ts) ↦ some (record k {
    tasks = with_tail k.tasks ts;
    at_null = wake_signalled (tail k.tasks) k.at_null;
    current = next;
  })
]

-- `TASKS[i] && TASKS[i]->pid == last_pid` for some slot
unfoldable pub pid_used : Tasks → ℕ → Bool
pid_used [] pid = false
pid_used (none ∷ ts) pid = pid_used ts pid
pid_used (some p ∷ ts) pid = if p.pid == pid then true else pid_used ts pid

-- The first loop of findEmptyProcess: at a slot that has the pid the search starts over with the
-- next one (`++last_pid; i = -1`). The pid is compared as a u_32.
unfoldable pub next_pid : ℕ → Tasks → ℕ → Option ℕ
unfolding pid_used
next_pid zero ts pid = none
next_pid (suc fuel) ts pid =
    let again = next_pid fuel ts ((pid + 1) % 2 ^ 32) in if pid_used ts pid then again else some pid

-- the second loop: the first NULL slot from `i` on, or -1
unfoldable pub empty_slot : Tasks → ℕ → ℤ
empty_slot [] i = negsuc 0
empty_slot (none ∷ ts) i = pos i
empty_slot (some p ∷ ts) i = empty_slot ts (i + 1)

-- findEmptyProcess(): the slot, and the kernel with the new last_pid
unfoldable pub find_empty_process : ℕ → Kernel → Option (ℤ × Kernel)
unfolding next_pid empty_slot
find_empty_process fuel k = elim (next_pid fuel k.tasks ((k.last_pid + 1) % 2 ^ 32)) [
  | none ↦ none
  | some pid ↦ some (empty_slot k.tasks 0, record k { last_pid = pid })
]

-- a store to the PCB that slot `i` points to
unfoldable pub set_state : Tasks → ℕ → ℕ → Tasks
set_state [] i s = []
set_state (none ∷ ts) zero s = none ∷ ts
set_state (some p ∷ ts) zero s = some (record p { state = s }) ∷ ts
set_state (t ∷ ts) (suc i) s = t ∷ set_state ts i s

unfoldable pub set_counter : Tasks → ℕ → ℤ → Tasks
set_counter [] i c = []
set_counter (none ∷ ts) zero c = none ∷ ts
set_counter (some p ∷ ts) zero c = some (record p { counter = c }) ∷ ts
set_counter (t ∷ ts) (suc i) c = t ∷ set_counter ts i c

abbrev pub counter_at : Tasks → ℕ → ℤ
counter_at [] i = pos 0
counter_at (none ∷ ts) zero = pos 0
counter_at (some p ∷ ts) zero = p.counter
counter_at (t ∷ ts) (suc i) = counter_at ts i

-- timerHandler of kernel/time.c
unfoldable pub timer_handler : ℕ → Kernel → Option Kernel
unfolding set_counter schedule
timer_handler rounds k =
    let c = pred_ℤ (counter_at k.tasks k.current) in
    let k' = record k { ticks = (k.ticks + 1) % 2 ^ 32; tasks = set_counter k.tasks k.current c } in
    if ltb_ℤ (pos 0) c then some k' else schedule rounds k'
