-- ===== src/Fork/Copy.antt =====
-- kernel/process.c: copyMem and copyProcess.
use Prim.Native.Nat.{bit_and}
use operator_system.Common.{
  ℕ, ◌+◌, ◌*◌, ◌%◌, ◌^◌, Bool, true, false, not, Option, none, some, List, [], ◌∷◌, ◌==◌,
  if◌then◌else◌, set,
}
use operator_system.Common.Int.{ℤ, negsuc, signed32}
use operator_system.Common.Steps.{◌>>=◌}
use operator_system.Common.Word.{add32}
use operator_system.Block.{put}
use operator_system.Mem.{get_free_page, free_page, copy_page_tables, free_page_tables}
use operator_system.Protect.{get_desc_base, set_desc_base}
use operator_system.Fork.{Tss, Pcb, tss_size, page_size, System}
use operator_system.Fork.First.{set_entries}

-- the arguments of copyProcess that it uses but for `nr`
pub record Frame : Type 0 where
  pub edi : ℕ
  pub esi : ℕ
  pub ebp : ℕ
  pub ebx : ℕ
  pub edx : ℕ
  pub ecx : ℕ
  pub gs : ℕ
  pub fs : ℕ
  pub es : ℕ
  pub ds : ℕ
  pub eip : ℕ
  pub cs : ℕ
  pub eflags : ℕ
  pub esp : ℕ
  pub ss : ℕ

-- the stores to `p->tss` in copyProcess
unfoldable pub child_tss : (nr p : ℕ) → Frame → Tss → Tss
child_tss nr p f t = record t {
  backlink = 0;
  esp0 = add32 p page_size;
  ss0 = 0x10;
  eip = f.eip;
  flags = f.eflags;
  eax = 0;
  ecx = f.ecx;
  edx = f.edx;
  ebx = f.ebx;
  esp = f.esp;
  ebp = f.ebp;
  esi = f.esi;
  edi = f.edi;
  es = bit_and f.es 0xFFFF;
  cs = bit_and f.cs 0xFFFF;
  ss = bit_and f.ss 0xFFFF;
  ds = bit_and f.ds 0xFFFF;
  fs = bit_and f.fs 0xFFFF;
  gs = bit_and f.gs 0xFFFF;
  ldt = nr * 2 ^ 4 + 0x20;
  trap = 0;
  iobase = tss_size;
}

-- copyProcess from `*p = *CURRENT` to copyMem: the child's PCB, from the parent's
unfoldable pub child_pcb : (nr p : ℕ) → Frame → (last_pid ticks : ℕ) → Pcb → Pcb
child_pcb nr p f last_pid ticks parent = record parent {
  state = 2;
  pid = last_pid;
  father = signed32 parent.pid;
  counter = signed32 parent.priority;
  signal = 0;
  alarm = 0;
  leader = 0;
  start_time = ticks;
  tss = child_tss nr p f parent.tss;
}

unfoldable pub set_pcb : (p : ℕ) → Pcb → System → System
set_pcb p pcb s = record s { pcbs = put p pcb s.pcbs }

-- copyMem for the child at `p`: whether it succeeds; `none` where freePage spins. `desc_limit` is
-- getDescLimit, the instruction lsl.
unfoldable pub copy_mem :
    (desc_limit : (selector : ℕ) → ℕ) → (nr p : ℕ) → System → Option (Bool × System)
copy_mem desc_limit nr p s =
    let base = nr * 0x4000000 % 2 ^ 32 in
    let data_limit = desc_limit 0x17 in
    let old_base = get_desc_base (s.pcbs s.current).ldt_2 in
    let child = s.pcbs p in
    let s₁ =
      set_pcb p
        (record child {
          ldt_1 = set_desc_base child.ldt_1 base;
          ldt_2 = set_desc_base child.ldt_2 base;
        })
        s in
    let (copied, m) = copy_page_tables base old_base (add32 data_limit 1) s.memory in
    if not (get_desc_base (s.pcbs s.current).ldt_1 == old_base)
    then some (false, s)
    else if copied
    then some (true, record s₁ { memory = m })
    else (free_page_tables base data_limit m >>= λ (_, m'). some (false, record s₁ { memory = m' }))

-- one more user of what a pointer points to, where it is not NULL; the counts are u_16
unfoldable pub count_user : Option ℕ → (ℕ → ℕ) → ℕ → ℕ
count_user none counts = counts
count_user (some i) counts = put i ((counts i + 1) % 2 ^ 16) counts

unfoldable pub count_files : List (Option ℕ) → (ℕ → ℕ) → ℕ → ℕ
count_files [] counts = counts
count_files (f ∷ fs) counts = count_files fs (count_user f counts)

-- copyProcess from the loop over the open files on
unfoldable pub finish_child : (nr p : ℕ) → System → System
finish_child nr p s =
    let parent = s.pcbs s.current in
    record s {
      pcbs = put p (record (s.pcbs p) { state = 0 }) s.pcbs;
      gdt = set_entries nr p s.gdt;
      f_count = count_files (s.pcbs p).filp s.f_count;
      i_count =
          count_user parent.executable (count_user parent.root (count_user parent.pwd s.i_count));
    }

-- `TASKS[nr] = NULL; freePage((u_32)p)`
unfoldable pub undo_child : (nr p : ℕ) → System → Option System
undo_child nr p s = do
  m ← free_page p s.memory
  some (record s { tasks = set s.tasks nr none; memory = m })

-- copyProcess once it has the page `p`
unfoldable pub copy_to :
    (desc_limit : (selector : ℕ) → ℕ) → (nr p : ℕ) → Frame → System → Option (ℤ × System)
copy_to desc_limit nr p f s =
    let s₁ =
      set_pcb p (child_pcb nr p f s.last_pid s.ticks (s.pcbs s.current))
        (record s { tasks = set s.tasks nr (some p) }) in
    copy_mem desc_limit nr p s₁ >>= λ (copied, s₂).
    if copied
    then some (signed32 s.last_pid, finish_child nr p s₂)
    else (do s₃ ← undo_child nr p s₂; some (negsuc 0, s₃))

-- copyProcess for a slot `nr`: its result, and the system; `none` where freePage spins
unfoldable pub copy_process :
    (desc_limit : (selector : ℕ) → ℕ) → (nr : ℕ) → Frame → System → Option (ℤ × System)
copy_process desc_limit nr f s =
    let (p, m) = get_free_page s.memory in
    if p == 0
    then some (negsuc 0, record s { memory = m })
    else copy_to desc_limit nr p f (record s { memory = m })
