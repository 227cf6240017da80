-- ===== src/Fork/Tests.antt =====
-- A fork of the first process.
use operator_system.Common.{
  ℕ, ◌+◌, ◌*◌, ◌%◌, ◌^◌, ◌≡◌, refl, Bool, true, none, some, [], ◌∷◌, ◌++◌, ◌==◌, if◌then◌else◌,
  replicate, arith,
}
use operator_system.Common.Int.{pos, negsuc}
use operator_system.Mem.{Memory, get_free_page, free_page, copy_page_tables, free_page_tables}
use operator_system.Protect.{get_desc_base, set_gdt_desc}
use operator_system.Sched.{Kernel, find_empty_process}
use operator_system.Fork.{System, no_descriptor}
use operator_system.Fork.First.{first_process}
use operator_system.Fork.Copy.{Frame, copy_process}
use operator_system.Fork.Call.{scheduled, tasks_of, kernel_of, sys_fork}
use operator_system.Fork.Child.{Forked, copy_process-Forked}
use operator_system.Fork.Undone.{Undone, copy_process-Undone}
use operator_system.Fork.Distinct.{IsDistinct, sys_fork-IsDistinct}

-- the kernel's 256 pages, two free ones; the first table of the directory is at 4096
abbrev memory : Memory
memory = record {
  mem_map = replicate 256 100 ++ (0 ∷ 0 ∷ []);
  words = λ a. if a == 0 then 4096 + 7 else if a == 4096 then 8192 + 7 else 0;
}

-- the first process is at 0x8000
abbrev system : System
system = record {
  tasks = some 0x8000 ∷ none ∷ replicate 62 none;
  current = 0x8000;
  pcbs = λ _. first_process 0x8000;
  gdt = replicate 128 no_descriptor;
  memory = memory;
  last_pid = 1;
  ticks = 7;
  f_count = λ _. 0;
  i_count = λ _. 0;
}

abbrev frame : Frame
frame = record {
  edi = 0;
  esi = 0;
  ebp = 0;
  ebx = 0;
  edx = 0;
  ecx = 0;
  gs = 0x17;
  fs = 0x17;
  es = 0x17;
  ds = 0x17;
  eip = 0x1234;
  cs = 0xF;
  eflags = 0x202;
  esp = 0x9F000;
  ss = 0x17;
}

-- getDescLimit of the first process
abbrev limits : (selector : ℕ) → ℕ
limits _ = 0x9FFFF

abbrev tables : Bool × Memory
tables = copy_page_tables (1 * 0x4000000 % 2 ^ 32) 0 0xA0000 (get_free_page memory).1

tables_copied : tables ≡ (true, tables.1)
unfolding copy_page_tables get_free_page
tables_copied = refl

abbrev new_page : ℕ
new_page = 0x100000

copy_process-Forked_example :
    (s' : System) × (copy_process limits 1 frame system ≡ some (pos 1, s'))
    × Forked 1 new_page frame system s'
unfolding get_free_page get_desc_base first_process set_gdt_desc copy_page_tables
copy_process-Forked_example =
    copy_process-Forked limits 1 frame system tables.1 (omega arith) (omega arith) refl
      (λ e. omega (arith, e)) (omega arith) (λ e. omega (arith, e)) refl refl

-- the same with code and data of the parent at different bases
abbrev split : System
split = record system {
  pcbs = λ _. record (first_process 0x8000) { ldt_1 = set_gdt_desc no_descriptor 4096 0 0 };
}

-- the same with one free page, so that there is none for a page table
abbrev full : System
full = record system { memory = record memory { mem_map = replicate 256 100 ++ (0 ∷ []) } }

abbrev full_tables : Memory
full_tables = (copy_page_tables (1 * 0x4000000 % 2 ^ 32) 0 0xA0000 (get_free_page full.memory).1).1

copy_process-Undone_example :
    (s' : System) × (copy_process limits 1 frame full ≡ some (negsuc 0, s'))
    × Undone new_page full s'
    × (s'.memory ≡ record full_tables { mem_map = replicate 256 100 ++ (0 ∷ []) })
unfolding get_free_page get_desc_base first_process set_gdt_desc copy_page_tables free_page_tables
    free_page
copy_process-Undone_example =
    copy_process-Undone limits 1 frame full full_tables full_tables
      (record full_tables { mem_map = replicate 256 100 ++ (0 ∷ []) }) true refl
      (λ e. omega (arith, e)) (λ e. omega (arith, e)) refl refl refl refl

abbrev found : Kernel
found = record (kernel_of system) { last_pid = 2 }

sys_fork-IsDistinct_example :
    (s' : System) × (sys_fork 3 limits frame system ≡ some (pos 2, s'))
    × Forked 1 new_page frame (record system { last_pid = 2 }) s'
    × IsDistinct (tasks_of s')
unfolding get_free_page get_desc_base first_process set_gdt_desc copy_page_tables kernel_of tasks_of
    scheduled find_empty_process
sys_fork-IsDistinct_example =
    sys_fork-IsDistinct 3 1 limits frame system tables.1 found refl (omega arith) refl
      (λ e. omega (arith, e)) (omega arith) (λ e. omega (arith, e)) ((λ e. omega (arith, e)), tt)
      refl refl (tt, tt)
