-- ===== src/Fork/First.antt =====
-- kernel/process.c: initSchedule.
use operator_system.Common.{ℕ, ◌+◌, ◌*◌, none, List, get_or, set, replicate}
use operator_system.Common.Int.{pos, negsuc}
use operator_system.Block.{put}
use operator_system.Protect.{Descriptor, set_gdt_desc}
use operator_system.Fork.{
  set_tss, Pcb, ldt_offset, tss_offset, tss_size, page_size, System, no_descriptor,
}

-- setGdtDesc on an entry of the GDT; a store past its end is lost
unfoldable pub set_gdt : (i base limit attribute : ℕ) → List Descriptor → List Descriptor
set_gdt i base limit attribute gdt =
    set gdt i (set_gdt_desc (get_or gdt i no_descriptor) base limit attribute)

-- the two entries of the GDT for the process in slot `nr`, whose PCB is at `p`
unfoldable pub set_entries : (nr p : ℕ) → List Descriptor → List Descriptor
set_entries nr p gdt =
    set_gdt (4 + 2 * nr) (p + ldt_offset) 24 0x82
      (set_gdt (3 + 2 * nr) (p + tss_offset) tss_size 0x89 gdt)

-- the process that initSchedule makes at `p`
unfoldable pub first_process : (p : ℕ) → Pcb
first_process p = record {
  state = 0;
  counter = pos 15;
  priority = 15;
  signal = 0;
  sigaction = λ _. record { handler = 0; sa_mask = 0; sa_flags = 0; restorer = 0 };
  blocked = 0;
  exit_code = 0;
  start_code = 0;
  end_code = 0;
  end_data = 0;
  brk = 0;
  start_stack = 0;
  pid = 0;
  father = negsuc 0;
  pgrp = 0;
  session = 0;
  leader = 0;
  uid = 0;
  euid = 0;
  suid = 0;
  alarm = 0;
  start_time = 0;
  tty = negsuc 0;
  umask = 18;
  pwd = none;
  root = none;
  executable = none;
  close_on_exec = 0;
  filp = replicate 20 none;
  ldt_0 = set_gdt_desc no_descriptor 0 0 0;
  ldt_1 = set_gdt_desc no_descriptor 0 0x9F (0x8000 + 0x4000 + 0x9A + 0x60);
  ldt_2 = set_gdt_desc no_descriptor 0 0x9F (0x8000 + 0x4000 + 0x92 + 0x60);
  tss =
      set_tss 0 (p + page_size) 0x10 0 0 0 0 0 0 0 0 0 0 0 0 0 0 0 0x17 0x17 0x17 0x17 0x17 0x17
        0x20 0 tss_size;
}

-- initSchedule, where INIT_TASKS is at `p`
unfoldable pub init_schedule : (p : ℕ) → System → System
init_schedule p s = record s {
  last_pid = 0;
  pcbs = put p (first_process p) s.pcbs;
  gdt = set_entries 0 p s.gdt;
}
