-- ===== src/Fork.antt =====
-- include/process.h: processes whole, with setTss of kernel/protect.c and setSignal of kernel/signal.c.
pub mod Call
pub mod Child
pub mod Copy
pub mod Distinct
pub mod First
pub mod Undone
mod Tests
use Prim.Native.Nat.{bit_and}
use operator_system.Common.{
  ℕ, zero, suc, ◌+◌, ◌*◌, ◌/◌, ◌%◌, ◌^◌, Bool, true, false, not, Option, none, some, List, [], ◌∷◌,
  ◌==◌, if◌then◌else◌, get_or, set, replicate,
}
use operator_system.Common.Int.{ℤ, pos, negsuc, signed32}
use operator_system.Common.Steps.{◌>>=◌}
use operator_system.Common.Word.{add32}
use operator_system.Block.{put}
use operator_system.Mem.{Memory, get_free_page, free_page, copy_page_tables, free_page_tables}
use operator_system.Protect.{Descriptor, get_desc_base, set_desc_base, set_gdt_desc}

-- `SIGNAL`
pub record Signal : Type 0 where
  pub handler : ℕ
  pub sa_mask : ℕ
  pub sa_flags : ℕ
  pub restorer : ℕ

-- setSignal
unfoldable pub set_signal : Signal → (handler sa_mask sa_flags restorer : ℕ) → Signal
set_signal s handler sa_mask sa_flags restorer = record {
  handler = handler;
  sa_mask = sa_mask;
  sa_flags = sa_flags;
  restorer = restorer;
}

-- `TSS`
pub record Tss : Type 0 where
  pub backlink : ℕ
  pub esp0 : ℕ
  pub ss0 : ℕ
  pub esp1 : ℕ
  pub ss1 : ℕ
  pub esp2 : ℕ
  pub ss2 : ℕ
  pub cr3 : ℕ
  pub eip : ℕ
  pub flags : ℕ
  pub eax : ℕ
  pub ecx : ℕ
  pub edx : ℕ
  pub ebx : ℕ
  pub esp : ℕ
  pub ebp : ℕ
  pub esi : ℕ
  pub edi : ℕ
  pub es : ℕ
  pub cs : ℕ
  pub ss : ℕ
  pub ds : ℕ
  pub fs : ℕ
  pub gs : ℕ
  pub ldt : ℕ
  pub trap : ℕ
  pub iobase : ℕ

-- setTss
unfoldable pub set_tss :
    (backlink esp0 ss0 esp1 ss1 esp2 ss2 cr3 eip flags : ℕ)
    → (eax ecx edx ebx esp ebp esi edi es cs ss ds fs gs ldt trap iobase : ℕ) → Tss
set_tss backlink esp0 ss0 esp1 ss1 esp2 ss2 cr3 eip flags eax ecx edx ebx esp ebp esi edi es cs ss
      ds fs gs ldt trap iobase =
    record {
      backlink = backlink;
      esp0 = esp0;
      ss0 = ss0;
      esp1 = esp1;
      ss1 = ss1;
      esp2 = esp2;
      ss2 = ss2;
      cr3 = cr3;
      eip = eip;
      flags = flags;
      eax = eax;
      ecx = ecx;
      edx = edx;
      ebx = ebx;
      esp = esp;
      ebp = ebp;
      esi = esi;
      edi = edi;
      es = es;
      cs = cs;
      ss = ss;
      ds = ds;
      fs = fs;
      gs = gs;
      ldt = ldt;
      trap = trap;
      iobase = iobase;
    }

-- `PROCESS`, whole; a file or an i-node is its address, and the table `ldt` is three fields
pub record Pcb : Type 0 where
  pub state : ℕ
  pub counter : ℤ
  pub priority : ℕ
  pub signal : ℕ
  pub sigaction : ℕ → Signal
  pub blocked : ℕ
  pub exit_code : ℕ
  pub start_code : ℕ
  pub end_code : ℕ
  pub end_data : ℕ
  pub brk : ℕ
  pub start_stack : ℕ
  pub pid : ℕ
  pub father : ℤ
  pub pgrp : ℕ
  pub session : ℕ
  pub leader : ℕ
  pub uid : ℕ
  pub euid : ℕ
  pub suid : ℕ
  pub alarm : ℕ
  pub start_time : ℕ
  pub tty : ℤ
  pub umask : ℕ
  pub pwd : Option ℕ
  pub root : Option ℕ
  pub executable : Option ℕ
  pub close_on_exec : ℕ
  pub filp : List (Option ℕ)
  pub ldt_0 : Descriptor
  pub ldt_1 : Descriptor
  pub ldt_2 : Descriptor
  pub tss : Tss

-- the places of `ldt` and `tss` in a PROCESS, and sizeof(TSS), PAGE_SIZE
abbrev pub ldt_offset : ℕ
ldt_offset = 696

abbrev pub tss_offset : ℕ
tss_offset = 720

abbrev pub tss_size : ℕ
tss_size = 104

abbrev pub page_size : ℕ
page_size = 4096

-- TASKS and CURRENT, which hold addresses of PCBs, the PCBs, the GDT, memory, last_pid, TICKS, and the
-- counts of users of files and i-nodes. A PCB lies in a page of its own, so it is kept apart from
-- the words of memory.
pub record System : Type 0 where
  pub tasks : List (Option ℕ)
  pub current : ℕ
  pub pcbs : ℕ → Pcb
  pub gdt : List Descriptor
  pub memory : Memory
  pub last_pid : ℕ
  pub ticks : ℕ
  pub f_count : ℕ → ℕ
  pub i_count : ℕ → ℕ

abbrev pub no_descriptor : Descriptor
no_descriptor = record {
  limit_low = 0;
  base_low = 0;
  base_mid = 0;
  attr1 = 0;
  limit_high_attr2 = 0;
  base_high = 0;
}
