-- ===== src/Start.antt =====
-- init/cinit.c: the start of the kernel, from the tables that the loader leaves to the first process.
pub mod Apart
mod Tests
use operator_system.Common.{
  ℕ, zero, suc, ◌+◌, ◌-◌, ◌*◌, ◌/◌, ◌%◌, ◌^◌, Bool, true, Option, none, some, List, [], ◌∷◌, map,
}
use operator_system.Common.Int.{pos}
use operator_system.Common.Steps.{◌>>=◌}
use operator_system.Block.{put}
use operator_system.Block.Transfer.{init_blk_dev}
use operator_system.Buffer.{Cache, init_buffer}
use operator_system.Console.{Console, init_console}
use operator_system.Disk.Controller.{Handler, Drive}
use operator_system.Disk.Setup.{Hooks, init_harddisk}
use operator_system.Fork.{System}
use operator_system.Fork.First.{init_schedule}
use operator_system.Mem.{init_memory}
use operator_system.Protect.{Descriptor, Gate, Routine, init_idt_desc, init_8259a}
use operator_system.Time.{Started, init_time}

-- what IRQ_TABLE points to
pub data IrqRoutine : Type 0 where
  timer_routine : IrqRoutine
  keyboard_routine : IrqRoutine
  disk_routine : Handler → IrqRoutine

-- what cinit reads: the loader's GDT and the values at EXT_MEM_SIZE and ROOT_DEV_TYPE, the bytes of the
-- CMOS clock, and the addresses of the interrupt routines, of GDT, IDT and INIT_TASKS
pub record Boot : Type 0 where
  pub loader_gdt : List Descriptor
  pub ext_mem_size : ℕ
  pub root_dev_type : ℕ
  pub cmos : ℕ → ℕ
  pub routine : Routine → ℕ
  pub gdt : ℕ
  pub idt : ℕ
  pub init_tasks : ℕ

-- the variables of the parts that cinit starts; the pointers are a limit and a base, and `ports` are the
-- bytes that init8259A writes
pub record Machine (W : Type 0) : Type 0 where
  pub gdt_ptr : ℕ × ℕ
  pub idt_ptr : ℕ × ℕ
  pub root_dev : ℕ
  pub idt : List Gate
  pub ports : List (ℕ × ℕ)
  pub time : Started
  pub cache : Cache W
  pub system : System
  pub drive : Drive
  pub hooks : Hooks
  pub console : Console
  pub irq_table : ℕ → Option IrqRoutine
  pub irq_enabled : ℕ → Bool

-- memcpy of the loader's descriptors to the GDT
unfoldable pub copy_gdt : (loader gdt : List Descriptor) → List Descriptor
copy_gdt [] gdt = gdt
copy_gdt (d ∷ ds) [] = []
copy_gdt (d ∷ ds) (e ∷ es) = d ∷ copy_gdt ds es

-- cinit up to `ROOT_DEV = ROOT_DEV_TYPE`
unfoldable pub move_tables : {W : Type 0} → Boot → Machine W → Machine W
move_tables b m = record m {
  gdt_ptr = (128 * 8 - 1, b.gdt);
  idt_ptr = (256 * 8 - 1, b.idt);
  root_dev = b.root_dev_type;
  system = record m.system { gdt = copy_gdt b.loader_gdt m.system.gdt };
}

-- enableIrq and putIrqHandler
unfoldable pub hook : {W : Type 0} → (irq : ℕ) → Option IrqRoutine → Machine W → Machine W
hook irq r m = record m {
  irq_table = put irq r m.irq_table;
  irq_enabled = put irq true m.irq_enabled;
}

-- `initIdtDesc(); init8259A(); initTime();`
unfoldable pub start_interrupts : {W : Type 0} → Boot → Machine W → Machine W
start_interrupts b m = hook 0 (some timer_routine) (record m {
  idt = init_idt_desc b.routine m.idt;
  ports = init_8259a;
  time = init_time b.cmos;
  system = record m.system { ticks = 0 };
})

-- `initMemory(EXT_MEM_SIZE); initBuffer(EXT_MEM_SIZE);`; `none` where one of them spins
unfoldable pub start_memory : {W : Type 0} → (fuel : ℕ) → Boot → Machine W → Option (Machine W)
start_memory fuel b m = do
  mem_map ← init_memory b.ext_mem_size m.system.memory.mem_map
  cache ← init_buffer fuel (pos b.ext_mem_size) m.cache
  some (record m {
    cache = cache;
    system = record m.system { memory = record (m.system.memory) { mem_map = mem_map } };
  })

abbrev pub disk_irq : Option Handler → Option IrqRoutine
disk_irq none = none
disk_irq (some h) = some (disk_routine h)

-- `initSchedule(); initBlkDev(); initHarddisk();`
unfoldable pub start_devices : {W : Type 0} → Boot → Machine W → Machine W
start_devices b m =
    let drive = record m.drive { device = init_blk_dev m.drive.device } in
    let (hooks, drive') = init_harddisk m.hooks drive in
    hook 14 (disk_irq hooks.irq_handler)
      (record m { system = init_schedule b.init_tasks m.system; hooks = hooks; drive = drive' })

-- initTty
unfoldable pub init_tty : {W : Type 0} → Machine W → Machine W
init_tty m = hook 1 (some keyboard_routine) (record m { console = init_console m.console })

-- cinit; ltr and lldtr have no state
unfoldable pub cinit : {W : Type 0} → (fuel : ℕ) → Boot → Machine W → Option (Machine W)
cinit fuel b m = do
  m₁ ← start_memory fuel b (start_interrupts b (move_tables b m))
  some (init_tty (start_devices b m₁))
