-- ===== src/Start/Apart.antt =====
-- init/cinit.c: the pages and the buffers that the kernel starts with.
use operator_system.Common.{
  ℕ, suc, ◌+◌, ◌*◌, ◌/◌, ◌^◌, ◌≤◌, ◌<◌, ◌≡◌, ◌≢◌, refl, ap, inl, inr, some, List, [], ◌∷◌, length,
  arith,
}
use operator_system.Common.Int.{pos}
use operator_system.Common.Steps.{◌>>=◌}
use operator_system.Buffer.{Cache, init_buffer}
use operator_system.Buffer.Init.{address, top_of, blocks_of, Ready, init_buffer-Ready}
use operator_system.Disk.Setup.{init_harddisk}
use operator_system.Block.{put}
use operator_system.Fork.{page_size}
use operator_system.Fork.First.{first_process, init_schedule}
use operator_system.Fork.Child.{put_here, Entered, set_entries-Entered}
use operator_system.Mem.{Memory, init_memory, get_free_page}
use operator_system.Mem.Pages.{FirstFree, get_free_page-Allocated}
use operator_system.Mem.Reserve.{whole_pages, init_memory-FirstFree}
use operator_system.Protect.{Descriptor}
use operator_system.Start.{
  Boot, Machine, copy_gdt, move_tables, hook, disk_irq, timer_routine, keyboard_routine,
  start_interrupts, start_memory, start_devices, init_tty, cinit,
}

-- what getFreePage gives lies behind all heads and blocks of the buffers
abbrev pub IsApart : {W : Type 0} → Machine W → Type 0
IsApart m =
    let p = (get_free_page m.system.memory).0 in
    p ≢ 0
    → (i : ℕ) → i < m.cache.nr_buffers
    → (address (i + 1) ≤ (m.cache.heads (address i)).b_data)
      × ((m.cache.heads (address i)).b_data + 1024 ≤ p)

quarter : (m : ℕ) → m ≤ 0x3C00000 → top_of m ≡ whole_pages m / 4
quarter m h = ground (arith, h)

-- a page map whose free pages lie behind `top`
abbrev IsBehind : ℕ → Memory → Type 0
IsBehind top m = (j : ℕ) → FirstFree m.mem_map j → top ≤ j * 2 ^ 12

page-IsBehind :
    (top : ℕ) (m : Memory) → IsBehind top m → (get_free_page m).0 ≢ 0 → top ≤ (get_free_page m).0
page-IsBehind top m h n = elim (get_free_page-Allocated m) [
  | inl (i, e, a) ↦ omega (arith, e, h i a.first)
  | inr (e, _, _) ↦ absurd (n e)
]

-- the heads and blocks of initBuffer, the cache counting from 0
block-place :
    {W : Type 0} (top n i : ℕ) (s s' : Cache W)
    → Ready top n s s'
    → s.nr_buffers ≡ 0
    → i < s'.nr_buffers
    → (address (i + 1) ≤ (s'.heads (address i)).b_data)
      × ((s'.heads (address i)).b_data + 1024 ≤ top)
block-place top n i s s' r z h =
    let l : i < n = omega (arith, h, z, r.count) in
    let b = (r.each i l).place in (omega (arith, b, l, r.room), omega (arith, b, l, r.room))

-- the machine after `initMemory` and `initBuffer`
abbrev with_memory : {W : Type 0} → List ℕ → Cache W → Machine W → Machine W
with_memory ns c m = record m {
  cache = c;
  system = record m.system { memory = record (m.system.memory) { mem_map = ns } };
}

start_memory-some :
    {W : Type 0} (fuel : ℕ) (b : Boot) (m : Machine W) (ns : List ℕ) (c : Cache W)
    → init_memory b.ext_mem_size m.system.memory.mem_map ≡ some ns
    → init_buffer fuel (pos b.ext_mem_size) m.cache ≡ some c
    → start_memory fuel b m ≡ some (with_memory ns c m)
unfolding start_memory
start_memory-some fuel b m ns c e f = rw (e, f) refl

with_memory-IsApart :
    {W : Type 0} (top n : ℕ) (m : Machine W) (ns : List ℕ) (c : Cache W)
    → IsBehind top (record (m.system.memory) { mem_map = ns })
    → Ready top n m.cache c
    → m.cache.nr_buffers ≡ 0
    → IsApart (with_memory ns c m)
with_memory-IsApart top n m ns c h r z page i l =
    let (lo, hi) = block-place top n i m.cache c r z l in
    let q = page-IsBehind top (record (m.system.memory) { mem_map = ns }) h page in
    (lo, omega (arith, hi, q))

length-copy_gdt : (ds es : List Descriptor) → length (copy_gdt ds es) ≡ length es
unfolding copy_gdt
length-copy_gdt [] es = refl
length-copy_gdt (d ∷ ds) [] = refl
length-copy_gdt (d ∷ ds) (e ∷ es) = ap suc (length-copy_gdt ds es)

-- the kernel when cinit is through
pub record Running {W : Type 0} (b : Boot) (m m' : Machine W) : Type 0 where
  pub apart : IsApart m'
  pub buffers : Ready (top_of b.ext_mem_size) (blocks_of b.ext_mem_size) m.cache m'.cache
  pub entries : Entered 0 b.init_tasks m'.system.gdt
  pub first : m'.system.pcbs b.init_tasks ≡ first_process b.init_tasks
  pub timer : m'.irq_table 0 ≡ some timer_routine
  pub keyboard : m'.irq_table 1 ≡ some keyboard_routine
  pub disk : m'.irq_table 14 ≡ disk_irq m.drive.device_intr

started : {W : Type 0} → Boot → Machine W → Machine W
started b m = start_interrupts b (move_tables b m)

started-some :
    {W : Type 0} (fuel : ℕ) (b : Boot) (m : Machine W) (ns : List ℕ) (c : Cache W)
    → init_memory b.ext_mem_size m.system.memory.mem_map ≡ some ns
    → init_buffer fuel (pos b.ext_mem_size) m.cache ≡ some c
    → start_memory fuel b (started b m) ≡ some (with_memory ns c (started b m))
unfolding started start_interrupts move_tables hook
started-some fuel b m ns c e f = start_memory-some fuel b (started b m) ns c e f

started-IsApart :
    {W : Type 0} (top n : ℕ) (b : Boot) (m : Machine W) (ns : List ℕ) (c : Cache W)
    → ((j : ℕ) → FirstFree ns j → top ≤ j * 2 ^ 12)
    → Ready top n m.cache c
    → m.cache.nr_buffers ≡ 0
    → IsApart (with_memory ns c (started b m))
unfolding started start_interrupts move_tables hook
started-IsApart top n b m ns c h r z = with_memory-IsApart top n (started b m) ns c h r z

rest-Running :
    {W : Type 0} (b : Boot) (m : Machine W) (ns : List ℕ) (c : Cache W)
    → IsApart (with_memory ns c (started b m))
    → Ready (top_of b.ext_mem_size) (blocks_of b.ext_mem_size) m.cache c
    → 4 < length m.system.gdt
    → b.init_tasks + page_size < 2 ^ 32
    → Running b m (init_tty (start_devices b (with_memory ns c (started b m))))
unfolding started init_tty start_devices hook init_harddisk init_schedule start_interrupts
    move_tables put
rest-Running b m ns c a r room p = record {
  apart = a;
  buffers = r;
  entries =
      set_entries-Entered 0 b.init_tasks (copy_gdt b.loader_gdt m.system.gdt)
        (omega (arith, room, length-copy_gdt b.loader_gdt m.system.gdt)) p;
  first = put_here b.init_tasks (first_process b.init_tasks) m.system.pcbs;
  timer = refl;
  keyboard = refl;
  disk = refl;
}

-- For a memory of 4 MB and two pages to 60 MB, a GDT with room for the first process, whose PCB is
-- not at the very end of the address space, a cache that has counted no buffer yet, and more rounds
-- than blocks fit in: cinit returns, and then every page that getFreePage can give lies behind the
-- heads and the blocks of all buffers, the heads below their blocks; the buffers are laid out as
-- initBuffer promises; the GDT has the entries for the TSS and the LDT of the first process, whose
-- PCB is initSchedule's; and IRQ_TABLE has the routines of the clock and of the keyboard, and for
-- the disk what DEVICE_INTR was.
pub cinit-Running :
    {W : Type 0} (fuel : ℕ) (b : Boot) (m : Machine W)
    → 0x402000 ≤ b.ext_mem_size
    → b.ext_mem_size ≤ 0x3C00000
    → blocks_of b.ext_mem_size < fuel
    → m.cache.nr_buffers ≡ 0
    → 4 < length m.system.gdt
    → b.init_tasks + page_size < 2 ^ 32
    → (m' : Machine W) × (cinit fuel b m ≡ some m') × Running b m m'
unfolding cinit started start_interrupts
cinit-Running fuel b m lo hi f z room p =
    let size : ℕ = b.ext_mem_size in
    let (ns, e, behind) =
      init_memory-FirstFree size m.system.memory.mem_map (omega (arith, lo)) hi in
    let (c, g, r) = init_buffer-Ready fuel size m.cache lo f in
    let top : top_of size ≡ whole_pages size / 4 = quarter size hi in
    let apart : IsApart (with_memory ns c (started b m)) =
      started-IsApart (top_of size) (blocks_of size) b m ns c
        (λ j q. omega (arith, behind j q, top)) r z in
    (
      init_tty (start_devices b (with_memory ns c (started b m))),
      ap (λ o. o >>= λ m₁. some (init_tty (start_devices b m₁))) (started-some fuel b m ns c e g),
      rest-Running b m ns c apart r room p,
    )
