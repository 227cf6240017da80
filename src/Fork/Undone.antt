-- ===== src/Fork/Undone.antt =====
-- kernel/process.c: a copyProcess that fails.
use operator_system.Common.{
  ℕ, zero, suc, ◌*◌, ◌%◌, ◌^◌, ◌≤◌, ◌<◌, ◌≡◌, ◌≢◌, refl, sym, ap, ◌∙◌, Bool, false, Option, none,
  some, List, [], ◌∷◌, eq→==, ne→==, get_or, set, arith,
}
use operator_system.Common.Int.{negsuc}
use operator_system.Common.Word.{add32}
use operator_system.Block.{put}
use operator_system.Mem.{
  Memory, kernel_mem, mem_size_max, get_free_page, free_page, copy_page_tables, free_page_tables,
}
use operator_system.Mem.Pages.{free_page-get_free_page}
use operator_system.Protect.{get_desc_base}
use operator_system.Fork.{Pcb, System}
use operator_system.Fork.Copy.{Frame, set_pcb, copy_mem, undo_child, copy_to, copy_process}
use operator_system.Fork.Child.{put_there, prepared, prepared-parent, based}

-- a copyProcess that failed: all that is left is the page of the PCB and what memory has
pub record Undone (p : ℕ) (s s' : System) : Type 0 where
  pub tasks : s'.tasks ≡ s.tasks
  pub current : s'.current ≡ s.current
  pub gdt : s'.gdt ≡ s.gdt
  pub last_pid : s'.last_pid ≡ s.last_pid
  pub f_count : s'.f_count ≡ s.f_count
  pub i_count : s'.i_count ≡ s.i_count
  pub other_pcbs : (q : ℕ) → q ≢ p → s'.pcbs q ≡ s.pcbs q

set-none :
    {A : Type 0} (xs : List (Option A)) (i : ℕ) (a : A)
    → get_or xs i none ≡ none
    → set (set xs i (some a)) i none ≡ xs
set-none [] i a h = refl
set-none (x ∷ xs) zero a h = ap (λ y. y ∷ xs) (sym h)
set-none (x ∷ xs) (suc i) a h = ap (λ ys. x ∷ ys) (set-none xs i a h)

-- the two ways in which copyMem fails: with unequal bases, and with page tables that cannot be copied
copy_mem-unequal :
    (desc_limit : ℕ → ℕ) (nr p : ℕ) (s : System)
    → get_desc_base (s.pcbs s.current).ldt_1 ≢ get_desc_base (s.pcbs s.current).ldt_2
    → copy_mem desc_limit nr p s ≡ some (false, s)
unfolding copy_mem
copy_mem-unequal desc_limit nr p s h = rw (ne→== _ _ h) refl

copy_mem-failed :
    (desc_limit : ℕ → ℕ) (nr p : ℕ) (s : System) (m m' : Memory) (b : Bool)
    → let old = get_desc_base (s.pcbs s.current).ldt_2 in
      let base = nr * 0x4000000 % 2 ^ 32 in
      get_desc_base (s.pcbs s.current).ldt_1 ≡ old
      → copy_page_tables base old (add32 (desc_limit 0x17) 1) s.memory ≡ (false, m)
      → free_page_tables base (desc_limit 0x17) m ≡ some (b, m')
      → copy_mem desc_limit nr p s
        ≡ some (false, record (set_pcb p (based nr (s.pcbs p)) s) { memory = m' })
unfolding copy_mem
copy_mem-failed desc_limit nr p s m m' b same e g = rw (e, g, eq→== _ _ same) refl

-- undoing from a system that differs from the one before in the slot, the PCB at `p` and memory
undo_child-Undone :
    (nr p : ℕ) (s : System) (pcbs : ℕ → Pcb) (m m' : Memory)
    → get_or s.tasks nr none ≡ none
    → ((q : ℕ) → q ≢ p → pcbs q ≡ s.pcbs q)
    → free_page p m ≡ some m'
    → let s₁ = record s { tasks = set s.tasks nr (some p); pcbs = pcbs; memory = m } in
      (s' : System) × (undo_child nr p s₁ ≡ some s') × Undone p s s' × (s'.memory ≡ m')
unfolding undo_child
undo_child-Undone nr p s pcbs m m' empty same e = (
  record s { tasks = set (set s.tasks nr (some p)) nr none; pcbs = pcbs; memory = m' },
  rw e refl,
  record {
    tasks = set-none s.tasks nr p empty;
    current = refl;
    gdt = refl;
    last_pid = refl;
    f_count = refl;
    i_count = refl;
    other_pcbs = same;
  },
  refl,
)

-- a copyMem that fails makes copyProcess give back the slot and the page
copy_to-Undone :
    (desc_limit : ℕ → ℕ) (nr p : ℕ) (f : Frame) (s : System) (pcbs : ℕ → Pcb) (m m' : Memory)
    → get_or s.tasks nr none ≡ none
    → ((q : ℕ) → q ≢ p → pcbs q ≡ s.pcbs q)
    → copy_mem desc_limit nr p (prepared nr p f s)
      ≡ some (false, record s { tasks = set s.tasks nr (some p); pcbs = pcbs; memory = m })
    → free_page p m ≡ some m'
    → (s' : System) × (copy_to desc_limit nr p f s ≡ some (negsuc 0, s'))
      × Undone p s s'
      × (s'.memory ≡ m')
unfolding copy_to
copy_to-Undone desc_limit nr p f s pcbs m m' empty same fails e =
    let (s', u, r, g) = undo_child-Undone nr p s pcbs m m' empty same e in
    (s', rw (fails, u) refl, r, g)

Undone-memory :
    (p : ℕ) (s s' : System) (m : Memory) → Undone p (record s { memory = m }) s' → Undone p s s'
Undone-memory p s s' m u = record {
  tasks = u.tasks;
  current = u.current;
  gdt = u.gdt;
  last_pid = u.last_pid;
  f_count = u.f_count;
  i_count = u.i_count;
  other_pcbs = u.other_pcbs;
}

-- In an empty slot, with the parent's code and data at different bases: copyProcess returns -1, gives
-- its page back, so that the page map is what it was, and leaves the slot empty, the GDT, last_pid,
-- the counts of files and i-nodes, and the other PCBs as they were.
pub copy_process-unequal :
    (desc_limit : ℕ → ℕ) (nr : ℕ) (f : Frame) (s : System)
    → let p = (get_free_page s.memory).0 in
      get_or s.tasks nr none ≡ none
      → kernel_mem ≤ p
      → p < mem_size_max
      → s.current ≢ p
      → get_desc_base (s.pcbs s.current).ldt_1 ≢ get_desc_base (s.pcbs s.current).ldt_2
      → (s' : System) × (copy_process desc_limit nr f s ≡ some (negsuc 0, s'))
        × Undone p s s'
        × (s'.memory.mem_map ≡ s.memory.mem_map)
unfolding copy_process set_pcb
copy_process-unequal desc_limit nr f s empty lo hi own unequal =
    let (p, m₁) = get_free_page s.memory in
    let s₁ : System = record s { memory = m₁ } in
    let page : p ≢ 0 = λ e. omega (arith, lo, e) in
    let (m', e, back) = free_page-get_free_page s.memory lo hi in
    let q = prepared-parent nr p f s₁ own in
    let fails = copy_mem-unequal desc_limit nr p (prepared nr p f s₁) (rw q unequal) in
    let (s', r, u, g) =
      copy_to-Undone desc_limit nr p f s₁ (prepared nr p f s₁).pcbs m₁ m' empty
        (λ k h. put_there p k _ _ h) fails e in
    (s', rw (ne→== p 0 page) r, Undone-memory p s s' m₁ u, ap (λ x. x.mem_map) g ∙ back)

-- In an empty slot, where getFreePage gives a page that is not the current process's, the parent's
-- code and data have one base, copyPageTables fails, and what freePageTables and then freePage do
-- with its memory ends: copyProcess returns -1 with the memory that they leave, the slot is empty,
-- and the GDT, last_pid, the counts of files and i-nodes and the other PCBs are as they were.
pub copy_process-Undone :
    (desc_limit : ℕ → ℕ) (nr : ℕ) (f : Frame) (s : System) (m m' m'' : Memory) (b : Bool)
    → let (p, m₁) = get_free_page s.memory in
      let old = get_desc_base (s.pcbs s.current).ldt_2 in
      let base = nr * 0x4000000 % 2 ^ 32 in
      get_or s.tasks nr none ≡ none
      → p ≢ 0
      → s.current ≢ p
      → get_desc_base (s.pcbs s.current).ldt_1 ≡ old
      → copy_page_tables base old (add32 (desc_limit 0x17) 1) m₁ ≡ (false, m)
      → free_page_tables base (desc_limit 0x17) m ≡ some (b, m')
      → free_page p m' ≡ some m''
      → (s' : System) × (copy_process desc_limit nr f s ≡ some (negsuc 0, s'))
        × Undone p s s'
        × (s'.memory ≡ m'')
unfolding copy_process set_pcb
copy_process-Undone desc_limit nr f s m m' m'' b empty page own same e g h =
    let (p, m₁) = get_free_page s.memory in
    let s₁ : System = record s { memory = m₁ } in
    let q = prepared-parent nr p f s₁ own in
    let s₂ : System = prepared nr p f s₁ in
    let fails = copy_mem-failed desc_limit nr p s₂ m m' b (rw q same) (rw q e) g in
    let (s', r, u, k) =
      copy_to-Undone desc_limit nr p f s₁ (put p (based nr (s₂.pcbs p)) s₂.pcbs) m' m'' empty
        (λ j l. put_there p j _ _ l ∙ put_there p j _ _ l) fails h in
    (s', rw (ne→== p 0 page) r, Undone-memory p s s' m₁ u, k)
