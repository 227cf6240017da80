-- ===== src/Fork/Child.antt =====
-- kernel/process.c: the child that copyProcess makes.
use operator_system.Common.{
  ℕ, ◌+◌, ◌*◌, ◌/◌, ◌%◌, ◌^◌, ◌<◌, ◌≡◌, ◌≢◌, refl, ap, ◌∙◌, true, none, some, List, eq→==, ne→==,
  get_or, set, length, length-set, get_or-set_self, get_or-set_ne, arith,
}
use operator_system.Common.Int.{signed32}
use operator_system.Common.Word.{add32}
use operator_system.Block.{put}
use operator_system.Mem.{Memory, get_free_page, copy_page_tables}
use operator_system.Protect.{Descriptor, get_desc_base, set_desc_base, set_gdt_desc}
use operator_system.Protect.Segments.{
  limit_of, get_desc_base-set_gdt_desc, get_desc_base-set_desc_base,
}
use operator_system.Fork.{Pcb, System, ldt_offset, tss_offset, tss_size, page_size, no_descriptor}
use operator_system.Fork.First.{set_gdt, set_entries}
use operator_system.Fork.Copy.{
  Frame, child_tss, child_pcb, set_pcb, copy_mem, finish_child, copy_to, copy_process,
}

-- the entries of the GDT for the process in slot `nr` with its PCB at `p`
pub record Entered (nr p : ℕ) (gdt : List Descriptor) : Type 0 where
  pub tss_base : get_desc_base (get_or gdt (3 + 2 * nr) no_descriptor) ≡ p + tss_offset
  pub tss_limit : limit_of (get_or gdt (3 + 2 * nr) no_descriptor) ≡ tss_size
  pub ldt_base : get_desc_base (get_or gdt (4 + 2 * nr) no_descriptor) ≡ p + ldt_offset
  pub ldt_limit : limit_of (get_or gdt (4 + 2 * nr) no_descriptor) ≡ 24

set_gdt-here :
    (i base limit attribute : ℕ) (gdt : List Descriptor)
    → i < length gdt
    → base < 2 ^ 32
    → attribute < 2 ^ 16
    → limit < 2 ^ 20
    → let d = get_or (set_gdt i base limit attribute gdt) i no_descriptor in
      (get_desc_base d ≡ base) × (limit_of d ≡ limit)
unfolding set_gdt
set_gdt-here i base limit attribute gdt h b a l =
    let old : Descriptor = get_or gdt i no_descriptor in
    let (e, f, _) = get_desc_base-set_gdt_desc old base limit attribute b a in
    rw (get_or-set_self gdt i (set_gdt_desc old base limit attribute) no_descriptor h)
      (e, f ∙ omega (arith, l))

set_gdt-there :
    (i j base limit attribute : ℕ) (gdt : List Descriptor)
    → i ≢ j
    → get_or (set_gdt i base limit attribute gdt) j no_descriptor ≡ get_or gdt j no_descriptor
unfolding set_gdt
set_gdt-there i j base limit attribute gdt h = get_or-set_ne gdt i j _ no_descriptor h

length-set_gdt :
    (i base limit attribute : ℕ) (gdt : List Descriptor)
    → length (set_gdt i base limit attribute gdt) ≡ length gdt
unfolding set_gdt
length-set_gdt i base limit attribute gdt = length-set gdt i _

pub set_entries-Entered :
    (nr p : ℕ) (gdt : List Descriptor)
    → 4 + 2 * nr < length gdt
    → p + page_size < 2 ^ 32
    → Entered nr p (set_entries nr p gdt)
unfolding set_entries
set_entries-Entered nr p gdt h b =
    let gdt₁ : List Descriptor = set_gdt (3 + 2 * nr) (p + tss_offset) tss_size 0x89 gdt in
    let far : 4 + 2 * nr ≢ 3 + 2 * nr = λ e. omega (arith, e) in
    let (tb, tl) =
      set_gdt-here (3 + 2 * nr) (p + tss_offset) tss_size 0x89 gdt (omega (arith, h))
        (omega (arith, b)) (omega arith) (omega arith) in
    let same : length gdt₁ ≡ length gdt =
      length-set_gdt (3 + 2 * nr) (p + tss_offset) tss_size 0x89 gdt in
    let (lb, ll) =
      set_gdt-here (4 + 2 * nr) (p + ldt_offset) 24 0x82 gdt₁ (omega (arith, h, same))
        (omega (arith, b)) (omega arith) (omega arith) in
    let kept = set_gdt-there (4 + 2 * nr) (3 + 2 * nr) (p + ldt_offset) 24 0x82 gdt₁ far in
    record {
      tss_base = ap get_desc_base kept ∙ tb;
      tss_limit = ap limit_of kept ∙ tl;
      ldt_base = lb;
      ldt_limit = ll;
    }

-- what copyProcess leaves for the child in slot `nr` with its PCB at `p`
pub record Forked (nr p : ℕ) (f : Frame) (s s' : System) : Type 0 where
  pub slot : get_or s'.tasks nr none ≡ some p
  pub tasks : s'.tasks ≡ set s.tasks nr (some p)
  pub other_pcbs : (q : ℕ) → q ≢ p → s'.pcbs q ≡ s.pcbs q
  pub running : (s'.pcbs p).state ≡ 0
  pub pid : (s'.pcbs p).pid ≡ s.last_pid
  pub father : (s'.pcbs p).father ≡ signed32 (s.pcbs s.current).pid
  pub returns : (s'.pcbs p).tss.eax ≡ 0
  pub resumes : ((s'.pcbs p).tss.eip ≡ f.eip) × ((s'.pcbs p).tss.esp ≡ f.esp)
  pub stack : (s'.pcbs p).tss.esp0 ≡ p + page_size
  pub code_base : get_desc_base (s'.pcbs p).ldt_1 ≡ nr * 2 ^ 26
  pub code_limit : limit_of (s'.pcbs p).ldt_1 ≡ limit_of (s.pcbs s.current).ldt_1
  pub data_base : get_desc_base (s'.pcbs p).ldt_2 ≡ nr * 2 ^ 26
  pub data_limit : limit_of (s'.pcbs p).ldt_2 ≡ limit_of (s.pcbs s.current).ldt_2
  pub selects : (s'.pcbs p).tss.ldt / 8 ≡ 4 + 2 * nr
  pub entries : Entered nr p s'.gdt

-- the child's PCB after copyMem
abbrev pub based : (nr : ℕ) → Pcb → Pcb
based nr c = record c {
  ldt_1 = set_desc_base c.ldt_1 (nr * 0x4000000 % 2 ^ 32);
  ldt_2 = set_desc_base c.ldt_2 (nr * 0x4000000 % 2 ^ 32);
}

copy_mem-copied :
    (desc_limit : ℕ → ℕ) (nr p : ℕ) (s : System) (m : Memory)
    → let old = get_desc_base (s.pcbs s.current).ldt_2 in
      get_desc_base (s.pcbs s.current).ldt_1 ≡ old
      → copy_page_tables (nr * 0x4000000 % 2 ^ 32) old (add32 (desc_limit 0x17) 1) s.memory
        ≡ (true, m)
      → copy_mem desc_limit nr p s
        ≡ some (true, record (set_pcb p (based nr (s.pcbs p)) s) { memory = m })
unfolding copy_mem
copy_mem-copied desc_limit nr p s m same e = rw (e, eq→== _ _ same) refl

pub put_here {ℓ} : {A : Type ℓ} (i : ℕ) (a : A) (g : ℕ → A) → put i a g i ≡ a
unfolding put
put_here i a g = rw (eq→== i i refl) refl

pub put_there {ℓ} : {A : Type ℓ} (i j : ℕ) (a : A) (g : ℕ → A) → j ≢ i → put i a g j ≡ g j
unfolding put
put_there i j a g h = rw (ne→== j i h) refl

-- the system at the call of copyMem
abbrev pub prepared : (nr p : ℕ) → Frame → System → System
prepared nr p f s =
    set_pcb p (child_pcb nr p f s.last_pid s.ticks (s.pcbs s.current))
      (record s { tasks = set s.tasks nr (some p) })

pub prepared-parent :
    (nr p : ℕ) (f : Frame) (s : System)
    → s.current ≢ p
    → (prepared nr p f s).pcbs (prepared nr p f s).current ≡ s.pcbs s.current
unfolding set_pcb
prepared-parent nr p f s h = put_there p s.current _ s.pcbs h

-- the system after copyMem
abbrev copied : (nr p : ℕ) → Frame → Memory → System → System
copied nr p f m s =
    let s₁ = prepared nr p f s in record (set_pcb p (based nr (s₁.pcbs p)) s₁) { memory = m }

copy_to-copied :
    (desc_limit : ℕ → ℕ) (nr p : ℕ) (f : Frame) (s : System) (m : Memory)
    → let old = get_desc_base (s.pcbs s.current).ldt_2 in
      s.current ≢ p
      → get_desc_base (s.pcbs s.current).ldt_1 ≡ old
      → copy_page_tables (nr * 0x4000000 % 2 ^ 32) old (add32 (desc_limit 0x17) 1) s.memory
        ≡ (true, m)
      → copy_to desc_limit nr p f s
        ≡ some (signed32 s.last_pid, finish_child nr p (copied nr p f m s))
unfolding copy_to set_pcb
copy_to-copied desc_limit nr p f s m h same e =
    let s₁ : System = prepared nr p f s in
    let q = prepared-parent nr p f s h in
    let mem = copy_mem-copied desc_limit nr p s₁ m (rw q same) (rw q e) in rw mem refl

-- the child's PCB at the end
abbrev child : (nr p : ℕ) → Frame → System → Pcb
child nr p f s = record (based nr (child_pcb nr p f s.last_pid s.ticks (s.pcbs s.current))) {
  state = 0;
}

finish_child-pcb :
    (nr p : ℕ) (f : Frame) (s : System) (m : Memory)
    → (finish_child nr p (copied nr p f m s)).pcbs p ≡ child nr p f s
unfolding finish_child set_pcb
finish_child-pcb nr p f s m =
    let c : Pcb = child_pcb nr p f s.last_pid s.ticks (s.pcbs s.current) in
    put_here p _ _
    ∙ ap {B = Pcb} (λ (x : Pcb). record x { state = 0 })
        (put_here p _ _ ∙ ap (based nr) (put_here p c s.pcbs))

-- the base of slot `nr`, and what setDescBase keeps
based-base :
    (nr : ℕ) (d : Descriptor)
    → nr < 64
    → (get_desc_base (set_desc_base d (nr * 0x4000000 % 2 ^ 32)) ≡ nr * 2 ^ 26)
      × (limit_of (set_desc_base d (nr * 0x4000000 % 2 ^ 32)) ≡ limit_of d)
based-base nr d h =
    let (e, l, _) = get_desc_base-set_desc_base d (nr * 0x4000000 % 2 ^ 32) (omega arith) in
    (e ∙ omega (arith, h), l)

finish_child-Forked :
    (nr p : ℕ) (f : Frame) (s : System) (m₁ m : Memory)
    → nr < 62
    → nr < length s.tasks
    → length s.gdt ≡ 128
    → p + page_size < 2 ^ 32
    → Forked nr p f s (finish_child nr p (copied nr p f m (record s { memory = m₁ })))
unfolding finish_child set_pcb child_pcb child_tss
finish_child-Forked nr p f s m₁ m low room gdt b =
    let c = finish_child-pcb nr p f (record s { memory = m₁ }) m in
    let parent : Pcb = s.pcbs s.current in
    let (code, code_l) = based-base nr parent.ldt_1 (omega (arith, low)) in
    let (word, word_l) = based-base nr parent.ldt_2 (omega (arith, low)) in
    record {
      slot = get_or-set_self s.tasks nr (some p) none room;
      tasks = refl;
      other_pcbs = λ q h. put_there p q _ _ h ∙ put_there p q _ _ h ∙ put_there p q _ _ h;
      running = ap (λ x. x.state) c;
      pid = ap (λ x. x.pid) c;
      father = ap (λ x. x.father) c;
      returns = ap (λ x. x.tss.eax) c;
      resumes = (ap (λ x. x.tss.eip) c, ap (λ x. x.tss.esp) c);
      stack = ap (λ x. x.tss.esp0) c ∙ omega (arith, b);
      code_base = ap (λ x. get_desc_base x.ldt_1) c ∙ code;
      code_limit = ap (λ x. limit_of x.ldt_1) c ∙ code_l;
      data_base = ap (λ x. get_desc_base x.ldt_2) c ∙ word;
      data_limit = ap (λ x. limit_of x.ldt_2) c ∙ word_l;
      selects = ap (λ x. x.tss.ldt / 8) c ∙ omega arith;
      entries = set_entries-Entered nr p s.gdt (omega (arith, gdt, low)) b;
    }

-- For a slot below 62 of TASKS and a GDT of 128 entries: where copyProcess gets a page `p`, not the
-- current process's and not at the very end of the address space, the parent's code and data have
-- one base, and copyPageTables succeeds, it returns last_pid, and the slot holds the child at `p`.
-- The other slots and PCBs are as before; the child is running, has that pid and its parent's as
-- its father's, resumes where the system call was made with 0 in eax, has its kernel stack at the
-- end of its page, and its code and data at 64 MB times the slot with the parent's limits; and the
-- GDT has entries for its TSS and its LDT, the second of which is the one that the TSS names.
pub copy_process-Forked :
    (desc_limit : ℕ → ℕ) (nr : ℕ) (f : Frame) (s : System) (m : Memory)
    → let (p, m₁) = get_free_page s.memory in
      let old = get_desc_base (s.pcbs s.current).ldt_2 in
      nr < 62
      → nr < length s.tasks
      → length s.gdt ≡ 128
      → p ≢ 0
      → p + page_size < 2 ^ 32
      → s.current ≢ p
      → get_desc_base (s.pcbs s.current).ldt_1 ≡ old
      → copy_page_tables (nr * 0x4000000 % 2 ^ 32) old (add32 (desc_limit 0x17) 1) m₁ ≡ (true, m)
      → (s' : System) × (copy_process desc_limit nr f s ≡ some (signed32 s.last_pid, s'))
        × Forked nr p f s s'
unfolding copy_process
copy_process-Forked desc_limit nr f s m low room gdt page b own same e =
    let (p, m₁) = get_free_page s.memory in
    let s₁ : System = record s { memory = m₁ } in
    (
      finish_child nr p (copied nr p f m s₁),
      rw (ne→== p 0 page) (copy_to-copied desc_limit nr p f s₁ m own same e),
      finish_child-Forked nr p f s m₁ m low room gdt b,
    )
