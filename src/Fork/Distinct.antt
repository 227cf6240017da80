-- ===== src/Fork/Distinct.antt =====
-- kernel/process.c: the processes keep different pids when one is added.
use operator_system.Common.{
  ℕ, zero, suc, ◌+◌, ◌*◌, ◌%◌, ◌^◌, ◌<◌, ◌≡◌, ◌≢◌, refl, sym, ap, ◌∙◌, true, Option, none, some,
  List, [], ◌∷◌, map, set, length, arith,
}
use mathlib.Core.Path.{subst}
use operator_system.Common.Int.{pos, signed32}
use operator_system.Common.Word.{add32}
use operator_system.Mem.{Memory, get_free_page, copy_page_tables}
use operator_system.Protect.{get_desc_base}
use operator_system.Sched.{Process, Tasks, Kernel, find_empty_process}
use operator_system.Sched.Pid.{IsFresh, FirstEmpty, find_empty_process-IsFresh}
use operator_system.Fork.{Pcb, System, page_size}
use operator_system.Fork.Copy.{Frame, copy_process}
use operator_system.Fork.Call.{scheduled, slot_of, tasks_of, kernel_of, fork_in, sys_fork}
use operator_system.Fork.Child.{Forked, copy_process-Forked}

-- no two processes have one pid
abbrev pub IsDistinct : Tasks → Type 0
IsDistinct [] = Unit
IsDistinct (none ∷ ts) = IsDistinct ts
IsDistinct (some p ∷ ts) = IsFresh ts p.pid × IsDistinct ts

IsFresh-set :
    (ts : Tasks) (i : ℕ) (q : Process) (pid : ℕ)
    → IsFresh ts pid
    → q.pid ≢ pid
    → FirstEmpty ts i
    → IsFresh (set ts i (some q)) pid
IsFresh-set [] i q pid f h e = tt
IsFresh-set (none ∷ ts) zero q pid f h e = (h, f)
IsFresh-set (none ∷ ts) (suc i) q pid f h e = absurd e
IsFresh-set (some p ∷ ts) zero q pid f h e = absurd e
IsFresh-set (some p ∷ ts) (suc i) q pid f h e = (f.0, IsFresh-set ts i q pid f.1 h e)

IsDistinct-set :
    (ts : Tasks) (i : ℕ) (q : Process)
    → IsDistinct ts
    → IsFresh ts q.pid
    → FirstEmpty ts i
    → IsDistinct (set ts i (some q))
IsDistinct-set [] i q d f e = tt
IsDistinct-set (none ∷ ts) zero q d f e = (f, d)
IsDistinct-set (none ∷ ts) (suc i) q d f e = absurd e
IsDistinct-set (some p ∷ ts) zero q d f e = absurd e
IsDistinct-set (some p ∷ ts) (suc i) q d f e =
    (IsFresh-set ts i q p.pid d.0 (λ h. f.0 (sym h)) e, IsDistinct-set ts i q d.1 f.1 e)

-- no slot points to `p`
abbrev pub Apart : ℕ → List (Option ℕ) → Type 0
Apart p [] = Unit
Apart p (none ∷ ts) = Apart p ts
Apart p (some q ∷ ts) = (q ≢ p) × Apart p ts

-- the view of TASKS after a store to a slot and to the PCB that it points to
map-slot_of :
    (ts : List (Option ℕ)) (p : ℕ) (g h : ℕ → Pcb)
    → Apart p ts
    → ((q : ℕ) → q ≢ p → h q ≡ g q)
    → map (slot_of h) ts ≡ map (slot_of g) ts
map-slot_of [] p g h a e = refl
map-slot_of (none ∷ ts) p g h a e = ap (λ us. none ∷ us) (map-slot_of ts p g h a e)
map-slot_of (some q ∷ ts) p g h a e =
    rw (e q a.0) (ap (λ us. some (scheduled (g q)) ∷ us) (map-slot_of ts p g h a.1 e))

map-set :
    (ts : List (Option ℕ)) (i p : ℕ) (g h : ℕ → Pcb)
    → Apart p ts
    → ((q : ℕ) → q ≢ p → h q ≡ g q)
    → map (slot_of h) (set ts i (some p)) ≡ set (map (slot_of g) ts) i (some (scheduled (h p)))
map-set [] i p g h a e = refl
map-set (none ∷ ts) zero p g h a e =
    ap (λ us. some (scheduled (h p)) ∷ us) (map-slot_of ts p g h a e)
map-set (some q ∷ ts) zero p g h a e =
    ap (λ us. some (scheduled (h p)) ∷ us) (map-slot_of ts p g h a.1 e)
map-set (none ∷ ts) (suc i) p g h a e = ap (λ us. none ∷ us) (map-set ts i p g h a e)
map-set (some q ∷ ts) (suc i) p g h a e =
    rw (e q a.0) (ap (λ us. some (scheduled (g q)) ∷ us) (map-set ts i p g h a.1 e))

FirstEmpty-lt :
    (ts : List (Option ℕ)) (g : ℕ → Pcb) (i : ℕ) → FirstEmpty (map (slot_of g) ts) i → i < length ts
FirstEmpty-lt [] g i h = absurd h
FirstEmpty-lt (none ∷ ts) g zero h = omega arith
FirstEmpty-lt (none ∷ ts) g (suc i) h = absurd h
FirstEmpty-lt (some p ∷ ts) g zero h = absurd h
FirstEmpty-lt (some p ∷ ts) g (suc i) h = omega (arith, FirstEmpty-lt ts g i h)

room_in : (s : System) (i : ℕ) → FirstEmpty (tasks_of s) i → i < length s.tasks
unfolding tasks_of
room_in s i h = FirstEmpty-lt s.tasks s.pcbs i h

scheduled-pid : (p : Pcb) → (scheduled p).pid ≡ p.pid
unfolding scheduled
scheduled-pid p = refl

Forked-IsDistinct :
    (nr p pid : ℕ) (f : Frame) (s s' : System)
    → Forked nr p f (record s { last_pid = pid }) s'
    → Apart p s.tasks
    → IsDistinct (tasks_of s)
    → IsFresh (tasks_of s) pid
    → FirstEmpty (tasks_of s) nr
    → IsDistinct (tasks_of s')
unfolding tasks_of
Forked-IsDistinct nr p pid f s s' fork apart d fresh empty =
    let q : Process = scheduled (s'.pcbs p) in
    let e : q.pid ≡ pid = scheduled-pid (s'.pcbs p) ∙ fork.pid in
    let view : tasks_of s' ≡ set (tasks_of s) nr (some q) =
      ap (map (slot_of s'.pcbs)) fork.tasks
      ∙ map-set s.tasks nr p s.pcbs s'.pcbs apart fork.other_pcbs in
    subst IsDistinct (sym view)
      (IsDistinct-set (tasks_of s) nr q d (subst (IsFresh (tasks_of s)) (sym e) fresh) empty)

sys_fork-process :
    (fuel nr : ℕ) (desc_limit : ℕ → ℕ) (f : Frame) (s : System) (k : Kernel)
    → find_empty_process fuel (kernel_of s) ≡ some (pos nr, k)
    → sys_fork fuel desc_limit f s
      ≡ copy_process desc_limit nr f (record s { last_pid = k.last_pid })
unfolding sys_fork fork_in
sys_fork-process fuel nr desc_limit f s k e = rw e refl

-- For a GDT of 128 entries: where findEmptyProcess finds a slot below 62, getFreePage gives a page
-- that is not at the very end of the address space and that neither a slot nor CURRENT points to,
-- the parent's code and data have one base, copyPageTables succeeds, and no two processes have one
-- pid, sysFork returns the pid that findEmptyProcess chose, the child is made in that slot with
-- this pid, and again no two processes have one pid.
pub sys_fork-IsDistinct :
    (fuel nr : ℕ) (desc_limit : ℕ → ℕ) (f : Frame) (s : System) (m : Memory) (k : Kernel)
    → let (p, m₁) = get_free_page s.memory in
      let old = get_desc_base (s.pcbs s.current).ldt_2 in
      find_empty_process fuel (kernel_of s) ≡ some (pos nr, k)
      → nr < 62
      → length s.gdt ≡ 128
      → p ≢ 0
      → p + page_size < 2 ^ 32
      → s.current ≢ p
      → Apart p s.tasks
      → get_desc_base (s.pcbs s.current).ldt_1 ≡ old
      → copy_page_tables (nr * 0x4000000 % 2 ^ 32) old (add32 (desc_limit 0x17) 1) m₁ ≡ (true, m)
      → IsDistinct (tasks_of s)
      → (s' : System) × (sys_fork fuel desc_limit f s ≡ some (signed32 k.last_pid, s'))
        × Forked nr (get_free_page s.memory).0 f (record s { last_pid = k.last_pid }) s'
        × IsDistinct (tasks_of s')
unfolding kernel_of
sys_fork-IsDistinct fuel nr desc_limit f s m k found low gdt page b own apart same e d =
    let (fresh, empty, _) = find_empty_process-IsFresh fuel (kernel_of s) found in
    let room : nr < length s.tasks = room_in s nr empty in
    let s₁ : System = record s { last_pid = k.last_pid } in
    let (s', r, fork) = copy_process-Forked desc_limit nr f s₁ m low room gdt page b own same e in
    (
      s',
      sys_fork-process fuel nr desc_limit f s k found ∙ r,
      fork,
      Forked-IsDistinct nr _ k.last_pid f s s' fork apart d fresh empty,
    )
