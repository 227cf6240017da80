-- ===== src/Protect/Gates.antt =====
-- The interrupt gates that initIdtDesc of kernel/protect.c installs.
use Prim.Native.Nat.{bit_or}
use mathlib.Core.Path.{subst}
use mathlib.Core.Option.{some-injective}
use operator_system.Common.{
  ℕ, ◌≢◌, false, Option, none, some, if◌then◌else◌, Bool-cases, inl, inr, sym, ==_iff, ◌+◌, ◌*◌,
  ◌/◌, ◌^◌, ◌≤◌, ◌<◌, ◌≡◌, refl, ◌∙◌, Bool, true, not, ◌&&◌, List, [], ◌∷◌, ltb, ◌==◌, get_or, set,
  length, length-set, get_or-set_self, get_or-set_ne, All, arith,
}
use operator_system.Common.Bits.{bit_and-mask}
use operator_system.Protect.{
  Gate, Routine, divide_error, single_step_exception, nmi, breakpoint_exception, overflow,
  bounds_check, inval_opcode, copr_not_available, double_fault, copr_seg_overrun, inval_tss,
  segment_not_present, stack_exception, general_protection, page_fault, copr_error, hwint00,
  hwint01, hwint02, hwint03, hwint04, hwint05, hwint06, hwint07, hwint08, hwint09, hwint10, hwint11,
  hwint12, hwint13, hwint14, hwint15, sys_call, selector_kernel_cs, da_386_igate, set_gate, no_gate,
  set_idt_desc, gates, install, init_idt_desc,
}

-- a gate that is present, is an interrupt gate (0x8E) of the kernel's code segment (8) for the routine
-- at `handler`, and may be raised from the privilege level `level` on
pub record IsGate (handler level : ℕ) (g : Gate) : Type 0 where
  pub offset : g.offset_low + g.offset_high * 2 ^ 16 ≡ handler
  pub segment : g.selector ≡ 0x08
  pub kind : g.attr ≡ 0x8E + level * 2 ^ 5

-- what setIdtDesc leaves
record IsInstalled (handler privilege : ℕ) (g : Gate) : Type 0 where
  offset : g.offset_low + g.offset_high * 2 ^ 16 ≡ handler
  segment : g.selector ≡ selector_kernel_cs
  kind : g.attr ≡ bit_or da_386_igate privilege

set_gate-IsInstalled :
    (handler privilege : ℕ) (g : Gate)
    → handler < 2 ^ 32
    → IsInstalled handler privilege (set_gate da_386_igate handler privilege g)
unfolding set_gate
set_gate-IsInstalled handler privilege g h = record {
  offset = rw (bit_and-mask 16 handler, bit_and-mask 16 (handler / 2 ^ 16)) (omega (arith, h));
  segment = refl;
  kind = refl;
}

-- the vectors of the processor's exceptions, 0 to 16 but for 15, of the interrupt lines, 32 to 47, and
-- of the system call, 0x80
unfoldable pub vector_of : Routine → ℕ
vector_of divide_error = 0
vector_of single_step_exception = 1
vector_of nmi = 2
vector_of breakpoint_exception = 3
vector_of overflow = 4
vector_of bounds_check = 5
vector_of inval_opcode = 6
vector_of copr_not_available = 7
vector_of double_fault = 8
vector_of copr_seg_overrun = 9
vector_of inval_tss = 10
vector_of segment_not_present = 11
vector_of stack_exception = 12
vector_of general_protection = 13
vector_of page_fault = 14
vector_of copr_error = 16
vector_of hwint00 = 32 + 0
vector_of hwint01 = 32 + 1
vector_of hwint02 = 32 + 2
vector_of hwint03 = 32 + 3
vector_of hwint04 = 32 + 4
vector_of hwint05 = 32 + 5
vector_of hwint06 = 32 + 6
vector_of hwint07 = 32 + 7
vector_of hwint08 = 32 + 8
vector_of hwint09 = 32 + 9
vector_of hwint10 = 32 + 10
vector_of hwint11 = 32 + 11
vector_of hwint12 = 32 + 12
vector_of hwint13 = 32 + 13
vector_of hwint14 = 32 + 14
vector_of hwint15 = 32 + 15
vector_of sys_call = 0x80

-- what programs may raise themselves: the breakpoint, the overflow and the system call
unfoldable pub is_open : Routine → Bool
is_open breakpoint_exception = true
is_open overflow = true
is_open sys_call = true
is_open _ = false

unfoldable pub level_of : Routine → ℕ
level_of r = if is_open r then 3 else 0

-- the entry of a vector
unfoldable entry_of : ℕ → List (ℕ × Routine × ℕ) → Option (Routine × ℕ)
entry_of v [] = none
entry_of v (e ∷ es) = if e.0 == v then some (e.1, e.2) else entry_of v es

-- whether a vector is in no entry
unfoldable pub absent : ℕ → List (ℕ × Routine × ℕ) → Bool
absent v [] = true
absent v (e ∷ es) = not (e.0 == v) && absent v es

-- whether the vectors differ and are bytes
unfoldable distinct : List (ℕ × Routine × ℕ) → Bool
unfolding absent
distinct [] = true
distinct (e ∷ es) = ltb e.0 256 && (absent e.0 es && distinct es)

length-install :
    (addr : Routine → ℕ) (es : List (ℕ × Routine × ℕ)) (idt : List Gate)
    → length (install addr es idt) ≡ length idt
unfolding install set_idt_desc
length-install addr [] idt = refl
length-install addr ((v, r, p) ∷ es) idt =
    length-install addr es (set_idt_desc v da_386_igate (addr r) p idt) ∙ length-set idt v _

install-kept :
    (addr : Routine → ℕ) (es : List (ℕ × Routine × ℕ)) (idt : List Gate) (v : ℕ)
    → absent v es ≡ true
    → get_or (install addr es idt) v no_gate ≡ get_or idt v no_gate
unfolding install absent set_idt_desc
install-kept addr [] idt v h = refl
install-kept addr ((w, r, p) ∷ es) idt v h =
    install-kept addr es (set_idt_desc w da_386_igate (addr r) p idt) v (ground (arith, h))
    ∙ get_or-set_ne idt w v _ no_gate (ground (arith, h))

install-All :
    (addr : Routine → ℕ) (es : List (ℕ × Routine × ℕ)) (idt : List Gate)
    → ((r : Routine) → addr r < 2 ^ 32)
    → 256 ≤ length idt
    → distinct es ≡ true
    → All (λ e. IsInstalled (addr e.1) e.2 (get_or (install addr es idt) e.0 no_gate)) es
unfolding install distinct set_idt_desc
install-All addr [] idt bound long h = tt
install-All addr ((v, r, p) ∷ es) idt bound long h =
    let inside : v < 256 = ground (arith, h) in
    let alone : absent v es ≡ true = ground (arith, h) in
    let rest : distinct es ≡ true = ground (arith, h) in
    let g : Gate = set_gate da_386_igate (addr r) p (get_or idt v no_gate) in
    (
      rw
          (install-kept addr es (set idt v g) v alone
            ∙ get_or-set_self idt v g no_gate (omega (arith, inside, long)))
          (set_gate-IsInstalled (addr r) p (get_or idt v no_gate) (bound r)),
      install-All addr es (set idt v g) bound (rw (length-set idt v g) long) rest,
    )

All-entry_of :
    (P : ℕ → Routine → ℕ → Type 0) (es : List (ℕ × Routine × ℕ)) (v : ℕ) (r : Routine) (p : ℕ)
    → All (λ e. P e.0 e.1 e.2) es
    → entry_of v es ≡ some (r, p)
    → P v r p
unfolding entry_of
All-entry_of P [] v r p a h = absurd (cc)
All-entry_of P ((w, q, k) ∷ es) v r p (a, rest) h = elim (Bool-cases (w == v)) [
  | inl e ↦
      let here : entry_of v ((w, q, k) ∷ es) ≡ some (q, k) = rw e refl in
      let same : (q, k) ≡ (r, p) = some-injective (q, k) (r, p) (sym here ∙ h) in
      subst (λ u. P u r p) ((==_iff w v).0 e) (subst (λ x. P w x.0 x.1) same a)
  | inr e ↦
      let there : entry_of v ((w, q, k) ∷ es) ≡ entry_of v es = rw e refl in
      All-entry_of P es v r p rest (sym there ∙ h)
]

gates-entry_of : (r : Routine) → entry_of (vector_of r) gates ≡ some (r, level_of r * 2 ^ 5)
unfolding entry_of vector_of level_of is_open
gates-entry_of divide_error = refl
gates-entry_of single_step_exception = refl
gates-entry_of nmi = refl
gates-entry_of breakpoint_exception = refl
gates-entry_of overflow = refl
gates-entry_of bounds_check = refl
gates-entry_of inval_opcode = refl
gates-entry_of copr_not_available = refl
gates-entry_of double_fault = refl
gates-entry_of copr_seg_overrun = refl
gates-entry_of inval_tss = refl
gates-entry_of segment_not_present = refl
gates-entry_of stack_exception = refl
gates-entry_of general_protection = refl
gates-entry_of page_fault = refl
gates-entry_of copr_error = refl
gates-entry_of hwint00 = refl
gates-entry_of hwint01 = refl
gates-entry_of hwint02 = refl
gates-entry_of hwint03 = refl
gates-entry_of hwint04 = refl
gates-entry_of hwint05 = refl
gates-entry_of hwint06 = refl
gates-entry_of hwint07 = refl
gates-entry_of hwint08 = refl
gates-entry_of hwint09 = refl
gates-entry_of hwint10 = refl
gates-entry_of hwint11 = refl
gates-entry_of hwint12 = refl
gates-entry_of hwint13 = refl
gates-entry_of hwint14 = refl
gates-entry_of hwint15 = refl
gates-entry_of sys_call = refl

-- whether the entries stand at the vectors of their routines
unfoldable placed : List (ℕ × Routine × ℕ) → Bool
placed [] = true
placed (e ∷ es) = (e.0 == vector_of e.1) && placed es

gates-placed : placed gates ≡ true
unfolding placed vector_of
gates-placed = refl

placed-absent :
    (es : List (ℕ × Routine × ℕ)) (v : ℕ)
    → placed es ≡ true
    → ((r : Routine) → v ≢ vector_of r)
    → absent v es ≡ true
unfolding placed absent
placed-absent [] v h n = refl
placed-absent ((w, r, p) ∷ es) v h n = ground (arith, h, n r, placed-absent es v)

attr-level : (r : Routine) → bit_or da_386_igate (level_of r * 2 ^ 5) ≡ 0x8E + level_of r * 2 ^ 5
unfolding level_of
attr-level r = elim (Bool-cases (is_open r)) [ inl e ↦ rw e refl | inr e ↦ rw e refl ]

IsInstalled-IsGate :
    (handler : ℕ) (r : Routine) (g : Gate)
    → IsInstalled handler (level_of r * 2 ^ 5) g
    → IsGate handler (level_of r) g
IsInstalled-IsGate handler r g s = record {
  offset = s.offset;
  segment = s.segment;
  kind = s.kind ∙ attr-level r;
}

-- After initIdtDesc on a table of 256 gates, for routines at 32-bit addresses: each of the 33 routines,
-- of the 16 exceptions, the 16 interrupt lines and the system call, has at the vector of its own an
-- interrupt gate of the kernel's code segment that leads to it, open to programs for the breakpoint,
-- the overflow and the system call only; every other gate is as it was, and the table is as long.
pub init_idt_desc-IsGate :
    (addr : Routine → ℕ) (idt : List Gate)
    → ((r : Routine) → addr r < 2 ^ 32)
    → length idt ≡ 256
    → ((r : Routine)
        → IsGate (addr r) (level_of r) (get_or (init_idt_desc addr idt) (vector_of r) no_gate))
      × ((v : ℕ)
          → ((r : Routine) → v ≢ vector_of r)
          → get_or (init_idt_desc addr idt) v no_gate ≡ get_or idt v no_gate)
      × (length (init_idt_desc addr idt) ≡ 256)
unfolding init_idt_desc distinct
init_idt_desc-IsGate addr idt bound long = (
  λ r. IsInstalled-IsGate (addr r) r _ (
      All-entry_of (λ v r p. IsInstalled (addr r) p (get_or (install addr gates idt) v no_gate))
        gates (vector_of r) r (level_of r * 2 ^ 5)
        (install-All addr gates idt bound (omega (arith, long)) refl) (gates-entry_of r)),
  λ v n. install-kept addr gates idt v (placed-absent gates v gates-placed n),
  length-install addr gates idt ∙ long,
)
