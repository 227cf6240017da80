-- ===== src/Protect.antt =====
-- kernel/protect.c: segment descriptors, interrupt gates and the interrupt controllers.
pub mod Segments
pub mod Gates
mod Tests
use Prim.Native.Nat.{bit_and, bit_or}
use operator_system.Common.{ℕ, ◌+◌, ◌*◌, ◌/◌, ◌%◌, ◌^◌, List, [], ◌∷◌, get_or, set}

-- `DESCRIPTOR`
pub record Descriptor : Type 0 where
  pub limit_low : ℕ
  pub base_low : ℕ
  pub base_mid : ℕ
  pub attr1 : ℕ
  pub limit_high_attr2 : ℕ
  pub base_high : ℕ

-- `GATE`
pub record Gate : Type 0 where
  pub offset_low : ℕ
  pub selector : ℕ
  pub dcount : ℕ
  pub attr : ℕ
  pub offset_high : ℕ

-- SELECTOR_KERNEL_CS, DA_386IGate, PRIVILEGE_KERNEL, PRIVILEGE_USER
abbrev pub selector_kernel_cs : ℕ
selector_kernel_cs = 0x08

abbrev pub da_386_igate : ℕ
da_386_igate = 0x8E

abbrev pub privilege_kernel : ℕ
privilege_kernel = 0 * 2 ^ 5

abbrev pub privilege_user : ℕ
privilege_user = 3 * 2 ^ 5

-- getDescBase
unfoldable pub get_desc_base : Descriptor → ℕ
get_desc_base d = bit_or (bit_or (d.base_high * 2 ^ 24 % 2 ^ 32) (d.base_mid * 2 ^ 16)) d.base_low

-- setDescBase
unfoldable pub set_desc_base : Descriptor → (base : ℕ) → Descriptor
set_desc_base d base = record d {
  base_low = bit_and base 0xFFFF;
  base_mid = bit_and (base / 2 ^ 16) 0xFF;
  base_high = bit_and (base / 2 ^ 24) 0xFF;
}

-- setGdtDesc
unfoldable pub set_gdt_desc : Descriptor → (base limit attribute : ℕ) → Descriptor
set_gdt_desc d base limit attribute = record {
  limit_low = bit_and limit 0xFFFF;
  base_low = bit_and base 0xFFFF;
  base_mid = bit_and (base / 2 ^ 16) 0xFF;
  attr1 = bit_and attribute 0xFF;
  limit_high_attr2 = bit_or (bit_and (limit / 2 ^ 16) 0x0F) (bit_and (attribute / 2 ^ 8) 0xF0);
  base_high = bit_and (base / 2 ^ 24) 0xFF;
}

-- setIdtDesc on one gate; `handler` is the routine's address
unfoldable pub set_gate : (desc_type handler privilege : ℕ) → Gate → Gate
set_gate desc_type handler privilege g = record g {
  offset_low = bit_and handler 0xFFFF;
  selector = selector_kernel_cs;
  attr = bit_or desc_type privilege;
  offset_high = bit_and (handler / 2 ^ 16) 0xFFFF;
}

abbrev pub no_gate : Gate
no_gate = record { offset_low = 0; selector = 0; dcount = 0; attr = 0; offset_high = 0 }

-- setIdtDesc
unfoldable pub set_idt_desc : (vector desc_type handler privilege : ℕ) → List Gate → List Gate
unfolding set_gate
set_idt_desc vector desc_type handler privilege idt =
    set idt vector (set_gate desc_type handler privilege (get_or idt vector no_gate))

-- the routines that the gates name, in kernel/int.asm and kernel/syscall.asm
pub data Routine : Type 0 where
  divide_error single_step_exception nmi breakpoint_exception overflow bounds_check inval_opcode
        copr_not_available double_fault copr_seg_overrun inval_tss segment_not_present
        stack_exception general_protection page_fault copr_error hwint00 hwint01 hwint02 hwint03
        hwint04 hwint05 hwint06 hwint07 hwint08 hwint09 hwint10 hwint11 hwint12 hwint13 hwint14
        hwint15 sys_call :
      Routine

-- the calls of initIdtDesc: vector, routine, privilege
abbrev pub gates : List (ℕ × Routine × ℕ)
gates =
    (0, divide_error, privilege_kernel)
    ∷ (1, single_step_exception, privilege_kernel)
    ∷ (2, nmi, privilege_kernel)
    ∷ (3, breakpoint_exception, privilege_user)
    ∷ (4, overflow, privilege_user)
    ∷ (5, bounds_check, privilege_kernel)
    ∷ (6, inval_opcode, privilege_kernel)
    ∷ (7, copr_not_available, privilege_kernel)
    ∷ (8, double_fault, privilege_kernel)
    ∷ (9, copr_seg_overrun, privilege_kernel)
    ∷ (10, inval_tss, privilege_kernel)
    ∷ (11, segment_not_present, privilege_kernel)
    ∷ (12, stack_exception, privilege_kernel)
    ∷ (13, general_protection, privilege_kernel)
    ∷ (14, page_fault, privilege_kernel)
    ∷ (16, copr_error, privilege_kernel)
    ∷ (32, hwint00, privilege_kernel)
    ∷ (33, hwint01, privilege_kernel)
    ∷ (34, hwint02, privilege_kernel)
    ∷ (35, hwint03, privilege_kernel)
    ∷ (36, hwint04, privilege_kernel)
    ∷ (37, hwint05, privilege_kernel)
    ∷ (38, hwint06, privilege_kernel)
    ∷ (39, hwint07, privilege_kernel)
    ∷ (40, hwint08, privilege_kernel)
    ∷ (41, hwint09, privilege_kernel)
    ∷ (42, hwint10, privilege_kernel)
    ∷ (43, hwint11, privilege_kernel)
    ∷ (44, hwint12, privilege_kernel)
    ∷ (45, hwint13, privilege_kernel)
    ∷ (46, hwint14, privilege_kernel)
    ∷ (47, hwint15, privilege_kernel)
    ∷ (128, sys_call, privilege_user)
    ∷ []

-- the calls in their order, with the routines at the addresses `addr`
unfoldable pub install : (addr : Routine → ℕ) → List (ℕ × Routine × ℕ) → List Gate → List Gate
unfolding set_idt_desc
install addr [] idt = idt
install addr ((vector, routine, privilege) ∷ rest) idt =
    install addr rest (set_idt_desc vector da_386_igate (addr routine) privilege idt)

-- initIdtDesc
unfoldable pub init_idt_desc : (addr : Routine → ℕ) → List Gate → List Gate
unfolding install
init_idt_desc addr idt = install addr gates idt

-- putIrqHandler: `handlers` is IRQ_TABLE, of the handlers' addresses
unfoldable pub put_irq_handler : (irq handler : ℕ) → List ℕ → List ℕ
put_irq_handler irq handler handlers = set handlers irq handler

-- init8259A: the bytes written to the ports, in order
abbrev pub init_8259a : List (ℕ × ℕ)
init_8259a =
    (0x20, 0x11)
    ∷ (0x21, 0x20)
    ∷ (0x21, 0x4)
    ∷ (0x21, 0x1)
    ∷ (0xA0, 0x11)
    ∷ (0xA1, 0x28)
    ∷ (0xA1, 0x2)
    ∷ (0xA1, 0x1)
    ∷ (0x21, 0xFB)
    ∷ (0xA1, 0xFF)
    ∷ []
