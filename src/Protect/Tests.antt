-- ===== src/Protect/Tests.antt =====
-- Descriptors and gates at concrete values.
use operator_system.Common.{ℕ, ◌≡◌, ◌≢◌, List, get_or, length, replicate, length-replicate, arith}
use operator_system.Protect.{Descriptor, Gate, Routine, no_gate, init_idt_desc}
use operator_system.Protect.Gates.{IsGate, vector_of, level_of, init_idt_desc-IsGate}

abbrev empty_descriptor : Descriptor
empty_descriptor = record {
  limit_low = 0;
  base_low = 0;
  base_mid = 0;
  attr1 = 0;
  limit_high_attr2 = 0;
  base_high = 0;
}

abbrev addr : Routine → ℕ
addr r = 0x30500

abbrev empty_table : List Gate
empty_table = replicate 256 no_gate

init_idt_desc-IsGate_example :
    ((r : Routine)
      → IsGate
          (addr r)
          (level_of r)
          (get_or (init_idt_desc addr empty_table) (vector_of r) no_gate))
    × ((v : ℕ)
        → ((r : Routine) → v ≢ vector_of r)
        → get_or (init_idt_desc addr empty_table) v no_gate ≡ get_or empty_table v no_gate)
    × (length (init_idt_desc addr empty_table) ≡ 256)
init_idt_desc-IsGate_example =
    init_idt_desc-IsGate addr empty_table (λ r. omega arith) (length-replicate 256 no_gate)
