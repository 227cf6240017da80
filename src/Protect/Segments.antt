-- ===== src/Protect/Segments.antt =====
-- The base, limit and attributes of a segment descriptor in kernel/protect.c.
use Prim.Native.Nat.{bit_and, bit_or, bit_or-bitwise}
use operator_system.Common.{ℕ, ◌+◌, ◌*◌, ◌/◌, ◌%◌, ◌^◌, ◌<◌, ◌≡◌, refl, ◌∙◌, arith}
use operator_system.Common.Bits.{bit_or_digit, bit_and_digit, bit_or-add, bit_and-mask}
use operator_system.Protect.{Descriptor, get_desc_base, set_desc_base, set_gdt_desc}

-- the three parts of a base put together
bit_or-parts :
    (h m l : ℕ)
    → h < 2 ^ 8
    → m < 2 ^ 8
    → l < 2 ^ 16
    → bit_or (bit_or (h * 2 ^ 24 % 2 ^ 32) (m * 2 ^ 16)) l ≡ h * 2 ^ 24 + m * 2 ^ 16 + l
bit_or-parts h m l p q r =
    let whole : h * 2 ^ 24 % 2 ^ 32 ≡ h * 2 ^ 24 = omega arith in
    let high : bit_or (h * 2 ^ 24) (m * 2 ^ 16) ≡ (h * 2 ^ 8 + m) * 2 ^ 16 =
      omega (arith, bit_or-add 24 h (m * 2 ^ 16) (omega arith)) in
    rw whole (rw high (omega (arith, bit_or-add 16 (h * 2 ^ 8 + m) l r)))

bit_and-high_nibble : (a : ℕ) → bit_and a 0xF0 ≡ a % 2 ^ 8 / 2 ^ 4 * 2 ^ 4
bit_and-high_nibble a = omega (
  arith,
  bit_and_digit a 0xF0,
  bit_and_digit (a / 2) 0x78,
  bit_and_digit (a / 2 / 2) 0x3C,
  bit_and_digit (a / 2 / 2 / 2) 0x1E,
  bit_and-mask 4 (a / 2 / 2 / 2 / 2),
)

bit_or-zero : (x y a : ℕ) → x ≡ 0 → y ≡ a → bit_or x y ≡ a
bit_or-zero x y a e f = rw (e, f) (simp bit_or-bitwise refl)

-- the limit nibble below the attribute nibble
bit_or-nibbles : (l a : ℕ) → l < 2 ^ 4 → bit_or l (a * 2 ^ 4) ≡ a * 2 ^ 4 + l
bit_or-nibbles l a h = omega (
  arith,
  h,
  bit_or_digit l (a * 2 ^ 4),
  bit_or_digit (l / 2) (a * 2 ^ 4 / 2),
  bit_or_digit (l / 2 / 2) (a * 2 ^ 4 / 2 / 2),
  bit_or_digit (l / 2 / 2 / 2) (a * 2 ^ 4 / 2 / 2 / 2),
  bit_or-zero (l / 2 / 2 / 2 / 2) (a * 2 ^ 4 / 2 / 2 / 2 / 2) a (omega arith) (omega arith),
)

-- the limit and the attributes that the processor reads in a descriptor
abbrev pub limit_of : Descriptor → ℕ
limit_of d = d.limit_low + d.limit_high_attr2 % 2 ^ 4 * 2 ^ 16

abbrev pub attribute_of : Descriptor → ℕ
attribute_of d = d.attr1 + d.limit_high_attr2 / 2 ^ 4 * 2 ^ 12

base-parts :
    (base : ℕ)
    → base < 2 ^ 32
    → bit_or
        (bit_or
          (bit_and (base / 2 ^ 24) 0xFF * 2 ^ 24 % 2 ^ 32)
          (bit_and (base / 2 ^ 16) 0xFF * 2 ^ 16))
        (bit_and base 0xFFFF)
      ≡ base
base-parts base h =
    rw (bit_and-mask 8 (base / 2 ^ 24), bit_and-mask 8 (base / 2 ^ 16), bit_and-mask 16 base)
      (bit_or-parts (base / 2 ^ 24 % 2 ^ 8) (base / 2 ^ 16 % 2 ^ 8) (base % 2 ^ 16) (omega arith)
          (omega arith) (omega arith)
        ∙ omega arith)

-- getDescBase reads back the base that setDescBase wrote, and setDescBase keeps the limit and the
-- attributes.
pub get_desc_base-set_desc_base :
    (d : Descriptor) (base : ℕ)
    → base < 2 ^ 32
    → (get_desc_base (set_desc_base d base) ≡ base)
      × (limit_of (set_desc_base d base) ≡ limit_of d)
      × (attribute_of (set_desc_base d base) ≡ attribute_of d)
unfolding get_desc_base set_desc_base
get_desc_base-set_desc_base d base h = (base-parts base h, refl, refl)

nibbles :
    (limit attribute : ℕ)
    → bit_or (bit_and (limit / 2 ^ 16) 0x0F) (bit_and (attribute / 2 ^ 8) 0xF0)
      ≡ attribute / 2 ^ 8 % 2 ^ 8 / 2 ^ 4 * 2 ^ 4 + limit / 2 ^ 16 % 2 ^ 4
nibbles limit attribute =
    rw (bit_and-mask 4 (limit / 2 ^ 16), bit_and-high_nibble (attribute / 2 ^ 8))
      (bit_or-nibbles (limit / 2 ^ 16 % 2 ^ 4) (attribute / 2 ^ 8 % 2 ^ 8 / 2 ^ 4) (omega arith))

-- A descriptor made by setGdtDesc has the base that was given, as getDescBase reads it, the low 20
-- bits of the limit, and the attributes without the four bits where the limit's top lies.
pub get_desc_base-set_gdt_desc :
    (d : Descriptor) (base limit attribute : ℕ)
    → base < 2 ^ 32
    → attribute < 2 ^ 16
    → let d' = set_gdt_desc d base limit attribute in
      (get_desc_base d' ≡ base)
      × (limit_of d' ≡ limit % 2 ^ 20)
      × (attribute_of d' ≡ attribute / 2 ^ 12 * 2 ^ 12 + attribute % 2 ^ 8)
unfolding get_desc_base set_gdt_desc
get_desc_base-set_gdt_desc d base limit attribute h a = (
  base-parts base h,
  rw (bit_and-mask 16 limit, nibbles limit attribute) (omega arith),
  rw (bit_and-mask 8 attribute, nibbles limit attribute) (omega (arith, a)),
)
