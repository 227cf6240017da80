-- ===== src/Print/Number.antt =====
-- The digits that number of kernel/print.c prints.
use native.Mathlib.Nat.{div-add-mod, mod-lt, div-lt_iff_lt-mul, pow-zero, pow-suc}
use mathlib.Core.List.{reverse, reverse-cons, append_assoc}
use operator_system.Common.{
  ℕ, zero, suc, ◌+◌, ◌-◌, ◌*◌, ◌/◌, ◌%◌, ◌^◌, ◌≤◌, ◌<◌, ◌≡◌, ◌≢◌, refl, sym, ap, ◌∙◌, ◌⊎◌, inl, inr,
  Bool, true, false, not, ◌&&◌, List, [], ◌∷◌, ◌++◌, map, ◌==◌, if◌then◌else◌, length, replicate,
  All, Bool-cases, arith,
}
use operator_system.Common.Int.{ℤ, pos, negsuc, pos_part, pred_ℤ, minus_ℤ, pos_part-minus_ℤ}
use operator_system.Print.{Flags, digit, digits, emit, is_negative, size, number}

-- the number with the digits `ds`, the lowest first
abbrev pub value : (base : ℕ) → List ℕ → ℕ
value base [] = 0
value base (d ∷ ds) = d + base * value base ds

-- the last digit in the list, the highest, is not 0
abbrev pub NoLeadingZero : List ℕ → Type 0
NoLeadingZero [] = Unit
NoLeadingZero (d ∷ []) = d ≢ 0
NoLeadingZero (d ∷ e ∷ ds) = NoLeadingZero (e ∷ ds)

-- the digits that the loop puts into `tmp` for the number `m`
record Digits (base m : ℕ) (small : Bool) (tmp ds : List ℕ) : Type 0 where
  chars : tmp ≡ map (digit small) ds
  is_value : value base ds ≡ m
  each : All (λ d. d < base) ds
  no_zero : NoLeadingZero ds
  short : (k : ℕ) → m < base ^ k → length ds ≤ k

less_digits : (base f m : ℕ) → 1 < base → m < 2 ^ suc f → m / base < 2 ^ f
less_digits base f m b h =
    (div-lt_iff_lt-mul {k = base} {x = m} {y = 2 ^ f} (omega arith)).1 (grind (arith, pow-suc 2 f))

shorter : (base k m : ℕ) → 1 < base → m < base ^ suc k → m / base < base ^ k
shorter base k m b h =
    (div-lt_iff_lt-mul {k = base} {x = m} {y = base ^ k} (omega arith)).1
      (omega (arith, pow-suc base k))

NoLeadingZero-cons :
    (base d q : ℕ) (ds : List ℕ)
    → value base ds ≡ q
    → d + base * q ≢ 0
    → NoLeadingZero ds
    → NoLeadingZero (d ∷ ds)
NoLeadingZero-cons base d q [] e ne h = λ z. ne (rw (sym e) (omega (arith, z)))
NoLeadingZero-cons base d q (x ∷ ds) e ne h = h

not_zero : (m base : ℕ) → (m == 0) ≡ false → m % base + base * (m / base) ≢ 0
not_zero m base n z = ground (arith, n, z, div-add-mod m base)

short-cons :
    (base m : ℕ) (ds : List ℕ)
    → 1 < base
    → (m == 0) ≡ false
    → ((k : ℕ) → m / base < base ^ k → length ds ≤ k)
    → (k : ℕ) → m < base ^ k
    → suc (length ds) ≤ k
short-cons base m ds b n short zero h = absurd (ground (arith, n, pow-zero base))
short-cons base m ds b n short (suc k) h = omega (arith, short k (shorter base k m b h))

digits-Digits :
    (stray : Bool → ℕ → ℕ) (small : Bool) (base fuel m : ℕ)
    → 1 < base
    → m < 2 ^ fuel
    → (ds : List ℕ) × Digits base m small (digits stray small false base fuel m) ds
unfolding digits
digits-Digits stray small base zero m b h = (
  [],
  record {
    chars = refl;
    is_value = omega (arith, h);
    each = tt;
    no_zero = tt;
    short = λ k l. omega arith;
  },
)
digits-Digits stray small base (suc fuel) m b h = elim (Bool-cases (m == 0)) [
  | inl z ↦ (
    [],
    record {
      chars = rw (z, digits) refl;
      is_value = ground (arith, z);
      each = tt;
      no_zero = tt;
      short = λ k l. omega arith;
    },
  )
  | inr n ↦
      let (ds, v) =
        digits-Digits stray small base fuel (m / base) b (less_digits base fuel m b h) in
      (
        m % base ∷ ds,
        record {
          chars = rw (n, digits) (ap (λ t. digit small (m % base) ∷ t) v.chars);
          is_value =
              ap (λ (t : ℕ). m % base + base * t) v.is_value ∙ omega (arith, div-add-mod m base);
          each = (mod-lt m (omega arith), v.each);
          no_zero =
              NoLeadingZero-cons base (m % base) (m / base) ds v.is_value (λ z. not_zero m base n z)
                v.no_zero;
          short = short-cons base m ds b n v.short;
        },
      )
]

emit-eq-reverse : (tmp rest : List ℕ) → emit tmp rest ≡ reverse tmp ++ rest
unfolding emit
emit-eq-reverse [] rest = refl
emit-eq-reverse (c ∷ tmp) rest =
    emit-eq-reverse tmp (c ∷ rest)
    ∙ rw (reverse-cons c tmp) (sym (append_assoc (reverse tmp) (c ∷ []) rest))

-- the sign, and the prefix of a number in base 16
abbrev pub sign_of : ℤ → List ℕ
sign_of (pos n) = []
sign_of (negsuc n) = 45 ∷ []

abbrev pub prefix_of : (base : ℕ) → Flags → List ℕ
prefix_of base f = if base == 16 then 48 ∷ (if f.small then 120 else 88) ∷ [] else []

-- the padding of a number with `n` digits
abbrev pub padding : (base : ℕ) → ℤ → ℤ → Flags → (n : ℕ) → List ℕ
padding base num width f n =
    replicate (pos_part width - (length (sign_of num) + length (prefix_of base f) + n))
      (if f.zeropad then 48 else 32)

-- a prefix and digits with the padding before or after the digits
abbrev pub laid : (left : Bool) → (pad prefix ds : List ℕ) → List ℕ
laid left pad prefix ds =
    prefix ++ ((if left then [] else pad) ++ (ds ++ (if left then pad else [])))

-- what number prints for an int that is not the least, and not negative unless it is signed
pub record Printed (stray : Bool → ℕ → ℕ) (num : ℤ) (base : ℕ) (width : ℤ) (f : Flags) (ds : List ℕ)
    : Type 0 where
  pub is_value : value base ds ≡ size num
  pub each : All (λ d. d < base) ds
  pub no_zero : (ds ≡ 0 ∷ []) ⊎ NoLeadingZero ds
  pub some_digit : 0 < length ds
  pub short : length ds ≤ 10
  pub bytes :
      let pad = padding base num width f (length ds) in
      number stray num base width f
      ≡ sign_of num ++ laid f.left pad (prefix_of base f) (reverse (map (digit f.small) ds))

length-map : (g : ℕ → ℕ) (ds : List ℕ) → length (map g ds) ≡ length ds
length-map g [] = refl
length-map g (d ∷ ds) = ap suc (length-map g ds)

pos_part-pred_ℤ : (w : ℤ) → pos_part (pred_ℤ w) ≡ pos_part w - 1
pos_part-pred_ℤ (pos n) = ground arith
pos_part-pred_ℤ (negsuc n) = omega arith

-- the width left for the padding, after `s` bytes for the sign
room :
    (base n s : ℕ) (w v : ℤ) (f : Flags)
    → pos_part v ≡ pos_part w - s
    → pos_part (minus_ℤ (if base == 16 then minus_ℤ v 2 else v) n)
      ≡ pos_part w - (s + length (prefix_of base f) + n)
room base n s w v f e = elim (Bool-cases (base == 16)) [
  | inl b ↦ rw b (omega (arith, e, pos_part-minus_ℤ (minus_ℤ v 2) n, pos_part-minus_ℤ v 2))
  | inr b ↦ rw b (omega (arith, e, pos_part-minus_ℤ v n))
]

-- number from `tmp` on
body :
    (stray : Bool → ℕ → ℕ) (base : ℕ) (f : Flags) (w v : ℤ) (s : ℕ) (tmp ds : List ℕ)
    → pos_part v ≡ pos_part w - s
    → tmp ≡ map (digit f.small) ds
    → (let pad : List ℕ =
          replicate
            (pos_part (minus_ℤ (if base == 16 then minus_ℤ v 2 else v) (length tmp)))
            (if f.zeropad then 48 else 32) in
        prefix_of base f ++ ((if f.left then [] else pad) ++ emit tmp (if f.left then pad else [])))
      ≡ laid f.left
          (replicate
            (pos_part w - (s + length (prefix_of base f) + length ds))
            (if f.zeropad then 48 else 32))
          (prefix_of base f)
          (reverse (map (digit f.small) ds))
body stray base f w v s tmp ds e c =
    rw (room base (length tmp) s w v f e) (
      rw c
        (rw (length-map (digit f.small) ds) (rw (emit-eq-reverse (map (digit f.small) ds)) refl)))

-- an int that is not negative
number-pos :
    (stray : Bool → ℕ → ℕ) (n base : ℕ) (width : ℤ) (f : Flags) (ds : List ℕ)
    → (if n == 0 then 48 ∷ [] else digits stray f.small false base 32 n) ≡ map (digit f.small) ds
    → number stray (pos n) base width f
      ≡ laid f.left
          (padding base (pos n) width f (length ds))
          (prefix_of base f)
          (reverse (map (digit f.small) ds))
unfolding number
number-pos stray n base width f ds c = elim (Bool-cases f.sign) [
  | inl s ↦ rw (s, number) (body stray base f width width 0 _ ds (omega arith) c)
  | inr s ↦ rw (s, number) (body stray base f width width 0 _ ds (omega arith) c)
]

suc_ne : (n : ℕ) → (suc n == 0) ≡ false
suc_ne n = ground arith

zero_digit : (small : Bool) → (48 ∷ []) ≡ digit small 0 ∷ []
zero_digit true = refl
zero_digit false = refl

-- a negative int other than the least
number-negsuc :
    (stray : Bool → ℕ → ℕ) (n base : ℕ) (width : ℤ) (f : Flags) (ds : List ℕ)
    → f.sign ≡ true
    → (n == 2 ^ 31 - 1) ≡ false
    → digits stray f.small false base 32 (suc n) ≡ map (digit f.small) ds
    → number stray (negsuc n) base width f
      ≡ 45
        ∷ laid f.left
            (padding base (negsuc n) width f (length ds))
            (prefix_of base f)
            (reverse (map (digit f.small) ds))
unfolding number
number-negsuc stray n base width f ds s e c =
    rw (s, e, number)
      (rw (suc_ne n) (
        ap (λ (t : List ℕ). 45 ∷ t)
          (body stray base f width (pred_ℤ width) 1 _ ds (pos_part-pred_ℤ width) c)))

some-digit : (base n : ℕ) (ds : List ℕ) → value base ds ≡ suc n → 0 < length ds
some-digit base n [] e = absurd (omega (arith, e))
some-digit base n (d ∷ ds) e = omega arith

signed : (b : Bool) → (true && not b) ≡ false → b ≡ true
signed true h = refl
signed false h = cc

base-bounds : (base : ℕ) → ((base ≡ 10) ⊎ (base ≡ 16)) → (1 < base) × (2 ^ 31 ≤ base ^ 10)
base-bounds base (inl e) = rw e (omega arith, omega arith)
base-bounds base (inr e) = rw e (omega arith, omega arith)

-- For an int that is not the least, and not negative unless the flag SIGN is set, in base 10 or 16,
-- with any width and flags: number prints a minus sign if the int is negative, the prefix of base
-- 16, and digits of the base from the highest to the lowest whose value is the int's size, without
-- leading zeros and at most ten; the padding fills up to the width and stands before the digits,
-- or with the flag LEFT behind them.
pub number-Printed :
    (stray : Bool → ℕ → ℕ) (num : ℤ) (base : ℕ) (width : ℤ) (f : Flags)
    → (base ≡ 10) ⊎ (base ≡ 16)
    → size num < 2 ^ 31
    → (is_negative num && not f.sign) ≡ false
    → (ds : List ℕ) × Printed stray num base width f ds
number-Printed stray (pos zero) base width f b h s =
    let (b₁, _) = base-bounds base b in
    (
      0 ∷ [],
      record {
        is_value = omega arith;
        each = (omega (arith, b₁), tt);
        no_zero = inl refl;
        some_digit = omega arith;
        short = omega arith;
        bytes = number-pos stray 0 base width f (0 ∷ []) (zero_digit f.small);
      },
    )
number-Printed stray (pos (suc n)) base width f b h s =
    let (b₁, b₂) = base-bounds base b in
    let (ds, v) = digits-Digits stray f.small base 32 (suc n) b₁ (omega (arith, h)) in
    (
      ds,
      record {
        is_value = v.is_value;
        each = v.each;
        no_zero = inr v.no_zero;
        some_digit = some-digit base n ds v.is_value;
        short = v.short 10 (omega (arith, h, b₂));
        bytes = number-pos stray (suc n) base width f ds (rw (suc_ne n) v.chars);
      },
    )
number-Printed stray (negsuc n) base width f b h s =
    let (b₁, b₂) = base-bounds base b in
    let (ds, v) = digits-Digits stray f.small base 32 (suc n) b₁ (omega (arith, h)) in
    (
      ds,
      record {
        is_value = v.is_value;
        each = v.each;
        no_zero = inr v.no_zero;
        some_digit = some-digit base n ds v.is_value;
        short = v.short 10 (omega (arith, h, b₂));
        bytes = number-negsuc stray n base width f ds (signed f.sign s) (ground (arith, h)) v.chars;
      },
    )
