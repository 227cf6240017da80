-- ===== src/Print/Format.antt =====
-- The formats that vsprintf of kernel/print.c reads.
use operator_system.Common.{
  ℕ, zero, suc, ◌+◌, ◌*◌, ◌≤◌, ◌<◌, ◌≡◌, refl, inl, inr, true, false, ◌&&◌, Option, none, some,
  List, [], ◌∷◌, ◌++◌, ◌==◌, leb, length, Bool-cases, arith,
}
use operator_system.Common.Int.{ℤ, pos, negsuc, minus_ℤ}
use operator_system.Print.{
  Flags, no_flags, Arguments, read_flags, read_width, after_width, directive, vsprintf,
}

-- what vsprintf reads of a format is not longer than the format
length-read_flags : (f : Flags) (fmt : List ℕ) → length (read_flags f fmt).1 ≤ length fmt
unfolding read_flags
length-read_flags f [] = omega arith
length-read_flags f (c ∷ fmt) =
    let left = length-read_flags (record f { left = true }) fmt in
    let zeropad = length-read_flags (record f { zeropad = true }) fmt in
    elim (Bool-cases (c == 45)) [
      | inl e ↦ rw e (omega (arith, left))
      | inr e ↦ elim (Bool-cases (c == 48)) [
        | inl z ↦ rw (e, z) (omega (arith, zeropad))
        | inr z ↦ rw (e, z) (omega arith)
      ]
    ]

length-read_width : (w : ℤ) (fmt : List ℕ) → length (read_width w fmt).1 ≤ length fmt
unfolding read_width
length-read_width w [] = omega arith
length-read_width w (c ∷ fmt) =
    let more = length-read_width (minus_ℤ (pos (0 * 10 + c)) 48) fmt in
    elim (Bool-cases (leb 48 c && leb c 57)) [
      | inl e ↦ rw e (omega (arith, more))
      | inr e ↦ rw e (omega arith)
    ]

length-after_width :
    (m : Arguments) (f : Flags) (w : ℤ) (fmt : List ℕ) (k : ℕ)
    → length (after_width m f w fmt k).2 ≤ length fmt
unfolding after_width
length-after_width m f w [] k = omega arith
length-after_width m f w (c ∷ fmt) k = omega arith

length-directive :
    (m : Arguments) (fmt : List ℕ) (k : ℕ) → length (directive m fmt k).2 ≤ length fmt
unfolding directive
length-directive m fmt k =
    let (f, fmt₁) = read_flags no_flags fmt in
    let (w, fmt₂) = read_width (negsuc 0) fmt₁ in
    omega (
      arith,
      length-read_flags no_flags fmt,
      length-read_width (negsuc 0) fmt₁,
      length-after_width m f w fmt₂ k,
    )

run :
    (n : ℕ) (m : Arguments) (fmt : List ℕ) (k : ℕ)
    → length fmt < n
    → (out : List ℕ) × ((fuel : ℕ) → length fmt < fuel → vsprintf fuel m fmt k ≡ some out)
unfolding vsprintf
run zero m fmt k h = absurd (omega (arith, h))
run (suc n) m [] k h = ([], λ fuel. by_fuel fuel)
  where
    by_fuel : (fuel : ℕ) → 0 < fuel → vsprintf fuel m [] k ≡ some []
    by_fuel zero h = absurd (omega (arith, h))
    by_fuel (suc fuel) h = refl
run (suc n) m (c ∷ fmt) k h = elim (Bool-cases (c == 37)) [
  | inl e ↦
      let d = directive m fmt k in
      let (out, go) = run n m d.2 d.1 (omega (arith, h, length-directive m fmt k)) in
      (d.0 ++ out, λ fuel l. converted e go fuel l)
  | inr e ↦
      let (out, go) = run n m fmt k (omega (arith, h)) in (c ∷ out, λ fuel l. plain e go fuel l)
]
  where
    converted :
        {out : List ℕ}
        → (c == 37) ≡ true
        → ((fuel : ℕ)
            → length (directive m fmt k).2 < fuel
            → vsprintf fuel m (directive m fmt k).2 (directive m fmt k).1 ≡ some out)
        → (fuel : ℕ) → suc (length fmt) < fuel
        → vsprintf fuel m (c ∷ fmt) k ≡ some ((directive m fmt k).0 ++ out)
    converted e go zero l = absurd (omega (arith, l))
    converted e go (suc fuel) l = rw (e, go fuel (omega (arith, l, length-directive m fmt k))) refl

    plain :
        {out : List ℕ}
        → (c == 37) ≡ false
        → ((fuel : ℕ) → length fmt < fuel → vsprintf fuel m fmt k ≡ some out)
        → (fuel : ℕ) → suc (length fmt) < fuel
        → vsprintf fuel m (c ∷ fmt) k ≡ some (c ∷ out)
    plain e go zero l = absurd (omega (arith, l))
    plain e go (suc fuel) l = rw (e, go fuel (omega (arith, l))) refl

abbrev pub bytes_of : Option (List ℕ) → List ℕ
bytes_of none = []
bytes_of (some out) = out

-- what vsprintf stores with one round more than the format has bytes
unfoldable pub formatted : Arguments → List ℕ → ℕ → List ℕ
formatted m fmt k = bytes_of (vsprintf (suc (length fmt)) m fmt k)

-- On every format, with any arguments, vsprintf ends: with any number of rounds over the length of
-- the format it stores the same bytes.
pub vsprintf-formatted :
    (m : Arguments) (fmt : List ℕ) (k fuel : ℕ)
    → length fmt < fuel
    → vsprintf fuel m fmt k ≡ some (formatted m fmt k)
unfolding formatted
vsprintf-formatted m fmt k fuel h =
    let (out, go) = run (suc (length fmt)) m fmt k (omega arith) in
    rw (go (suc (length fmt)) (omega arith)) (go fuel h)
