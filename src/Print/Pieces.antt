-- ===== src/Print/Pieces.antt =====
-- The formats of vsprintf of kernel/print.c, piece by piece.
use operator_system.Common.{
  ℕ, zero, suc, ◌+◌, ◌*◌, ◌≤◌, ◌<◌, ◌≡◌, ◌≢◌, refl, ap, ◌∙◌, ◌⊎◌, Bool, true, false, ◌&&◌, some,
  List, [], ◌∷◌, ◌++◌, ◌==◌, leb, if◌then◌else◌, length, All, arith,
}
use operator_system.Common.Int.{ℤ, pos, negsuc, minus_ℤ}
use operator_system.Print.{
  Flags, no_flags, Arguments, read_flags, read_width, conversion, convert, after_width, directive,
  vsprintf,
}

-- A byte that is not `%`, or a conversion `c` with its flags and the digits of its field width.
pub data Piece : Type 0 where
  plain : (c : ℕ) → Piece
  field : (left zeropad : Bool) (width : List ℕ) (c : ℕ) → Piece

-- the width starts with no zero, and the conversion is no digit and no minus sign
abbrev StartsField : List ℕ → ℕ → Type 0
StartsField [] c = c ≢ 45
StartsField (d ∷ width) c = d ≢ 0

abbrev pub IsPiece : Piece → Type 0
IsPiece (plain c) = c ≢ 37
IsPiece (field left zeropad width c) =
    All (λ d. d ≤ 9) width × StartsField width c × ((c < 48) ⊎ (57 < c))

-- the characters of the digits, before `fmt`
unfoldable pub numeral : List ℕ → List ℕ → List ℕ
numeral [] fmt = fmt
numeral (d ∷ ds) fmt = (48 + d) ∷ numeral ds fmt

-- a piece in the format, before `fmt`
abbrev pub shown : Piece → List ℕ → List ℕ
shown (plain c) fmt = c ∷ fmt
shown (field left zeropad width c) fmt =
    let rest = numeral width (c ∷ fmt) in
    let flag = if zeropad then 48 ∷ rest else rest in 37 ∷ (if left then 45 ∷ flag else flag)

unfoldable pub format : List Piece → List ℕ
unfolding numeral
format [] = []
format (p ∷ ps) = shown p (format ps)

-- the last digit, or `w` if there is none
unfoldable pub last_digit : ℤ → List ℕ → ℤ
last_digit w [] = w
last_digit w (d ∷ ds) = last_digit (pos d) ds

abbrev flags_of : (left zeropad : Bool) → Flags
flags_of l z = record { zeropad = z; left = l; small = false; sign = false }

-- the bytes for the pieces, from the argument `k` on
unfoldable pub expand : Arguments → List Piece → ℕ → List ℕ
unfolding last_digit
expand m [] k = []
expand m (plain c ∷ ps) k = c ∷ expand m ps k
expand m (field left zeropad width c ∷ ps) k =
    let (bytes, k') =
      convert m (conversion c) c (flags_of left zeropad) (last_digit (negsuc 0) width) k in
    bytes ++ expand m ps k'

no_flag :
    (f : Flags) (c : ℕ) (fmt : List ℕ) → c ≢ 45 → c ≢ 48 → read_flags f (c ∷ fmt) ≡ (f, c ∷ fmt)
unfolding read_flags
no_flag f c fmt h z = ground (arith, h, z)

read_flags-numeral :
    (f : Flags) (width : List ℕ) (c : ℕ) (fmt : List ℕ)
    → StartsField width c
    → (c < 48) ⊎ (57 < c)
    → read_flags f (numeral width (c ∷ fmt)) ≡ (f, numeral width (c ∷ fmt))
unfolding numeral
read_flags-numeral f [] c fmt h e = no_flag f c fmt h (ground (arith, e))
read_flags-numeral f (d ∷ width) c fmt h e =
    no_flag f (48 + d) (numeral width (c ∷ fmt)) (omega arith) (omega (arith, h))

read_flags-field :
    (left zeropad : Bool) (width : List ℕ) (c : ℕ) (fmt : List ℕ)
    → StartsField width c
    → (c < 48) ⊎ (57 < c)
    → let rest = numeral width (c ∷ fmt) in
      let flag = if zeropad then 48 ∷ rest else rest in
      read_flags no_flags (if left then 45 ∷ flag else flag) ≡ (flags_of left zeropad, rest)
unfolding read_flags
read_flags-field true true width c fmt h e = read_flags-numeral _ width c fmt h e
read_flags-field true false width c fmt h e = read_flags-numeral _ width c fmt h e
read_flags-field false true width c fmt h e = read_flags-numeral _ width c fmt h e
read_flags-field false false width c fmt h e = read_flags-numeral _ width c fmt h e

digit_value : (d : ℕ) → minus_ℤ (pos (0 * 10 + (48 + d))) 48 ≡ pos d
digit_value d = ground arith

is_digit : (d : ℕ) → d ≤ 9 → (leb 48 (48 + d) && leb (48 + d) 57) ≡ true
is_digit d h = ground (arith, h)

read_width-digit :
    (w : ℤ) (d : ℕ) (fmt : List ℕ) → d ≤ 9 → read_width w ((48 + d) ∷ fmt) ≡ read_width (pos d) fmt
unfolding read_width
read_width-digit w d fmt h = rw (is_digit d h) (ap (λ (v : ℤ). read_width v fmt) (digit_value d))

read_width-end :
    (w : ℤ) (c : ℕ) (fmt : List ℕ) → (c < 48) ⊎ (57 < c) → read_width w (c ∷ fmt) ≡ (w, c ∷ fmt)
unfolding read_width
read_width-end w c fmt e = ground (arith, e)

read_width-numeral :
    (w : ℤ) (width : List ℕ) (c : ℕ) (fmt : List ℕ)
    → All (λ d. d ≤ 9) width
    → (c < 48) ⊎ (57 < c)
    → read_width w (numeral width (c ∷ fmt)) ≡ (last_digit w width, c ∷ fmt)
unfolding numeral last_digit
read_width-numeral w [] c fmt a e = read_width-end w c fmt e
read_width-numeral w (d ∷ width) c fmt (h, a) e =
    read_width-digit w d _ h ∙ read_width-numeral (pos d) width c fmt a e

directive-field :
    (m : Arguments) (left zeropad : Bool) (width : List ℕ) (c : ℕ) (fmt : List ℕ) (k : ℕ)
    → All (λ d. d ≤ 9) width
    → StartsField width c
    → (c < 48) ⊎ (57 < c)
    → let rest = numeral width (c ∷ fmt) in
      let flag = if zeropad then 48 ∷ rest else rest in
      let (out, k') =
        convert m (conversion c) c (flags_of left zeropad) (last_digit (negsuc 0) width) k in
      directive m (if left then 45 ∷ flag else flag) k ≡ (out, k', fmt)
unfolding directive after_width
directive-field m left zeropad width c fmt k a h e =
    rw
      (read_flags-field left zeropad width c fmt h e, read_width-numeral (negsuc 0) width c fmt a e)
      refl

length-numeral : (ds fmt : List ℕ) → length fmt ≤ length (numeral ds fmt)
unfolding numeral
length-numeral [] fmt = omega arith
length-numeral (d ∷ ds) fmt = omega (arith, length-numeral ds fmt)

length-shown :
    (left zeropad : Bool) (width : List ℕ) (c : ℕ) (fmt : List ℕ)
    → suc (length fmt) < length (shown (field left zeropad width c) fmt)
length-shown left zeropad width c fmt = ground (arith, length-numeral width (c ∷ fmt))

not_percent : (c : ℕ) → c ≢ 37 → (c == 37) ≡ false
not_percent c n = ground (arith, n)

-- On a format made of pieces, each a byte other than `%` or a conversion with its flags and field
-- width, with more rounds than the format is long: vsprintf stores for each byte the byte, and for
-- each conversion what it makes of the next argument with these flags and with the width's last
-- digit as the width, or none where there is no width.
pub vsprintf-expand :
    (m : Arguments) (ps : List Piece) (k fuel : ℕ)
    → All IsPiece ps
    → length (format ps) < fuel
    → vsprintf fuel m (format ps) k ≡ some (expand m ps k)
unfolding vsprintf format expand
vsprintf-expand m ps k zero a h = absurd (omega (arith, h))
vsprintf-expand m [] k (suc fuel) a h = refl
vsprintf-expand m (plain c ∷ ps) k (suc fuel) (n, a) h =
    let more = vsprintf-expand m ps k fuel a (omega (arith, h)) in rw (not_percent c n, more) refl
vsprintf-expand m (field left zeropad width c ∷ ps) k (suc fuel) ((d, s, e), a) h =
    let (out, k') =
      convert m (conversion c) c (flags_of left zeropad) (last_digit (negsuc 0) width) k in
    let more =
      vsprintf-expand m ps k' fuel a
        (omega (arith, h, length-shown left zeropad width c (format ps))) in
    rw (directive-field m left zeropad width c (format ps) k d s e) (rw more refl)
