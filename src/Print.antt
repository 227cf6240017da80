-- ===== src/Print.antt =====
-- kernel/print.c: vsprintf and number, with printk's way to the console.
pub mod Number
pub mod Format
pub mod Pieces
pub mod Kernel
mod Tests
use operator_system.Common.{
  ℕ, zero, suc, ◌+◌, ◌-◌, ◌*◌, ◌/◌, ◌%◌, ◌^◌, Bool, true, false, not, ◌&&◌, ◌||◌, Option, none,
  some, List, [], ◌∷◌, ◌++◌, ltb, leb, ◌==◌, if◌then◌else◌, get_or, length, replicate,
}
use operator_system.Common.Int.{ℤ, pos, negsuc, pos_part, is_zero, pred_ℤ, minus_ℤ, signed32}
use operator_system.Console.{Console}
use operator_system.Tty.{Tty, tty_write}

-- ZEROPAD, LEFT, SMALL and SIGN, the bits of `flags`
pub record Flags : Type 0 where
  pub zeropad : Bool
  pub left : Bool
  pub small : Bool
  pub sign : Bool

abbrev pub no_flags : Flags
no_flags = record { zeropad = false; left = false; small = false; sign = false }

-- `up` and `low`
abbrev pub upper : List ℕ
upper = 48 ∷ 49 ∷ 50 ∷ 51 ∷ 52 ∷ 53 ∷ 54 ∷ 55 ∷ 56 ∷ 57 ∷ 65 ∷ 66 ∷ 67 ∷ 68 ∷ 69 ∷ 70 ∷ []

abbrev pub lower : List ℕ
lower = 48 ∷ 49 ∷ 50 ∷ 51 ∷ 52 ∷ 53 ∷ 54 ∷ 55 ∷ 56 ∷ 57 ∷ 97 ∷ 98 ∷ 99 ∷ 100 ∷ 101 ∷ 102 ∷ []

abbrev pub digit : (small : Bool) → ℕ → ℕ
digit small k = get_or (if small then lower else upper) k 0

-- `low[num % base]` or `up[num % base]` for a number of the size `m`, below 0 where `negative`:
-- its remainder is then 0 or negative, and `stray small k` is the byte `k` before the table.
unfoldable pub digit_at : (stray : Bool → ℕ → ℕ) → (small negative : Bool) → (base m : ℕ) → ℕ
digit_at stray small negative base m =
    if negative && not (m % base == 0) then stray small (m % base) else digit small (m % base)

-- The loop that fills `tmp`, on `num` by its size and sign; the division drops towards 0. The
-- fuel is more than an int has binary digits.
unfoldable pub digits :
    (stray : Bool → ℕ → ℕ) → (small negative : Bool) → (base fuel m : ℕ) → List ℕ
unfolding digit_at
digits stray small negative base zero m = []
digits stray small negative base (suc fuel) m =
    let more =
      digit_at stray small negative base m ∷ digits stray small negative base fuel (m / base) in
    if m == 0 then [] else more

-- `while (i-- > 0) *str++ = tmp[i]`, before what follows
unfoldable pub emit : List ℕ → List ℕ → List ℕ
emit [] rest = rest
emit (c ∷ tmp) rest = emit tmp (c ∷ rest)

abbrev pub is_negative : ℤ → Bool
is_negative (pos n) = false
is_negative (negsuc n) = true

abbrev pub size : ℤ → ℕ
size (pos n) = n
size (negsuc n) = suc n

-- `-num` on an int, which leaves the least one as it is
abbrev pub negate : ℤ → ℤ
negate (pos n) = if n == 0 then pos 0 else negsuc (n - 1)
negate (negsuc n) = if n == 2 ^ 31 - 1 then negsuc n else pos (suc n)

-- number: the bytes that it stores at `str`
unfoldable pub number :
    (stray : Bool → ℕ → ℕ) → (num : ℤ) → (base : ℕ) → (width : ℤ) → Flags → List ℕ
number stray num base width f =
    let minus = f.sign && is_negative num in
    let num' = if minus then negate num else num in
    let width' = if minus then pred_ℤ width else width in
    let tmp =
      if is_zero num'
      then 48 ∷ []
      else digits stray f.small (is_negative num') base 32 (size num') in
    let prefix = if base == 16 then 48 ∷ (if f.small then 120 else 88) ∷ [] else [] in
    let width'' = minus_ℤ (if base == 16 then minus_ℤ width' 2 else width') (length tmp) in
    let pad = replicate (pos_part width'') (if f.zeropad then 48 else 32) in
    (if minus then 45 ∷ [] else [])
    ++ (prefix ++ ((if f.left then [] else pad) ++ emit tmp (if f.left then pad else [])))

-- the flags after `%`, and what follows them
unfoldable pub read_flags : Flags → List ℕ → Flags × List ℕ
read_flags f [] = (f, [])
read_flags f (c ∷ fmt) =
    let left = read_flags (record f { left = true }) fmt in
    let zeropad = read_flags (record f { zeropad = true }) fmt in
    if c == 45 then left else if c == 48 then zeropad else (f, c ∷ fmt)

-- the field width, `field_width = i * 10 + *fmt - '0'` for each digit with `i` 0 throughout
unfoldable pub read_width : ℤ → List ℕ → ℤ × List ℕ
read_width width [] = (width, [])
read_width width (c ∷ fmt) =
    let more = read_width (minus_ℤ (pos (0 * 10 + c)) 48) fmt in
    if leb 48 c && leb c 57 then more else (width, c ∷ fmt)

-- What is outside print.c: the words of the stack from `arg_addr` on, the strings in memory by
-- their addresses, and the bytes before the tables of digits.
pub record Arguments : Type 0 where
  pub arg : ℕ → ℕ
  pub text : ℕ → List ℕ
  pub stray : Bool → ℕ → ℕ

-- "<NULL>"
abbrev pub null_text : List ℕ
null_text = 60 ∷ 78 ∷ 85 ∷ 76 ∷ 76 ∷ 62 ∷ []

-- the padding of a `%c` or `%s` before and after its bytes, `n` blanks
abbrev pub padded : (left : Bool) → ℕ → List ℕ → List ℕ
padded left n bytes =
    let pad = replicate n 32 in (if left then [] else pad) ++ (bytes ++ (if left then pad else []))

-- the conversions of the switch
pub data Conversion : Type 0 where
  char string hex_small hex_large signed unsigned other : Conversion

unfoldable pub conversion : ℕ → Conversion
conversion c =
    if c == 99
    then char
    else if c == 115
    then string
    else if c == 120
    then hex_small
    else if c == 88
    then hex_large
    else if c == 100 || c == 105
    then signed
    else if c == 117
    then unsigned
    else other

-- One conversion with the argument `k`: the bytes, and the index of the next argument.
unfoldable pub convert : Arguments → Conversion → (c : ℕ) → Flags → ℤ → (k : ℕ) → List ℕ × ℕ
convert m char c f width k =
    (padded f.left (pos_part (minus_ℤ width 1)) (m.arg k % 2 ^ 8 ∷ []), k + 1)
convert m string c f width k =
    let s = if m.arg k == 0 then null_text else m.text (m.arg k) in
    (padded f.left (pos_part (minus_ℤ width (length s))) s, k + 1)
convert m hex_small c f width k =
    (number m.stray (signed32 (m.arg k)) 16 width (record f { small = true }), k + 1)
convert m hex_large c f width k = (number m.stray (signed32 (m.arg k)) 16 width f, k + 1)
convert m signed c f width k =
    (number m.stray (signed32 (m.arg k)) 10 width (record f { sign = true }), k + 1)
convert m unsigned c f width k = (number m.stray (signed32 (m.arg k)) 10 width f, k + 1)
convert m other c f width k = (if c == 37 then c ∷ [] else 37 ∷ c ∷ [], k)

-- a directive from the character of its conversion on
unfoldable pub after_width : Arguments → Flags → ℤ → List ℕ → ℕ → List ℕ × ℕ × List ℕ
unfolding conversion convert
after_width m f width [] k = (37 ∷ [], k, [])
after_width m f width (c ∷ fmt) k =
    let (out, k') = convert m (conversion c) c f width k in (out, k', fmt)

-- a `%` with what follows it: the bytes, the next argument and the rest of the format
unfoldable pub directive : Arguments → List ℕ → ℕ → List ℕ × ℕ × List ℕ
unfolding read_flags read_width after_width
directive m fmt k =
    let (f, fmt₁) = read_flags no_flags fmt in
    let (width, fmt₂) = read_width (negsuc 0) fmt₁ in after_width m f width fmt₂ k

abbrev pub before : List ℕ → Option (List ℕ) → Option (List ℕ)
before bytes none = none
before bytes (some out) = some (bytes ++ out)

-- vsprintf from the argument `k` on; `none` when the rounds run out. The value returned is the
-- number of the bytes.
unfoldable pub vsprintf : (fuel : ℕ) → Arguments → List ℕ → ℕ → Option (List ℕ)
unfolding directive
vsprintf zero m fmt k = none
vsprintf (suc fuel) m [] k = some []
vsprintf (suc fuel) m (c ∷ fmt) k =
    let plain = before (c ∷ []) (vsprintf fuel m fmt k) in
    let (bytes, k', rest) = directive m fmt k in
    let converted = before bytes (vsprintf fuel m rest k') in if c == 37 then converted else plain

-- printk: ttyWrite of the bytes to the terminal 0; it returns the number of the bytes that vsprintf
-- stored
unfoldable pub printk : (fuel : ℕ) → Arguments → List ℕ → Tty → Console → Option (ℕ × Tty × Console)
unfolding vsprintf tty_write
printk fuel m fmt tty c = elim (vsprintf fuel m fmt 0) [
  | none ↦ none
  | some out ↦ elim (tty_write fuel tty c out) [
    | none ↦ none
    | some (n, tty', c') ↦ some (length out, tty', c')
  ]
]
