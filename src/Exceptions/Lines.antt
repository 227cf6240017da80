-- ===== src/Exceptions/Lines.antt =====
-- kernel/int_handler.c: the lines that the six calls of printk in syserrHandler print.
use Prim.Native.String.{String}
use Prim.Native.Char.{code}
use mathlib.Core.List.{append-nil}
use operator_system.Common.{
  ℕ, zero, suc, ◌+◌, ◌-◌, ◌*◌, ◌/◌, ◌%◌, ◌^◌, ◌≤◌, ◌<◌, ◌≡◌, refl, ap, true, false, List, [], ◌∷◌,
  ◌++◌, ◌==◌, ltb, get_or, arith,
}
use operator_system.Common.Int.{negsuc, signed32}
use operator_system.Print.{Arguments, no_flags, number, vsprintf}
use operator_system.Print.Format.{formatted}
use operator_system.Exceptions.{err_description, exception_line, described, Message, messages}

-- the bytes of an ASCII text
abbrev pub codes : String → List ℕ
codes String.[] = []
codes (String.◌∷◌ c s) = code c ∷ codes s

-- the names of the exceptions from vector 0 on
abbrev pub descriptions : List String
descriptions =
    "#DE Divide Error" ∷ "#DB RESERVED" ∷ "- NMI Interrupt" ∷ "#BP Breakpoint" ∷ "#OF Overflow"
    ∷ "#BR BOUND Range Exception" ∷ "#UD Invalid Opcode {Undefined Opcode}"
    ∷ "#NM Device not Available {No Math Coprocessor}" ∷ "#DF Double Fault"
    ∷ "Coprocessor Segment Overrun {reserved}" ∷ "#TS Invalid TSS" ∷ "#NP Segment Not Present"
    ∷ "#SS Stack-Segment Fault" ∷ "#GP General Protection" ∷ "#PF Page Fault"
    ∷ "- {Intel reserved. Do Notuse}" ∷ "#MF x87 FPU Floating-Poing Error {Math Fault}"
    ∷ "#AC Alignment Check" ∷ "#MC Machine Check" ∷ "#XF SIMD Floating-Poing Exception" ∷ []

-- a line that names a word and gives it as `number` writes it to the base 16, without a width
abbrev pub word_line : Arguments → String → ℕ → List ℕ
word_line m name w = codes name ++ (number m.stray (signed32 w) 16 (negsuc 0) no_flags ++ (10 ∷ []))

-- the six lines
abbrev pub lines : Arguments → (err_no err_code eip cs eflags : ℕ) → List (List ℕ)
lines m err_no err_code eip cs eflags =
    (codes "Exception! --> " ++ (codes (get_or descriptions err_no "") ++ (10 ∷ [])))
    ∷ word_line m "Vector:" err_no
    ∷ word_line m "Error code:" err_code
    ∷ word_line m "EIP:" eip
    ∷ word_line m "CS:" cs
    ∷ word_line m "EFLAGS:" eflags
    ∷ []

-- what messages print, one by one
abbrev pub printed : List Message → List (List ℕ)
printed [] = []
printed ((m, fmt) ∷ ms) = formatted m fmt 0 ∷ printed ms

abbrev coded : List String → List (List ℕ)
coded [] = []
coded (s ∷ ss) = codes s ∷ coded ss

get_or-coded : (ss : List String) (n : ℕ) → get_or (coded ss) n [] ≡ codes (get_or ss n "")
get_or-coded [] n = refl
get_or-coded (s ∷ ss) zero = refl
get_or-coded (s ∷ ss) (suc n) = get_or-coded ss n

err_description-coded : err_description ≡ coded descriptions
err_description-coded = refl

-- what memory the first call finds
abbrev row_of : Arguments → (place n : ℕ) → Arguments
row_of m place n = record (described place m) { arg = λ _. (place + 64 * n) % 2 ^ 32 }

row_text :
    (m : Arguments) (place n : ℕ)
    → n < 20
    → 0 < place
    → place + 64 * 20 ≤ 2 ^ 32
    → (described place m).text ((place + 64 * n) % 2 ^ 32) ≡ codes (get_or descriptions n "")
row_text m place n h p l =
    let at : (place + 64 * n) % 2 ^ 32 ≡ place + 64 * n = omega (arith, h, l) in
    let above : ltb (place + 64 * n) place ≡ false = ground arith in
    let inside : ltb (place + 64 * n) (place + 64 * 20) ≡ true = ground (arith, h) in
    let index : (place + 64 * n - place) / 64 ≡ n = omega arith in
    rw at (rw (above, inside) (rw index (get_or-coded descriptions n)))

string_line :
    (m : Arguments) (text : List ℕ)
    → (m.arg 0 == 0) ≡ false
    → m.text (m.arg 0) ≡ text
    → formatted m exception_line 0 ≡ codes "Exception! --> " ++ (text ++ (10 ∷ []))
unfolding formatted vsprintf
string_line m text ne e = rw ne (rw e (rw (append-nil text) refl))

-- The six calls of printk print the six lines, for a vector in the table.
pub printed-lines :
    (m : Arguments) (place err_no err_code eip cs eflags : ℕ)
    → err_no < 20
    → 0 < place
    → place + 64 * 20 ≤ 2 ^ 32
    → printed (messages m place err_no err_code eip cs eflags)
      ≡ lines m err_no err_code eip cs eflags
unfolding messages formatted vsprintf
printed-lines m place err_no err_code eip cs eflags h p l =
    ap
      (λ (t : List ℕ).
        t
        ∷ word_line m "Vector:" err_no
        ∷ word_line m "Error code:" err_code
        ∷ word_line m "EIP:" eip
        ∷ word_line m "CS:" cs
        ∷ word_line m "EFLAGS:" eflags
        ∷ [])
      (string_line (row_of m place err_no) (codes (get_or descriptions err_no ""))
        (ground (arith, h, p, l)) (row_text m place err_no h p l))
