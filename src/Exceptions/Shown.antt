-- ===== src/Exceptions/Shown.antt =====
-- kernel/int_handler.c: what syserrHandler shows.
use mathlib.Core.Path.{subst}
use operator_system.Common.{
  ℕ, ◌+◌, ◌*◌, ◌^◌, ◌≤◌, ◌<◌, ◌≡◌, refl, ap, sym, ◌∙◌, some, List, [], ◌∷◌, ◌++◌, get_or, length,
  All, arith,
}
use operator_system.Common.Steps.{◌>>=◌}
use operator_system.Console.{Console}
use operator_system.Console.Screen.{screen, feed, feed-append, screen-feed}
use operator_system.Tty.{Tty, console}
use operator_system.Tty.Write.{IsIdle, with_returns}
use operator_system.Print.{Arguments}
use operator_system.Print.Format.{formatted}
use operator_system.Print.Kernel.{printk-console}
use operator_system.Exceptions.Lines.{lines, printed, printed-lines}
use operator_system.Exceptions.{Message, messages, print_all, syserr_handler}

-- the rounds are enough for a message
abbrev Fits : (fuel : ℕ) → Message → Type 0
Fits fuel (m, fmt) = (length fmt < fuel) × (2 * length (formatted m fmt 0) + 1 < fuel)

-- the bytes of lines, one after the other
abbrev pub joined : List (List ℕ) → List ℕ
joined [] = []
joined (l ∷ ls) = l ++ joined ls

with_returns-append :
    (xs ys : List ℕ) → with_returns (xs ++ ys) ≡ with_returns xs ++ with_returns ys
unfolding with_returns
with_returns-append [] ys = refl
with_returns-append (x ∷ xs) ys = ground (arith, with_returns-append xs ys)

-- two texts shown one after the other
shown_twice :
    (v : ℕ) (xs ys : List ℕ) (c c₁ c₂ : Console)
    → screen c₁ ≡ screen (feed v (with_returns xs) c)
    → screen c₂ ≡ screen (feed v (with_returns ys) c₁)
    → screen c₂ ≡ screen (feed v (with_returns (xs ++ ys)) c)
shown_twice v xs ys c c₁ c₂ e f =
    f
    ∙ screen-feed v (with_returns ys) c₁ (feed v (with_returns xs) c) e
    ∙ ap screen (
        sym (feed-append v (with_returns xs) (with_returns ys) c)
        ∙ ap (λ bs. feed v bs c) (sym (with_returns-append xs ys)))

print_all-shown :
    (fuel : ℕ) (ms : List Message) (tty : Tty) (c : Console)
    → tty.write ≡ console
    → tty.c_oflag ≡ 5
    → IsIdle tty
    → All (Fits fuel) ms
    → (tty' : Tty) × (c' : Console) × (print_all fuel ms tty c ≡ some (tty', c'))
      × IsIdle tty'
      × (screen c' ≡ screen (feed (get_or tty.c_cc 2 0) (with_returns (joined (printed ms))) c))
unfolding print_all with_returns feed
print_all-shown fuel [] tty c w o v h = (tty, c, refl, v, refl)
print_all-shown fuel ((m, fmt) ∷ ms) tty c w o v ((l, k), h) =
    let (tty₁, c₁, e, v₁, same, s) = printk-console fuel m fmt tty c w o v l k in
    let (tty₂, c₂, e', v₂, s') =
      print_all-shown fuel ms tty₁ c₁ (same.write ∙ w) (same.oflag ∙ o) v₁ h in
    let s₂ : screen c₂
        ≡ screen (feed (get_or tty.c_cc 2 0) (with_returns (joined (printed ms))) c₁) =
      s'
      ∙ ap (λ cc. screen (feed (get_or cc 2 0) (with_returns (joined (printed ms))) c₁)) same.cc in
    (
      tty₂,
      c₂,
      ap (λ o. o >>= λ (n, tty', c'). print_all fuel ms tty' c') e ∙ e',
      v₂,
      shown_twice (get_or tty.c_cc 2 0) (formatted m fmt 0) (joined (printed ms)) c c₁ c₂ s s₂,
    )

-- rounds enough for lines are enough for the messages that print them
Fits-printed :
    (fuel : ℕ) (ms : List Message)
    → All (λ msg. length msg.1 ≤ 18) ms
    → 18 < fuel
    → All (λ l. 2 * length l + 1 < fuel) (printed ms)
    → All (Fits fuel) ms
Fits-printed fuel [] a h b = tt
Fits-printed fuel ((m, fmt) ∷ ms) (a, rest) h (b, bs) =
    ((omega (arith, a, h), b), Fits-printed fuel ms rest h bs)

messages-short :
    (m : Arguments) (place err_no err_code eip cs eflags : ℕ)
    → All (λ msg. length msg.1 ≤ 18) (messages m place err_no err_code eip cs eflags)
unfolding messages
messages-short m place err_no err_code eip cs eflags =
    (omega arith, (omega arith, (omega arith, (omega arith, (omega arith, (omega arith, tt))))))

-- For the vector of one of the 20 exceptions, with the table of descriptions at an address above 0 that
-- it does not run over the end of the address space from, on a terminal with the console's driver and
-- flags, whose write queue is in order and empty, with more rounds than 18 and than twice the bytes of
-- each line and one: syserrHandler returns, the queue is empty and in order again, and the screen and
-- cursor are as if six lines, each newline preceded by a carriage return, had been put byte by byte:
-- "Exception! --> " with the exception's description, then "Vector:", "Error code:", "EIP:", "CS:"
-- and "EFLAGS:", each with its own word as `number` writes it to the base 16.
pub syserr_handler-shown :
    (fuel : ℕ) (m : Arguments) (place err_no err_code eip cs eflags : ℕ) (tty : Tty) (c : Console)
    → err_no < 20
    → 0 < place
    → place + 64 * 20 ≤ 2 ^ 32
    → tty.write ≡ console
    → tty.c_oflag ≡ 5
    → IsIdle tty
    → 18 < fuel
    → All (λ l. 2 * length l + 1 < fuel) (lines m err_no err_code eip cs eflags)
    → (tty' : Tty) × (c' : Console) × (syserr_handler fuel m place err_no err_code eip cs eflags tty
          c
        ≡ some (tty', c'))
      × IsIdle tty'
      × (screen c'
          ≡ screen (
              feed
                (get_or tty.c_cc 2 0)
                (with_returns (joined (lines m err_no err_code eip cs eflags)))
                c))
unfolding syserr_handler
syserr_handler-shown fuel m place err_no err_code eip cs eflags tty c n p l w o v f h =
    let ms = messages m place err_no err_code eip cs eflags in
    let same : printed ms ≡ lines m err_no err_code eip cs eflags =
      printed-lines m place err_no err_code eip cs eflags n p l in
    let (tty', c', e, v', s) = print_all-shown fuel ms tty c w o v (
      Fits-printed fuel ms (messages-short m place err_no err_code eip cs eflags) f
        (subst (λ (ls : List (List ℕ)). All (λ k. 2 * length k + 1 < fuel) ls) (sym same) h)) in
    (
      tty',
      c',
      e,
      v',
      s
          ∙ ap
              (λ (ls : List (List ℕ)).
                screen (feed (get_or tty.c_cc 2 0) (with_returns (joined ls)) c))
              same,
    )
