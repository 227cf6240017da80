-- ===== src/Console/Screen.antt =====
-- The console but for the bytes sent to the CRTC: what is on the screen, and where the cursor is.
use operator_system.Common.{ℕ, ◌≡◌, refl, sym, ap, ◌∙◌, List, [], ◌∷◌, ◌++◌, arith}
use operator_system.Console.{
  Console, set_cursor, lf, cr, del, wrap_line, print_char, backspace, tab, Action, print, skip,
  newline, return, erase, back, tabulate, action_of, perform, put_char,
}

abbrev pub screen : Console → Console
screen c = record c { crtc = [] }

-- the bytes taken one after the other
unfoldable pub feed : (verase : ℕ) → List ℕ → Console → Console
feed verase [] c = c
feed verase (ch ∷ chs) c = feed verase chs (put_char verase ch c)

pub feed-append :
    (verase : ℕ) (xs ys : List ℕ) (c : Console)
    → feed verase (xs ++ ys) c ≡ feed verase ys (feed verase xs c)
unfolding feed
feed-append verase [] ys c = refl
feed-append verase (x ∷ xs) ys c = feed-append verase xs ys (put_char verase x c)

pub screen-set_cursor : (c : Console) → screen (set_cursor c) ≡ screen c
unfolding set_cursor
screen-set_cursor c = refl

screen-lf : (c : Console) → screen (lf c) ≡ screen (lf (screen c))
unfolding lf
screen-lf c = ground arith

screen-wrap_line : (c : Console) → screen (wrap_line c) ≡ screen (wrap_line (screen c))
unfolding wrap_line lf
screen-wrap_line c = ground arith

screen-print_char :
    (ch : ℕ) (c d : Console)
    → screen c ≡ screen d
    → screen (print_char ch c) ≡ screen (print_char ch d)
unfolding print_char
screen-print_char ch c d e = ap (λ s. screen (print_char ch s)) e

screen-del : (c : Console) → screen (del c) ≡ screen (del (screen c))
unfolding del
screen-del c = ground arith

screen-backspace : (c : Console) → screen (backspace c) ≡ screen (backspace (screen c))
unfolding backspace
screen-backspace c = ground arith

screen-tab : (c : Console) → screen (tab c) ≡ screen (tab (screen c))
unfolding tab lf
screen-tab c = ground arith

screen-perform :
    (a : Action) (ch : ℕ) (c : Console) → screen (perform a ch c) ≡ screen (perform a ch (screen c))
unfolding perform cr
screen-perform print ch c = screen-print_char ch _ _ (screen-wrap_line c)
screen-perform skip ch c = refl
screen-perform newline ch c = screen-lf c
screen-perform return ch c = refl
screen-perform erase ch c = screen-del c
screen-perform back ch c = screen-backspace c
screen-perform tabulate ch c = screen-tab c

pub screen-put_char :
    (verase ch : ℕ) (c : Console)
    → screen (put_char verase ch c) ≡ screen (put_char verase ch (screen c))
unfolding put_char
screen-put_char verase ch c = screen-perform (action_of verase ch) ch c

pub screen-feed :
    (verase : ℕ) (chs : List ℕ) (c d : Console)
    → screen c ≡ screen d
    → screen (feed verase chs c) ≡ screen (feed verase chs d)
unfolding feed
screen-feed verase [] c d e = e
screen-feed verase (ch ∷ chs) c d e =
    screen-feed verase chs (put_char verase ch c) (put_char verase ch d) (
      screen-put_char verase ch c
      ∙ ap (λ s. screen (put_char verase ch s)) e
      ∙ sym (screen-put_char verase ch d))
