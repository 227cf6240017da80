-- ===== src/Console/Bounds.antt =====
-- Where the console of kernel/chr_drv/console.c keeps its cursor, and which addresses it writes.
use Prim.Native.Nat.{bit_or}
use operator_system.Common.{
  ℕ, ◌+◌, ◌-◌, ◌*◌, ◌%◌, ◌≤◌, ◌<◌, ◌≡◌, All, ◌∷◌, leb, ◌==◌, inl, inr, Bool-cases, arith,
}
use operator_system.Common.Word.{sub32}
use operator_system.Console.{
  Console, mem_start, mem_end, scroll_up, lf, cr, del, wrap_line, print_char, backspace, tab,
  Action, print, skip, newline, return, erase, back, tabulate, action_of, perform, put_char,
}

-- The last row that the screen can be scrolled to begins 180 rows after the video memory does.
abbrev pub last_origin : ℕ
last_origin = mem_start + 180 * 160

-- The cursor: `pos` is the address of column `x` of row `y`; the window of 25 rows shows that row,
-- at its foot once it has scrolled.
pub record IsPlaced (c : Console) : Type 0 where
  pub column : c.x ≤ 80
  pub at : c.pos ≡ mem_start + 160 * c.y + 2 * c.x
  pub bottom : c.bottom ≡ 25
  pub window : c.scr_end ≡ c.origin + 4000
  pub from : mem_start ≤ c.origin
  pub to : c.origin ≤ last_origin
  pub rows : (c.origin - mem_start) % 160 ≡ 0
  pub shown : mem_start + 160 * c.y ≤ c.origin + 24 * 160
  pub foot : mem_start < c.origin → mem_start + 160 * c.y ≡ c.origin + 24 * 160

lf-IsPlaced : {c : Console} → IsPlaced c → IsPlaced (lf c)
unfolding lf
lf-IsPlaced v = ground arith

cr-IsPlaced : {c : Console} → IsPlaced c → IsPlaced (cr c)
unfolding cr
cr-IsPlaced v = ground arith

del-IsPlaced : {c : Console} → IsPlaced c → IsPlaced (del c)
unfolding del
del-IsPlaced v = ground arith

backspace-IsPlaced : {c : Console} → IsPlaced c → IsPlaced (backspace c)
unfolding backspace
backspace-IsPlaced v = ground arith

-- The column 80 taken for column 0 of the same row keeps the place.
back_to_start :
    (c : Console)
    → IsPlaced c
    → 80 ≤ c.x
    → IsPlaced (record c { x = sub32 c.x 80; pos = sub32 c.pos 160 })
back_to_start c v h = ground arith

wrap_line-IsPlaced : {c : Console} → IsPlaced c → IsPlaced (wrap_line c)
unfolding wrap_line
wrap_line-IsPlaced {c} v = elim (Bool-cases (leb 80 c.x)) [
  | inl e ↦ rw e (lf-IsPlaced (back_to_start c v (ground arith)))
  | inr e ↦ rw e v
]

wrap_line-column : {c : Console} → IsPlaced c → (wrap_line c).x < 80
unfolding wrap_line lf
wrap_line-column v = ground arith

print_char-IsPlaced : (ch : ℕ) {c : Console} → IsPlaced c → c.x < 80 → IsPlaced (print_char ch c)
unfolding print_char
print_char-IsPlaced ch v h = ground arith

tab-IsPlaced : {c : Console} → IsPlaced c → IsPlaced (tab c)
unfolding tab lf
tab-IsPlaced v = ground arith

-- a store of 16 bits inside the video memory or the 32 bytes behind it
abbrev pub InReach : ℕ × ℕ → Type 0
InReach s = (mem_start ≤ s.0) × (s.0 + 2 ≤ mem_end + 32)

-- The cursor is placed, and so was every store.
pub record IsSafe (c : Console) : Type 0 where
  pub placed : IsPlaced c
  pub reach : All InReach c.stores

stores-lf : (c : Console) → (lf c).stores ≡ c.stores
unfolding lf
stores-lf c = ground arith

stores-wrap_line : (c : Console) → (wrap_line c).stores ≡ c.stores
unfolding wrap_line
stores-wrap_line c = ground arith

stores-cr : (c : Console) → (cr c).stores ≡ c.stores
unfolding cr
stores-cr c = ground arith

stores-backspace : (c : Console) → (backspace c).stores ≡ c.stores
unfolding backspace
stores-backspace c = ground arith

stores-tab : (c : Console) → (tab c).stores ≡ c.stores
unfolding tab
stores-tab c = ground arith

lf-IsSafe : {c : Console} → IsSafe c → IsSafe (lf c)
lf-IsSafe {c} v = record { placed = lf-IsPlaced v.placed; reach = rw (stores-lf c) v.reach }

wrap_line-IsSafe : {c : Console} → IsSafe c → IsSafe (wrap_line c)
wrap_line-IsSafe {c} v = record {
  placed = wrap_line-IsPlaced v.placed;
  reach = rw (stores-wrap_line c) v.reach;
}

print_char-IsSafe : (ch : ℕ) {c : Console} → IsSafe c → c.x < 80 → IsSafe (print_char ch c)
unfolding print_char
print_char-IsSafe ch v h = record {
  placed = print_char-IsPlaced ch v.placed h;
  reach = ((omega arith, omega arith), v.reach);
}

del-IsSafe : {c : Console} → IsSafe c → IsSafe (del c)
unfolding del
del-IsSafe {c} v = elim (Bool-cases (c.x == 0)) [
  | inl e ↦ rw e v
  | inr e ↦ record {
    placed = del-IsPlaced v.placed;
    reach = rw e ((ground arith, ground arith), v.reach);
  }
]

perform-IsSafe : (a : Action) (ch : ℕ) {c : Console} → IsSafe c → IsSafe (perform a ch c)
unfolding perform
perform-IsSafe print ch v = print_char-IsSafe ch (wrap_line-IsSafe v) (wrap_line-column v.placed)
perform-IsSafe skip ch v = v
perform-IsSafe newline ch v = lf-IsSafe v
perform-IsSafe return ch {c} v = record {
  placed = cr-IsPlaced v.placed;
  reach = rw (stores-cr c) v.reach;
}
perform-IsSafe erase ch v = del-IsSafe v
perform-IsSafe back ch {c} v = record {
  placed = backspace-IsPlaced v.placed;
  reach = rw (stores-backspace c) v.reach;
}
perform-IsSafe tabulate ch {c} v = record {
  placed = tab-IsPlaced v.placed;
  reach = rw (stores-tab c) v.reach;
}

-- Each byte that conWrite takes from the write queue keeps the cursor placed and every store to the
-- screen in reach: inside the video memory, or in the 32 bytes that follow it.
pub put_char-IsSafe : (verase ch : ℕ) {c : Console} → IsSafe c → IsSafe (put_char verase ch c)
unfolding put_char
put_char-IsSafe verase ch v = perform-IsSafe (action_of verase ch) ch v

-- Once the screen has scrolled down to its last place, with the cursor in the foot row: a line feed
-- does nothing, and a printable character in a column from 64 to 79 is stored past the end of the
-- video memory.
pub put_char-past_end :
    (verase ch : ℕ) {c : Console}
    → IsPlaced c
    → c.origin ≡ last_origin
    → 31 < ch
    → ch < 127
    → 64 ≤ c.x
    → c.x < 80
    → (lf c ≡ c)
      × ((put_char verase ch c).stores ≡ (c.pos, bit_or c.attr ch) ∷ c.stores)
      × (mem_end ≤ c.pos)
unfolding put_char action_of perform print_char wrap_line lf scroll_up
put_char-past_end verase ch {c} v e p q lo hi = (ground arith, ground arith, omega arith)
