-- ===== src/Console.antt =====
-- kernel/chr_drv/console.c: the text console over the video memory from 0xB8000 to 0xC0000.
pub mod Bounds
pub mod Screen
mod Tests
use Prim.Native.Nat.{bit_or}
use operator_system.Common.{
  ℕ, zero, suc, ◌+◌, ◌-◌, ◌*◌, ◌/◌, ◌%◌, ◌^◌, Bool, ◌&&◌, ◌||◌, List, [], ◌∷◌, ltb, leb, ◌==◌,
  if◌then◌else◌,
}
use operator_system.Common.Word.{add32, sub32}

-- VIDEO_NUM_COLUMNS, VIDEO_SIZE_ROW, VIDEO_MEM_START, VIDEO_MEM_END
abbrev pub columns : ℕ
columns = 80

abbrev pub row_bytes : ℕ
row_bytes = 160

abbrev pub mem_start : ℕ
mem_start = 0xB8000

abbrev pub mem_end : ℕ
mem_end = 0xC0000

-- The file's variables; then the 16-bit stores through `pos` and the bytes written to the CRTC's
-- ports, each the last first.
pub record Console : Type 0 where
  pub origin : ℕ
  pub scr_end : ℕ
  pub x : ℕ
  pub y : ℕ
  pub pos : ℕ
  pub top : ℕ
  pub bottom : ℕ
  pub attr : ℕ
  pub stores : List (ℕ × ℕ)
  pub crtc : List (ℕ × ℕ)

-- setCursor
unfoldable pub set_cursor : Console → Console
set_cursor c = record c {
  crtc =
      (0x3D5, sub32 c.pos mem_start / 2 % 2 ^ 8)
      ∷ (0x3D4, 0xF)
      ∷ (0x3D5, sub32 c.pos mem_start / 2 ^ 9 % 2 ^ 8)
      ∷ (0x3D4, 0xE)
      ∷ c.crtc;
}

-- setOrigin
unfoldable pub set_origin : Console → Console
set_origin c = record c {
  crtc =
      (0x3D5, sub32 c.origin mem_start / 2 % 2 ^ 8)
      ∷ (0x3D4, 13)
      ∷ (0x3D5, sub32 c.origin mem_start / 2 ^ 9 % 2 ^ 8)
      ∷ (0x3D4, 12)
      ∷ c.crtc;
}

-- scrollUp
unfoldable pub scroll_up : Console → Console
unfolding set_origin set_cursor
scroll_up c =
    if ltb c.scr_end mem_end
    then set_cursor (
        set_origin (record c {
          origin = add32 c.origin row_bytes;
          scr_end = add32 c.scr_end row_bytes;
          y = add32 c.y 1;
          pos = add32 c.pos row_bytes;
        }))
    else c

-- scrollDown, which nothing calls
unfoldable pub scroll_down : Console → Console
unfolding set_origin set_cursor
scroll_down c =
    if ltb mem_start c.origin
    then set_cursor (
        set_origin (record c {
          origin = sub32 c.origin row_bytes;
          scr_end = sub32 c.scr_end row_bytes;
          y = sub32 c.y 1;
          pos = sub32 c.pos row_bytes;
        }))
    else c

unfoldable pub lf : Console → Console
unfolding scroll_up
lf c =
    if ltb (add32 c.y 1) c.bottom
    then record c { y = add32 c.y 1; pos = add32 c.pos row_bytes }
    else scroll_up c

unfoldable pub cr : Console → Console
cr c = record c { pos = sub32 c.pos (c.x * 2 % 2 ^ 32); x = 0 }

unfoldable pub del : Console → Console
del c = if c.x == 0 then c else record c {
  pos = sub32 c.pos 2;
  x = sub32 c.x 1;
  stores = (sub32 c.pos 2, bit_or c.attr 0x20) ∷ c.stores;
}

-- `if (x >= 80) { x -= 80; pos -= 160; lf(); }` of conWrite, before a printable character
unfoldable pub wrap_line : Console → Console
unfolding lf
wrap_line c =
    if leb columns c.x
    then lf (record c { x = sub32 c.x columns; pos = sub32 c.pos row_bytes })
    else c

unfoldable pub print_char : ℕ → Console → Console
print_char ch c = record c {
  stores = (c.pos, bit_or c.attr ch) ∷ c.stores;
  x = add32 c.x 1;
  pos = add32 c.pos 2;
}

-- the branch of conWrite for a backspace
unfoldable pub backspace : Console → Console
backspace c = if c.x == 0 then c else record c { x = sub32 c.x 1; pos = sub32 c.pos 2 }

-- the branch of conWrite for a tabulator
unfoldable pub tab : Console → Console
unfolding lf
tab c =
    let n = 8 - c.x % 8 in
    let c' = record c { x = add32 c.x n; pos = add32 c.pos (n * 2) } in
    if ltb columns c'.x
    then lf (record c' { x = sub32 c'.x columns; pos = sub32 c'.pos row_bytes })
    else c'

-- the branches of conWrite
pub data Action : Type 0 where
  print skip newline return erase back tabulate : Action

-- Which branch the byte `ch` takes; `verase` is c_cc[VERASE]. `ch` is a signed char, so a byte from
-- 128 on is negative and takes none.
unfoldable pub action_of : (verase ch : ℕ) → Action
action_of verase ch =
    if ltb 31 ch && ltb ch 127
    then print
    else if ch == 27
    then skip
    else if ch == 10 || ch == 11 || ch == 12
    then newline
    else if ch == 13
    then return
    else if ltb ch 128 && ch == verase
    then erase
    else if ch == 8
    then back
    else if ch == 9
    then tabulate
    else skip

unfoldable pub perform : Action → ℕ → Console → Console
perform print ch c = print_char ch (wrap_line c)
perform skip ch c = c
perform newline ch c = lf c
perform return ch c = cr c
perform erase ch c = del c
perform back ch c = backspace c
perform tabulate ch c = tab c

-- one round of the loop of conWrite, for the byte `ch` at the head of the write queue
unfoldable pub put_char : (verase ch : ℕ) → Console → Console
put_char verase ch c = perform (action_of verase ch) ch c

-- the file's variables as they are first set, and initConsole
unfoldable pub init_console : Console → Console
unfolding set_origin set_cursor
init_console c = set_cursor (
    set_origin (record c { x = 0; y = 9; top = 0; bottom = 25; pos = mem_start + 9 * 160 + 0 * 2 }))

abbrev pub at_boot : Console
at_boot = record {
  origin = 0xB8000;
  scr_end = 0xB8000 + 25 * 160;
  x = 0;
  y = 9;
  pos = 0;
  top = 0;
  bottom = 25;
  attr = 0x0F00;
  stores = [];
  crtc = [];
}
