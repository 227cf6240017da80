-- ===== src/Keyboard.antt =====
-- kernel/chr_drv/keyboard.c: the keyboard's interrupt handler over the table of keyboard.h.
pub mod Key
pub mod Keymap
pub mod Plain
pub mod Stuck
mod Tests
use operator_system.Common.{
  ℕ, zero, suc, ◌+◌, ◌-◌, ◌*◌, ◌/◌, ◌%◌, ◌^◌, Bool, true, false, not, ◌&&◌, ◌||◌, List, [], ◌∷◌,
  ◌++◌, ltb, leb, ◌==◌, if◌then◌else◌, get_or,
}
use operator_system.Tty.{TtyQueue, put_queue}
use operator_system.Keyboard.Key
use operator_system.Keyboard.Keymap.{keymap}

-- The file's variables, and the bytes that setLeds writes to port 0x60, the last first.
pub record Keyboard : Type 0 where
  pub shift_l : Bool
  pub shift_r : Bool
  pub alt_l : Bool
  pub alt_r : Bool
  pub ctrl_l : Bool
  pub ctrl_r : Bool
  pub caps_lock : Bool
  pub num_lock : Bool
  pub scroll_lock : Bool
  pub code_with_e0 : Bool
  pub led_bytes : List ℕ

-- a word as it lies in memory
abbrev pub word_bytes : ℕ → List ℕ
word_bytes w = w % 256 ∷ w / 256 % 256 ∷ w / 65536 % 256 ∷ w / 16777216 % 256 ∷ []

-- `keyrow = keymap[scan_code & 0x7F]`: the bytes of the row, whose elements are words
unfoldable pub keyrow : ℕ → List ℕ
keyrow scan_code =
    let (key, shifted, prefixed) = get_or keymap (scan_code % 128) (0, 0, 0) in
    word_bytes key ++ (word_bytes shifted ++ word_bytes prefixed)

abbrev pub is_lower : ℕ → Bool
is_lower c = leb 97 c && leb c 122

abbrev pub is_upper : ℕ → Bool
is_upper c = leb 65 c && leb c 90

-- the column of the row that the handler reads
unfoldable pub column : List ℕ → Keyboard → ℕ
column row k =
    let caps = k.shift_l || k.shift_r in
    let letter = is_lower (get_or row 0 0) || is_upper (get_or row 1 0) in
    let caps' = if k.caps_lock && letter then not caps else caps in
    if k.code_with_e0 then 2 else if caps' then 1 else 0

unfoldable pub bit_of : Bool → ℕ
bit_of true = 1
bit_of false = 0

-- setLeds, with an adapter that is ready
unfoldable pub set_leds : Keyboard → Keyboard
unfolding bit_of
set_leds k =
    let leds = bit_of k.caps_lock * 4 + bit_of k.num_lock * 2 + bit_of k.scroll_lock in
    record k { led_bytes = leds ∷ (0xED ∷ k.led_bytes) }

-- the first switch of keyboardHandler
unfoldable pub latch : ℕ → Bool → Keyboard → Keyboard
unfolding set_leds
latch key make k =
    if key == Key.shift_l
    then record k { shift_l = make }
    else if key == Key.shift_r
    then record k { shift_r = make }
    else if key == Key.ctrl_l
    then record k { ctrl_l = make }
    else if key == Key.ctrl_r
    then record k { ctrl_r = make }
    else if key == Key.alt_l
    then record k { alt_l = make }
    else if key == Key.alt_r
    then record k { alt_r = make }
    else if key == Key.caps_lock
    then (if make then set_leds (record k { caps_lock = not k.caps_lock }) else k)
    else if key == Key.num_lock
    then (if make then set_leds (record k { num_lock = not k.num_lock }) else k)
    else if key == Key.scroll_lock
    then (if make then set_leds (record k { scroll_lock = not k.scroll_lock }) else k)
    else k

-- the innermost switch: a key of the pad without NumLock
unfoldable pub pad_navigation : ℕ → ℕ
pad_navigation key =
    if key == Key.pad_home
    then Key.home
    else if key == Key.pad_end
    then Key.end
    else if key == Key.pad_pageup
    then Key.pageup
    else if key == Key.pad_pagedown
    then Key.pagedown
    else if key == Key.pad_ins
    then Key.insert
    else if key == Key.pad_up
    then Key.up
    else if key == Key.pad_down
    then Key.down
    else if key == Key.pad_left
    then Key.left
    else if key == Key.pad_right
    then Key.right
    else if key == Key.pad_dot
    then Key.delete
    else key

-- the code stored for a key that is pressed
unfoldable pub pad_key : (num_lock : Bool) → ℕ → ℕ
unfolding pad_navigation
pad_key num_lock key =
    if not (leb Key.pad_slash key && leb key Key.pad_9)
    then key
    else if key == Key.pad_slash
    then 47
    else if key == Key.pad_star
    then 42
    else if key == Key.pad_minus
    then 45
    else if key == Key.pad_plus
    then 43
    else if key == Key.pad_enter
    then Key.enter
    else if num_lock
    then (if leb Key.pad_0 key && leb key Key.pad_9
        then key - Key.pad_0 + 48
        else if key == Key.pad_dot
        then 46
        else key)
    else pad_navigation key

-- keyboardHandler from the row on: `q` is TTY_TABLE[0].read_q
unfoldable pub press : (key : ℕ) → (make : Bool) → Keyboard → TtyQueue → Keyboard × TtyQueue
unfolding latch pad_key put_queue
press key make k q =
    let k' = latch key make k in (k', if make then put_queue (pad_key k'.num_lock key) q else q)

-- keyboardHandler for the byte `scan_code` read from the keyboard
unfoldable pub keyboard_handler : (scan_code : ℕ) → Keyboard → TtyQueue → Keyboard × TtyQueue
unfolding keyrow column press
keyboard_handler scan_code k q =
    if scan_code == 0xE1
    then (k, q)
    else if scan_code == 0xE0
    then (record k { code_with_e0 = true }, q)
    else let row = keyrow scan_code in
      press (get_or row (column row k) 0) (ltb scan_code 128) (record k { code_with_e0 = false }) q

-- a sequence of interrupts
unfoldable pub handle_all : List ℕ → Keyboard → TtyQueue → Keyboard × TtyQueue
unfolding keyboard_handler
handle_all [] k q = (k, q)
handle_all (scan_code ∷ codes) k q =
    let (k', q') = keyboard_handler scan_code k q in handle_all codes k' q'

-- the variables as they are first set
abbrev pub at_start : Keyboard
at_start = record {
  shift_l = false;
  shift_r = false;
  alt_l = false;
  alt_r = false;
  ctrl_l = false;
  ctrl_r = false;
  caps_lock = false;
  num_lock = true;
  scroll_lock = false;
  code_with_e0 = false;
  led_bytes = [];
}
