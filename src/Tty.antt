-- ===== src/Tty.antt =====
-- kernel/chr_drv/tty.c, conWrite of console.c and rsWrite of serial.c: the terminals' write queues.
pub mod Ring
pub mod Write
pub mod Serial
pub mod Table
mod Tests
use Prim.Native.Nat.{bit_and}
use operator_system.Common.{
  ℕ, zero, suc, ◌+◌, ◌-◌, ◌*◌, ◌/◌, ◌%◌, ◌^◌, Bool, true, false, not, ◌&&◌, ◌||◌, Option, none,
  some, List, [], ◌∷◌, ◌==◌, if◌then◌else◌, get_or, set, length,
}
use operator_system.Common.Word.{add32, sub32}
use operator_system.Console.{Console, put_char, set_cursor}

-- TTY_BUF_SIZE
abbrev pub buf_size : ℕ
buf_size = 1024

-- `TTY_QUEUE`; `base` is its field `data`
pub record TtyQueue : Type 0 where
  pub base : ℕ
  pub head : ℕ
  pub tail : ℕ
  pub proc_list : Option ℕ
  pub buf : List ℕ

-- the function pointer `write` of `TTY_STRUCT`: conWrite or rsWrite
pub data Driver : Type 0 where
  console serial : Driver

-- `TTY_STRUCT`, with the flags and characters of `TERMIOS` that the code reads
pub record Tty : Type 0 where
  pub c_oflag : ℕ
  pub c_cc : List ℕ
  pub write : Driver
  pub read_q : TtyQueue
  pub write_q : TtyQueue

-- OPOST, OLCUC, ONLCR, OCRNL, ONLRET of c_oflag
abbrev pub opost : ℕ
opost = 1

abbrev pub olcuc : ℕ
olcuc = 2

abbrev pub onlcr : ℕ
onlcr = 4

abbrev pub ocrnl : ℕ
ocrnl = 8

abbrev pub onlret : ℕ
onlret = 32

abbrev pub has : ℕ → ℕ → Bool
has flags flag = not (bit_and flags flag == 0)

-- fullQueue
unfoldable pub full_queue : TtyQueue → Bool
full_queue q = q.tail == add32 q.head 1 % buf_size

-- `buf[head] = c; head = (head + 1) % TTY_BUF_SIZE`
unfoldable pub put_queue : ℕ → TtyQueue → TtyQueue
put_queue c q = record q { buf = set q.buf q.head c; head = add32 q.head 1 % buf_size }

-- the loop `while (nr--)` of conWrite
unfoldable pub con_loop : (verase nr : ℕ) → TtyQueue → Console → TtyQueue × Console
con_loop verase zero q c = (q, c)
con_loop verase (suc nr) q c =
    con_loop verase nr (record q { tail = add32 q.tail 1 % buf_size })
      (put_char verase (get_or q.buf q.tail 0) c)

-- conWrite; VERASE is 2
unfoldable pub con_write : Tty → Console → Tty × Console
con_write tty c =
    let nr = sub32 tty.write_q.head tty.write_q.tail % buf_size in
    let (q, c') = con_loop (get_or tty.c_cc 2 0) nr tty.write_q c in
    (record tty { write_q = q }, set_cursor c')

-- rsWrite, which is empty
unfoldable pub rs_write : Tty → Console → Tty × Console
rs_write tty c = (tty, c)

unfoldable pub drive_by : Driver → Tty → Console → Tty × Console
drive_by console tty c = con_write tty c
drive_by serial tty c = rs_write tty c

-- `tty->write(tty)`
unfoldable pub drive : Tty → Console → Tty × Console
drive tty c = drive_by tty.write tty c

-- the mapping of a byte in ttyWrite before the newline test, where OPOST is set
unfoldable pub map_newline : (oflag c : ℕ) → ℕ
map_newline oflag c =
    if c == 13 && has oflag ocrnl then 10 else if c == 10 && has oflag onlret then 13 else c

-- `c = c - 0x20` on a char, where OLCUC is set
unfoldable pub map_upper : (oflag c : ℕ) → ℕ
map_upper oflag c = if has oflag olcuc then (c + 256 - 0x20) % 256 else c

-- the byte after the newline mapping, and the byte that is stored
unfoldable pub mapped : (oflag c : ℕ) → ℕ
unfolding map_newline
mapped oflag c = if has oflag opost then map_newline oflag c else c

unfoldable pub stored : (oflag c : ℕ) → ℕ
unfolding mapped map_upper
stored oflag c = if has oflag opost then map_upper oflag (mapped oflag c) else mapped oflag c

-- the test under which a carriage return is stored before the byte
unfoldable pub return_first : (oflag c : ℕ) → Bool → Bool
unfolding mapped
return_first oflag c cr_flag =
    has oflag opost && mapped oflag c == 10 && not cr_flag && has oflag onlcr

-- The inner loop of ttyWrite: the queue, the bytes `b[0..nr)` and cr_flag.
unfoldable pub fill :
    (fuel oflag : ℕ) → TtyQueue → List ℕ → Bool → Option (TtyQueue × List ℕ × Bool)
fill zero oflag q src cr_flag = none
fill (suc fuel) oflag q [] cr_flag = some (q, [], cr_flag)
fill (suc fuel) oflag q (c ∷ src) cr_flag =
    let after_return = fill fuel oflag (put_queue 13 q) (c ∷ src) true in
    let after_byte = fill fuel oflag (put_queue (stored oflag c) q) src false in
    if full_queue q
    then some (q, c ∷ src, cr_flag)
    else if return_first oflag c cr_flag
    then after_return
    else after_byte

-- The outer loop of ttyWrite; `none` when the rounds run out.
unfoldable pub write_loop : (fuel : ℕ) → Tty → Console → List ℕ → Bool → Option (Tty × Console)
write_loop zero tty c src cr_flag = none
write_loop (suc fuel) tty c [] cr_flag = some (tty, c)
write_loop (suc fuel) tty c (b ∷ src) cr_flag =
    elim (fill (suc fuel) tty.c_oflag tty.write_q (b ∷ src) cr_flag) [
      | none ↦ none
      | some (q, src', cr') ↦
          let (tty', c') = drive (record tty { write_q = q }) c in write_loop fuel tty' c' src' cr'
    ]

-- ttyWrite on the terminal `tty`: `src` is the `nr` bytes of `buf`, none if `nr` is negative. The
-- value returned is the number of bytes taken, all of them.
unfoldable pub tty_write : (fuel : ℕ) → Tty → Console → List ℕ → Option (ℕ × Tty × Console)
unfolding write_loop
tty_write fuel tty c src = elim (write_loop fuel tty c src false) [
  | none ↦ none
  | some (tty', c') ↦ some (length src, tty', c')
]
