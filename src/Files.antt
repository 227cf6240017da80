-- ===== src/Files.antt =====
-- fs/read_write.c and fs/char_dev.c: the system call write, down to the terminals.
pub mod Refused
mod Tests
use Prim.Native.Nat.{bit_and}
use operator_system.Common.{
  ℕ, suc, ◌+◌, ◌*◌, ◌/◌, ◌%◌, ◌^◌, Bool, true, false, ◌||◌, Option, none, some, List, [], ◌∷◌, ltb,
  leb, ◌==◌, if◌then◌else◌, length,
}
use operator_system.Common.Int.{ℤ, pos, negsuc}
use operator_system.Console.{Console}
use operator_system.Tty.{Tty, tty_write}
use operator_system.Print.{Arguments, printk}

-- `MINODE` and `FILE`: the fields that a write reads, `i_zone[0]` of the zones; the inode is in place
-- of its address
pub record Inode : Type 0 where
  pub i_mode : ℕ
  pub i_zone : ℕ

pub record File : Type 0 where
  pub f_inode : Inode
  pub f_pos : ℕ

-- TTY_TABLE and the console
pub record Screen : Type 0 where
  pub ttys : ℕ → Tty
  pub console : Console

-- NR_OPEN
abbrev pub nr_open : ℕ
nr_open = 20

-- S_ISCHR
abbrev pub is_chr : ℕ → Bool
is_chr mode = bit_and mode 0xF000 == 0x2000

-- MAJOR and MINOR
abbrev pub major : ℕ → ℕ
major dev = dev / 2 ^ 8

abbrev pub minor : ℕ → ℕ
minor dev = dev % 2 ^ 8

-- a call on the terminal `channel` of the table
unfoldable pub on_tty :
    ℕ → (Tty → Console → Option (ℕ × Tty × Console)) → Screen → Option (ℤ × Screen)
on_tty channel call w = elim (call (w.ttys channel) w.console) [
  | none ↦ none
  | some (n, tty, c) ↦
      some (pos n, record { ttys = λ k. if k == channel then tty else w.ttys k; console = c })
]

-- rwTtyx; ttyRead has no body, and `unset` is what it returns
unfoldable pub rw_ttyx :
    (fuel : ℕ) → (unset : ℤ) → (read : Bool) → ℕ → List ℕ → Screen → Option (ℤ × Screen)
rw_ttyx fuel unset read channel bytes w =
    if read then some (unset, w) else on_tty channel (λ tty c. tty_write fuel tty c bytes) w

-- rwChar, with CRW_TABLE: of its 8 entries only the one of DEV_TTYX, 4, is not NULL
unfoldable pub rw_char :
    (fuel : ℕ) → (unset : ℤ) → (read : Bool) → (dev : ℕ) → List ℕ → Screen → Option (ℤ × Screen)
rw_char fuel unset read dev bytes w =
    if leb 8 (major dev)
    then some (negsuc 0, w)
    else if major dev == 4
    then rw_ttyx fuel unset read (minor dev) bytes w
    else some (negsuc 0, w)

-- the bytes of `buf` for the count as an int, none where it is negative
abbrev pub as_int : List ℕ → List ℕ
as_int bytes = if ltb (length bytes) (2 ^ 31) then bytes else []

-- "(Write)inode->i_mode=%x\n\r"
abbrev pub complaint : List ℕ
complaint =
    40 ∷ 87 ∷ 114 ∷ 105 ∷ 116 ∷ 101 ∷ 41 ∷ 105 ∷ 110 ∷ 111 ∷ 100 ∷ 101 ∷ 45 ∷ 62 ∷ 105 ∷ 95 ∷ 109
    ∷ 111 ∷ 100 ∷ 101 ∷ 61 ∷ 37 ∷ 120 ∷ 10 ∷ 13 ∷ []

-- printk to the terminal 0 and the return of -1
unfoldable pub complain : (fuel mode : ℕ) → Arguments → Screen → Option (ℤ × Screen)
complain fuel mode m w = elim (on_tty 0 (printk fuel (record m { arg = λ k. mode }) complaint) w) [
  | none ↦ none
  | some (n, w') ↦ some (negsuc 0, w')
]

-- sysWrite by the process with the files `filp`, for `count` bytes at `buf`
unfoldable pub sys_write :
    (fuel : ℕ)
    → ℤ
    → Arguments
    → (filp : ℕ → Option File) → (fd : ℕ) → List ℕ
    → Screen
    → Option (ℤ × Screen)
sys_write fuel unset m filp fd bytes w = elim (if leb nr_open fd then none else filp fd) [
  | none ↦ some (negsuc 0, w)
  | some f ↦
      if length bytes == 0
      then some (pos 0, w)
      else if is_chr f.f_inode.i_mode
      then rw_char fuel unset false f.f_inode.i_zone (as_int bytes) w
      else complain fuel f.f_inode.i_mode m w
]
