-- ===== src/Tty/Table.antt =====
-- kernel/chr_drv/tty.c: the terminals as they are first set, with include/chr_drv/termios.h.
use Prim.Native.Nat.{bit_or}
use operator_system.Common.{ℕ, none, List, [], ◌∷◌, replicate}
use operator_system.Tty.{TtyQueue, console, serial, Tty, buf_size, opost, onlcr}

-- `TTY_STRUCT`, whole: what ttyWrite reads of it is `tty`
pub record Terminal : Type 0 where
  pub c_iflag : ℕ
  pub c_cflag : ℕ
  pub c_lflag : ℕ
  pub c_line : ℕ
  pub pgrp : ℕ
  pub stopped : ℕ
  pub tty : Tty
  pub secondary : TtyQueue

-- ICRNL, B2400, CS8, ISIG, ICANON, ECHO, ECHOCTL, ECHOKE, in octal 400, 13, 60, 1, 2, 10, 1000, 4000
abbrev icrnl : ℕ
icrnl = 256

abbrev b2400 : ℕ
b2400 = 11

abbrev cs8 : ℕ
cs8 = 48

abbrev isig : ℕ
isig = 1

abbrev icanon : ℕ
icanon = 2

abbrev echo : ℕ
echo = 8

abbrev echoctl : ℕ
echoctl = 512

abbrev echoke : ℕ
echoke = 2048

-- INIT_C_CC
abbrev pub init_c_cc : List ℕ
init_c_cc = 3 ∷ 28 ∷ 127 ∷ 21 ∷ 4 ∷ 0 ∷ 1 ∷ 0 ∷ 17 ∷ 19 ∷ 26 ∷ 0 ∷ 18 ∷ 15 ∷ 23 ∷ 22 ∷ 0 ∷ []

-- a queue that is empty
unfoldable pub empty_queue : (base : ℕ) → TtyQueue
empty_queue base = record {
  base = base;
  head = 0;
  tail = 0;
  proc_list = none;
  buf = replicate buf_size 0;
}

unfoldable pub console_terminal : Terminal
console_terminal = record {
  c_iflag = icrnl;
  c_cflag = 0;
  c_lflag = bit_or (bit_or (bit_or (bit_or isig icanon) echo) echoctl) echoke;
  c_line = 0;
  pgrp = 0;
  stopped = 0;
  tty = record {
    c_oflag = bit_or opost onlcr;
    c_cc = init_c_cc;
    write = console;
    read_q = empty_queue 0;
    write_q = empty_queue 0;
  };
  secondary = empty_queue 0;
}

-- a serial terminal at the port `base`
unfoldable pub serial_terminal : (base : ℕ) → Terminal
serial_terminal base = record {
  c_iflag = 0;
  c_cflag = bit_or b2400 cs8;
  c_lflag = 0;
  c_line = 0;
  pgrp = 0;
  stopped = 0;
  tty = record {
    c_oflag = 0;
    c_cc = init_c_cc;
    write = serial;
    read_q = empty_queue base;
    write_q = empty_queue base;
  };
  secondary = empty_queue 0;
}

-- TTY_TABLE
unfoldable pub tty_table : List Terminal
tty_table = console_terminal ∷ serial_terminal 0x3F8 ∷ serial_terminal 0x2F8 ∷ []
