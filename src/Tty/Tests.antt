-- ===== src/Tty/Tests.antt =====
-- Terminals with a few bytes.
use operator_system.Common.{
  ℕ, ◌≡◌, refl, none, some, List, [], ◌∷◌, length-replicate, replicate, arith,
}
use operator_system.Console.{Console, at_boot, init_console}
use operator_system.Console.Screen.{screen, feed}
use operator_system.Tty.{TtyQueue, console, serial, Tty, full_queue, tty_write}
use operator_system.Tty.Write.{IsIdle, SameTty, with_returns, tty_write-console}
use operator_system.Tty.Serial.{tty_write-serial}

abbrev queue : ℕ → ℕ → TtyQueue
queue head tail = record {
  base = 0;
  head = head;
  tail = tail;
  proc_list = none;
  buf = replicate 1024 0;
}

-- the console's terminal of TTY_TABLE, its queue about to go round
abbrev tty0 : Tty
tty0 = record {
  c_oflag = 5;
  c_cc = 3 ∷ 28 ∷ 127 ∷ [];
  write = console;
  read_q = queue 0 0;
  write_q = queue 1022 1022;
}

-- "ok\n!"
abbrev line : List ℕ
line = 111 ∷ 107 ∷ 10 ∷ 33 ∷ []

tty0-IsIdle : IsIdle tty0
tty0-IsIdle = record {
  queue = record {
    room = length-replicate {A = ℕ} 1024 0;
    head_in = omega arith;
    tail_in = omega arith;
  };
  empty = refl;
}

tty_write-console_example :
    (tty' : Tty) × (c' : Console) × (tty_write 10 tty0 (init_console at_boot) line
      ≡ some (4, tty', c'))
    × IsIdle tty'
    × SameTty tty0 tty'
    × (screen c' ≡ screen (feed 127 (with_returns line) (init_console at_boot)))
tty_write-console_example =
    tty_write-console 10 tty0 (init_console at_boot) line refl refl tty0-IsIdle (omega arith)

with_returns-line : with_returns line ≡ 111 ∷ 107 ∷ 13 ∷ 10 ∷ 33 ∷ []
unfolding with_returns
with_returns-line = refl

-- a serial terminal with 1023 bytes in its queue
abbrev tty1 : Tty
tty1 = record {
  c_oflag = 0;
  c_cc = 3 ∷ 28 ∷ 127 ∷ [];
  write = serial;
  read_q = queue 0 0;
  write_q = queue 1023 0;
}

tty_write-serial_example : tty_write 5000 tty1 at_boot (65 ∷ []) ≡ none
unfolding full_queue
tty_write-serial_example = tty_write-serial 5000 tty1 at_boot 65 [] refl refl
