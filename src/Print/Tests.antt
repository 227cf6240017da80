-- ===== src/Print/Tests.antt =====
-- Formats and numbers printed.
use operator_system.Common.{
  ℕ, ◌^◌, ◌≡◌, refl, inl, none, some, List, [], ◌∷◌, length, true, ◌-◌, ◌==◌, if◌then◌else◌,
  length-replicate, replicate, arith,
}
use operator_system.Common.Int.{pos, negsuc}
use operator_system.Console.{Console, at_boot, init_console}
use operator_system.Console.Screen.{screen, feed}
use operator_system.Tty.{TtyQueue, console, Tty}
use operator_system.Tty.Write.{IsIdle, SameTty, with_returns}
use operator_system.Print.{
  no_flags, Arguments, conversion, convert, number, digits, emit, vsprintf, printk,
}
use operator_system.Print.Number.{Printed, number-Printed}
use operator_system.Print.Format.{formatted}
use operator_system.Print.Pieces.{
  Piece, plain, field, format, expand, last_digit, numeral, vsprintf-expand,
}
use operator_system.Print.Kernel.{printk-console}

abbrev memory : Arguments
memory = record {
  arg = λ k. if k == 0 then 42 else 2 ^ 32 - 7;
  text = λ a. 111 ∷ 107 ∷ [];
  stray = λ small k. 63;
}

-- "%d %x%5d": the second argument is negative, and its digit stands before the table
abbrev sample : List ℕ
sample = 37 ∷ 100 ∷ 32 ∷ 37 ∷ 120 ∷ 37 ∷ 53 ∷ 100 ∷ []

vsprintf-sample :
    vsprintf 20 memory sample 0 ≡ some (52 ∷ 50 ∷ 32 ∷ 48 ∷ 120 ∷ 63 ∷ 45 ∷ 32 ∷ 32 ∷ 32 ∷ 55 ∷ [])
unfolding vsprintf number digits emit
vsprintf-sample = refl

-- "a%-012d"
abbrev pieces : List Piece
pieces = plain 97 ∷ field true true (1 ∷ 2 ∷ []) 100 ∷ []

format-pieces : format pieces ≡ 97 ∷ 37 ∷ 45 ∷ 48 ∷ 49 ∷ 50 ∷ 100 ∷ []
unfolding format numeral
format-pieces = refl

-- the width 12 counts as 2, and the padding would be zeros behind the digits
expand-pieces : expand memory pieces 0 ≡ 97 ∷ 52 ∷ 50 ∷ []
unfolding expand last_digit convert conversion number digits emit
expand-pieces = refl

vsprintf-expand_example : vsprintf 9 memory (format pieces) 0 ≡ some (expand memory pieces 0)
unfolding format numeral
vsprintf-expand_example = vsprintf-expand memory pieces 0 9 (omega arith) (omega arith)

number-Printed_example :
    (ds : List ℕ) × Printed memory.stray (negsuc 41) 10 (pos 8) (record no_flags { sign = true }) ds
number-Printed_example =
    number-Printed memory.stray (negsuc 41) 10 (pos 8) (record no_flags { sign = true }) (inl refl)
      (omega arith) refl

abbrev idle_queue : TtyQueue
idle_queue = record { base = 0; head = 1022; tail = 1022; proc_list = none; buf = replicate 1024 0 }

abbrev tty0 : Tty
tty0 = record {
  c_oflag = 5;
  c_cc = 3 ∷ 28 ∷ 127 ∷ [];
  write = console;
  read_q = idle_queue;
  write_q = idle_queue;
}

tty0-IsIdle : IsIdle tty0
tty0-IsIdle = record {
  queue = record {
    room = length-replicate {A = ℕ} 1024 0;
    head_in = omega arith;
    tail_in = omega arith;
  };
  empty = refl;
}

length-formatted : length (formatted memory sample 0) ≡ 11
unfolding formatted vsprintf number digits emit
length-formatted = refl

printk-console_example :
    (tty' : Tty) × (c' : Console) × (printk 30 memory sample tty0 (init_console at_boot)
      ≡ some (length (formatted memory sample 0), tty', c'))
    × IsIdle tty'
    × SameTty tty0 tty'
    × (screen c'
        ≡ screen (feed 127 (with_returns (formatted memory sample 0)) (init_console at_boot)))
printk-console_example =
    printk-console 30 memory sample tty0 (init_console at_boot) refl refl tty0-IsIdle (omega arith)
      (omega (arith, length-formatted))
