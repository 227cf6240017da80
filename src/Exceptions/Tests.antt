-- ===== src/Exceptions/Tests.antt =====
-- The report of a general protection fault.
use operator_system.Common.{
  ℕ, ◌+◌, ◌*◌, ◌<◌, length, ◌≡◌, refl, some, List, [], length-replicate, All, arith,
}
use operator_system.Console.{Console, at_boot, init_console}
use operator_system.Console.Screen.{screen, feed}
use operator_system.Tty.{Tty}
use operator_system.Tty.Write.{IsIdle, with_returns}
use operator_system.Tty.Table.{console_terminal, empty_queue}
use operator_system.Print.{Arguments, number, digits, emit}
use operator_system.Exceptions.{syserr_handler}
use operator_system.Exceptions.Lines.{codes, lines}
use operator_system.Exceptions.Shown.{joined, syserr_handler-shown}

abbrev memory : Arguments
memory = record { arg = λ k. 0; text = λ a. []; stray = λ small k. 63 }

-- the terminal 0 of TTY_TABLE as it is first set
abbrev tty0 : Tty
tty0 = console_terminal.tty

tty0-IsIdle : IsIdle tty0
unfolding console_terminal empty_queue
tty0-IsIdle = record {
  queue = record {
    room = length-replicate {A = ℕ} 1024 0;
    head_in = omega arith;
    tail_in = omega arith;
  };
  empty = refl;
}

abbrev fault : List (List ℕ)
fault = lines memory 13 16 0x1234 8 0x202

-- the lines of the fault as they stand on the screen
fault_text :
    joined fault
    ≡ codes
        "Exception! --> #GP General Protection\nVector:0XD\nError code:0X10\nEIP:0X1234\nCS:0X8\nEFLAGS:0X202\n"
unfolding number digits emit
fault_text = refl

fault-short : All (λ l. 2 * length l + 1 < 100) fault
unfolding number digits emit
fault-short =
    (omega arith, (omega arith, (omega arith, (omega arith, (omega arith, (omega arith, tt))))))

syserr_handler-shown_example :
    (tty' : Tty) × (c' : Console) × (syserr_handler 100 memory 0x9000 13 16 0x1234 8 0x202 tty0
        (init_console at_boot)
      ≡ some (tty', c'))
    × IsIdle tty'
    × (screen c' ≡ screen (feed 127 (with_returns (joined fault)) (init_console at_boot)))
unfolding console_terminal
syserr_handler-shown_example =
    syserr_handler-shown 100 memory 0x9000 13 16 0x1234 8 0x202 tty0 (init_console at_boot)
      (omega arith) (omega arith) (omega arith) refl refl tty0-IsIdle (omega arith) fault-short
