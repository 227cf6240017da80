-- ===== src/Files/Tests.antt =====
-- Writes to descriptors.
use operator_system.Common.{
  ℕ, ◌≡◌, refl, Option, none, some, [], ◌∷◌, ◌==◌, if◌then◌else◌, replicate, arith,
}
use operator_system.Common.Int.{ℤ, pos, negsuc}
use operator_system.Console.{at_boot, init_console}
use operator_system.Tty.{TtyQueue, console, Tty}
use operator_system.Print.{Arguments}
use operator_system.Files.{File, Screen, sys_write}
use operator_system.Files.Refused.{no_driver, sys_write-Refused}

abbrev memory : Arguments
memory = record { arg = λ k. 0; text = λ a. []; stray = λ small k. 63 }

abbrev idle : TtyQueue
idle = record { base = 0; head = 0; tail = 0; proc_list = none; buf = replicate 1024 0 }

abbrev terminal : Tty
terminal = record {
  c_oflag = 5;
  c_cc = 3 ∷ 28 ∷ 127 ∷ [];
  write = console;
  read_q = idle;
  write_q = idle;
}

abbrev screens : Screen
screens = record { ttys = λ k. terminal; console = init_console at_boot }

-- descriptor 1 is a terminal, descriptor 2 the character device /dev/mem, the others are closed
abbrev files : ℕ → Option File
files fd =
    if fd == 1
    then some (record { f_inode = record { i_mode = 0x2000; i_zone = 0x400 }; f_pos = 0 })
    else if fd == 2
    then some (record { f_inode = record { i_mode = 0x2000; i_zone = 0x100 }; f_pos = 0 })
    else none

sys_write-Refused_example :
    sys_write 5 (pos 0) memory files 2 (65 ∷ []) screens ≡ some (negsuc 0, screens)
sys_write-Refused_example =
    sys_write-Refused 5 (pos 0) memory files 2 (65 ∷ []) screens
      (no_driver (record { f_inode = record { i_mode = 0x2000; i_zone = 0x100 }; f_pos = 0 }) refl
        refl (omega arith))
      (λ e. cc)

abbrev answer : Option (ℤ × Screen) → ℤ
answer none = negsuc 1
answer (some (n, w)) = n

-- nothing to write
sys_write-nothing : answer (sys_write 5 (pos 0) memory files 1 [] screens) ≡ pos 0
unfolding sys_write
sys_write-nothing = refl
