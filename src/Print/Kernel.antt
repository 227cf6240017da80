-- ===== src/Print/Kernel.antt =====
-- printk of kernel/print.c on the console's terminal.
use operator_system.Common.{ℕ, ◌+◌, ◌*◌, ◌<◌, ◌≡◌, refl, some, List, get_or, length}
use operator_system.Console.{Console}
use operator_system.Console.Screen.{screen, feed}
use operator_system.Tty.{console, Tty}
use operator_system.Tty.Write.{IsIdle, SameTty, with_returns, tty_write-console}
use operator_system.Print.{Arguments, printk}
use operator_system.Print.Format.{formatted, vsprintf-formatted}

-- printk on a terminal with the console's driver and flags, whose write queue is in order and
-- empty, with more rounds than the format's length and than twice the bytes that vsprintf stores
-- and one: it returns the number of these bytes, with the queue empty and in order again, its
-- driver, flags and characters as before, and the screen and cursor are as if the bytes, each newline
-- preceded by a carriage return, had been put one by one.
pub printk-console :
    (fuel : ℕ) (m : Arguments) (fmt : List ℕ) (tty : Tty) (c : Console)
    → tty.write ≡ console
    → tty.c_oflag ≡ 5
    → IsIdle tty
    → length fmt < fuel
    → 2 * length (formatted m fmt 0) + 1 < fuel
    → (tty' : Tty) × (c' : Console) × (printk fuel m fmt tty c
        ≡ some (length (formatted m fmt 0), tty', c'))
      × IsIdle tty'
      × SameTty tty tty'
      × (screen c' ≡ screen (feed (get_or tty.c_cc 2 0) (with_returns (formatted m fmt 0)) c))
unfolding printk
printk-console fuel m fmt tty c d o v h l =
    let out = formatted m fmt 0 in
    let (tty', c', e, idle, same, shown) = tty_write-console fuel tty c out d o v l in
    (tty', c', rw (printk, vsprintf-formatted m fmt 0 fuel h) (rw e refl), idle, same, shown)
