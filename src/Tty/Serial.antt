-- ===== src/Tty/Serial.antt =====
-- ttyWrite of kernel/chr_drv/tty.c on a serial terminal, whose driver rsWrite takes no byte.
use operator_system.Common.{ℕ, zero, suc, ◌≡◌, refl, ap, Bool, true, false, none, some, List, ◌∷◌}
use operator_system.Console.{Console}
use operator_system.Tty.{
  TtyQueue, serial, Tty, full_queue, drive, drive_by, rs_write, fill, write_loop, tty_write,
}

fill-full :
    (fuel oflag : ℕ) (q : TtyQueue) (b : ℕ) (src : List ℕ) (cr_flag : Bool)
    → full_queue q ≡ true
    → fill (suc fuel) oflag q (b ∷ src) cr_flag ≡ some (q, b ∷ src, cr_flag)
unfolding fill
fill-full fuel oflag q b src cr_flag full = rw full

drive-serial : (tty : Tty) (c : Console) → tty.write ≡ serial → drive tty c ≡ (tty, c)
unfolding drive drive_by rs_write
drive-serial tty c e = ap (λ d. drive_by d tty c) e

write_loop-serial :
    (fuel : ℕ) (tty : Tty) (c : Console) (b : ℕ) (src : List ℕ) (cr_flag : Bool)
    → tty.write ≡ serial
    → full_queue tty.write_q ≡ true
    → write_loop fuel tty c (b ∷ src) cr_flag ≡ none
unfolding write_loop
write_loop-serial zero tty c b src cr_flag e full = refl
write_loop-serial (suc fuel) tty c b src cr_flag e full =
    rw (fill-full fuel tty.c_oflag tty.write_q b src cr_flag full, write_loop)
      (rw (drive-serial tty c e) (write_loop-serial fuel tty c b src cr_flag e full))

-- On a serial terminal whose write queue is full ttyWrite does not return, however many rounds its
-- loop makes, as long as there is a byte to write.
pub tty_write-serial :
    (fuel : ℕ) (tty : Tty) (c : Console) (b : ℕ) (src : List ℕ)
    → tty.write ≡ serial
    → full_queue tty.write_q ≡ true
    → tty_write fuel tty c (b ∷ src) ≡ none
unfolding tty_write
tty_write-serial fuel tty c b src e full =
    rw (write_loop-serial fuel tty c b src false e full, tty_write) refl
