-- ===== src/Files/Refused.antt =====
-- What sysWrite of fs/read_write.c answers, on the good and the bad descriptors.

use operator_system.Common.{
  ℕ, ◌≤◌, ◌≡◌, ◌≢◌, refl, inl, inr, true, false, Option, none, some, List, [], ◌∷◌, leb, ◌==◌,
  length, Bool-cases, arith,
}
use operator_system.Common.Int.{ℤ, negsuc}
use operator_system.Print.{Arguments}
use operator_system.Files.{File, Screen, nr_open, is_chr, major, rw_char, as_int, sys_write}

-- the ways in which a write to the descriptor fails
pub data Refused (filp : ℕ → Option File) (fd : ℕ) : Type 0 where
  too_large : 20 ≤ fd → Refused filp fd
  closed : filp fd ≡ none → Refused filp fd
  no_driver :
      (f : File)
      → filp fd ≡ some f
      → is_chr f.f_inode.i_mode ≡ true
      → major f.f_inode.i_zone ≢ 4
      → Refused filp fd

rw_char-no_driver :
    (fuel : ℕ) (unset : ℤ) (dev : ℕ) (bytes : List ℕ) (w : Screen)
    → major dev ≢ 4
    → rw_char fuel unset false dev bytes w ≡ some (negsuc 0, w)
unfolding rw_char
rw_char-no_driver fuel unset dev bytes w n = ground (arith, n)

some_bytes : (bytes : List ℕ) → bytes ≢ [] → (length bytes == 0) ≡ false
some_bytes [] n = absurd (n refl)
some_bytes (b ∷ bytes) n = ground arith

-- sysWrite of one byte or more to a descriptor from 20 on, to one that is not open, or to a
-- character device that has no driver, all but those of major number 4: it returns -1 with any
-- rounds, and neither the terminals nor the console change.
pub sys_write-Refused :
    (fuel : ℕ) (unset : ℤ) (m : Arguments) (filp : ℕ → Option File) (fd : ℕ) (bytes : List ℕ)
    (w : Screen)
    → Refused filp fd
    → bytes ≢ []
    → sys_write fuel unset m filp fd bytes w ≡ some (negsuc 0, w)
unfolding sys_write
sys_write-Refused fuel unset m filp fd bytes w (too_large l) n = rw (sys_write, past fd l) refl
  where
    past : (fd : ℕ) → 20 ≤ fd → leb nr_open fd ≡ true
    past fd l = ground (arith, l)
sys_write-Refused fuel unset m filp fd bytes w (closed e) n = elim (Bool-cases (leb nr_open fd)) [
  | inl b ↦ rw (sys_write, b) refl
  | inr b ↦ rw (sys_write, b, e) refl
]
sys_write-Refused fuel unset m filp fd bytes w (no_driver f e c d) n =
    elim (Bool-cases (leb nr_open fd)) [
      | inl b ↦ rw (sys_write, b) refl
      | inr b ↦
          rw (sys_write, b, e, some_bytes bytes n, c)
            (rw_char-no_driver fuel unset f.f_inode.i_zone (as_int bytes) w d)
    ]
