-- ===== src/Disk.antt =====
-- kernel/blk_drv/harddisk.c: the place of a request's sector on the disk and the controller's registers.
pub mod Controller
pub mod Driver
pub mod Position
pub mod Setup
mod Tests
use Prim.Native.Nat.{bit_or}
use operator_system.Common.{
  ℕ, ◌+◌, ◌*◌, ◌/◌, ◌%◌, ◌^◌, Bool, ◌||◌, Option, none, some, List, [], ◌∷◌, ltb, leb, ◌==◌,
  if◌then◌else◌,
}
use operator_system.Common.Word.{add32, sub32}

-- `HARD_DISK` and `HD`
pub record HardDisk : Type 0 where
  pub head : ℕ
  pub sector : ℕ
  pub cylinder : ℕ
  pub wpcom : ℕ
  pub lzone : ℕ
  pub ctrl : ℕ

pub record Hd : Type 0 where
  pub start_sector : ℕ
  pub cnt_sectors : ℕ

-- the test of harddiskRequest under which a request is an error, for the partition `hd`
unfoldable pub out_of_range : (dev block : ℕ) → Hd → Bool
out_of_range dev block hd =
    leb 5 dev || ltb (sub32 (add32 hd.start_sector hd.cnt_sectors) 1) (add32 block 2)

-- the two divisions of harddiskRequest, which give sec, head and cyl
unfoldable pub sec_of : HardDisk → ℕ → ℕ
sec_of d block = block % d.sector + 1

unfoldable pub head_of : HardDisk → ℕ → ℕ
head_of d block = block / d.sector % d.head

unfoldable pub cyl_of : HardDisk → ℕ → ℕ
cyl_of d block = block / d.sector / d.head

-- hdOut with a controller that is ready: the bytes written to the ports, in order; `none` where it
-- spins on "Trying to write bad sector"
unfoldable pub hd_out : HardDisk → (drive nsect sect head cyl cmd : ℕ) → Option (List (ℕ × ℕ))
hd_out d drive nsect sect head cyl cmd =
    if ltb 1 drive || ltb 15 head
    then none
    else some (
        (0x3F6, d.ctrl % 2 ^ 8)
        ∷ (0x1F1, d.wpcom / 2 ^ 2 % 2 ^ 8)
        ∷ (0x1F2, nsect % 2 ^ 8)
        ∷ (0x1F3, sect % 2 ^ 8)
        ∷ (0x1F4, cyl % 2 ^ 8)
        ∷ (0x1F5, cyl / 2 ^ 8 % 2 ^ 8)
        ∷ (0x1F6, bit_or (bit_or 0xA0 (drive * 2 ^ 4)) head % 2 ^ 8)
        ∷ (0x1F7, cmd % 2 ^ 8)
        ∷ [])

-- the call of hdOut for a read or a write of the absolute sector `block`; the drive is `dev / 5`
unfoldable pub hd_transfer : HardDisk → (dev nsect block cmd : ℕ) → Option (List (ℕ × ℕ))
unfolding sec_of head_of cyl_of hd_out
hd_transfer d dev nsect block cmd =
    hd_out d (dev / 5) nsect (sec_of d block) (head_of d block) (cyl_of d block) cmd

-- harddiskRequest from the test on, for a request of `nsect` sectors from `sector` on; `none` where
-- the request is an error
unfoldable pub hd_command : HardDisk → (dev nsect sector cmd : ℕ) → Hd → Option (List (ℕ × ℕ))
unfolding out_of_range hd_transfer
hd_command d dev nsect sector cmd hd =
    if out_of_range dev sector hd
    then none
    else hd_transfer d dev nsect (add32 sector hd.start_sector) cmd
