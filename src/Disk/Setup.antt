-- ===== src/Disk/Setup.antt =====
-- kernel/blk_drv/harddisk.c: initHarddisk and sysSetup.
use operator_system.Common.{
  ℕ, ◌+◌, ◌*◌, ◌/◌, ◌%◌, ◌^◌, Bool, true, false, not, ◌||◌, Option, none, some, ◌==◌, if◌then◌else◌,
}
use operator_system.Common.Steps.{◌>>=◌}
use operator_system.Block.{put}
use operator_system.Disk.{HardDisk, Hd}
use operator_system.Disk.Controller.{Handler, wrote, Drive, in_byte, emit}

-- what the kernel calls of the driver: BLK_DEV_INFO[3].request_fn, as whether it is harddiskRequest,
-- IRQ_TABLE[AT_WINI_IRQ], and whether that interrupt is let through
pub record Hooks : Type 0 where
  pub request_fn : Bool
  pub irq_handler : Option Handler
  pub enabled : Bool

-- initHarddisk; putIrqHandler is given the value of DEVICE_INTR
unfoldable pub init_harddisk : Hooks → Drive → Hooks × Drive
init_harddisk h s =
    let s₁ = record s { reset = false; recalibrate = false } in
    (record { request_fn = true; irq_handler = s₁.device_intr; enabled = true }, s₁)

-- the parameters of the disk in the table at `drv_info`
unfoldable pub drive_parameters : (drv_info : ℕ → ℕ) → HardDisk
drive_parameters drv_info = record {
  head = drv_info 2;
  sector = drv_info 14;
  cylinder = drv_info 0 + drv_info 1 * 2 ^ 8;
  wpcom = drv_info 5 + drv_info 6 * 2 ^ 8;
  lzone = drv_info 12;
  ctrl = drv_info 8;
}

-- `HD_INFO[0]`
unfoldable pub whole_disk : HardDisk → Hd
whole_disk i = record { start_sector = 0; cnt_sectors = i.head * i.sector * i.cylinder % 2 ^ 32 }

-- sysSetup, which returns 0; `none` where it spins. `bread` is fs/buffer.c's, which gives the bytes
-- of the block, or none for NULL.
unfoldable pub sys_setup :
    (bread : (dev block : ℕ) → Drive → Option (Option (ℕ → ℕ) × Drive))
    → (drv_info : ℕ → ℕ) → Drive
    → Option Drive
sys_setup bread drv_info s =
    let info = drive_parameters drv_info in
    let (cmos_disks, s₁) = in_byte (emit (wrote 0x70 0x92) (record s { info = info })) in
    let s₂ = record s₁ { hd = put 0 (whole_disk info) s₁.hd } in
    if cmos_disks / 2 ^ 4 == 0
    then none
    else (bread 0x300 0 s₂ >>= λ (bh, s₃). bh >>= λ b_data.
        if not (b_data 510 == 0x55) || not (b_data 511 == 0xAA) then none else some s₃)
