-- ===== src/Disk/Driver/Tests.antt =====
-- Runs of kernel/blk_drv/harddisk.c on a small disk.
use operator_system.Common.{ℕ, ◌≡◌, refl, true, false, none, some, List, [], ◌∷◌, arith}
use operator_system.Block.{Request, put}
use operator_system.Disk.{
  HardDisk, out_of_range, hd_out, sec_of, head_of, cyl_of, hd_transfer, hd_command,
}
use operator_system.Disk.Controller.{
  Drive, read_handler, write_handler, wrote_words, in_byte, emit, set_request, win_result,
}
use operator_system.Disk.Driver.{harddisk_request, read_intr}
use operator_system.Disk.Driver.Read.{Advanced, read_times, read_times-Advanced}
use operator_system.Disk.Driver.Endless.{read_intr-endless}
use operator_system.Disk.Driver.Start.{Inside, Ready, sent, harddisk_request-write}
use operator_system.Disk.Driver.Retry.{counted, read_intr-retried}

abbrev disk : HardDisk
disk = record { head = 16; sector = 63; cylinder = 306; wpcom = 0; lzone = 305; ctrl = 0 }

-- request 0 of the first partition: two sectors from 10 on
abbrev request : (cmd left : ℕ) → Request
request cmd left = record {
  dev = 0x301;
  cmd = cmd;
  errors = 0;
  sector = 10;
  nr_sectors = left;
  buffer = 0x200000;
  bh = none;
  next = none;
}

-- a driver whose controller answers `status`
abbrev drive : (cmd left status : ℕ) → Drive
drive cmd left status = record {
  device = record {
    requests = λ _. request cmd left;
    current_request = some 0;
    buffers = λ _. record { b_data = 0; b_uptodate = false; b_dirt = false; b_lock = true };
    starts = 0;
  };
  info = disk;
  hd = λ _. record { start_sector = 63; cnt_sectors = 300000 };
  device_intr = none;
  reset = false;
  recalibrate = false;
  answers = λ _. status;
  reads = 0;
  effects = [];
}

-- the bytes of the command
abbrev bytes : (cmd : ℕ) → List (ℕ × ℕ)
bytes cmd =
    (0x3F6, 0)
    ∷ (0x1F1, 0)
    ∷ (0x1F2, 2)
    ∷ (0x1F3, 11)
    ∷ (0x1F4, 0)
    ∷ (0x1F5, 0)
    ∷ (0x1F6, 0xA1)
    ∷ (0x1F7, cmd)
    ∷ []

place : (cmd left status : ℕ) → Inside 0 (drive cmd left status)
unfolding out_of_range
place cmd left status = record { current = refl; major = refl; inside = refl }

ready : (cmd : ℕ) → Ready 0 (drive cmd 2 0x58)
ready cmd = record { place = place cmd 2 0x58; no_reset = refl; no_recalibrate = refl; idle = refl }

read_times-Advanced_example :
    (s' : Drive) × (read_times 5 1 (drive 0 2 0x50) ≡ some s') × Advanced 1 0 (drive 0 2 0x50) s'
read_times-Advanced_example =
    read_times-Advanced 5 1 0 (drive 0 2 0x50)
      (record {
        current = refl;
        more = omega arith;
        word = omega arith;
        sector = omega arith;
        buffer = omega arith;
      })
      (λ i h. refl)

read_intr-endless_example : read_intr 5 (drive 0 1 0x50) ≡ none
read_intr-endless_example = read_intr-endless 5 0 (drive 0 1 0x50) refl refl refl

harddisk_request-write_example :
    harddisk_request 1 (drive 1 2 0x58)
    ≡ some (
        emit
          (wrote_words 0x200000)
          (record (sent (bytes 0x30) write_handler (drive 1 2 0x58)) { reads = 2 }))
unfolding out_of_range hd_out sec_of head_of cyl_of hd_transfer hd_command
harddisk_request-write_example =
    harddisk_request-write 0 0 0 (drive 1 2 0x58) (bytes 0x30) (ready 1) refl refl
      (record { soon = omega arith; quiet = λ i h. absurd (omega (arith, h)); found = refl })

-- a status without the bit for a seek that is done
abbrev failing : Drive
failing = drive 0 2 0x48

read_intr-retried_example :
    read_intr 1 failing ≡ some (sent (bytes 0x20) read_handler (counted 0 (win_result failing).1))
unfolding out_of_range hd_out sec_of head_of cyl_of hd_transfer hd_command win_result in_byte
    set_request put
read_intr-retried_example =
    read_intr-retried 0 0 failing (bytes 0x20) refl (omega arith)
      (record {
        place = record { current = refl; major = refl; inside = refl };
        no_reset = refl;
        no_recalibrate = refl;
        idle = refl;
      })
      refl refl
