-- ===== src/Disk/Tests.antt =====
-- A transfer on a small disk.
use operator_system.Common.{ℕ, ◌+◌, ◌≡◌, ◌≤◌, ◌<◌, refl, some, List, arith}
use operator_system.Disk.{HardDisk, Hd, out_of_range, cyl_of, hd_command}
use operator_system.Disk.Position.{port, position, hd_command-position}

-- 16 heads, 63 sectors to a track, 306 cylinders
abbrev disk : HardDisk
disk = record { head = 16; sector = 63; cylinder = 306; wpcom = 0; lzone = 305; ctrl = 0 }

abbrev partition : Hd
partition = record { start_sector = 63; cnt_sectors = 300000 }

hd_command-position_example :
    (ws : List (ℕ × ℕ)) × (hd_command disk 1 2 5000 0x20 partition ≡ some ws)
    × (position disk ws ≡ 5000 + 63)
    × (0 < port 0x1F3 ws)
    × (port 0x1F3 ws ≤ 63)
unfolding out_of_range cyl_of
hd_command-position_example =
    hd_command-position disk 1 2 5000 0x20 partition refl (omega arith) (omega arith) (omega arith)
      (omega arith) (omega arith) (omega arith) (omega arith)
