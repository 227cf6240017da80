-- ===== src/Disk/Position.antt =====
-- The registers that kernel/blk_drv/harddisk.c writes, read as the controller does.
use Prim.Native.Nat.{bit_or}
use native.Mathlib.Nat.{mod-lt, div-add-mod}
use operator_system.Common.{
  ℕ, ◌+◌, ◌-◌, ◌*◌, ◌/◌, ◌%◌, ◌^◌, ◌≤◌, ◌<◌, ◌≡◌, refl, ◌∙◌, false, some, List, [], ◌∷◌, ltb, ◌==◌,
  if◌then◌else◌, arith,
}
use operator_system.Common.Bits.{bit_or-add}
use operator_system.Disk.{
  HardDisk, Hd, out_of_range, sec_of, head_of, cyl_of, hd_out, hd_transfer, hd_command,
}

-- the byte written to a port
abbrev pub port : ℕ → List (ℕ × ℕ) → ℕ
port p [] = 0
port p (w ∷ ws) = if w.0 == p then w.1 else port p ws

-- the absolute sector that the registers name: cylinder, head and sector from 1
abbrev pub position : HardDisk → List (ℕ × ℕ) → ℕ
position d ws =
    d.sector * (d.head * (port 0x1F4 ws + port 0x1F5 ws * 2 ^ 8) + port 0x1F6 ws % 2 ^ 4)
    + (port 0x1F3 ws - 1)

device_byte : (head : ℕ) → head < 2 ^ 4 → bit_or 0xA0 head % 2 ^ 8 % 2 ^ 4 ≡ head
device_byte head h = omega (arith, h, bit_or-add 4 10 head h)

place_back :
    (d : HardDisk) (block : ℕ)
    → d.sector * (d.head * cyl_of d block + head_of d block) + (sec_of d block - 1) ≡ block
unfolding cyl_of head_of sec_of
place_back d block =
    rw (div-add-mod (block / d.sector) d.head) (omega (arith, div-add-mod block d.sector))

sec_of-le : (d : HardDisk) (block : ℕ) → 0 < d.sector → sec_of d block ≤ d.sector
unfolding sec_of
sec_of-le d block h = omega (arith, mod-lt block h)

sec_of-pos : (d : HardDisk) (block : ℕ) → 0 < sec_of d block
unfolding sec_of
sec_of-pos d block = omega arith

head_of-lt : (d : HardDisk) (block : ℕ) → 0 < d.head → d.head ≤ 2 ^ 4 → head_of d block < 2 ^ 4
unfolding head_of
head_of-lt d block h g = omega (arith, g, mod-lt (block / d.sector) h)

-- the place that hdOut's registers name on the first drive
pub record Registers (d : HardDisk) (nsect s h c cmd : ℕ) (ws : List (ℕ × ℕ)) : Type 0 where
  pub written : hd_out d 0 nsect s h c cmd ≡ some ws
  pub sector : port 0x1F3 ws ≡ s
  pub cylinder : port 0x1F4 ws + port 0x1F5 ws * 2 ^ 8 ≡ c
  pub head : port 0x1F6 ws % 2 ^ 4 ≡ h

hd_out-Registers :
    (d : HardDisk) (nsect s h c cmd : ℕ)
    → s < 2 ^ 8
    → h < 2 ^ 4
    → c < 2 ^ 16
    → (ws : List (ℕ × ℕ)) × Registers d nsect s h c cmd ws
unfolding hd_out
hd_out-Registers d nsect s h c cmd s₁ h₁ c₁ =
    let low : ltb 15 h ≡ false = ground arith in
    (
      (0x3F6, d.ctrl % 2 ^ 8)
          ∷ (0x1F1, d.wpcom / 2 ^ 2 % 2 ^ 8)
          ∷ (0x1F2, nsect % 2 ^ 8)
          ∷ (0x1F3, s % 2 ^ 8)
          ∷ (0x1F4, c % 2 ^ 8)
          ∷ (0x1F5, c / 2 ^ 8 % 2 ^ 8)
          ∷ (0x1F6, bit_or 0xA0 h % 2 ^ 8)
          ∷ (0x1F7, cmd % 2 ^ 8)
          ∷ [],
      record {
        written = rw (low, hd_out) refl;
        sector = omega (arith, s₁);
        cylinder = omega (arith, c₁);
        head = device_byte h h₁;
      },
    )

command-transfer :
    (d : HardDisk) (dev nsect sector cmd : ℕ) (hd : Hd)
    → out_of_range dev sector hd ≡ false
    → dev < 5
    → sector + hd.start_sector < 2 ^ 32
    → let block = sector + hd.start_sector in
      hd_command d dev nsect sector cmd hd
      ≡ hd_out d 0 nsect (sec_of d block) (head_of d block) (cyl_of d block) cmd
unfolding hd_command hd_transfer
command-transfer d dev nsect sector cmd hd inside slot fit =
    let first : dev / 5 ≡ 0 = omega (arith, slot) in
    let exact : (sector + hd.start_sector) % 2 ^ 32 ≡ sector + hd.start_sector =
      omega (arith, fit) in
    rw (inside, hd_command) (rw (first, exact) refl)

-- For a request inside its partition, on a disk with at most 16 heads, at most 255 sectors to a track
-- and a cylinder number of 16 bits: harddiskRequest's call of hdOut does not hang, and the registers
-- that it writes name the request's sector counted from the start of the partition, with a sector
-- number from 1 to the sectors of a track.
pub hd_command-position :
    (d : HardDisk) (dev nsect sector cmd : ℕ) (hd : Hd)
    → out_of_range dev sector hd ≡ false
    → dev < 5
    → sector + hd.start_sector < 2 ^ 32
    → 0 < d.sector
    → d.sector < 2 ^ 8
    → 0 < d.head
    → d.head ≤ 2 ^ 4
    → cyl_of d (sector + hd.start_sector) < 2 ^ 16
    → (ws : List (ℕ × ℕ)) × (hd_command d dev nsect sector cmd hd ≡ some ws)
      × (position d ws ≡ sector + hd.start_sector)
      × (0 < port 0x1F3 ws)
      × (port 0x1F3 ws ≤ d.sector)
hd_command-position d dev nsect sector cmd hd inside slot fit s₀ s₁ h₀ h₁ c =
    let block : ℕ = sector + hd.start_sector in
    let s : sec_of d block ≤ d.sector = sec_of-le d block s₀ in
    let h : head_of d block < 2 ^ 4 = head_of-lt d block h₀ h₁ in
    let (ws, r) =
      hd_out-Registers d nsect (sec_of d block) (head_of d block) (cyl_of d block) cmd
        (omega (arith, s)) h c in
    (
      ws,
      command-transfer d dev nsect sector cmd hd inside slot fit ∙ r.written,
      rw (r.cylinder, r.head, r.sector) (place_back d block),
      rw r.sector (sec_of-pos d block),
      rw r.sector s,
    )
