-- ===== src/Disk/Controller.antt =====
-- The driver of kernel/blk_drv/harddisk.c: its state, and its dealings with the controller.
use Prim.Native.Nat.{bit_and}
use operator_system.Common.{
  ℕ, zero, suc, ◌+◌, ◌-◌, ◌%◌, ◌^◌, Bool, true, false, Option, none, some, List, [], ◌∷◌, leb, ◌==◌,
  if◌then◌else◌,
}
use operator_system.Common.Int.{pos, ltb_ℤ, signed32}
use operator_system.Common.Steps.{◌>>=◌}
use operator_system.Common.Word.{add32}
use operator_system.Block.{Request, Device, put, end_request}
use operator_system.Disk.{HardDisk, Hd, hd_out}

-- the functions that DEVICE_INTR points to
pub data Handler : Type 0 where
  read_handler : Handler
  write_handler : Handler
  recal_handler : Handler

-- the messages of the driver
pub data Message : Type 0 where
  times_out : Message
  still_busy : Message
  reset_failed : (code : ℕ) → Message
  list_destroyed : Message
  block_not_locked : Message
  unknown_command : Message

-- what leaves the driver: a byte to a port, 256 words from the data port to memory or back, a message
pub data Effect : Type 0 where
  wrote : (port value : ℕ) → Effect
  read_words : (buffer : ℕ) → Effect
  wrote_words : (buffer : ℕ) → Effect
  printed : Message → Effect

-- The variables of harddisk.c with the requests of its device. The controller is the sequence
-- `answers` of what inByte returns, of which `reads` are used; `effects` has the last first.
pub record Drive : Type 0 where
  pub device : Device
  pub info : HardDisk
  pub hd : ℕ → Hd
  pub device_intr : Option Handler
  pub reset : Bool
  pub recalibrate : Bool
  pub answers : ℕ → ℕ
  pub reads : ℕ
  pub effects : List Effect

-- inByte, of any port
unfoldable pub in_byte : Drive → ℕ × Drive
in_byte s = (s.answers s.reads % 2 ^ 8, record s { reads = s.reads + 1 })

unfoldable pub emit : Effect → Drive → Drive
emit e s = record s { effects = e ∷ s.effects }

-- outByte for each pair of a port and a byte
unfoldable pub out_bytes : List (ℕ × ℕ) → Drive → Drive
out_bytes [] s = s
out_bytes (w ∷ ws) s = out_bytes ws (emit (wrote w.0 w.1) s)

-- winResult: whether the command failed
unfoldable pub win_result : Drive → Bool × Drive
win_result s =
    let (i, s₁) = in_byte s in
    if bit_and i 0xF1 == 0x50
    then (false, s₁)
    else (true, if i % 2 == 1 then (in_byte s₁).1 else s₁)

unfoldable pub set_request : (curr : ℕ) → Request → Drive → Drive
set_request curr r s = record s {
  device = record s.device { requests = put curr r s.device.requests };
}

-- endRequest
unfoldable pub end_current : (uptodate : Bool) → Drive → Option Drive
end_current uptodate s = do d ← end_request uptodate s.device; some (record s { device = d })

-- badRwIntr on the current request
unfoldable pub bad_request : (curr : ℕ) → Drive → Option Drive
bad_request curr s =
    let r = s.device.requests curr in
    let errors = add32 r.errors 1 in
    let s₁ = set_request curr (record r { errors = errors }) s in
    (if ltb_ℤ (signed32 errors) (pos 7) then some s₁ else end_current false s₁) >>= λ s₂.
    some (if ltb_ℤ (pos 3) (signed32 errors) then record s₂ { reset = true } else s₂)

-- badRwIntr; `none` where there is no current request
unfoldable pub bad_rw_intr : Drive → Option Drive
bad_rw_intr s = s.device.current_request >>= λ curr. bad_request curr s

-- the loop of driveBusy, with `n` rounds left
unfoldable pub await_drive : (n : ℕ) → Drive → Drive
await_drive zero s = s
await_drive (suc n) s =
    let (i, s₁) = in_byte s in
    let rest = await_drive n s₁ in if bit_and i 0xC0 == 0x40 then s₁ else rest

-- driveBusy
unfoldable pub drive_busy : Drive → Bool × Drive
drive_busy s =
    let (i, s₁) = in_byte (await_drive 10000 s) in
    if bit_and i 0xD0 == 0x50 then (false, s₁) else (true, emit (printed times_out) s₁)

-- the loop of controllerReady, after `--retries` gave `retries`
unfoldable pub await_ready : (retries : ℕ) → Drive → ℕ × Drive
await_ready zero s = (0, s)
await_ready (suc n) s =
    let (i, s₁) = in_byte s in
    let rest = await_ready n s₁ in if leb 0x80 i then rest else (suc n, s₁)

-- controllerReady
unfoldable pub controller_ready : Drive → ℕ × Drive
controller_ready s = await_ready (100000 - 1) s

-- resetController; outByte takes the port first
unfoldable pub reset_controller : Drive → Drive
reset_controller s =
    let s₁ =
      emit (wrote (s.info.ctrl % 2 ^ 4) (0x3F6 % 2 ^ 8)) (emit (wrote 4 (0x3F6 % 2 ^ 8)) s) in
    let (busy, s₂) = drive_busy s₁ in
    let (i, s₃) = in_byte (if busy then emit (printed still_busy) s₂ else s₂) in
    if i == 1 then s₃ else emit (printed (reset_failed i)) s₃

-- hdOut; `none` where it spins
unfoldable pub send : (drive nsect sect head cyl cmd : ℕ) → Handler → Drive → Option Drive
send drive nsect sect head cyl cmd intr_addr s = do
  ws ← hd_out s.info drive nsect sect head cyl cmd
  let (retries, s₁) = controller_ready s
  if retries == 0 then none else some (out_bytes ws (record s₁ { device_intr = some intr_addr }))

-- resetHd
unfoldable pub reset_hd : (nr : ℕ) → Drive → Option Drive
reset_hd nr s =
    let s₁ = reset_controller s in
    let i = s₁.info in
    send nr i.sector i.sector ((i.head + 2 ^ 32 - 1) % 2 ^ 32) i.cylinder 0x91 recal_handler s₁
