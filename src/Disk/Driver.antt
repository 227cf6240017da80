-- ===== src/Disk/Driver.antt =====
-- kernel/blk_drv/harddisk.c: starting a request, and the interrupts that continue it.
pub mod Endless
pub mod Start
pub mod Read
pub mod Retry
mod Tests
use Prim.Native.Nat.{bit_and}
use operator_system.Common.{
  ℕ, zero, suc, ◌+◌, ◌-◌, ◌*◌, ◌/◌, ◌%◌, ◌^◌, Bool, true, false, not, Option, none, some, List, [],
  ◌∷◌, ◌==◌, if◌then◌else◌,
}
use operator_system.Common.Steps.{◌>>=◌}
use operator_system.Common.Word.{add32, sub32}
use operator_system.Block.{Request, Device, put}
use operator_system.Disk.{HardDisk, Hd, out_of_range, sec_of, head_of, cyl_of}
use operator_system.Disk.Controller.{
  Handler, read_handler, write_handler, recal_handler, Message, list_destroyed, block_not_locked,
  unknown_command, Effect, read_words, wrote_words, printed, Drive, in_byte, emit, win_result,
  set_request, end_current, bad_rw_intr, send, reset_hd,
}

-- the messages on a request of another driver
unfoldable pub check_major : Request → Drive → Drive
check_major r s =
    if r.dev / 2 ^ 8 == 3
    then s
    else (let s₁ = emit (printed list_destroyed) s in
        elim r.bh [
          | none ↦ s₁
          | some b ↦ if (s.device.buffers b).b_lock then s₁ else emit (printed block_not_locked) s₁
        ])

-- the loop that waits for DRQ_STAT, with `n` rounds left: whether the bit was set
unfoldable pub await_drq : (n : ℕ) → Drive → Bool × Drive
await_drq zero s = (false, s)
await_drq (suc n) s =
    let (i, s₁) = in_byte s in
    let rest = await_drq n s₁ in if bit_and i 0x08 == 0 then rest else (true, s₁)

-- how a round of harddiskRequest ends
pub data Turn : Type 0 where
  repeat : Drive → Turn
  return : Drive → Turn

-- harddiskRequest from `nsect = curr->nr_sectors` on
unfoldable pub issue : (r : Request) → (block : ℕ) → Drive → Option Turn
issue r block s =
    let drive = r.dev % 2 ^ 8 / 5 in
    let i = s.info in
    let transfer = send drive r.nr_sectors (sec_of i block) (head_of i block) (cyl_of i block) in
    if s.reset
    then (do s₁ ← reset_hd drive (record s { reset = false; recalibrate = true }); some (return s₁))
    else if s.recalibrate
    then (do
      s₁ ← send drive i.sector 0 0 0 0x10 recal_handler (record s { recalibrate = false })
      some (return s₁))
    else if r.cmd == 1
    then (do
      s₁ ← transfer 0x30 write_handler s
      let (r₁, s₂) = await_drq 3000 s₁
      if r₁
          then some (return (emit (wrote_words r.buffer) s₂))
          else (do s₃ ← bad_rw_intr s₂; some (repeat s₃)))
    else if r.cmd == 0
    then (do s₁ ← transfer 0x20 read_handler s; some (return s₁))
    else some (return (emit (printed unknown_command) s))

-- `endRequest(0); goto repeat;`
unfoldable pub reject : Drive → Option Turn
reject s = do s₁ ← end_current false s; some (repeat s₁)

-- one round of harddiskRequest on the request `curr`
unfoldable pub hd_round : (curr : ℕ) → Drive → Option Turn
hd_round curr s =
    let r = s.device.requests curr in
    let s₁ = check_major r s in
    let dev = r.dev % 2 ^ 8 in
    if out_of_range dev r.sector (s.hd dev)
    then reject s₁
    else issue r (add32 r.sector (s.hd dev).start_sector) s₁

-- the rounds of harddiskRequest, whose `curr` is read once
unfoldable pub hd_loop : (fuel curr : ℕ) → Drive → Option Drive
hd_loop zero curr s = none
hd_loop (suc fuel) curr s = elim (hd_round curr s) [
  | none ↦ none
  | some (repeat s₁) ↦ hd_loop fuel curr s₁
  | some (return s₁) ↦ some s₁
]

-- harddiskRequest; `none` where it spins, reads through NULL or the rounds run out
unfoldable pub harddisk_request : (fuel : ℕ) → Drive → Option Drive
harddisk_request fuel s = elim s.device.current_request [
  | none ↦ some s
  | some curr ↦ hd_loop fuel curr s
]

-- `curr->buffer += 512; curr->sector++;`
unfoldable pub advance : Request → Request
advance r = record r { buffer = add32 r.buffer 512; sector = add32 r.sector 1 }

-- the end of a request whose sectors are all transferred
unfoldable pub complete : (fuel : ℕ) → Drive → Option Drive
complete fuel s = do s₁ ← end_current true s; harddisk_request fuel s₁

-- the answer of readIntr and writeIntr to a command that failed
unfoldable pub retry : (fuel : ℕ) → Drive → Option Drive
retry fuel s = do s₁ ← bad_rw_intr s; harddisk_request fuel s₁

-- readIntr after a command that succeeded
unfoldable pub read_sector : (fuel curr : ℕ) → Drive → Option Drive
read_sector fuel curr s =
    let r = s.device.requests curr in
    let r' = record (advance r) { errors = 0; nr_sectors = sub32 r.nr_sectors 1 } in
    let s₁ = set_request curr r' (emit (read_words r.buffer) s) in
    if r'.nr_sectors == 0
    then complete fuel s₁
    else some (record s₁ { device_intr = some read_handler })

-- readIntr
unfoldable pub read_intr : (fuel : ℕ) → Drive → Option Drive
read_intr fuel s =
    let (failed, s₁) = win_result s in
    if failed
    then retry fuel s₁
    else (s₁.device.current_request >>= λ curr. read_sector fuel curr s₁)

-- writeIntr after a command that succeeded
unfoldable pub write_sector : (fuel curr : ℕ) → Drive → Option Drive
write_sector fuel curr s =
    let r = s.device.requests curr in
    let r' = record r { nr_sectors = sub32 r.nr_sectors 1 } in
    let s₁ = set_request curr (advance r') s in
    if r'.nr_sectors == 0
    then complete fuel (set_request curr r' s)
    else some
        (emit (wrote_words (advance r').buffer) (record s₁ { device_intr = some write_handler }))

-- writeIntr
unfoldable pub write_intr : (fuel : ℕ) → Drive → Option Drive
write_intr fuel s =
    let (failed, s₁) = win_result s in
    if failed
    then retry fuel s₁
    else (s₁.device.current_request >>= λ curr. write_sector fuel curr s₁)

-- recalIntr
unfoldable pub recal_intr : (fuel : ℕ) → Drive → Option Drive
recal_intr fuel s =
    let (failed, s₁) = win_result s in
    do s₂ ← if failed then bad_rw_intr s₁ else some s₁; harddisk_request fuel s₂
