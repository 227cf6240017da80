-- ===== src/Block/Transfer.antt =====
-- kernel/blk_drv/ll_rw_blk.c: makeRequest and ll_rw_block, from a buffer to a queued request.
use operator_system.Common.{
  ℕ, zero, suc, ◌-◌, ◌*◌, ◌/◌, ◌^◌, Bool, true, false, not, ◌&&◌, ◌||◌, Option, none, some, ltb,
  leb, ◌==◌, if◌then◌else◌,
}
use operator_system.Block.{Request, Device, put, take_slot, add_request}

-- The wait queues: `b_wait` of a buffer, and WAIT_FOR_REQUEST.
pub data Waits : Type 0 where
  for_buffer : ℕ → Waits
  for_request : Waits

-- sleepOn with all that happens until the process goes on, and wakeUp
pub record Sleeping : Type 0 where
  pub sleep_on : Waits → Device → Device
  pub wake_up : Waits → Device → Device

unfoldable pub set_lock : (bh : ℕ) → Bool → Device → Device
unfolding put
set_lock bh locked d = record d {
  buffers = put bh (record (d.buffers bh) { b_lock = locked }) d.buffers;
}

-- lockBuffer; the interrupt flag has no state
unfoldable pub lock_buffer : (fuel : ℕ) → Sleeping → (bh : ℕ) → Device → Option Device
unfolding set_lock
lock_buffer zero o bh d = none
lock_buffer (suc fuel) o bh d =
    let again = lock_buffer fuel o bh (o.sleep_on (for_buffer bh) d) in
    if (d.buffers bh).b_lock then again else some (set_lock bh true d)

-- unlockBuffer, but for its message on a buffer that is not locked
unfoldable pub unlock_buffer : Sleeping → (bh : ℕ) → Device → Device
unfolding set_lock
unlock_buffer o bh d = o.wake_up (for_buffer bh) (set_lock bh false d)

-- the search for a request with a negative `dev`, from the one before `n` down
unfoldable pub slot_below : (n : ℕ) → (ℕ → Request) → Option ℕ
slot_below zero rs = none
slot_below (suc n) rs = if leb (2 ^ 31) (rs n).dev then some n else slot_below n rs

-- READ and WRITE; READA and WRITEA are 2 and 3
abbrev pub is_ahead : ℕ → Bool
is_ahead rw = (rw == 2) || (rw == 3)

abbrev pub without_ahead : ℕ → ℕ
without_ahead rw = if rw == 2 then 0 else if rw == 3 then 1 else rw

-- makeRequest from the label `repeat` on
unfoldable pub request_loop :
    (fuel : ℕ) → Sleeping → (ahead : Bool) → (rw dev block bh : ℕ) → Device → Option Device
unfolding unlock_buffer slot_below take_slot add_request
request_loop zero o ahead rw dev block bh d = none
request_loop (suc fuel) o ahead rw dev block bh d =
    elim (slot_below (if rw == 0 then 32 else 32 * 2 / 3) d.requests) [
      | none ↦
          let again = request_loop fuel o ahead rw dev block bh (o.sleep_on for_request d) in
          if ahead then some (unlock_buffer o bh d) else again
      | some req ↦ add_request fuel req (take_slot req dev rw block bh d)
    ]

-- makeRequest with a command without read-ahead, on the buffer that is locked
unfoldable pub request_locked :
    (fuel : ℕ) → Sleeping → (ahead : Bool) → (rw dev block bh : ℕ) → Device → Option Device
unfolding unlock_buffer request_loop
request_locked fuel o ahead rw dev block bh d =
    let b = d.buffers bh in
    if (rw == 1) && not b.b_dirt || (rw == 0) && b.b_uptodate
    then some (unlock_buffer o bh d)
    else request_loop fuel o ahead rw dev block bh d

-- makeRequest for the buffer `bh`, whose device and block are `dev` and `block`; `none` where it
-- stops for ever or the rounds run out
unfoldable pub make_request : (fuel : ℕ) → Sleeping → (rw dev block bh : ℕ) → Device → Option Device
unfolding lock_buffer request_locked
make_request fuel o rw dev block bh d =
    if is_ahead rw && (d.buffers bh).b_lock
    then some d
    else if ltb 1 (without_ahead rw)
    then none
    else elim (lock_buffer fuel o bh d) [
      | none ↦ none
      | some d₁ ↦ request_locked fuel o (is_ahead rw) (without_ahead rw) dev block bh d₁
    ]

-- ll_rw_block where `has_driver` says which majors have a `request_fn`; the device is that major's
unfoldable pub ll_rw_block :
    (fuel : ℕ) → Sleeping → (has_driver : ℕ → Bool) → (rw dev block bh : ℕ) → Device → Option Device
unfolding make_request
ll_rw_block fuel o has_driver rw dev block bh d =
    if leb 7 (dev / 2 ^ 8) || not (has_driver (dev / 2 ^ 8))
    then some d
    else make_request fuel o rw dev block bh d

-- initBlkDev on the requests and a device
unfoldable pub init_blk_dev : Device → Device
init_blk_dev d = record d {
  requests = λ i.
      if ltb i 32 then record (d.requests i) { dev = 2 ^ 32 - 1; next = none } else d.requests i;
  current_request = none;
}
