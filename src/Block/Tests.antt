-- ===== src/Block/Tests.antt =====
-- The request queue at three requests.
use operator_system.Common.{
  ℕ, zero, suc, ◌≡◌, ◌≢◌, refl, true, false, ◌==◌, ◌-◌, ◌^◌, Option, none, some, [], ◌∷◌, arith,
}
use operator_system.Block.{
  Request, Buffer, Device, put, in_order, end_request, add_request, take_slot,
}
use operator_system.Block.Transfer.{
  Sleeping, set_lock, lock_buffer, unlock_buffer, slot_below, request_loop, request_locked,
  make_request, ll_rw_block,
}
use operator_system.Block.Reuse.{busy, add_request-reused}
use operator_system.Block.Elevator.{AreWords, Added, belongs, elevator, add_request-elevator}

abbrev at_sector : (sector : ℕ) → Option ℕ → Request
at_sector sector next = record {
  dev = 0x300;
  cmd = 0;
  errors = 0;
  sector = sector;
  nr_sectors = 2;
  buffer = 0;
  bh = none;
  next = next;
}

-- sectors 10 and 30 are queued, 20 is not
abbrev three : ℕ → Request
three zero = at_sector 10 (some 1)
three (suc zero) = at_sector 30 none
three (suc (suc i)) = at_sector 20 none

abbrev buffers : ℕ → Buffer
buffers i = record { b_data = 0x200000; b_uptodate = false; b_dirt = true; b_lock = true }

three-AreWords : (i : ℕ) → AreWords (three i)
three-AreWords zero = (omega arith, omega arith, omega arith)
three-AreWords (suc zero) = (omega arith, omega arith, omega arith)
three-AreWords (suc (suc i)) = (omega arith, omega arith, omega arith)

add_request-elevator_example :
    (rs' : ℕ → Request) × (bufs' : ℕ → Buffer) × (add_request 9 2 (busy 0 three buffers 1)
      ≡ some (busy 0 rs' bufs' 1))
    × Added three buffers 2 0 (1 ∷ []) rs' bufs'
add_request-elevator_example =
    add_request-elevator 9 2 0 (1 ∷ []) three buffers 1 (refl, refl) ((omega arith, tt), (tt, tt))
      (omega arith, (omega arith, tt)) three-AreWords (omega arith)

between : elevator three 2 (0 ∷ 1 ∷ []) ≡ 0 ∷ 2 ∷ 1 ∷ []
unfolding elevator belongs
between = refl

add_request-reused_example :
    (d : Device) × (rs' : ℕ → Request) × (bufs' : ℕ → Buffer) × (end_request true
        (busy 0 three buffers 1)
      ≡ some d)
    × (add_request 4 0 (take_slot 0 0x300 0 7 5 d) ≡ some (busy 0 rs' bufs' 1))
    × ((rs' 0).next ≡ some 0)
    × ((rounds req : ℕ)
        → req ≢ 0
        → in_order (record (rs' req) { next = none }) (rs' 0) ≡ false
        → add_request rounds req (busy 0 rs' bufs' 1) ≡ none)
add_request-reused_example = add_request-reused true 3 0 0x300 0 7 5 1 three buffers

abbrev still : Sleeping
still = record { sleep_on = λ q d. d; wake_up = λ q d. d }

-- the request that a call of ll_rw_block on a clean, outdated buffer leaves, and the driver's starts
abbrev sent : Option Device → Option ℕ × ℕ
sent none = (none, 0)
sent (some d) = (d.current_request, d.starts)

abbrev idle_device : Device
idle_device = record {
  requests = λ i. record {
    dev = 2 ^ 32 - 1;
    cmd = 0;
    errors = 0;
    sector = 0;
    nr_sectors = 0;
    buffer = 0;
    bh = none;
    next = none;
  };
  current_request = none;
  buffers = λ i. record { b_data = 0x200000; b_uptodate = false; b_dirt = false; b_lock = false };
  starts = 0;
}

-- a read takes the last of the 32 requests; a write of a clean buffer sends nothing
ll_rw_block-read : sent (ll_rw_block 5 still (λ k. k == 3) 0 0x300 7 36 idle_device) ≡ (some 31, 1)
unfolding ll_rw_block make_request lock_buffer set_lock request_locked request_loop slot_below
    add_request take_slot put
ll_rw_block-read = refl

ll_rw_block-clean : sent (ll_rw_block 5 still (λ k. k == 3) 1 0x300 7 36 idle_device) ≡ (none, 0)
unfolding ll_rw_block make_request lock_buffer set_lock request_locked unlock_buffer put
ll_rw_block-clean = refl
