-- ===== src/Block.antt =====
-- kernel/blk_drv/ll_rw_blk.c: the queue of requests to a block device.
pub mod Elevator
pub mod Reuse
pub mod Transfer
mod Tests
use operator_system.Common.{
  ℕ, zero, suc, ◌+◌, ◌-◌, ◌*◌, ◌%◌, ◌^◌, Bool, true, false, not, ◌&&◌, ◌||◌, Option, none, some,
  ltb, ◌==◌, if◌then◌else◌,
}
use operator_system.Common.Int.{ltb_ℤ, signed32}

-- `REQUEST` but for `waiting`; a pointer to a request or to a buffer's head is an index
pub record Request : Type 0 where
  pub dev : ℕ
  pub cmd : ℕ
  pub errors : ℕ
  pub sector : ℕ
  pub nr_sectors : ℕ
  pub buffer : ℕ
  pub bh : Option ℕ
  pub next : Option ℕ

-- what requests use of `BUFFER_HEAD`: the flags and the address of the block
pub record Buffer : Type 0 where
  pub b_data : ℕ
  pub b_uptodate : Bool
  pub b_dirt : Bool
  pub b_lock : Bool

-- REQUEST_INFO, `current_request` of the device, the buffers, and the number of calls of `request_fn`
pub record Device : Type 0 where
  pub requests : ℕ → Request
  pub current_request : Option ℕ
  pub buffers : ℕ → Buffer
  pub starts : ℕ

-- a store through a pointer
unfoldable pub put {ℓ} : {A : Type ℓ} → ℕ → A → (ℕ → A) → ℕ → A
put i a f j = if j == i then a else f j

-- IN_ORDER: `cmd` and `dev` are signed words, `sector` is not
unfoldable pub in_order : Request → Request → Bool
in_order s t =
    ltb_ℤ (signed32 s.cmd) (signed32 t.cmd)
    || (s.cmd == t.cmd)
      && (ltb_ℤ (signed32 s.dev) (signed32 t.dev) || (s.dev == t.dev) && ltb s.sector t.sector)

-- the test in the loop of addRequest
unfoldable pub fits : (tmp req next : Request) → Bool
fits tmp req next = (in_order tmp req || not (in_order tmp next)) && in_order req next

-- The loop of addRequest: the request after which `req` goes; `none` when the rounds run out.
unfoldable pub walk : (fuel : ℕ) → (ℕ → Request) → (req tmp : ℕ) → Option ℕ
unfolding fits
walk zero rs req tmp = none
walk (suc fuel) rs req tmp = elim (rs tmp).next [
  | none ↦ some tmp
  | some n ↦
      let further = walk fuel rs req n in
      if fits (rs tmp) (rs req) (rs n) then some tmp else further
]

-- `req->next = tmp->next; tmp->next = req;`
unfoldable pub link : (req tmp : ℕ) → (ℕ → Request) → ℕ → Request
unfolding put
link req tmp rs =
    let rs' = put req (record (rs req) { next = (rs tmp).next }) rs in
    put tmp (record (rs' tmp) { next = some req }) rs'

-- `if (req->bh) req->bh->b_dirt = 0`
unfoldable pub clean : Option ℕ → (ℕ → Buffer) → ℕ → Buffer
unfolding put
clean none bufs = bufs
clean (some b) bufs = put b (record (bufs b) { b_dirt = false }) bufs

-- makeRequest's stores to the free request `req`, for the buffer `bh` with the block `block`
unfoldable pub take_slot : (req dev cmd block bh : ℕ) → Device → Device
unfolding put
take_slot req dev cmd block bh d = record d {
  requests =
      put req
        (record {
          dev = dev;
          cmd = cmd;
          errors = 0;
          sector = block * 2 % 2 ^ 32;
          nr_sectors = 2;
          buffer = (d.buffers bh).b_data;
          bh = some bh;
          next = none;
        })
        d.requests;
}

-- addRequest
unfoldable pub add_request : (fuel req : ℕ) → Device → Option Device
unfolding walk link clean put
add_request fuel req d =
    let rs = put req (record (d.requests req) { next = none }) d.requests in
    let bufs = clean (rs req).bh d.buffers in
    elim d.current_request [
      | none ↦ some (record {
        requests = rs;
        current_request = some req;
        buffers = bufs;
        starts = d.starts + 1;
      })
      | some c ↦ elim (walk fuel rs req c) [
        | none ↦ none
        | some t ↦ some (record d { requests = link req t rs; buffers = bufs })
      ]
    ]

-- `bh->b_uptodate = uptodate; unlockBuffer(bh)` where there is a buffer
unfoldable pub finish : (uptodate : Bool) → Option ℕ → (ℕ → Buffer) → ℕ → Buffer
unfolding put
finish uptodate none bufs = bufs
finish uptodate (some b) bufs =
    put b (record (bufs b) { b_uptodate = uptodate; b_lock = false }) bufs

-- endRequest, but for the processes that it wakes; `none` stands for no current request, which it
-- reads through NULL. Its last line changes a local variable only.
unfoldable pub end_request : (uptodate : Bool) → Device → Option Device
unfolding finish put
end_request uptodate d = elim d.current_request [
  | none ↦ none
  | some c ↦ some (record d {
    requests = put c (record (d.requests c) { dev = 2 ^ 32 - 1 }) d.requests;
    buffers = finish uptodate (d.requests c).bh d.buffers;
  })
]
