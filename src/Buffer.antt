-- ===== src/Buffer.antt =====
-- fs/buffer.c and include/fs.h: the buffer cache, its heads and its queues. A pointer to a BUFFER_HEAD is its address, and 0 is
-- NULL; `heads` reads the head at an address, the one at NULL too.
pub mod Cached
pub mod Layout
pub mod Init
pub mod Ring
pub mod Free
pub mod Take
pub mod Find
pub mod Quiet
pub mod Returns
pub mod Release
mod Tests
use Prim.Native.Nat.{bit_xor}
use operator_system.Common.{
  ℕ, zero, suc, ◌+◌, ◌-◌, ◌*◌, ◌/◌, ◌%◌, ◌^◌, Bool, true, false, not, ◌&&◌, ◌||◌, Option, none,
  some, ltb, leb, ◌==◌, if◌then◌else◌,
}
use operator_system.Common.Int.{ℤ, pos, negsuc}

-- `BUFFER_HEAD`; `b_wait` is the slot of a process
pub record Head : Type 0 where
  pub b_data : ℕ
  pub b_block_nr : ℕ
  pub b_dev : ℕ
  pub b_uptodate : Bool
  pub b_dirt : Bool
  pub b_count : ℕ
  pub b_lock : Bool
  pub b_wait : Option ℕ
  pub b_prev : ℕ
  pub b_next : ℕ
  pub b_prev_free : ℕ
  pub b_next_free : ℕ

-- The heads, BUFFER_HASH_TABLE, BUFFER_FREE_LIST, NR_BUFFERS, BUFFER_WAIT, and the rest of the
-- machine.
pub record Cache (W : Type 0) : Type 0 where
  pub heads : ℕ → Head
  pub hash_table : ℕ → ℕ
  pub free_list : ℕ
  pub nr_buffers : ℕ
  pub buffer_wait : Option ℕ
  pub others : W

-- The wait queues: `b_wait` of a buffer, BUFFER_WAIT, `i_wait` of an inode and `s_wait` of a super block.
pub data Waiting : Type 0 where
  on_buffer : ℕ → Waiting
  on_free : Waiting
  on_inode : ℕ → Waiting
  on_super : ℕ → Waiting

-- What buffer.c calls: sleepOn with all that happens until the process goes on, wakeUp,
-- ll_rw_block (the flag says WRITE) and syncInodes.
pub record Outside (W : Type 0) : Type 0 where
  pub sleep_on : Waiting → Cache W → Cache W
  pub wake_up : Waiting → Cache W → Cache W
  pub rw_block : Bool → ℕ → Cache W → Cache W
  pub sync_inodes : Cache W → Option (Cache W)

-- BLOCK_SIZE, NR_HASH, START_BUFFER_ADDR, sizeof(BUFFER_HEAD)
abbrev pub block_size : ℕ
block_size = 1024

abbrev pub nr_hash : ℕ
nr_hash = 307

abbrev pub start_buffer_addr : ℕ
start_buffer_addr = 0x100000

abbrev pub head_size : ℕ
head_size = 36

-- _HASHFN, which is shut in the proofs
unfoldable pub hash_fn : (dev block : ℕ) → ℕ
hash_fn dev block = bit_xor dev block % 2 ^ 16 % nr_hash

abbrev pub one : Bool → ℕ
one b = if b then 1 else 0

-- BADNESS
unfoldable pub badness : Head → ℕ
badness h = one h.b_dirt * 2 + one h.b_lock

-- a store to the array of hash chains, or to a head
unfoldable pub set_at {ℓ} : {A : Type ℓ} → ℕ → A → (ℕ → A) → ℕ → A
set_at p a f q = if q == p then a else f q

unfoldable pub set_head : {W : Type 0} → ℕ → Head → Cache W → Cache W
unfolding set_at
set_head p h s = record s { heads = set_at p h s.heads }

unfoldable pub set_next_free : {W : Type 0} → (p v : ℕ) → Cache W → Cache W
unfolding set_head
set_next_free p v s = set_head p (record (s.heads p) { b_next_free = v }) s

unfoldable pub set_prev_free : {W : Type 0} → (p v : ℕ) → Cache W → Cache W
unfolding set_head
set_prev_free p v s = set_head p (record (s.heads p) { b_prev_free = v }) s

unfoldable pub set_next : {W : Type 0} → (p v : ℕ) → Cache W → Cache W
unfolding set_head
set_next p v s = set_head p (record (s.heads p) { b_next = v }) s

unfoldable pub set_prev : {W : Type 0} → (p v : ℕ) → Cache W → Cache W
unfolding set_head
set_prev p v s = set_head p (record (s.heads p) { b_prev = v }) s

unfoldable pub set_count : {W : Type 0} → (p v : ℕ) → Cache W → Cache W
unfolding set_head
set_count p v s = set_head p (record (s.heads p) { b_count = v }) s

-- the head that initBuffer makes at `h` with the block at `b`; its block number is what it was
unfoldable pub fresh : (b h : ℕ) → Head → Head
fresh b h old = record {
  b_data = b;
  b_block_nr = old.b_block_nr;
  b_dev = 0;
  b_uptodate = false;
  b_dirt = false;
  b_count = 0;
  b_lock = false;
  b_wait = none;
  b_prev = 0;
  b_next = 0;
  b_prev_free = h - head_size;
  b_next_free = h + head_size;
}

-- The loop of initBuffer on `b` and `h`; `none` when the rounds run out.
unfoldable pub init_loop : {W : Type 0} → (fuel b h : ℕ) → Cache W → Option (ℕ × Cache W)
unfolding fresh set_head
init_loop zero b h s = none
init_loop (suc fuel) b h s =
    let more =
      init_loop fuel (b - block_size) (h + head_size)
        (record (set_head h (fresh (b - block_size) h (s.heads h)) s) {
          nr_buffers = s.nr_buffers + 1;
        }) in
    if leb (h + head_size) (b - block_size) then more else some (h, s)

-- mem_size as initBuffer uses it; `none` where it stops for ever, below 4 MB
unfoldable pub usable : ℤ → Option ℕ
usable (negsuc n) = none
usable (pos n) =
    let capped = if ltb 0x3C00000 n then 0x3C00000 else n in
    let rounded = capped - capped % 0x1000 in if ltb rounded 0x400000 then none else some rounded

-- the ring of the heads up to the one before `h`, and the empty hash table
unfoldable pub close_ring : {W : Type 0} → (h : ℕ) → Cache W → Cache W
unfolding set_prev_free set_next_free
close_ring h s =
    record (set_next_free (h - head_size) start_buffer_addr
      (set_prev_free start_buffer_addr (h - head_size) s)) {
        free_list = start_buffer_addr;
        buffer_wait = none;
        hash_table = λ k. if ltb k nr_hash then 0 else s.hash_table k;
      }

-- initBuffer
unfoldable pub init_buffer : {W : Type 0} → (fuel : ℕ) → ℤ → Cache W → Option (Cache W)
init_buffer fuel mem_size s = elim (usable mem_size) [
  | none ↦ none
  | some n ↦ elim (init_loop fuel (n / 4) start_buffer_addr s) [
    | none ↦ none
    | some (h, s') ↦ some (close_ring h s')
  ]
]

-- removeFromQueues, the hash queue
unfoldable pub unhash : {W : Type 0} → (bh : ℕ) → Cache W → Cache W
unfolding hash_fn set_prev set_next set_at
unhash bh s =
    let h = s.heads bh in
    let s₁ = if h.b_next == 0 then s else set_prev h.b_next h.b_prev s in
    let h₁ = s₁.heads bh in
    let s₂ = if h₁.b_prev == 0 then s₁ else set_next h₁.b_prev h₁.b_next s₁ in
    let h₂ = s₂.heads bh in
    let k = hash_fn h₂.b_dev h₂.b_block_nr in
    if s₂.hash_table k == bh
    then record s₂ { hash_table = set_at k h₂.b_next s₂.hash_table }
    else s₂

-- removeFromQueues, the free list
unfoldable pub unlink_free : {W : Type 0} → (bh : ℕ) → Cache W → Cache W
unfolding set_prev_free set_next_free
unlink_free bh s =
    let h = s.heads bh in
    let s₁ = set_next_free h.b_prev_free h.b_next_free s in
    let h₁ = s₁.heads bh in
    let s₂ = set_prev_free h₁.b_next_free h₁.b_prev_free s₁ in
    if s₂.free_list == bh then record s₂ { free_list = (s₂.heads bh).b_next_free } else s₂

-- removeFromQueues; `none` where it stops for ever
unfoldable pub remove_from_queues : {W : Type 0} → (bh : ℕ) → Cache W → Option (Cache W)
unfolding unhash unlink_free
remove_from_queues bh s =
    let s₁ = unhash bh s in
    let h = s₁.heads bh in
    if h.b_prev_free == 0 || h.b_next_free == 0 then none else some (unlink_free bh s₁)

-- insertIntoQueues, the free list
unfoldable pub link_free : {W : Type 0} → (bh : ℕ) → Cache W → Cache W
unfolding set_prev_free set_next_free
link_free bh s =
    let s₁ = set_next_free bh s.free_list s in
    let s₂ = set_prev_free bh (s₁.heads s₁.free_list).b_prev_free s₁ in
    let s₃ = set_next_free (s₂.heads s₂.free_list).b_prev_free bh s₂ in
    set_prev_free s₃.free_list bh s₃

-- insertIntoQueues, the hash queue; the last store goes through NULL where the chain was empty
unfoldable pub enhash : {W : Type 0} → (bh : ℕ) → Cache W → Cache W
unfolding hash_fn set_prev set_next set_at
enhash bh s =
    let s₁ = set_next bh 0 (set_prev bh 0 s) in
    let h = s₁.heads bh in
    let k = hash_fn h.b_dev h.b_block_nr in
    let s₂ = set_next bh (s₁.hash_table k) s₁ in
    let s₃ = record s₂ { hash_table = set_at k bh s₂.hash_table } in
    if h.b_dev == 0 then s₁ else set_prev (s₃.heads bh).b_next bh s₃

-- insertIntoQueues
unfoldable pub insert_into_queues : {W : Type 0} → (bh : ℕ) → Cache W → Cache W
unfolding link_free enhash
insert_into_queues bh s = enhash bh (link_free bh s)
