-- ===== src/Buffer/Init.antt =====
-- The heads and blocks that initBuffer of fs/buffer.c lays out in memory.

use operator_system.Common.{
  ℕ, ◌+◌, ◌-◌, ◌*◌, ◌/◌, ◌%◌, ◌≤◌, ◌<◌, ◌≡◌, refl, ap, ◌∙◌, false, some, ltb, ◌==◌, if◌then◌else◌,
  arith,
}
use operator_system.Common.Int.{pos}
use operator_system.Buffer.{
  Head, Cache, set_next_free, set_prev_free, start_buffer_addr, nr_hash, set_at, set_head, fresh,
  init_loop, usable, close_ring, init_buffer,
}
use operator_system.Buffer.Free.{next_of, prev_of}
use operator_system.Buffer.Take.{block_of}
use operator_system.Buffer.Layout.{Laid, init_loop-Laid}

module _ {W : Type 0} (h : ℕ) (s : Cache W) where
  close_ring-count : (close_ring h s).nr_buffers ≡ s.nr_buffers
  unfolding close_ring set_next_free set_prev_free set_head
  close_ring-count = refl

  close_ring-first : (close_ring h s).free_list ≡ start_buffer_addr
  unfolding close_ring
  close_ring-first = refl

  close_ring-chains : (k : ℕ) → k < nr_hash → (close_ring h s).hash_table k ≡ 0
  unfolding close_ring
  close_ring-chains k l = ground (arith, l)

module _ {W : Type 0} (h : ℕ) (s : Cache W) (x : ℕ) where
  close_ring-next :
      ((close_ring h s).heads x).b_next_free
      ≡ (if x == h - 36 then start_buffer_addr else (s.heads x).b_next_free)
  unfolding close_ring set_next_free set_prev_free set_head set_at
  close_ring-next = ground arith

  close_ring-prev :
      ((close_ring h s).heads x).b_prev_free
      ≡ (if x == start_buffer_addr then h - 36 else (s.heads x).b_prev_free)
  unfolding close_ring set_next_free set_prev_free set_head set_at
  close_ring-prev = ground arith

  close_ring-block_of : block_of ((close_ring h s).heads x) ≡ block_of (s.heads x)
  unfolding close_ring set_next_free set_prev_free set_head set_at
  close_ring-block_of = ground arith

-- the address of a head
abbrev pub address : ℕ → ℕ
address i = start_buffer_addr + 36 * i

-- a head without users, with the block at `b`
pub record IsFree (b : ℕ) (h : Head) : Type 0 where
  pub place : h.b_data ≡ b
  unused : h.b_count ≡ 0
  unlocked : h.b_lock ≡ false
  clean : h.b_dirt ≡ false
  stale : h.b_uptodate ≡ false
  nameless : h.b_dev ≡ 0

-- `n` heads from START_BUFFER_ADDR up and their blocks from `top` down
pub record Ready {W : Type 0} (top n : ℕ) (s s' : Cache W) : Type 0 where
  pub count : s'.nr_buffers ≡ s.nr_buffers + n
  pub room : address n + 1024 * n ≤ top
  pub full : top < address n + 1024 * n + 1060
  pub each : (i : ℕ) → i < n → IsFree (top - 1024 * (i + 1)) (s'.heads (address i))
  pub first : s'.free_list ≡ address 0
  pub nexts : (i : ℕ) → i < n → next_of s' (address i) ≡ address (if i + 1 == n then 0 else i + 1)
  pub prevs : (i : ℕ) → i < n → prev_of s' (address i) ≡ address (if i == 0 then n - 1 else i - 1)
  pub chains : (k : ℕ) → k < nr_hash → s'.hash_table k ≡ 0

module _ {W : Type 0} (top n : ℕ) (s : Cache W) (out : ℕ × Cache W)
    (v : Laid top start_buffer_addr n s out) where
  fresh-IsFree : (b p : ℕ) (old h : Head) → block_of h ≡ block_of (fresh b p old) → IsFree b h
  unfolding fresh
  fresh-IsFree b p old h e = record {
    place = ap (λ (x : Head). x.b_data) e;
    unused = ap (λ (x : Head). x.b_count) e;
    unlocked = ap (λ (x : Head). x.b_lock) e;
    clean = ap (λ (x : Head). x.b_dirt) e;
    stale = ap (λ (x : Head). x.b_uptodate) e;
    nameless = ap (λ (x : Head). x.b_dev) e;
  }

  laid-next : (i : ℕ) → i < n → next_of out.1 (address i) ≡ address i + 36
  unfolding fresh
  laid-next i l = ap (λ (x : Head). x.b_next_free) (v.at i l)

  laid-prev : (i : ℕ) → i < n → prev_of out.1 (address i) ≡ address i - 36
  unfolding fresh
  laid-prev i l = ap (λ (x : Head). x.b_prev_free) (v.at i l)

  close-Ready :
      address n + 1024 * n ≤ top
      → top < address n + 1024 * n + 1060
      → 0 < n
      → Ready top n s (close_ring out.0 out.1)
  close-Ready lo hi some_head = record {
    count = close_ring-count out.0 out.1 ∙ v.count;
    room = lo;
    full = hi;
    each = λ i l.
        fresh-IsFree _ _ _ _ (close_ring-block_of out.0 out.1 (address i) ∙ ap block_of (v.at i l));
    first = close_ring-first out.0 out.1;
    nexts =
        λ i l. close_ring-next out.0 out.1 (address i) ∙ ground (arith, v.ends, laid-next i l, l);
    prevs =
        λ i l. close_ring-prev out.0 out.1 (address i) ∙ ground (arith, v.ends, laid-prev i l, l);
    chains = λ k l. close_ring-chains out.0 out.1 k l;
  }

-- a quarter of the memory of `m` bytes, at most 60 MB, in whole pages
abbrev pub top_of : ℕ → ℕ
top_of m = let c = if ltb 0x3C00000 m then 0x3C00000 else m in (c - c % 0x1000) / 4

-- how many heads and blocks fit in between START_BUFFER_ADDR and there
abbrev pub blocks_of : ℕ → ℕ
blocks_of m = (top_of m - start_buffer_addr) / 1060

usable-enough :
    (m : ℕ)
    → 0x400000 ≤ m
    → usable (pos m) ≡ some (let c = if ltb 0x3C00000 m then 0x3C00000 else m in c - c % 0x1000)
unfolding usable
usable-enough m h = ground (arith, h)

top-bound : (m : ℕ) → 0x402000 ≤ m → start_buffer_addr + 1060 ≤ top_of m
top-bound m h = ground (arith, h)

init_buffer-step :
    {W : Type 0} (fuel m : ℕ) (s : Cache W) (n : ℕ) (out : ℕ × Cache W)
    → usable (pos m) ≡ some n
    → init_loop fuel (n / 4) start_buffer_addr s ≡ some out
    → init_buffer fuel (pos m) s ≡ some (close_ring out.0 out.1)
unfolding init_buffer
init_buffer-step fuel m s n out u e = rw (init_buffer, u, e) refl

fits :
    (top : ℕ)
    → start_buffer_addr + 1060 ≤ top
    → let n = (top - start_buffer_addr) / 1060 in
      (start_buffer_addr + 1060 * n ≤ top) × (top < start_buffer_addr + 1060 * (n + 1)) × (0 < n)
fits top t = (omega (arith, t), omega (arith, t), omega (arith, t))

-- initBuffer for a memory of at least 4 MB and two pages, with more rounds than blocks fit in: it
-- returns, and has made as many blocks of 1024 bytes as fit with their heads between 1 MB and a
-- quarter of the memory, of which it counts 60 MB at most. The heads lie one after the other from
-- 1 MB up, below all the blocks, and the blocks one after the other from the end down; every head
-- has its block and no users, is unlocked, clean, not up to date and of no device, the free list is
-- the ring of all the heads in their order, and all chains of the hash table are empty.
pub init_buffer-Ready :
    {W : Type 0} (fuel m : ℕ) (s : Cache W)
    → 0x402000 ≤ m
    → blocks_of m < fuel
    → (s' : Cache W) × (init_buffer fuel (pos m) s ≡ some s') × Ready (top_of m) (blocks_of m) s s'
init_buffer-Ready fuel m s h f =
    let top = top_of m in
    let n = blocks_of m in
    let (lo, hi, some_head) = fits top (top-bound m h) in
    let (out, e, v) = init_loop-Laid fuel n top start_buffer_addr s lo hi f in
    (
      close_ring out.0 out.1,
      init_buffer-step fuel m s _ out (usable-enough m (omega (arith, h))) e,
      close-Ready top n s out v (omega (arith, lo)) (omega (arith, hi)) some_head,
    )
