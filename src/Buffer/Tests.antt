-- ===== src/Buffer/Tests.antt =====
-- A buffer cache with two heads.
use operator_system.Common.{
  ℕ, ◌≡◌, ◌⊎◌, refl, true, false, Option, none, some, List, [], ◌∷◌, ◌++◌, ◌==◌, if◌then◌else◌,
  arith,
}
use operator_system.Buffer.{
  Head, Cache, Outside, on_free, hash_fn, init_buffer, usable, init_loop, close_ring, set_head,
  set_count, set_at,
}
use operator_system.Buffer.Free.{IsRing}
use operator_system.Buffer.Find.{IsChain, look_for}
use operator_system.Buffer.Take.{Taken, take-Taken}
use operator_system.Buffer.Quiet.{Found, getblk-quiet}
use operator_system.Buffer.Returns.{IsFor, getblk-IsFor}
use operator_system.Common.Int.{pos}
use operator_system.Buffer.Init.{Ready, top_of, blocks_of, init_buffer-Ready}
use operator_system.Buffer.Release.{brelse-add_user}
use operator_system.Buffer.Cached.{
  return, is_for, wait_on_buffer, find_from, find_buffer, add_user, look_up, get_hash_table, take,
  get_round, getblk, brelse,
}

abbrev head : (dev block count other : ℕ) → Head
head dev block count other = record {
  b_data = 0x200000;
  b_block_nr = block;
  b_dev = dev;
  b_uptodate = true;
  b_dirt = false;
  b_count = count;
  b_lock = false;
  b_wait = none;
  b_prev = 0;
  b_next = 0;
  b_prev_free = other;
  b_next_free = other;
}

-- the head at 36 holds block 5 of device 0x301 for one user, the head at 72 is free
abbrev two_heads : Cache ℕ
two_heads = record {
  heads = λ x. if x == 36 then head 0x301 5 1 72 else head 0 0 0 36;
  hash_table = λ k. if k == 158 then 36 else 0;
  free_list = 36;
  nr_buffers = 2;
  buffer_wait = none;
  others = 0;
}

-- nothing happens outside
abbrev still : Outside ℕ
still = record {
  sleep_on = λ q s. s;
  wake_up = λ q s. s;
  rw_block = λ w p s. s;
  sync_inodes = λ s. some s;
}

ring : IsRing two_heads (36 ∷ 72 ∷ [])
ring = (refl, (refl, refl, (refl, refl)), omega arith)

chain : IsChain two_heads (two_heads.hash_table (hash_fn 0x301 5)) (36 ∷ [])
unfolding hash_fn
chain = (refl, omega arith, refl)

no_chain : IsChain two_heads (two_heads.hash_table (hash_fn 0x301 9)) []
unfolding hash_fn
no_chain = refl

take-Taken_example :
    (s' : Cache ℕ) × (take 0x301 9 72 two_heads ≡ some (return 72 s'))
    × Taken 0x301 9 72 (36 ∷ 72 ∷ []) s'
take-Taken_example = take-Taken 0x301 9 72 two_heads (36 ∷ []) [] (λ e. cc) (omega arith) ring

getblk-quiet_example :
    (bh : ℕ) × (s' : Cache ℕ) × (getblk 5 still 0x301 9 two_heads ≡ some (bh, s'))
    × ((Found two_heads.heads 0x301 9 bh
          × (bh ≡ look_for two_heads.heads 0x301 9 [])
          × (s' ≡ add_user bh two_heads))
        ⊎ ((look_for two_heads.heads 0x301 9 [] ≡ 0)
            × ((two_heads.heads bh).b_count ≡ 0)
            × (l₁ : List ℕ) × (l₂ : List ℕ) × (36 ∷ 72 ∷ [] ≡ l₁ ++ (bh ∷ l₂))
            × Taken 0x301 9 bh (l₁ ++ (l₂ ++ (bh ∷ []))) s'))
getblk-quiet_example =
    getblk-quiet 5 still 0x301 9 72 two_heads (36 ∷ 72 ∷ []) [] ring (omega arith) (omega arith)
      ((refl, refl), ((refl, refl), tt)) (36 ∷ [], [], refl) refl no_chain tt (omega arith)
      (omega arith)

getblk-hit : getblk 5 still 0x301 5 two_heads ≡ some (36, add_user 36 two_heads)
unfolding getblk get_round get_hash_table look_up find_buffer find_from hash_fn wait_on_buffer
    is_for add_user set_count set_head set_at
getblk-hit = refl

getblk-IsFor_example : IsFor 0x301 5 36 (add_user 36 two_heads)
getblk-IsFor_example =
    getblk-IsFor still 5 0x301 5 36 two_heads (add_user 36 two_heads) (omega arith) getblk-hit

brelse-add_user_example :
    brelse 1 still 36 (add_user 36 two_heads)
    ≡ (if (two_heads.heads 36).b_count == 255 then none else some (still.wake_up on_free two_heads))
brelse-add_user_example = brelse-add_user 0 still 36 two_heads (omega arith) (omega arith) refl

init_buffer-Ready_example :
    (s' : Cache ℕ) × (init_buffer 3000 (pos 0x1000000) two_heads ≡ some s')
    × Ready (top_of 0x1000000) (blocks_of 0x1000000) two_heads s'
init_buffer-Ready_example = init_buffer-Ready 3000 0x1000000 two_heads (omega arith) (omega arith)

abbrev buffers_of : Option (Cache ℕ) → ℕ
buffers_of none = 0
buffers_of (some s) = s.nr_buffers

-- with 4 MB of memory no block is added to the two
init_buffer-small : buffers_of (init_buffer 10 (pos 0x400000) two_heads) ≡ 2
unfolding init_buffer usable init_loop close_ring
init_buffer-small = refl
