-- ===== src/Buffer/Cached.antt =====
-- The operations of fs/buffer.c on blocks. What they call outside the file is a parameter, and so is
-- what other processes do while one of these sleeps.
use operator_system.Common.{
  ℕ, zero, suc, ◌+◌, ◌%◌, ◌^◌, Bool, true, false, ◌&&◌, ◌||◌, Option, none, some, ltb, ◌==◌,
  if◌then◌else◌,
}
use operator_system.Buffer.{
  Head, Cache, on_buffer, on_free, Outside, head_size, start_buffer_addr, hash_fn, badness,
  set_head, set_count, remove_from_queues, insert_into_queues,
}

-- the next statement, where the one before did not stop for ever
abbrev pub bind {ℓ ℓ'} : {A : Type ℓ} {B : Type ℓ'} → Option A → (A → Option B) → Option B
bind none f = none
bind (some a) f = f a

-- the test of a head for a device and a block
unfoldable pub is_for : Head → (dev block : ℕ) → Bool
is_for h dev block = (h.b_dev == dev) && (h.b_block_nr == block)

-- `tmp` has no user and is better than `bh`, the best so far
unfoldable pub improves : (ℕ → Head) → (tmp bh : ℕ) → Bool
unfolding badness
improves heads tmp bh =
    ((heads tmp).b_count == 0) && ((bh == 0) || ltb (badness (heads tmp)) (badness (heads bh)))

-- `goto repeat` or the next round, or a return with the address of a head or 0
pub data Round (W : Type 0) : Type 0 where
  repeat : Cache W → Round W
  return : ℕ → Cache W → Round W

module _ {W : Type 0} where
  -- waitOnBuffer; the interrupt flag has no state
  unfoldable pub wait_on_buffer : (fuel : ℕ) → Outside W → (bh : ℕ) → Cache W → Option (Cache W)
  wait_on_buffer zero o bh s = none
  wait_on_buffer (suc fuel) o bh s =
      let again = wait_on_buffer fuel o bh (o.sleep_on (on_buffer bh) s) in
      if (s.heads bh).b_lock then again else some s

  -- the loop of findBuffer from `tmp` on
  unfoldable pub find_from : (fuel : ℕ) → (dev block tmp : ℕ) → Cache W → Option ℕ
  find_from zero dev block tmp s = none
  find_from (suc fuel) dev block tmp s =
      let more = find_from fuel dev block (s.heads tmp).b_next s in
      if tmp == 0 then some 0 else if is_for (s.heads tmp) dev block then some tmp else more

  -- findBuffer
  unfoldable pub find_buffer : (fuel : ℕ) → (dev block : ℕ) → Cache W → Option ℕ
  find_buffer fuel dev block s = find_from fuel dev block (s.hash_table (hash_fn dev block)) s

  -- b_count++ and b_count-- on a u_8
  unfoldable pub add_user : (bh : ℕ) → Cache W → Cache W
  add_user bh s = set_count bh (((s.heads bh).b_count + 1) % 2 ^ 8) s

  unfoldable pub drop_user : (bh : ℕ) → Cache W → Cache W
  drop_user bh s = set_count bh (((s.heads bh).b_count + 255) % 2 ^ 8) s

  -- one round of getHashTable
  unfoldable pub look_up : (fuel : ℕ) → Outside W → (dev block : ℕ) → Cache W → Option (Round W)
  look_up fuel o dev block s = bind (find_buffer fuel dev block s) (λ bh.
      if bh == 0
      then some (return 0 s)
      else bind (wait_on_buffer fuel o bh (add_user bh s)) (λ s₁.
        some (if is_for (s₁.heads bh) dev block then return bh s₁ else repeat (drop_user bh s₁))))

  -- getHashTable: the address found, or 0
  unfoldable pub get_hash_table :
      (fuel : ℕ) → Outside W → (dev block : ℕ) → Cache W → Option (ℕ × Cache W)
  get_hash_table zero o dev block s = none
  get_hash_table (suc fuel) o dev block s = elim (look_up (suc fuel) o dev block s) [
    | none ↦ none
    | some (repeat s₁) ↦ get_hash_table fuel o dev block s₁
    | some (return bh s₁) ↦ some (bh, s₁)
  ]

  -- `if (bh->b_dev == dev && bh->b_dirt) ll_rw_block(WRITE, bh)`
  unfoldable pub write_dirty : Outside W → (dev bh : ℕ) → Cache W → Cache W
  write_dirty o dev bh s =
      let h = s.heads bh in if (h.b_dev == dev) && h.b_dirt then o.rw_block true bh s else s

  -- a loop of syncDev over `n` heads from `bh` on
  unfoldable pub sync_loop : (fuel n : ℕ) → Outside W → (dev bh : ℕ) → Cache W → Option (Cache W)
  sync_loop fuel zero o dev bh s = some s
  sync_loop fuel (suc n) o dev bh s =
      bind (if (s.heads bh).b_dev == dev then wait_on_buffer fuel o bh s else some s) (λ s₁.
        sync_loop fuel n o dev (bh + head_size)
          (if (s.heads bh).b_dev == dev then write_dirty o dev bh s₁ else s₁))

  -- syncDev, which returns 0
  unfoldable pub sync_dev : (fuel : ℕ) → Outside W → (dev : ℕ) → Cache W → Option (Cache W)
  sync_dev fuel o dev s = bind (sync_loop fuel s.nr_buffers o dev start_buffer_addr s) (λ s₁.
      bind (o.sync_inodes s₁) (λ s₂. sync_loop fuel s₂.nr_buffers o dev start_buffer_addr s₂))

  -- the choice of a head among those of the free list, from `tmp` on with the best so far
  unfoldable pub find_free : (fuel : ℕ) → (tmp bh : ℕ) → Cache W → Option ℕ
  find_free zero tmp bh s = none
  find_free (suc fuel) tmp bh s =
      let h = s.heads tmp in
      let better = improves s.heads tmp bh in
      let bh' = if better then tmp else bh in
      let more = find_free fuel h.b_next_free bh' s in
      if better && (badness h == 0)
      then some tmp
      else if h.b_next_free == s.free_list
      then some bh'
      else more

  -- `while (bh->b_dirt)`: writing the device of the head; the flag says `goto repeat`
  unfoldable pub flush : (fuel : ℕ) → Outside W → (bh : ℕ) → Cache W → Option (Bool × Cache W)
  flush zero o bh s = none
  flush (suc fuel) o bh s = elim (s.heads bh).b_dirt [
    | false ↦ some (false, s)
    | true ↦ elim (sync_dev fuel o (s.heads bh).b_dev s) [
      | none ↦ none
      | some s₁ ↦ elim (wait_on_buffer fuel o bh s₁) [
        | none ↦ none
        | some s₂ ↦
            let more = flush fuel o bh s₂ in
            if (s₂.heads bh).b_count == 0 then more else some (true, s₂)
      ]
    ]
  ]

  -- the head `bh` taken for the block
  unfoldable pub take : (dev block bh : ℕ) → Cache W → Option (Round W)
  take dev block bh s =
      bind
        (remove_from_queues bh
          (set_head bh (record (s.heads bh) { b_count = 1; b_dirt = false; b_uptodate = false }) s))
        (λ s₁. some (
          return bh (
            insert_into_queues bh (
              set_head bh (record (s₁.heads bh) { b_dev = dev % 2 ^ 16; b_block_nr = block }) s₁))))

  -- getblk from the head `bh` that was chosen
  unfoldable pub claim : (fuel : ℕ) → Outside W → (dev block bh : ℕ) → Cache W → Option (Round W)
  claim fuel o dev block bh s = bind (wait_on_buffer fuel o bh s) (λ s₁.
      if (s₁.heads bh).b_count == 0
      then bind (flush fuel o bh s₁) (λ r.
        if r.0
        then some (repeat r.1)
        else bind (find_buffer fuel dev block r.1)
            (λ other. if other == 0 then take dev block bh r.1 else some (repeat r.1)))
      else some (repeat s₁))

  -- one round of getblk
  unfoldable pub get_round : (fuel : ℕ) → Outside W → (dev block : ℕ) → Cache W → Option (Round W)
  get_round fuel o dev block s = bind (get_hash_table fuel o dev block s) (λ r.
      if r.0 == 0
      then bind (find_free fuel r.1.free_list 0 r.1) (λ bh.
        if bh == 0 then some (repeat (o.sleep_on on_free r.1)) else claim fuel o dev block bh r.1)
      else some (return r.0 r.1))

  -- getblk
  unfoldable pub getblk : (fuel : ℕ) → Outside W → (dev block : ℕ) → Cache W → Option (ℕ × Cache W)
  getblk zero o dev block s = none
  getblk (suc fuel) o dev block s = elim (get_round (suc fuel) o dev block s) [
    | none ↦ none
    | some (repeat s₁) ↦ getblk fuel o dev block s₁
    | some (return bh s₁) ↦ some (bh, s₁)
  ]

  -- brelse; `none` where it stops for ever, on a head that nobody uses
  unfoldable pub brelse : (fuel : ℕ) → Outside W → (buf : ℕ) → Cache W → Option (Cache W)
  brelse fuel o buf s =
      if buf == 0
      then some s
      else bind (wait_on_buffer fuel o buf s) (λ s₁.
        if (s₁.heads buf).b_count == 0 then none else some (o.wake_up on_free (drop_user buf s₁)))

  -- bread: the address of the head, or 0
  unfoldable pub bread : (fuel : ℕ) → Outside W → (dev block : ℕ) → Cache W → Option (ℕ × Cache W)
  bread fuel o dev block s = bind (getblk fuel o dev block s) (λ (bh, s₁).
      if bh == 0
      then none
      else if (s₁.heads bh).b_uptodate
      then some (bh, s₁)
      else bind (wait_on_buffer fuel o bh (o.rw_block false bh s₁)) (λ s₂.
        if (s₂.heads bh).b_uptodate
        then some (bh, s₂)
        else bind (brelse fuel o bh s₂) (λ s₃. some (0, s₃))))
