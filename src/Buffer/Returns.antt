-- ===== src/Buffer/Returns.antt =====
-- What getblk and bread of fs/buffer.c return, whatever other processes do while they sleep.
use mathlib.Core.Path.{subst}
use operator_system.Common.{
  ℕ, zero, suc, ◌^◌, ◌<◌, ◌≡◌, ◌≢◌, refl, inl, inr, Bool, true, false, Option, none, some, ◌==◌,
  if◌then◌else◌, Bool-cases, arith,
}
use operator_system.Buffer.{Cache, Outside, on_free, remove_from_queues, insert_into_queues}
use operator_system.Buffer.Take.{emptied, named, take-named}
use operator_system.Buffer.Cached.{
  Round, repeat, return, bind, is_for, wait_on_buffer, find_buffer, add_user, drop_user, look_up,
  get_hash_table, find_free, flush, take, claim, get_round, getblk,
}

module _ {W : Type 0} where
  -- a head that is not NULL and is named after the device and the block
  abbrev pub IsFor : (dev block : ℕ) → ℕ → Cache W → Type 0
  IsFor dev block bh s = (bh ≢ 0) × ((s.heads bh).b_dev ≡ dev) × ((s.heads bh).b_block_nr ≡ block)

  -- a property of what is returned, if anything is
  abbrev Ensures : (ℕ → Cache W → Type 0) → Option (Round W) → Type 0
  Ensures P none = Unit
  Ensures P (some (repeat s)) = Unit
  Ensures P (some (return bh s)) = P bh s

  abbrev Gives : (ℕ → Cache W → Type 0) → Option (ℕ × Cache W) → Type 0
  Gives P none = Unit
  Gives P (some (bh, s)) = P bh s

  bind-Ensures {ℓ} :
      {A : Type ℓ} (P : ℕ → Cache W → Type 0) (m : Option A) (f : A → Option (Round W))
      → ((a : A) → m ≡ some a → Ensures P (f a))
      → Ensures P (bind m f)
  bind-Ensures P none f h = tt
  bind-Ensures P (some a) f h = h a refl

  if-Ensures :
      (P : ℕ → Cache W → Type 0) (b : Bool) (x y : Option (Round W))
      → (b ≡ true → Ensures P x)
      → (b ≡ false → Ensures P y)
      → Ensures P (if b then x else y)
  if-Ensures P true x y h k = h refl
  if-Ensures P false x y h k = k refl

module _ {W : Type 0} (o : Outside W) (dev block : ℕ) where
  abbrev Hit : ℕ → Cache W → Type 0
  Hit bh s = bh ≢ 0 → IsFor dev block bh s

  is_for-IsFor : (bh : ℕ) (s : Cache W) → is_for (s.heads bh) dev block ≡ true → Hit bh s
  unfolding is_for
  is_for-IsFor bh s h n = (n, ground (arith, h), ground (arith, h))

  look_up-Hit : (fuel : ℕ) (s : Cache W) → Ensures Hit (look_up fuel o dev block s)
  unfolding look_up
  look_up-Hit fuel s = bind-Ensures Hit (find_buffer fuel dev block s) _ (λ bh e.
      if-Ensures Hit (bh == 0) (some (return 0 s)) _ (λ z n. absurd (n refl))
        (λ nz.
          bind-Ensures Hit (wait_on_buffer fuel o bh (add_user bh s)) _ (λ s₁ e₁. tested bh s₁)))
    where
      tested :
          (bh : ℕ) (s₁ : Cache W)
          → Ensures Hit (
              some
                (if is_for (s₁.heads bh) dev block then return bh s₁ else repeat (drop_user bh s₁)))
      tested bh s₁ = elim (Bool-cases (is_for (s₁.heads bh) dev block)) [
        | inl e ↦ rw e (is_for-IsFor bh s₁ e)
        | inr e ↦ rw e tt
      ]

  get_hash_table-Hit : (fuel : ℕ) (s : Cache W) → Gives Hit (get_hash_table fuel o dev block s)
  unfolding get_hash_table
  get_hash_table-Hit zero s = tt
  get_hash_table-Hit (suc fuel) s =
      again (look_up (suc fuel) o dev block s) (look_up-Hit (suc fuel) s) (get_hash_table-Hit fuel)
    where
      again :
          (r : Option (Round W))
          → Ensures Hit r
          → ((s : Cache W) → Gives Hit (get_hash_table fuel o dev block s))
          → Gives Hit (elim r [
            | none ↦ none
            | some (repeat s₁) ↦ get_hash_table fuel o dev block s₁
            | some (return bh s₁) ↦ some (bh, s₁)
          ])
      again none h ih = tt
      again (some (repeat s₁)) h ih = ih s₁
      again (some (return bh s₁)) h ih = h

  module _ (small : dev < 2 ^ 16) where
    take-IsFor : (bh : ℕ) (s : Cache W) → bh ≢ 0 → Ensures (IsFor dev block) (take dev block bh s)
    unfolding take
    take-IsFor bh s n =
        bind-Ensures (IsFor dev block) (remove_from_queues bh (emptied bh s))
          (λ s₁. some (return bh (insert_into_queues bh (named dev block bh s₁))))
          (λ s₁ e. let (d, b) = take-named dev block bh s s₁ in (n, omega (arith, d, small), b))

    claim-IsFor :
        (fuel bh : ℕ) (s : Cache W)
        → bh ≢ 0
        → Ensures (IsFor dev block) (claim fuel o dev block bh s)
    unfolding claim
    claim-IsFor fuel bh s n =
        bind-Ensures (IsFor dev block) (wait_on_buffer fuel o bh s) _ (λ s₁ e₁.
          if-Ensures (IsFor dev block) ((s₁.heads bh).b_count == 0) _ _
            (λ z. bind-Ensures (IsFor dev block) (flush fuel o bh s₁) _ (λ r e₂.
              if-Ensures (IsFor dev block) r.0 _ _ (λ y. tt)
                (λ y. bind-Ensures (IsFor dev block) (find_buffer fuel dev block r.1) _ (λ other e₃.
                  if-Ensures (IsFor dev block) (other == 0) _ _ (λ x. take-IsFor bh r.1 n)
                    (λ x. tt)))))
            (λ z. tt))

    get_round-IsFor :
        (fuel : ℕ) (s : Cache W) → Ensures (IsFor dev block) (get_round fuel o dev block s)
    unfolding get_round
    get_round-IsFor fuel s = looked (get_hash_table fuel o dev block s) (get_hash_table-Hit fuel s)
      where
        looked :
            (m : Option (ℕ × Cache W))
            → Gives Hit m
            → Ensures (IsFor dev block) (
                bind m (λ r.
                  if r.0 == 0
                  then bind (find_free fuel r.1.free_list 0 r.1) (λ bh.
                    if bh == 0
                    then some (repeat (o.sleep_on on_free r.1))
                    else claim fuel o dev block bh r.1)
                  else some (return r.0 r.1)))
        looked none h = tt
        looked (some (bh, s₁)) h =
            if-Ensures (IsFor dev block) (bh == 0) _ _
              (λ z. bind-Ensures (IsFor dev block) (find_free fuel s₁.free_list 0 s₁) _ (λ p e.
                if-Ensures (IsFor dev block) (p == 0) _ _ (λ y. tt)
                  (λ y. claim-IsFor fuel p s₁ (ground (arith, y)))))
              (λ z. h (ground (arith, z)))

    getblk-Gives : (fuel : ℕ) (s : Cache W) → Gives (IsFor dev block) (getblk fuel o dev block s)
    unfolding getblk
    getblk-Gives zero s = tt
    getblk-Gives (suc fuel) s =
        again (get_round (suc fuel) o dev block s) (get_round-IsFor (suc fuel) s)
          (getblk-Gives fuel)
      where
        again :
            (r : Option (Round W))
            → Ensures (IsFor dev block) r
            → ((s : Cache W) → Gives (IsFor dev block) (getblk fuel o dev block s))
            → Gives (IsFor dev block) (elim r [
              | none ↦ none
              | some (repeat s₁) ↦ getblk fuel o dev block s₁
              | some (return bh s₁) ↦ some (bh, s₁)
            ])
        again none h ih = tt
        again (some (repeat s₁)) h ih = ih s₁
        again (some (return bh s₁)) h ih = h

-- Whatever happens in the cache while getblk sleeps, waits for a head or has blocks written, for a
-- device below 2 ^ 16: if it returns, the head is not NULL and is named after the device and the
-- block at that moment.
pub getblk-IsFor :
    {W : Type 0} (o : Outside W) (fuel dev block bh : ℕ) (s s' : Cache W)
    → dev < 2 ^ 16
    → getblk fuel o dev block s ≡ some (bh, s')
    → IsFor dev block bh s'
getblk-IsFor o fuel dev block bh s s' h e =
    subst (Gives (IsFor dev block)) e (getblk-Gives o dev block h fuel s)
