-- ===== src/Buffer/Quiet.antt =====
-- getblk of fs/buffer.c on a cache where nothing is locked or has to be written.
use mathlib.Core.Path.{subst}
use operator_system.Common.{
  ℕ, zero, suc, ◌≤◌, ◌<◌, ◌≡◌, ◌≢◌, refl, ◌∙◌, ◌⊎◌, inl, inr, true, false, some, List, [], ◌∷◌,
  ◌++◌, ◌==◌, length, All, Bool-cases, arith,
}
use operator_system.Buffer.{Head, Cache, Outside, badness, hash_fn, set_head, set_count, set_at}
use operator_system.Buffer.Ring.{NotIn}
use operator_system.Buffer.Free.{IsRing}
use operator_system.Buffer.Find.{IsChain, look_for, find_buffer-look_for, Within, find_free-least}
use operator_system.Buffer.Take.{Taken, take-Taken}
use operator_system.Buffer.Cached.{
  is_for, return, wait_on_buffer, add_user, look_up, get_hash_table, find_free, flush, claim, take,
  get_round, getblk,
}

module _ {W : Type 0} (o : Outside W) where
  pub wait-unlocked :
      (fuel bh : ℕ) (s : Cache W)
      → (s.heads bh).b_lock ≡ false
      → wait_on_buffer (suc fuel) o bh s ≡ some s
  unfolding wait_on_buffer
  wait-unlocked fuel bh s h = rw h refl

  flush-clean :
      (fuel bh : ℕ) (s : Cache W)
      → (s.heads bh).b_dirt ≡ false
      → flush (suc fuel) o bh s ≡ some (false, s)
  unfolding flush
  flush-clean fuel bh s h = rw (h, flush) refl

-- what the search in a chain of unlocked heads finds
pub record Found (heads : ℕ → Head) (dev block p : ℕ) : Type 0 where
  there : p ≢ 0
  named : is_for (heads p) dev block ≡ true
  unlocked : (heads p).b_lock ≡ false

abbrev pub Unlocked : (ℕ → Head) → List ℕ → Type 0
Unlocked heads l = All (λ x. (heads x).b_lock ≡ false) l

look_for-Found :
    {W : Type 0} (s : Cache W) (dev block p : ℕ) (c : List ℕ)
    → IsChain s p c
    → Unlocked s.heads c
    → (look_for s.heads dev block c ≡ 0) ⊎ Found s.heads dev block (look_for s.heads dev block c)
unfolding look_for
look_for-Found s dev block p [] h u = inl refl
look_for-Found s dev block p (x ∷ c) (e, z, h) (u, us) =
    elim (Bool-cases (is_for (s.heads x) dev block)) [
      | inl e ↦ rw e (inr (record { there = z; named = e; unlocked = u }))
      | inr e ↦ rw e (look_for-Found s dev block (s.heads x).b_next c h us)
    ]

pub not_null : (p : ℕ) → p ≢ 0 → (p == 0) ≡ false
not_null p n = ground (arith, n)

pub add_user-unlocked :
    {W : Type 0} (p : ℕ) (s : Cache W)
    → (s.heads p).b_lock ≡ false
    → ((add_user p s).heads p).b_lock ≡ false
unfolding add_user set_count set_head set_at
add_user-unlocked p s h = ground (arith, h)

add_user-named :
    {W : Type 0} (p dev block : ℕ) (s : Cache W)
    → is_for (s.heads p) dev block ≡ true
    → is_for ((add_user p s).heads p) dev block ≡ true
unfolding add_user set_count set_head set_at is_for
add_user-named p dev block s h = ground (arith, h)

module _ {W : Type 0} (o : Outside W) (fuel dev block : ℕ) (s : Cache W) (c : List ℕ)
    (h : IsChain s (s.hash_table (hash_fn dev block)) c) (f : length c < suc fuel) where
  look_up-hit :
      Found s.heads dev block (look_for s.heads dev block c)
      → let p = look_for s.heads dev block c in
        look_up (suc fuel) o dev block s ≡ some (return p (add_user p s))
  unfolding look_up
  look_up-hit k =
      let p = look_for s.heads dev block c in
      rw
        (
          find_buffer-look_for (suc fuel) dev block s c h f,
          not_null p k.there,
          wait-unlocked o fuel p (add_user p s) (add_user-unlocked p s k.unlocked),
          add_user-named p dev block s k.named,
        )
        refl

  look_up-miss :
      look_for s.heads dev block c ≡ 0 → look_up (suc fuel) o dev block s ≡ some (return 0 s)
  unfolding look_up
  look_up-miss e = rw (find_buffer-look_for (suc fuel) dev block s c h f, e) refl

  get_hash_table-hit :
      Found s.heads dev block (look_for s.heads dev block c)
      → let p = look_for s.heads dev block c in
        get_hash_table (suc fuel) o dev block s ≡ some (p, add_user p s)
  unfolding get_hash_table
  get_hash_table-hit k = rw (get_hash_table, look_up-hit k) refl

  get_hash_table-miss :
      look_for s.heads dev block c ≡ 0 → get_hash_table (suc fuel) o dev block s ≡ some (0, s)
  unfolding get_hash_table
  get_hash_table-miss e = rw (get_hash_table, look_up-miss e) refl

  hit :
      Found s.heads dev block (look_for s.heads dev block c)
      → let p = look_for s.heads dev block c in
        get_round (suc fuel) o dev block s ≡ some (return p (add_user p s))
  unfolding get_round
  hit k = rw (get_hash_table-hit k, not_null (look_for s.heads dev block c) k.there) refl

  claim-take :
      (bh : ℕ)
      → look_for s.heads dev block c ≡ 0
      → (s.heads bh).b_lock ≡ false
      → (s.heads bh).b_dirt ≡ false
      → (s.heads bh).b_count ≡ 0
      → claim (suc fuel) o dev block bh s ≡ take dev block bh s
  unfolding claim
  claim-take bh e lock dirt count =
      rw
        (
          wait-unlocked o fuel bh s lock,
          count,
          flush-clean o fuel bh s dirt,
          find_buffer-look_for (suc fuel) dev block s c h f,
          e,
        )
        refl

  miss :
      (bh : ℕ)
      → look_for s.heads dev block c ≡ 0
      → find_free (suc fuel) s.free_list 0 s ≡ some bh
      → bh ≢ 0
      → (s.heads bh).b_lock ≡ false
      → (s.heads bh).b_dirt ≡ false
      → (s.heads bh).b_count ≡ 0
      → get_round (suc fuel) o dev block s ≡ take dev block bh s
  unfolding get_round
  miss bh e p n lock dirt count =
      rw (get_hash_table-miss e, p, not_null bh n, claim-take bh e lock dirt count) refl

-- nothing to wait for and nothing to write
abbrev pub IsQuiet : Head → Type 0
IsQuiet h = (h.b_lock ≡ false) × (h.b_dirt ≡ false)

All-append {ℓ} : (P : ℕ → Type ℓ) (l₁ l₂ : List ℕ) → All P (l₁ ++ l₂) → All P l₂
All-append P [] l₂ h = h
All-append P (x ∷ l₁) l₂ (_, h) = All-append P l₁ l₂ h

Within-All {ℓ} : (P : ℕ → Type ℓ) (x : ℕ) (l : List ℕ) → Within x l → All P l → P x
Within-All P x l (l₁, l₂, e) h = (All-append P l₁ (x ∷ l₂) (subst (All P) e h)).0

two_left : (x : ℕ) (l₁ l₂ : List ℕ) → 1 < length (l₁ ++ (x ∷ l₂)) → l₁ ++ l₂ ≢ []
two_left x [] [] h e = absurd (omega (arith, h))
two_left x [] (y ∷ l₂) h e = cc
two_left x (y ∷ l₁) l₂ h e = cc

getblk-round :
    {W : Type 0} (fuel : ℕ) (o : Outside W) (dev block bh : ℕ) (s s' : Cache W)
    → get_round (suc fuel) o dev block s ≡ some (return bh s')
    → getblk (suc fuel) o dev block s ≡ some (bh, s')
unfolding getblk
getblk-round fuel o dev block bh s s' e = rw (getblk, e) refl

-- getblk with any outside, on a cache whose free list is a ring of two heads or more at `l`, none at
-- NULL, locked or dirty and one at least without users, with more rounds than heads in `l` and in
-- the chain `c` of the block's hash value, none of which is locked: it returns. If a head of the
-- chain is named after the block, it returns the first one, with its count of users raised by one.
-- If none is, it returns a head of the ring that had no users, now with one user, clean, not up to
-- date and named after the block, and the ring has this head at its end.
pub getblk-quiet :
    {W : Type 0} (fuel : ℕ) (o : Outside W) (dev block x : ℕ) (s : Cache W) (l c : List ℕ)
    → IsRing s l
    → NotIn 0 l
    → 1 < length l
    → All (λ p. IsQuiet (s.heads p)) l
    → Within x l
    → (s.heads x).b_count ≡ 0
    → IsChain s (s.hash_table (hash_fn dev block)) c
    → Unlocked s.heads c
    → length l < fuel
    → length c < fuel
    → (bh : ℕ) × (s' : Cache W) × (getblk fuel o dev block s ≡ some (bh, s'))
      × ((Found s.heads dev block bh × (bh ≡ look_for s.heads dev block c) × (s' ≡ add_user bh s))
          ⊎ ((look_for s.heads dev block c ≡ 0)
              × ((s.heads bh).b_count ≡ 0)
              × (l₁ : List ℕ) × (l₂ : List ℕ) × (l ≡ l₁ ++ (bh ∷ l₂))
              × Taken dev block bh (l₁ ++ (l₂ ++ (bh ∷ []))) s'))
getblk-quiet zero o dev block x s l c r z two q w u h ul fl fc = absurd (omega (arith, fl))
getblk-quiet {W} (suc fuel) o dev block x s l c r z two q w u h ul fl fc =
    elim (look_for-Found s dev block _ c h ul) [
      | inr k ↦
          let p = look_for s.heads dev block c in
          (
            p,
            add_user p s,
            getblk-round fuel o dev block p s _ (hit o fuel dev block s c h fc k),
            inl (k, refl, refl),
          )
      | inl none_there ↦
          let (bh, e, found, least) = find_free-least (suc fuel) s l r z fl in
          let (n, _) =
            Within-All
              (λ y.
                (s.heads y).b_count ≡ 0 → (bh ≢ 0) × (badness (s.heads bh) ≤ badness (s.heads y)))
              x l w least u in
          elim found [
            | inl null ↦ absurd (n null)
            | inr ((l₁, l₂, split), count) ↦
                let (lock, dirt) = Within-All (λ y. IsQuiet (s.heads y)) bh l (l₁, l₂, split) q in
                let (s', go, t) =
                  take-Taken dev block bh s l₁ l₂
                    (two_left bh l₁ l₂ (subst (λ (y : List ℕ). 1 < length y) split two))
                    (subst (NotIn 0) split z) (subst (IsRing s) split r) in
                let m = miss o fuel dev block s c h fc bh none_there e n lock dirt count in
                (
                  bh,
                  s',
                  getblk-round fuel o dev block bh s s' (m ∙ go),
                  inr (none_there, count, l₁, l₂, split, t),
                )
          ]
    ]
