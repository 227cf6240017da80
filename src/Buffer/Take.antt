-- ===== src/Buffer/Take.antt =====
-- The end of getblk of fs/buffer.c, where a head is taken for a block and moved in the queues.
use mathlib.Core.Path.{subst}
use mathlib.Core.List.{append_assoc}
use operator_system.Common.{
  ℕ, ◌%◌, ◌^◌, ◌≡◌, ◌≢◌, refl, sym, ap, ◌∙◌, false, some, List, [], ◌∷◌, ◌++◌, All, arith,
}
use operator_system.Buffer.{
  Head, Cache, set_at, set_head, set_next, set_prev, set_next_free, set_prev_free, unhash, enhash,
  unlink_free, link_free, remove_from_queues, insert_into_queues,
}
use operator_system.Buffer.Ring.{
  Linked, NotIn, Distinct, Linked-frame, Linked-split, prev-NotIn, NotIn-append, Distinct-append,
}
use operator_system.Buffer.Free.{next_of, prev_of, IsRing, IsRing-unlink_free, IsRing-link_free}
use operator_system.Buffer.Cached.{return, take}

-- a head without its links, which the queues do not touch
abbrev pub block_of : Head → Head
block_of h = record h { b_prev = 0; b_next = 0; b_prev_free = 0; b_next_free = 0 }

-- what the hash queues do not touch of the free list
record SameRing {W : Type 0} (s s' : Cache W) : Type 0 where
  first : s'.free_list ≡ s.free_list
  nexts : (x : ℕ) → next_of s' x ≡ next_of s x
  prevs : (x : ℕ) → prev_of s' x ≡ prev_of s x

IsRing-frame : {W : Type 0} (s s' : Cache W) (l : List ℕ) → SameRing s s' → IsRing s l → IsRing s' l
IsRing-frame s s' [] a h = h
IsRing-frame s s' (f ∷ l) a (e, k, d) = (
  a.first ∙ e,
  Linked-frame (next_of s) (prev_of s) (next_of s') (prev_of s') f f l (a.nexts f) (each a.nexts l)
      (each a.prevs l) (a.prevs f) k,
  d,
)
  where
    each : {g g' : ℕ → ℕ} → ((x : ℕ) → g x ≡ g' x) → (l : List ℕ) → All (λ x. g x ≡ g' x) l
    each h [] = tt
    each h (x ∷ l) = (h x, each h l)

module _ {W : Type 0} (bh : ℕ) (s : Cache W) where
  unhash-SameRing : SameRing s (unhash bh s)
  unfolding unhash set_prev set_next set_head set_at
  unhash-SameRing = record {
    first = ground arith;
    nexts = λ x. ground arith;
    prevs = λ x. ground arith;
  }

  enhash-SameRing : SameRing s (enhash bh s)
  unfolding enhash set_prev set_next set_head set_at
  enhash-SameRing = record {
    first = ground arith;
    nexts = λ x. ground arith;
    prevs = λ x. ground arith;
  }

  unhash-block_of : (x : ℕ) → block_of ((unhash bh s).heads x) ≡ block_of (s.heads x)
  unfolding unhash set_prev set_next set_head set_at
  unhash-block_of x = ground arith

  enhash-block_of : (x : ℕ) → block_of ((enhash bh s).heads x) ≡ block_of (s.heads x)
  unfolding enhash set_prev set_next set_head set_at
  enhash-block_of x = ground arith

  unlink_free-block_of : (x : ℕ) → block_of ((unlink_free bh s).heads x) ≡ block_of (s.heads x)
  unfolding unlink_free set_prev_free set_next_free set_head set_at
  unlink_free-block_of x = ground arith

  link_free-block_of : (x : ℕ) → block_of ((link_free bh s).heads x) ≡ block_of (s.heads x)
  unfolding link_free set_prev_free set_next_free set_head set_at
  link_free-block_of x = ground arith

-- the neighbours of a head in a ring without the address 0
neighbours :
    {W : Type 0} (bh : ℕ) (s : Cache W) (l₁ l₂ : List ℕ)
    → NotIn 0 (l₁ ++ (bh ∷ l₂))
    → IsRing s (l₁ ++ (bh ∷ l₂))
    → (prev_of s bh ≢ 0) × (next_of s bh ≢ 0)
neighbours bh s [] [] z (e, (n, p), d) = (λ q. z.0 (sym q ∙ p), λ q. z.0 (sym q ∙ n))
neighbours bh s [] (y ∷ r) (z, zs) (e, (n, p, k), d) =
    (λ q. prev-NotIn (next_of s) (prev_of s) y bh 0 r k zs (sym q), λ q. zs.0 (sym q ∙ n))
neighbours bh s (a ∷ l₁) l₂ (z, zs) (e, k, d) =
    let (g, f) = Linked-split (next_of s) (prev_of s) a bh a l₁ l₂ k in
    let (z₁, (_, z₂)) = NotIn-append 0 l₁ (bh ∷ l₂) zs in
    (λ q. prev-NotIn (next_of s) (prev_of s) a bh 0 l₁ g (z, z₁) (sym q), next_there l₂ z₂ f)
  where
    next_there :
        (l₂ : List ℕ) → NotIn 0 l₂ → Linked (next_of s) (prev_of s) bh l₂ a → next_of s bh ≢ 0
    next_there [] z₂ (n, _) q = z (sym q ∙ n)
    next_there (y ∷ r) (z₂, _) (n, _, _) q = z₂ (sym q ∙ n)

NotIn-join : (a : ℕ) (l₁ l₂ : List ℕ) → NotIn a l₁ → NotIn a l₂ → NotIn a (l₁ ++ l₂)
NotIn-join a [] l₂ h k = k
NotIn-join a (x ∷ l₁) l₂ (e, h) k = (e, NotIn-join a l₁ l₂ h k)

without : (bh : ℕ) (l₁ l₂ : List ℕ) → Distinct (l₁ ++ (bh ∷ l₂)) → NotIn bh (l₁ ++ l₂)
without bh l₁ l₂ d =
    let (_, (n₂, _), (n₁, _)) = Distinct-append l₁ (bh ∷ l₂) d in NotIn-join bh l₁ l₂ n₁ n₂

ring-Distinct : {W : Type 0} (s : Cache W) (l : List ℕ) → IsRing s l → Distinct l
ring-Distinct s [] h = tt
ring-Distinct s (f ∷ l) (e, k, d) = d

IsRing-requeue :
    {W : Type 0} (bh : ℕ) (s : Cache W) (l₁ l₂ : List ℕ)
    → l₁ ++ l₂ ≢ []
    → IsRing s (l₁ ++ (bh ∷ l₂))
    → (s₁ : Cache W) → SameRing (unlink_free bh (unhash bh s)) s₁
    → IsRing (insert_into_queues bh s₁) (l₁ ++ (l₂ ++ (bh ∷ [])))
unfolding insert_into_queues
IsRing-requeue bh s l₁ l₂ ne h s₁ a =
    let r = IsRing-frame s (unhash bh s) (l₁ ++ (bh ∷ l₂)) (unhash-SameRing bh s) h in
    let r₁ =
      IsRing-frame (unlink_free bh (unhash bh s)) s₁ (l₁ ++ l₂) a
        (IsRing-unlink_free bh (unhash bh s) l₁ l₂ ne r) in
    let r₂ = IsRing-link_free bh s₁ (l₁ ++ l₂) (without bh l₁ l₂ (ring-Distinct s _ h)) r₁ in
    IsRing-frame (link_free bh s₁) (enhash bh (link_free bh s₁)) _
      (enhash-SameRing bh (link_free bh s₁))
      (subst (IsRing (link_free bh s₁)) (append_assoc l₁ l₂ (bh ∷ [])) r₂)

-- a head that has been taken for a block, and the ring
pub record Taken {W : Type 0} (dev block bh : ℕ) (ring : List ℕ) (s' : Cache W) : Type 0 where
  is_ring : IsRing s' ring
  for_dev : (s'.heads bh).b_dev ≡ dev % 2 ^ 16
  for_block : (s'.heads bh).b_block_nr ≡ block
  count : (s'.heads bh).b_count ≡ 1
  clean : (s'.heads bh).b_dirt ≡ false
  stale : (s'.heads bh).b_uptodate ≡ false

abbrev pub emptied : {W : Type 0} → ℕ → Cache W → Cache W
emptied bh s =
    set_head bh (record (s.heads bh) { b_count = 1; b_dirt = false; b_uptodate = false }) s

abbrev pub named : {W : Type 0} → (dev block bh : ℕ) → Cache W → Cache W
named dev block bh s =
    set_head bh (record (s.heads bh) { b_dev = dev % 2 ^ 16; b_block_nr = block }) s

abbrev pub named_in : (dev block : ℕ) → Head → Head
named_in dev block h = record h { b_dev = dev % 2 ^ 16; b_block_nr = block }

module _ {W : Type 0} (dev block bh : ℕ) (s : Cache W) where
  emptied-SameRing : SameRing s (emptied bh s)
  unfolding set_head set_at
  emptied-SameRing = record { first = refl; nexts = λ x. ground arith; prevs = λ x. ground arith }

  named-SameRing : SameRing s (named dev block bh s)
  unfolding set_head set_at
  named-SameRing = record { first = refl; nexts = λ x. ground arith; prevs = λ x. ground arith }

  emptied-head :
      (emptied bh s).heads bh
      ≡ record (s.heads bh) { b_count = 1; b_dirt = false; b_uptodate = false }
  unfolding set_head set_at
  emptied-head = ground arith

  named-head :
      (named dev block bh s).heads bh
      ≡ record (s.heads bh) { b_dev = dev % 2 ^ 16; b_block_nr = block }
  unfolding set_head set_at
  named-head = ground arith

  remove-some :
      prev_of (unhash bh s) bh ≢ 0
      → next_of (unhash bh s) bh ≢ 0
      → remove_from_queues bh s ≡ some (unlink_free bh (unhash bh s))
  unfolding remove_from_queues
  remove-some p n = ground (arith, p, n)

-- getblk's last part for a head of the free list that is not alone in it, with no head at NULL: it
-- returns this head, with one user, clean, not up to date and named after the device and the
-- block; the free list is again a ring, of the same heads, with this head moved to the end.
pub take-Taken :
    {W : Type 0} (dev block bh : ℕ) (s : Cache W) (l₁ l₂ : List ℕ)
    → l₁ ++ l₂ ≢ []
    → NotIn 0 (l₁ ++ (bh ∷ l₂))
    → IsRing s (l₁ ++ (bh ∷ l₂))
    → (s' : Cache W) × (take dev block bh s ≡ some (return bh s'))
      × Taken dev block bh (l₁ ++ (l₂ ++ (bh ∷ []))) s'
unfolding take insert_into_queues enhash
take-Taken {W} dev block bh s l₁ l₂ ne z h =
    let l = l₁ ++ (bh ∷ l₂) in
    let s₀ = emptied bh s in
    let h₀ = IsRing-frame s s₀ l (emptied-SameRing dev block bh s) h in
    let h₁ = IsRing-frame s₀ (unhash bh s₀) l (unhash-SameRing bh s₀) h₀ in
    let (p, n) = neighbours bh (unhash bh s₀) l₁ l₂ z h₁ in
    let s₁ = unlink_free bh (unhash bh s₀) in
    let s₂ = named dev block bh s₁ in
    let s₃ = insert_into_queues bh s₂ in
    let kept =
      enhash-block_of bh (link_free bh s₂) bh
      ∙ link_free-block_of bh s₂ bh
      ∙ ap block_of (named-head dev block bh s₁) in
    let kept₁ =
      unlink_free-block_of bh (unhash bh s₀) bh
      ∙ unhash-block_of bh s₀ bh
      ∙ ap block_of (emptied-head dev block bh s) in
    (
      s₃,
      rw (remove-some dev block bh s₀ p n) refl,
      record {
        is_ring = IsRing-requeue bh s₀ l₁ l₂ ne h₀ s₂ (named-SameRing dev block bh s₁);
        for_dev = ap (λ (x : Head). x.b_dev) kept;
        for_block = ap (λ (x : Head). x.b_block_nr) kept;
        count = ap (λ (x : Head). x.b_count) (kept ∙ ap (named_in dev block) kept₁);
        clean = ap (λ (x : Head). x.b_dirt) (kept ∙ ap (named_in dev block) kept₁);
        stale = ap (λ (x : Head). x.b_uptodate) (kept ∙ ap (named_in dev block) kept₁);
      },
    )

-- a head that take returns is named after the device and the block
pub take-named :
    {W : Type 0} (dev block bh : ℕ) (s s₁ : Cache W)
    → let s₃ = insert_into_queues bh (named dev block bh s₁) in
      ((s₃.heads bh).b_dev ≡ dev % 2 ^ 16) × ((s₃.heads bh).b_block_nr ≡ block)
unfolding insert_into_queues enhash
take-named dev block bh s s₁ =
    let s₂ = named dev block bh s₁ in
    let kept =
      enhash-block_of bh (link_free bh s₂) bh
      ∙ link_free-block_of bh s₂ bh
      ∙ ap block_of (named-head dev block bh s₁) in
    (ap (λ (x : Head). x.b_dev) kept, ap (λ (x : Head). x.b_block_nr) kept)
