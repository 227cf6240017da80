-- ===== src/Buffer/Free.antt =====
-- removeFromQueues and insertIntoQueues of fs/buffer.c on the free list.
use mathlib.Core.Path.{subst}
use mathlib.Core.Bool.{false≢true}
use mathlib.Core.List.{append-nil}
use operator_system.Common.{
  ℕ, ◌≡◌, ◌≢◌, refl, sym, ◌∙◌, true, false, List, [], ◌∷◌, ◌++◌, ◌==◌, if◌then◌else◌, All, arith,
}
use operator_system.Buffer.{
  Cache, set_at, set_head, set_next_free, set_prev_free, unlink_free, link_free,
}
use operator_system.Buffer.Ring.{
  Linked, NotIn, Distinct, Unlinked, Linked-append, NotIn-append, Distinct-append, Linked-split,
  prev-NotIn, relink, unlink,
}

abbrev pub next_of : {W : Type 0} → Cache W → ℕ → ℕ
next_of s x = (s.heads x).b_next_free

abbrev pub prev_of : {W : Type 0} → Cache W → ℕ → ℕ
prev_of s x = (s.heads x).b_prev_free

-- The free list is the ring of the heads at the addresses `l`.
abbrev pub IsRing : {W : Type 0} → Cache W → List ℕ → Type 0
IsRing s [] = true ≡ false
IsRing s (f ∷ l) = (s.free_list ≡ f) × Linked (next_of s) (prev_of s) f l f × Distinct (f ∷ l)

unlink_free-Unlinked :
    {W : Type 0} (bh : ℕ) (s : Cache W)
    → bh ≢ prev_of s bh
    → Unlinked (next_of s) (prev_of s) (next_of (unlink_free bh s)) (prev_of (unlink_free bh s)) bh
unfolding unlink_free set_prev_free set_next_free set_head set_at
unlink_free-Unlinked bh s h = record {
  nexts = λ x. ground (arith, h);
  prevs = λ x. ground (arith, h);
}

free_list-unlink_free :
    {W : Type 0} (bh : ℕ) (s : Cache W)
    → bh ≢ prev_of s bh
    → (unlink_free bh s).free_list ≡ (if s.free_list == bh then next_of s bh else s.free_list)
unfolding unlink_free set_prev_free set_next_free set_head set_at
free_list-unlink_free bh s h = ground (arith, h)

Distinct-snoc : (l : List ℕ) (x : ℕ) → NotIn x l → Distinct l → Distinct (l ++ (x ∷ []))
Distinct-snoc [] x n d = (tt, tt)
Distinct-snoc (y ∷ l) x (e, n) (h, d) = (NotIn-snoc y l x h (λ p. e (sym p)), Distinct-snoc l x n d)
  where
    NotIn-snoc : (y : ℕ) (l : List ℕ) (x : ℕ) → NotIn y l → y ≢ x → NotIn y (l ++ (x ∷ []))
    NotIn-snoc y [] x h e = (e, tt)
    NotIn-snoc y (z ∷ l) x (h, hs) e = (h, NotIn-snoc y l x hs e)

Distinct-rotate : (x : ℕ) (l : List ℕ) → Distinct (x ∷ l) → Distinct (l ++ (x ∷ []))
Distinct-rotate x l (n, d) = Distinct-snoc l x n d

-- the ring from its second head on
IsRing-rotate :
    (next prev : ℕ → ℕ) (x y : ℕ) (l : List ℕ)
    → Linked next prev x (y ∷ l) x
    → Linked next prev y (l ++ (x ∷ [])) y
IsRing-rotate next prev x y l (e, f, k) = Linked-append next prev y x y l [] k (e, f)

drop_head : (x : ℕ) (l₁ l₂ : List ℕ) → Distinct (l₁ ++ (x ∷ l₂)) → Distinct (l₁ ++ l₂)
drop_head x [] l₂ (n, d) = d
drop_head x (y ∷ l₁) l₂ (n, d) = (NotIn-drop y l₁ n, drop_head x l₁ l₂ d)
  where
    NotIn-drop : (y : ℕ) (l₁ : List ℕ) → NotIn y (l₁ ++ (x ∷ l₂)) → NotIn y (l₁ ++ l₂)
    NotIn-drop y [] (h, hs) = hs
    NotIn-drop y (z ∷ l₁) (h, hs) = (h, NotIn-drop y l₁ hs)

-- a head is not its own neighbour in a ring of two or more
prev_other :
    (next prev : ℕ → ℕ) (a bh : ℕ) (l₁ l₂ : List ℕ)
    → Distinct (a ∷ (l₁ ++ (bh ∷ l₂)))
    → Linked next prev a (l₁ ++ (bh ∷ l₂)) a
    → bh ≢ prev bh
prev_other next prev a bh l₁ l₂ d h =
    let (g, _) = Linked-split next prev a bh a l₁ l₂ h in
    let (_, _, (n, _)) = Distinct-append (a ∷ l₁) (bh ∷ l₂) d in prev-NotIn next prev a bh bh l₁ g n

pub IsRing-unlink_free :
    {W : Type 0} (bh : ℕ) (s : Cache W) (l₁ l₂ : List ℕ)
    → l₁ ++ l₂ ≢ []
    → IsRing s (l₁ ++ (bh ∷ l₂))
    → IsRing (unlink_free bh s) (l₁ ++ l₂)
IsRing-unlink_free bh s [] [] ne h = absurd (ne refl)
IsRing-unlink_free bh s [] (y ∷ r) ne (e, k, d) =
    let next = next_of s in
    let prev = prev_of s in
    let k' = IsRing-rotate next prev bh y r k in
    let o = prev_other next prev y bh r [] (Distinct-rotate bh (y ∷ r) d) k' in
    let u = unlink_free-Unlinked bh s o in
    let k'' = unlink next prev _ _ bh u y r [] (Distinct-rotate bh (y ∷ r) d) k' in
    (
      free_list-unlink_free bh s o ∙ ground (arith, e, k.0),
      subst (λ l. Linked (next_of (unlink_free bh s)) (prev_of (unlink_free bh s)) y l y)
          (append-nil r) k'',
      d.1,
    )
IsRing-unlink_free bh s (a ∷ l₁) l₂ ne (e, k, d) =
    let next = next_of s in
    let prev = prev_of s in
    let o = prev_other next prev a bh l₁ l₂ d k in
    let u = unlink_free-Unlinked bh s o in
    (
      free_list-unlink_free bh s o ∙ ground (arith, e, (NotIn-append a l₁ (bh ∷ l₂) d.0).1.0),
      unlink next prev _ _ bh u a l₁ l₂ d k,
      drop_head bh (a ∷ l₁) l₂ d,
    )

-- what the stores of link_free make of the links
link_free-next :
    {W : Type 0} (bh : ℕ) (s : Cache W)
    → bh ≢ s.free_list
    → bh ≢ prev_of s s.free_list
    → (x : ℕ)
    → next_of (link_free bh s) x
      ≡ (if x == prev_of s s.free_list then bh else if x == bh then s.free_list else next_of s x)
unfolding link_free set_prev_free set_next_free set_head set_at
link_free-next bh s h n x = ground (arith, h, n)

link_free-prev :
    {W : Type 0} (bh : ℕ) (s : Cache W)
    → bh ≢ s.free_list
    → bh ≢ prev_of s s.free_list
    → (x : ℕ)
    → prev_of (link_free bh s) x
      ≡ (if x == s.free_list then bh else if x == bh then prev_of s s.free_list else prev_of s x)
unfolding link_free set_prev_free set_next_free set_head set_at
link_free-prev bh s h n x = ground (arith, h, n)

free_list-link_free : {W : Type 0} (bh : ℕ) (s : Cache W) → (link_free bh s).free_list ≡ s.free_list
unfolding link_free set_prev_free set_next_free set_head
free_list-link_free bh s = refl

-- the links of the old ring, but for the last one
module _ {W : Type 0} (bh : ℕ) (s : Cache W) (h : bh ≢ s.free_list)
    (n : bh ≢ prev_of s s.free_list) where
  nexts_kept :
      (l : List ℕ)
      → NotIn bh l
      → All
          (λ x.
            next_of (link_free bh s) x ≡ (if x == prev_of s s.free_list then bh else next_of s x))
          l
  nexts_kept [] a = tt
  nexts_kept (x ∷ l) (e, a) = (ground (arith, link_free-next bh s h n x, e), nexts_kept l a)

  prevs_kept :
      (l : List ℕ)
      → NotIn bh l
      → NotIn s.free_list l
      → All (λ x. prev_of (link_free bh s) x ≡ prev_of s x) l
  prevs_kept [] a b = tt
  prevs_kept (x ∷ l) (e, a) (f, b) =
      (ground (arith, link_free-prev bh s h n x, e, f), prevs_kept l a b)

pub IsRing-link_free :
    {W : Type 0} (bh : ℕ) (s : Cache W) (l : List ℕ)
    → NotIn bh l
    → IsRing s l
    → IsRing (link_free bh s) (l ++ (bh ∷ []))
IsRing-link_free bh s [] n h = absurd (false≢true (sym h))
IsRing-link_free {W} bh s (f ∷ l) (a, aw) (e, k, d) =
    let h : bh ≢ s.free_list = rw e a in
    let n : bh ≢ prev_of s s.free_list =
      rw e (prev-NotIn (next_of s) (prev_of s) f f bh l k (a, aw)) in
    (
      free_list-link_free bh s ∙ e,
      Linked-append (next_of (link_free bh s)) (prev_of (link_free bh s)) f bh f l []
          (relink (next_of s) (prev_of s) _ _ f f bh l d
            (subst
              (λ t.
                All
                  (λ x. next_of (link_free bh s) x ≡ (if x == prev_of s t then bh else next_of s x))
                  (f ∷ l))
              e (nexts_kept bh s h n (f ∷ l) (a, aw)))
            (prevs_kept bh s h n l aw (rw e d.0)) (ground (arith, e, link_free-prev bh s h n bh, a))
            k)
          (
            ground (arith, e, link_free-next bh s h n bh, n),
            ground (arith, e, link_free-prev bh s h n f),
          ),
      Distinct-snoc (f ∷ l) bh (a, aw) d,
    )
