-- ===== src/Buffer/Ring.antt =====
-- The free list of fs/buffer.c as a ring: removeFromQueues and insertIntoQueues on a list.
use operator_system.Common.{
  ℕ, ◌≡◌, ◌≢◌, sym, ap, ◌∙◌, List, [], ◌∷◌, ◌++◌, ◌==◌, if◌then◌else◌, All, arith,
}
use mathlib.Core.List.{append-nil}

-- From `a` the links lead through `l` to `b`, and back.
abbrev pub Linked : (next prev : ℕ → ℕ) → (a : ℕ) → List ℕ → (b : ℕ) → Type 0
Linked next prev a [] b = (next a ≡ b) × (prev b ≡ a)
Linked next prev a (x ∷ l) b = (next a ≡ x) × (prev x ≡ a) × Linked next prev x l b

abbrev pub NotIn : ℕ → List ℕ → Type 0
NotIn a l = All (λ x. a ≢ x) l

abbrev pub Distinct : List ℕ → Type 0
Distinct [] = Unit
Distinct (x ∷ l) = NotIn x l × Distinct l

module _ (next prev : ℕ → ℕ) where
  pub Linked-append :
      (a m b : ℕ) (l₁ l₂ : List ℕ)
      → Linked next prev a l₁ m
      → Linked next prev m l₂ b
      → Linked next prev a (l₁ ++ (m ∷ l₂)) b
  Linked-append a m b [] l₂ (e, f) h = (e, f, h)
  Linked-append a m b (x ∷ l₁) l₂ (e, f, g) h = (e, f, Linked-append x m b l₁ l₂ g h)

  pub Linked-split :
      (a m b : ℕ) (l₁ l₂ : List ℕ)
      → Linked next prev a (l₁ ++ (m ∷ l₂)) b
      → Linked next prev a l₁ m × Linked next prev m l₂ b
  Linked-split a m b [] l₂ (e, f, h) = ((e, f), h)
  Linked-split a m b (x ∷ l₁) l₂ (e, f, h) =
      let (g, k) = Linked-split x m b l₁ l₂ h in ((e, f, g), k)

  -- the last of the list, before `b`, is where `b` leads back to
  pub prev-NotIn : (a b c : ℕ) (l : List ℕ) → Linked next prev a l b → NotIn c (a ∷ l) → c ≢ prev b
  prev-NotIn a b c [] (e, f) (n, _) = rw f n
  prev-NotIn a b c (x ∷ l) (e, f, g) (n, ns) = prev-NotIn x b c l g ns

  module _ (next' prev' : ℕ → ℕ) where
    -- links that the stores leave alone
    pub Linked-frame :
        (a b : ℕ) (l : List ℕ)
        → next' a ≡ next a
        → All (λ x. next' x ≡ next x) l
        → All (λ x. prev' x ≡ prev x) l
        → prev' b ≡ prev b
        → Linked next prev a l b
        → Linked next' prev' a l b
    Linked-frame a b [] n ns ps p (e, f) = (n ∙ e, p ∙ f)
    Linked-frame a b (x ∷ l) n (n', ns) (p', ps) p (e, f, g) =
        (n ∙ e, p' ∙ f, Linked-frame x b l n' ns ps p g)

    other :
        (a c : ℕ) {x b : ℕ}
        → a ≢ prev b
        → next' a ≡ (if a == prev b then c else next a)
        → next a ≡ x
        → next' a ≡ x
    other ne n e = ground (arith, ne, n, e)

    -- the links up to `b` when the last one is led to `c` instead
    pub relink :
        (a b c : ℕ) (l : List ℕ)
        → Distinct (a ∷ l)
        → All (λ x. next' x ≡ (if x == prev b then c else next x)) (a ∷ l)
        → All (λ x. prev' x ≡ prev x) l
        → prev' c ≡ prev b
        → Linked next prev a l b
        → Linked next' prev' a l c
    relink a b c [] d (n, _) ps p (e, f) = (ground (arith, n, f), p ∙ f)
    relink a b c (x ∷ l) (away, d) (n, ns) (p', ps) p (e, f, g) =
        (other a c (prev-NotIn x b a l g away) n e, p' ∙ f, relink x b c l d ns ps p g)

-- the elements of the second list are none of the first
abbrev pub Apart : List ℕ → List ℕ → Type 0
Apart l₁ l₂ = All (λ x. NotIn x l₁) l₂

pub NotIn-append : (a : ℕ) (l₁ l₂ : List ℕ) → NotIn a (l₁ ++ l₂) → NotIn a l₁ × NotIn a l₂
NotIn-append a [] l₂ h = (tt, h)
NotIn-append a (x ∷ l₁) l₂ (e, h) = let (f, g) = NotIn-append a l₁ l₂ h in ((e, f), g)

Apart-nil : (l : List ℕ) → Apart [] l
Apart-nil [] = tt
Apart-nil (x ∷ l) = (tt, Apart-nil l)

Apart-cons : (a : ℕ) (l₁ l₂ : List ℕ) → NotIn a l₂ → Apart l₁ l₂ → Apart (a ∷ l₁) l₂
Apart-cons a l₁ [] h k = tt
Apart-cons a l₁ (x ∷ l₂) (e, h) (g, k) = ((λ p. e (sym p), g), Apart-cons a l₁ l₂ h k)

pub Distinct-append :
    (l₁ l₂ : List ℕ) → Distinct (l₁ ++ l₂) → Distinct l₁ × Distinct l₂ × Apart l₁ l₂
Distinct-append [] l₂ h = (tt, h, Apart-nil l₂)
Distinct-append (a ∷ l₁) l₂ (e, h) =
    let (d₁, d₂, k) = Distinct-append l₁ l₂ h in
    let (n₁, n₂) = NotIn-append a l₁ l₂ e in ((n₁, d₁), d₂, Apart-cons a l₁ l₂ n₂ k)

-- what the stores of unlink_free make of the links
pub record Unlinked (next prev next' prev' : ℕ → ℕ) (bh : ℕ) : Type 0 where
  pub nexts : (x : ℕ) → next' x ≡ (if x == prev bh then next bh else next x)
  pub prevs : (x : ℕ) → prev' x ≡ (if x == next bh then prev bh else prev x)

module _ (next prev next' prev' : ℕ → ℕ) (bh : ℕ) (u : Unlinked next prev next' prev' bh) where
  prevs_away : (l : List ℕ) → NotIn (next bh) l → All (λ x. prev' x ≡ prev x) l
  prevs_away [] h = tt
  prevs_away (x ∷ l) (h, hs) = (ground (arith, u.prevs x, h), prevs_away l hs)

  nexts_away : (l : List ℕ) → NotIn (prev bh) l → All (λ x. next' x ≡ next x) l
  nexts_away [] h = tt
  nexts_away (x ∷ l) (h, hs) = (ground (arith, u.nexts x, h), nexts_away l hs)

  prev_back : prev' (next bh) ≡ prev bh
  prev_back = ground (arith, u.prevs (next bh))

  all_prevs_away :
      (a : ℕ) (l₁ l : List ℕ) → Linked next prev a l₁ bh → Apart (a ∷ l₁) l → NotIn (prev bh) l
  all_prevs_away a l₁ [] g h = tt
  all_prevs_away a l₁ (x ∷ l) g (h, hs) =
      (λ e. prev-NotIn next prev a bh x l₁ g h (sym e), all_prevs_away a l₁ l g hs)

  next_to : {y : ℕ} → next bh ≡ y → (x : ℕ) → next' x ≡ (if x == prev bh then y else next x)
  next_to e x = u.nexts x ∙ ap (λ (t : ℕ). if x == prev bh then t else next x) e

  nexts_to :
      {y : ℕ}
      → next bh ≡ y
      → (l : List ℕ) → All (λ x. next' x ≡ (if x == prev bh then y else next x)) l
  nexts_to e [] = tt
  nexts_to e (x ∷ l) = (next_to e x, nexts_to e l)

  back_to : {y : ℕ} → next bh ≡ y → prev' y ≡ prev bh
  back_to e = rw (sym e) prev_back

  -- a ring goes on without `bh`
  pub unlink :
      (a : ℕ) (l₁ l₂ : List ℕ)
      → Distinct (a ∷ (l₁ ++ (bh ∷ l₂)))
      → Linked next prev a (l₁ ++ (bh ∷ l₂)) a
      → Linked next' prev' a (l₁ ++ l₂) a
  unlink a l₁ [] d h =
      let (g, (e, f)) = Linked-split next prev a bh a l₁ [] h in
      let (d₁, _, _) = Distinct-append (a ∷ l₁) (bh ∷ []) d in
      rw (append-nil l₁) (
        relink next prev next' prev' a bh a l₁ d₁ (nexts_to e (a ∷ l₁)) (prevs_away l₁ (rw e d₁.0))
          (back_to e) g)
  unlink a l₁ (y ∷ r) d h =
      let (g, (e, f, k)) = Linked-split next prev a bh a l₁ (y ∷ r) h in
      let (d₁, (_, (yr, _)), (_, ((qa, q), qs))) = Distinct-append (a ∷ l₁) (bh ∷ y ∷ r) d in
      let (py, pr) = all_prevs_away a l₁ (y ∷ r) g ((qa, q), qs) in
      Linked-append next' prev' a y a l₁ r
        (relink next prev next' prev' a bh y l₁ d₁ (nexts_to e (a ∷ l₁)) (prevs_away l₁ (rw e q))
          (back_to e) g)
        (Linked-frame next prev next' prev' y a r (ground (arith, u.nexts y, py)) (nexts_away r pr)
          (prevs_away r (rw e yr)) (ground (arith, u.prevs a, e, qa)) k)
