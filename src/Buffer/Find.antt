-- ===== src/Buffer/Find.antt =====
-- The searches of fs/buffer.c as searches in lists.
use operator_system.Common.{
  ℕ, zero, suc, ◌≤◌, ◌<◌, ◌≡◌, ◌≢◌, refl, sym, ap, ◌∙◌, ◌⊎◌, inl, inr, Bool, true, false, some,
  List, [], ◌∷◌, ◌++◌, ◌==◌, if◌then◌else◌, length, All, Bool-cases, arith,
}
use mathlib.Core.Path.{subst}
use mathlib.Core.Bool.{false≢true}
use operator_system.Buffer.{Head, Cache, hash_fn, badness}
use operator_system.Buffer.Ring.{Linked, NotIn}
use operator_system.Buffer.Free.{next_of, prev_of, IsRing}
use operator_system.Buffer.Cached.{is_for, improves, find_from, find_buffer, find_free}

-- The links `b_next` lead from `p` through the heads at `c` to NULL.
abbrev pub IsChain : {W : Type 0} → Cache W → ℕ → List ℕ → Type 0
IsChain s p [] = p ≡ 0
IsChain s p (x ∷ c) = (p ≡ x) × (x ≢ 0) × IsChain s (s.heads x).b_next c

-- the first of the heads that is named after the device and the block, or 0
unfoldable pub look_for : (ℕ → Head) → (dev block : ℕ) → List ℕ → ℕ
unfolding is_for
look_for heads dev block [] = 0
look_for heads dev block (x ∷ c) =
    if is_for (heads x) dev block then x else look_for heads dev block c

find_from-look_for :
    {W : Type 0} (fuel dev block p : ℕ) (s : Cache W) (c : List ℕ)
    → IsChain s p c
    → length c < fuel
    → find_from fuel dev block p s ≡ some (look_for s.heads dev block c)
unfolding find_from look_for
find_from-look_for zero dev block p s c h l = absurd (omega (arith, l))
find_from-look_for (suc fuel) dev block p s [] h l = rw h refl
find_from-look_for (suc fuel) dev block p s (x ∷ c) (e, z, h) l =
    let ih = find_from-look_for fuel dev block (s.heads x).b_next s c h (omega (arith, l)) in
    rw (e, ih) (ground (arith, z))

-- findBuffer, with more rounds than there are heads in the chain of its hash value, gives the
-- first head of the chain that is named after the device and the block, or NULL if none is.
pub find_buffer-look_for :
    {W : Type 0} (fuel dev block : ℕ) (s : Cache W) (c : List ℕ)
    → IsChain s (s.hash_table (hash_fn dev block)) c
    → length c < fuel
    → find_buffer fuel dev block s ≡ some (look_for s.heads dev block c)
unfolding find_buffer
find_buffer-look_for fuel dev block s c h l =
    find_from-look_for fuel dev block (s.hash_table (hash_fn dev block)) s c h l

-- the best of the heads, and of `bh` before them: the first of the lowest badness with no user
unfoldable pub pick : (ℕ → Head) → (bh : ℕ) → List ℕ → ℕ
unfolding improves
pick heads bh [] = bh
pick heads bh (x ∷ l) = pick heads (if improves heads x bh then x else bh) l

never_better :
    (heads : ℕ → Head) (x bh : ℕ) → bh ≢ 0 → badness (heads bh) ≡ 0 → improves heads x bh ≡ false
unfolding improves
never_better heads x bh n z = ground (arith, n, z)

pick-best :
    (heads : ℕ → Head) (bh : ℕ) (l : List ℕ)
    → bh ≢ 0
    → badness (heads bh) ≡ 0
    → pick heads bh l ≡ bh
unfolding pick
pick-best heads bh [] n z = refl
pick-best heads bh (x ∷ l) n z = rw (never_better heads x bh n z) (pick-best heads bh l n z)

same : (n : ℕ) → (n == n) ≡ true
same n = ground arith

differ : (m n : ℕ) → n ≢ m → (m == n) ≡ false
differ m n h = ground (arith, h)

if-const {ℓ} : {A : Type ℓ} (b : Bool) (x : A) → (if b then x else x) ≡ x
if-const true x = refl
if-const false x = refl

find_free-pick :
    {W : Type 0} (fuel a bh : ℕ) (s : Cache W) (l : List ℕ)
    → Linked (next_of s) (prev_of s) a l s.free_list
    → NotIn s.free_list l
    → NotIn 0 (a ∷ l)
    → length l < fuel
    → find_free fuel a bh s ≡ some (pick s.heads bh (a ∷ l))
unfolding find_free pick
find_free-pick zero a bh s l h n z f = absurd (omega (arith, f))
find_free-pick (suc fuel) a bh s [] (e, p) n z f = elim (Bool-cases (improves s.heads a bh)) [
  | inl b ↦ rw (b, e, same s.free_list) (if-const (badness (s.heads a) == 0) (some a))
  | inr b ↦ rw (b, e, same s.free_list) refl
]
find_free-pick (suc fuel) a bh s (x ∷ l) (e, p, h) (n, ns) (z, zs) f =
    elim (Bool-cases (improves s.heads a bh)) [
      | inl b ↦
          let ih = find_free-pick fuel x a s l h ns zs (omega (arith, f)) in
          let go : (if badness (s.heads a) == 0 then some a else find_free fuel x a s)
              ≡ some (pick s.heads a (x ∷ l)) =
            elim (Bool-cases (badness (s.heads a) == 0)) [
              | inl zero_badness ↦
                  rw
                    (
                      zero_badness,
                      pick-best s.heads a (x ∷ l) (λ q. z (sym q)) (ground (arith, zero_badness)),
                    )
                    refl
              | inr bad ↦ rw bad ih
            ] in
          rw (b, e, differ x s.free_list n) go
      | inr b ↦
          let ih = find_free-pick fuel x bh s l h ns zs (omega (arith, f)) in
          rw (b, e, differ x s.free_list n) ih
    ]

-- the list with what stands before and after `x`
abbrev pub Within : ℕ → List ℕ → Type 0
Within x l = (l₁ : List ℕ) × (l₂ : List ℕ) × (l ≡ l₁ ++ (x ∷ l₂))

Within-cons : (x y : ℕ) (l : List ℕ) → Within x l → Within x (y ∷ l)
Within-cons x y l (l₁, l₂, e) = (y ∷ l₁, l₂, ap (λ (t : List ℕ). y ∷ t) e)

-- the result `r` for the best so far `bh` and the heads `l`
record Picked (heads : ℕ → Head) (bh : ℕ) (l : List ℕ) (r : ℕ) : Type 0 where
  from : (r ≡ bh) ⊎ (Within r l × ((heads r).b_count ≡ 0))
  kept : bh ≢ 0 → (r ≢ 0) × (badness (heads r) ≤ badness (heads bh))
  least : All (λ x. (heads x).b_count ≡ 0 → (r ≢ 0) × (badness (heads r) ≤ badness (heads x))) l

improves-count : (heads : ℕ → Head) (x bh : ℕ) → improves heads x bh ≡ true → (heads x).b_count ≡ 0
unfolding improves
improves-count heads x bh h = ground (arith, h)

improves-less :
    (heads : ℕ → Head) (x bh : ℕ)
    → improves heads x bh ≡ true
    → bh ≢ 0
    → badness (heads x) ≤ badness (heads bh)
unfolding improves
improves-less heads x bh h n = ground (arith, h, n)

improves-not :
    (heads : ℕ → Head) (x bh : ℕ)
    → improves heads x bh ≡ false
    → (heads x).b_count ≡ 0
    → (bh ≢ 0) × (badness (heads bh) ≤ badness (heads x))
unfolding improves
improves-not heads x bh h c = (λ z. ground (arith, h, z, c), ground (arith, h, c))

pick-Picked :
    (heads : ℕ → Head) (bh : ℕ) (l : List ℕ) → NotIn 0 l → Picked heads bh l (pick heads bh l)
unfolding pick
pick-Picked heads bh [] z = record { from = inl refl; kept = λ n. (n, omega arith); least = tt }
pick-Picked heads bh (x ∷ l) (z, zs) = elim (Bool-cases (improves heads x bh)) [
  | inl b ↦
      let p = pick-Picked heads x l zs in
      let (n, le) = p.kept (λ q. z (sym q)) in
      rw b (record {
        from = elim p.from [
          | inl e ↦ inr (([], l, ap (λ (t : ℕ). t ∷ l) (sym e)), rw e (improves-count heads x bh b))
          | inr (m, c) ↦ inr (Within-cons _ x l m, c)
        ];
        kept = λ nz. (n, omega (arith, le, improves-less heads x bh b nz));
        least = (λ c. (n, le), p.least);
      })
  | inr b ↦
      let p = pick-Picked heads bh l zs in
      rw b (record {
        from = elim p.from [ inl e ↦ inl e | inr (m, c) ↦ inr (Within-cons _ x l m, c) ];
        kept = p.kept;
        least = (
          (λ c.
              let (n, le) = improves-not heads x bh b c in
              let (n', le') = p.kept n in (n', omega (arith, le, le'))),
          p.least,
        );
      })
]

-- The search of getblk in a ring of heads at `l`, none at NULL, with more rounds than heads, gives a
-- head `bh`. If it is NULL, every head has a user; else it is a head of the ring without users, and
-- no other head without users has a lower badness.
pub find_free-least :
    {W : Type 0} (fuel : ℕ) (s : Cache W) (l : List ℕ)
    → IsRing s l
    → NotIn 0 l
    → length l < fuel
    → (bh : ℕ) × (find_free fuel s.free_list 0 s ≡ some bh)
      × ((bh ≡ 0) ⊎ (Within bh l × ((s.heads bh).b_count ≡ 0)))
      × All
          (λ x. (s.heads x).b_count ≡ 0 → (bh ≢ 0) × (badness (s.heads bh) ≤ badness (s.heads x)))
          l
find_free-least fuel s [] h z f = absurd (false≢true (sym h))
find_free-least fuel s (a ∷ l) (e, k, d) z f =
    let p = pick-Picked s.heads 0 (a ∷ l) z in
    (
      pick s.heads 0 (a ∷ l),
      ap (λ (t : ℕ). find_free fuel t 0 s) e
          ∙ find_free-pick fuel a 0 s l (subst (Linked (next_of s) (prev_of s) a l) (sym e) k)
              (rw e d.0) z (omega (arith, f)),
      p.from,
      p.least,
    )
