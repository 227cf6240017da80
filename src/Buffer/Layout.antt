-- ===== src/Buffer/Layout.antt =====
-- The loop of initBuffer of fs/buffer.c.
use mathlib.Core.Path.{subst}
use operator_system.Common.{
  ℕ, zero, suc, ◌+◌, ◌-◌, ◌*◌, ◌≤◌, ◌<◌, ◌≡◌, ◌≢◌, refl, ◌∙◌, true, false, some, leb, arith,
}
use operator_system.Buffer.{Head, Cache, head_size, block_size, set_at, set_head, fresh, init_loop}

-- what the loop makes, on `n` rounds, of the memory from `h` up and from `b` down
pub record Laid {W : Type 0} (b h n : ℕ) (s : Cache W) (out : ℕ × Cache W) : Type 0 where
  pub ends : out.0 ≡ h + 36 * n
  pub below : (x : ℕ) → x < h → out.1.heads x ≡ s.heads x
  pub at :
      (i : ℕ)
      → i < n
      → out.1.heads (h + 36 * i) ≡ fresh (b - 1024 * (i + 1)) (h + 36 * i) (s.heads (h + 36 * i))
  pub count : out.1.nr_buffers ≡ s.nr_buffers + n

abbrev laid_one : {W : Type 0} → (b h : ℕ) → Cache W → Cache W
laid_one b h s = record (set_head h (fresh (b - block_size) h (s.heads h)) s) {
  nr_buffers = s.nr_buffers + 1;
}

laid_one_other :
    {W : Type 0} (b h x : ℕ) (s : Cache W) → x ≢ h → (laid_one b h s).heads x ≡ s.heads x
unfolding set_head set_at
laid_one_other b h x s n = ground (arith, n)

laid_one_self :
    {W : Type 0} (b h : ℕ) (s : Cache W) → (laid_one b h s).heads h ≡ fresh (b - 1024) h (s.heads h)
unfolding set_head set_at
laid_one_self b h s = ground arith

shift :
    (x y c c' : ℕ) (hs ls ss : ℕ → Head)
    → x ≡ y
    → c ≡ c'
    → hs x ≡ fresh c x (ls x)
    → ls y ≡ ss y
    → hs y ≡ fresh c' y (ss y)
shift x y c c' hs ls ss p q e f =
    subst (λ t. hs y ≡ fresh c' y t) f
      (subst (λ t. hs y ≡ fresh t y (ls y)) q (subst (λ t. hs t ≡ fresh c t (ls t)) p e))

at_next :
    {W : Type 0} (b h n : ℕ) (s : Cache W) (out : ℕ × Cache W)
    → Laid (b - block_size) (h + head_size) n (laid_one b h s) out
    → (i : ℕ) → i < suc n
    → out.1.heads (h + 36 * i) ≡ fresh (b - 1024 * (i + 1)) (h + 36 * i) (s.heads (h + 36 * i))
at_next b h n s out v zero l =
    shift h (h + 36 * 0) (b - 1024) (b - 1024 * (0 + 1)) out.1.heads s.heads s.heads (omega arith)
      (omega arith) (v.below h (omega arith) ∙ laid_one_self b h s) refl
at_next b h n s out v (suc i) l =
    shift (h + 36 + 36 * i) (h + 36 * suc i) (b - 1024 - 1024 * (i + 1)) (b - 1024 * (suc i + 1))
      out.1.heads (laid_one b h s).heads s.heads (omega arith) (omega arith)
      (v.at i (omega (arith, l))) (laid_one_other b h (h + 36 * suc i) s (omega arith))

pub init_loop-Laid :
    {W : Type 0} (fuel n b h : ℕ) (s : Cache W)
    → h + 1060 * n ≤ b
    → b < h + 1060 * (n + 1)
    → n < fuel
    → (out : ℕ × Cache W) × (init_loop fuel b h s ≡ some out) × Laid b h n s out
unfolding init_loop
init_loop-Laid zero n b h s lo hi f = absurd (omega (arith, f))
init_loop-Laid (suc fuel) zero b h s lo hi f = (
  (h, s),
  rw (stops b h hi) refl,
  record {
    ends = omega arith;
    below = λ x l. refl;
    at = λ i l. absurd (omega (arith, l));
    count = omega arith;
  },
)
  where
    stops : (b h : ℕ) → b < h + 1060 * 1 → leb (h + head_size) (b - block_size) ≡ false
    stops b h l = ground (arith, l)
init_loop-Laid (suc fuel) (suc n) b h s lo hi f =
    let (out, e, v) =
      init_loop-Laid fuel n (b - block_size) (h + head_size) (laid_one b h s) (omega (arith, lo))
        (omega (arith, hi, lo)) (omega (arith, f)) in
    (
      out,
      rw (goes b h n lo) e,
      record {
        ends = omega (arith, v.ends);
        below = λ x l. v.below x (omega (arith, l)) ∙ laid_one_other b h x s (omega (arith, l));
        at = at_next b h n s out v;
        count = omega (arith, v.count);
      },
    )
  where
    goes : (b h n : ℕ) → h + 1060 * suc n ≤ b → leb (h + head_size) (b - block_size) ≡ true
    goes b h n l = ground (arith, l)
