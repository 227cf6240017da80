-- ===== src/Buffer/Release.antt =====
-- brelse of fs/buffer.c, and the u_8 that counts the users of a head.
use mathlib.Core.Path.{fun_ext}
use operator_system.Common.{
  ℕ, suc, ◌+◌, ◌%◌, ◌^◌, ◌<◌, ◌≡◌, ◌≢◌, refl, sym, ap, ◌∙◌, inl, inr, Bool, true, false, none, some,
  ◌==◌, if◌then◌else◌, Bool-cases, arith,
}
use operator_system.Buffer.{Head, Cache, Outside, on_free, set_head, set_count, set_at}
use operator_system.Buffer.Quiet.{not_null, wait-unlocked, add_user-unlocked}
use operator_system.Buffer.Cached.{add_user, drop_user, brelse}

-- a count that goes up and down again
up_down : (n : ℕ) → n < 256 → ((n + 1) % 2 ^ 8 + 255) % 2 ^ 8 ≡ n
up_down n h = omega (arith, h)

module _ {ℓ} {A : Type ℓ} (p : ℕ) (f : ℕ → A) where
  pub set_at_same : (a : A) → set_at p a f p ≡ a
  unfolding set_at
  set_at_same a = ground arith

  set_at_again : (a b : A) → set_at p b (set_at p a f) ≡ set_at p b f
  unfolding set_at
  set_at_again a b =
      fun_ext (λ x. elim (Bool-cases (x == p)) [ inl q ↦ rw q refl | inr q ↦ rw q refl ])

  set_at_self : set_at p (f p) f ≡ f
  unfolding set_at
  set_at_self = fun_ext (λ x. elim (Bool-cases (x == p)) [
    | inl q ↦ rw q (ap f (sym (the_same x p q)))
    | inr q ↦ rw q refl
  ])
    where
      the_same : (x p : ℕ) → (x == p) ≡ true → x ≡ p
      the_same x p q = ground (arith, q)

module _ {W : Type 0} (p : ℕ) (s : Cache W) (h : (s.heads p).b_count < 256) where
  abbrev counted : ℕ → Head
  counted n = record (s.heads p) { b_count = n }

  abbrev with_heads : (ℕ → Head) → Cache W
  with_heads hs = record s { heads = hs }

  add_user-heads :
      add_user p s ≡ with_heads (set_at p (counted (((s.heads p).b_count + 1) % 2 ^ 8)) s.heads)
  unfolding add_user set_count set_head
  add_user-heads = refl

  add_user-count : ((add_user p s).heads p).b_count ≡ ((s.heads p).b_count + 1) % 2 ^ 8
  unfolding add_user set_count set_head
  add_user-count = ap (λ (x : Head). x.b_count) (set_at_same p s.heads _)

  drop_user-add_user : drop_user p (add_user p s) ≡ s
  unfolding drop_user add_user set_count set_head
  drop_user-add_user =
      let a = counted (((s.heads p).b_count + 1) % 2 ^ 8) in
      let down = λ (x : Head). record x { b_count = (x.b_count + 255) % 2 ^ 8 } in
      ap with_heads (
        ap (λ (x : Head). set_at p (down x) (set_at p a s.heads)) (set_at_same p s.heads a)
        ∙ set_at_again p s.heads a (down a)
        ∙ ap (λ (n : ℕ). set_at p (counted n) s.heads) (up_down (s.heads p).b_count h)
        ∙ set_at_self p s.heads)

-- brelse of an unlocked head that is not NULL, after one user more has been counted, with one round
-- and any outside: it takes this user away again and wakes those who wait for a free head; but
-- where there were 255 users before, the count is 0, and it does not return.
pub brelse-add_user :
    {W : Type 0} (fuel : ℕ) (o : Outside W) (p : ℕ) (s : Cache W)
    → p ≢ 0
    → (s.heads p).b_count < 256
    → (s.heads p).b_lock ≡ false
    → brelse (suc fuel) o p (add_user p s)
      ≡ (if (s.heads p).b_count == 255 then none else some (o.wake_up on_free s))
unfolding brelse
brelse-add_user fuel o p s n h l =
    rw
      (
        not_null p n,
        wait-unlocked o fuel p (add_user p s) (add_user-unlocked p s l),
        add_user-count p s h,
        drop_user-add_user p s h,
      )
      (ap (λ (b : Bool). if b then none else some (o.wake_up on_free s))
        (wraps (s.heads p).b_count h))
  where
    wraps : (n : ℕ) → n < 256 → ((n + 1) % 2 ^ 8 == 0) ≡ (n == 255)
    wraps n h = ground (arith, h)
