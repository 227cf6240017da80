-- ===== src/Mem/Pages.antt =====
-- Page allocation of mm/memory.c.
use operator_system.Common.{
  ℕ, zero, suc, ◌+◌, ◌*◌, ◌/◌, ◌^◌, ◌≤◌, ◌<◌, ◌≡◌, ◌≢◌, refl, sym, ap, ◌∙◌, ◌⊎◌, inl, inr, none,
  some, List, [], ◌∷◌, ◌==◌, get_or, set, length, Bool-cases, Option-cases, get_or-set_self, arith,
}
use operator_system.Mem.{
  Memory, kernel_mem, mem_size_max, store, clear_words, first_free, get_free_page, free_page,
}

-- page `i` is the first that the map has 0 for
abbrev pub FirstFree : List ℕ → ℕ → Type 0
FirstFree [] i = ⊥
FirstFree (n ∷ ns) zero = n ≡ 0
FirstFree (n ∷ ns) (suc i) = (n ≢ 0) × FirstFree ns i

-- no page is free
abbrev pub NoneFree : List ℕ → Type 0
NoneFree [] = Unit
NoneFree (n ∷ ns) = (n ≢ 0) × NoneFree ns

first_free-some :
    (ns : List ℕ) (i : ℕ) {k : ℕ}
    → first_free i ns ≡ some k
    → (j : ℕ) × (k ≡ i + j) × FirstFree ns j × (j < length ns)
unfolding first_free
first_free-some [] i h = absurd (ground arith)
first_free-some (n ∷ ns) i {k} h = elim (Bool-cases (n == 0)) [
  | inl e ↦ (0, ground arith, ground arith, omega arith)
  | inr e ↦
      let (j, q, f, l) = first_free-some ns (i + 1) (rw e at h) in
      (suc j, omega (arith, q), (ground arith, f), omega arith)
]

first_free-none : (ns : List ℕ) (i : ℕ) → first_free i ns ≡ none → NoneFree ns
unfolding first_free
first_free-none [] i h = tt
first_free-none (n ∷ ns) i h = elim (Bool-cases (n == 0)) [
  | inl e ↦ absurd (ground arith)
  | inr e ↦ (ground arith, first_free-none ns (i + 1) (rw e at h))
]

-- A cleared run of words: 0 at the words of the run, and the old words elsewhere.
clear_words-outside :
    (n j a : ℕ) (words : ℕ → ℕ)
    → ((k : ℕ) → k < n → a ≢ j + 4 * k)
    → clear_words n j words a ≡ words a
unfolding clear_words store
clear_words-outside zero j a words out = refl
clear_words-outside (suc n) j a words out =
    clear_words-outside n (j + 4) a (store j 0 words)
      (λ k h. omega (arith, out (suc k) (omega arith)))
    ∙ ground (arith, out 0 (omega arith))

clear_words-inside : (n j k : ℕ) (words : ℕ → ℕ) → k < n → clear_words n j words (j + 4 * k) ≡ 0
unfolding clear_words store
clear_words-inside zero j k words h = elim h [ ]
clear_words-inside (suc n) j zero words h =
    clear_words-outside n (j + 4) (j + 4 * 0) (store j 0 words) (λ k l. omega arith) ∙ ground arith
clear_words-inside (suc n) j (suc k) words h =
    ap (clear_words n (j + 4) (store j 0 words)) (omega arith)
    ∙ clear_words-inside n (j + 4) k (store j 0 words) (omega arith)

-- what getFreePage does where it finds the page `i`
pub record Allocated (m : Memory) (i : ℕ) (m' : Memory) : Type 0 where
  pub first : FirstFree m.mem_map i
  pub taken : m'.mem_map ≡ set m.mem_map i 1
  pub cleared : (k : ℕ) → k < 1024 → m'.words (i * 2 ^ 12 + 4 * k) ≡ 0
  pub kept : (a : ℕ) → ((k : ℕ) → k < 1024 → a ≢ i * 2 ^ 12 + 4 * k) → m'.words a ≡ m.words a

-- getFreePage gives out the first page whose count is 0, sets its count to 1 and no other, clears
-- its 1024 words and changes no other word; it returns 0 and changes nothing where every count is
-- different from 0.
pub get_free_page-Allocated :
    (m : Memory)
    → let (addr, m') = get_free_page m in
      ((i : ℕ) × (addr ≡ i * 2 ^ 12) × Allocated m i m')
      ⊎ ((addr ≡ 0) × (m' ≡ m) × NoneFree m.mem_map)
unfolding get_free_page
get_free_page-Allocated m = elim (Option-cases (first_free 0 m.mem_map)) [
  | inl e ↦ rw (e, get_free_page) (inr (refl, refl, first_free-none m.mem_map 0 e))
  | inr (i, e) ↦
      let (j, q, f, l) = first_free-some m.mem_map 0 e in
      let same : i ≡ j = omega (arith, q) in
      rw (e, get_free_page)
        (inl (
          i,
          refl,
          record {
            first = rw same f;
            taken = refl;
            cleared = λ k h. clear_words-inside 1024 (i * 2 ^ 12) k m.words h;
            kept = λ a out. clear_words-outside 1024 (i * 2 ^ 12) a m.words out;
          },
        ))
]

pub get_or-FirstFree :
    (ns : List ℕ) (i : ℕ) → FirstFree ns i → (get_or ns i 0 ≡ 0) × (i < length ns)
get_or-FirstFree [] i f = absurd f
get_or-FirstFree (n ∷ ns) zero f = (f, omega arith)
get_or-FirstFree (n ∷ ns) (suc i) f =
    let (e, l) = get_or-FirstFree ns i f.1 in (e, omega (arith, l))

set_back : (ns : List ℕ) (i v : ℕ) → i < length ns → set (set ns i v) i (get_or ns i 0) ≡ ns
set_back [] i v h = refl
set_back (n ∷ ns) zero v h = refl
set_back (n ∷ ns) (suc i) v h = ap (λ t. n ∷ t) (set_back ns i v (omega arith))

-- freePage on a page with one user
free_page-last :
    (addr : ℕ) (m : Memory) (i : ℕ)
    → kernel_mem ≤ addr
    → addr < mem_size_max
    → addr / 2 ^ 12 ≡ i
    → get_or m.mem_map i 0 ≡ 1
    → free_page addr m ≡ some (record m { mem_map = set m.mem_map i 0 })
unfolding free_page
free_page-last addr m i lo hi e one = rw e (ground arith)

-- A page that getFreePage gave out, above the kernel's memory and below the end, is free again
-- after one freePage: the page map is what it was before both.
pub free_page-get_free_page :
    (m : Memory)
    → kernel_mem ≤ (get_free_page m).0
    → (get_free_page m).0 < mem_size_max
    → (m' : Memory) × (free_page (get_free_page m).0 (get_free_page m).1 ≡ some m')
      × (m'.mem_map ≡ m.mem_map)
free_page-get_free_page m lo hi = given (get_free_page m) (get_free_page-Allocated m) lo hi
  where
    given :
        (r : ℕ × Memory)
        → ((i : ℕ) × (r.0 ≡ i * 2 ^ 12) × Allocated m i r.1)
          ⊎ ((r.0 ≡ 0) × (r.1 ≡ m) × NoneFree m.mem_map)
        → kernel_mem ≤ r.0
        → r.0 < mem_size_max
        → (m' : Memory) × (free_page r.0 r.1 ≡ some m') × (m'.mem_map ≡ m.mem_map)
    given r (inr (z, _, _)) lo hi = absurd (omega arith)
    given r (inl (i, e, a)) lo hi =
        let (zero_before, bound) = get_or-FirstFree m.mem_map i a.first in
        let index : r.0 / 2 ^ 12 ≡ i = omega (arith, e) in
        let one : get_or r.1.mem_map i 0 ≡ 1 = rw a.taken (get_or-set_self m.mem_map i 1 0 bound) in
        (
          record (r.1) { mem_map = set r.1.mem_map i 0 },
          free_page-last r.0 r.1 i lo hi index one,
          rw a.taken (
              ap (λ v. set (set m.mem_map i 1) i v) (sym zero_before)
              ∙ set_back m.mem_map i 1 bound),
        )
