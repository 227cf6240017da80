-- ===== src/Mem/Cow.antt =====
-- Copy on write: unWriteProtectPage of mm/memory.c.
use Prim.Native.Nat.{bit_or}
use operator_system.Common.{
  ℕ, zero, suc, ◌+◌, ◌-◌, ◌*◌, ◌/◌, ◌%◌, ◌^◌, ◌≤◌, ◌<◌, ◌≡◌, ◌≢◌, refl, sym, ap, ◌∙◌, ◌⊎◌, inl, inr,
  Bool, true, false, List, none, some, ltb, leb, ◌==◌, ◌&&◌, if◌then◌else◌, get_or, set, Bool-cases,
  get_or-set_ne, arith,
}
use operator_system.Common.Bits.{bit_or-add}
use operator_system.Mem.{
  Memory, kernel_mem, store, get_free_page, page_of, copy_page, unshare, un_write_protect_page,
}
use operator_system.Mem.Pages.{
  FirstFree, NoneFree, Allocated, get_free_page-Allocated, get_or-FirstFree,
}

-- the user, write and present bits on a page's address
bit_or-flags : (f : ℕ) → bit_or (bit_or (bit_or (f * 2 ^ 12) 4) 2) 1 ≡ f * 2 ^ 12 + 7
bit_or-flags f =
    let user : bit_or (f * 2 ^ 12) 4 ≡ (f * 2 ^ 9 * 2 + 1) * 2 ^ 2 =
      omega (arith, bit_or-add 12 f 4 (omega arith)) in
    let write : bit_or ((f * 2 ^ 9 * 2 + 1) * 2 ^ 2) 2 ≡ (f * 2 ^ 11 + 3) * 2 ^ 1 =
      omega (arith, bit_or-add 2 (f * 2 ^ 9 * 2 + 1) 2 (omega arith)) in
    rw user (rw write (omega (arith, bit_or-add 1 (f * 2 ^ 11 + 3) 1 (omega arith))))

-- the address of the page that an entry names
abbrev pub frame : ℕ → ℕ
frame e = e / 2 ^ 12 * 2 ^ 12

-- what unWriteProtectPage does with a page that has several users, or that is the kernel's: the
-- entry names the frame `f`, which was free
pub record Copied (item : ℕ) (m : Memory) (f : ℕ) (m' : Memory) : Type 0 where
  pub first : FirstFree m.mem_map f
  pub entry : m'.words item ≡ f * 2 ^ 12 + 7
  pub content : (k : ℕ) → k < 4096 → m'.words (f * 2 ^ 12 + k) ≡ m.words (frame (m.words item) + k)
  pub counts :
      let i = frame (m.words item) / 2 ^ 12 in
      m'.mem_map ≡ (
        if leb 0x100000 (frame (m.words item))
        then set (set m.mem_map f 1) i (get_or m.mem_map i 0 - 1)
        else set m.mem_map f 1)
  pub kept : (a : ℕ) → a ≢ item → a / 2 ^ 12 ≢ f → m'.words a ≡ m.words a

-- an address in a counted page is not in the free page
other_page :
    {m : Memory} {f : ℕ} {m₁ : Memory}
    → Allocated m f m₁
    → (a : ℕ) → get_or m.mem_map (a / 2 ^ 12) 0 ≢ 0
    → a / 2 ^ 12 ≢ f
other_page {m} al a c e = c (rw e ((get_or-FirstFree m.mem_map _ al.first).0))

kept_word :
    {m : Memory} {f : ℕ} {m₁ : Memory}
    → Allocated m f m₁
    → (a : ℕ) → a / 2 ^ 12 ≢ f
    → m₁.words a ≡ m.words a
kept_word al a ne = al.kept a (λ k h e. ne (omega arith))

copied_word :
    (dest src : ℕ) (words : ℕ → ℕ) (k : ℕ)
    → k < 4096
    → copy_page dest src words (dest + k) ≡ words (src + k)
unfolding copy_page
copied_word dest src words k h =
    let inside : (leb dest (dest + k) && ltb (dest + k) (dest + 4096)) ≡ true = ground arith in
    rw inside (ap words (omega arith))

uncopied_word :
    (f src : ℕ) (words : ℕ → ℕ) (a : ℕ)
    → a / 2 ^ 12 ≢ f
    → copy_page (f * 2 ^ 12) src words a ≡ words a
unfolding copy_page
uncopied_word f src words a ne = ground arith

store_ne : (a v b : ℕ) (words : ℕ → ℕ) → b ≢ a → store a v words b ≡ words b
unfolding store
store_ne a v b words ne = ground arith

store_self : (a v : ℕ) (words : ℕ → ℕ) → store a v words a ≡ v
unfolding store
store_self a v words = ground arith

-- the entry's page: neither it nor the page that the entry stands in is free, they differ, and the
-- count is a char above 0
pub record Mapped (item : ℕ) (m : Memory) : Type 0 where
  pub old_counted : get_or m.mem_map (frame (m.words item) / 2 ^ 12) 0 ≢ 0
  pub old_char : get_or m.mem_map (frame (m.words item) / 2 ^ 12) 0 < 2 ^ 8
  pub table_counted : get_or m.mem_map (item / 2 ^ 12) 0 ≢ 0
  pub apart : item / 2 ^ 12 ≢ frame (m.words item) / 2 ^ 12
  pub page_zero_taken : get_or m.mem_map 0 0 ≢ 0

old_place : (e k : ℕ) → k < 4096 → (page_of e + k) / 2 ^ 12 ≡ page_of e / 2 ^ 12
unfolding page_of
old_place e k h = omega arith

-- `MEM_MAP[i]--` on a char above 0
count_down : (v w : ℕ) → v ≢ 0 → v < 2 ^ 8 → w ≡ v → (w + 255) % 2 ^ 8 ≡ v - 1
count_down v w ne h e = omega (arith, ne, e)

unshare-Copied :
    (item f : ℕ) (m m₁ : Memory)
    → Allocated m f m₁
    → Mapped item m
    → Copied item m f (unshare item (page_of (m.words item)) (f * 2 ^ 12) m₁)
unfolding unshare page_of
unshare-Copied item f m m₁ al mapped =
    let old : ℕ = page_of (m.words item) in
    let i : ℕ = old / 2 ^ 12 in
    let e : ℕ = bit_or (bit_or (bit_or (f * 2 ^ 12) 4) 2) 1 in
    let words : ℕ → ℕ = store item e m₁.words in
    record {
      first = al.first;
      entry =
          uncopied_word f old words item (other_page al item mapped.table_counted)
          ∙ (store_self item e m₁.words ∙ bit_or-flags f);
      content = λ k h.
          let place = old_place (m.words item) k h in
          copied_word (f * 2 ^ 12) old words k h
          ∙ (store_ne item e (old + k) m₁.words
                (λ q. mapped.apart (ap (λ (t : ℕ). t / 2 ^ 12) (sym q) ∙ place))
              ∙ kept_word al (old + k) (other_page al (old + k) (rw place mapped.old_counted)));
      counts = rw al.taken (
          rw
            (count_down (get_or m.mem_map i 0) _ mapped.old_counted mapped.old_char (
              get_or-set_ne m.mem_map f i 1 0
                (λ q. mapped.old_counted (rw (sym q) ((get_or-FirstFree m.mem_map f al.first).0)))))
            refl);
      kept = λ a ne out.
          uncopied_word f old words a out ∙ (store_ne item e a m₁.words ne ∙ kept_word al a out);
    }

-- a page of the main memory with one user
abbrev pub IsSole : ℕ → Memory → Type 0
IsSole item m =
    let old_page = frame (m.words item) in
    (0x100000 ≤ old_page) × (get_or m.mem_map (old_page / 2 ^ 12) 0 ≡ 1)

-- what unWriteProtectPage does with such a page: it sets the entry's write bit
pub record Opened (item : ℕ) (m m' : Memory) : Type 0 where
  pub entry : m'.words item ≡ bit_or (m.words item) 2
  pub counts : m'.mem_map ≡ m.mem_map
  pub kept : (a : ℕ) → a ≢ item → m'.words a ≡ m.words a

-- the three ways that unWriteProtectPage goes, of which each case has its own
abbrev pub Unshared : ℕ → Memory → Type 0
Unshared item m =
    (IsSole item m × (m' : Memory) × (un_write_protect_page item m ≡ some m') × Opened item m m')
    ⊎ (¬ IsSole item m
        × (f : ℕ) × (m' : Memory) × (un_write_protect_page item m ≡ some m')
        × Copied item m f m')
    ⊎ (¬ IsSole item m × (un_write_protect_page item m ≡ none) × NoneFree m.mem_map)

-- the test of unWriteProtectPage
abbrev is_sole : ℕ → Memory → Bool
is_sole item m =
    let old_page = page_of (m.words item) in
    leb kernel_mem old_page && (get_or m.mem_map (old_page / 2 ^ 12) 0 == 1)

is_sole-IsSole : (item : ℕ) (m : Memory) → is_sole item m ≡ true → IsSole item m
unfolding page_of
is_sole-IsSole item m h = (ground (arith, h), ground (arith, h))

is_sole-false : (item : ℕ) (m : Memory) → is_sole item m ≡ false → ¬ IsSole item m
unfolding page_of
is_sole-false item m h (lo, one) = ground (arith, h, lo, one)

store-Opened :
    (item : ℕ) (m : Memory)
    → Opened item m (record m { words = store item (bit_or (m.words item) 2) m.words })
store-Opened item m = record {
  entry = store_self item (bit_or (m.words item) 2) m.words;
  counts = refl;
  kept = λ a n. store_ne item (bit_or (m.words item) 2) a m.words n;
}

free_page_high :
    (ns : List ℕ) (f : ℕ) → get_or ns 0 0 ≢ 0 → get_or ns f 0 ≡ 0 → (f * 2 ^ 12 == 0) ≡ false
free_page_high ns zero taken z = absurd (taken z)
free_page_high ns (suc f) taken z = ground arith

-- unWriteProtectPage by what getFreePage gives and by whether the page has a user only
unshared :
    (item : ℕ) (m : Memory)
    → Mapped item m
    → (r : ℕ × Memory) → get_free_page m ≡ r
    → ((i : ℕ) × (r.0 ≡ i * 2 ^ 12) × Allocated m i r.1)
      ⊎ ((r.0 ≡ 0) × (r.1 ≡ m) × NoneFree m.mem_map)
    → ((is_sole item m ≡ true) ⊎ (is_sole item m ≡ false))
    → Unshared item m
unfolding un_write_protect_page
unshared item m mapped r e case (inl sole) = inl (
  is_sole-IsSole item m sole,
  record m { words = store item (bit_or (m.words item) 2) m.words },
  rw sole refl,
  store-Opened item m,
)
unshared item m mapped r e (inr (z, same, none_free)) (inr many) =
    inr (inr (is_sole-false item m many, rw many (rw (e, z) refl), none_free))
unshared item m mapped r e (inl (f, a, al)) (inr many) =
    let free = (get_or-FirstFree m.mem_map f al.first).0 in
    let high = free_page_high m.mem_map f mapped.page_zero_taken free in
    inr (
      inl (
        is_sole-false item m many,
        f,
        unshare item (page_of (m.words item)) (f * 2 ^ 12) r.1,
        rw many (rw (e, a) (rw high refl)),
        unshare-Copied item f m r.1 al mapped,
      ))

-- For an entry of a page table whose page, not free, is another than the one that the entry stands in,
-- not free either, nor is page 0, and whose count is a byte: where the page is one of the main memory
-- with one user, unWriteProtectPage sets the write bit of the entry and changes nothing else. Any
-- other page it leaves to its other users with one user less (a page of the kernel with its count as it
-- is), and the entry names a page that was free, with the old page's contents and one user, and is
-- present, writable and open to the user; no other word changes. It hangs where no page is free.
pub un_write_protect_page-Copied : (item : ℕ) (m : Memory) → Mapped item m → Unshared item m
un_write_protect_page-Copied item m mapped =
    unshared item m mapped (get_free_page m) refl (get_free_page-Allocated m)
      (Bool-cases (is_sole item m))
