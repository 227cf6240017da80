-- ===== src/Mem/Share.antt =====
-- mm/memory.c: what the inner loop of copyPageTables leaves in the two tables.
use Prim.Native.Nat.{bit_and}
use operator_system.Common.{
  ℕ, zero, suc, ◌+◌, ◌-◌, ◌*◌, ◌/◌, ◌%◌, ◌^◌, ◌<◌, ◌≡◌, ◌≢◌, refl, sym, ap, ◌∙◌, Bool, true, ◌&&◌,
  ◌==◌, length, get_or, set, length-set, get_or-set_self, get_or-set_ne, ==_iff, List, ltb,
  if◌then◌else◌, eq→==, ne→==, Bool-cases, ◌⊎◌, inl, inr, arith,
}
use operator_system.Common.Bits.{bit_and_digit, bit_and-mask}
use operator_system.Mem.{
  Memory, kernel_mem, store, is_present, count_up, share_entry, share_entries,
}

-- an entry without the right to write
abbrev pub read_only : ℕ → ℕ
read_only t = bit_and t (2 ^ 32 - 1 - 2)

-- an entry with the present bit, and one that names a place above the first megabyte
abbrev pub is_used : ℕ → Bool
is_used t = t % 2 == 1

abbrev pub is_counted : ℕ → Bool
is_counted t = is_used t && ltb 0x100000 (read_only t)

-- the address of entry `i` of the table at `base`
abbrev pub entry : (base i : ℕ) → ℕ
entry base zero = base
entry base (suc i) = entry (base + 4) i

-- how many entries of the table at `from` are counted and name the page `j`
abbrev pub users : (cnt from : ℕ) → (ℕ → ℕ) → ℕ → ℕ
users zero from words j = 0
users (suc cnt) from words j =
    let t = words from in
    (if is_counted t && (read_only t / 2 ^ 12 == j) then 1 else 0) + users cnt (from + 4) words j

-- counts as chars
abbrev pub AreChars : List ℕ → Type 0
AreChars ns = (j : ℕ) → j < length ns → get_or ns j 0 < 2 ^ 8

-- the tables at `from` and `to` and the page map after `cnt` rounds
pub record Shared (cnt from to : ℕ) (m m' : Memory) : Type 0 where
  pub copied :
      (i : ℕ)
      → i < cnt
      → let t = m.words (entry from i) in
        m'.words (entry to i) ≡ (if is_used t then read_only t else m.words (entry to i))
  pub write_bit :
      (i : ℕ)
      → i < cnt
      → is_used (m.words (entry from i)) ≡ true
      → m'.words (entry to i) / 2 % 2 ≡ 0
  pub protected :
      (i : ℕ)
      → i < cnt
      → let t = m.words (entry from i) in
        m'.words (entry from i) ≡ (if is_counted t then read_only t else t)
  pub others :
      (a : ℕ) → ((i : ℕ) → i < cnt → (a ≢ entry from i) × (a ≢ entry to i)) → m'.words a ≡ m.words a
  pub pages : length m'.mem_map ≡ length m.mem_map
  pub counts :
      (j : ℕ)
      → j < length m.mem_map
      → get_or m'.mem_map j 0 ≡ (get_or m.mem_map j 0 + users cnt from m.words j) % 2 ^ 8

is_present-is_used : (t : ℕ) → is_present t ≡ is_used t
unfolding is_present
is_present-is_used t = ground (arith, bit_and-mask 1 t)

read_only-bit : (t : ℕ) → read_only t / 2 % 2 ≡ 0
read_only-bit t = omega (arith, bit_and_digit t 0xFFFFFFFD, bit_and_digit (t / 2) 0x7FFFFFFE)

store-here : (a v : ℕ) (w : ℕ → ℕ) → store a v w a ≡ v
unfolding store
store-here a v w = rw (eq→== a a refl) refl

store-there : (a v b : ℕ) (w : ℕ → ℕ) → b ≢ a → store a v w b ≡ w b
unfolding store
store-there a v b w h = rw (ne→== b a h) refl

-- the page map after one round
abbrev counted_once : ℕ → List ℕ → List ℕ
counted_once t ns = if is_counted t then count_up (read_only t / 2 ^ 12) ns else ns

-- one round, in which the entries are at different places
abbrev IsEntry : (from to : ℕ) → Memory → Memory → Type 0
IsEntry from to m m' =
    let t = m.words from in
    (m'.words to ≡ (if is_used t then read_only t else m.words to))
    × (m'.words from ≡ (if is_counted t then read_only t else t))
    × ((a : ℕ) → a ≢ from → a ≢ to → m'.words a ≡ m.words a)
    × (m'.mem_map ≡ counted_once t m.mem_map)

share_entry-IsEntry :
    (from to : ℕ) (m : Memory) → from ≢ to → IsEntry from to m (share_entry from to m)
unfolding share_entry
share_entry-IsEntry from to m apart =
    let t : ℕ = m.words from in
    let r : ℕ = read_only t in
    rw (is_present-is_used t) (elim (Bool-cases (is_used t)) [
      | inr e ↦ rw e (refl, refl, (λ a f g. refl), refl)
      | inl e ↦ elim (Bool-cases (ltb kernel_mem r)) [
        | inl h ↦
            rw (e, h)
              (
                store-there from r to (store to r m.words) (λ k. apart (sym k))
                    ∙ store-here to r m.words,
                store-here from r (store to r m.words),
                (λ a f g.
                    store-there from r a (store to r m.words) f ∙ store-there to r a m.words g),
                refl,
              )
        | inr h ↦
            rw (e, h)
              (
                store-here to r m.words,
                store-there to r from m.words apart,
                (λ a f g. store-there to r a m.words g),
                refl,
              )
      ]
    ])

pub entry-eq : (base i : ℕ) → entry base i ≡ base + 4 * i
entry-eq base zero = omega arith
entry-eq base (suc i) = omega (arith, entry-eq (base + 4) i)

-- the users are those of what the table held, wherever else the words change
users-same :
    (cnt from : ℕ) (v w : ℕ → ℕ) (j : ℕ)
    → ((i : ℕ) → i < cnt → v (entry from i) ≡ w (entry from i))
    → users cnt from v j ≡ users cnt from w j
users-same zero from v w j h = refl
users-same (suc cnt) from v w j h =
    rw (h 0 (omega arith), users-same cnt (from + 4) v w j (λ i l. h (suc i) (omega (arith, l))))
      refl

length-counted_once : (t : ℕ) (ns : List ℕ) → length (counted_once t ns) ≡ length ns
unfolding count_up
length-counted_once t ns = elim (Bool-cases (is_counted t)) [
  | inl e ↦ rw e (length-set ns _ _)
  | inr e ↦ rw e refl
]

get_or-counted_once :
    (t : ℕ) (ns : List ℕ)
    → AreChars ns
    → (j : ℕ) → j < length ns
    → get_or (counted_once t ns) j 0
      ≡ (get_or ns j 0 + (if is_counted t && (read_only t / 2 ^ 12 == j) then 1 else 0)) % 2 ^ 8
unfolding count_up
get_or-counted_once t ns chars j h = elim (Bool-cases (is_counted t)) [
  | inr e ↦ rw e (omega (arith, chars j h))
  | inl e ↦ elim (Bool-cases (read_only t / 2 ^ 12 == j)) [
    | inl g ↦
        rw (e, g)
          (ap (λ (i : ℕ). get_or (set ns i ((get_or ns i 0 + 1) % 2 ^ 8)) j 0) ((==_iff _ j).0 g)
            ∙ get_or-set_self ns j ((get_or ns j 0 + 1) % 2 ^ 8) 0 h)
    | inr g ↦
        rw (e, g)
          (get_or-set_ne ns (read_only t / 2 ^ 12) j _ 0 (ground (arith, g))
            ∙ omega (arith, chars j h))
  ]
]

AreChars-counted :
    (m : Memory) (t : ℕ) (ns : List ℕ)
    → m.mem_map ≡ counted_once t ns
    → AreChars ns
    → AreChars m.mem_map
AreChars-counted m t ns e chars j h =
    let inside : j < length ns =
      omega (arith, h, ap (λ (l : List ℕ). length l) e, length-counted_once t ns) in
    omega (arith, ap (λ (l : List ℕ). get_or l j 0) e, get_or-counted_once t ns chars j inside)

-- no entry of the one table is an entry of the other
abbrev pub Apart : (cnt from to : ℕ) → Type 0
Apart cnt from to = (i j : ℕ) → i < cnt → j < cnt → entry from i ≢ entry to j

-- one round, and the rounds after it
module _ (cnt from to : ℕ) (m m₁ m' : Memory) (apart : Apart (suc cnt) from to)
    (chars : AreChars m.mem_map) (e : IsEntry from to m m₁)
    (s : Shared cnt (from + 4) (to + 4) m₁ m') where
  first_kept : (a : ℕ) → (a ≡ from) ⊎ (a ≡ to) → m'.words a ≡ m₁.words a
  first_kept a h = s.others a (λ i l. elim h [
    | inl p ↦ (
      (λ q. omega (arith, p, q, entry-eq (from + 4) i)),
      (λ q. apart 0 (suc i) (omega arith) (omega (arith, l)) (sym p ∙ q)),
    )
    | inr p ↦ (
      (λ q. apart (suc i) 0 (omega (arith, l)) (omega arith) (sym q ∙ p)),
      (λ q. omega (arith, p, q, entry-eq (to + 4) i)),
    )
  ])

  from_kept : (i : ℕ) → i < cnt → m₁.words (entry (from + 4) i) ≡ m.words (entry (from + 4) i)
  from_kept i l =
      e.2 (entry (from + 4) i) (λ q. omega (arith, q, entry-eq (from + 4) i))
        (apart (suc i) 0 (omega (arith, l)) (omega arith))

  to_kept : (i : ℕ) → i < cnt → m₁.words (entry (to + 4) i) ≡ m.words (entry (to + 4) i)
  to_kept i l =
      e.2 (entry (to + 4) i) (λ q. apart 0 (suc i) (omega arith) (omega (arith, l)) (sym q))
        (λ q. omega (arith, q, entry-eq (to + 4) i))

  copied_at :
      (i : ℕ)
      → i < suc cnt
      → let t = m.words (entry from i) in
        m'.words (entry to i) ≡ (if is_used t then read_only t else m.words (entry to i))
  copied_at zero h = first_kept to (inr refl) ∙ e.0
  copied_at (suc i) h =
      rw⁻¹ (from_kept i (omega (arith, h)), to_kept i (omega (arith, h)))
        (s.copied i (omega (arith, h)))

  protected_at :
      (i : ℕ)
      → i < suc cnt
      → let t = m.words (entry from i) in
        m'.words (entry from i) ≡ (if is_counted t then read_only t else t)
  protected_at zero h = first_kept from (inl refl) ∙ e.1
  protected_at (suc i) h = rw⁻¹ (from_kept i (omega (arith, h))) (s.protected i (omega (arith, h)))

  pages_kept : length m₁.mem_map ≡ length m.mem_map
  pages_kept = ap length e.3 ∙ length-counted_once (m.words from) m.mem_map

  counts_at :
      (j : ℕ)
      → j < length m.mem_map
      → get_or m'.mem_map j 0 ≡ (get_or m.mem_map j 0 + users (suc cnt) from m.words j) % 2 ^ 8
  counts_at j h = omega (
    arith,
    s.counts j (rw pages_kept h),
    users-same cnt (from + 4) m₁.words m.words j from_kept,
    ap (λ (ns : List ℕ). get_or ns j 0) e.3,
    get_or-counted_once (m.words from) m.mem_map chars j h,
  )

  Shared-suc : Shared (suc cnt) from to m m'
  Shared-suc = record {
    copied = copied_at;
    write_bit = λ i h p.
        let t : ℕ = m.words (entry from i) in
        let kept : ℕ = m.words (entry to i) in
        ap (λ x. x / 2 % 2) (copied_at i h ∙ ap (λ b. if b then read_only t else kept) p)
        ∙ read_only-bit t;
    protected = protected_at;
    others = λ a h.
        s.others a (λ i l. h (suc i) (omega (arith, l)))
        ∙ e.2 a (h 0 (omega arith)).0 (h 0 (omega arith)).1;
    pages = s.pages ∙ pages_kept;
    counts = counts_at;
  }

-- Where no entry of the one table is an entry of the other, and the counts are bytes: after the inner
-- loop of copyPageTables over `cnt` entries each present entry stands in the new table without the
-- right to write; in the old table the present entries above the kernel's memory have lost that right
-- and the others are as they were; the count of every page of the map has grown by the number of these
-- entries that name it, modulo 256; and no other word has changed.
pub share_entries-Shared :
    (cnt from to : ℕ) (m : Memory)
    → Apart cnt from to
    → AreChars m.mem_map
    → Shared cnt from to m (share_entries cnt from to m)
unfolding share_entries
share_entries-Shared zero from to m apart chars = record {
  copied = λ i h. absurd (omega (arith, h));
  write_bit = λ i h. absurd (omega (arith, h));
  protected = λ i h. absurd (omega (arith, h));
  others = λ a h. refl;
  pages = refl;
  counts = λ j h. omega (arith, chars j h);
}
share_entries-Shared (suc cnt) from to m apart chars =
    let m₁ : Memory = share_entry from to m in
    let e = share_entry-IsEntry from to m (apart 0 0 (omega arith) (omega arith)) in
    Shared-suc cnt from to m m₁ (share_entries cnt (from + 4) (to + 4) m₁) apart chars e (
      share_entries-Shared cnt (from + 4) (to + 4) m₁
        (λ i j h g. apart (suc i) (suc j) (omega (arith, h)) (omega (arith, g)))
        (AreChars-counted m₁ (m.words from) m.mem_map e.3 chars))
