-- ===== src/Mem/Tests.antt =====
-- The page map and copy on write at a small memory.
use operator_system.Common.{
  ℕ, zero, suc, Bool, true, ◌&&◌, ltb, refl, ◌+◌, ◌*◌, ◌^◌, ◌≡◌, ◌⊎◌, some, List, [], ◌∷◌, ◌++◌,
  ◌==◌, if◌then◌else◌, get_or, replicate, arith,
}
use operator_system.Mem.{Memory, static_map, init_memory, get_free_page, page_of, share_entries}
use operator_system.Mem.Pages.{NoneFree, Allocated, get_free_page-Allocated}
use operator_system.Mem.Reserve.{init_memory-past_end}
use operator_system.Mem.Share.{entry-eq, AreChars, Shared, share_entries-Shared}
use operator_system.Mem.Cow.{Unshared, un_write_protect_page-Copied}

-- the kernel's 256 pages, a page with two users and a free one; the word at 4096 maps the first of
-- the two for reading
abbrev shared_map : List ℕ
shared_map = replicate 256 100 ++ (2 ∷ 0 ∷ [])

abbrev shared_page : Memory
shared_page = record {
  mem_map = shared_map;
  words = λ a. if a == 4096 then 256 * 2 ^ 12 + 5 else a;
}

get_free_page-Allocated_example :
    ((i : ℕ) × ((get_free_page shared_page).0 ≡ i * 2 ^ 12)
      × Allocated shared_page i (get_free_page shared_page).1)
    ⊎ (((get_free_page shared_page).0 ≡ 0)
        × ((get_free_page shared_page).1 ≡ shared_page)
        × NoneFree shared_map)
get_free_page-Allocated_example = get_free_page-Allocated shared_page

un_write_protect_page-Copied_example : Unshared 4096 shared_page
unfolding page_of
un_write_protect_page-Copied_example = un_write_protect_page-Copied 4096 shared_page (record {
  old_counted = omega arith;
  old_char = omega arith;
  table_counted = omega arith;
  apart = omega arith;
  page_zero_taken = omega arith;
})

init_memory-past_end_example :
    (ns : List ℕ) × (init_memory 0x1000000 static_map ≡ some ns) × (get_or ns 5000 0 ≡ 0)
init_memory-past_end_example =
    init_memory-past_end 0x1000000 5000 (omega arith) (omega arith) (omega arith) (omega arith)
      (omega arith)

abbrev all_chars : List ℕ → Bool
all_chars [] = true
all_chars (n ∷ ns) = ltb n (2 ^ 8) && all_chars ns

chars_of : (ns : List ℕ) → all_chars ns ≡ true → AreChars ns
chars_of [] e j h = absurd (omega (arith, h))
chars_of (n ∷ ns) e zero h = ground (arith, e)
chars_of (n ∷ ns) e (suc j) h = chars_of ns (ground (arith, e)) j (omega (arith, h))

-- the page directory's second table and a third one
share_entries-Shared_example :
    Shared 160 4096 8192 shared_page (share_entries 160 4096 8192 shared_page)
share_entries-Shared_example =
    share_entries-Shared 160 4096 8192 shared_page
      (λ i j h g e. omega (arith, h, g, e, entry-eq 4096 i, entry-eq 8192 j))
      (chars_of shared_map refl)
