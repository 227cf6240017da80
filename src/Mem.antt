-- ===== src/Mem.antt =====
-- mm/memory.c: the page map, page allocation, page tables and copy on write.
pub mod Pages
pub mod Reserve
pub mod Cow
pub mod Share
mod Tests
use Prim.Native.Nat.{bit_and, bit_or}
use operator_system.Common.{
  ℕ, zero, suc, ◌+◌, ◌-◌, ◌*◌, ◌/◌, ◌%◌, ◌^◌, Bool, true, false, not, ◌&&◌, ◌||◌, Option, none,
  some, List, [], ◌∷◌, ltb, leb, ◌==◌, if◌then◌else◌, get_or, set, replicate,
}
use operator_system.Common.Word.{add32}

-- KERNEL_MEM, MEM_SIZE, PAGES_SIZE
abbrev pub kernel_mem : ℕ
kernel_mem = 0x100000

abbrev pub mem_size_max : ℕ
mem_size_max = 32 * 1024 * 1024

abbrev pub pages_size : ℕ
pages_size = mem_size_max / 2 ^ 12

-- MEM_MAP, an array of signed chars held as bytes 0 to 255 (-1 is 255), and the words of physical
-- memory at their addresses, the page directory and the page tables among them.
pub record Memory : Type 0 where
  pub mem_map : List ℕ
  pub words : ℕ → ℕ

unfoldable pub store : ℕ → ℕ → (ℕ → ℕ) → ℕ → ℕ
store a v words b = if b == a then v else words b

-- MEM_MAP as the loader leaves it: `{-1,}`
abbrev pub static_map : List ℕ
static_map = 255 ∷ replicate 8191 0

-- the loop of initMemory from page `i` on
unfoldable pub init_map : (buf_mem_end main_mem_end i : ℕ) → List ℕ → List ℕ
init_map buf_mem_end main_mem_end i [] = []
init_map buf_mem_end main_mem_end i (n ∷ ns) =
    (if leb i (buf_mem_end / 2 ^ 12) then 100 else if leb i (main_mem_end / 2 ^ 12) then 0 else n)
    ∷ init_map buf_mem_end main_mem_end (i + 1) ns

-- initMemory for a size of 0 or more; `none` where it spins on less than 4 MB
unfoldable pub init_memory : ℕ → List ℕ → Option (List ℕ)
unfolding init_map
init_memory mem_size ns =
    let size = (if ltb 0x3C00000 mem_size then 0x3C00000 else mem_size) / 2 ^ 12 * 2 ^ 12 in
    if ltb size 0x400000 then none else some (init_map (size / 4 - 1) (size - 1) 0 ns)

-- the loop that clears a page, `n` words from `j` on
unfoldable pub clear_words : (n j : ℕ) → (ℕ → ℕ) → ℕ → ℕ
unfolding store
clear_words zero j words = words
clear_words (suc n) j words = clear_words n (j + 4) (store j 0 words)

-- the index of the first page from `i` on that the map has 0 for
unfoldable pub first_free : (i : ℕ) → List ℕ → Option ℕ
first_free i [] = none
first_free i (n ∷ ns) = if n == 0 then some i else first_free (i + 1) ns

-- getFreePage: the address of the page, or 0
unfoldable pub get_free_page : Memory → ℕ × Memory
unfolding clear_words first_free
get_free_page m = elim (first_free 0 m.mem_map) [
  | none ↦ (0, m)
  | some i ↦ (
    i * 2 ^ 12,
    record { mem_map = set m.mem_map i 1; words = clear_words 1024 (i * 2 ^ 12) m.words },
  )
]

-- freePage; `none` where it spins on an address past the end. The decrement is on a char.
unfoldable pub free_page : ℕ → Memory → Option Memory
free_page addr m =
    let i = addr / 2 ^ 12 in
    let n = get_or m.mem_map i 0 in
    if ltb addr kernel_mem
    then some m
    else if leb mem_size_max addr
    then none
    else if n == 0
    then some (record m { mem_map = set m.mem_map i 0 })
    else some (record m { mem_map = set m.mem_map i (n - 1) })

-- `0xfffff000 & e`, `PG_P & e` as a test
unfoldable pub page_of : ℕ → ℕ
page_of e = e / 2 ^ 12 * 2 ^ 12

unfoldable pub is_present : ℕ → Bool
is_present e = not (bit_and e 1 == 0)

-- `MEM_MAP[i]++` on a char. The write past the end of MEM_MAP that the source makes for an address
-- beyond 32 MB has no effect here.
unfoldable pub count_up : ℕ → List ℕ → List ℕ
count_up i ns = set ns i ((get_or ns i 0 + 1) % 2 ^ 8)

-- One round of the inner loop of copyPageTables, for the entries at `from` and `to`.
unfoldable pub share_entry : (from to : ℕ) → Memory → Memory
unfolding store is_present count_up
share_entry from to m =
    let t = m.words from in
    let t' = bit_and t (2 ^ 32 - 1 - 2) in
    if not (is_present t)
    then m
    else if ltb kernel_mem t'
    then record {
      mem_map = count_up (t' / 2 ^ 12) m.mem_map;
      words = store from t' (store to t' m.words);
    }
    else record m { words = store to t' m.words }

unfoldable pub share_entries : (cnt from to : ℕ) → Memory → Memory
unfolding share_entry
share_entries zero from to m = m
share_entries (suc cnt) from to m = share_entries cnt (from + 4) (to + 4) (share_entry from to m)

-- the outer loop of copyPageTables: whether it succeeds, and the memory
unfoldable pub copy_tables : (n src_addr from_dir to_dir : ℕ) → Memory → Bool × Memory
unfolding share_entries get_free_page
copy_tables zero src_addr from_dir to_dir m = (true, m)
copy_tables (suc n) src_addr from_dir to_dir m =
    let (page, m₁) = get_free_page m in
    let m₂ =
      share_entries (if src_addr == 0 then 0xA0 else 1024) (page_of (m.words from_dir)) page
        (record m₁ { words = store to_dir (bit_or (bit_or (bit_or page 1) 2) 4) m₁.words }) in
    let absent = copy_tables n src_addr (from_dir + 4) (to_dir + 4) m in
    let copied = copy_tables n src_addr (from_dir + 4) (to_dir + 4) m₂ in
    if is_present (m.words to_dir)
    then (false, m)
    else if not (is_present (m.words from_dir))
    then absent
    else if page == 0
    then (false, m₁)
    else copied

-- copyPageTables: true for 0, false for -1
unfoldable pub copy_page_tables : (dest_addr src_addr size : ℕ) → Memory → Bool × Memory
unfolding copy_tables
copy_page_tables dest_addr src_addr size m =
    if not (dest_addr % 2 ^ 22 == 0) || not (src_addr % 2 ^ 22 == 0)
    then (false, m)
    else copy_tables (add32 size 0x3fffff / 2 ^ 22) src_addr (src_addr / 2 ^ 22 * 4)
        (dest_addr / 2 ^ 22 * 4) m

-- the inner loop of freePageTables; `none` where freePage spins
unfoldable pub free_entries : (n table : ℕ) → Memory → Option Memory
unfolding free_page store is_present page_of
free_entries zero table m = some m
free_entries (suc n) table m =
    elim (if is_present (m.words table) then free_page (page_of (m.words table)) m else some m) [
      | none ↦ none
      | some m' ↦ free_entries n (table + 4) (record m' { words = store table 0 m'.words })
    ]

-- the outer loop of freePageTables
unfoldable pub free_tables : (n dir : ℕ) → Memory → Option Memory
unfolding free_entries
free_tables zero dir m = some m
free_tables (suc n) dir m = elim (is_present (m.words dir)) [
  | false ↦ free_tables n (dir + 4) m
  | true ↦ elim (free_entries 1024 (page_of (m.words dir)) m) [
    | none ↦ none
    | some m₁ ↦ elim (free_page (page_of (m₁.words dir)) m₁) [
      | none ↦ none
      | some m₂ ↦ free_tables n (dir + 4) (record m₂ { words = store dir 0 m₂.words })
    ]
  ]
]

-- freePageTables: true for 0, false for -1
unfoldable pub free_page_tables : (addr size : ℕ) → Memory → Option (Bool × Memory)
unfolding free_tables
free_page_tables addr size m =
    if not (addr % 2 ^ 22 == 0) || addr == 0
    then some (false, m)
    else elim (free_tables (add32 size 0x3fffff / 2 ^ 22) (addr / 2 ^ 22 * 4) m) [
      | none ↦ none
      | some m' ↦ some (true, m')
    ]

-- memcpy of lib/memlib.asm for one page
unfoldable pub copy_page : (dest src : ℕ) → (ℕ → ℕ) → ℕ → ℕ
copy_page dest src words a =
    if leb dest a && ltb a (dest + 4096) then words (src + (a - dest)) else words a

-- unWriteProtectPage from the test of the new page on, with the memory that getFreePage leaves
unfoldable pub unshare : (item old_page new_page : ℕ) → Memory → Memory
unfolding store copy_page
unshare item old_page new_page m =
    let i = old_page / 2 ^ 12 in
    record {
      mem_map =
          if leb kernel_mem old_page
          then set m.mem_map i ((get_or m.mem_map i 0 + 255) % 2 ^ 8)
          else m.mem_map;
      words =
          copy_page new_page old_page
            (store item (bit_or (bit_or (bit_or new_page 4) 2) 1) m.words);
    }

-- unWriteProtectPage on the entry at address `item`; `none` where no page is left and it spins
unfoldable pub un_write_protect_page : (item : ℕ) → Memory → Option Memory
unfolding get_free_page store page_of unshare
un_write_protect_page item m =
    let old_page = page_of (m.words item) in
    let (new_page, m₁) = get_free_page m in
    if leb kernel_mem old_page && (get_or m.mem_map (old_page / 2 ^ 12) 0 == 1)
    then some (record m { words = store item (bit_or (m.words item) 2) m.words })
    else if new_page == 0
    then none
    else some (unshare item old_page new_page m₁)

-- writeProtectPage: the entry of the page table for `addr`; its printk, which only prints, is left
-- out
unfoldable pub write_protect_page : (addr : ℕ) → Memory → Option Memory
unfolding un_write_protect_page
write_protect_page addr m =
    un_write_protect_page (page_of (m.words (addr / 2 ^ 22 * 4)) + addr / 2 ^ 12 % 2 ^ 10 * 4) m
