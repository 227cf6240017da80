-- ===== src/Mem/Reserve.antt =====
-- initMemory of mm/memory.c.
use operator_system.Common.{
  ℕ, zero, suc, ◌+◌, ◌-◌, ◌*◌, ◌/◌, ◌^◌, ◌≤◌, ◌<◌, ◌≡◌, refl, sym, ap, ◌∙◌, false, some, List, [],
  ◌∷◌, ltb, leb, if◌then◌else◌, Bool, get_or, length, replicate, length-replicate, arith,
}
use operator_system.Mem.{mem_size_max, static_map, init_map, init_memory}
use operator_system.Mem.Pages.{FirstFree, get_or-FirstFree}

-- An entry of the map after initMemory's loop.
get_or-init_map :
    (b e i j d : ℕ) (ns : List ℕ)
    → j < length ns
    → get_or (init_map b e i ns) j d ≡ (
        if leb (i + j) (b / 2 ^ 12)
        then 100
        else if leb (i + j) (e / 2 ^ 12)
        then 0
        else get_or ns j d)
unfolding init_map
get_or-init_map b e i j d [] h = absurd (omega arith)
get_or-init_map b e i zero d (n ∷ ns) h = ground arith
get_or-init_map b e i (suc j) d (n ∷ ns) h =
    get_or-init_map b e (i + 1) j d ns (omega arith)
    ∙ ap (λ k. if leb k (b / 2 ^ 12) then 100 else if leb k (e / 2 ^ 12) then 0 else get_or ns j d)
        (omega arith)

pub length-init_map : (b e i : ℕ) (ns : List ℕ) → length (init_map b e i ns) ≡ length ns
unfolding init_map
length-init_map b e i [] = refl
length-init_map b e i (n ∷ ns) = ap suc (length-init_map b e (i + 1) ns)

-- the memory in whole pages
abbrev pub whole_pages : ℕ → ℕ
whole_pages size = size / 2 ^ 12 * 2 ^ 12

page_tests :
    (u j : ℕ)
    → 4 ≤ u
    → (leb (0 + j) ((u / 4 - 1) / 2 ^ 12) ≡ ltb (j * 2 ^ 12) (u / 4))
      × (leb (0 + j) ((u - 1) / 2 ^ 12) ≡ ltb (j * 2 ^ 12) u)
page_tests u j h = (ground arith, ground arith)

-- initMemory, for a memory of 4 MB to 60 MB: a page that begins below the first quarter is reserved
-- (100), a page from there to the end of the memory is free (0), and a page past the end keeps the
-- count that it had.
pub init_memory-get_or :
    (size j : ℕ) (ns : List ℕ)
    → 0x400000 ≤ size
    → size ≤ 0x3C00000
    → j < length ns
    → (ns' : List ℕ) × (init_memory size ns ≡ some ns')
      × (get_or ns' j 0 ≡ (
          if ltb (j * 2 ^ 12) (whole_pages size / 4)
          then 100
          else if ltb (j * 2 ^ 12) (whole_pages size)
          then 0
          else get_or ns j 0))
unfolding init_memory
init_memory-get_or size j ns lo hi h =
    let u : ℕ = whole_pages size in
    let big : ltb 0x3C00000 size ≡ false = ground arith in
    let small : ltb u 0x400000 ≡ false = ground arith in
    let (p, q) = page_tests u j (omega arith) in
    (
      init_map (u / 4 - 1) (u - 1) 0 ns,
      rw (big, init_memory) (rw small refl),
      get_or-init_map (u / 4 - 1) (u - 1) 0 j 0 ns h ∙ rw (p, q) refl,
    )

reserved : (a b n : ℕ) (c : Bool) → (if ltb a b then 100 else if c then 0 else n) ≡ 0 → b ≤ a
reserved a b n c h = ground arith

-- A page that getFreePage can give out after initMemory lies past the first quarter.
pub init_memory-FirstFree :
    (size : ℕ) (ns : List ℕ)
    → 0x400000 ≤ size
    → size ≤ 0x3C00000
    → (ns' : List ℕ) × (init_memory size ns ≡ some ns')
      × ((j : ℕ) → FirstFree ns' j → whole_pages size / 4 ≤ j * 2 ^ 12)
unfolding init_memory
init_memory-FirstFree size ns lo hi =
    let u : ℕ = whole_pages size in
    let big : ltb 0x3C00000 size ≡ false = ground arith in
    let small : ltb u 0x400000 ≡ false = ground arith in
    (
      init_map (u / 4 - 1) (u - 1) 0 ns,
      rw (big, init_memory) (rw small refl),
      λ j f.
          let (free, room) = get_or-FirstFree (init_map (u / 4 - 1) (u - 1) 0 ns) j f in
          let (p, q) = page_tests u j (omega arith) in
          reserved (j * 2 ^ 12) (u / 4) (get_or ns j 0) (ltb (j * 2 ^ 12) u) (
            sym (
              get_or-init_map (u / 4 - 1) (u - 1) 0 j 0 ns
                (omega (arith, room, length-init_map (u / 4 - 1) (u - 1) 0 ns))
              ∙ rw (p, q) refl)
            ∙ free),
    )

not_below : (a b : ℕ) → b ≤ a → (ltb a (b / 4) ≡ false) × (ltb a b ≡ false)
not_below a b h = (ground arith, ground arith)

get_or-replicate : (n j : ℕ) → get_or {A = ℕ} (replicate n 0) j 0 ≡ 0
get_or-replicate zero j = refl
get_or-replicate (suc n) zero = refl
get_or-replicate (suc n) (suc j) = get_or-replicate n j

get_or-first : (n j v : ℕ) → 0 < j → get_or {A = ℕ} (v ∷ replicate n 0) j 0 ≡ 0
get_or-first n zero v h = absurd (omega arith)
get_or-first n (suc j) v h = get_or-replicate n j

length-static_map : length static_map ≡ 8192
length-static_map = ap suc (length-replicate {A = ℕ} 8191 0)

-- After initMemory on the map as it is loaded, for a memory of 4 MB to less than 32 MB, a page past
-- the end of the memory has the count 0 of a free page.
pub init_memory-past_end :
    (size j : ℕ)
    → 0x400000 ≤ size
    → size < mem_size_max
    → 0 < j
    → j < 8192
    → whole_pages size ≤ j * 2 ^ 12
    → (ns : List ℕ) × (init_memory size static_map ≡ some ns) × (get_or ns j 0 ≡ 0)
init_memory-past_end size j lo hi pos below past =
    let (ns, e, v) =
      init_memory-get_or size j static_map lo (omega arith) (rw length-static_map below) in
    let (t, u) = not_below (j * 2 ^ 12) (whole_pages size) past in
    (ns, e, v ∙ rw (t, u) (get_or-first 8191 j 255 pos))
