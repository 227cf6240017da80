-- ===== src/Keyboard/Stuck.antt =====
-- The columns of keymap as kernel/chr_drv/keyboard.c reads them: rows of words as rows of bytes.
use operator_system.Common.{
  ℕ, zero, suc, ◌+◌, ◌%◌, ◌<◌, ◌≡◌, refl, ap, ◌∙◌, ◌⊎◌, inl, inr, Bool, true, false, ◌&&◌, ◌||◌,
  List, [], ◌∷◌, ltb, ◌==◌, if◌then◌else◌, get_or, Bool-cases, arith,
}
use operator_system.Tty.{TtyQueue, put_queue}
use operator_system.Keyboard.{
  Keyboard, keyrow, column, latch, pad_key, press, keyboard_handler, handle_all,
}
use operator_system.Keyboard.Keymap.{keymap}

-- whether every key's own code is a byte
unfoldable all_bytes : List (ℕ × ℕ × ℕ) → Bool
all_bytes [] = true
all_bytes (row ∷ rows) = ltb row.0 256 && all_bytes rows

all_bytes-get_or :
    (rows : List (ℕ × ℕ × ℕ)) (i : ℕ) → all_bytes rows ≡ true → (get_or rows i (0, 0, 0)).0 < 256
unfolding all_bytes
all_bytes-get_or [] i h = omega arith
all_bytes-get_or (row ∷ rows) zero h = ground arith
all_bytes-get_or (row ∷ rows) (suc i) h = all_bytes-get_or rows i (ground arith)

all_bytes-keymap : all_bytes keymap ≡ true
unfolding all_bytes
all_bytes-keymap = refl

-- the key's own code, and 0 in the columns for shift and for the prefix
pub get_or-keyrow :
    (scan_code : ℕ)
    → (get_or (keyrow scan_code) 0 0 ≡ (get_or keymap (scan_code % 128) (0, 0, 0)).0)
      × (get_or (keyrow scan_code) 1 0 ≡ 0)
      × (get_or (keyrow scan_code) 2 0 ≡ 0)
unfolding keyrow
get_or-keyrow scan_code =
    let h = all_bytes-get_or keymap (scan_code % 128) all_bytes-keymap in
    (omega (arith, h), omega (arith, h), omega (arith, h))

-- the read queue after `n` zero bytes
abbrev pub put_zeros : ℕ → TtyQueue → TtyQueue
put_zeros zero q = q
put_zeros (suc n) q = put_zeros n (put_queue 0 q)

-- the number of keys pressed, the repeats and prefixed ones included, in a sequence of scan codes
abbrev pub presses : List ℕ → ℕ
presses [] = 0
presses (c ∷ codes) = (if ltb c 128 then 1 else 0) + presses codes

-- a shift key counts as held, and capitals are not locked
pub record IsShifted (k : Keyboard) : Type 0 where
  pub shift : (k.shift_l || k.shift_r) ≡ true
  pub no_caps : k.caps_lock ≡ false

shifted-column :
    (k : Keyboard) (row : List ℕ) → IsShifted k → (column row k ≡ 1) ⊎ (column row k ≡ 2)
unfolding column
shifted-column k row v = elim (Bool-cases k.code_with_e0) [
  | inl e ↦ inr (rw e refl)
  | inr e ↦ inl (rw (e, v.no_caps) (rw v.shift refl))
]

shifted-key :
    (k : Keyboard) (scan_code : ℕ)
    → IsShifted k
    → get_or (keyrow scan_code) (column (keyrow scan_code) k) 0 ≡ 0
shifted-key k scan_code v =
    let (_, one, two) = get_or-keyrow scan_code in
    elim (shifted-column k (keyrow scan_code) v) [ inl e ↦ rw e one | inr e ↦ rw e two ]

-- One interrupt while shift counts as held.
handler-IsShifted :
    (scan_code : ℕ) (k : Keyboard) (q : TtyQueue)
    → IsShifted k
    → IsShifted (keyboard_handler scan_code k q).0
      × ((keyboard_handler scan_code k q).1 ≡ put_zeros (if ltb scan_code 128 then 1 else 0) q)
unfolding keyboard_handler press latch pad_key
handler-IsShifted scan_code k q v = elim (Bool-cases (scan_code == 0xE1)) [
  | inl e ↦
      let late : ltb scan_code 128 ≡ false = ground (arith, e) in
      rw (e, late, keyboard_handler) (v, refl)
  | inr e ↦ elim (Bool-cases (scan_code == 0xE0)) [
    | inl f ↦
        let late : ltb scan_code 128 ≡ false = ground (arith, f) in
        rw (e, f, late, keyboard_handler) (record { shift = v.shift; no_caps = v.no_caps }, refl)
    | inr f ↦
        rw (e, f, keyboard_handler)
          (rw (shifted-key k scan_code v) (elim (Bool-cases (ltb scan_code 128)) [
            | inl g ↦ rw g (record { shift = v.shift; no_caps = v.no_caps }, refl)
            | inr g ↦ rw g (record { shift = v.shift; no_caps = v.no_caps }, refl)
          ]))
  ]
]

put_zeros-add : (m n : ℕ) (q : TtyQueue) → put_zeros n (put_zeros m q) ≡ put_zeros (m + n) q
put_zeros-add zero n q = let e : n ≡ 0 + n = omega arith in ap (λ (k : ℕ). put_zeros k q) e
put_zeros-add (suc m) n q =
    let e : suc (m + n) ≡ suc m + n = omega arith in
    put_zeros-add m n (put_queue 0 q) ∙ ap (λ (k : ℕ). put_zeros k q) e

-- Once a shift key is held while capitals are not locked, whatever keys are pressed and released:
-- shift stays held, capitals stay unlocked, and each key that is pressed, the letters, digits and
-- the shift keys themselves included, adds the byte 0 to the read queue.
pub handle_all-IsShifted :
    (codes : List ℕ) (k : Keyboard) (q : TtyQueue)
    → IsShifted k
    → let (k', q') = handle_all codes k q in IsShifted k' × (q' ≡ put_zeros (presses codes) q)
unfolding handle_all
handle_all-IsShifted [] k q v = (v, refl)
handle_all-IsShifted (c ∷ codes) k q v =
    let (v', e) = handler-IsShifted c k q v in
    let (w, f) =
      handle_all-IsShifted codes (keyboard_handler c k q).0 (keyboard_handler c k q).1 v' in
    (
      w,
      f
          ∙ (ap (put_zeros (presses codes)) e
              ∙ put_zeros-add (if ltb c 128 then 1 else 0) (presses codes) q),
    )
