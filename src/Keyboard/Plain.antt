-- ===== src/Keyboard/Plain.antt =====
-- A key pressed and released through kernel/chr_drv/keyboard.c with no shift key held and no lock.
use operator_system.Common.{
  ℕ, ◌+◌, ◌%◌, ◌<◌, ◌≡◌, ◌≢◌, refl, sym, ap, ◌∙◌, inl, inr, Bool, true, false, List, [], ◌∷◌, ltb,
  ◌==◌, get_or, Bool-cases, arith,
}
use operator_system.Tty.{TtyQueue, put_queue}
use operator_system.Keyboard.{
  Keyboard, keyrow, column, latch, pad_key, press, keyboard_handler, handle_all,
}
use operator_system.Keyboard.Key
use operator_system.Keyboard.Keymap.{keymap}
use operator_system.Keyboard.Stuck.{get_or-keyrow}

-- no key held, capitals not locked
abbrev pub plain : (num_lock scroll_lock : Bool) → List ℕ → Keyboard
plain num_lock scroll_lock led_bytes = record {
  shift_l = false;
  shift_r = false;
  alt_l = false;
  alt_r = false;
  ctrl_l = false;
  ctrl_r = false;
  caps_lock = false;
  num_lock = num_lock;
  scroll_lock = scroll_lock;
  code_with_e0 = false;
  led_bytes = led_bytes;
}

-- a key that is neither a shift key nor a lock
pub record IsOrdinary (key : ℕ) : Type 0 where
  pub no_shift_l : key ≢ Key.shift_l
  pub no_shift_r : key ≢ Key.shift_r
  pub no_caps_lock : key ≢ Key.caps_lock
  pub no_num_lock : key ≢ Key.num_lock
  pub no_scroll_lock : key ≢ Key.scroll_lock

-- no shift key held, capitals not locked, no prefix seen
pub record IsUnshifted (n : Bool) (k : Keyboard) : Type 0 where
  pub no_left : k.shift_l ≡ false
  pub no_right : k.shift_r ≡ false
  pub no_caps : k.caps_lock ≡ false
  pub no_prefix : k.code_with_e0 ≡ false
  pub num : k.num_lock ≡ n

unshifted :
    {n s ca cr aa ar : Bool} {l : List ℕ}
    → IsUnshifted n (record {
      shift_l = false;
      shift_r = false;
      alt_l = aa;
      alt_r = ar;
      ctrl_l = ca;
      ctrl_r = cr;
      caps_lock = false;
      num_lock = n;
      scroll_lock = s;
      code_with_e0 = false;
      led_bytes = l;
    })
unshifted = record { no_left = refl; no_right = refl; no_caps = refl; no_prefix = refl; num = refl }

differ : (a b : ℕ) → a ≢ b → (a == b) ≡ false
differ a b h = ground (arith, h)

same : (a b : ℕ) → (a == b) ≡ true → a ≡ b
same a b h = ground (arith, h)

-- pressed and released, a key leaves the keyboard as it was
latch_release :
    (key : ℕ) (n s : Bool) (l : List ℕ)
    → IsOrdinary key
    → (latch key false (latch key true (plain n s l)) ≡ plain n s l)
      × IsUnshifted n (latch key true (plain n s l))
unfolding latch
latch_release key n s l v = elim (Bool-cases (key == Key.ctrl_l)) [
  | inl a ↦ rw (same key Key.ctrl_l a) (refl, unshifted)
  | inr a ↦ elim (Bool-cases (key == Key.ctrl_r)) [
    | inl b ↦ rw (same key Key.ctrl_r b) (refl, unshifted)
    | inr b ↦ elim (Bool-cases (key == Key.alt_l)) [
      | inl c ↦ rw (same key Key.alt_l c) (refl, unshifted)
      | inr c ↦ elim (Bool-cases (key == Key.alt_r)) [
        | inl d ↦ rw (same key Key.alt_r d) (refl, unshifted)
        | inr d ↦
            rw
              (
                differ key Key.shift_l v.no_shift_l,
                differ key Key.shift_r v.no_shift_r,
                a,
                b,
                c,
                d,
                differ key Key.caps_lock v.no_caps_lock,
                differ key Key.num_lock v.no_num_lock,
                differ key Key.scroll_lock v.no_scroll_lock,
                latch,
              )
              (refl, unshifted)
      ]
    ]
  ]
]

unprefixed : {n : Bool} (k : Keyboard) → IsUnshifted n k → record k { code_with_e0 = false } ≡ k
unprefixed k v = ap (λ (e : Bool). record k { code_with_e0 = e }) (sym v.no_prefix)

unshifted-column : {n : Bool} (row : List ℕ) (k : Keyboard) → IsUnshifted n k → column row k ≡ 0
unfolding column
unshifted-column row k v = rw (v.no_prefix, v.no_caps) (rw (v.no_left, v.no_right) refl)

press_at :
    {a b : ℕ} {k₁ k₂ : Keyboard} (make : Bool) (q : TtyQueue)
    → a ≡ b
    → k₁ ≡ k₂
    → press a make k₁ q ≡ press b make k₂ q
press_at {b = b} {k₁ = k₁} make q e f =
    ap (λ (t : ℕ). press t make k₁ q) e ∙ ap (λ (t : Keyboard). press b make t q) f

-- A byte that is no prefix.
handler-press :
    (scan_code : ℕ) (k : Keyboard) (q : TtyQueue)
    → scan_code ≢ 0xE0
    → scan_code ≢ 0xE1
    → keyboard_handler scan_code k q
      ≡ press
          (get_or (keyrow scan_code) (column (keyrow scan_code) k) 0)
          (ltb scan_code 128)
          (record k { code_with_e0 = false })
          q
unfolding keyboard_handler
handler-press scan_code k q e0 e1 =
    rw (differ scan_code 0xE1 e1, differ scan_code 0xE0 e0, keyboard_handler) refl

-- A byte that is no prefix, without shift: the handler takes the key's own code.
handler-unshifted :
    {n : Bool} (scan_code i : ℕ) (k : Keyboard) (q : TtyQueue)
    → IsUnshifted n k
    → scan_code ≢ 0xE0
    → scan_code ≢ 0xE1
    → scan_code % 128 ≡ i
    → keyboard_handler scan_code k q ≡ press (get_or keymap i (0, 0, 0)).0 (ltb scan_code 128) k q
handler-unshifted scan_code i k q v e0 e1 e =
    let (own, _, _) = get_or-keyrow scan_code in
    handler-press scan_code k q e0 e1
    ∙ press_at (ltb scan_code 128) q
        (rw (unshifted-column (keyrow scan_code) k v)
          (own ∙ ap (λ (t : ℕ). (get_or keymap t (0, 0, 0)).0) e))
        (unprefixed k v)

press_down :
    {n : Bool} (key : ℕ) (k : Keyboard) (q : TtyQueue)
    → (latch key true k).num_lock ≡ n
    → press key true k q ≡ (latch key true k, put_queue (pad_key n key) q)
unfolding press
press_down key k q e = ap (λ (t : Bool). (latch key true k, put_queue (pad_key t key) q)) e

press_up : (key : ℕ) (k : Keyboard) (q : TtyQueue) → press key false k q ≡ (latch key false k, q)
unfolding press
press_up key k q = refl

handle_two :
    (a b : ℕ) (k k₁ : Keyboard) (q q₁ : TtyQueue) {r : Keyboard × TtyQueue}
    → keyboard_handler a k q ≡ (k₁, q₁)
    → keyboard_handler b k₁ q₁ ≡ r
    → handle_all (a ∷ b ∷ []) k q ≡ r
unfolding handle_all
handle_two a b k k₁ q q₁ e f = ap (λ (p : Keyboard × TtyQueue). keyboard_handler b p.0 p.1) e ∙ f

-- A key other than the shift keys and the locks, pressed and released while no key is held and
-- capitals are not locked: the read queue gets the key's code, or for a key of the pad the one that
-- the number lock gives it, and the keyboard is left as it was.
pub handle_all-plain :
    (scan_code : ℕ) (n s : Bool) (l : List ℕ) (q : TtyQueue)
    → scan_code < 128
    → scan_code ≢ 0x60
    → scan_code ≢ 0x61
    → IsOrdinary (get_or keymap scan_code (0, 0, 0)).0
    → handle_all (scan_code ∷ (scan_code + 128) ∷ []) (plain n s l) q
      ≡ (plain n s l, put_queue (pad_key n (get_or keymap scan_code (0, 0, 0)).0) q)
handle_all-plain scan_code n s l q h e0 e1 v =
    let key : ℕ = (get_or keymap scan_code (0, 0, 0)).0 in
    let (restored, u) = latch_release key n s l v in
    let first =
      handler-unshifted scan_code scan_code (plain n s l) q unshifted (omega arith) (omega arith)
        (omega arith) in
    let second =
      handler-unshifted (scan_code + 128) scan_code (latch key true (plain n s l))
        (put_queue (pad_key n key) q) u (omega (arith, e0)) (omega (arith, e1)) (omega arith) in
    let down : ltb scan_code 128 ≡ true = ground arith in
    let release : ltb (scan_code + 128) 128 ≡ false = ground arith in
    handle_two scan_code (scan_code + 128) (plain n s l) (latch key true (plain n s l)) q
      (put_queue (pad_key n key) q)
      (first
        ∙ (ap (λ (t : Bool). press key t (plain n s l) q) down
            ∙ press_down key (plain n s l) q u.num))
      (second
        ∙ (ap
              (λ (t : Bool).
                press key t (latch key true (plain n s l)) (put_queue (pad_key n key) q))
              release
            ∙ (press_up key (latch key true (plain n s l)) (put_queue (pad_key n key) q)
                ∙ ap (λ (t : Keyboard). (t, put_queue (pad_key n key) q)) restored)))
