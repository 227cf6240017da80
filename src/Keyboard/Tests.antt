-- ===== src/Keyboard/Tests.antt =====
-- Keys through the keyboard's handler.
use operator_system.Common.{◌+◌, ◌≡◌, refl, true, false, none, [], ◌∷◌, replicate, arith}
use operator_system.Tty.{TtyQueue, put_queue}
use operator_system.Keyboard.{Keyboard, at_start, pad_key, handle_all}
use operator_system.Keyboard.Stuck.{IsShifted, put_zeros, presses, handle_all-IsShifted}
use operator_system.Keyboard.Plain.{plain, handle_all-plain}

abbrev empty_queue : TtyQueue
empty_queue = record { base = 0; head = 0; tail = 0; proc_list = none; buf = replicate 1024 0 }

-- after the left shift key went down
abbrev shifted : Keyboard
shifted = record at_start { shift_l = true }

-- the key 7 of the pad with the number lock
handle_all-plain_example :
    handle_all (0x47 ∷ (0x47 + 128) ∷ []) (plain true false []) empty_queue
    ≡ (plain true false [], put_queue (pad_key true 0x39) empty_queue)
handle_all-plain_example =
    handle_all-plain 0x47 true false [] empty_queue (omega arith) (omega arith) (omega arith)
      (record {
        no_shift_l = omega arith;
        no_shift_r = omega arith;
        no_caps_lock = omega arith;
        no_num_lock = omega arith;
        no_scroll_lock = omega arith;
      })

pad_seven : pad_key true 0x39 ≡ 55
unfolding pad_key
pad_seven = refl

shift_down : handle_all (0x2A ∷ []) at_start empty_queue ≡ (shifted, put_queue 8 empty_queue)
unfolding handle_all
shift_down = refl

-- shift is released, and the key A pressed and released
handle_all-IsShifted_example :
    IsShifted (handle_all (0xAA ∷ 0x1E ∷ 0x9E ∷ []) shifted empty_queue).0
    × ((handle_all (0xAA ∷ 0x1E ∷ 0x9E ∷ []) shifted empty_queue).1
        ≡ put_zeros (presses (0xAA ∷ 0x1E ∷ 0x9E ∷ [])) empty_queue)
handle_all-IsShifted_example =
    handle_all-IsShifted (0xAA ∷ 0x1E ∷ 0x9E ∷ []) shifted empty_queue
      (record { shift = refl; no_caps = refl })
