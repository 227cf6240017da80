-- ===== src/Tty/Ring.antt =====
-- The circular buffer of a terminal queue as the sequence of bytes that wait in it.
use operator_system.Common.{
  ℕ, zero, suc, ◌+◌, ◌-◌, ◌%◌, ◌<◌, ◌≡◌, ap, ◌∙◌, false, List, [], ◌∷◌, ◌++◌, get_or, set, length,
  length-set, get_or-set_self, get_or-set_ne, arith,
}
use mathlib.Core.Path.{ap₂}
use operator_system.Common.Word.{add32}
use operator_system.Console.{Console, put_char}
use operator_system.Console.Screen.{feed}
use operator_system.Tty.{TtyQueue, buf_size, full_queue, put_queue, con_loop}

-- both indices and the array in bounds
pub record IsQueue (q : TtyQueue) : Type 0 where
  pub room : length q.buf ≡ buf_size
  pub head_in : q.head < buf_size
  pub tail_in : q.tail < buf_size

-- the `n` bytes from index `i` on, going round
abbrev pub window : List ℕ → ℕ → ℕ → List ℕ
window buf i zero = []
window buf i (suc n) = get_or buf i 0 ∷ window buf ((i + 1) % 1024) n

-- the number of bytes that wait, and the bytes, the oldest first
abbrev pub waiting : TtyQueue → ℕ
waiting q = (q.head + 1024 - q.tail) % 1024

abbrev pub pending : TtyQueue → List ℕ
pending q = window q.buf q.tail (waiting q)

-- A byte stored behind a window extends it.
window-set :
    (buf : List ℕ) (v n i j : ℕ)
    → length buf ≡ 1024
    → i < 1024
    → n < 1023
    → j ≡ (i + n) % 1024
    → window (set buf j v) i (suc n) ≡ window buf i n ++ (v ∷ [])
window-set buf v zero i j room hi hn e =
    let q : j ≡ i = omega (arith, e) in rw (q, get_or-set_self buf i v 0 (omega arith))
window-set buf v (suc n) i j room hi hn e =
    ap₂ ◌∷◌ (get_or-set_ne buf j i v 0 (omega (arith, e)))
      (window-set buf v n ((i + 1) % 1024) j room (omega arith) (omega arith) (omega (arith, e)))

pub put_queue-IsQueue : (c : ℕ) {q : TtyQueue} → IsQueue q → IsQueue (put_queue c q)
unfolding put_queue
put_queue-IsQueue c {q} v = ground (arith, length-set q.buf q.head c)

-- On a queue that is not full put_queue appends.
pub pending-put_queue :
    (c : ℕ) {q : TtyQueue}
    → IsQueue q
    → full_queue q ≡ false
    → pending (put_queue c q) ≡ pending q ++ (c ∷ [])
unfolding put_queue full_queue
pending-put_queue c {q} v h =
    let n : waiting (put_queue c q) ≡ suc (waiting q) = ground arith in
    rw n
      (window-set q.buf c (waiting q) q.tail q.head v.room v.tail_in (ground arith) (omega arith))

-- The loop of conWrite hands the bytes of a window to the console, in order.
pub con_loop-feed :
    (verase n : ℕ) (q : TtyQueue) (c : Console)
    → q.tail < 1024
    → con_loop verase n q c
      ≡ (record q { tail = (q.tail + n) % 1024 }, feed verase (window q.buf q.tail n) c)
unfolding con_loop feed
con_loop-feed verase zero q c h = ap (λ t. (record q { tail = t }, c)) (omega arith)
con_loop-feed verase (suc n) q c h =
    con_loop-feed verase n (record q { tail = add32 q.tail 1 % buf_size })
      (put_char verase (get_or q.buf q.tail 0) c) (omega arith)
    ∙ later
  where
    t : ℕ
    t = add32 q.tail 1 % buf_size

    d : Console
    d = put_char verase (get_or q.buf q.tail 0) c

    index : t ≡ (q.tail + 1) % 1024
    index = omega arith

    later :
        ◌≡◌ {A = TtyQueue × Console}
          (record q { tail = (t + n) % 1024 }, feed verase (window q.buf t n) d)
          (
            record q { tail = (q.tail + suc n) % 1024 },
            feed verase (window q.buf ((q.tail + 1) % 1024) n) d,
          )
    later =
        ap₂ (λ a b. (record q { tail = a }, feed verase (window q.buf b n) d)) (omega arith) index
