-- ===== src/Tty/Write.antt =====
-- ttyWrite of kernel/chr_drv/tty.c on the console: every byte reaches the screen, after the output
-- processing that the flags ask for.
use operator_system.Common.{
  ℕ, zero, suc, ◌+◌, ◌*◌, ◌%◌, ◌≤◌, ◌<◌, ◌≡◌, ◌≢◌, refl, sym, ap, ◌∙◌, inl, inr, Bool, true, false,
  some, List, [], ◌∷◌, ◌++◌, ◌==◌, if◌then◌else◌, get_or, length, Bool-cases, arith,
}
use mathlib.Core.Bool.{false≢true}
use mathlib.Core.List.{append_assoc}
use operator_system.Common.Word.{sub32}
use operator_system.Console.{Console, set_cursor}
use operator_system.Console.Screen.{screen, feed, feed-append, screen-set_cursor, screen-feed}
use operator_system.Tty.{
  TtyQueue, console, Tty, buf_size, return_first, stored, full_queue, put_queue, con_write,
  drive_by, drive, fill, write_loop, tty_write,
}
use operator_system.Tty.Ring.{
  IsQueue, waiting, pending, put_queue-IsQueue, pending-put_queue, con_loop-feed,
}

-- What the terminal is to get for the bytes `src`; the flag says that the return of the first one
-- has been sent.
unfoldable pub cooked : (oflag : ℕ) → Bool → List ℕ → List ℕ
cooked oflag sent [] = []
cooked oflag sent (c ∷ src) =
    if return_first oflag c sent
    then 13 ∷ stored oflag c ∷ cooked oflag false src
    else stored oflag c ∷ cooked oflag false src

return_first-sent : (oflag c : ℕ) → return_first oflag c true ≡ false
unfolding return_first
return_first-sent oflag c = ground arith

return_first-once :
    (oflag c : ℕ) (cr_flag : Bool) → return_first oflag c cr_flag ≡ true → cr_flag ≡ false
unfolding return_first
return_first-once oflag c cr_flag h = ground arith

-- the rounds that are left
abbrev pub left : List ℕ → Bool → ℕ
left src cr_flag = 2 * length src + (if cr_flag then 0 else 1)

-- what the inner loop makes of a queue, the bytes and the flag
record Filled (oflag : ℕ) (q : TtyQueue) (src : List ℕ) (cr_flag : Bool)
    (out : TtyQueue × List ℕ × Bool) : Type 0 where
  queue : IsQueue out.0
  kept : pending out.0 ++ cooked oflag out.2 out.1 ≡ pending q ++ cooked oflag cr_flag src
  fewer : left out.1 out.2 ≤ left src cr_flag
  moved : full_queue q ≡ false → src ≢ [] → left out.1 out.2 < left src cr_flag

fill-Filled :
    (fuel oflag : ℕ) (q : TtyQueue) (src : List ℕ) (cr_flag : Bool)
    → IsQueue q
    → left src cr_flag < fuel
    → (out : TtyQueue × List ℕ × Bool) × (fill fuel oflag q src cr_flag ≡ some out)
      × Filled oflag q src cr_flag out
unfolding fill cooked
fill-Filled zero oflag q src cr_flag v h = absurd (omega arith)
fill-Filled (suc fuel) oflag q [] cr_flag v h = (
  (q, [], cr_flag),
  refl,
  record { queue = v; kept = refl; fewer = omega arith; moved = λ _ ne. absurd (ne refl) },
)
fill-Filled (suc fuel) oflag q (c ∷ src) cr_flag v h = elim (Bool-cases (full_queue q)) [
  | inl full ↦ (
    (q, c ∷ src, cr_flag),
    rw full,
    record {
      queue = v;
      kept = refl;
      fewer = omega arith;
      moved = λ e _. absurd (false≢true (sym e ∙ full));
    },
  )
  | inr space ↦ elim (Bool-cases (return_first oflag c cr_flag)) [
    | inl ret ↦
        let v' = put_queue-IsQueue 13 v in
        let first = return_first-once oflag c cr_flag ret in
        let (out, go, f) =
          fill-Filled fuel oflag (put_queue 13 q) (c ∷ src) true v' (ground (arith, first)) in
        (
          out,
          rw (space, ret) go,
          record {
            queue = f.queue;
            kept =
                f.kept
                ∙ rw (pending-put_queue 13 v space, return_first-sent oflag c, ret)
                    (append_assoc (pending q) (13 ∷ []) (stored oflag c ∷ cooked oflag false src));
            fewer = ground (arith, f.fewer, first);
            moved = λ _ _. ground (arith, f.fewer, first);
          },
        )
    | inr byte ↦
        let v' = put_queue-IsQueue (stored oflag c) v in
        let (out, go, f) =
          fill-Filled fuel oflag (put_queue (stored oflag c) q) src false v' (ground arith) in
        (
          out,
          rw (space, byte) go,
          record {
            queue = f.queue;
            kept =
                f.kept
                ∙ rw (pending-put_queue (stored oflag c) v space, byte)
                    (append_assoc (pending q) (stored oflag c ∷ []) (cooked oflag false src));
            fewer = ground (arith, f.fewer);
            moved = λ _ _. ground (arith, f.fewer);
          },
        )
  ]
]

-- conWrite hands everything that waits to the console, and leaves the queue empty.
con_write-eq :
    (tty : Tty) (c : Console)
    → IsQueue tty.write_q
    → con_write tty c ≡ (
      record tty { write_q = record tty.write_q { tail = tty.write_q.head } },
      set_cursor (feed (get_or tty.c_cc 2 0) (pending tty.write_q) c),
    )
unfolding con_write
con_write-eq tty c v =
    let q = tty.write_q in
    let erase = get_or tty.c_cc 2 0 in
    let nr : sub32 q.head q.tail % buf_size ≡ waiting q = omega arith in
    let end : (q.tail + waiting q) % 1024 ≡ q.head = omega arith in
    rw (nr, con_loop-feed erase (waiting q) q c v.tail_in, end) refl

-- One call of `tty->write` on the console's terminal.
drive-console :
    (tty : Tty) (c : Console)
    → tty.write ≡ console
    → IsQueue tty.write_q
    → drive tty c ≡ (
      record tty { write_q = record tty.write_q { tail = tty.write_q.head } },
      set_cursor (feed (get_or tty.c_cc 2 0) (pending tty.write_q) c),
    )
unfolding drive drive_by
drive-console tty c e v = ap (λ d. drive_by d tty c) e ∙ con_write-eq tty c v

-- what is the same before and after
pub record SameTty (tty tty' : Tty) : Type 0 where
  pub oflag : tty'.c_oflag ≡ tty.c_oflag
  pub cc : tty'.c_cc ≡ tty.c_cc
  pub write : tty'.write ≡ tty.write

-- A terminal whose queue is in order and empty.
pub record IsIdle (tty : Tty) : Type 0 where
  pub queue : IsQueue tty.write_q
  pub empty : tty.write_q.head ≡ tty.write_q.tail

full_queue-empty : (q : TtyQueue) → IsQueue q → q.head ≡ q.tail → full_queue q ≡ false
unfolding full_queue
full_queue-empty q v e = ground arith

emptied : {q : TtyQueue} → IsQueue q → IsQueue (record q { tail = q.head })
emptied v = record { room = v.room; head_in = v.head_in; tail_in = v.head_in }

cons_ne_nil : (b : ℕ) (src : List ℕ) → (b ∷ src) ≢ []
cons_ne_nil b src e = cc

pending-empty : (q : TtyQueue) → IsQueue q → q.head ≡ q.tail → pending q ≡ []
pending-empty q v e = let none_waits : waiting q ≡ 0 = omega arith in rw none_waits refl

-- The bytes of a filled queue, and then the rest, on the screen.
screen-round :
    (erase oflag : ℕ) (q : TtyQueue) (src : List ℕ) (cr_flag : Bool) (c : Console)
    (out : TtyQueue × List ℕ × Bool)
    → pending q ≡ []
    → Filled oflag q src cr_flag out
    → screen (feed erase (cooked oflag out.2 out.1) (set_cursor (feed erase (pending out.0) c)))
      ≡ screen (feed erase (cooked oflag cr_flag src) c)
screen-round erase oflag q src cr_flag c out e f =
    screen-feed erase (cooked oflag out.2 out.1) _ _ (screen-set_cursor _)
    ∙ ap screen (
        sym (feed-append erase (pending out.0) (cooked oflag out.2 out.1) c)
        ∙ ap (λ bs. feed erase bs c) (f.kept ∙ ap (λ ps. ps ++ cooked oflag cr_flag src) e))

-- One round of the outer loop.
write_loop-round :
    (fuel : ℕ) (tty : Tty) (c : Console) (b : ℕ) (src : List ℕ) (cr_flag : Bool)
    (out : TtyQueue × List ℕ × Bool)
    → tty.write ≡ console
    → fill (suc fuel) tty.c_oflag tty.write_q (b ∷ src) cr_flag ≡ some out
    → IsQueue out.0
    → write_loop (suc fuel) tty c (b ∷ src) cr_flag
      ≡ write_loop fuel
          (record tty { write_q = record (out.0) { tail = out.0.head } })
          (set_cursor (feed (get_or tty.c_cc 2 0) (pending out.0) c))
          out.1
          out.2
unfolding write_loop
write_loop-round fuel tty c b src cr_flag out e go v =
    rw (go, write_loop) (rw (drive-console (record tty { write_q = out.0 }) c e v) refl)

write_loop-console :
    (fuel : ℕ) (tty : Tty) (c : Console) (src : List ℕ) (cr_flag : Bool)
    → tty.write ≡ console
    → IsIdle tty
    → left src cr_flag < fuel
    → (out : Tty × Console) × (write_loop fuel tty c src cr_flag ≡ some out)
      × IsIdle out.0
      × SameTty tty out.0
      × (screen out.1 ≡ screen (feed (get_or tty.c_cc 2 0) (cooked tty.c_oflag cr_flag src) c))
unfolding write_loop cooked feed
write_loop-console zero tty c src cr_flag e v h = absurd (omega arith)
write_loop-console (suc fuel) tty c [] cr_flag e v h =
    ((tty, c), refl, v, record { oflag = refl; cc = refl; write = refl }, refl)
write_loop-console (suc fuel) tty c (b ∷ src) cr_flag e v h =
    let (out, go, f) = fill-Filled (suc fuel) tty.c_oflag tty.write_q (b ∷ src) cr_flag v.queue h in
    let tty₂ : Tty = record tty { write_q = record (out.0) { tail = out.0.head } } in
    let c₂ = set_cursor (feed (get_or tty.c_cc 2 0) (pending out.0) c) in
    let space = full_queue-empty tty.write_q v.queue v.empty in
    let v₂ : IsIdle tty₂ = record { queue = emptied f.queue; empty = refl } in
    let (out', go', v', same, s) =
      write_loop-console fuel tty₂ c₂ out.1 out.2 e v₂
        (omega (arith, f.moved space (cons_ne_nil b src))) in
    (
      out',
      write_loop-round fuel tty c b src cr_flag out e go f.queue ∙ go',
      v',
      record { oflag = same.oflag; cc = same.cc; write = same.write },
      s
          ∙ screen-round (get_or tty.c_cc 2 0) tty.c_oflag tty.write_q (b ∷ src) cr_flag c out
              (pending-empty tty.write_q v.queue v.empty) f,
    )

-- The usual reading of the flags OPOST | ONLCR of the console: each newline becomes a carriage
-- return and a newline, and every other byte goes out as it is.
unfoldable pub with_returns : List ℕ → List ℕ
with_returns [] = []
with_returns (c ∷ src) = if c == 10 then 13 ∷ 10 ∷ with_returns src else c ∷ with_returns src

cooked-with_returns : (src : List ℕ) → cooked 5 false src ≡ with_returns src
unfolding cooked with_returns return_first stored
cooked-with_returns [] = refl
cooked-with_returns (c ∷ src) = ground (arith, cooked-with_returns src)

-- ttyWrite on a terminal with the console's driver and flags, whose write queue is in order and
-- empty, with more rounds than twice the bytes and one: it returns the number of bytes, with the
-- queue empty and in order again and the driver, flags and characters as before, and the screen and cursor are as if the bytes, each newline
-- preceded by a carriage return, had been put one by one, however often the queue filled up.
pub tty_write-console :
    (fuel : ℕ) (tty : Tty) (c : Console) (src : List ℕ)
    → tty.write ≡ console
    → tty.c_oflag ≡ 5
    → IsIdle tty
    → 2 * length src + 1 < fuel
    → (tty' : Tty) × (c' : Console) × (tty_write fuel tty c src ≡ some (length src, tty', c'))
      × IsIdle tty'
      × SameTty tty tty'
      × (screen c' ≡ screen (feed (get_or tty.c_cc 2 0) (with_returns src) c))
unfolding tty_write
tty_write-console fuel tty c src e o v h =
    let (out, go, v', same, s) = write_loop-console fuel tty c src false e v h in
    (
      out.0,
      out.1,
      rw (go, tty_write) refl,
      v',
      same,
      s
          ∙ ap (λ bs. screen (feed (get_or tty.c_cc 2 0) bs c))
              (ap (λ (f : ℕ). cooked f false src) o ∙ cooked-with_returns src),
    )
