-- ===== src/Disk/Driver/Start.antt =====
-- kernel/blk_drv/harddisk.c: harddiskRequest on a request inside its partition.
use Prim.Native.Nat.{bit_and}
use operator_system.Common.{
  ℕ, zero, suc, ◌+◌, ◌/◌, ◌%◌, ◌^◌, ◌<◌, ◌≡◌, refl, ap, ◌∙◌, Bool, true, false, Option, some, List,
  [], ◌∷◌, leb, ◌==◌, arith,
}
use mathlib.Core.Path.{subst}
use operator_system.Common.Word.{add32}
use operator_system.Block.{Request}
use operator_system.Disk.{out_of_range, sec_of, head_of, cyl_of, hd_out, hd_transfer, hd_command}
use operator_system.Disk.Controller.{
  Handler, read_handler, write_handler, wrote_words, Drive, in_byte, emit, await_ready,
  controller_ready, out_bytes, send,
}
use operator_system.Disk.Driver.{
  check_major, await_drq, return, issue, hd_round, hd_loop, harddisk_request,
}
use operator_system.Disk.Driver.Read.{next}
use operator_system.Disk.Driver.Endless.{harddisk_request-current}

-- the first request is `c`, it is one of this driver and lies inside its partition
pub record Inside (c : ℕ) (s : Drive) : Type 0 where
  pub current : s.device.current_request ≡ some c
  pub major : (s.device.requests c).dev / 2 ^ 8 ≡ 3
  pub inside :
      let r = s.device.requests c in
      out_of_range (r.dev % 2 ^ 8) r.sector (s.hd (r.dev % 2 ^ 8)) ≡ false

-- with no reset asked for, and the controller ready
pub record Ready (c : ℕ) (s : Drive) : Type 0 where
  pub place : Inside c s
  pub no_reset : s.reset ≡ false
  pub no_recalibrate : s.recalibrate ≡ false
  pub idle : leb 0x80 (s.answers s.reads % 2 ^ 8) ≡ false

-- the driver after hdOut with the bytes `ws`
abbrev pub sent : List (ℕ × ℕ) → Handler → Drive → Drive
sent ws h s = out_bytes ws (record (next s) { device_intr = some h })

await_ready-idle :
    (n : ℕ) (s : Drive)
    → leb 0x80 (s.answers s.reads % 2 ^ 8) ≡ false
    → await_ready (suc n) s ≡ (suc n, next s)
unfolding await_ready in_byte
await_ready-idle n s h = rw h refl

controller_ready-idle :
    (s : Drive)
    → leb 0x80 (s.answers s.reads % 2 ^ 8) ≡ false
    → controller_ready s ≡ (99999, next s)
unfolding controller_ready
controller_ready-idle s h = await_ready-idle 99998 s h

pub send-sent :
    (drive nsect sect head cyl cmd : ℕ) (h : Handler) (s : Drive) (ws : List (ℕ × ℕ))
    → leb 0x80 (s.answers s.reads % 2 ^ 8) ≡ false
    → hd_out s.info drive nsect sect head cyl cmd ≡ some ws
    → send drive nsect sect head cyl cmd h s ≡ some (sent ws h s)
unfolding send
send-sent drive nsect sect head cyl cmd h s ws idle e = rw (e, controller_ready-idle s idle) refl

pub round-issue :
    (c : ℕ) (s : Drive)
    → Inside c s
    → let r = s.device.requests c in
      hd_round c s ≡ issue r (add32 r.sector (s.hd (r.dev % 2 ^ 8)).start_sector) s
unfolding hd_round check_major
round-issue c s p = rw (p.inside, p.major) refl

-- the bytes of hdOut for the request `c`
abbrev pub command : (c cmd : ℕ) → Drive → Option (List (ℕ × ℕ))
command c cmd s =
    let r = s.device.requests c in
    let dev = r.dev % 2 ^ 8 in hd_command s.info dev r.nr_sectors r.sector cmd (s.hd dev)

command-out :
    (c cmd : ℕ) (s : Drive) (ws : List (ℕ × ℕ))
    → Inside c s
    → command c cmd s ≡ some ws
    → let r = s.device.requests c in
      let block = add32 r.sector (s.hd (r.dev % 2 ^ 8)).start_sector in
      let i = s.info in
      hd_out i
        (r.dev % 2 ^ 8 / 5)
        r.nr_sectors
        (sec_of i block)
        (head_of i block)
        (cyl_of i block)
        cmd
      ≡ some ws
unfolding hd_command hd_transfer
command-out c cmd s ws p e = rw⁻¹ e (rw p.inside refl)

pub loop-return :
    (fuel c : ℕ) (s s' : Drive)
    → Inside c s
    → hd_round c s ≡ some (return s')
    → harddisk_request (suc fuel) s ≡ some s'
unfolding hd_loop
loop-return fuel c s s' p e =
    harddisk_request-current (suc fuel) c s p.current ∙ rw (e, hd_loop) refl

-- the call of hdOut for a transfer
abbrev transfer : Request → (block cmd : ℕ) → Handler → Drive → Option Drive
transfer r block cmd h s =
    let i = s.info in
    send (r.dev % 2 ^ 8 / 5) r.nr_sectors (sec_of i block) (head_of i block) (cyl_of i block) cmd h
      s

issue-read :
    (r : Request) (block : ℕ) (s s₁ : Drive)
    → s.reset ≡ false
    → s.recalibrate ≡ false
    → r.cmd ≡ 0
    → transfer r block 0x20 read_handler s ≡ some s₁
    → issue r block s ≡ some (return s₁)
unfolding issue
issue-read r block s s₁ a b c e = rw (e, a, b, c) refl

-- A request to read inside its partition, with no reset asked for and the controller ready: the
-- bytes of hd_command are sent and readIntr takes the next interrupt.
pub harddisk_request-read :
    (fuel c : ℕ) (s : Drive) (ws : List (ℕ × ℕ))
    → Ready c s
    → (s.device.requests c).cmd ≡ 0
    → command c 0x20 s ≡ some ws
    → harddisk_request (suc fuel) s ≡ some (sent ws read_handler s)
harddisk_request-read fuel c s ws p r e = loop-return fuel c s _ p.place (
    round-issue c s p.place
    ∙ issue-read (s.device.requests c) _ s _ p.no_reset p.no_recalibrate r
        (send-sent _ _ _ _ _ _ read_handler s ws p.idle (command-out c 0x20 s ws p.place e)))

-- the answer number `n` of the controller is without the bit DRQ_STAT
abbrev pub no_drq : Drive → (n : ℕ) → Bool
no_drq s n = bit_and (s.answers n % 2 ^ 8) 0x08 == 0

await_drq-now :
    (n : ℕ) (s : Drive) → no_drq s s.reads ≡ false → await_drq (suc n) s ≡ (true, next s)
unfolding await_drq in_byte
await_drq-now n s h = rw h refl

await_drq-later :
    (n : ℕ) (s : Drive) → no_drq s s.reads ≡ true → await_drq (suc n) s ≡ await_drq n (next s)
unfolding await_drq in_byte
await_drq-later n s h = rw h refl

await_drq-found :
    (n rounds : ℕ) (s : Drive)
    → n < rounds
    → ((i : ℕ) → i < n → no_drq s (s.reads + i) ≡ true)
    → no_drq s (s.reads + n) ≡ false
    → await_drq rounds s ≡ (true, record s { reads = s.reads + n + 1 })
await_drq-found n zero s h quiet found = absurd (omega (arith, h))
await_drq-found zero (suc m) s h quiet found =
    await_drq-now m s (subst (λ k. no_drq s k ≡ false) (omega arith) found)
    ∙ ap (λ k. (true, record s { reads = k })) (omega arith)
await_drq-found (suc n) (suc m) s h quiet found =
    await_drq-later m s (subst (λ k. no_drq s k ≡ true) (omega arith) (quiet 0 (omega arith)))
    ∙ await_drq-found n m (next s) (omega (arith, h))
        (λ i g. subst (λ k. no_drq s k ≡ true) (omega arith) (quiet (i + 1) (omega (arith, g))))
        (subst (λ k. no_drq s k ≡ false) (omega arith) found)
    ∙ ap (λ k. (true, record s { reads = k })) (omega arith)

issue-write :
    (r : Request) (block : ℕ) (s s₁ s₂ : Drive)
    → s.reset ≡ false
    → s.recalibrate ≡ false
    → r.cmd ≡ 1
    → transfer r block 0x30 write_handler s ≡ some s₁
    → await_drq 3000 s₁ ≡ (true, s₂)
    → issue r block s ≡ some (return (emit (wrote_words r.buffer) s₂))
unfolding issue
issue-write r block s s₁ s₂ a b c e f = rw (e, f, a, b, c) refl

out_bytes-answers : (ws : List (ℕ × ℕ)) (s : Drive) → (out_bytes ws s).answers ≡ s.answers
unfolding out_bytes emit
out_bytes-answers [] s = refl
out_bytes-answers (w ∷ ws) s = out_bytes-answers ws _

out_bytes-reads : (ws : List (ℕ × ℕ)) (s : Drive) → (out_bytes ws s).reads ≡ s.reads
unfolding out_bytes emit
out_bytes-reads [] s = refl
out_bytes-reads (w ∷ ws) s = out_bytes-reads ws _

-- the answers of the controller after the `ready` one: `n` without DRQ_STAT, and one with it
pub record Answers (n : ℕ) (s : Drive) : Type 0 where
  pub soon : n < 3000
  pub quiet : (i : ℕ) → i < n → no_drq s (s.reads + 1 + i) ≡ true
  pub found : no_drq s (s.reads + 1 + n) ≡ false

sent-drq :
    (n : ℕ) (ws : List (ℕ × ℕ)) (h : Handler) (s : Drive)
    → Answers n s
    → await_drq 3000 (sent ws h s) ≡ (true, record (sent ws h s) { reads = s.reads + n + 2 })
sent-drq n ws h s a =
    let s₁ : Drive = record (next s) { device_intr = some h } in
    let f : (out_bytes ws s₁).answers ≡ s.answers = out_bytes-answers ws s₁ in
    let e : (out_bytes ws s₁).reads ≡ s.reads + 1 = out_bytes-reads ws s₁ in
    await_drq-found n 3000 (sent ws h s) a.soon (λ i g. rw (f, e) (a.quiet i g)) (rw (f, e) a.found)
    ∙ ap (λ k. (true, record (sent ws h s) { reads = k })) (omega (arith, e))

-- A request to write inside its partition, with no reset asked for, the controller ready, and
-- DRQ_STAT in one of its next 3000 answers: the bytes of hd_command are sent, the first sector of
-- the request's buffer follows, and writeIntr takes the next interrupt.
pub harddisk_request-write :
    (fuel n c : ℕ) (s : Drive) (ws : List (ℕ × ℕ))
    → Ready c s
    → (s.device.requests c).cmd ≡ 1
    → command c 0x30 s ≡ some ws
    → Answers n s
    → harddisk_request (suc fuel) s
      ≡ some (
          emit
            (wrote_words (s.device.requests c).buffer)
            (record (sent ws write_handler s) { reads = s.reads + n + 2 }))
harddisk_request-write fuel n c s ws p r e a = loop-return fuel c s _ p.place (
    round-issue c s p.place
    ∙ issue-write (s.device.requests c) _ s _ _ p.no_reset p.no_recalibrate r
        (send-sent _ _ _ _ _ _ write_handler s ws p.idle (command-out c 0x30 s ws p.place e))
        (sent-drq n ws write_handler s a))
