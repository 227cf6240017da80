-- ===== src/Disk/Driver/Retry.antt =====
-- kernel/blk_drv/harddisk.c: commands that fail, and the way back from a reset.
use operator_system.Common.{
  ℕ, suc, ◌+◌, ◌/◌, ◌%◌, ◌^◌, ◌<◌, ◌≡◌, refl, ap, ◌∙◌, true, false, some, List, leb, lt→ltb, arith,
}
use operator_system.Common.Int.{pos, ltb_ℤ, signed32}
use operator_system.Common.Steps.{◌>>=◌}
use operator_system.Common.Word.{add32}
use operator_system.Block.{Request}
use operator_system.Disk.{hd_out}
use operator_system.Disk.Controller.{
  read_handler, recal_handler, Drive, win_result, set_request, bad_request, bad_rw_intr, send,
}
use operator_system.Disk.Driver.{return, issue, harddisk_request, retry, read_intr, recal_intr}
use operator_system.Disk.Driver.Endless.{put-here}
use operator_system.Disk.Driver.Read.{IsFine, next, win_result-IsFine}
use operator_system.Disk.Driver.Start.{
  Inside, Ready, command, sent, harddisk_request-read, send-sent, round-issue, loop-return,
}

-- the driver with one more error of the request `c`
abbrev pub counted : (c : ℕ) → Drive → Drive
counted c s = let r = s.device.requests c in set_request c (record r { errors = r.errors + 1 }) s

signed32-low : (e : ℕ) → e < 2 ^ 31 → signed32 e ≡ pos e
signed32-low e h = rw (lt→ltb e (2 ^ 31) h) refl

bad_request-few :
    (c : ℕ) (s : Drive) → (s.device.requests c).errors < 3 → bad_request c s ≡ some (counted c s)
unfolding bad_request
bad_request-few c s h =
    let e : ℕ = (s.device.requests c).errors in
    let sum : add32 e 1 ≡ e + 1 = omega (arith, h) in
    let low : ltb_ℤ (pos (e + 1)) (pos 7) ≡ true = ground arith in
    let keep : ltb_ℤ (pos 3) (pos (e + 1)) ≡ false = ground arith in
    simp (sum, signed32-low (e + 1) (omega (arith, h)), low, keep)

bad_rw_intr-few :
    (c : ℕ) (s : Drive)
    → s.device.current_request ≡ some c
    → (s.device.requests c).errors < 3
    → bad_rw_intr s ≡ some (counted c s)
unfolding bad_rw_intr
bad_rw_intr-few c s e h = ap (λ o. o >>= λ curr. bad_request curr s) e ∙ bad_request-few c s h

retry-few :
    (fuel c : ℕ) (s : Drive)
    → s.device.current_request ≡ some c
    → (s.device.requests c).errors < 3
    → retry fuel s ≡ harddisk_request fuel (counted c s)
unfolding retry
retry-few fuel c s e h = ap (λ o. o >>= harddisk_request fuel) (bad_rw_intr-few c s e h)

read_intr-failed :
    (fuel : ℕ) (s : Drive)
    → (win_result s).0 ≡ true
    → read_intr fuel s ≡ retry fuel (win_result s).1
unfolding read_intr
read_intr-failed fuel s h = rw h refl

-- A read whose status is a failure, with at most two errors before: the error is counted, and where
-- the driver is then ready for the request, which lies inside its partition with no reset asked
-- for, the same command is sent again, from the sector on that the request has reached, and
-- readIntr takes the next interrupt.
pub read_intr-retried :
    (fuel c : ℕ) (s : Drive) (ws : List (ℕ × ℕ))
    → let s₁ = (win_result s).1 in
      (win_result s).0 ≡ true
      → (s₁.device.requests c).errors < 3
      → Ready c (counted c s₁)
      → (s₁.device.requests c).cmd ≡ 0
      → command c 0x20 s₁ ≡ some ws
      → read_intr (suc fuel) s ≡ some (sent ws read_handler (counted c s₁))
unfolding set_request
read_intr-retried fuel c s ws failed h p r e =
    let s₁ : Drive = (win_result s).1 in
    let same : (counted c s₁).device.requests c
        ≡ record (s₁.device.requests c) { errors = (s₁.device.requests c).errors + 1 } =
      put-here c _ s₁.device.requests in
    read_intr-failed (suc fuel) s failed
    ∙ retry-few (suc fuel) c s₁ p.place.current h
    ∙ harddisk_request-read fuel c (counted c s₁) ws p (rw same r) (rw same e)

recal_intr-IsFine :
    (fuel : ℕ) (s : Drive) → IsFine s s.reads → recal_intr fuel s ≡ harddisk_request fuel (next s)
unfolding recal_intr
recal_intr-IsFine fuel s h = rw (win_result-IsFine s h) refl

issue-recalibrate :
    (r : Request) (block : ℕ) (s s₁ : Drive)
    → s.reset ≡ false
    → s.recalibrate ≡ true
    → send
        (r.dev % 2 ^ 8 / 5)
        s.info.sector
        0
        0
        0
        0x10
        recal_handler
        (record s { recalibrate = false })
      ≡ some s₁
    → issue r block s ≡ some (return s₁)
unfolding issue
issue-recalibrate r block s s₁ a b e = rw (e, a, b) refl

-- After WIN_SPECIFY, which leaves a recalibration to do, an interrupt without a failure, with the
-- controller ready: WIN_RESTORE is sent, recalIntr takes the next interrupt, and the recalibration is
-- not asked for again.
pub recal_intr-restores :
    (fuel c : ℕ) (s : Drive) (ws : List (ℕ × ℕ))
    → IsFine s s.reads
    → Inside c (next s)
    → s.reset ≡ false
    → s.recalibrate ≡ true
    → leb 0x80 (s.answers (s.reads + 1) % 2 ^ 8) ≡ false
    → hd_out s.info ((s.device.requests c).dev % 2 ^ 8 / 5) s.info.sector 0 0 0 0x10 ≡ some ws
    → recal_intr (suc fuel) s
      ≡ some (sent ws recal_handler (record (next s) { recalibrate = false }))
recal_intr-restores fuel c s ws ok p a b idle e =
    recal_intr-IsFine (suc fuel) s ok
    ∙ loop-return fuel c (next s) _ p (
        round-issue c (next s) p
        ∙ issue-recalibrate (s.device.requests c) _ (next s) _ a b (
            send-sent _ _ _ _ _ _ recal_handler (record (next s) { recalibrate = false }) ws idle
              e))
