-- ===== src/Disk/Driver/Endless.antt =====
-- kernel/blk_drv/harddisk.c: harddiskRequest goes on with the request that it has just ended.
use operator_system.Common.{
  ℕ, zero, suc, ◌-◌, ◌%◌, ◌^◌, ◌≡◌, refl, ap, ◌∙◌, Bool, true, false, none, some, eq→==, arith,
}
use operator_system.Block.{Request, Device, put, finish, end_request}
use operator_system.Disk.{out_of_range}
use operator_system.Disk.Controller.{Drive, emit, set_request, end_current}
use operator_system.Disk.Driver.Read.{IsFine, next, read_intr-IsFine}
use operator_system.Disk.Driver.{
  check_major, repeat, reject, hd_round, hd_loop, harddisk_request, complete, read_sector,
  read_intr,
}

-- the first request is `c`, and harddiskRequest calls it an error
pub record Rejected (c : ℕ) (s : Drive) : Type 0 where
  pub current : s.device.current_request ≡ some c
  pub rejected :
      let r = s.device.requests c in
      out_of_range (r.dev % 2 ^ 8) r.sector (s.hd (r.dev % 2 ^ 8)) ≡ true

check_major-device : (r : Request) (s : Drive) → (check_major r s).device ≡ s.device
unfolding check_major emit
check_major-device r s = ground arith

-- a device whose first request is over
abbrev IsEnded : ℕ → Device → Type 0
IsEnded c d = (d.current_request ≡ some c) × ((d.requests c).dev ≡ 2 ^ 32 - 1)

pub put-here {ℓ} : {A : Type ℓ} (i : ℕ) (a : A) (f : ℕ → A) → put i a f i ≡ a
unfolding put
put-here i a f = rw (eq→== i i refl) refl

after : (c : ℕ) → Bool → Device → Device
after c b d = record d {
  requests = put c (record (d.requests c) { dev = 2 ^ 32 - 1 }) d.requests;
  buffers = finish b (d.requests c).bh d.buffers;
}

end_request-after :
    (c : ℕ) (b : Bool) (d : Device)
    → d.current_request ≡ some c
    → (end_request b d ≡ some (after c b d)) × IsEnded c (after c b d)
unfolding end_request after
end_request-after c b d h = (
  ap
      (λ o. elim o [
        | none ↦ none
        | some c ↦ some (record d {
          requests = put c (record (d.requests c) { dev = 2 ^ 32 - 1 }) d.requests;
          buffers = finish b (d.requests c).bh d.buffers;
        })
      ])
      h,
  (h, ap (λ r. r.dev) (put-here c (record (d.requests c) { dev = 2 ^ 32 - 1 }) d.requests)),
)

IsEnded-Rejected : (c : ℕ) (s : Drive) → IsEnded c s.device → Rejected c s
unfolding out_of_range
IsEnded-Rejected c s (h, e) = record { current = h; rejected = rw e refl }

round-Rejected :
    (c : ℕ) (s : Drive)
    → Rejected c s
    → (s' : Drive) × (hd_round c s ≡ some (repeat s')) × Rejected c s'
unfolding hd_round reject end_current
round-Rejected c s h =
    let r = s.device.requests c in
    let s₁ = check_major r s in
    let same : s₁.device ≡ s.device = check_major-device r s in
    let (e, over) =
      end_request-after c false s₁.device (ap (λ d. d.current_request) same ∙ h.current) in
    let s₂ : Drive = record s₁ { device = after c false s₁.device } in
    (s₂, rw (h.rejected, e) refl, IsEnded-Rejected c s₂ over)

hd_loop-endless : (fuel c : ℕ) (s : Drive) → Rejected c s → hd_loop fuel c s ≡ none
unfolding hd_loop
hd_loop-endless zero c s h = refl
hd_loop-endless (suc fuel) c s h =
    let (s', e, h') = round-Rejected c s h in rw (e, hd_loop) (hd_loop-endless fuel c s' h')

pub harddisk_request-current :
    (fuel c : ℕ) (s : Drive)
    → s.device.current_request ≡ some c
    → harddisk_request fuel s ≡ hd_loop fuel c s
unfolding harddisk_request
harddisk_request-current fuel c s h =
    ap (λ o. elim o [ none ↦ some s | some curr ↦ hd_loop fuel curr s ]) h

-- Where the first request is one that harddiskRequest rejects, such as one that is over, it goes
-- round for ever, whatever the number of rounds.
pub harddisk_request-endless :
    (fuel c : ℕ) (s : Drive) → Rejected c s → harddisk_request fuel s ≡ none
harddisk_request-endless fuel c s h =
    harddisk_request-current fuel c s h.current ∙ hd_loop-endless fuel c s h

complete-endless :
    (fuel c : ℕ) (s : Drive) → s.device.current_request ≡ some c → complete fuel s ≡ none
unfolding complete end_current
complete-endless fuel c s h =
    let (e, over) = end_request-after c true s.device h in
    let s' : Drive = record s { device = after c true s.device } in
    rw e (harddisk_request-endless fuel c s' (IsEnded-Rejected c s' over))

read_sector-endless :
    (fuel c : ℕ) (s : Drive)
    → s.device.current_request ≡ some c
    → (s.device.requests c).nr_sectors ≡ 1
    → read_sector fuel c s ≡ none
unfolding read_sector set_request emit
read_sector-endless fuel c s h one = rw one (complete-endless fuel c _ h)

-- The interrupt after the last sector of the first request, a read, with a status without a
-- failure: readIntr does not return, whatever the number of rounds.
pub read_intr-endless :
    (fuel c : ℕ) (s : Drive)
    → IsFine s s.reads
    → s.device.current_request ≡ some c
    → (s.device.requests c).nr_sectors ≡ 1
    → read_intr fuel s ≡ none
read_intr-endless fuel c s ok h one =
    read_intr-IsFine fuel c s ok h ∙ read_sector-endless fuel c (next s) h one
