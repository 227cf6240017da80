-- ===== src/Block/Reuse.antt =====
-- A finished request of kernel/blk_drv/ll_rw_blk.c whose slot is taken again.
use operator_system.Common.{
  ℕ, zero, suc, ◌-◌, ◌^◌, ◌≡◌, ◌≢◌, refl, sym, ap, ◌∙◌, Bool, true, false, not, ◌&&◌, ◌||◌, none,
  some, arith,
}
use operator_system.Block.{
  Request, Buffer, Device, put, clean, finish, take_slot, in_order, fits, walk, link, add_request,
  end_request,
}

pub put_self : (i : ℕ) (r : Request) (f : ℕ → Request) → put i r f i ≡ r
unfolding put
put_self i r f = ground arith

pub put_ne : (i j : ℕ) (r : Request) (f : ℕ → Request) → j ≢ i → put i r f j ≡ f j
unfolding put
put_ne i j r f ne = ground (arith, ne)

and-false : (a b : Bool) → b ≡ false → (a && b) ≡ false
and-false true b e = e
and-false false b e = refl

-- a request that follows itself stops no other one, unless that one goes before it
walk-loop :
    (fuel : ℕ) (rs : ℕ → Request) (req c : ℕ)
    → (rs c).next ≡ some c
    → in_order (rs req) (rs c) ≡ false
    → walk fuel rs req c ≡ none
unfolding walk fits
walk-loop zero rs req c e o = refl
walk-loop (suc fuel) rs req c e o =
    rw (e, walk)
      (rw (and-false (in_order (rs c) (rs req) || not (in_order (rs c) (rs c))) _ o)
        (walk-loop fuel rs req c e o))

walk-last :
    (fuel : ℕ) (rs : ℕ → Request) (req c : ℕ)
    → (rs c).next ≡ none
    → walk (suc fuel) rs req c ≡ some c
unfolding walk
walk-last fuel rs req c e = rw (e, walk) refl

link_self : (c : ℕ) (rs : ℕ → Request) → (link c c rs c).next ≡ some c
unfolding link
link_self c rs =
    ap (λ (r : Request). r.next) (put_self c _ (put c (record (rs c) { next = (rs c).next }) rs))

-- a device that works on the request `c`
abbrev pub busy : (c : ℕ) → (ℕ → Request) → (ℕ → Buffer) → ℕ → Device
busy c rs bufs starts = record {
  requests = rs;
  current_request = some c;
  buffers = bufs;
  starts = starts;
}

-- adding the current request again
add_request-current :
    (fuel c : ℕ) (rs : ℕ → Request) (bufs : ℕ → Buffer) (n : ℕ)
    → (rs' : ℕ → Request) × (bufs' : ℕ → Buffer) × (add_request (suc fuel) c (busy c rs bufs n)
        ≡ some (busy c rs' bufs' n))
      × ((rs' c).next ≡ some c)
unfolding add_request
add_request-current fuel c rs bufs n =
    let rs₁ : ℕ → Request = put c (record (rs c) { next = none }) rs in
    let w : walk (suc fuel) rs₁ c c ≡ some c =
      walk-last fuel rs₁ c c (ap (λ (r : Request). r.next) (put_self c _ rs)) in
    (link c c rs₁, clean (rs₁ c).bh bufs, rw (w, add_request) refl, link_self c rs₁)

add_request-loop :
    (fuel req c : ℕ) (d : Device)
    → d.current_request ≡ some c
    → (d.requests c).next ≡ some c
    → req ≢ c
    → in_order (record (d.requests req) { next = none }) (d.requests c) ≡ false
    → add_request fuel req d ≡ none
unfolding add_request
add_request-loop fuel req c d e l ne o =
    let r : Request = record (d.requests req) { next = none } in
    let rs : ℕ → Request = put req r d.requests in
    let kept : rs c ≡ d.requests c = put_ne req c r d.requests (λ q. ne (sym q)) in
    let own : rs req ≡ r = put_self req r d.requests in
    let hang : walk fuel rs req c ≡ none =
      walk-loop fuel rs req c (ap (λ (t : Request). t.next) kept ∙ l) (rw own (rw kept o)) in
    rw (e, add_request) (rw hang refl)

-- A device works on the request `c`. This is finished, its slot is taken by a new request, and that
-- is added: the driver is not started for it, `c` stays the current request and now follows
-- itself. From then on to add another request does not end, unless that one goes before `c`.
pub add_request-reused :
    (uptodate : Bool) (fuel c dev cmd block bh n : ℕ) (rs : ℕ → Request) (bufs : ℕ → Buffer)
    → (d : Device) × (rs' : ℕ → Request) × (bufs' : ℕ → Buffer) × (end_request uptodate
          (busy c rs bufs n)
        ≡ some d)
      × (add_request (suc fuel) c (take_slot c dev cmd block bh d) ≡ some (busy c rs' bufs' n))
      × ((rs' c).next ≡ some c)
      × ((rounds req : ℕ)
          → req ≢ c
          → in_order (record (rs' req) { next = none }) (rs' c) ≡ false
          → add_request rounds req (busy c rs' bufs' n) ≡ none)
unfolding end_request take_slot
add_request-reused uptodate fuel c dev cmd block bh n rs bufs =
    let rs₁ : ℕ → Request = put c (record (rs c) { dev = 2 ^ 32 - 1 }) rs in
    let bufs₁ : ℕ → Buffer = finish uptodate (rs c).bh bufs in
    let (rs', bufs', added, follows) =
      add_request-current fuel c (take_slot c dev cmd block bh (busy c rs₁ bufs₁ n)).requests bufs₁
        n in
    (
      busy c rs₁ bufs₁ n,
      rs',
      bufs',
      refl,
      added,
      follows,
      λ rounds req ne o. add_request-loop rounds req c (busy c rs' bufs' n) refl follows ne o,
    )
