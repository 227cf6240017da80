-- ===== src/Block/Elevator.antt =====
-- addRequest of kernel/blk_drv/ll_rw_blk.c as an insertion into a list.
use mathlib.Core.Option.{some-injective, none-ne-some}
use mathlib.Core.Path.{subst}
use operator_system.Common.{
  ℕ, zero, suc, ◌+◌, ◌-◌, ◌*◌, ◌^◌, ltb, leb, ◌==◌, ◌&&◌, ◌||◌, Bool, false, not, eq→==, ne→==,
  ==_iff, ◌<◌, ◌≡◌, ◌≢◌, refl, sym, ap, ◌∙◌, inl, inr, Option, none, some, List, [], ◌∷◌, length,
  All, if◌then◌else◌, Bool-cases, arith,
}
use operator_system.Block.{Request, Buffer, put, clean, in_order, fits, walk, link, add_request}
use operator_system.Block.Reuse.{busy, put_self, put_ne}

-- the requests that `p` leads to by `next`, in their order, the last with NULL
abbrev pub Chain : (ℕ → Request) → Option ℕ → List ℕ → Type 0
Chain rs p [] = p ≡ none
Chain rs p (i ∷ is) = (p ≡ some i) × Chain rs (rs i).next is

abbrev pub Distinct : List ℕ → Type 0
Distinct [] = Unit
Distinct (i ∷ is) = All (λ j. i ≢ j) is × Distinct is

-- the place of a signed word in the order of the ints
abbrev pub place : ℕ → ℕ
place w = if ltb w (2 ^ 31) then w + 2 ^ 31 else w - 2 ^ 31

-- a request as one number: its command, then its device, then its sector
abbrev pub key : Request → ℕ
key s = (place s.cmd * 2 ^ 32 + place s.dev) * 2 ^ 32 + s.sector

-- the three words of a request are below 2 ^ 32
abbrev pub AreWords : Request → Type 0
AreWords s = (s.cmd < 2 ^ 32) × (s.dev < 2 ^ 32) × (s.sector < 2 ^ 32)

-- whether a request with the key `r` belongs behind one with the key `x` that is followed by one with
-- the key `y`: it comes before `y`, and `x` comes before it or a new round begins at `y`
unfoldable pub belongs : (x r y : ℕ) → Bool
belongs x r y = ltb r y && (ltb x r || leb y x)

-- where the elevator puts `req`: behind the first request behind which it belongs, or at the end
unfoldable pub elevator : (ℕ → Request) → (req : ℕ) → List ℕ → List ℕ
elevator rs req [] = req ∷ []
elevator rs req (x ∷ []) = x ∷ req ∷ []
elevator rs req (x ∷ y ∷ is) =
    let further = elevator rs req (y ∷ is) in
    if belongs (key (rs x)) (key (rs req)) (key (rs y)) then x ∷ req ∷ y ∷ is else x ∷ further

-- a request without its place in the queue
abbrev pub bare : Request → Request
bare r = record r { next = none }

-- the requests and buffers after `req` is added to the queue `x ∷ is`: the queue's order; every
-- request but for its `next`; those off the queue; and the buffers, of which that of `req` is clean
pub record Added (rs : ℕ → Request) (bufs : ℕ → Buffer) (req x : ℕ) (is : List ℕ)
    (rs' : ℕ → Request) (bufs' : ℕ → Buffer) : Type 0 where
  pub order : Chain rs' (some x) (elevator rs req (x ∷ is))
  pub contents : (i : ℕ) → bare (rs' i) ≡ bare (rs i)
  pub others : (i : ℕ) → All (λ j. i ≢ j) (req ∷ x ∷ is) → rs' i ≡ rs i
  pub cleaned : (b : ℕ) → (rs req).bh ≡ some b → bufs' b ≡ record (bufs b) { b_dirt = false }
  pub kept : (b : ℕ) → (rs req).bh ≢ some b → bufs' b ≡ bufs b

in_order-key : (s t : Request) → AreWords s → AreWords t → in_order s t ≡ ltb (key s) (key t)
unfolding in_order
in_order-key s t (a, b, c) (d, e, f) = ground (arith, a, b, c, d, e, f)

order-belongs : (x r y : ℕ) → ((ltb x r || not (ltb x y)) && ltb r y) ≡ belongs x r y
unfolding belongs
order-belongs x r y = ground arith

fits-belongs :
    (x s y : Request)
    → AreWords x
    → AreWords s
    → AreWords y
    → fits x s y ≡ belongs (key x) (key s) (key y)
unfolding fits
fits-belongs x s y a b c =
    rw (in_order-key x s a b, in_order-key x y a c, in_order-key s y b c)
      (order-belongs (key x) (key s) (key y))

-- the elevator goes by the keys only
elevator-same :
    (rs rs' : ℕ → Request) (req : ℕ) (is : List ℕ)
    → ((i : ℕ) → key (rs' i) ≡ key (rs i))
    → elevator rs' req is ≡ elevator rs req is
unfolding elevator
elevator-same rs rs' req [] h = refl
elevator-same rs rs' req (x ∷ []) h = refl
elevator-same rs rs' req (x ∷ y ∷ is) h =
    rw (h x, h req, h y, elevator-same rs rs' req (y ∷ is) h) refl

put-bare :
    (j : ℕ) (r : Request) (f : ℕ → Request)
    → bare r ≡ bare (f j)
    → (i : ℕ) → bare (put j r f i) ≡ bare (f i)
unfolding put
put-bare j r f h i = elim (Bool-cases (i == j)) [
  | inl e ↦
      ap (λ (q : Bool). bare (if q then r else f i)) e
      ∙ (h ∙ ap (λ (k : ℕ). bare (f k)) (sym ((==_iff i j).0 e)))
  | inr e ↦ ap (λ (q : Bool). bare (if q then r else f i)) e
]

-- the first of the two stores of `link`
abbrev moved : (req t : ℕ) → (ℕ → Request) → ℕ → Request
moved req t rs = put req (record (rs req) { next = (rs t).next }) rs

link-bare : (req t : ℕ) (rs : ℕ → Request) (i : ℕ) → bare (link req t rs i) ≡ bare (rs i)
unfolding link
link-bare req t rs i =
    put-bare t (record (moved req t rs t) { next = some req }) (moved req t rs) refl i
    ∙ put-bare req (record (rs req) { next = (rs t).next }) rs refl i

cleaned_buffer :
    (p : Option ℕ) (bufs : ℕ → Buffer) (b : ℕ)
    → p ≡ some b
    → clean p bufs b ≡ record (bufs b) { b_dirt = false }
unfolding clean put
cleaned_buffer none bufs b e = absurd (none-ne-some b e)
cleaned_buffer (some c) bufs b e =
    subst (λ (k : ℕ). clean (some k) bufs b ≡ record (bufs b) { b_dirt = false })
      (sym (some-injective c b e))
      (ap (λ (q : Bool). if q then record (bufs b) { b_dirt = false } else bufs b) (eq→== b b refl))

kept_buffer : (p : Option ℕ) (bufs : ℕ → Buffer) (b : ℕ) → p ≢ some b → clean p bufs b ≡ bufs b
unfolding clean put
kept_buffer none bufs b ne = refl
kept_buffer (some c) bufs b ne =
    ap (λ (q : Bool). if q then record (bufs c) { b_dirt = false } else bufs b)
      (ne→== b c (λ e. ne (ap some (sym e))))

-- a chain is kept by a change of requests that are not on it
Chain-frame :
    (rs rs' : ℕ → Request) (p : Option ℕ) (is : List ℕ)
    → All (λ i. rs' i ≡ rs i) is
    → Chain rs p is
    → Chain rs' p is
Chain-frame rs rs' p [] same c = c
Chain-frame rs rs' p (i ∷ is) (s, same) (e, c) =
    (e, rw s (Chain-frame rs rs' (rs i).next is same c))

link-other : (req t i : ℕ) (rs : ℕ → Request) → i ≢ req → i ≢ t → link req t rs i ≡ rs i
unfolding link
link-other req t i rs a b =
    put_ne t i (record (moved req t rs t) { next = some req }) (moved req t rs) b
    ∙ put_ne req i (record (rs req) { next = (rs t).next }) rs a

link-tmp : (req t : ℕ) (rs : ℕ → Request) → (link req t rs t).next ≡ some req
unfolding link
link-tmp req t rs =
    ap (λ (r : Request). r.next)
      (put_self t (record (moved req t rs t) { next = some req }) (moved req t rs))

link-req : (req t : ℕ) (rs : ℕ → Request) → req ≢ t → (link req t rs req).next ≡ (rs t).next
unfolding link
link-req req t rs ne =
    ap (λ (r : Request). r.next)
      (put_ne t req (record (moved req t rs t) { next = some req }) (moved req t rs) ne
        ∙ put_self req (record (rs req) { next = (rs t).next }) rs)

links-other :
    (req t : ℕ) (rs : ℕ → Request) (is : List ℕ)
    → All (λ i. t ≢ i) is
    → All (λ i. req ≢ i) is
    → All (λ i. link req t rs i ≡ rs i) is
links-other req t rs [] a b = tt
links-other req t rs (i ∷ is) (p, a) (q, b) =
    (link-other req t i rs (λ e. q (sym e)) (λ e. p (sym e)), links-other req t rs is a b)

puts-other :
    (req : ℕ) (a : Request) (rs : ℕ → Request) (is : List ℕ)
    → All (λ i. req ≢ i) is
    → All (λ i. put req a rs i ≡ rs i) is
puts-other req a rs [] r = tt
puts-other req a rs (i ∷ is) (q, r) = (put_ne req i a rs (λ e. q (sym e)), puts-other req a rs is r)

-- what the loop of addRequest finds on the chain `x ∷ is`
record Walked (fuel : ℕ) (rs : ℕ → Request) (req x : ℕ) (is : List ℕ) (t : ℕ) : Type 0 where
  found : walk fuel rs req x ≡ some t
  chain : Chain (link req t rs) (some x) (elevator rs req (x ∷ is))
  off : (w : ℕ) → All (λ i. w ≢ i) (x ∷ is) → w ≢ t

walk-Walked :
    (fuel : ℕ) (rs : ℕ → Request) (req x : ℕ) (is : List ℕ)
    → Chain rs (rs x).next is
    → Distinct (x ∷ is)
    → All (λ i. req ≢ i) (x ∷ is)
    → ((i : ℕ) → AreWords (rs i))
    → length is < fuel
    → (t : ℕ) × Walked fuel rs req x is t
unfolding walk elevator
walk-Walked zero rs req x is c d r v h = absurd (omega (arith, h))
walk-Walked (suc fuel) rs req x [] c d (r, _) v h = (
  x,
  record {
    found = rw (c, walk) refl;
    chain = (refl, (link-tmp req x rs, link-req req x rs r ∙ c));
    off = λ w a. a.0;
  },
)
walk-Walked (suc fuel) rs req x (y ∷ is) (e, c) (d, ds) (r, rest) v h =
    let same = fits-belongs (rs x) (rs req) (rs y) (v x) (v req) (v y) in
    elim (Bool-cases (belongs (key (rs x)) (key (rs req)) (key (rs y)))) [
      | inl f ↦ (
        x,
        record {
          found = rw (e, walk) (rw (same ∙ f) refl);
          chain =
              rw (f, elevator)
                (
                  refl,
                  (
                    link-tmp req x rs,
                    (
                      link-req req x rs r ∙ e,
                      (Chain-frame rs (link req x rs) (some y) (y ∷ is)
                          (links-other req x rs (y ∷ is) d rest) (refl, c)).1,
                    ),
                  ),
                );
          off = λ w a. a.0;
        },
      )
      | inr f ↦
          let (t, w) = walk-Walked fuel rs req y is c ds rest v (omega (arith, h)) in
          (
            t,
            record {
              found = rw (e, walk) (rw (same ∙ f) (w.found));
              chain =
                  rw (f, elevator)
                    (refl, rw (link-other req t x rs (λ q. r (sym q)) (w.off x d)) (rw e w.chain));
              off = λ k a. w.off k a.1;
            },
          )
    ]

-- addRequest, on a device that works on the request `x` with the requests `is` queued behind it,
-- all different, for a request that is not among them, where the command, device and sector of every
-- request are 32-bit words: with more rounds than there are queued requests it ends and does not start
-- the driver. The same requests are queued, with the new one behind the first one behind which it
-- belongs, or at the end. Requests compare by command, then device, both as signed words, then
-- sector; the new one belongs between two neighbours where it comes before the second, and comes
-- after the first or the second does not come after the first. No request changes but in `next`, and
-- none off the queue at all; the buffer of the new request is no longer dirty, and no other buffer
-- changes.
pub add_request-elevator :
    (fuel req x : ℕ) (is : List ℕ) (rs : ℕ → Request) (bufs : ℕ → Buffer) (n : ℕ)
    → Chain rs (rs x).next is
    → Distinct (x ∷ is)
    → All (λ i. req ≢ i) (x ∷ is)
    → ((i : ℕ) → AreWords (rs i))
    → length is < fuel
    → (rs' : ℕ → Request) × (bufs' : ℕ → Buffer) × (add_request fuel req (busy x rs bufs n)
        ≡ some (busy x rs' bufs' n))
      × Added rs bufs req x is rs' bufs'
unfolding add_request
add_request-elevator fuel req x is rs bufs n c d r v h =
    let rs₁ : ℕ → Request = put req (bare (rs req)) rs in
    let bare₁ = put-bare req (bare (rs req)) rs refl in
    let same = puts-other req (bare (rs req)) rs (x ∷ is) r in
    let c₁ = (Chain-frame rs rs₁ (some x) (x ∷ is) same (refl, c)).1 in
    let (t, w) =
      walk-Walked fuel rs₁ req x is c₁ d r
        (λ i. subst (λ (q : Request). AreWords q) (sym (bare₁ i)) (v i)) h in
    let own : (rs₁ req).bh ≡ (rs req).bh = ap (λ (q : Request). q.bh) (bare₁ req) in
    (
      link req t rs₁,
      clean (rs₁ req).bh bufs,
      rw (w.found, add_request) refl,
      record {
        order =
            subst (λ (l : List ℕ). Chain (link req t rs₁) (some x) l)
              (elevator-same rs rs₁ req (x ∷ is) (λ i. ap key (bare₁ i))) w.chain;
        contents = λ i. link-bare req t rs₁ i ∙ bare₁ i;
        others =
            λ i a. link-other req t i rs₁ a.0 (w.off i a.1) ∙ put_ne req i (bare (rs req)) rs a.0;
        cleaned = λ b e. cleaned_buffer (rs₁ req).bh bufs b (own ∙ e);
        kept = λ b e. kept_buffer (rs₁ req).bh bufs b (λ q. e (sym own ∙ q));
      },
    )
