-- ===== src/Disk/Driver/Read.antt =====
-- kernel/blk_drv/harddisk.c: the interrupts of a read, one for each sector.
use Prim.Native.Nat.{bit_and}
use operator_system.Common.{
  ℕ, zero, suc, ◌+◌, ◌-◌, ◌*◌, ◌%◌, ◌^◌, ◌<◌, ◌≡◌, refl, ap, ◌∙◌, true, false, Option, some, List,
  [], ◌∷◌, ◌++◌, ◌==◌, ◌≢◌, eq→==, ne→==, arith,
}
use mathlib.Core.Path.{subst}
use mathlib.Core.List.{append_assoc}
use operator_system.Common.Steps.{◌>>=◌}
use operator_system.Common.Word.{sub32}
use operator_system.Block.{Request, put}
use operator_system.Disk.Controller.{
  read_handler, Effect, read_words, Drive, in_byte, emit, win_result, set_request,
}
use operator_system.Disk.Driver.{advance, read_sector, read_intr}

-- the answer number `n` of the controller is a status without a failure
abbrev pub IsFine : Drive → (n : ℕ) → Type 0
IsFine s n = (bit_and (s.answers n % 2 ^ 8) 0xF1 == 0x50) ≡ true

abbrev pub next : Drive → Drive
next s = record s { reads = s.reads + 1 }

pub win_result-IsFine : (s : Drive) → IsFine s s.reads → win_result s ≡ (false, next s)
unfolding win_result in_byte
win_result-IsFine s h = rw h refl

pub read_intr-IsFine :
    (fuel c : ℕ) (s : Drive)
    → IsFine s s.reads
    → s.device.current_request ≡ some c
    → read_intr fuel s ≡ read_sector fuel c (next s)
unfolding read_intr
read_intr-IsFine fuel c s h e =
    rw (win_result-IsFine s h) (ap (λ o. o >>= λ curr. read_sector fuel curr (next s)) e)

-- the request after one sector
abbrev step : Request → Request
step r = record (advance r) { errors = 0; nr_sectors = sub32 r.nr_sectors 1 }

-- the driver after one sector
abbrev read_one : (c : ℕ) → Drive → Drive
read_one c s =
    record (set_request c (step (s.device.requests c))
      (emit (read_words (s.device.requests c).buffer) (next s))) { device_intr = some read_handler }

more : (n : ℕ) → 1 < n → n < 2 ^ 32 → (sub32 n 1 == 0) ≡ false
more n h g = ne→== (sub32 n 1) 0 (λ e. omega (arith, h, g, e))

read_sector-more :
    (fuel c : ℕ) (s : Drive)
    → (sub32 (s.device.requests c).nr_sectors 1 == 0) ≡ false
    → read_sector fuel c (next s) ≡ some (read_one c s)
unfolding read_sector emit
read_sector-more fuel c s h = rw h refl

-- `n` interrupts of a read
abbrev pub read_times : (fuel n : ℕ) → Drive → Option Drive
read_times fuel zero s = some s
read_times fuel (suc n) s = read_intr fuel s >>= λ s'. read_times fuel n s'

-- the effects of reading `n` sectors to `buffer`, the last first
abbrev pub sectors_to : (n buffer : ℕ) → List Effect
sectors_to zero buffer = []
sectors_to (suc n) buffer = sectors_to n (buffer + 512) ++ read_words buffer ∷ []

-- what `n` interrupts of a read change in the driver and in its request `c`
pub record Advanced (n c : ℕ) (s s' : Drive) : Type 0 where
  pub current : s'.device.current_request ≡ some c
  pub sector : (s'.device.requests c).sector ≡ (s.device.requests c).sector + n
  pub buffer : (s'.device.requests c).buffer ≡ (s.device.requests c).buffer + 512 * n
  pub left : (s'.device.requests c).nr_sectors ≡ (s.device.requests c).nr_sectors - n
  pub others : (j : ℕ) → j ≢ c → s'.device.requests j ≡ s.device.requests j
  pub answers : s'.answers ≡ s.answers
  pub reads : s'.reads ≡ s.reads + n
  pub effects : s'.effects ≡ sectors_to n (s.device.requests c).buffer ++ s.effects

one-Advanced :
    (c : ℕ) (s : Drive)
    → s.device.current_request ≡ some c
    → (s.device.requests c).nr_sectors < 2 ^ 32
    → 1 < (s.device.requests c).nr_sectors
    → (s.device.requests c).sector + 1 < 2 ^ 32
    → (s.device.requests c).buffer + 512 < 2 ^ 32
    → Advanced 1 c s (read_one c s)
unfolding set_request put emit advance
one-Advanced c s e b m sb bb =
    let self : (c == c) ≡ true = eq→== c c refl in
    record {
      current = e;
      sector = rw self (omega (arith, sb));
      buffer = rw self (omega (arith, bb));
      left = rw self (omega (arith, m, b));
      others = λ j h. rw (ne→== j c h) refl;
      answers = refl;
      reads = refl;
      effects = refl;
    }

-- what holds for a request of `c` before `n` interrupts, none of which is its last
pub record Pending (n c : ℕ) (s : Drive) : Type 0 where
  pub current : s.device.current_request ≡ some c
  pub more : n < (s.device.requests c).nr_sectors
  pub word : (s.device.requests c).nr_sectors < 2 ^ 32
  pub sector : (s.device.requests c).sector + n < 2 ^ 32
  pub buffer : (s.device.requests c).buffer + 512 * n < 2 ^ 32

Advanced-suc :
    (n c : ℕ) (s s₁ s' : Drive) → Advanced 1 c s s₁ → Advanced n c s₁ s' → Advanced (suc n) c s s'
Advanced-suc n c s s₁ s' a b = record {
  current = b.current;
  sector = omega (arith, a.sector, b.sector);
  buffer = omega (arith, a.buffer, b.buffer);
  left = omega (arith, a.left, b.left);
  others = λ j h. b.others j h ∙ a.others j h;
  answers = b.answers ∙ a.answers;
  reads = omega (arith, a.reads, b.reads);
  effects = simp (b.effects, a.buffer, a.effects, append_assoc);
}

Pending-one : (n c : ℕ) (s s₁ : Drive) → Pending (suc n) c s → Advanced 1 c s s₁ → Pending n c s₁
Pending-one n c s s₁ p a = record {
  current = a.current;
  more = omega (arith, a.left, p.more);
  word = omega (arith, a.left, p.word);
  sector = omega (arith, a.sector, p.sector);
  buffer = omega (arith, a.buffer, p.buffer);
}

-- While statuses without a failure come in, `n` interrupts of a read that leave a sector of the
-- first request, whose sector and buffer do not overflow on the way, read `n` sectors into
-- successive pieces of its buffer, in this order, and move its sector, its buffer and its number of
-- sectors by as many; the other requests stay.
pub read_times-Advanced :
    (fuel n c : ℕ) (s : Drive)
    → Pending n c s
    → ((i : ℕ) → i < n → IsFine s (s.reads + i))
    → (s' : Drive) × (read_times fuel n s ≡ some s') × Advanced n c s s'
unfolding set_request emit
read_times-Advanced fuel zero c s p ok = (
  s,
  refl,
  record {
    current = p.current;
    sector = omega arith;
    buffer = omega arith;
    left = omega arith;
    others = λ j h. refl;
    answers = refl;
    reads = omega arith;
    effects = refl;
  },
)
read_times-Advanced fuel (suc n) c s p ok =
    let s₁ : Drive = read_one c s in
    let a : Advanced 1 c s s₁ =
      one-Advanced c s p.current p.word (omega (arith, p.more)) (omega (arith, p.sector))
        (omega (arith, p.buffer)) in
    let e : read_intr fuel s ≡ some s₁ =
      read_intr-IsFine fuel c s (subst (IsFine s) (omega arith) (ok 0 (omega arith))) p.current
      ∙ read_sector-more fuel c s (more _ (omega (arith, p.more)) p.word) in
    let (s', e', b) =
      read_times-Advanced fuel n c s₁ (Pending-one n c s s₁ p a)
        (λ i h. subst (IsFine s) (omega arith) (ok (i + 1) (omega (arith, h)))) in
    (s', ap (λ o. o >>= λ s'. read_times fuel n s') e ∙ e', Advanced-suc n c s s₁ s' a b)
