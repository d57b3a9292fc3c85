-- ===== src/Ikc/Portal/Writing.antt =====
-- The kernel calls that kportal_write() of src/libnanvix/ikc/portal.c makes.
use libnanvix.Shared.{
  ℕ, zero, suc, ◌+◌, ◌-◌, ◌*◌, ◌/◌, ◌<◌, ◌≤◌, ◌≡◌, refl, ◌∙◌, not, List, [], ◌∷◌, some, ℤ, pos, ok,
  ◌==◌, if◌then◌else◌, arith,
}
use native.Mathlib.Nat.{div-add-mod', mod-lt}
use libnanvix.Kernel.{Kernel, Nr}
use libnanvix.Ikc.Retry.{retry}
use libnanvix.Ikc.Mportal.Pieces.{piece_size}
use libnanvix.Ikc.Portal.{kportal_awrite, kportal_wait, write_pieces, kportal_write}

-- A part of a buffer: its address and its size.
pub record Part : Type 0 where
  pub start : ℕ
  pub size : ℕ

-- The parts follow each other from an address on, and none of them is empty or above a size.
unfoldable pub Covers : ℕ → ℕ → ℕ → List Part → Type 0
Covers data_size start size [] = size ≡ 0
Covers data_size start size (p ∷ parts) =
    (p.start ≡ start)
    × (0 < p.size)
    × (p.size ≤ data_size)
    × (p.size ≤ size)
    × Covers data_size (start + p.size) (size - p.size) parts

module _ (k : Kernel) (portal_max max_size data_size : ℕ) where
  open k use {State, kcall}

  -- The kernel takes these parts at once, one after the other, and each wait for it returns 0.
  pub data Takes (portalid : ℤ) : State → List Part → State → Type 0 where
    all : {s : State} → Takes portalid s [] s
    takes :
        {s u v w : State} {parts : List Part} {n : ℕ} (p : Part)
        → kcall Nr.portal_awrite (portalid ∷ pos p.start ∷ pos p.size ∷ []) s ≡ (ok n, u)
        → kcall Nr.portal_wait (portalid ∷ []) u ≡ (ok 0, v)
        → Takes portalid v parts w
        → Takes portalid s (p ∷ parts) w

  unfoldable pub parts_of : (n t times remainder : ℕ) → ℕ → List Part
  parts_of zero t times remainder buffer = []
  parts_of (suc n) t times remainder buffer =
      let m = piece_size data_size times remainder t in
      record { start = buffer; size = m } ∷ parts_of n (suc t) times remainder (buffer + m)

  -- One piece that the kernel takes.
  awrite-taken :
      (fuel : ℕ) (portalid : ℤ) (buffer l m : ℕ) (s u : State)
      → 0 < m
      → m ≤ data_size
      → kcall Nr.portal_awrite (portalid ∷ pos buffer ∷ pos m ∷ []) s ≡ (ok l, u)
      → kportal_awrite k portal_max max_size data_size (suc fuel) portalid (some buffer) m s
        ≡ some (ok l, u)
  unfolding kportal_awrite retry
  awrite-taken fuel portalid buffer l m s u some_bytes fits taken =
      ground (arith, some_bytes, fits, taken)

  write_pieces-next :
      (fuel n t times remainder : ℕ) (portalid : ℤ) (buffer size l : ℕ) (s u v : State)
      → let m = piece_size data_size times remainder t in
        kportal_awrite k portal_max max_size data_size (suc fuel) portalid (some buffer) m s
          ≡ some (ok l, u)
        → kcall Nr.portal_wait (portalid ∷ []) u ≡ (ok 0, v)
        → write_pieces k portal_max max_size data_size
            (suc fuel)
            (suc n)
            t
            times
            remainder
            portalid
            buffer
            size
            s
          ≡ write_pieces k portal_max max_size data_size
              (suc fuel)
              n
              (suc t)
              times
              remainder
              portalid
              (buffer + m)
              size
              v
  unfolding write_pieces kportal_wait
  write_pieces-next fuel n t times remainder portalid buffer size l s u v taken waited =
      ground (arith, taken, waited)

  -- What the kernel takes, the loop writes.
  write_pieces-Takes :
      (fuel n t times remainder : ℕ) (portalid : ℤ) (buffer size rest : ℕ) (s w : State)
      → Covers data_size buffer rest (parts_of n t times remainder buffer)
      → Takes portalid s (parts_of n t times remainder buffer) w
      → write_pieces k portal_max max_size data_size
          (suc fuel)
          n
          t
          times
          remainder
          portalid
          buffer
          size
          s
        ≡ some (ok size, w)
  unfolding write_pieces parts_of Covers
  write_pieces-Takes fuel zero t times remainder portalid buffer size rest s _ covers all = refl
  write_pieces-Takes fuel (suc n) t times remainder portalid buffer size rest s w
        (start, some_bytes, fits, inside, covers) (takes {u} {v} {n = l} p taken waited more) =
      let m = piece_size data_size times remainder t in
      write_pieces-next fuel n t times remainder portalid buffer size l s u v
        (awrite-taken fuel portalid buffer l m s u some_bytes fits taken) waited
      ∙ write_pieces-Takes fuel n (suc t) times remainder portalid (buffer + m) size (rest - m) v w
          covers more

  -- The pieces from number `t` on are `q` full ones and `r` smaller ones.
  parts_of-Covers :
      (q n r t times remainder buffer size : ℕ)
      → 0 < data_size
      → n ≡ q + r
      → (remainder ≡ 0 → r ≡ 0)
      → (0 < remainder → r ≡ 1)
      → remainder < data_size
      → t + q ≡ times
      → size ≡ q * data_size + remainder
      → Covers data_size buffer size (parts_of n t times remainder buffer)
  unfolding Covers parts_of
  parts_of-Covers zero zero r t times zero buffer size positive parts even one small last whole =
      omega arith
  parts_of-Covers zero zero r t times (suc m) buffer size positive parts even one small last whole =
      absurd (omega (arith, one (omega arith)))
  parts_of-Covers zero (suc zero) r t times zero buffer size positive parts even one small last
        whole =
      absurd (omega (arith, even refl))
  parts_of-Covers zero (suc zero) r t times (suc l) buffer size positive parts even one small last
        whole =
      let m = piece_size data_size times (suc l) t in
      let all : m ≡ suc l = ground (arith, last) in
      (refl, omega (arith, all), omega (arith, all), omega (arith, all), omega (arith, all))
  parts_of-Covers zero (suc (suc n)) r t times zero buffer size positive parts even one small last
        whole =
      absurd (omega (arith, even refl))
  parts_of-Covers zero (suc (suc n)) r t times (suc l) buffer size positive parts even one small
        last whole =
      absurd (omega (arith, one (omega arith)))
  parts_of-Covers (suc q) zero r t times remainder buffer size positive parts even one small last
        whole =
      absurd (omega arith)
  parts_of-Covers (suc q) (suc n) r t times remainder buffer size positive parts even one small last
        whole =
      let m = piece_size data_size times remainder t in
      let full : m ≡ data_size = ground (arith, last) in
      (
        refl,
        omega (arith, full),
        omega (arith, full),
        omega (arith, full),
        parts_of-Covers q n r (suc t) times remainder (buffer + m) (size - m) positive (omega arith)
            even one small (omega arith) (omega (arith, full)),
      )

  -- The parts of a buffer.
  unfoldable pub parts_for : (buffer size : ℕ) → List Part
  parts_for buffer size =
      let times = size / data_size in
      let remainder = size - times * data_size in
      parts_of (times + (if not (remainder == 0) then 1 else 0)) 0 times remainder buffer

  parts_for-Covers :
      (buffer size : ℕ) → 0 < data_size → Covers data_size buffer size (parts_for buffer size)
  unfolding parts_for
  parts_for-Covers buffer size positive =
      let times = size / data_size in
      let remainder = size - times * data_size in
      let r : ℕ = if not (remainder == 0) then 1 else 0 in
      let whole = div-add-mod' size data_size in
      parts_of-Covers times (times + r) r 0 times remainder buffer size positive refl
        (λ e. ground (arith, e)) (λ h. ground (arith, h))
        (omega (arith, whole, mod-lt size positive)) (omega arith) (omega (arith, whole))

  -- A write passes the whole buffer on, in pieces that the kernel can take: its parts follow each other
  -- from the address of the buffer to its end, none is empty and none above
  -- KPORTAL_MESSAGE_DATA_SIZE bytes, and if the kernel takes these parts one after the other, and each
  -- wait returns 0, then the write returns `size` and leaves the kernel behind the last of them. The
  -- size is above 0 and at most KPORTAL_MAX_SIZE.
  pub kportal_write-Covers :
      (fuel : ℕ) (portalid : ℤ) (buffer size : ℕ) (s w : State)
      → 0 < data_size
      → 0 < size
      → size ≤ max_size
      → Takes portalid s (parts_for buffer size) w
      → Covers data_size buffer size (parts_for buffer size)
        × (kportal_write k portal_max max_size data_size (suc fuel) portalid (some buffer) size s
            ≡ some (ok size, w))
  unfolding kportal_write parts_for
  kportal_write-Covers fuel portalid buffer size s w positive some_bytes fits taken =
      let times = size / data_size in
      let remainder = size - times * data_size in
      let r : ℕ = if not (remainder == 0) then 1 else 0 in
      (
        parts_for-Covers buffer size positive,
        ground (
          arith,
          some_bytes,
          fits,
          write_pieces-Takes fuel (times + r) 0 times remainder portalid buffer size size s w
              (parts_for-Covers buffer size positive) taken,
        ),
      )
