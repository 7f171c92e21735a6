-- ===== src/ProdCons/Broadcast/Counter.antt =====
-- The read counter as two fields: the epoch, and the receivers that have yet to read.
use cpp_ipc.Prelude.{
  ℕ, ◌+◌, ◌-◌, ◌*◌, ◌/◌, ◌%◌, ◌^◌, ◌<◌, bit_and, bit_or, ◌≡◌, ◌≢◌, arith, ap, ap₂, ◌∙◌, sym,
}
use cpp_ipc.Prelude.Bits.{
  bit, bit_not, bit_and-low_mask, bit_or_fields, bit_and_fields, bit_and-zero, bit-bit_and,
  bit-bit_not, bit_and_le, pow-lt, bit-pow_ne,
}
use cpp_ipc.ProdCons.Broadcast.{ep_mask}

abbrev pub epoch_of : ℕ → ℕ
epoch_of rc = rc / 2 ^ 32 * 2 ^ 32

abbrev pub unread_of : ℕ → ℕ
unread_of rc = rc % 2 ^ 32

pub rc_low : (rc : ℕ) → bit_and rc ep_mask ≡ unread_of rc
rc_low rc = bit_and-low_mask 32 rc

-- A mask whose upper half is all ones keeps the upper half.
high_fields :
    (q r s : ℕ)
    → q < 2 ^ 32
    → r < 2 ^ 32
    → s < 2 ^ 32
    → bit_and (q * 2 ^ 32 + r) ((2 ^ 32 - 1) * 2 ^ 32 + s) ≡ q * 2 ^ 32 + bit_and r s
high_fields q r s hq hr hs =
    omega (arith, bit_and_fields 32 q (2 ^ 32 - 1) r s hr hs, bit_and-low_mask 32 q)

masked :
    (rc mask s : ℕ)
    → rc < 2 ^ 64
    → s < 2 ^ 32
    → mask ≡ (2 ^ 32 - 1) * 2 ^ 32 + s
    → bit_and rc mask ≡ epoch_of rc + bit_and (unread_of rc) s
masked rc mask s h hs e =
    let split : rc ≡ rc / 2 ^ 32 * 2 ^ 32 + rc % 2 ^ 32 = omega arith in
    ap₂ bit_and split e ∙ high_fields (rc / 2 ^ 32) (rc % 2 ^ 32) s (omega arith) (omega arith) hs

pub rc_high : (rc : ℕ) → rc < 2 ^ 64 → bit_and rc (bit_not 64 ep_mask) ≡ epoch_of rc
rc_high rc h = omega (
  arith,
  masked rc (bit_not 64 ep_mask) 0 h (omega arith) (omega arith),
  bit_and-zero (unread_of rc),
)

pub rc_merge : (e cc : ℕ) → e % 2 ^ 32 ≡ 0 → cc < 2 ^ 32 → bit_or e cc ≡ e + cc
rc_merge e cc whole h =
    let split : e ≡ e / 2 ^ 32 * 2 ^ 32 = omega arith in
    ap (λ t. bit_or t cc) split ∙ bit_or_fields 32 (e / 2 ^ 32) cc h ∙ ap (λ t. t + cc) (sym split)

pub rc_clear :
    (rc id : ℕ)
    → rc < 2 ^ 64
    → id < 2 ^ 32
    → bit_and rc (bit_not 64 id) ≡ epoch_of rc + bit_and (unread_of rc) (bit_not 32 id)
rc_clear rc id h l = masked rc (bit_not 64 id) (bit_not 32 id) h (omega arith) (omega arith)

-- A counter of the epoch `e` in which receiver `k` has yet to read.
pub record Awaits (e k rc : ℕ) : Type 0 where
  pub fits : rc < 2 ^ 64
  pub epoch : epoch_of rc ≡ e
  pub pending : bit (unread_of rc) k ≡ 1

pub clear-fits : (rc id : ℕ) → rc < 2 ^ 64 → bit_and rc (bit_not 64 id) < 2 ^ 64
clear-fits rc id h = omega (arith, bit_and_le 64 rc (bit_not 64 id) h)

-- Clearing the bit of receiver `j` leaves the counter as it is for the others.
pub clear-Awaits :
    (e k j rc : ℕ)
    → j < 32
    → k < 32
    → k ≢ j
    → Awaits e k rc
    → Awaits e k (bit_and rc (bit_not 64 (2 ^ j)))
clear-Awaits e k j rc hj hk ne a =
    let id_fits : 2 ^ j < 2 ^ 32 = pow-lt j 32 hj in
    let mask : ℕ = bit_not 32 (2 ^ j) in
    let low_le = bit_and_le 32 (unread_of rc) mask (omega arith) in
    let low_field : unread_of (epoch_of rc + bit_and (unread_of rc) mask)
        ≡ bit_and (unread_of rc) mask =
      omega arith in
    rw (rc_clear rc (2 ^ j) a.fits id_fits) (record {
      fits = omega (arith, a.fits);
      epoch = omega (arith, a.epoch);
      pending = rw low_field (
          omega (
            arith,
            bit-bit_and k (unread_of rc) mask,
            bit-bit_not 32 k (2 ^ j) id_fits hk,
            bit-pow_ne j k ne,
            a.pending,
          ));
    })

pub marked-Awaits :
    (e cc k : ℕ)
    → e < 2 ^ 64
    → e % 2 ^ 32 ≡ 0
    → cc < 2 ^ 32
    → bit cc k ≡ 1
    → Awaits e k (bit_or e cc)
marked-Awaits e cc k fits whole h on =
    let low : unread_of (e + cc) ≡ cc = omega arith in
    rw (rc_merge e cc whole h)
      (record { fits = omega arith; epoch = omega arith; pending = rw low on })
