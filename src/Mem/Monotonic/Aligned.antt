-- ===== src/Mem/Monotonic/Aligned.antt =====
-- src/libipc/mem/monotonic_buffer_resource.cpp: alignment, and that a fresh node has room.
use cpp_ipc.Prelude.{
  ℕ, zero, suc, ◌+◌, ◌-◌, ◌*◌, ◌/◌, ◌%◌, ◌^◌, ◌≤◌, ◌<◌, ◌≡◌, ap, sym, ◌∙◌, arith, some, dec_lt,
}
use native.Mathlib.Nat.{
  one-le-pow, mod-lt, div-add-mod, add-mod-mod, mod-add-mod, mod_self, add-mul-div_left,
  pow-le-pow_right, div-eq_of_lt, mod-eq_of_lt,
}
use cpp_ipc.Prelude.Align.{bit_and-high_mask, pow_add}
use cpp_ipc.Ipc.Chunks.{u64}
use cpp_ipc.Mem.Monotonic.{round_up, align}

-- What `std::align` finds: an aligned place behind `p`, with room for the bytes in the space.
pub align-Fits :
    (a bytes p space q s : ℕ)
    → align a bytes p space ≡ some (q, s)
    → (p ≤ q) × (q + bytes ≤ p + space) × (q + s ≡ p + space)
unfolding align
align-Fits a bytes p space q s e = ground arith

-- The distance to the next multiple of `a`.
pad_lem : (a p : ℕ) → 1 ≤ a → (p + (a - p % a) % a) % a ≡ 0
pad_lem a p h =
    add-mod-mod p (a - p % a) a
    ∙ sym (mod-add-mod p a (a - p % a))
    ∙ ap (λ t. t % a) (omega (arith, mod-lt p h))
    ∙ mod_self a

-- What `std::align` returns is a multiple of the alignment.
pub align-mod : (a bytes p space q s : ℕ) → 1 ≤ a → align a bytes p space ≡ some (q, s) → q % a ≡ 0
unfolding align
align-mod a bytes p space q s h e =
    let found : q ≡ p + (a - p % a) % a = ground arith in rw found (pad_lem a p h)

round_up-large : (k : ℕ) → k < 64 → 32 ≤ 2 ^ k → round_up 16 (2 ^ k) ≡ 2 ^ k
unfolding round_up
round_up-large k h large =
    let below : 2 ^ k ≤ 2 ^ 63 = pow-le-pow_right (omega arith) {i = k} {j = 63} (omega arith) in
    let word : u64 (16 + 2 ^ k - 1) ≡ 15 + 2 ^ k * 1 = omega arith in
    let small : 15 / 2 ^ k ≡ 0 = div-eq_of_lt (omega arith) in
    let one : (15 + 2 ^ k * 1) / 2 ^ k ≡ 1 =
      add-mul-div_left 15 1 (omega arith) ∙ omega (arith, small) in
    rw word (
      bit_and-high_mask k (64 - k) 64 (15 + 2 ^ k * 1) (omega arith) (omega arith)
      ∙ rw one (omega arith))

module _ (a place : ℕ) (large : 32 ≤ a) where
  -- Addresses that are multiples of 16 stay so at a distance that is a multiple of 32.
  rest_sixteen : (m : ℕ) → a ≡ 32 * m → place % 16 ≡ 0 → (place + 16) % a % 16 ≡ 0
  rest_sixteen m e h =
      let split : a * ((place + 16) / a) + (place + 16) % a ≡ place + 16 =
        div-add-mod (place + 16) a in
      let whole : a * ((place + 16) / a) ≡ 32 * (m * ((place + 16) / a)) = rw e (grind arith) in
      omega arith

  pad_large : (m : ℕ) → a ≡ 32 * m → place % 16 ≡ 0 → 16 + (a - (place + 16) % a) % a ≤ a
  pad_large m e h =
      let some_space : (place + 16) % a < a = mod-lt (place + 16) (omega arith) in
      let sixteen = rest_sixteen m e h in
      elim (dec_lt 0 ((place + 16) % a)) [
        | yes l ↦
            let fits : (a - (place + 16) % a) % a ≡ a - (place + 16) % a =
              mod-eq_of_lt (omega arith) in
            omega arith
        | no n ↦
            let whole : a - (place + 16) % a ≡ a = omega arith in
            rw whole (omega (arith, mod_self a))
      ]

-- A node has room for its header, the padding of an address behind it and the bytes asked for.
pub pad-round_up :
    (k place : ℕ)
    → k < 64
    → place % 16 ≡ 0
    → 16 + (2 ^ k - (place + 16) % 2 ^ k) % 2 ^ k ≤ round_up 16 (2 ^ k)
unfolding round_up
pad-round_up zero place h e = omega arith
pad-round_up (suc zero) place h e = omega arith
pad-round_up (suc (suc zero)) place h e = omega arith
pad-round_up (suc (suc (suc zero))) place h e = omega arith
pad-round_up (suc (suc (suc (suc zero)))) place h e = omega arith
pad-round_up (suc (suc (suc (suc (suc j))))) place h e =
    let split : 2 ^ suc (suc (suc (suc (suc j)))) ≡ 32 * 2 ^ j = pow_add j 5 _ (omega arith) in
    let large : 32 ≤ 2 ^ suc (suc (suc (suc (suc j)))) =
      omega (arith, split, one-le-pow j 2 (omega arith)) in
    rw (round_up-large _ h large) (pad_large _ place large (2 ^ j) split e)

-- With enough space `std::align` succeeds.
pub align-some :
    (a bytes p space : ℕ)
    → bytes + (a - p % a) % a ≤ space
    → align a bytes p space ≡ some (p + (a - p % a) % a, space - (a - p % a) % a)
unfolding align
align-some a bytes p space h = ground arith
