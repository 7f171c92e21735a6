-- ===== src/Circ/Broadcast/Connect.antt =====
-- Connecting in broadcast mode: the bit that is taken, whatever other threads do meanwhile.
use cpp_ipc.Prelude.{
  ℕ, zero, suc, ◌+◌, ◌-◌, ◌*◌, ◌/◌, ◌%◌, ◌^◌, ◌<◌, min, bit_and, bit_or, bit_xor, ◌≡◌, ◌≢◌, ◌⊎◌,
  inl, inr, refl, ap, true, none, some, List, [], ◌∷◌, arith, ◌==◌, get_elem?, Bool-cases, dec_lt,
  All, ◌↔◌, ℕ_discrete, max,
}
use cpp_ipc.Prelude.Bits.{
  bit, bit_not, bit_or_low, bit_xor_low, bit_or_self, bit_or-zero, differ_lem, bit_xor_self,
  bit-bit_and, bit-bit_not, bit_ext, bit_and_le, bit-lt-two, bit-add_pow, bit-pow_ne, bit-pow_self,
  pow-lt, add_pow-lt, ne_zero_of_bit,
}
use native.Mathlib.Nat.{pow-suc, one-le-pow}
use cpp_ipc.Circ.{u32, Attempt, exchanges, alone}
use cpp_ipc.Circ.Broadcast.{connect, disconnect, connected}

-- `next` is `cc` with one more bit, whose value is `id`.
pub record IsTaken (cc id next : ℕ) : Type 0 where
  pub slot : ℕ
  pub in_range : slot < 32
  pub id_eq : id ≡ 2 ^ slot
  pub free : bit cc slot ≡ 0
  pub next_eq : next ≡ cc + 2 ^ slot

bit_or_even : (c : ℕ) → ¬ (0 < c % 2) → bit_or c (c + 1) ≡ c + 1
bit_or_even c even =
    let half : (c + 1) / 2 ≡ c / 2 = omega arith in
    omega (arith, bit_or_low c (c + 1), bit_or_self (c / 2), ap (bit_or (c / 2)) half)

xor_halves : (c : ℕ) → ¬ (0 < c % 2) → bit_xor ((c + 1) / 2) (c / 2) ≡ 0
xor_halves c even = let half : (c + 1) / 2 ≡ c / 2 = omega arith in rw half (bit_xor_self (c / 2))

bit_or_odd : (c : ℕ) → 0 < c % 2 → bit_or c (c + 1) ≡ bit_or (c / 2) (c / 2 + 1) * 2 + 1
bit_or_odd c odd =
    let half : (c + 1) / 2 ≡ c / 2 + 1 = omega arith in
    omega (arith, bit_or_low c (c + 1), ap (bit_or (c / 2)) half)

-- The lowest 0 of `c`, which is not all ones.
lowest_zero :
    (w c : ℕ)
    → c < 2 ^ w
    → c ≢ 2 ^ w - 1
    → (k : ℕ) × (k < w)
      × (bit_xor (bit_or c (c + 1)) c ≡ 2 ^ k)
      × (bit_or c (c + 1) ≡ c + 2 ^ k)
      × (bit c k ≡ 0)
lowest_zero zero c h ne = absurd (ne (omega arith))
lowest_zero (suc w) c h ne = elim (dec_lt 0 (c % 2)) [
  | no even ↦
      let o : bit_or c (c + 1) ≡ c + 1 = omega (arith, bit_or_even c even) in
      (
        0,
        omega arith,
        rw o (omega (arith, bit_xor_low (c + 1) c, differ_lem, xor_halves c even)),
        o,
        omega arith,
      )
  | yes odd ↦
      let (k, l, x, o, b) =
        lowest_zero w (c / 2) (omega (arith, pow-suc 2 w))
          (λ e. ne (omega (arith, pow-suc 2 w, one-le-pow w 2))) in
      let up : bit_or c (c + 1) ≡ bit_or (c / 2) (c / 2 + 1) * 2 + 1 = bit_or_odd c odd in
      let half : bit_or c (c + 1) / 2 ≡ bit_or (c / 2) (c / 2 + 1) = omega arith in
      (
        suc k,
        omega arith,
        omega (
          arith,
          bit_xor_low (bit_or c (c + 1)) c,
          differ_lem,
          ap (λ t. bit_xor t (c / 2)) half,
          pow-suc 2 k,
        ),
        omega (arith, pow-suc 2 k),
        b,
      )
]

-- Taking the lowest free bit at a value that is not all ones.
pub taken :
    (c : ℕ)
    → c < 2 ^ 32
    → c ≢ 2 ^ 32 - 1
    → IsTaken c (bit_xor (bit_or c (u32 (c + 1))) c) (bit_or c (u32 (c + 1)))
taken c h ne =
    let (k, l, x, o, b) = lowest_zero 32 c h ne in
    let fits : u32 (c + 1) ≡ c + 1 = omega arith in
    record { slot = k; in_range = l; id_eq = rw fits x; free = b; next_eq = rw fits o }

-- At all ones there is nothing to take.
full : (c : ℕ) → c ≡ 2 ^ 32 - 1 → bit_or c (u32 (c + 1)) ≡ c
full c e = let wraps : u32 (c + 1) ≡ 0 = omega arith in rw wraps (bit_or-zero c)

-- Words of 32 bits at every turn.
abbrev pub AreWords : List Attempt → Type 0
AreWords = All (λ a. a.seen < 2 ^ 32)

-- Whatever other threads do between the turns of the loop, a receiver that gets an id has set one
-- bit of the connections that was clear at the exchange, and no other.
pub connect-IsTaken :
    (turns : List Attempt) (id next : ℕ)
    → AreWords turns
    → connect turns ≡ some (id, some next)
    → (i : ℕ) × (a : Attempt) × (get_elem? turns i ≡ some a) × IsTaken a.now id next
unfolding connect
connect-IsTaken [] id next w e = cc
connect-IsTaken (a ∷ more) id next w e =
    elim (Bool-cases (bit_or a.seen (u32 (a.seen + 1)) == a.seen)) [
      | inl none_free ↦ cc (rw none_free at e)
      | inr some_free ↦ elim (Bool-cases (exchanges a)) [
        | inl won ↦
            let ne : a.seen ≢ 2 ^ 32 - 1 = λ q. ground (arith, full a.seen q) in
            let same : a.now ≡ a.seen = ground arith in
            let stored = rw (some_free, won) at e in
            let id_is : bit_xor (bit_or a.seen (u32 (a.seen + 1))) a.seen ≡ id = ground arith in
            let next_is : bit_or a.seen (u32 (a.seen + 1)) ≡ next = ground arith in
            (0, a, refl, rw (same, ← id_is, ← next_is) (taken a.seen w.0 ne))
        | inr lost ↦
            let (i, b, at_i, t) = connect-IsTaken more id next w.1 (rw (some_free, lost) at e) in
            (suc i, b, at_i, t)
      ]
    ]

-- A receiver that is alone is refused exactly when all 32 bits are set.
pub connect-refused_iff :
    (cc : ℕ) → cc < 2 ^ 32 → (connect (alone cc ∷ []) ≡ some (0, none)) ↔ (cc ≡ 2 ^ 32 - 1)
unfolding connect
connect-refused_iff cc h = (all_ones, λ e. ground (arith, full cc e))
  where
    all_ones : connect (alone cc ∷ []) ≡ some (0, none) → cc ≡ 2 ^ 32 - 1
    all_ones e = elim (ℕ_discrete cc (2 ^ 32 - 1)) [
      | yes p ↦ p
      | no ne ↦ let t = taken cc h ne in ground (arith, t.next_eq, one-le-pow t.slot 2)
    ]

-- The bits after a disconnection: those of `cc_id` are clear, the others as they were.
pub bit-disconnect :
    (cc cc_id k : ℕ)
    → cc_id < 2 ^ 32
    → k < 32
    → bit (disconnect cc cc_id) k ≡ min (bit cc k) (1 - bit cc_id k)
unfolding disconnect
bit-disconnect cc cc_id k h l =
    omega (arith, bit-bit_and k cc (bit_not 32 cc_id), bit-bit_not 32 k cc_id h l)

pub disconnect-lt : (cc cc_id : ℕ) → cc < 2 ^ 32 → disconnect cc cc_id < 2 ^ 32
unfolding disconnect
disconnect-lt cc cc_id h = omega (arith, bit_and_le 32 cc (bit_not 32 cc_id) h)

-- The bit that was taken is set in the new value.
pub bit-IsTaken :
    {cc id next : ℕ} → IsTaken cc id next → (j : ℕ) → bit next j ≡ max (bit cc j) (bit id j)
bit-IsTaken {cc} t j = rw (t.next_eq, t.id_eq) (bit-add_pow t.slot j cc t.free)

-- Disconnecting an id that was taken gives the connections back as they were, and until then the
-- id counts as connected.
pub disconnect-IsTaken :
    {cc id next : ℕ}
    → cc < 2 ^ 32
    → IsTaken cc id next
    → (disconnect next id ≡ cc) × (connected next id ≡ true)
unfolding connected
disconnect-IsTaken {cc} {id} {next} h t = (back, held)
  where
    id_lt : id < 2 ^ 32
    id_lt = rw t.id_eq (pow-lt t.slot 32 t.in_range)

    next_lt : next < 2 ^ 32
    next_lt = rw t.next_eq (add_pow-lt 32 t.slot cc h t.in_range t.free)

    clear_of_set : (j : ℕ) → (bit cc j ≡ 0) ⊎ (bit id j ≡ 0)
    clear_of_set j = elim (ℕ_discrete j t.slot) [
      | yes e ↦ inl (rw e t.free)
      | no ne ↦ inr (rw t.id_eq (bit-pow_ne t.slot j ne))
    ]

    back : disconnect next id ≡ cc
    back = bit_ext 32 (disconnect next id) cc (disconnect-lt next id next_lt) h λ j l. omega (
      arith,
      bit-disconnect next id j id_lt l,
      bit-IsTaken t j,
      clear_of_set j,
      bit-lt-two cc j,
      bit-lt-two id j,
    )

    own_bit : bit id t.slot ≡ 1
    own_bit = rw t.id_eq (bit-pow_self t.slot)

    held : connected next id ≡ true
    held = ground (
      arith,
      ne_zero_of_bit t.slot (bit_and next id)
          (omega (arith, bit-bit_and t.slot next id, bit-IsTaken t t.slot, own_bit)),
    )
