-- ===== src/Ipc/Chunks/Recycle.antt =====
-- src/libipc/ipc.cpp, `sub_rc` in broadcast mode: when a chunk is released.
use cpp_ipc.Prelude.{
  ℕ, ◌+◌, ◌^◌, ◌<◌, bit_and, ◌≡◌, ◌≢◌, arith, some, none, ◌∙◌, refl, ap, Bool, true, false, List,
  [], ◌∷◌, if◌then◌else◌, ◌==◌,
}
use cpp_ipc.Prelude.Bits.{
  bit, bit_not, bit_ext, bit-bit_and, bit_and_le, bit-zero, add_pow-lt, zero-bit_and, bit_and-zero,
}
use native.Mathlib.Nat.{one-le-pow}
use cpp_ipc.Circ.{alone}
use cpp_ipc.Circ.Broadcast
use cpp_ipc.Circ.Broadcast.Connect.{IsTaken, disconnect-IsTaken}
use cpp_ipc.Ipc.Chunks.{sub_rc}

-- Each receiver's place among the connections, with the connections it saw when it popped.
abbrev pub Calls : Type 0
Calls = List (ℕ × ℕ)

-- The connections of the receivers' places.
abbrev pub mask : Calls → ℕ
mask [] = 0
mask ((slot, curr) ∷ calls) = mask calls + 2 ^ slot

-- How many of the calls release the chunk, each being alone, and the connections after them.
abbrev pub releases : Calls → ℕ → ℕ × ℕ
releases [] cc = (0, cc)
releases ((slot, curr) ∷ calls) cc =
    let (done, left) = elim (sub_rc (alone cc ∷ []) curr (2 ^ slot)) as (λ _. Bool × ℕ) [
      | none ↦ (false, cc)
      | some r ↦ r
    ] in
    let (more, last) = releases calls left in ((if done then 1 else 0) + more, last)

-- The places are different, and no receiver saw another that has yet to finish as disconnected.
abbrev pub AreReading : Calls → Type 0
AreReading [] = Unit
AreReading ((slot, curr) ∷ calls) =
    (slot < 32)
    × (bit (mask calls) slot ≡ 0)
    × (bit_and (mask calls + 2 ^ slot) curr ≡ mask calls + 2 ^ slot)
    × AreReading calls

mask-lt : (calls : Calls) → AreReading calls → mask calls < 2 ^ 32
mask-lt [] h = omega arith
mask-lt ((slot, curr) ∷ calls) (l, free, sees, h) =
    add_pow-lt 32 slot (mask calls) (mask-lt calls h) l free

bit_and-assoc_lem :
    (a b c : ℕ) → a < 2 ^ 32 → bit_and a b ≡ a → bit_and a (bit_and b c) ≡ bit_and a c
bit_and-assoc_lem a b c h e =
    bit_ext 32 (bit_and a (bit_and b c)) (bit_and a c)
      (omega (arith, bit_and_le 32 a (bit_and b c) h)) (omega (arith, bit_and_le 32 a c h))
      λ k l. omega (
        arith,
        bit-bit_and k a (bit_and b c),
        bit-bit_and k b c,
        bit-bit_and k a c,
        bit-bit_and k a b,
        ap (λ t. bit t k) e,
      )

-- The call takes the receiver's own bit from the connections.
sub_rc-mask :
    (m slot curr : ℕ)
    → m < 2 ^ 32
    → slot < 32
    → bit m slot ≡ 0
    → bit_and (m + 2 ^ slot) curr ≡ m + 2 ^ slot
    → sub_rc (alone (m + 2 ^ slot) ∷ []) curr (2 ^ slot) ≡ some (m == 0, m)
unfolding sub_rc Broadcast.disconnect
sub_rc-mask m slot curr h l free sees =
    let t : IsTaken m (2 ^ slot) (m + 2 ^ slot) = record {
      slot = slot;
      in_range = l;
      id_eq = refl;
      free = free;
      next_eq = refl;
    } in
    let back : bit_and (m + 2 ^ slot) (bit_not 32 (2 ^ slot)) ≡ m = (disconnect-IsTaken h t).0 in
    let left : bit_and (m + 2 ^ slot) (bit_and curr (bit_not 32 (2 ^ slot))) ≡ m =
      bit_and-assoc_lem (m + 2 ^ slot) curr (bit_not 32 (2 ^ slot)) (add_pow-lt 32 slot m h l free)
        sees
      ∙ back in
    let same : (m + 2 ^ slot == m + 2 ^ slot) ≡ true = ground arith in rw (same, left)

releases-first :
    (slot curr : ℕ) (calls : Calls)
    → AreReading ((slot, curr) ∷ calls)
    → releases ((slot, curr) ∷ calls) (mask ((slot, curr) ∷ calls)) ≡ (
      (if mask calls == 0 then 1 else 0) + (releases calls (mask calls)).0,
      (releases calls (mask calls)).1,
    )
releases-first slot curr calls (l, free, sees, h) =
    rw (sub_rc-mask (mask calls) slot curr (mask-lt calls h) l free sees)

-- When each receiver of a chunk gives it back, and none of them saw one that has yet to do so as
-- disconnected, exactly one call releases the chunk and no connection is left.
pub released_once :
    (slot curr : ℕ) (calls : Calls)
    → AreReading ((slot, curr) ∷ calls)
    → releases ((slot, curr) ∷ calls) (mask ((slot, curr) ∷ calls)) ≡ (1, 0)
released_once slot curr [] h = releases-first slot curr [] h
released_once slot curr ((slot', curr') ∷ calls) h =
    let rest : Calls = (slot', curr') ∷ calls in
    let unread : (mask rest == 0) ≡ false = ground (arith, one-le-pow slot' 2) in
    releases-first slot curr rest h
    ∙ ap (λ (r : ℕ × ℕ). ((if mask rest == 0 then 1 else 0) + r.0, r.1))
        (released_once slot' curr' calls h.3)
    ∙ rw unread

-- A receiver that saw no other connection leaves none; and then each call finds none.
sub_rc-alone :
    (cc slot : ℕ) → slot < 32 → sub_rc (alone cc ∷ []) (2 ^ slot) (2 ^ slot) ≡ some (true, 0)
unfolding sub_rc Broadcast.disconnect
sub_rc-alone c slot h =
    let t : IsTaken 0 (2 ^ slot) (2 ^ slot) = record {
      slot = slot;
      in_range = h;
      id_eq = refl;
      free = bit-zero slot;
      next_eq = omega arith;
    } in
    let back : bit_and (2 ^ slot) (bit_not 32 (2 ^ slot)) ≡ 0 =
      (disconnect-IsTaken (omega arith) t).0 in
    let same : (c == c) ≡ true = ground arith in rw (same, back, bit_and-zero c)

sub_rc-zero : (curr id : ℕ) → sub_rc (alone 0 ∷ []) curr id ≡ some (true, 0)
unfolding sub_rc
sub_rc-zero curr id = rw (zero-bit_and (bit_and curr (bit_not 32 id)))

-- Where one of two receivers has disconnected before the other pops the message, and gives its
-- chunk back after that one, both calls release the chunk.
pub released_twice :
    (j k : ℕ)
    → j < 32
    → k < 32
    → j ≢ k
    → (releases ((j, 2 ^ j) ∷ ((k, 2 ^ j + 2 ^ k) ∷ [])) (2 ^ j + 2 ^ k)).0 ≡ 2
released_twice j k hj hk ne =
    rw (sub_rc-alone (2 ^ j + 2 ^ k) j hj, sub_rc-zero (2 ^ j + 2 ^ k) (2 ^ k))
