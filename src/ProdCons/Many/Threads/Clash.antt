-- ===== src/ProdCons/Many/Threads/Clash.antt =====
-- src/libipc/prod_cons.h, `push` of `prod_cons_impl<wr<multi, multi, broadcast>>`: the test of the flag is
-- left out where a receiver that is gone has yet to read.
use cpp_ipc.Prelude.{
  ℕ, ◌+◌, ◌/◌, ◌*◌, ◌%◌, ◌^◌, ◌<◌, ◌≡◌, ◌≢◌, refl, sym, ap, ◌∙◌, bit_and, bit_or, some, [], ◌∷◌,
  arith, get_elem?,
}
use cpp_ipc.Prelude.Bits.{
  bit, bit_not, bit_ext, bit-bit_and, bit-bit_not, bit-zero, bit-lt-two, bit_and_le, bit_or-lt,
  bit_or_fields, bit_and-low_mask, ne_zero_of_bit, bit-add_pow, bit-pow_self, add_pow-lt,
}
use cpp_ipc.Prelude.Align.{bit_and-high_mask}
use cpp_ipc.Circ.{index_of}
use cpp_ipc.Circ.Broadcast.{disconnect}
use cpp_ipc.Circ.Broadcast.Connect.{IsTaken}
use cpp_ipc.ProdCons.{store, store_self}
use cpp_ipc.ProdCons.Many.{Channel, Elem, ep_mask, inc_rc, inc_mask, u64, ic_mask, ic_incr}
use cpp_ipc.ProdCons.Many.Threads.{
  Producer, counting, Push, elem, rem_cc, marked_rc, System, Reach, here, after, produce, join,
  leave,
}

low_of : (z : ℕ) → rem_cc z ≡ z % 2 ^ 32
low_of z = omega (arith, bit_and-low_mask 32 z)

inc_mask_high : (y : ℕ) → y < 2 ^ 64 → inc_mask y ≡ inc_rc y / 2 ^ 32 * 2 ^ 32
unfolding inc_mask inc_rc
inc_mask_high y fits = bit_and-high_mask 32 32 64 (inc_rc y) refl (
    bit_or-lt 64 (bit_and y ic_mask) (bit_and (u64 (y + ic_incr)) (bit_not 64 ic_mask))
      (omega (arith, bit_and_le 64 y ic_mask fits))
      (omega (arith, bit_and_le 64 (u64 (y + ic_incr)) (bit_not 64 ic_mask) (omega arith))))

-- The receivers that a mark waits for.
marked_low :
    (epoch rc cc : ℕ)
    → epoch < 2 ^ 64
    → rc < 2 ^ 64
    → cc < 2 ^ 32
    → rem_cc (marked_rc epoch rc cc) ≡ cc
marked_low epoch rc cc he hr hc =
    let y : ℕ = bit_or epoch (bit_and rc ep_mask) in
    let fits : y < 2 ^ 64 =
      bit_or-lt 64 epoch (bit_and rc ep_mask) he (omega (arith, bit_and_le 64 rc ep_mask hr)) in
    let fields : marked_rc epoch rc cc ≡ inc_rc y / 2 ^ 32 * 2 ^ 32 + cc =
      ap (λ q. bit_or q cc) (inc_mask_high y fits) ∙ bit_or_fields 32 (inc_rc y / 2 ^ 32) cc hc in
    omega (arith, low_of (marked_rc epoch rc cc))

-- The receivers that have joined since.
newer_apart : (next cc : ℕ) → next < 2 ^ 32 → cc < 2 ^ 32 → bit_and (disconnect next cc) cc ≡ 0
unfolding disconnect
newer_apart next cc hn hc =
    let left : ℕ = bit_and next (bit_not 32 cc) in
    let small : left < 2 ^ 32 = omega (arith, bit_and_le 32 next (bit_not 32 cc) hn) in
    bit_ext 32 (bit_and left cc) 0 (omega (arith, bit_and_le 32 left cc small)) (omega arith)
      λ k below. omega (
        arith,
        bit-bit_and k left cc,
        bit-bit_and k next (bit_not 32 cc),
        bit-bit_not 32 k cc hc below,
        bit-zero k,
        bit-lt-two cc k,
      )

newer_left : (cc id next : ℕ) → cc < 2 ^ 32 → IsTaken cc id next → disconnect next cc ≢ 0
unfolding disconnect
newer_left cc id next hc t = ne_zero_of_bit t.slot (bit_and next (bit_not 32 cc)) (
    omega (
      arith,
      bit-bit_and t.slot next (bit_not 32 cc),
      bit-bit_not 32 t.slot cc hc t.in_range,
      t.free,
      ap (λ n. bit n t.slot) t.next_eq,
      bit-add_pow t.slot t.slot cc t.free,
      bit-pow_self t.slot,
    ))

module _ {ℓ} {A : Type ℓ} where
  abbrev pub start : Channel A → System A
  start m = record { chan = m; producers = Producer.idle ∷ Producer.idle ∷ [] }

  -- With many producers and broadcast, where the element at the commit index is free and a
  -- receiver joins and all the others leave while a `push` is under way, there is an interleaving
  -- after which two calls of `push` have the same element, before either has written it or moved
  -- the commit index.
  pub two_claims :
      (m : Channel A) (x y : A) (id next : ℕ)
      → m.cc ≢ 0
      → m.cc < 2 ^ 32
      → m.epoch < 2 ^ 64
      → (elem m m.ct).rc < 2 ^ 64
      → rem_cc (elem m m.ct).rc ≡ 0
      → (elem m m.ct).flag ≡ m.ct
      → IsTaken m.cc id next
      → (s : System A) × Reach (start m) s
        × (get_elem? s.producers 0 ≡ some (counting x m.ct))
        × (get_elem? s.producers 1 ≡ some (counting y m.ct))
  two_claims m x y id next some_reader cc_fits epoch_fits rc_fits free flag taken =
      let rc' : ℕ = marked_rc m.epoch (elem m m.ct).rc m.cc in
      let e : Elem A = record (elem m m.ct) { rc = rc' } in
      let at_mark : (store m.block (index_of m.ct) e (index_of m.ct)).rc ≡ rc' =
        ap (λ (a : Elem A). a.rc) (store_self m.block e refl) in
      let low : rem_cc (store m.block (index_of m.ct) e (index_of m.ct)).rc ≡ m.cc =
        ap rem_cc at_mark ∙ marked_low m.epoch (elem m m.ct).rc m.cc epoch_fits rc_fits cc_fits in
      let next_fits : next < 2 ^ 32 =
        omega
          (arith, taken.next_eq, add_pow-lt 32 taken.slot m.cc cc_fits taken.in_range taken.free) in
      let gone =
        ap (bit_and (disconnect next m.cc)) low ∙ newer_apart next m.cc next_fits cc_fits in
      let first =
        after
          (after
            (after
              (after
                (after (after here (produce 0 refl (Push.call x)))
                  (produce 0 refl (Push.load_cc some_reader)))
                (produce 0 refl Push.load_ct))
              (produce 0 refl Push.load_rc))
            (produce 0 refl (Push.finished free)))
          (produce 0 refl (Push.room (λ ne. absurd (ne flag)))) in
      let changed = after (after first (join taken)) (leave m.cc) in
      let second =
        after
          (after (after changed (produce 1 refl (Push.call y)))
            (produce 1 refl (Push.load_cc (newer_left m.cc id next cc_fits taken))))
          (produce 1 refl Push.load_ct) in
      let marked =
        after (after second (produce 0 refl (Push.mark refl)))
          (produce 0 refl (Push.confirm refl)) in
      let over =
        after (after marked (produce 1 refl Push.load_rc))
          (produce 1 refl (Push.overtaken (λ z. some_reader (sym low ∙ z)) (λ ne _. ne gone))) in
      (
        _,
        after (after over (produce 1 refl (Push.mark refl))) (produce 1 refl (Push.confirm refl)),
        refl,
        refl,
      )
