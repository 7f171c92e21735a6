-- ===== src/ProdCons/Multi/Settle.antt =====
-- src/libipc/prod_cons.h: a producer's last loop takes over the elements of producers that were faster.
use cpp_ipc.Prelude.{
  ℕ, zero, suc, ◌+◌, ◌^◌, ◌%◌, ◌<◌, ◌≡◌, refl, arith, true, false, ◌==◌, ap, ◌∙◌, Bool-cases, inl,
  inr, ==_iff,
}
use cpp_ipc.Prelude.Bits.{bit_not}
use cpp_ipc.Circ.{u32, index_of}
use cpp_ipc.ProdCons.{store, store_ne}
use cpp_ipc.ProdCons.Multi.{Elem, Ring, is_committed, advance, settle}

module _ {ℓ} {A : Type ℓ} where
  -- The `n` elements from index `i` on are committed, and the one behind them is not.
  abbrev pub Committed : ℕ → ℕ → Ring A → Type 0
  Committed zero i r = is_committed i r ≡ false
  Committed (suc n) i r = (is_committed i r ≡ true) × Committed n (u32 (i + 1)) r

  is_committed-advance :
      (i : ℕ) (r : Ring A) (d : ℕ)
      → i ≡ (r.wt + 1 + d) % 2 ^ 32
      → d < 255
      → is_committed i (advance r) ≡ is_committed i r
  is_committed-advance i r d e l =
      let taken : Elem A = record (r.block (index_of r.wt)) { flag = 0 } in
      let other : store r.block (index_of r.wt) taken (index_of i) ≡ r.block (index_of i) =
        store_ne r.block taken (omega arith) in
      ap (λ (el : Elem A). bit_not 64 el.flag == i) other

  Committed-advance :
      (n i : ℕ) (r : Ring A)
      → (d : ℕ) → i ≡ (r.wt + 1 + d) % 2 ^ 32
      → d + n < 255
      → Committed n i r
      → Committed n i (advance r)
  Committed-advance zero i r d e l c = is_committed-advance i r d e (omega arith) ∙ c
  Committed-advance (suc n) i r d e l (c, more) = (
    is_committed-advance i r d e (omega arith) ∙ c,
    Committed-advance n (u32 (i + 1)) r (d + 1) (omega arith) (omega arith) more,
  )

  item-advance : (r : Ring A) (i : ℕ) → ((advance r).block i).item ≡ (r.block i).item
  item-advance r i = elim (Bool-cases (index_of r.wt == i)) [
    | inl e ↦ rw e (ap (λ j. (r.block j).item) ((==_iff (index_of r.wt) i).0 e))
    | inr e ↦ rw e
  ]

  -- With n committed elements from the write index on, fewer than the ring holds, the last loop of
  -- `push` moves the write index over all of them and no further, and leaves items, read index and
  -- commit index as they are.
  pub settle-Committed :
      (n fuel : ℕ) (r : Ring A)
      → r.wt < 2 ^ 32
      → n < 255
      → n < fuel
      → Committed n r.wt r
      → let s = settle fuel r.wt r in
        (s.wt ≡ (r.wt + n) % 2 ^ 32)
        × (s.ct ≡ r.ct)
        × (s.rd ≡ r.rd)
        × ((i : ℕ) → (s.block i).item ≡ (r.block i).item)
  unfolding settle
  settle-Committed n zero r w h l c = absurd (omega arith)
  settle-Committed zero (suc fuel) r w h l c =
      let same : (r.wt == r.wt) ≡ true = ground arith in
      rw (same, c) (omega arith, refl, refl, λ i. refl)
  settle-Committed (suc n) (suc fuel) r w h l (c, more) =
      let same : (r.wt == r.wt) ≡ true = ground arith in
      let (moved, ct, rd, items) =
        settle-Committed n fuel (advance r) (omega arith) (omega arith) (omega arith)
          (Committed-advance n (u32 (r.wt + 1)) r 0 (omega arith) (omega arith) more) in
      rw (same, c) (omega (arith, moved), ct, rd, λ i. items i ∙ item-advance r i)
