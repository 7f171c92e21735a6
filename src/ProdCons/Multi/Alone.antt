-- ===== src/ProdCons/Multi/Alone.antt =====
-- src/libipc/prod_cons.h: with calls one at a time the ring of many producers works as that of one.
use cpp_ipc.Prelude.{
  ℕ, suc, ◌+◌, ◌-◌, ◌^◌, ◌<◌, ◌≡◌, refl, arith, true, false, ◌==◌, ap, sym, some, none, Bool-cases,
  inl, inr,
}
use cpp_ipc.Circ.{u32, index_of}
use cpp_ipc.ProdCons.{store}
use cpp_ipc.ProdCons.Single
use cpp_ipc.ProdCons.Multi.{Ring, claim, fill, is_committed, advance, settle, push, pop_from, pop}
use mathlib.Core.Path.{subst}

module _ {ℓ} {A : Type ℓ} where
  -- No claim is open and no flag is set.
  pub record Quiet (r : Ring A) : Type ℓ where
    pub fits : r.wt < 2 ^ 32
    pub settled : r.ct ≡ r.wt
    pub clear : (i : ℕ) → (r.block i).flag ≡ 0

  -- The ring of a single producer with the same elements.
  abbrev pub single : Ring A → Single.Ring A
  single r = record { rd = r.rd; wt = r.wt; block = λ i. (r.block i).item }

  -- The same indices and items.
  abbrev pub IsSame : Single.Ring A → Single.Ring A → Type ℓ
  IsSame r s = (r.rd ≡ s.rd) × (r.wt ≡ s.wt) × ((i : ℕ) → r.block i ≡ s.block i)

  -- The ring that `push` has claimed an element of and filled it, with no other claim.
  filled : A → Ring A → Ring A
  filled x r = fill x r.wt (record r { ct = u32 (r.wt + 1) })

  -- In `advance (filled x r)` no flag is set, and the items are those of `r` but for the new one.
  flag-filled : (x : A) (r : Ring A) → Quiet r → (i : ℕ) → ((advance (filled x r)).block i).flag ≡ 0
  unfolding filled
  flag-filled x r q i = elim (Bool-cases (index_of r.wt == i)) [
    | inl e ↦ rw e
    | inr e ↦ rw e (q.clear i)
  ]

  item-filled :
      (x : A) (r : Ring A) (i : ℕ)
      → ((advance (filled x r)).block i).item ≡ store (single r).block (index_of r.wt) x i
  unfolding filled
  item-filled x r i =
      let same : (index_of r.wt == index_of r.wt) ≡ true = ground arith in
      elim (Bool-cases (index_of r.wt == i)) [ inl e ↦ rw (e, same) | inr e ↦ rw e ]

  is_committed-filled : (x : A) (r : Ring A) → r.wt < 2 ^ 32 → is_committed r.wt (filled x r) ≡ true
  unfolding filled
  is_committed-filled x r h =
      let same : (index_of r.wt == index_of r.wt) ≡ true = ground arith in rw same (ground arith)

  settle_one :
      (fuel : ℕ) (r : Ring A)
      → is_committed r.wt r ≡ true
      → is_committed (u32 (r.wt + 1)) (advance r) ≡ false
      → settle (suc (suc fuel)) r.wt r ≡ advance r
  unfolding settle
  settle_one fuel r now next =
      let same : (r.wt == r.wt) ≡ true = ground arith in
      let same' : (u32 (r.wt + 1) == u32 (r.wt + 1)) ≡ true = ground arith in
      rw (same, now, same', next)

  settle-filled :
      (x : A) (r : Ring A) → Quiet r → settle 257 r.wt (filled x r) ≡ advance (filled x r)
  unfolding filled
  settle-filled x r q =
      let next : is_committed (u32 (r.wt + 1)) (advance (filled x r)) ≡ false =
        ground (arith, flag-filled x r q (index_of (u32 (r.wt + 1)))) in
      settle_one 255 (filled x r) (is_committed-filled x r q.fits) next

  claim_of_room :
      (r : Ring A)
      → (index_of (u32 (r.wt + 1)) == index_of r.rd) ≡ false
      → claim (record r { ct = r.wt }) ≡ (some r.wt, record r { ct = u32 (r.wt + 1) })
  unfolding claim
  claim_of_room r e = rw e

  claim_of_full :
      (r : Ring A)
      → (index_of (u32 (r.wt + 1)) == index_of r.rd) ≡ true
      → claim (record r { ct = r.wt }) ≡ (none, record r { ct = r.wt })
  unfolding claim
  claim_of_full r e = rw e

  push_of_room :
      (x : A) (r : Ring A)
      → Quiet r
      → (index_of (u32 (r.wt + 1)) == index_of r.rd) ≡ false
      → push x (record r { ct = r.wt }) ≡ (true, advance (filled x r))
  unfolding push filled
  push_of_room x r q e =
      let got : claim (record r { ct = r.wt }) ≡ (some r.wt, record r { ct = u32 (r.wt + 1) }) =
        claim_of_room r e in
      rw (push, got, got, settle-filled x r q)

  push_of_full :
      (x : A) (r : Ring A)
      → (index_of (u32 (r.wt + 1)) == index_of r.rd) ≡ true
      → push x (record r { ct = r.wt }) ≡ (false, record r { ct = r.wt })
  unfolding push
  push_of_full x r e =
      let got : claim (record r { ct = r.wt }) ≡ (none, record r { ct = r.wt }) =
        claim_of_full r e in
      rw (push, got, got)

  -- With no other call under way, `push` of the ring of many producers does what that of a single
  -- producer does, and leaves no claim open and no flag set.
  pub push-single :
      (x : A) (r : Ring A)
      → Quiet r
      → ((push x r).0 ≡ (Single.push x (single r)).0)
        × IsSame (single (push x r).1) (Single.push x (single r)).1
        × Quiet (push x r).1
  unfolding Single.push filled
  push-single x r q =
      let same : record r { ct = r.wt } ≡ r = ap (λ c. record r { ct = c }) (sym q.settled) in
      elim (Bool-cases (index_of (u32 (r.wt + 1)) == index_of r.rd)) [
        | inl e ↦
            let full : (index_of r.wt == index_of (u32 (r.rd + 2 ^ 32 - 1))) ≡ true =
              ground arith in
            let done : push x r ≡ (false, r) =
              subst (λ s. push x s ≡ (false, s)) same (push_of_full x r e) in
            rw (done, full) (refl, (refl, refl, λ i. refl), q)
        | inr e ↦
            let room : (index_of r.wt == index_of (u32 (r.rd + 2 ^ 32 - 1))) ≡ false =
              ground arith in
            let done : push x r ≡ (true, advance (filled x r)) =
              subst (λ s. push x s ≡ (true, advance (filled x r))) same (push_of_room x r q e) in
            rw (done, room)
              (
                refl,
                (refl, refl, item-filled x r),
                record { fits = omega arith; settled = refl; clear = flag-filled x r q },
              )
      ]

  -- With no other call under way, `pop` of the ring of many producers ends within its fuel and
  -- does what that of a single producer does.
  pub pop-single :
      (r : Ring A)
      → Quiet r
      → (r' : Ring A) × (pop r ≡ some ((Single.pop (single r)).0, r'))
        × Quiet r'
        × (single r' ≡ (Single.pop (single r)).1)
  unfolding pop pop_from Single.pop
  pop-single r q = elim (Bool-cases (index_of r.rd == index_of r.wt)) [
    | inl e ↦
        let open_flag : is_committed r.wt r ≡ false =
          ground (arith, q.fits, q.clear (index_of r.wt)) in
        (r, rw (e, open_flag), q, rw e)
    | inr e ↦ (
      record r { rd = u32 (r.rd + 1) },
      rw e,
      record { fits = q.fits; settled = q.settled; clear = q.clear },
      rw e,
    )
  ]
