-- ===== src/ProdCons/Single/Queue.antt =====
-- A ring used by one thread at a time is a queue of at most 255 elements.
use cpp_ipc.Prelude.{
  ℕ, zero, suc, ◌+◌, ◌-◌, ◌%◌, ◌^◌, ◌≤◌, ◌<◌, ◌≡◌, refl, ap, ap₂, Bool, true, false, Option, none,
  some, List, [], ◌∷◌, ◌++◌, arith, length, ltb, if◌then◌else◌, dec_lt,
}
use cpp_ipc.Circ.{u32, index_of}
use cpp_ipc.ProdCons.{Block, store, store_self, store_ne}
use cpp_ipc.ProdCons.Single.{Ring, push, pop}

abbrev pub capacity : ℕ
capacity = 255

module _ {ℓ} {A : Type ℓ} where
  -- The `n` elements from index `i` on.
  abbrev pub window : Block A → ℕ → ℕ → List A
  window block i zero = []
  window block i (suc n) = block (index_of i) ∷ window block (u32 (i + 1)) n

  -- How many elements are written and not yet read.
  abbrev pub pending : Ring A → ℕ
  pending r = (r.wt + 2 ^ 32 - r.rd) % 2 ^ 32

  abbrev pub contents : Ring A → List A
  contents r = window r.block r.rd (pending r)

  pub record IsRing (r : Ring A) : Type 0 where
    pub rd_fits : r.rd < 2 ^ 32
    pub wt_fits : r.wt < 2 ^ 32
    pub bounded : pending r ≤ 255

  -- The queue that a ring implements.
  pub enqueue : A → List A → Bool × List A
  enqueue x q = if ltb (length q) capacity then (true, q ++ (x ∷ [])) else (false, q)

  pub dequeue : List A → Option A × List A
  dequeue [] = (none, [])
  dequeue (x ∷ q) = (some x, q)

  length-window : (block : Block A) (i n : ℕ) → length (window block i n) ≡ n
  length-window block i zero = refl
  length-window block i (suc n) = ap suc (length-window block (u32 (i + 1)) n)

  length-contents : (r : Ring A) → length (contents r) ≡ pending r
  length-contents r = length-window r.block r.rd (pending r)

  -- Writing just behind a window appends to it.
  window-store :
      (block : Block A) (i n j : ℕ) (x : A)
      → i < 2 ^ 32
      → n ≤ 255
      → j ≡ index_of (i + n)
      → window (store block j x) i (suc n) ≡ window block i n ++ (x ∷ [])
  window-store block i zero j x h l e = ap (λ y. y ∷ []) (store_self block x (omega arith))
  window-store block i (suc n) j x h l e =
      ap₂ ◌∷◌ (store_ne block x (omega arith))
        (window-store block (u32 (i + 1)) n j x (omega arith) (omega arith) (omega arith))

  -- `window` matches on `suc`, the code compares indices.
  window_of_pos :
      (block : Block A) (i n : ℕ)
      → 0 < n
      → window block i n ≡ block (index_of i) ∷ window block (u32 (i + 1)) (n - 1)
  window_of_pos block i zero h = elim h [ ]
  window_of_pos block i (suc n) h = ap (λ k. window block i (suc k)) (omega arith)

  pushed : A → Ring A → Ring A
  pushed x r = record r { block = store r.block (index_of r.wt) x; wt = u32 (r.wt + 1) }

  popped : Ring A → Ring A
  popped r = record r { rd = u32 (r.rd + 1) }

  push_of_full : (x : A) {r : Ring A} → IsRing r → ¬ (pending r < 255) → push x r ≡ (false, r)
  unfolding push
  push_of_full x v h = ground arith

  push_of_room : (x : A) {r : Ring A} → IsRing r → pending r < 255 → push x r ≡ (true, pushed x r)
  unfolding push pushed
  push_of_room x v h = ground arith

  pop_of_empty : {r : Ring A} → IsRing r → ¬ (0 < pending r) → pop r ≡ (none, r)
  unfolding pop
  pop_of_empty v h = ground arith

  pop_of_some :
      {r : Ring A} → IsRing r → 0 < pending r → pop r ≡ (some (r.block (index_of r.rd)), popped r)
  unfolding pop popped
  pop_of_some v h = ground arith

  contents-pushed :
      (x : A) {r : Ring A}
      → IsRing r
      → pending r < 255
      → IsRing (pushed x r) × (contents (pushed x r) ≡ contents r ++ (x ∷ []))
  unfolding pushed
  contents-pushed x {r} v h =
      let more : (u32 (r.wt + 1) + 2 ^ 32 - r.rd) % 2 ^ 32 ≡ suc (pending r) = omega arith in
      (
        omega arith,
        rw more (
            window-store r.block r.rd (pending r) (index_of r.wt) x v.rd_fits v.bounded
              (omega arith)),
      )

  contents-popped :
      {r : Ring A}
      → IsRing r
      → 0 < pending r
      → IsRing (popped r) × (contents r ≡ r.block (index_of r.rd) ∷ contents (popped r))
  unfolding popped
  contents-popped {r} v h =
      let less : (r.wt + 2 ^ 32 - u32 (r.rd + 1)) % 2 ^ 32 ≡ pending r - 1 = omega arith in
      (omega arith, rw less (window_of_pos r.block r.rd (pending r) h))

  -- On a valid ring of one producer and one consumer `push` is `enqueue` on the queue of pending
  -- elements, of capacity 255, and the ring stays valid, also where an index wraps.
  pub push-enqueue :
      (x : A) {r : Ring A}
      → IsRing r
      → IsRing (push x r).1
        × (◌≡◌ {A = Bool × List A} ((push x r).0, contents (push x r).1) (enqueue x (contents r)))
  unfolding enqueue
  push-enqueue x {r} v = elim (dec_lt (pending r) 255) [
    | no full ↦
        let e : ltb (length (contents r)) 255 ≡ false = ground (arith, length-contents r) in
        rw (push_of_full x v full, e) (v, refl)
    | yes room ↦
        let e : ltb (length (contents r)) 255 ≡ true = ground (arith, length-contents r) in
        let (valid, appended) = contents-pushed x v room in
        rw (push_of_room x v room, e, appended) (valid, refl)
  ]

  -- On a valid ring of one producer and one consumer `pop` is `dequeue` on the queue of pending
  -- elements, and the ring stays valid.
  pub pop-dequeue :
      {r : Ring A}
      → IsRing r
      → IsRing (pop r).1
        × (◌≡◌ {A = Option A × List A} ((pop r).0, contents (pop r).1) (dequeue (contents r)))
  unfolding dequeue
  pop-dequeue {r} v = elim (dec_lt 0 (pending r)) [
    | no none_left ↦
        let none_pending : pending r ≡ 0 = omega arith in
        let e : contents r ≡ [] = ap (window r.block r.rd) none_pending in
        rw (pop_of_empty v none_left, e) (v, refl)
    | yes some_left ↦
        let (valid, split) = contents-popped v some_left in
        rw (pop_of_some v some_left, split) (valid, refl)
  ]
