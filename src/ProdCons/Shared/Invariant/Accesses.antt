-- ===== src/ProdCons/Shared/Invariant/Accesses.antt =====
-- src/libipc/prod_cons.h: what the producer and the taking of an element keep.
use cpp_ipc.Prelude.{
  ℕ, ◌+◌, ◌-◌, ◌^◌, ◌≤◌, ◌<◌, ◌≡◌, ◌≢◌, refl, some, [], ◌∷◌, ◌++◌, arith, length, get_elem?,
  length-append, get_elem?-append_left, get_elem?-append_last, ap, ◌∙◌, sym, dec_lt,
}
use cpp_ipc.Circ.{u32, index_of}
use cpp_ipc.ProdCons.{store, store_self, store_ne}
use cpp_ipc.ProdCons.Shared.{
  Memory, Producer, checking, writing, written, Consumer, loaded, copying, copied, Push, call, full,
  room, write, publish, System,
}

module _ {ℓ} {A : Type ℓ} where
  -- What the producer's locals say of the memory.
  abbrev pub Producing : Memory A → Producer A → Type ℓ
  Producing m Producer.idle = Unit
  Producing m (checking x w) = (w ≡ m.wt) × Unit {ℓ}
  Producing m (writing x w) = (w ≡ m.wt) × (m.wt ≤ m.rd + 254) × Unit {ℓ}
  Producing m (written x w) = (w ≡ m.wt) × (m.wt ≤ m.rd + 254) × (m.block (index_of m.wt) ≡ x)

  -- What a consumer's locals say: an index that is still current has an element to take.
  abbrev pub Consuming : Memory A → Consumer A → Type ℓ
  Consuming m Consumer.idle = Unit
  Consuming m (loaded r) = (r ≤ m.rd) × Unit {ℓ}
  Consuming m (copying r) = (r ≤ m.rd) × (r ≡ m.rd → r < m.wt) × Unit {ℓ}
  Consuming m (copied r x) =
      (r ≤ m.rd) × (r ≡ m.rd → r < m.wt) × (r ≡ m.rd → get_elem? m.sent r ≡ some x)

  pub record IsMemory (m : Memory A) : Type ℓ where
    pub wt_eq : m.wt ≡ length m.sent
    pub rd_eq : m.rd ≡ length m.received
    pub behind : m.rd ≤ m.wt
    pub bounded : m.wt ≤ m.rd + 255
    pub stored : (i : ℕ) → m.rd ≤ i → i < m.wt → get_elem? m.sent i ≡ some (m.block (index_of i))
    pub agree : (i : ℕ) → i < m.rd → get_elem? m.received i ≡ get_elem? m.sent i

  pub record Inv (s : System A) : Type ℓ where
    pub memory : IsMemory s.mem
    pub producing : Producing s.mem s.producer
    pub consuming : (i : ℕ) → Consuming s.mem (s.consumer i)

  -- An array that is not full has at most 254 elements.
  room_left :
      {m : Memory A} {w : ℕ}
      → IsMemory m
      → w ≡ m.wt
      → index_of w ≢ index_of (u32 (m.rd + 2 ^ 32 - 1))
      → length m.sent < 2 ^ 32
      → m.wt ≤ m.rd + 254
  room_left i e ne l = omega (arith, i.wt_eq, i.behind, i.bounded)

  module _ {m : Memory A} (i : IsMemory m) (x : A) {w : ℕ} (e : w ≡ m.wt)
      (few : m.wt ≤ m.rd + 254) where
    -- The position that is written holds no pending element.
    write-IsMemory : IsMemory (record m { block = store m.block (index_of w) x })
    write-IsMemory = record {
      wt_eq = i.wt_eq;
      rd_eq = i.rd_eq;
      behind = i.behind;
      bounded = i.bounded;
      stored = λ k lo hi.
          rw (store_ne m.block x {i = index_of w} {j = index_of k} (omega arith))
            (i.stored k lo hi);
      agree = i.agree;
    }

    publish-IsMemory :
        m.block (index_of m.wt) ≡ x
        → length (m.sent ++ (x ∷ [])) < 2 ^ 32
        → IsMemory (record m { wt = u32 (m.wt + 1); sent = m.sent ++ (x ∷ []) })
    publish-IsMemory held l =
        let grown : length (m.sent ++ (x ∷ [])) ≡ m.wt + 1 =
          omega (arith, length-append m.sent (x ∷ []), i.wt_eq) in
        let fits : u32 (m.wt + 1) ≡ m.wt + 1 = omega arith in
        rw fits (record {
          wt_eq = omega arith;
          rd_eq = i.rd_eq;
          behind = omega (arith, i.behind);
          bounded = omega arith;
          stored = λ k lo hi. published_at held k lo hi;
          agree = λ k lt.
              i.agree k lt
              ∙ sym (get_elem?-append_left m.sent (x ∷ []) k (omega (arith, i.wt_eq, i.behind)));
        })
      where
        published_at :
            m.block (index_of m.wt) ≡ x
            → (k : ℕ) → m.rd ≤ k
            → k < m.wt + 1
            → get_elem? (m.sent ++ (x ∷ [])) k ≡ some (m.block (index_of k))
        published_at held k lo hi = elim (dec_lt k m.wt) [
          | yes old ↦
              get_elem?-append_left m.sent (x ∷ []) k (omega (arith, i.wt_eq)) ∙ i.stored k lo old
          | no last ↦
              let at_end : k ≡ m.wt = omega arith in
              rw (at_end, held) (get_elem?-append_last m.sent x m.wt i.wt_eq)
        ]

  pub Push-IsMemory :
      {m m' : Memory A} {p p' : Producer A}
      → Push m p m' p'
      → IsMemory m
      → Producing m p
      → length m'.sent < 2 ^ 32
      → IsMemory m' × Producing m' p'
  Push-IsMemory (call x) i h l = (i, (refl, tt))
  Push-IsMemory (full e) i h l = (i, tt)
  Push-IsMemory (room ne) i h l = (i, (h.0, room_left i h.0 ne l, tt))
  Push-IsMemory {m} (write {x}) i h l =
      (write-IsMemory i x h.0 h.1, (h.0, h.1, store_self m.block x (ap index_of h.0)))
  Push-IsMemory (publish) i h l = (publish-IsMemory i _ h.0 h.1 h.2 l, tt)

  pub Push-Consuming :
      {m m' : Memory A} {p p' : Producer A}
      → Push m p m' p'
      → IsMemory m
      → length m'.sent < 2 ^ 32
      → (c : Consumer A) → Consuming m c
      → Consuming m' c
  Push-Consuming (call x) i l c h = h
  Push-Consuming (full e) i l c h = h
  Push-Consuming (room ne) i l c h = h
  Push-Consuming (write) i l Consumer.idle h = h
  Push-Consuming (write) i l (loaded r) h = h
  Push-Consuming (write) i l (copying r) h = h
  Push-Consuming (write) i l (copied r x) h = h
  Push-Consuming (publish) i l Consumer.idle h = h
  Push-Consuming (publish) i l (loaded r) h = h
  Push-Consuming {m} (publish {x}) i l (copying r) h =
      (h.0, (λ e. omega (arith, h.1 e, i.wt_eq, length-append m.sent (x ∷ []))), tt)
  Push-Consuming {m} (publish {x}) i l (copied r y) h = (
    h.0,
    (λ e. omega (arith, h.1 e, i.wt_eq, length-append m.sent (x ∷ []))),
    λ e. get_elem?-append_left m.sent (x ∷ []) r (omega (arith, h.1 e, i.wt_eq)) ∙ h.2 e,
  )

  -- A consumer takes the oldest pending element.
  module _ {m : Memory A} (i : IsMemory m) (l : length m.sent < 2 ^ 32) (x : A)
      (some_left : m.rd < m.wt) (oldest : get_elem? m.sent m.rd ≡ some x) where
    abbrev pub taken : Memory A
    taken = record m { rd = u32 (m.rd + 1); received = m.received ++ (x ∷ []) }

    fits : u32 (m.rd + 1) ≡ m.rd + 1
    fits = omega (arith, i.wt_eq)

    pub take-IsMemory : IsMemory taken
    take-IsMemory = rw fits (record {
      wt_eq = i.wt_eq;
      rd_eq = omega (arith, length-append m.received (x ∷ []), i.rd_eq);
      behind = omega arith;
      bounded = omega (arith, i.bounded);
      stored = λ k lo hi. i.stored k (omega arith) hi;
      agree = λ k lt. agree_at k lt;
    })
      where
        agree_at :
            (k : ℕ) → k < m.rd + 1 → get_elem? (m.received ++ (x ∷ [])) k ≡ get_elem? m.sent k
        agree_at k lt = elim (dec_lt k m.rd) [
          | yes old ↦
              get_elem?-append_left m.received (x ∷ []) k (omega (arith, i.rd_eq)) ∙ i.agree k old
          | no last ↦
              let at_end : k ≡ m.rd = omega arith in
              rw at_end (get_elem?-append_last m.received x m.rd i.rd_eq ∙ sym oldest)
        ]

    pub take-Consuming : (c : Consumer A) → Consuming m c → Consuming taken c
    take-Consuming Consumer.idle h = h
    take-Consuming (loaded r) h = (omega (arith, fits, h.0), tt)
    take-Consuming (copying r) h =
        (omega (arith, fits, h.0), (λ e. absurd (omega (arith, fits, h.0))), tt)
    take-Consuming (copied r y) h = (
      omega (arith, fits, h.0),
      (λ e. absurd (omega (arith, fits, h.0))),
      (λ e. absurd (omega (arith, fits, h.0))),
    )

    pub take-Producing : (p : Producer A) → Producing m p → Producing taken p
    take-Producing Producer.idle h = h
    take-Producing (checking y w) h = h
    take-Producing (writing y w) h = (h.0, omega (arith, fits, h.1), tt)
    take-Producing (written y w) h = (h.0, omega (arith, fits, h.1), h.2)
