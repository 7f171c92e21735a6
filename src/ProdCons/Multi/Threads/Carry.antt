-- ===== src/ProdCons/Multi/Threads/Carry.antt =====
-- src/libipc/prod_cons.h: what a thread of the ring of many producers knows, and how it survives what
-- other threads do.
use mathlib.Core.Path.{subst}
use mathlib.Core.Option.{some-injective, none-ne-some}
use cpp_ipc.Prelude.{
  ℕ, ◌+◌, ◌^◌, ◌≤◌, ◌<◌, ◌≡◌, refl, Option, none, some, arith, length, get_elem?, ap, ◌∙◌, sym,
}
use cpp_ipc.Prelude.Bits.{bit_not}
use cpp_ipc.ProdCons.Multi.Threads.{
  Memory, Thread, claiming, counted, room, filling, filled, settling, flagged, placed, committing,
  advancing, popping, loaded, probing, probed, moving, copying, copied, elem,
}

module _ {ℓ} {A : Type ℓ} where
  -- The commit flag of an index is set.
  abbrev pub Flagged : Memory A → ℕ → Type 0
  Flagged m c = bit_not 64 (elem m c).flag ≡ c

  pub record IsMemory (m : Memory A) : Type ℓ where
    pub ct_eq : m.ct ≡ length m.sent
    pub rd_eq : m.rd ≡ length m.received
    pub behind : m.rd ≤ m.wt
    pub claimed : m.wt ≤ m.ct
    pub bounded : m.ct ≤ m.rd + 255
    pub stored : (c : ℕ) → m.rd ≤ c → c < m.wt → get_elem? m.sent c ≡ some (elem m c).item
    pub agree : (c : ℕ) → c < m.rd → get_elem? m.received c ≡ get_elem? m.sent c
    -- A flag is that of an index between `wt_` and `ct_`, whose element is in place.
    pub flags :
        (c : ℕ)
        → c < 2 ^ 32
        → Flagged m c
        → (m.wt ≤ c) × (c < m.ct) × (get_elem? m.sent c ≡ some (elem m c).item)

  -- The index that a thread has claimed and not yet given up by its flag, or whose flag it has taken.
  abbrev pub holds : Thread A → Option ℕ
  holds Thread.idle = none
  holds (claiming x) = none
  holds (counted x c) = none
  holds (room x c) = none
  holds (filling x c) = some c
  holds (filled c) = some c
  holds (settling c) = none
  holds (flagged c f) = none
  holds (placed c f) = none
  holds (committing c f) = none
  holds (advancing c) = some c
  holds popping = none
  holds (loaded r) = none
  holds (probing w) = none
  holds (probed w f) = none
  holds (moving w) = some w
  holds (copying r) = none
  holds (copied r x) = none

  abbrev pub Apart : Thread A → Thread A → Type 0
  Apart t d = (c : ℕ) → holds t ≡ some c → holds d ≡ some c → ⊥

  -- The element at an index that is held, whose flag is not set.
  abbrev pub Held : Memory A → ℕ → Type 0
  Held m c = (m.wt ≤ c) × (c < m.ct) × (Flagged m c → ⊥)

  abbrev pub Placed : Memory A → ℕ → Type ℓ
  Placed m c = (get_elem? m.sent c ≡ some (elem m c).item)

  abbrev pub Doing : Memory A → Thread A → Type ℓ
  Doing m Thread.idle = Unit
  Doing m (claiming x) = Unit
  Doing m (counted x c) = (c ≤ m.ct) × Unit {ℓ}
  Doing m (room x c) = (c ≤ m.ct) × (c ≡ m.ct → c ≤ m.rd + 254) × Unit {ℓ}
  Doing m (filling x c) = Held m c × (get_elem? m.sent c ≡ some x)
  Doing m (filled c) = Held m c × Placed m c
  Doing m (settling c) = Unit
  Doing m (flagged c f) = Unit
  Doing m (placed c f) = (c ≤ m.wt) × Unit {ℓ}
  Doing m (committing c f) = (c ≤ m.wt) × (bit_not 64 f ≡ c) × Unit {ℓ}
  Doing m (advancing c) = (c ≡ m.wt) × Held m c × Placed m c
  Doing m popping = Unit
  Doing m (loaded r) = (r ≤ m.rd) × Unit {ℓ}
  Doing m (probing w) = (w ≤ m.wt) × Unit {ℓ}
  Doing m (probed w f) = (w ≤ m.wt) × (bit_not 64 f ≡ w) × Unit {ℓ}
  Doing m (moving w) = (w ≡ m.wt) × Held m w × Placed m w
  Doing m (copying r) = (r ≤ m.rd) × (r ≡ m.rd → r < m.wt) × Unit {ℓ}
  Doing m (copied r x) =
      (r ≤ m.rd) × (r ≡ m.rd → r < m.wt) × (r ≡ m.rd → get_elem? m.sent r ≡ some x)

  -- What an access by a thread that holds `own` does to the indices and to the elements of others.
  pub record Grows (m m' : Memory A) (own : Option ℕ) : Type ℓ where
    pub rd_le : m.rd ≤ m'.rd
    pub wt_le : m.wt ≤ m'.wt
    pub ct_le : m.ct ≤ m'.ct
    pub still : (c : ℕ) (x : A) → get_elem? m.sent c ≡ some x → get_elem? m'.sent c ≡ some x
    pub kept :
        (c : ℕ) → (own ≡ some c → ⊥) → Held m c → Held m' c × ((elem m' c).item ≡ (elem m c).item)

  module _ {m m' : Memory A} {own : Option ℕ} (g : Grows m m' own) where
    carry-Placed : (c : ℕ) → (own ≡ some c → ⊥) → Held m c → Placed m c → Held m' c × Placed m' c
    carry-Placed c other held at =
        let (held', same) = g.kept c other held in
        (held', g.still c (elem m c).item at ∙ ap some (sym same))

    carry_advancing :
        (c : ℕ)
        → (own ≡ some c → ⊥)
        → c ≡ m.wt
        → Held m c
        → Placed m c
        → (c ≡ m'.wt) × Held m' c × Placed m' c
    carry_advancing c other here held at =
        let (held', at') = carry-Placed c other held at in
        (omega (arith, held'.0, g.wt_le), held', at')

    -- What a thread that holds another index knows stays true.
    pub carry :
        (d : Thread A) → ((c : ℕ) → own ≡ some c → holds d ≡ some c → ⊥) → Doing m d → Doing m' d
    carry Thread.idle a h = h
    carry (claiming x) a h = h
    carry (counted x c) a h = (omega (arith, g.ct_le, h.0), tt)
    carry (room x c) a h =
        (omega (arith, g.ct_le, h.0), (λ e. omega (arith, h.0, h.1, g.ct_le, g.rd_le)), tt)
    carry (filling x c) a h =
        let (held, same) = g.kept c (λ e. a c e refl) h.0 in (held, g.still c x h.1)
    carry (filled c) a h = carry-Placed c (λ e. a c e refl) h.0 h.1
    carry (settling c) a h = h
    carry (flagged c f) a h = h
    carry (placed c f) a h = (omega (arith, g.wt_le, h.0), tt)
    carry (committing c f) a h = (omega (arith, g.wt_le, h.0), h.1, tt)
    carry (advancing c) a h = carry_advancing c (λ e. a c e refl) h.0 h.1 h.2
    carry popping a h = h
    carry (loaded r) a h = (omega (arith, g.rd_le, h.0), tt)
    carry (probing w) a h = (omega (arith, g.wt_le, h.0), tt)
    carry (probed w f) a h = (omega (arith, g.wt_le, h.0), h.1, tt)
    carry (moving w) a h = carry_advancing w (λ e. a w e refl) h.0 h.1 h.2
    carry (copying r) a h =
        (omega (arith, g.rd_le, h.0), (λ e. omega (arith, h.0, h.1, g.rd_le, g.wt_le)), tt)
    carry (copied r x) a h = (
      omega (arith, g.rd_le, h.0),
      (λ e. omega (arith, h.0, h.1, g.rd_le, g.wt_le)),
      λ e. g.still r x (h.2 (omega (arith, h.0, g.rd_le))),
    )

  pub holds-Held : (m : Memory A) (d : Thread A) → Doing m d → (c : ℕ) → holds d ≡ some c → Held m c
  holds-Held m Thread.idle h c e = absurd (none-ne-some c e)
  holds-Held m (claiming x) h c e = absurd (none-ne-some c e)
  holds-Held m (counted x k) h c e = absurd (none-ne-some c e)
  holds-Held m (room x k) h c e = absurd (none-ne-some c e)
  holds-Held m (filling x k) h c e = subst (Held m) (some-injective k c e) h.0
  holds-Held m (filled k) h c e = subst (Held m) (some-injective k c e) h.0
  holds-Held m (settling k) h c e = absurd (none-ne-some c e)
  holds-Held m (flagged k f) h c e = absurd (none-ne-some c e)
  holds-Held m (placed k f) h c e = absurd (none-ne-some c e)
  holds-Held m (committing k f) h c e = absurd (none-ne-some c e)
  holds-Held m (advancing k) h c e = subst (Held m) (some-injective k c e) h.1
  holds-Held m popping h c e = absurd (none-ne-some c e)
  holds-Held m (loaded r) h c e = absurd (none-ne-some c e)
  holds-Held m (probing w) h c e = absurd (none-ne-some c e)
  holds-Held m (probed w f) h c e = absurd (none-ne-some c e)
  holds-Held m (moving k) h c e = subst (Held m) (some-injective k c e) h.1
  holds-Held m (copying r) h c e = absurd (none-ne-some c e)
  holds-Held m (copied r x) h c e = absurd (none-ne-some c e)
