-- ===== src/ProdCons/Multi/Threads/Steps.antt =====
-- src/libipc/prod_cons.h: what every access to the ring of many producers keeps.
use mathlib.Core.Path.{subst}
use mathlib.Core.Option.{some-injective, none-ne-some}
use cpp_ipc.Prelude.{
  ℕ, ◌+◌, ◌^◌, ◌≤◌, ◌<◌, ◌≡◌, refl, Option, none, some, [], ◌∷◌, ◌++◌, arith, length, get_elem?,
  length-append, get_elem?-append_last, ap, ◌∙◌, sym, ℕ_discrete,
}
use cpp_ipc.Prelude.Bits.{bit_not}
use cpp_ipc.Circ.{u32, index_of}
use cpp_ipc.ProdCons.{store}
use cpp_ipc.ProdCons.Multi.{Elem}
use cpp_ipc.ProdCons.Multi.Threads.{Memory, Thread, elem, set_flag, Access}
use cpp_ipc.ProdCons.Multi.Threads.Carry.{
  IsMemory, Flagged, Held, Placed, Grows, Doing, Apart, holds, holds-Held, carry,
}
use cpp_ipc.ProdCons.Multi.Threads.Accesses.{
  fits, claim-IsMemory, claim-Grows, position_ne, elem_self, written-IsMemory, written-Grows,
  moved-IsMemory, moved-Grows, taken-IsMemory, taken-Grows,
}

module _ {ℓ} {A : Type ℓ} where
  -- An access of a thread, with what it means for the others.
  pub record Kept (m m' : Memory A) (t t' : Thread A) : Type ℓ where
    pub memory : IsMemory m'
    pub own : Doing m' t'
    pub others : (d : Thread A) → Doing m d → Apart t d → Doing m' d × Apart t' d

  quiet :
      {m : Memory A} {t t' : Thread A} → IsMemory m → holds t' ≡ none → Doing m t' → Kept m m t t'
  quiet i free h = record {
    memory = i;
    own = h;
    others = λ d k a. (k, λ c e e'. none-ne-some c (sym free ∙ e));
  }

  -- A thread that has no index left.
  given_up :
      {m m' : Memory A} {t t' : Thread A} {own : Option ℕ}
      → holds t ≡ own
      → holds t' ≡ none
      → Grows m m' own
      → IsMemory m'
      → Doing m' t'
      → Kept m m' t t'
  given_up had free g i h = record {
    memory = i;
    own = h;
    others = λ d k a. (carry g d (λ c e. a c (had ∙ e)) k, λ c e e'. none-ne-some c (sym free ∙ e));
  }

  claimed :
      (m : Memory A) (x : A)
      → IsMemory m
      → m.ct ≤ m.rd + 254
      → length (m.sent ++ (x ∷ [])) < 2 ^ 32
      → Kept m
          (record m { ct = u32 (m.ct + 1); sent = m.sent ++ (x ∷ []) })
          (Thread.room x m.ct)
          (Thread.filling x m.ct)
  claimed m x i few l =
      let word : m.ct < 2 ^ 32 = omega (arith, length-append m.sent (x ∷ []), i.ct_eq) in
      record {
        memory = claim-IsMemory m i x few l;
        own = (
          (
            omega (arith, i.claimed),
            omega (arith, fits m i x few l),
            λ set. omega (arith, (i.flags m.ct word set).1),
          ),
          get_elem?-append_last m.sent x m.ct i.ct_eq,
        );
        others = λ d h a. (
          carry (claim-Grows m i x few l) d (λ c e. absurd (none-ne-some c e)) h,
          λ c e e'. omega (arith, (holds-Held m d h c e').1, some-injective m.ct c e),
        );
      }

  filled :
      (m : Memory A) (x : A) (c : ℕ)
      → IsMemory m
      → Held m c
      → get_elem? m.sent c ≡ some x
      → Kept m
          (record m {
            block = store m.block (index_of c) (record { item = x; flag = (elem m c).flag });
          })
          (Thread.filling x c)
          (Thread.filled c)
  filled m x c i held at =
      let e : Elem A = record { item = x; flag = (elem m c).flag } in
      let here = elem_self m i c held.0 held.1 e in
      record {
        memory = written-IsMemory m i c held.0 held.1 e (λ k word place set.
            let there : Flagged m k = ap (λ j. bit_not 64 (m.block j).flag) (sym place) ∙ set in
            absurd (unflagged k word place there));
        own = (
          (held.0, held.1, λ set. held.2 (ap (λ (a : Elem A). bit_not 64 a.flag) (sym here) ∙ set)),
          at ∙ ap (λ (a : Elem A). some a.item) (sym here),
        );
        others = λ d h a. (
          carry
              (written-Grows m i c held.0 held.1 e (some c)
                (λ k other _ same. other (ap some same)))
              d a h,
          a,
        );
      }
    where
      unflagged : (k : ℕ) → k < 2 ^ 32 → index_of c ≡ index_of k → Flagged m k → ⊥
      unflagged k word place set =
          let (lo, hi, _) = i.flags k word set in
          elim (ℕ_discrete c k) [
            | yes same ↦ held.2 (subst (Flagged m) (sym same) set)
            | no other ↦ position_ne m i c k held.0 held.1 (omega (arith, i.behind)) hi other place
          ]

  committed :
      (m : Memory A) (c : ℕ)
      → IsMemory m
      → length m.sent < 2 ^ 32
      → Held m c
      → Placed m c
      → Kept m (set_flag m c (bit_not 64 c)) (Thread.filled c) (Thread.settling c)
  committed m c i l held at =
      let e : Elem A = record { item = (elem m c).item; flag = bit_not 64 c } in
      given_up refl refl
        (written-Grows m i c held.0 held.1 e (some c) (λ k other _ same. other (ap some same)))
        (written-IsMemory m i c held.0 held.1 e (λ k word _ set.
          let same : c ≡ k = omega (arith, i.ct_eq, held.1) in
          subst (λ j. (m.wt ≤ j) × (j < m.ct) × (get_elem? m.sent j ≡ some (elem m c).item)) same
            (held.0, held.1, at)))
        tt

  -- The flag of an index is taken, which is then the write index.
  took_flag :
      (m : Memory A) (c f : ℕ) {t t' : Thread A}
      → IsMemory m
      → length m.sent < 2 ^ 32
      → c ≤ m.wt
      → bit_not 64 f ≡ c
      → (elem m c).flag ≡ f
      → holds t ≡ none
      → holds t' ≡ some c
      → ((c ≡ m.wt) × Held (set_flag m c 0) c × Placed (set_flag m c 0) c
          → Doing (set_flag m c 0) t')
      → Kept m (set_flag m c 0) t t'
  took_flag m c f i l passed word same free holding doing =
      let e : Elem A = record { item = (elem m c).item; flag = 0 } in
      let set : Flagged m c = ap (bit_not 64) same ∙ word in
      let (lo, hi, at) = i.flags c (omega (arith, i.ct_eq, i.claimed)) set in
      let here = elem_self m i c lo hi e in
      let cleared : Flagged (set_flag m c 0) c → ⊥ = λ again.
        let zeros : bit_not 64 0 ≡ c = ap (λ (a : Elem A). bit_not 64 a.flag) (sym here) ∙ again in
        omega (arith, i.ct_eq) in
      record {
        memory = written-IsMemory m i c lo hi e (λ k fits_word _ zeros. absurd (omega arith));
        own =
            doing
              (omega arith, (lo, hi, cleared), at ∙ ap (λ (a : Elem A). some a.item) (sym here));
        others = λ d h a. (
          carry
              (written-Grows m i c lo hi e none
                (λ k _ held equal. held.2 (subst (Flagged m) equal set)))
              d (λ k e. absurd (none-ne-some k e)) h,
          λ k e e'.
              let equal : c ≡ k = some-injective c k (sym holding ∙ e) in
              (holds-Held m d h k e').2 (subst (Flagged m) equal set),
        );
      }

  took :
      (m : Memory A) (x : A)
      → IsMemory m
      → length m.sent < 2 ^ 32
      → m.rd < m.wt
      → get_elem? m.sent m.rd ≡ some x
      → Kept m
          (record m { rd = u32 (m.rd + 1); received = m.received ++ (x ∷ []) })
          (Thread.copied m.rd x)
          Thread.idle
  took m x i l left oldest =
      given_up refl refl (taken-Grows m i l x left oldest) (taken-IsMemory m i l x left oldest) tt

  -- While fewer than 2 ^ 32 indices have been claimed.
  pub Access-Kept :
      {m m' : Memory A} {t t' : Thread A}
      → Access m t m' t'
      → IsMemory m
      → length m'.sent < 2 ^ 32
      → Doing m t
      → Kept m m' t t'
  Access-Kept (Access.call x) i l h = quiet i refl tt
  Access-Kept Access.load_ct i l h = quiet i refl (omega arith, tt)
  Access-Kept (Access.full e) i l h = quiet i refl tt
  Access-Kept {m} (Access.not_full ne) i l h =
      quiet i refl (h.0, (λ e. omega (arith, i.behind, i.claimed, i.bounded)), tt)
  Access-Kept {m} (Access.claim {x} e) i l h = rw (sym e) (claimed m x i (omega (arith, h.1)) l)
  Access-Kept Access.claim_again i l h = quiet i refl tt
  Access-Kept {m} (Access.fill {x} {c}) i l h = filled m x c i h.0 h.1
  Access-Kept {m} (Access.commit {c}) i l h = committed m c i l h.0 h.1
  Access-Kept Access.load_flag i l h = quiet i refl tt
  Access-Kept (Access.elsewhere ne) i l h = quiet i refl tt
  Access-Kept (Access.at_wt e) i l h = quiet i refl (omega arith, tt)
  Access-Kept (Access.not_committed ne) i l h = quiet i refl tt
  Access-Kept (Access.committed e) i l h = quiet i refl (h.0, e, tt)
  Access-Kept {m} (Access.take_flag {c} {f} e) i l h =
      took_flag m c f i l h.0 h.1 e refl refl (λ k. k)
  Access-Kept (Access.lost_flag ne) i l h = quiet i refl tt
  Access-Kept {m} (Access.advance {c}) i l h =
      given_up refl refl (moved-Grows m i l c h.0 h.1 h.2) (moved-IsMemory m i l c h.0 h.1 h.2) tt
  Access-Kept Access.call_pop i l h = quiet i refl tt
  Access-Kept Access.load_rd i l h = quiet i refl (omega arith, tt)
  Access-Kept (Access.look_empty e) i l h = quiet i refl (omega arith, tt)
  Access-Kept (Access.none_left ne) i l h = quiet i refl tt
  Access-Kept (Access.one_committed e) i l h = quiet i refl (h.0, e, tt)
  Access-Kept {m} (Access.probe {w} {f} e) i l h = took_flag m w f i l h.0 h.1 e refl refl (λ k. k)
  Access-Kept Access.probe_again i l h = quiet i refl tt
  Access-Kept {m} (Access.move {w}) i l h =
      given_up refl refl (moved-Grows m i l w h.0 h.1 h.2) (moved-IsMemory m i l w h.0 h.1 h.2) tt
  Access-Kept {m} (Access.some_left ne) i l h =
      quiet i refl (h.0, (λ e. omega (arith, i.behind)), tt)
  Access-Kept {m} (Access.copy {r}) i l h =
      quiet i refl (h.0, h.1, λ e. i.stored r (omega arith) (h.1 e))
  Access-Kept {m} (Access.take {r} {x} e) i l h =
      rw (sym e) (took m x i l (omega (arith, h.1)) (rw (sym e) at (h.2 (sym e))))
  Access-Kept Access.retry i l h = quiet i refl tt
