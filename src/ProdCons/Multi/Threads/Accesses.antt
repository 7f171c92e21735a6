-- ===== src/ProdCons/Multi/Threads/Accesses.antt =====
-- src/libipc/prod_cons.h: the accesses of the ring of many producers that change its memory.
use mathlib.Core.Path.{subst}
use cpp_ipc.Prelude.{
  ℕ, ◌+◌, ◌^◌, ◌≤◌, ◌<◌, ◌≡◌, ◌≢◌, refl, Option, none, some, [], ◌∷◌, ◌++◌, arith, length,
  get_elem?, length-append, get_elem?-append_left, get_elem?-append_last, get_elem?-lt, ap, ◌∙◌,
  sym, dec_lt, ℕ_discrete,
}
use cpp_ipc.Prelude.Bits.{bit_not}
use cpp_ipc.Circ.{u32, index_of}
use cpp_ipc.ProdCons.{store, store_self, store_ne}
use cpp_ipc.ProdCons.Multi.{Elem}
use cpp_ipc.ProdCons.Multi.Threads.{Memory, elem}
use cpp_ipc.ProdCons.Multi.Threads.Carry.{IsMemory, Flagged, Held, Placed, Grows}

module _ {ℓ} {A : Type ℓ} where
  -- An index is claimed, while fewer than 2 ^ 32 are.
  module _ (m : Memory A) (i : IsMemory m) (x : A) (few : m.ct ≤ m.rd + 254)
      (l : length (m.sent ++ (x ∷ [])) < 2 ^ 32) where
    abbrev pub claim_next : Memory A
    claim_next = record m { ct = u32 (m.ct + 1); sent = m.sent ++ (x ∷ []) }

    pub fits : u32 (m.ct + 1) ≡ m.ct + 1
    fits = omega (arith, length-append m.sent (x ∷ []), i.ct_eq)

    older :
        (c : ℕ) (y : A) → get_elem? m.sent c ≡ some y → get_elem? (m.sent ++ (x ∷ [])) c ≡ some y
    older c y e = get_elem?-append_left m.sent (x ∷ []) c (get_elem?-lt m.sent c y e) ∙ e

    pub claim-IsMemory : IsMemory claim_next
    claim-IsMemory = rw fits (record {
      ct_eq = omega (arith, length-append m.sent (x ∷ []), i.ct_eq);
      rd_eq = i.rd_eq;
      behind = i.behind;
      claimed = omega (arith, i.claimed);
      bounded = omega arith;
      stored = λ c lo hi. older c (elem m c).item (i.stored c lo hi);
      agree = λ c lt.
          i.agree c lt
          ∙ sym (
              get_elem?-append_left m.sent (x ∷ []) c
                (omega (arith, i.ct_eq, i.behind, i.claimed)));
      flags = λ c word set.
          let (lo, hi, at) = i.flags c word set in (lo, omega arith, older c (elem m c).item at);
    })

    pub claim-Grows : Grows m claim_next none
    claim-Grows = record {
      rd_le = omega arith;
      wt_le = omega arith;
      ct_le = omega (arith, fits);
      still = older;
      kept = λ c other held. ((held.0, omega (arith, held.1, fits), held.2), refl);
    }

  -- Another index that is pending or claimed lies at another position.
  pub position_ne :
      (m : Memory A)
      → IsMemory m
      → (c k : ℕ) → m.wt ≤ c
      → c < m.ct
      → m.rd ≤ k
      → k < m.ct
      → c ≢ k
      → index_of c ≢ index_of k
  position_ne m i c k cl ch kl kh ne = omega (arith, i.bounded, i.behind)

  -- The element at an index between `wt_` and `ct_` is written, whole or its flag.
  module _ (m : Memory A) (i : IsMemory m) (c : ℕ) (lo : m.wt ≤ c) (hi : c < m.ct)
      (e : Elem A) where
    abbrev pub written : Memory A
    written = record m { block = store m.block (index_of c) e }

    pub elem-ne : (k : ℕ) → m.rd ≤ k → k < m.ct → c ≢ k → elem written k ≡ elem m k
    elem-ne k from below ne = store_ne m.block e (position_ne m i c k lo hi from below ne)

    pub elem_self : elem written c ≡ e
    elem_self = store_self m.block e refl

    pub written-IsMemory :
        ((k : ℕ)
          → k < 2 ^ 32
          → index_of c ≡ index_of k
          → bit_not 64 e.flag ≡ k
          → (m.wt ≤ k) × (k < m.ct) × (get_elem? m.sent k ≡ some e.item))
        → IsMemory written
    written-IsMemory flag = record {
      ct_eq = i.ct_eq;
      rd_eq = i.rd_eq;
      behind = i.behind;
      claimed = i.claimed;
      bounded = i.bounded;
      stored = λ k from below.
          i.stored k from below
          ∙ ap (λ (a : Elem A). some a.item)
              (sym (elem-ne k from (omega (arith, i.claimed)) (omega arith)));
      agree = i.agree;
      flags = λ k word set. elim (ℕ_discrete (index_of c) (index_of k)) [
        | yes same ↦
            let here : elem written k ≡ e = store_self m.block e same in
            let (from, below, at) =
              flag k word same (ap (λ (a : Elem A). bit_not 64 a.flag) (sym here) ∙ set) in
            (from, below, at ∙ ap (λ (a : Elem A). some a.item) (sym here))
        | no other ↦
            let there : elem written k ≡ elem m k = store_ne m.block e other in
            let (from, below, at) =
              i.flags k word (ap (λ (a : Elem A). bit_not 64 a.flag) (sym there) ∙ set) in
            (from, below, at ∙ ap (λ (a : Elem A). some a.item) (sym there))
      ];
    }

    pub written-Grows :
        (own : Option ℕ) → ((k : ℕ) → (own ≡ some k → ⊥) → Held m k → c ≢ k) → Grows m written own
    written-Grows own apart = record {
      rd_le = omega arith;
      wt_le = omega arith;
      ct_le = omega arith;
      still = λ k x at. at;
      kept = λ k other held.
          let same = elem-ne k (omega (arith, i.behind, held.0)) held.1 (apart k other held) in
          (
            (
              held.0,
              held.1,
              λ set. held.2 (ap (λ (a : Elem A). bit_not 64 a.flag) (sym same) ∙ set),
            ),
            ap (λ (a : Elem A). a.item) same,
          );
    }

  -- `wt_` moves over an element that is in place, by the thread that has taken its flag.
  module _ (m : Memory A) (i : IsMemory m) (l : length m.sent < 2 ^ 32) (c : ℕ) (here : c ≡ m.wt)
      (held : Held m c) (at : Placed m c) where
    abbrev pub moved : Memory A
    moved = record m { wt = u32 (c + 1) }

    word : u32 (c + 1) ≡ c + 1
    word = omega (arith, i.ct_eq, held.1)

    pub moved-IsMemory : IsMemory moved
    moved-IsMemory = rw word (record {
      ct_eq = i.ct_eq;
      rd_eq = i.rd_eq;
      behind = omega (arith, i.behind);
      claimed = omega (arith, held.1);
      bounded = i.bounded;
      stored = λ k from below. elim (dec_lt k m.wt) [
        | yes old ↦ i.stored k from old
        | no last ↦ let last_one : k ≡ c = omega arith in rw last_one at
      ];
      agree = i.agree;
      flags = λ k fits_word set.
          let (from, below, at_k) = i.flags k fits_word set in
          elim (ℕ_discrete c k) [
            | yes same ↦ absurd (held.2 (subst (Flagged m) (sym same) set))
            | no other ↦ (omega arith, below, at_k)
          ];
    })

    pub moved-Grows : Grows m moved (some c)
    moved-Grows = record {
      rd_le = omega arith;
      wt_le = omega (arith, word);
      ct_le = omega arith;
      still = λ k x at_k. at_k;
      kept = λ k other held_k.
          let apart : c ≢ k = λ e. other (ap some e) in
          ((omega (arith, word, held_k.0), held_k.1, held_k.2), refl);
    }

  -- A consumer takes the oldest element.
  module _ (m : Memory A) (i : IsMemory m) (l : length m.sent < 2 ^ 32) (x : A) (left : m.rd < m.wt)
      (oldest : get_elem? m.sent m.rd ≡ some x) where
    abbrev pub taken : Memory A
    taken = record m { rd = u32 (m.rd + 1); received = m.received ++ (x ∷ []) }

    next : u32 (m.rd + 1) ≡ m.rd + 1
    next = omega (arith, i.ct_eq, i.claimed)

    pub taken-IsMemory : IsMemory taken
    taken-IsMemory = rw next (record {
      ct_eq = i.ct_eq;
      rd_eq = omega (arith, length-append m.received (x ∷ []), i.rd_eq);
      behind = omega arith;
      claimed = i.claimed;
      bounded = omega (arith, i.bounded);
      stored = λ k from below. i.stored k (omega arith) below;
      agree = λ k lt. elim (dec_lt k m.rd) [
        | yes old ↦
            get_elem?-append_left m.received (x ∷ []) k (omega (arith, i.rd_eq)) ∙ i.agree k old
        | no last ↦
            let at_end : k ≡ m.rd = omega arith in
            rw at_end (get_elem?-append_last m.received x m.rd i.rd_eq ∙ sym oldest)
      ];
      flags = i.flags;
    })

    pub taken-Grows : Grows m taken none
    taken-Grows = record {
      rd_le = omega (arith, next);
      wt_le = omega arith;
      ct_le = omega arith;
      still = λ k y at. at;
      kept = λ k other held. (held, refl);
    }
