-- ===== src/ProdCons/Multi/Threads/Covers.antt =====
-- src/libipc/prod_cons.h: an index that is claimed is held by a thread or has its flag set, after each
-- access to the ring of many producers.
use mathlib.Core.Option.{some-injective, none-ne-some}
use cpp_ipc.Prelude.{
  ℕ, ◌+◌, ◌^◌, ◌≤◌, ◌<◌, ◌≡◌, ◌≢◌, ◌⊎◌, inl, inr, refl, none, some, [], ◌∷◌, arith, length,
  length-append, ap, ◌∙◌, sym, ℕ_discrete,
}
use cpp_ipc.Prelude.Bits.{bit_not}
use cpp_ipc.Circ.{u32, index_of}
use cpp_ipc.ProdCons.{store}
use cpp_ipc.ProdCons.Multi.{Elem}
use cpp_ipc.ProdCons.Multi.Threads.{Memory, Thread, elem, set_flag, Access}
use cpp_ipc.ProdCons.Multi.Threads.Carry.{IsMemory, Flagged, Doing, holds}
use cpp_ipc.ProdCons.Multi.Threads.Accesses.{elem_self, elem-ne}

module _ {ℓ} {A : Type ℓ} where
  -- The index was claimed before, and neither held by this thread nor flagged.
  abbrev pub Elsewhere : Memory A → Thread A → ℕ → Type 0
  Elsewhere m t c = (m.wt ≤ c) × (c < m.ct) × (holds t ≡ some c → ⊥) × (Flagged m c → ⊥)

  -- What an access leaves of each index between `wt_` and `ct_`.
  pub record Covered (m : Memory A) (t : Thread A) (m' : Memory A) (t' : Thread A) : Type ℓ where
    pub covers :
        (c : ℕ) → m'.wt ≤ c → c < m'.ct → (holds t' ≡ some c) ⊎ (Flagged m' c ⊎ Elsewhere m t c)

  flag_set : (m : Memory A) (c : ℕ) → Flagged m c ⊎ (Flagged m c → ⊥)
  flag_set m c = elim (ℕ_discrete (bit_not 64 (elem m c).flag) c) [
    | yes set ↦ inl set
    | no clear ↦ inr clear
  ]

  -- The flags stay as they are, and the thread holds no index that is still to be covered.
  same_flags :
      (m : Memory A) (t t' : Thread A) (c : ℕ)
      → (holds t ≡ some c → ⊥)
      → m.wt ≤ c
      → c < m.ct
      → (holds t' ≡ some c) ⊎ (Flagged m c ⊎ Elsewhere m t c)
  same_flags m t t' c free lo hi = elim (flag_set m c) [
    | inl set ↦ inr (inl set)
    | inr clear ↦ inr (inr (lo, hi, free, clear))
  ]

  quiet_covers : {m : Memory A} {t t' : Thread A} → holds t ≡ none → Covered m t m t'
  quiet_covers {m} {t} {t'} free = record {
    covers = λ c lo hi. same_flags m t t' c (λ e. none-ne-some c (sym free ∙ e)) lo hi;
  }

  written_covers :
      (m : Memory A) (i : IsMemory m) (c : ℕ) (lo : m.wt ≤ c) (hi : c < m.ct) (e : Elem A)
      (t t' : Thread A)
      → ((k : ℕ) → holds t ≡ some k → c ≡ k)
      → (holds t' ≡ some c) ⊎ (bit_not 64 e.flag ≡ c)
      → Covered m t (record m { block = store m.block (index_of c) e }) t'
  written_covers m i c lo hi e t t' own covered = record {
    covers = λ k from below. elim (ℕ_discrete c k) [
      | yes same ↦ elim covered [
        | inl held ↦ inl (held ∙ ap some same)
        | inr set ↦ inr (
            inl (
              ap (λ j. bit_not 64 (store m.block (index_of c) e (index_of j)).flag) (sym same)
              ∙ ap (λ (a : Elem A). bit_not 64 a.flag) (elem_self m i c lo hi e)
              ∙ set
              ∙ same))
      ]
      | no other ↦
          let there = elem-ne m i c lo hi e k (omega (arith, i.behind)) below other in
          elim (flag_set m k) [
            | inl set ↦ inr (inl (ap (λ (a : Elem A). bit_not 64 a.flag) there ∙ set))
            | inr clear ↦ inr (inr (from, below, (λ held. other (own k held)), clear))
          ]
    ];
  }

  took_covers :
      (m : Memory A) (c : ℕ) {t t' : Thread A}
      → IsMemory m
      → c < 2 ^ 32
      → Flagged m c
      → holds t ≡ none
      → holds t' ≡ some c
      → Covered m t (set_flag m c 0) t'
  took_covers m c {t} {t'} i word set free held =
      let (lo, hi, _) = i.flags c word set in
      written_covers m i c lo hi (record { item = (elem m c).item; flag = 0 }) t t'
        (λ k e. absurd (none-ne-some k (sym free ∙ e))) (inl held)

  moved_covers :
      (m : Memory A) (c : ℕ) (t t' : Thread A)
      → c < m.ct
      → m.ct < 2 ^ 32
      → c ≡ m.wt
      → holds t ≡ some c
      → Covered m t (record m { wt = u32 (c + 1) }) t'
  moved_covers m c t t' below l here held = record {
    covers = λ k from hi.
        let apart : c ≢ k = omega arith in
        same_flags m t t' k (λ e. apart (some-injective c k (sym held ∙ e))) (omega arith) hi;
  }

  pub Access-Covered :
      {m m' : Memory A} {t t' : Thread A}
      → Access m t m' t'
      → IsMemory m
      → length m'.sent < 2 ^ 32
      → Doing m t
      → Covered m t m' t'
  Access-Covered (Access.call x) i l h = quiet_covers refl
  Access-Covered Access.load_ct i l h = quiet_covers refl
  Access-Covered (Access.full e) i l h = quiet_covers refl
  Access-Covered (Access.not_full ne) i l h = quiet_covers refl
  Access-Covered {m} (Access.claim {x} {c} e) i l h = record {
    covers = λ k lo hi. elim (ℕ_discrete c k) [
      | yes same ↦ inl (ap some same)
      | no other ↦
          same_flags m (Thread.room x c) (Thread.filling x c) k (none-ne-some k) lo
            (omega (arith, i.ct_eq, length-append m.sent (x ∷ [])))
    ];
  }
  Access-Covered Access.claim_again i l h = quiet_covers refl
  Access-Covered {m} (Access.fill {x} {c}) i l h =
      written_covers m i c h.0.0 h.0.1 (record { item = x; flag = (elem m c).flag })
        (Thread.filling x c) (Thread.filled c) (some-injective c) (inl refl)
  Access-Covered {m} (Access.commit {c}) i l h =
      written_covers m i c h.0.0 h.0.1 (record { item = (elem m c).item; flag = bit_not 64 c })
        (Thread.filled c) (Thread.settling c) (some-injective c)
        (inr (omega (arith, i.ct_eq, h.0.1)))
  Access-Covered Access.load_flag i l h = quiet_covers refl
  Access-Covered (Access.elsewhere ne) i l h = quiet_covers refl
  Access-Covered (Access.at_wt e) i l h = quiet_covers refl
  Access-Covered (Access.not_committed ne) i l h = quiet_covers refl
  Access-Covered (Access.committed e) i l h = quiet_covers refl
  Access-Covered {m} (Access.take_flag {c} {f} e) i l h =
      took_covers m c i (omega (arith, i.ct_eq, i.claimed, h.0)) (ap (bit_not 64) e ∙ h.1) refl refl
  Access-Covered (Access.lost_flag ne) i l h = quiet_covers refl
  Access-Covered {m} (Access.advance {c}) i l h =
      moved_covers m c (Thread.advancing c) _ h.1.1 (omega (arith, i.ct_eq)) h.0 refl
  Access-Covered Access.call_pop i l h = quiet_covers refl
  Access-Covered Access.load_rd i l h = quiet_covers refl
  Access-Covered (Access.look_empty e) i l h = quiet_covers refl
  Access-Covered (Access.none_left ne) i l h = quiet_covers refl
  Access-Covered (Access.one_committed e) i l h = quiet_covers refl
  Access-Covered {m} (Access.probe {w} {f} e) i l h =
      took_covers m w i (omega (arith, i.ct_eq, i.claimed, h.0)) (ap (bit_not 64) e ∙ h.1) refl refl
  Access-Covered Access.probe_again i l h = quiet_covers refl
  Access-Covered {m} (Access.move {w}) i l h =
      moved_covers m w (Thread.moving w) _ h.1.1 (omega (arith, i.ct_eq)) h.0 refl
  Access-Covered (Access.some_left ne) i l h = quiet_covers refl
  Access-Covered Access.copy i l h = quiet_covers refl
  Access-Covered {m} (Access.take {r} {x} e) i l h = record {
    covers = λ k lo hi. same_flags m (Thread.copied r x) Thread.idle k (none-ne-some k) lo hi;
  }
  Access-Covered Access.retry i l h = quiet_covers refl
