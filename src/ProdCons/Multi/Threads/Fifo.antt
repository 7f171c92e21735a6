-- ===== src/ProdCons/Multi/Threads/Fifo.antt =====
-- What any interleaving of any number of producers and consumers delivers.
use cpp_ipc.Prelude.{
  ℕ, ◌+◌, ◌^◌, ◌≤◌, ◌<◌, ◌≡◌, ◌≢◌, ◌⊎◌, List, [], ◌∷◌, ◌++◌, arith, length, length-append, drop,
  append-drop_of_agree, length-drop, Bool-cases, inl, inr, true, ◌==◌, ap, refl, sym, ◌∙◌, some,
}
use mathlib.Core.Option.{none-ne-some}
use cpp_ipc.Circ.{index_of}
use cpp_ipc.ProdCons.Multi.Threads.{
  Memory, Thread, Access, System, Step, step, Reach, begin, next, start,
}
use cpp_ipc.ProdCons.Multi.Threads.Carry.{IsMemory, Flagged, Doing, Apart, holds, holds-Held}
use cpp_ipc.ProdCons.Multi.Threads.Accesses.{position_ne}
use cpp_ipc.ProdCons.Multi.Threads.Covers.{Access-Covered}
use cpp_ipc.ProdCons.Multi.Threads.Steps.{Kept, Access-Kept}

module _ {ℓ} {A : Type ℓ} where
  pub record Inv (s : System A) : Type ℓ where
    pub memory : IsMemory s.mem
    pub doing : (i : ℕ) → Doing s.mem (s.thread i)
    pub apart : (i j : ℕ) → i ≢ j → Apart (s.thread i) (s.thread j)
    pub covered :
        (c : ℕ)
        → s.mem.wt ≤ c
        → c < s.mem.ct
        → ((i : ℕ) × (holds (s.thread i) ≡ some c)) ⊎ Flagged s.mem c

  Inv-start : (items : ℕ → A) → Inv (start items)
  Inv-start items = record {
    memory = record {
      ct_eq = refl;
      rd_eq = refl;
      behind = omega arith;
      claimed = omega arith;
      bounded = omega arith;
      stored = λ k lo hi. elim hi [ ];
      agree = λ k lt. elim lt [ ];
      flags = λ k word set. absurd (omega arith);
    };
    doing = λ k. tt;
    apart = λ k j ne c e. absurd (none-ne-some c e);
    covered = λ c lo hi. elim hi [ ];
  }

  sent-Access :
      {m m' : Memory A} {t t' : Thread A} → Access m t m' t' → length m.sent ≤ length m'.sent
  sent-Access (Access.call x) = omega arith
  sent-Access Access.load_ct = omega arith
  sent-Access (Access.full e) = omega arith
  sent-Access (Access.not_full ne) = omega arith
  sent-Access {m} (Access.claim {x} e) = omega (arith, length-append m.sent (x ∷ []))
  sent-Access Access.claim_again = omega arith
  sent-Access Access.fill = omega arith
  sent-Access Access.commit = omega arith
  sent-Access Access.load_flag = omega arith
  sent-Access (Access.elsewhere ne) = omega arith
  sent-Access (Access.at_wt e) = omega arith
  sent-Access (Access.not_committed ne) = omega arith
  sent-Access (Access.committed e) = omega arith
  sent-Access (Access.take_flag e) = omega arith
  sent-Access (Access.lost_flag ne) = omega arith
  sent-Access Access.advance = omega arith
  sent-Access Access.call_pop = omega arith
  sent-Access Access.load_rd = omega arith
  sent-Access (Access.look_empty e) = omega arith
  sent-Access (Access.none_left ne) = omega arith
  sent-Access (Access.one_committed e) = omega arith
  sent-Access (Access.probe e) = omega arith
  sent-Access Access.probe_again = omega arith
  sent-Access Access.move = omega arith
  sent-Access (Access.some_left ne) = omega arith
  sent-Access Access.copy = omega arith
  sent-Access (Access.take e) = omega arith
  sent-Access Access.retry = omega arith

  pub Step-Inv : {s t : System A} → Step s t → Inv s → length t.mem.sent < 2 ^ 32 → Inv t
  Step-Inv {s} (step i {m} {t} access) v l = record {
    memory = k.memory;
    doing = λ j. elim (Bool-cases (i == j)) [
      | inl same ↦ rw same k.own
      | inr other ↦ rw other (k.others (s.thread j) (v.doing j) (v.apart i j (ground arith))).0
    ];
    apart = λ a b ne. elim (Bool-cases (i == a)) [
      | inl here ↦ elim (Bool-cases (i == b)) [
        | inl there ↦ absurd (ne (ground arith))
        | inr other ↦ rw (here, other) (with_own b (ground arith))
      ]
      | inr elsewhere ↦ elim (Bool-cases (i == b)) [
        | inl there ↦ rw (elsewhere, there) (λ c e e'. with_own a (ground arith) c e' e)
        | inr other ↦ rw (elsewhere, other) (v.apart a b ne)
      ]
    ];
    covered = λ c lo hi. elim ((Access-Covered access v.memory l (v.doing i)).covers c lo hi) [
      | inl own ↦ inl (i, let e : (i == i) ≡ true = ground arith in rw e own)
      | inr (inl set) ↦ inr set
      | inr (inr (from, below, free, clear)) ↦ elim (v.covered c from below) [
        | inr set ↦ absurd (clear set)
        | inl (j, held) ↦ elim (Bool-cases (i == j)) [
          | inl same ↦
              let equal : i ≡ j = ground arith in
              absurd (free (ap (λ a. holds (s.thread a)) equal ∙ held))
          | inr other ↦ inl (j, rw other held)
        ]
      ]
    ];
  }
    where
      k : Kept s.mem m (s.thread i) t
      k = Access-Kept access v.memory l (v.doing i)

      with_own : (j : ℕ) → i ≢ j → Apart t (s.thread j)
      with_own j ne = (k.others (s.thread j) (v.doing j) (v.apart i j ne)).1

  -- The indices do not wrap while fewer than 2 ^ 32 have been claimed.
  pub Reach-Inv :
      {items : ℕ → A} {s : System A} → Reach items s → length s.mem.sent < 2 ^ 32 → Inv s
  Reach-Inv {items} begin l = Inv-start items
  Reach-Inv (next r (step i access)) l =
      Step-Inv (step i access) (Reach-Inv r (omega (arith, sent-Access access))) l

  -- In every interleaving of the accesses of any number of producers and consumers, while fewer
  -- than 2^32 indices have been claimed, the elements handed to consumers are those of the first
  -- claims, in the order of the claims, each once, and at most 255 others have been claimed.
  pub popped_prefix :
      {items : ℕ → A} {s : System A}
      → Reach items s
      → length s.mem.sent < 2 ^ 32
      → (rest : List A) × (s.mem.sent ≡ s.mem.received ++ rest) × (length rest ≤ 255)
  popped_prefix {items} {s} r l =
      let i = (Reach-Inv r l).memory in
      (
        drop (length s.mem.received) s.mem.sent,
        append-drop_of_agree s.mem.received s.mem.sent
            (omega (arith, i.ct_eq, i.rd_eq, i.behind, i.claimed))
            (λ k lt. i.agree k (omega (arith, i.rd_eq))),
        omega (arith, length-drop (length s.mem.received) s.mem.sent, i.ct_eq, i.rd_eq, i.bounded),
      )

  -- In every interleaving of fewer than 2^32 claims, two threads that hold an index, claimed and
  -- not yet committed or taken to move the write index, have different positions of the array, and
  -- such an index lies from the write index on and below the commit index, at most 255 above the
  -- read index.
  pub one_writer :
      {items : ℕ → A} {s : System A} (a b c k : ℕ)
      → Reach items s
      → length s.mem.sent < 2 ^ 32
      → a ≢ b
      → holds (s.thread a) ≡ some c
      → holds (s.thread b) ≡ some k
      → (index_of c ≢ index_of k) × (s.mem.wt ≤ c) × (c < s.mem.ct) × (s.mem.ct ≤ s.mem.rd + 255)
  one_writer {items} {s} a b c k r l ne at_a at_b =
      let v = Reach-Inv r l in
      let held_a = holds-Held s.mem (s.thread a) (v.doing a) c at_a in
      let held_b = holds-Held s.mem (s.thread b) (v.doing b) k at_b in
      let apart : c ≢ k = λ e. v.apart a b ne c at_a (at_b ∙ ap some (sym e)) in
      (
        position_ne s.mem v.memory c k held_a.0 held_a.1 (omega (arith, v.memory.behind, held_b.0))
            held_b.1 apart,
        held_a.0,
        held_a.1,
        v.memory.bounded,
      )
