-- ===== src/ProdCons/Broadcast/Threads/Steps.antt =====
-- src/libipc/prod_cons.h: every access to the broadcast ring leaves each receiver what it has yet to read.
use mathlib.Core.Path.{subst}
use cpp_ipc.Prelude.{
  ℕ, ◌+◌, ◌^◌, ◌≤◌, ◌<◌, ◌≡◌, refl, List, [], ◌∷◌, ◌++◌, arith, length, bit_or, length-append,
  get_elem?-append_left, get_elem?-append_last, get_elem?-lt, ap, ◌∙◌, sym, dec_lt, ℕ_discrete,
}
use cpp_ipc.Prelude.Bits.{bit, bit_or-lt}
use cpp_ipc.Circ.{u32, index_of}
use cpp_ipc.ProdCons.{store_self, store_ne}
use cpp_ipc.ProdCons.Broadcast.{Elem}
use cpp_ipc.ProdCons.Broadcast.Threads.{
  Memory, Producer, writing, written, Receiver, ready, reading, has, seen, elem, write_elem, Busy,
  Push,
}
use cpp_ipc.ProdCons.Broadcast.Threads.Follows.{
  IsMemory, Producing, Local, Follows, waiting-Follows, mark-Follows, write-Follows,
}

module _ {ℓ} {A : Type ℓ} where
  published-Local :
      (wt wt' : ℕ) (sent : List A) (x : A) (r : Receiver A)
      → wt ≤ wt'
      → Local wt sent r
      → Local wt' (sent ++ (x ∷ [])) r
  published-Local wt wt' sent x (ready cur) le h = h
  published-Local wt wt' sent x (reading cur) le h = (omega (arith, h.0), tt)
  published-Local wt wt' sent x (has cur y) le h = (
    omega (arith, h.0),
    get_elem?-append_left sent (x ∷ []) cur (get_elem?-lt sent cur y h.1) ∙ h.1,
  )
  published-Local wt wt' sent x (seen cur y rc) le h = (
    omega (arith, h.0),
    get_elem?-append_left sent (x ∷ []) cur (get_elem?-lt sent cur y h.1) ∙ h.1,
    h.2,
  )

  publish-Follows :
      (m : Memory A) (i : IsMemory m) (k : ℕ) (r : Receiver A) (got : List A) (x : A)
      → length (m.sent ++ (x ∷ [])) < 2 ^ 32
      → (elem m m.wt).item ≡ x
      → Follows m (written x) k r got
      → Follows (record m { wt = u32 (m.wt + 1); sent = m.sent ++ (x ∷ []) }) Producer.idle k r got
  publish-Follows m i k r got x l same f =
      let fits : u32 (m.wt + 1) ≡ m.wt + 1 =
        omega (arith, length-append m.sent (x ∷ []), i.wt_eq) in
      rw fits (record {
        given = f.given;
        behind = omega (arith, f.behind);
        bounded = omega (arith, f.bounded);
        agree = λ j lt.
            f.agree j lt
            ∙ sym (get_elem?-append_left m.sent (x ∷ []) j (omega (arith, i.wt_eq, f.behind)));
        unread = λ j lo hi. f.unread j lo (omega arith);
        stored = λ j lo hi. elim (dec_lt j m.wt) [
          | yes old ↦
              get_elem?-append_left m.sent (x ∷ []) j (omega (arith, i.wt_eq)) ∙ f.stored j lo old
          | no last ↦
              let here : j ≡ m.wt = omega arith in
              rw (here, same) (get_elem?-append_last m.sent x m.wt i.wt_eq)
        ];
        knows = published-Local m.wt (m.wt + 1) m.sent x r (omega arith) f.knows;
      })

  pub Push-Follows :
      {m m' : Memory A} {p p' : Producer A}
      → Push m p m' p'
      → IsMemory m
      → length m'.sent < 2 ^ 32
      → Producing m p
      → (k : ℕ) (r : Receiver A) (got : List A) → bit m.cc k ≡ 1
      → Follows m p k r got
      → Follows m' p' k r got
  Push-Follows (Push.call x) i l h k r got on f = waiting-Follows refl f
  Push-Follows (Push.no_reader z) i l h k r got on f = waiting-Follows refl f
  Push-Follows (Push.load ne) i l h k r got on f = waiting-Follows refl f
  Push-Follows (Push.not_finished b) i l h k r got on f = waiting-Follows refl f
  Push-Follows (Push.finished b) i l h k r got on f = waiting-Follows refl f
  Push-Follows {m} (Push.mark {x} {cc} {rc} same) i l h k r got on f =
      subst
        (λ c.
          Follows (write_elem m m.wt (record { item = (elem m m.wt).item; rc = bit_or m.epoch c }))
            (writing x) k r got)
        (sym h.0)
        (mark-Follows m i k r got x rc on (subst (λ c. Busy c rc m.epoch → ⊥) h.0 h.1) same
          (waiting-Follows refl f))
  Push-Follows Push.mark_again i l h k r got on f = waiting-Follows refl f
  Push-Follows {m} (Push.write {x}) i l h k r got on f = write-Follows m i k r got x f
  Push-Follows {m} (Push.publish {x}) i l h k r got on f = publish-Follows m i k r got x l h f

  -- The element at an index is written by the producer, and its counter is in range.
  pub written-IsMemory :
      (m : Memory A)
      → IsMemory m
      → (c : ℕ) (e : Elem A) → e.rc < 2 ^ 64
      → IsMemory (write_elem m c e)
  written-IsMemory m i c e fits = record {
    wt_eq = i.wt_eq;
    epoch_fits = i.epoch_fits;
    epoch_whole = i.epoch_whole;
    cc_fits = i.cc_fits;
    rc_fits = λ j. elim (ℕ_discrete (index_of c) j) [
      | yes here ↦ rw (store_self m.block e here) fits
      | no other ↦ rw (store_ne m.block e other) (i.rc_fits j)
    ];
  }

  pub Push-IsMemory :
      {m m' : Memory A} {p p' : Producer A}
      → Push m p m' p'
      → IsMemory m
      → length m'.sent < 2 ^ 32
      → Producing m p
      → IsMemory m' × Producing m' p' × (m'.cc ≡ m.cc)
  Push-IsMemory (Push.call x) i l h = (i, tt, refl)
  Push-IsMemory (Push.no_reader z) i l h = (i, tt, refl)
  Push-IsMemory (Push.load ne) i l h = (i, (refl, tt), refl)
  Push-IsMemory (Push.not_finished b) i l h = (i, tt, refl)
  Push-IsMemory (Push.finished b) i l h = (i, (h.0, b, tt), refl)
  Push-IsMemory {m} (Push.mark {x} {cc} {rc} same) i l h = (
    written-IsMemory m i m.wt (record { item = (elem m m.wt).item; rc = bit_or m.epoch cc })
        (bit_or-lt 64 m.epoch cc i.epoch_fits (omega (arith, i.cc_fits, h.0))),
    tt,
    refl,
  )
  Push-IsMemory Push.mark_again i l h = (i, tt, refl)
  Push-IsMemory {m} (Push.write {x}) i l h = (
    written-IsMemory m i m.wt (record { item = x; rc = (elem m m.wt).rc })
        (i.rc_fits (index_of m.wt)),
    ap (λ (e : Elem A). e.item)
        (store_self m.block (record { item = x; rc = (elem m m.wt).rc }) refl),
    refl,
  )
  Push-IsMemory {m} (Push.publish {x}) i l h = (
    record {
      wt_eq = omega (arith, length-append m.sent (x ∷ []), i.wt_eq);
      epoch_fits = i.epoch_fits;
      epoch_whole = i.epoch_whole;
      cc_fits = i.cc_fits;
      rc_fits = i.rc_fits;
    },
    tt,
    refl,
  )
