-- ===== src/ProdCons/Broadcast/Threads/Order.antt =====
-- What any interleaving of the producer and the receivers of the broadcast ring gives each of them.
use mathlib.Core.Path.{subst}
use cpp_ipc.Prelude.{
  ℕ, ◌^◌, ◌≤◌, ◌<◌, ◌≡◌, refl, ap, ◌∙◌, List, [], ◌∷◌, ◌++◌, arith, length, length-append, drop,
  append-drop_of_agree, length-drop, Bool-cases, inl, inr, ◌==◌,
}
use cpp_ipc.Prelude.Bits.{bit}
use cpp_ipc.ProdCons.{store}
use cpp_ipc.ProdCons.Broadcast.Threads.{
  Memory, Producer, Receiver, Push, Pop, System, produce, receive, Reach, begin, next, start,
}
use cpp_ipc.ProdCons.Broadcast.Threads.Follows.{IsMemory, Producing, Follows}
use cpp_ipc.ProdCons.Broadcast.Threads.Steps.{Push-Follows, Push-IsMemory}
use cpp_ipc.ProdCons.Broadcast.Threads.Reads.{Pop-others, Pop-own, Pop-IsMemory}

module _ {ℓ} {A : Type ℓ} where
  record Inv (cc : ℕ) (s : System A) : Type ℓ where
    memory : IsMemory s.mem
    producing : Producing s.mem s.producer
    same_cc : s.mem.cc ≡ cc
    follows : (k : ℕ) → k < 32 → bit cc k ≡ 1 → Follows s.mem s.producer k (s.receiver k) (s.got k)

  Inv-start : (cc : ℕ) (items : ℕ → A) → cc < 2 ^ 32 → Inv cc (start cc items)
  Inv-start cc items fits = record {
    memory = record {
      wt_eq = refl;
      epoch_fits = omega arith;
      epoch_whole = refl;
      cc_fits = fits;
      rc_fits = λ i. omega arith;
    };
    producing = tt;
    same_cc = refl;
    follows = λ k below on. record {
      given = refl;
      behind = omega arith;
      bounded = omega arith;
      agree = λ j lt. elim lt [ ];
      unread = λ j lo hi. elim hi [ ];
      stored = λ j lo hi. elim hi [ ];
      knows = tt;
    };
  }

  sent-Push :
      {m m' : Memory A} {p p' : Producer A} → Push m p m' p' → length m.sent ≤ length m'.sent
  sent-Push (Push.call x) = omega arith
  sent-Push (Push.no_reader z) = omega arith
  sent-Push (Push.load ne) = omega arith
  sent-Push (Push.not_finished b) = omega arith
  sent-Push (Push.finished b) = omega arith
  sent-Push (Push.mark same) = omega arith
  sent-Push Push.mark_again = omega arith
  sent-Push Push.write = omega arith
  sent-Push {m} (Push.publish {x}) = omega (arith, length-append m.sent (x ∷ []))

  produce-Inv :
      (cc : ℕ) {s : System A} {m : Memory A} {p : Producer A}
      → Push s.mem s.producer m p
      → Inv cc s
      → length m.sent < 2 ^ 32
      → Inv cc (record s { mem = m; producer = p })
  produce-Inv cc {s} push v l =
      let (memory, producing, same) = Push-IsMemory push v.memory l v.producing in
      record {
        memory = memory;
        producing = producing;
        same_cc = same ∙ v.same_cc;
        follows = λ k below on.
            Push-Follows push v.memory l v.producing k (s.receiver k) (s.got k)
              (ap (λ c. bit c k) v.same_cc ∙ on) (v.follows k below on);
      }

  receive-Inv :
      (cc : ℕ) {s : System A} (i : ℕ) {m : Memory A} {r : Receiver A} {xs : List A}
      → i < 32
      → Pop i s.mem (s.receiver i) m r xs
      → Inv cc s
      → length s.mem.sent < 2 ^ 32
      → Inv cc (record s {
        mem = m;
        receiver = store s.receiver i r;
        got = store s.got i (s.got i ++ xs);
      })
  receive-Inv cc {s} i {m} {r} {xs} below_i pop v l =
      let (memory, producing, same, _) = Pop-IsMemory i pop v.memory s.producer v.producing in
      record {
        memory = memory;
        producing = producing;
        same_cc = same ∙ v.same_cc;
        follows = λ k below on. elim (Bool-cases (i == k)) [
          | inl here ↦
              let equal : i ≡ k = ground arith in
              rw here (
                subst (λ j. Follows m s.producer j r (s.got i ++ xs)) equal
                  (Pop-own i pop v.memory l s.producer (s.got i)
                    (v.follows i below_i (ap (bit cc) equal ∙ on))))
          | inr other ↦ rw other (
              Pop-others i pop below_i s.producer k (s.receiver k) (s.got k) below (ground arith)
                (v.follows k below on))
        ];
      }

  sent-Pop :
      (k : ℕ) {m : Memory A} {r : Receiver A} {m' : Memory A} {r' : Receiver A} {xs : List A}
      → Pop k m r m' r' xs
      → length m.sent ≤ length m'.sent
  sent-Pop k (Pop.empty e) = omega arith
  sent-Pop k (Pop.enter ne) = omega arith
  sent-Pop k Pop.read = omega arith
  sent-Pop k Pop.load_rc = omega arith
  sent-Pop k (Pop.all_read z) = omega arith
  sent-Pop k (Pop.clear ne same) = omega arith
  sent-Pop k Pop.retry = omega arith

  -- The indices do not wrap while fewer than 2 ^ 32 elements have been published.
  Reach-Inv :
      (cc : ℕ) {items : ℕ → A} {s : System A}
      → cc < 2 ^ 32
      → Reach cc items s
      → length s.mem.sent < 2 ^ 32
      → Inv cc s
  Reach-Inv cc {items} fits begin l = Inv-start cc items fits
  Reach-Inv cc fits (next run (produce push)) l =
      produce-Inv cc push (Reach-Inv cc fits run (omega (arith, sent-Push push))) l
  Reach-Inv cc fits (next {s} run (receive k below pop)) l =
      let few : length s.mem.sent < 2 ^ 32 = omega (arith, sent-Pop k pop) in
      receive-Inv cc k below pop (Reach-Inv cc fits run few) few

  -- In every interleaving of the accesses of one producer and up to 32 receivers of a broadcast
  -- ring, whose connections stay as they are and where no push is forced, while fewer than 2^32
  -- elements have been published, each connected receiver has been given the first elements
  -- published, each once and in order, and at most 256 others wait for it.
  pub each_receives :
      (cc : ℕ) {items : ℕ → A} {s : System A} (k : ℕ)
      → cc < 2 ^ 32
      → Reach cc items s
      → length s.mem.sent < 2 ^ 32
      → k < 32
      → bit cc k ≡ 1
      → (rest : List A) × (s.mem.sent ≡ s.got k ++ rest) × (length rest ≤ 256)
  each_receives cc {items} {s} k fits run l below on =
      let v = Reach-Inv cc fits run l in
      let f = v.follows k below on in
      (
        drop (length (s.got k)) s.mem.sent,
        append-drop_of_agree (s.got k) s.mem.sent (omega (arith, v.memory.wt_eq, f.given, f.behind))
            (λ j lt. f.agree j (omega (arith, f.given))),
        omega
            (arith, length-drop (length (s.got k)) s.mem.sent, v.memory.wt_eq, f.given, f.bounded),
      )
