-- ===== src/ProdCons/Shared/Invariant.antt =====
-- What every step of the producer and of the consumers keeps, as long as the indices have not wrapped.
mod Accesses
use cpp_ipc.Prelude.{
  ℕ, ◌+◌, ◌-◌, ◌^◌, ◌≤◌, ◌<◌, ◌≡◌, ◌≢◌, refl, some, [], ◌∷◌, ◌++◌, arith, length, get_elem?,
  length-append, get_elem?-append_left, get_elem?-append_last, ◌==◌, ap, ◌∙◌, sym, dec_lt,
  Bool-cases, inl, inr,
}
use cpp_ipc.Circ.{u32, index_of}
use cpp_ipc.ProdCons.{Block, store, store_self, store_ne}
use cpp_ipc.ProdCons.Shared.{
  Memory, Producer, checking, writing, written, Consumer, loaded, copying, copied, Push, call, full,
  room, write, publish, Pop, load, none_left, some_left, copy, take, retry, System, Step, produce,
  consume, start, Reach, begin, next,
}
use cpp_ipc.ProdCons.Shared.Invariant.Accesses.{
  Producing, Consuming, IsMemory, Inv, Push-IsMemory, Push-Consuming, taken, take-IsMemory,
  take-Consuming, take-Producing,
}

module _ {ℓ} {A : Type ℓ} where
  -- A step of consumer `c`, with what it means for the others.
  record Popped (m m' : Memory A) (c' : Consumer A) : Type ℓ where
    memory : IsMemory m'
    own : Consuming m' c'
    others : (d : Consumer A) → Consuming m d → Consuming m' d
    producer : (p : Producer A) → Producing m p → Producing m' p

  quiet : {m : Memory A} {c : Consumer A} → IsMemory m → Consuming m c → Popped m m c
  quiet i h = record { memory = i; own = h; others = λ d k. k; producer = λ p k. k }

  Pop-Popped :
      {m m' : Memory A} {c c' : Consumer A}
      → Pop m c m' c'
      → IsMemory m
      → length m.sent < 2 ^ 32
      → Consuming m c
      → Popped m m' c'
  Pop-Popped {m} load i l h = quiet i (omega arith, tt)
  Pop-Popped (none_left e) i l h = quiet i tt
  Pop-Popped {m} (some_left {r} ne) i l h = quiet i (h.0, (λ e. omega (arith, i.behind)), tt)
  Pop-Popped {m} (copy {r}) i l h = quiet i (h.0, h.1, λ e. i.stored r (omega arith) (h.1 e))
  Pop-Popped {m} (take {r} {x} e) i l h =
      let here : r ≡ m.rd = sym e in
      let some_left : m.rd < m.wt = omega (arith, h.1 here) in
      let oldest = rw here at (h.2 here) in
      rw here (record {
        memory = take-IsMemory i l x some_left oldest;
        own = tt;
        others = take-Consuming i l x some_left oldest;
        producer = take-Producing i l x some_left oldest;
      })
  Pop-Popped retry i l h = quiet i tt

  Inv-start : (block : Block A) → Inv (start block)
  Inv-start block = record {
    memory = record {
      wt_eq = refl;
      rd_eq = refl;
      behind = omega arith;
      bounded = omega arith;
      stored = λ k lo hi. elim hi [ ];
      agree = λ k lt. elim lt [ ];
    };
    producing = tt;
    consuming = λ k. tt;
  }

  sent-Pop : {m m' : Memory A} {c c' : Consumer A} → Pop m c m' c' → m'.sent ≡ m.sent
  sent-Pop load = refl
  sent-Pop (none_left e) = refl
  sent-Pop (some_left ne) = refl
  sent-Pop copy = refl
  sent-Pop (take e) = refl
  sent-Pop retry = refl

  sent-Push :
      {m m' : Memory A} {p p' : Producer A} → Push m p m' p' → length m.sent ≤ length m'.sent
  sent-Push (call x) = omega arith
  sent-Push (full e) = omega arith
  sent-Push (room ne) = omega arith
  sent-Push write = omega arith
  sent-Push {m} (publish {x}) = omega (arith, length-append m.sent (x ∷ []))

  sent-Step : {s t : System A} → Step s t → length s.mem.sent ≤ length t.mem.sent
  sent-Step (produce st) = sent-Push st
  sent-Step (consume k st) = omega (arith, ap (λ q. length q) (sent-Pop st))

  Step-Inv : {s t : System A} → Step s t → Inv s → length t.mem.sent < 2 ^ 32 → Inv t
  Step-Inv {s} (produce st) v l =
      let (memory, producing) = Push-IsMemory st v.memory v.producing l in
      record {
        memory = memory;
        producing = producing;
        consuming = λ k. Push-Consuming st v.memory l (s.consumer k) (v.consuming k);
      }
  Step-Inv {s} (consume k {m} {c} st) v l = record {
    memory = p.memory;
    producing = p.producer s.producer v.producing;
    consuming = λ j. elim (Bool-cases (k == j)) [
      | inl same ↦ rw same p.own
      | inr other ↦ rw other (p.others (s.consumer j) (v.consuming j))
    ];
  }
    where
      p : Popped s.mem m c
      p = Pop-Popped st v.memory (omega (arith, ap (λ q. length q) (sent-Pop st))) (v.consuming k)

  -- The indices do not wrap while fewer than 2 ^ 32 elements have been published.
  pub Reach-Inv :
      {block : Block A} {s : System A} → Reach block s → length s.mem.sent < 2 ^ 32 → Inv s
  Reach-Inv {block} begin l = Inv-start block
  Reach-Inv (next r st) l = Step-Inv st (Reach-Inv r (omega (arith, sent-Step st))) l
