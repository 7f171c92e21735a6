-- ===== src/Queue/Senders.antt =====
-- src/libipc/queue.h, `ready_sending` and `shut_sending`: which handle may send.
use cpp_ipc.Prelude.{
  ℕ, Bool, true, false, ◌≡◌, arith, List, [], ◌∷◌, ◌==◌, if◌then◌else◌, Bool-cases, inl, inr,
  ==_iff, sym, ap, ◌∙◌, not, ◌⊎◌,
}
use cpp_ipc.Queue.{
  Mode, Elems, Queue, ready_sending, shut_sending, connect_sender, disconnect_sender,
}

-- The handles on one array, by their numbers.
pub record World : Type 0 where
  pub elems : Elems
  pub handles : ℕ → Queue

abbrev pub with_handle : World → ℕ → Queue → Elems → World
with_handle w i q e = record { elems = e; handles = λ j. if j == i then q else w.handles j }

-- Handle `i` calls `ready_sending`.
abbrev pub call : Mode → ℕ → World → World
call m i w = let (ok, q, e) = ready_sending m (w.handles i) w.elems in with_handle w i q e

abbrev pub calls : Mode → List ℕ → World → World
calls m [] w = w
calls m (i ∷ is) w = calls m is (call m i w)

-- No two handles have the sender's flag, and while one has it that of the array is set.
pub record OneSender (w : World) : Type 0 where
  pub unique :
      (i j : ℕ) → (w.handles i).sender_flag_ ≡ true → (w.handles j).sender_flag_ ≡ true → i ≡ j
  pub held : (i : ℕ) → (w.handles i).sender_flag_ ≡ true → w.elems.sending ≡ true

-- A call leaves everything as it was, or sets the array's flag, and the handle's own if that was clear.
ready_sending-cases :
    (m : Mode) (q : Queue) (e : Elems)
    → m.multi_producer ≡ false
    → let r = ready_sending m q e in
      ((r.1 ≡ q) × (r.2 ≡ e)) ⊎ ((r.1.sender_flag_ ≡ not e.sending) × (r.2.sending ≡ true))
unfolding ready_sending connect_sender
ready_sending-cases m q e single = elim (Bool-cases q.opened) [
  | inr shut ↦ inl (rw shut, rw shut)
  | inl is_open ↦ elim (Bool-cases q.sender_flag_) [
    | inl has ↦ inl (rw (is_open, has), rw (is_open, has))
    | inr hasnt ↦ inr (rw (is_open, hasnt, single), rw (is_open, hasnt, single))
  ]
]

flag-with_handle :
    (w : World) (i a : ℕ) (q : Queue) (e : Elems)
    → ((with_handle w i q e).handles a).sender_flag_
      ≡ (if a == i then q.sender_flag_ else (w.handles a).sender_flag_)
flag-with_handle w i a q e = elim (Bool-cases (a == i)) [ inl h ↦ rw h | inr h ↦ rw h ]

call-OneSender :
    (m : Mode) (i : ℕ) (w : World) → m.multi_producer ≡ false → OneSender w → OneSender (call m i w)
call-OneSender m i w single s =
    let r : Bool × Queue × Elems = ready_sending m (w.handles i) w.elems in
    elim (ready_sending-cases m (w.handles i) w.elems single) [
      | inl (same_q, same_e) ↦
          let same : (a : ℕ) → ((call m i w).handles a).sender_flag_ ≡ (w.handles a).sender_flag_ =
            λ a. elim (Bool-cases (a == i)) [
              | inl h ↦ rw h (
                  ap (λ q. q.sender_flag_) same_q
                  ∙ ap (λ j. (w.handles j).sender_flag_) (sym ((==_iff a i).0 h)))
              | inr h ↦ rw h
            ] in
          record {
            unique = λ a b ha hb. s.unique a b (sym (same a) ∙ ha) (sym (same b) ∙ hb);
            held = λ a ha. ap (λ e. e.sending) same_e ∙ s.held a (sym (same a) ∙ ha);
          }
      | inr (new_q, new_e) ↦ record {
        unique = λ a b ha hb. ground (
          arith,
          flag-with_handle w i a r.1 r.2,
          flag-with_handle w i b r.1 r.2,
          new_q,
          ha,
          hb,
          s.unique a b,
          s.held a,
          s.held b,
        );
        held = λ a ha. new_e;
      }
    ]

-- With a single producer, any calls of `ready_sending` keep it true that no two handles have the
-- flag of the sender and that the array is marked while one has.
pub one_sender :
    (m : Mode) (is : List ℕ) (w : World)
    → m.multi_producer ≡ false
    → OneSender w
    → OneSender (calls m is w)
one_sender m [] w single s = s
one_sender m (i ∷ is) w single s =
    one_sender m is (call m i w) single (call-OneSender m i w single s)

-- With a single producer, after `shut_sending` of the sender both another handle and the first one
-- are told that they may send.
pub shut_sending_keeps_flag :
    (m : Mode) (q r : Queue) (e : Elems)
    → m.multi_producer ≡ false
    → q.opened ≡ true
    → q.sender_flag_ ≡ true
    → r.opened ≡ true
    → let e1 = shut_sending m q e in
      let (ok, r2, e2) = ready_sending m r e1 in
      let (again, q3, e3) = ready_sending m q e2 in (ok ≡ true) × (again ≡ true)
unfolding ready_sending connect_sender shut_sending disconnect_sender
shut_sending_keeps_flag m q r e single o f p = elim (Bool-cases r.sender_flag_) [
  | inl has ↦ (simp (o, f, p, has, single), simp (o, f, p, has, single))
  | inr hasnt ↦ (simp (o, f, p, hasnt, single), simp (o, f, p, hasnt, single))
]
