-- ===== src/ProdCons/Broadcast/Delivery.antt =====
-- A sender and its receivers over any sequence of sends and receives.
use cpp_ipc.Prelude.{
  ℕ, ◌^◌, ◌≤◌, ◌<◌, ◌≡◌, ◌≢◌, refl, sym, ◌∙◌, Bool, Option, none, some, List, [], ◌∷◌, ◌++◌, arith,
  length, ◌==◌, if◌then◌else◌, Bool-cases, inl, inr, ℕ_discrete, All,
}
use mathlib.Core.List.{append-nil, append_assoc}
use cpp_ipc.Prelude.Bits.{bit}
use cpp_ipc.ProdCons.Broadcast.{Channel, push, pop}
use cpp_ipc.ProdCons.Broadcast.Reader.{IsChannel, Reads, push_failed}
use cpp_ipc.ProdCons.Broadcast.Steps.{
  push-Reads, pop-Reads, pop_empty, pop-IsChannel, pop_other-Reads,
}

-- A call of the sender, or of the receiver with bit `k`.
pub data Call {ℓ} (A : Type ℓ) : Type ℓ where
  send : (x : A) → Call A
  recv : (k : ℕ) → Call A

pub record Traffic {ℓ} (A : Type ℓ) : Type ℓ where
  pub chan : Channel A
  pub cursors : ℕ → ℕ
  pub accepted : List A  -- what `push` took
  pub got : ℕ → List A  -- what each receiver was given

abbrev pub update {ℓ} : {B : Type ℓ} → (ℕ → B) → ℕ → B → ℕ → B
update f k b j = if k == j then b else f j

update_self {ℓ} : {B : Type ℓ} (f : ℕ → B) (k : ℕ) (b : B) → update f k b k ≡ b
update_self f k b = ground arith

update_ne {ℓ} : {B : Type ℓ} (f : ℕ → B) {k j : ℕ} (b : B) → k ≢ j → update f k b j ≡ f j
update_ne f b ne = ground arith

module _ {ℓ} {A : Type ℓ} where
  abbrev pub received : Option (A × Bool) → List A
  received none = []
  received (some (x, last)) = x ∷ []

  pub act : Call A → Traffic A → Traffic A
  act (send x) t =
      let (ok, ch) = push x t.chan in
      record t { chan = ch; accepted = if ok then t.accepted ++ (x ∷ []) else t.accepted }
  act (recv k) t =
      let (r, cur, ch) = pop (2 ^ k) (t.cursors k) t.chan in
      record t {
        chan = ch;
        cursors = update t.cursors k cur;
        got = update t.got k (t.got k ++ received r);
      }

  pub run : List (Call A) → Traffic A → Traffic A
  run [] t = t
  run (c ∷ cs) t = run cs (act c t)

  -- The calls are those of receivers 0 to 31.
  abbrev pub IsCall : Call A → Type 0
  IsCall (send x) = Unit
  IsCall (recv k) = k < 32

  -- What receiver `k` was given is what was accepted, but for the elements it has yet to read.
  pub record Follows (k : ℕ) (t : Traffic A) : Type ℓ where
    pub items : List A
    pub channel : IsChannel t.chan
    pub reads : Reads t.chan k (t.cursors k) items
    pub all : t.accepted ≡ t.got k ++ items

  own_recv :
      (k : ℕ) (t : Traffic A) (items : List A)
      → IsChannel t.chan
      → Reads t.chan k (t.cursors k) items
      → t.accepted ≡ t.got k ++ items
      → Follows k (act (recv k) t)
  unfolding act
  own_recv k t [] c r e = rw (pop_empty (2 ^ k) t.chan k (t.cursors k) r) (record {
    items = [];
    channel = c;
    reads = rw (update_self t.cursors k (t.cursors k)) r;
    all = rw (update_self t.got k (t.got k ++ []), append-nil (t.got k)) e;
  })
  own_recv k t (x ∷ xs) c r e =
      let (last, got_x, moved, rest) = pop-Reads t.chan k (t.cursors k) x xs r in
      record {
        items = xs;
        channel = pop-IsChannel (2 ^ k) (t.cursors k) t.chan c;
        reads = rw (update_self t.cursors k (pop (2 ^ k) (t.cursors k) t.chan).1, moved) rest;
        all =
            rw
              (
                update_self t.got k (t.got k ++ received (pop (2 ^ k) (t.cursors k) t.chan).0),
                got_x,
              )
              (e ∙ sym (append_assoc (t.got k) (x ∷ []) xs));
      }

  act-Follows : (k : ℕ) (c : Call A) (t : Traffic A) → IsCall c → Follows k t → Follows k (act c t)
  unfolding act
  act-Follows k (send x) t w f = elim (Bool-cases (push x t.chan).0) [
    | inl ok ↦
        let (channel, reads) = push-Reads x t.chan k (t.cursors k) f.items f.channel f.reads ok in
        record {
          items = f.items ++ (x ∷ []);
          channel = channel;
          reads = reads;
          all = rw (ok, f.all) (append_assoc (t.got k) f.items (x ∷ []));
        }
    | inr refused ↦
        rw (push_failed x t.chan refused)
          (record { items = f.items; channel = f.channel; reads = f.reads; all = f.all })
  ]
  act-Follows k (recv j) t w f = elim (ℕ_discrete j k) [
    | no other ↦ record {
      items = f.items;
      channel = pop-IsChannel (2 ^ j) (t.cursors j) t.chan f.channel;
      reads = rw (update_ne t.cursors {k = j} {j = k} (pop (2 ^ j) (t.cursors j) t.chan).1 other) (
          pop_other-Reads j (t.cursors j) t.chan k (t.cursors k) f.items w (λ e. other (sym e))
            f.reads);
      all =
          rw
            (update_ne t.got {k = j} {j = k}
              (t.got j ++ received (pop (2 ^ j) (t.cursors j) t.chan).0) other)
            f.all;
    }
    | yes own ↦ rw own (own_recv k t f.items f.channel f.reads f.all)
  ]

  run-Follows :
      (k : ℕ) (cs : List (Call A)) (t : Traffic A)
      → All IsCall cs
      → Follows k t
      → Follows k (run cs t)
  unfolding run
  run-Follows k [] t w f = f
  run-Follows k (c ∷ cs) t w f = run-Follows k cs (act c t) w.1 (act-Follows k c t w.0 f)

  -- With one producer and broadcast, a receiver that is connected at the write index gets what
  -- `push` accepts from then on, each element once and in order, but for the last ones, at most
  -- 256, after any sequence of sends and receives without a forced push.
  pub recv_in_order :
      (k : ℕ) (cs : List (Call A)) (ch : Channel A) (cursors : ℕ → ℕ)
      → k < 32
      → All IsCall cs
      → IsChannel ch
      → bit ch.cc k ≡ 1
      → cursors k ≡ ch.wt
      → let t = run cs (record { chan = ch; cursors = cursors; accepted = []; got = λ j. [] }) in
        (items : List A) × (t.accepted ≡ t.got k ++ items) × (length items ≤ 256)
  recv_in_order k cs ch cursors h w c on at =
      let f = run-Follows k cs _ w (record {
        items = [];
        channel = c;
        reads = record {
          in_range = h;
          connected = on;
          cur_fits = omega (arith, c.wt_fits);
          bounded = omega arith;
          unread = (at, tt);
        };
        all = refl;
      }) in
      (f.items, f.all, f.reads.bounded)
