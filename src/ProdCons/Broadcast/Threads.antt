-- ===== src/ProdCons/Broadcast/Threads.antt =====
-- src/libipc/prod_cons.h, `prod_cons_impl<wr<single, multi, broadcast>>`: the producer and any of the 32
-- receivers at once, a shared access at a time, while the connections stay as they are and no push is
-- forced. Only the producer writes `wt_` and `epoch_`.
pub mod Follows
pub mod Steps
pub mod Reads
pub mod Order
mod Tests
use cpp_ipc.Prelude.{
  ℕ, ◌+◌, ◌^◌, ◌<◌, ◌≡◌, ◌≢◌, ◌⊎◌, bit_and, bit_or, List, [], ◌∷◌, ◌++◌, ◌==◌, if◌then◌else◌,
}
use cpp_ipc.Prelude.Bits.{bit_not}
use cpp_ipc.Circ.{u32, index_of}
use cpp_ipc.ProdCons.{Block, store}
use cpp_ipc.ProdCons.Broadcast.{Elem, ep_mask}

-- A receiver has yet to read the element.
abbrev pub Busy : (cc cur_rc epoch : ℕ) → Type 0
Busy cc rc epoch =
    (bit_and cc (u32 (bit_and rc ep_mask)) ≢ 0) × (bit_and rc (bit_not 64 ep_mask) ≡ epoch)

-- The shared memory, with the elements published, which the code does not keep.
pub record Memory {ℓ} (A : Type ℓ) : Type ℓ where
  pub wt : ℕ
  pub epoch : ℕ
  pub cc : ℕ
  pub block : Block (Elem A)
  pub sent : List A

-- Where `push` stands, with its locals.
pub data Producer {ℓ} (A : Type ℓ) : Type ℓ where
  idle : Producer A
  called : (x : A) → Producer A
  loaded : (x : A) (cc cur_rc : ℕ) → Producer A
  marking : (x : A) (cc cur_rc : ℕ) → Producer A  -- before the exchange
  writing : (x : A) → Producer A
  written : (x : A) → Producer A  -- before `wt_.fetch_add`

-- Where `pop` stands. `cur` is the index of the element: the code counts the cursor up at once.
pub data Receiver {ℓ} (A : Type ℓ) : Type ℓ where
  ready : (cur : ℕ) → Receiver A
  reading : (cur : ℕ) → Receiver A
  has : (cur : ℕ) (x : A) → Receiver A  -- before the counter is loaded
  seen : (cur : ℕ) (x : A) (cur_rc : ℕ) → Receiver A

module _ {ℓ} {A : Type ℓ} where
  abbrev pub elem : Memory A → ℕ → Elem A
  elem m c = m.block (index_of c)

  abbrev pub write_elem : Memory A → ℕ → Elem A → Memory A
  write_elem m c e = record m { block = store m.block (index_of c) e }

  -- A weak exchange may also fail where the values agree: `mark_again` and `retry` have no condition.
  pub data Push (m : Memory A) : Producer A → Memory A → Producer A → Type ℓ where
    call : (x : A) → Push m Producer.idle m (called x)
    no_reader : {x : A} → m.cc ≡ 0 → Push m (called x) m Producer.idle
    load : {x : A} → m.cc ≢ 0 → Push m (called x) m (loaded x m.cc (elem m m.wt).rc)
    not_finished :
        {x : A} {cc rc : ℕ} → Busy cc rc m.epoch → Push m (loaded x cc rc) m Producer.idle
    finished :
        {x : A} {cc rc : ℕ} → (Busy cc rc m.epoch → ⊥) → Push m (loaded x cc rc) m (marking x cc rc)
    mark :
        {x : A} {cc rc : ℕ}
        → (elem m m.wt).rc ≡ rc
        → Push m
            (marking x cc rc)
            (write_elem m m.wt (record { item = (elem m m.wt).item; rc = bit_or m.epoch cc }))
            (writing x)
    mark_again : {x : A} {cc rc : ℕ} → Push m (marking x cc rc) m (called x)
    write :
        {x : A}
        → Push m
            (writing x)
            (write_elem m m.wt (record { item = x; rc = (elem m m.wt).rc }))
            (written x)
    publish :
        {x : A}
        → Push m
            (written x)
            (record m { wt = u32 (m.wt + 1); sent = m.sent ++ (x ∷ []) })
            Producer.idle

  -- `pop` of the receiver `k`, whose id is `2 ^ k`, with what it is given.
  pub data Pop (k : ℕ) (m : Memory A) : Receiver A → Memory A → Receiver A → List A → Type ℓ where
    empty : {cur : ℕ} → cur ≡ m.wt → Pop k m (ready cur) m (ready cur) []
    enter : {cur : ℕ} → cur ≢ m.wt → Pop k m (ready cur) m (reading cur) []
    read : {cur : ℕ} → Pop k m (reading cur) m (has cur (elem m cur).item) []
    load_rc : {cur : ℕ} {x : A} → Pop k m (has cur x) m (seen cur x (elem m cur).rc) []
    all_read :
        {cur : ℕ} {x : A} {rc : ℕ}
        → bit_and rc ep_mask ≡ 0
        → Pop k m (seen cur x rc) m (ready (u32 (cur + 1))) (x ∷ [])
    clear :
        {cur : ℕ} {x : A} {rc : ℕ}
        → bit_and rc ep_mask ≢ 0
        → (elem m cur).rc ≡ rc
        → Pop k m
            (seen cur x rc)
            (write_elem m cur
              (record { item = (elem m cur).item; rc = bit_and rc (bit_not 64 (2 ^ k)) }))
            (ready (u32 (cur + 1)))
            (x ∷ [])
    retry : {cur : ℕ} {x : A} {rc : ℕ} → Pop k m (seen cur x rc) m (has cur x) []

pub record System {ℓ} (A : Type ℓ) : Type ℓ where
  pub mem : Memory A
  pub producer : Producer A
  pub receiver : ℕ → Receiver A
  pub got : ℕ → List A  -- what each receiver was given

module _ {ℓ} {A : Type ℓ} where
  pub data Step (s : System A) : System A → Type ℓ where
    produce :
        {m : Memory A} {p : Producer A}
        → Push s.mem s.producer m p
        → Step s (record s { mem = m; producer = p })
    receive :
        (k : ℕ) {m : Memory A} {r : Receiver A} {xs : List A}
        → k < 32
        → Pop k s.mem (s.receiver k) m r xs
        → Step s (record s {
          mem = m;
          receiver = store s.receiver k r;
          got = store s.got k (s.got k ++ xs);
        })

  -- Fresh memory, and receivers with these connections that are all at the first element.
  abbrev pub start : (cc : ℕ) → (ℕ → A) → System A
  start cc items = record {
    mem = record {
      wt = 0;
      epoch = 0;
      cc = cc;
      block = λ i. record { item = items i; rc = 0 };
      sent = [];
    };
    producer = Producer.idle;
    receiver = λ _. ready 0;
    got = λ _. [];
  }

  pub data Reach (cc : ℕ) (items : ℕ → A) : System A → Type ℓ where
    begin : Reach cc items (start cc items)
    next : {s t : System A} → Reach cc items s → Step s t → Reach cc items t
