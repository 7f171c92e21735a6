-- ===== src/ProdCons/Multi/Threads.antt =====
-- src/libipc/prod_cons.h, `prod_cons_impl<wr<multi, multi, unicast>>`: any number of threads that push
-- and pop, a shared access at a time.
pub mod Carry
pub mod Accesses
pub mod Steps
pub mod Covers
pub mod Fifo
pub mod Alone
pub mod Progress
mod Tests
use cpp_ipc.Prelude.{ℕ, ◌+◌, ◌≡◌, ◌≢◌, List, [], ◌∷◌, ◌++◌, ◌==◌, if◌then◌else◌}
use cpp_ipc.Prelude.Bits.{bit_not}
use cpp_ipc.Circ.{u32, index_of}
use cpp_ipc.ProdCons.{Block, store}
use cpp_ipc.ProdCons.Multi.{Elem}

-- The shared memory, with two histories that the code does not keep: the elements of the pushes that
-- claimed an index, and the elements handed to a consumer, in the order of the exchanges.
pub record Memory {ℓ} (A : Type ℓ) : Type ℓ where
  pub rd : ℕ
  pub wt : ℕ
  pub ct : ℕ
  pub block : Block (Elem A)
  pub sent : List A
  pub received : List A

-- Where a thread stands in `push` or `pop`, with its locals.
pub data Thread {ℓ} (A : Type ℓ) : Type ℓ where
  idle : Thread A  -- before a call and after it has returned
  claiming : (x : A) → Thread A  -- before `ct_` is loaded
  counted : (x : A) (cur_ct : ℕ) → Thread A
  room : (x : A) (cur_ct : ℕ) → Thread A  -- not full, before the exchange of `ct_`
  filling : (x : A) (cur_ct : ℕ) → Thread A  -- has claimed the index
  filled : (cur_ct : ℕ) → Thread A  -- before it sets the commit flag
  settling : (cur_ct : ℕ) → Thread A  -- a turn of the last loop of `push`
  flagged : (cur_ct cac_ct : ℕ) → Thread A  -- the flag is loaded
  placed : (cur_ct cac_ct : ℕ) → Thread A  -- `wt_` is at the element
  committing : (cur_ct cac_ct : ℕ) → Thread A  -- the flag fits, before its exchange
  advancing : (cur_ct : ℕ) → Thread A  -- has taken the flag, before it moves `wt_`
  popping : Thread A  -- `pop`: a turn of its loop
  loaded : (cur_rd : ℕ) → Thread A  -- `rd_` is loaded
  probing : (cur_wt : ℕ) → Thread A  -- the array looks empty
  probed : (cur_wt cac_ct : ℕ) → Thread A  -- the flag at `wt_` fits, before its exchange
  moving : (cur_wt : ℕ) → Thread A  -- has taken the flag, before it moves `wt_`
  copying : (cur_rd : ℕ) → Thread A  -- the array is not empty
  copied : (cur_rd : ℕ) (buff : A) → Thread A  -- before the exchange of `rd_`

module _ {ℓ} {A : Type ℓ} where
  -- The element at the position of an index.
  abbrev pub elem : Memory A → ℕ → Elem A
  elem m c = m.block (index_of c)

  abbrev pub set_flag : Memory A → (c flag : ℕ) → Memory A
  set_flag m c flag = record m {
    block = store m.block (index_of c) (record { item = (elem m c).item; flag = flag });
  }

  -- A weak exchange may also fail where the values agree, hence `claim_again`, `probe_again` and `retry`
  -- have no condition.
  pub data Access (m : Memory A) : Thread A → Memory A → Thread A → Type ℓ where
    call : (x : A) → Access m Thread.idle m (claiming x)
    load_ct : {x : A} → Access m (claiming x) m (counted x m.ct)
    full :
        {x : A} {c : ℕ}
        → index_of (u32 (c + 1)) ≡ index_of m.rd
        → Access m (counted x c) m Thread.idle
    not_full :
        {x : A} {c : ℕ}
        → index_of (u32 (c + 1)) ≢ index_of m.rd
        → Access m (counted x c) m (room x c)
    claim :
        {x : A} {c : ℕ}
        → m.ct ≡ c
        → Access m
            (room x c)
            (record m { ct = u32 (c + 1); sent = m.sent ++ (x ∷ []) })
            (filling x c)
    claim_again : {x : A} {c : ℕ} → Access m (room x c) m (claiming x)
    fill :
        {x : A} {c : ℕ}
        → Access m
            (filling x c)
            (record m {
              block = store m.block (index_of c) (record { item = x; flag = (elem m c).flag });
            })
            (filled c)
    commit : {c : ℕ} → Access m (filled c) (set_flag m c (bit_not 64 c)) (settling c)
    load_flag : {c : ℕ} → Access m (settling c) m (flagged c (elem m c).flag)
    elsewhere : {c f : ℕ} → c ≢ m.wt → Access m (flagged c f) m Thread.idle
    at_wt : {c f : ℕ} → c ≡ m.wt → Access m (flagged c f) m (placed c f)
    not_committed : {c f : ℕ} → bit_not 64 f ≢ c → Access m (placed c f) m Thread.idle
    committed : {c f : ℕ} → bit_not 64 f ≡ c → Access m (placed c f) m (committing c f)
    take_flag :
        {c f : ℕ} → (elem m c).flag ≡ f → Access m (committing c f) (set_flag m c 0) (advancing c)
    lost_flag : {c f : ℕ} → (elem m c).flag ≢ f → Access m (committing c f) m Thread.idle
    advance :
        {c : ℕ} → Access m (advancing c) (record m { wt = u32 (c + 1) }) (settling (u32 (c + 1)))
    call_pop : Access m Thread.idle m popping
    load_rd : Access m popping m (loaded m.rd)
    look_empty : {r : ℕ} → index_of r ≡ index_of m.wt → Access m (loaded r) m (probing m.wt)
    none_left : {w : ℕ} → bit_not 64 (elem m w).flag ≢ w → Access m (probing w) m Thread.idle
    one_committed :
        {w : ℕ} → bit_not 64 (elem m w).flag ≡ w → Access m (probing w) m (probed w (elem m w).flag)
    probe : {w f : ℕ} → (elem m w).flag ≡ f → Access m (probed w f) (set_flag m w 0) (moving w)
    probe_again : {w f : ℕ} → Access m (probed w f) m popping
    move : {w : ℕ} → Access m (moving w) (record m { wt = u32 (w + 1) }) popping
    some_left : {r : ℕ} → index_of r ≢ index_of m.wt → Access m (loaded r) m (copying r)
    copy : {r : ℕ} → Access m (copying r) m (copied r (elem m r).item)
    take :
        {r : ℕ} {x : A}
        → m.rd ≡ r
        → Access m
            (copied r x)
            (record m { rd = u32 (r + 1); received = m.received ++ (x ∷ []) })
            Thread.idle
    retry : {r : ℕ} {x : A} → Access m (copied r x) m popping

pub record System {ℓ} (A : Type ℓ) : Type ℓ where
  pub mem : Memory A
  pub thread : ℕ → Thread A

module _ {ℓ} {A : Type ℓ} where
  pub data Step (s : System A) : System A → Type ℓ where
    step :
        (i : ℕ) {m : Memory A} {t : Thread A}
        → Access s.mem (s.thread i) m t
        → Step s (record { mem = m; thread = store s.thread i t })

  -- Indices at 0 in fresh memory, whose flags are 0, and nobody at work.
  abbrev pub start : (ℕ → A) → System A
  start items = record {
    mem = record {
      rd = 0;
      wt = 0;
      ct = 0;
      block = λ i. record { item = items i; flag = 0 };
      sent = [];
      received = [];
    };
    thread = λ _. Thread.idle;
  }

  pub data Reach (items : ℕ → A) : System A → Type ℓ where
    begin : Reach items (start items)
    next : {s t : System A} → Reach items s → Step s t → Reach items t
