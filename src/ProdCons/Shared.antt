-- ===== src/ProdCons/Shared.antt =====
-- src/libipc/prod_cons.h, `prod_cons_impl<wr<single, multi, unicast>>`: one producer and any number of
-- consumers, a shared access at a time. `push` is that of the single consumer; `pop` copies the element
-- and takes it by a compare-exchange of the read index.
pub mod Invariant
pub mod Fifo
use cpp_ipc.Prelude.{
  ℕ, ◌+◌, ◌-◌, ◌^◌, ◌≡◌, ◌≢◌, Bool, false, List, [], ◌∷◌, ◌++◌, ◌==◌, if◌then◌else◌,
}
use cpp_ipc.Circ.{u32, index_of}
use cpp_ipc.Circ.Unicast
use cpp_ipc.ProdCons.{Block, store}

-- The shared memory, with two histories that the code does not keep: the elements published, and
-- the elements handed to a consumer, in the order of the exchanges.
pub record Memory {ℓ} (A : Type ℓ) : Type ℓ where
  pub rd : ℕ
  pub wt : ℕ
  pub block : Block A
  pub sent : List A
  pub received : List A

-- Where `push` stands, with its locals.
pub data Producer {ℓ} (A : Type ℓ) : Type ℓ where
  idle : Producer A
  checking : (x : A) (cur_wt : ℕ) → Producer A  -- `wt_` is loaded
  writing : (x : A) (cur_wt : ℕ) → Producer A  -- the array was not full
  written : (x : A) (cur_wt : ℕ) → Producer A  -- before `wt_.fetch_add`

-- Where `pop` stands, with its locals.
pub data Consumer {ℓ} (A : Type ℓ) : Type ℓ where
  idle : Consumer A
  loaded : (cur_rd : ℕ) → Consumer A
  copying : (cur_rd : ℕ) → Consumer A  -- the array was not empty
  copied : (cur_rd : ℕ) (buff : A) → Consumer A  -- before the exchange

pub record System {ℓ} (A : Type ℓ) : Type ℓ where
  pub mem : Memory A
  pub producer : Producer A
  pub consumer : ℕ → Consumer A

module _ {ℓ} {A : Type ℓ} where
  pub data Push (m : Memory A) : Producer A → Memory A → Producer A → Type ℓ where
    call : (x : A) → Push m Producer.idle m (checking x m.wt)
    full :
        {x : A} {w : ℕ}
        → index_of w ≡ index_of (u32 (m.rd + 2 ^ 32 - 1))
        → Push m (checking x w) m Producer.idle
    room :
        {x : A} {w : ℕ}
        → index_of w ≢ index_of (u32 (m.rd + 2 ^ 32 - 1))
        → Push m (checking x w) m (writing x w)
    write :
        {x : A} {w : ℕ}
        → Push m (writing x w) (record m { block = store m.block (index_of w) x }) (written x w)
    publish :
        {x : A} {w : ℕ}
        → Push m
            (written x w)
            (record m { wt = u32 (m.wt + 1); sent = m.sent ++ (x ∷ []) })
            Producer.idle

  -- A weak exchange may also fail where the values agree, hence `retry` has no condition.
  pub data Pop (m : Memory A) : Consumer A → Memory A → Consumer A → Type ℓ where
    load : Pop m Consumer.idle m (loaded m.rd)
    none_left : {r : ℕ} → index_of r ≡ index_of m.wt → Pop m (loaded r) m Consumer.idle
    some_left : {r : ℕ} → index_of r ≢ index_of m.wt → Pop m (loaded r) m (copying r)
    copy : {r : ℕ} → Pop m (copying r) m (copied r (m.block (index_of r)))
    take :
        {r : ℕ} {x : A}
        → m.rd ≡ r
        → Pop m
            (copied r x)
            (record m { rd = u32 (r + 1); received = m.received ++ (x ∷ []) })
            Consumer.idle
    retry : {r : ℕ} {x : A} → Pop m (copied r x) m Consumer.idle

  abbrev pub update : (ℕ → Consumer A) → ℕ → Consumer A → ℕ → Consumer A
  update f i c j = if i == j then c else f j

  pub data Step (s : System A) : System A → Type ℓ where
    produce :
        {m : Memory A} {p : Producer A}
        → Push s.mem s.producer m p
        → Step s (record s { mem = m; producer = p })
    consume :
        (i : ℕ) {m : Memory A} {c : Consumer A}
        → Pop s.mem (s.consumer i) m c
        → Step s (record s { mem = m; consumer = update s.consumer i c })

  -- Indices at 0 in an array of any content, and nobody at work.
  abbrev pub start : Block A → System A
  start block = record {
    mem = record { rd = 0; wt = 0; block = block; sent = []; received = [] };
    producer = Producer.idle;
    consumer = λ _. Consumer.idle;
  }

  pub data Reach (block : Block A) : System A → Type ℓ where
    begin : Reach block (start block)
    next : {s t : System A} → Reach block s → Step s t → Reach block t

-- `force_push` with several consumers counts one connection down, and fails.
pub force_push : ℕ → Bool × ℕ
force_push cc = (false, Unicast.disconnect cc 1)
