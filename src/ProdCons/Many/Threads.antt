-- ===== src/ProdCons/Many/Threads.antt =====
-- src/libipc/prod_cons.h, `push` of `prod_cons_impl<wr<multi, multi, broadcast>>` by many threads, a shared
-- access at a time, while receivers come and go.
pub mod Clash
use cpp_ipc.Prelude.{
  ℕ, ◌+◌, ◌^◌, ◌<◌, ◌≡◌, ◌≢◌, refl, sym, ap, ◌∙◌, bit_and, bit_or, some, List, [], ◌∷◌, ◌==◌,
  if◌then◌else◌, arith, get_elem?, set,
}
use cpp_ipc.Prelude.Bits.{bit_not}
use cpp_ipc.Circ.{u32, index_of}
use cpp_ipc.Circ.Broadcast
use cpp_ipc.Circ.Broadcast.Connect.{IsTaken}
use cpp_ipc.ProdCons.{store, store_self}
use cpp_ipc.ProdCons.Many.{Channel, Elem, rc_mask, ep_mask, inc_mask}

-- Where `push` stands, with its locals.
pub data Producer {ℓ} (A : Type ℓ) : Type ℓ where
  idle : Producer A
  called : (x : A) (epoch : ℕ) → Producer A  -- a turn of the loop
  counted : (x : A) (epoch cc : ℕ) → Producer A
  located : (x : A) (epoch cc cur_ct : ℕ) → Producer A
  loaded : (x : A) (epoch cc cur_ct cur_rc : ℕ) → Producer A
  checking : (x : A) (epoch cc cur_ct cur_rc : ℕ) → Producer A  -- before the flag is loaded
  marking : (x : A) (epoch cc cur_ct cur_rc : ℕ) → Producer A  -- before the exchange of the counter
  confirming : (x : A) (epoch cur_ct : ℕ) → Producer A  -- before the exchange of the epoch
  counting : (x : A) (cur_ct : ℕ) → Producer A  -- has the element, before it moves the commit index
  writing : (x : A) (cur_ct : ℕ) → Producer A
  committing : (cur_ct : ℕ) → Producer A

abbrev pub rem_cc : ℕ → ℕ
rem_cc rc = u32 (bit_and rc rc_mask)

abbrev pub marked_rc : (epoch cur_rc cc : ℕ) → ℕ
marked_rc epoch rc cc = bit_or (inc_mask (bit_or epoch (bit_and rc ep_mask))) cc

module _ {ℓ} {A : Type ℓ} where
  abbrev pub elem : Channel A → ℕ → Elem A
  elem ch c = ch.block (index_of c)

  abbrev pub write_elem : Channel A → ℕ → Elem A → Channel A
  write_elem ch c e = record ch { block = store ch.block (index_of c) e }

  -- A weak exchange may also fail where the values agree, hence `mark_again` has no condition.
  pub data Push (m : Channel A) : Producer A → Channel A → Producer A → Type ℓ where
    call : (x : A) → Push m Producer.idle m (called x m.epoch)
    no_reader : {x : A} {ep : ℕ} → m.cc ≡ 0 → Push m (called x ep) m Producer.idle
    load_cc : {x : A} {ep : ℕ} → m.cc ≢ 0 → Push m (called x ep) m (counted x ep m.cc)
    load_ct : {x : A} {ep cc : ℕ} → Push m (counted x ep cc) m (located x ep cc m.ct)
    load_rc : {x : A} {ep cc c : ℕ} → Push m (located x ep cc c) m (loaded x ep cc c (elem m c).rc)
    not_finished :
        {x : A} {ep cc c rc : ℕ}
        → bit_and cc (rem_cc rc) ≢ 0
        → bit_and rc (bit_not 64 ep_mask) ≡ ep
        → Push m (loaded x ep cc c rc) m Producer.idle
    finished :
        {x : A} {ep cc c rc : ℕ}
        → rem_cc rc ≡ 0
        → Push m (loaded x ep cc c rc) m (checking x ep cc c rc)
    overtaken :
        {x : A} {ep cc c rc : ℕ}
        → rem_cc rc ≢ 0
        → (bit_and cc (rem_cc rc) ≢ 0 → bit_and rc (bit_not 64 ep_mask) ≢ ep)
        → Push m (loaded x ep cc c rc) m (marking x ep cc c rc)
    full :
        {x : A} {ep cc c rc : ℕ}
        → (elem m c).flag ≢ c
        → (elem m c).flag ≢ 0
        → Push m (checking x ep cc c rc) m Producer.idle
    room :
        {x : A} {ep cc c rc : ℕ}
        → ((elem m c).flag ≢ c → (elem m c).flag ≡ 0)
        → Push m (checking x ep cc c rc) m (marking x ep cc c rc)
    mark :
        {x : A} {ep cc c rc : ℕ}
        → (elem m c).rc ≡ rc
        → Push m
            (marking x ep cc c rc)
            (write_elem m c (record (elem m c) { rc = marked_rc ep rc cc }))
            (confirming x ep c)
    mark_again : {x : A} {ep cc c rc : ℕ} → Push m (marking x ep cc c rc) m (called x ep)
    confirm : {x : A} {ep c : ℕ} → m.epoch ≡ ep → Push m (confirming x ep c) m (counting x c)
    new_epoch : {x : A} {ep c : ℕ} → Push m (confirming x ep c) m (called x m.epoch)
    count : {x : A} {c : ℕ} → Push m (counting x c) (record m { ct = u32 (c + 1) }) (writing x c)
    write :
        {x : A} {c : ℕ}
        → Push m (writing x c) (write_elem m c (record (elem m c) { item = x })) (committing c)
    commit :
        {c : ℕ}
        → Push m
            (committing c)
            (write_elem m c (record (elem m c) { flag = bit_not 64 c }))
            Producer.idle

pub record System {ℓ} (A : Type ℓ) : Type ℓ where
  pub chan : Channel A
  pub producers : List (Producer A)

module _ {ℓ} {A : Type ℓ} where
  -- An access of a producer, or a receiver that joins or receivers that leave.
  pub data Step (s : System A) : System A → Type ℓ where
    produce :
        (i : ℕ) {m : Channel A} {p p' : Producer A}
        → get_elem? s.producers i ≡ some p
        → Push s.chan p m p'
        → Step s (record { chan = m; producers = set s.producers i p' })
    join :
        {id next : ℕ}
        → IsTaken s.chan.cc id next
        → Step s (record s { chan = record s.chan { cc = next } })
    leave :
        (ids : ℕ)
        → Step s (record s { chan = record s.chan { cc = Broadcast.disconnect s.chan.cc ids } })

  pub data Reach (s : System A) : System A → Type ℓ where
    here : Reach s s
    after : {m e : System A} → Reach s m → Step m e → Reach s e
