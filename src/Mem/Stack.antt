-- ===== src/Mem/Stack.antt =====
-- include/libipc/concur/intrusive_stack.h: `push` and `pop` of threads at once, by their accesses.
-- A node is the number of its address, 0 the null pointer.
pub mod Once
use cpp_ipc.Prelude.{
  ℕ, ◌≡◌, ◌≢◌, refl, sym, ap, ◌∙◌, arith, some, List, [], ◌∷◌, ◌==◌, get_elem?, set, true,
}
use cpp_ipc.Mem.Cache.{update}

pub record Stack : Type 0 where
  pub top : ℕ
  pub next : ℕ → ℕ

-- Where a thread stands in `push` and `pop`, with the node it owns and what it has read.
pub data Thread : Type 0 where
  idle : Thread
  owner : (n : ℕ) → Thread  -- has a node that `pop` returned
  pushing : (n old_top : ℕ) → Thread  -- before `n->next.store(old_top)`
  linked : (n old_top : ℕ) → Thread  -- before the exchange of `push`
  popping : (old_top : ℕ) → Thread  -- before it reads `old_top->next`
  unlinking : (old_top next : ℕ) → Thread  -- before the exchange of `pop`

-- An exchange may also fail where the top is the one expected.
pub data Access : Stack → Thread → Stack → Thread → Type 0 where
  push_load : {s : Stack} {n : ℕ} → Access s (owner n) s (pushing n s.top)
  push_store :
      {s : Stack} {n old : ℕ}
      → Access s (pushing n old) (record s { next = update s.next n old }) (linked n old)
  push_exchange :
      {s : Stack} {n old : ℕ} → s.top ≡ old → Access s (linked n old) (record s { top = n }) idle
  push_again : {s : Stack} {n old : ℕ} → Access s (linked n old) s (pushing n s.top)
  pop_load : {s : Stack} → Access s idle s (popping s.top)
  pop_empty : {s : Stack} {old : ℕ} → old ≡ 0 → Access s (popping old) s idle
  pop_next : {s : Stack} {old : ℕ} → old ≢ 0 → Access s (popping old) s (unlinking old (s.next old))
  pop_exchange :
      {s : Stack} {old next : ℕ}
      → s.top ≡ old
      → Access s (unlinking old next) (record s { top = next }) (owner old)
  pop_again : {s : Stack} {old next : ℕ} → Access s (unlinking old next) s (popping s.top)

pub record System : Type 0 where
  pub stack : Stack
  pub threads : List Thread

pub data Step (s : System) : System → Type 0 where
  access :
      (i : ℕ) {t t' : Thread} {e : Stack}
      → get_elem? s.threads i ≡ some t
      → Access s.stack t e t'
      → Step s (record { stack = e; threads = set s.threads i t' })

pub data Reach (s : System) : System → Type 0 where
  here : Reach s s
  after : {m e : System} → Reach s m → Step m e → Reach s e

-- Four threads at a stack whose first nodes are `a` and `b`.
abbrev pub start : (a b : ℕ) (f : ℕ → ℕ) → System
start a b f = record {
  stack = record { top = a; next = update f a b };
  threads = idle ∷ idle ∷ idle ∷ idle ∷ [];
}

-- Where the top of a stack is a node with another one below it, there is an interleaving of four
-- calls of `pop` with one of `push`, which pushes a node that one of them returned, after which
-- two threads have the other node.
pub popped_twice :
    (a b : ℕ) (f : ℕ → ℕ)
    → a ≢ 0
    → b ≢ 0
    → (s : System) × Reach (start a b f) s
      × (get_elem? s.threads 2 ≡ some (owner b))
      × (get_elem? s.threads 3 ≡ some (owner b))
popped_twice a b f a_there b_there =
    let below : update f a b a ≡ b = let e : (a == a) ≡ true = ground arith in rw e refl in
    let next_there : update f a b a ≢ 0 = λ z. b_there (sym below ∙ z) in
    let slow = after (after here (access 0 refl pop_load)) (access 0 refl (pop_next a_there)) in
    let first =
      after (after (after slow (access 1 refl pop_load)) (access 1 refl (pop_next a_there)))
        (access 1 refl (pop_exchange refl)) in
    let second =
      after (after (after first (access 2 refl pop_load)) (access 2 refl (pop_next next_there)))
        (access 2 refl (pop_exchange refl)) in
    let back =
      after (after (after second (access 1 refl push_load)) (access 1 refl push_store))
        (access 1 refl (push_exchange refl)) in
    let stale = after back (access 0 refl (pop_exchange refl)) in
    let third =
      after (after (after stale (access 3 refl pop_load)) (access 3 refl (pop_next next_there)))
        (access 3 refl (pop_exchange refl)) in
    (_, third, ap (λ q. some (owner q)) below, ap (λ q. some (owner q)) below)
