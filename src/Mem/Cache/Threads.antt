-- ===== src/Mem/Cache/Threads.antt =====
-- include/libipc/mem/central_cache_pool.h: the calls of threads at once, by accesses of the shared
-- stacks and of `value` of a node. The stacks are lists of nodes, the top first.
use cpp_ipc.Prelude.{ℕ, ◌≡◌, ◌≢◌, refl, ap, arith, some, List, [], ◌∷◌, ◌==◌, get_elem?, set, true}
use cpp_ipc.Mem.Cache.{Cache, update}

-- Where a thread stands in `aqueire` and `release`, with its node and its list.
pub data Thread : Type 0 where
  without : Thread
  taking : (n : ℕ) → Thread  -- `aqueire`, before the push to `aqueired_`
  reading : (n : ℕ) → Thread  -- `aqueire`, before it reads `n->value`
  owner : (p : ℕ) → Thread  -- has the list
  storing : (a p : ℕ) → Thread  -- `release`, before `a->value = p`
  caching : (a : ℕ) → Thread  -- `release`, before the push to `cached_`

pub data Access : Cache → Thread → Cache → Thread → Type 0 where
  take :
      {c : Cache} {n : ℕ} {rest : List ℕ}
      → c.cached ≡ n ∷ rest
      → Access c without (record c { cached = rest }) (taking n)
  put :
      {c : Cache} {n : ℕ} → Access c (taking n) (record c { aqueired = n ∷ c.aqueired }) (reading n)
  read : {c : Cache} {n : ℕ} → Access c (reading n) c (owner (c.value n))
  chunk : {c : Cache} (p : ℕ) → c.cached ≡ [] → p ≢ 0 → Access c without c (owner p)
  reuse :
      {c : Cache} {a p : ℕ} {rest : List ℕ}
      → c.aqueired ≡ a ∷ rest
      → Access c (owner p) (record c { aqueired = rest }) (storing a p)
  construct :
      {c : Cache} {p : ℕ} (a : ℕ) → c.aqueired ≡ [] → a ≢ 0 → Access c (owner p) c (storing a p)
  store :
      {c : Cache} {a p : ℕ}
      → Access c (storing a p) (record c { value = update c.value a p }) (caching a)
  cache : {c : Cache} {a : ℕ} → Access c (caching a) (record c { cached = a ∷ c.cached }) without

pub record System : Type 0 where
  pub pool : Cache
  pub threads : List Thread

pub data Step (s : System) : System → Type 0 where
  access :
      (i : ℕ) {t t' : Thread} {c : Cache}
      → get_elem? s.threads i ≡ some t
      → Access s.pool t c t'
      → Step s (record { pool = c; threads = set s.threads i t' })

pub data Reach (s : System) : System → Type 0 where
  here : Reach s s
  after : {m e : System} → Reach s m → Step m e → Reach s e

-- A thread takes a list from the cache while another gives one back, and a third comes after them.
abbrev pub start : (n p : ℕ) (f : ℕ → ℕ) → System
start n p f = record {
  pool = record { cached = n ∷ []; aqueired = []; value = f };
  threads = without ∷ owner p ∷ without ∷ [];
}

-- With a list in the cache and a thread that has another, there is an interleaving of two calls of
-- `aqueire` with one of `release` after which two threads have the list that was released.
pub two_owners :
    (n p : ℕ) (f : ℕ → ℕ)
    → (s : System) × Reach (start n p f) s
      × (get_elem? s.threads 0 ≡ some (owner p))
      × (get_elem? s.threads 2 ≡ some (owner p))
two_owners n p f =
    let same : update f n p n ≡ p = let e : (n == n) ≡ true = ground arith in rw e refl in
    let before =
      after (after (after here (access 0 refl (take refl))) (access 0 refl put))
        (access 1 refl (reuse refl)) in
    let given_back = after (after before (access 1 refl store)) (access 1 refl cache) in
    let both =
      after
        (after (after (after given_back (access 0 refl read)) (access 2 refl (take refl)))
          (access 2 refl put))
        (access 2 refl read) in
    (_, both, ap (λ q. some (owner q)) same, ap (λ q. some (owner q)) same)
