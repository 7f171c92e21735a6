-- ===== src/IdPool/Clients.antt =====
-- The pool among its clients: any sequence of `acquire` and of `release` of ids that are held.
use cpp_ipc.Prelude.{
  ℕ, zero, suc, ◌+◌, ◌<◌, ◌≡◌, ◌≢◌, refl, List, [], ◌∷◌, ◌++◌, ap, arith, ◌==◌, ltb, if◌then◌else◌,
  All,
}
use cpp_ipc.Prelude.Int.{pos, negsuc}
use cpp_ipc.IdPool.{IdPool, max_count, prepare, acquire, release}
use cpp_ipc.IdPool.Chain.{
  IsFree, zeroed, upto, prepare-zeroed, acquire-IsFree, acquire-empty, release-IsFree,
}

pub count : ℕ → List ℕ → ℕ
count x [] = 0
count x (y ∷ ys) = (if x == y then 1 else 0) + count x ys

pub count-append : (x : ℕ) (xs ys : List ℕ) → count x (xs ++ ys) ≡ count x xs + count x ys
unfolding count
count-append x [] ys = omega arith
count-append x (y ∷ xs) ys = omega (arith, count-append x xs ys)

pub record Usage : Type 0 where
  pub pool : IdPool
  pub held : List ℕ

abbrev pub start : Usage
start = record { pool = prepare zeroed; held = [] }

-- What clients may do: take an id, find none, or give back one of the ids that they hold.
pub data Step (s : Usage) : Usage → Type 0 where
  take :
      (x : ℕ)
      → (acquire s.pool).0 ≡ pos x
      → Step s (record { pool = (acquire s.pool).1; held = x ∷ s.held })
  refused :
      (n : ℕ) → (acquire s.pool).0 ≡ negsuc n → Step s (record s { pool = (acquire s.pool).1 })
  give :
      (x : ℕ) (before after : List ℕ)
      → s.held ≡ before ++ (x ∷ after)
      → Step s (record { pool = (release s.pool (pos x)).1; held = before ++ after })

pub data Reach : Usage → Type 0 where
  begin : Reach start
  next : {s t : Usage} → Reach s → Step s t → Reach t

-- Every id below `max_count` is either held or free, once, and no other number is.
pub record IsShared (s : Usage) : Type 0 where
  pub free : List ℕ
  pub chain : IsFree s.pool free
  pub once : (x : ℕ) → count x s.held + count x free ≡ (if ltb x max_count then 1 else 0)

fresh_of_count : (x : ℕ) (ys : List ℕ) → count x ys ≡ 0 → All (λ y. y ≢ x) ys
unfolding count
fresh_of_count x [] h = tt
fresh_of_count x (y ∷ ys) h = ((λ e. ground arith), fresh_of_count x ys (omega arith))

count-upto :
    (x i n : ℕ) → count x (upto i n) ≡ (if ltb x i then 0 else if ltb x (i + n) then 1 else 0)
unfolding count
count-upto x i zero = ground arith
count-upto x i (suc n) = ground (arith, count-upto x (i + 1) n)

count-nil : (x : ℕ) → count x [] ≡ 0
unfolding count
count-nil x = refl

count-cons : (x y : ℕ) (ys : List ℕ) → count x (y ∷ ys) ≡ (if x == y then 1 else 0) + count x ys
unfolding count
count-cons x y ys = refl

count_middle :
    (y x : ℕ) (before after : List ℕ)
    → count y (before ++ (x ∷ after)) ≡ count y (before ++ after) + (if y == x then 1 else 0)
count_middle y x before after = rw (count-append, count-append, count-cons) (omega arith)

IsShared-start : IsShared start
IsShared-start = record {
  free = upto 0 max_count;
  chain = prepare-zeroed;
  once = λ x. rw count-nil (ground (arith, count-upto x 0 max_count));
}

module _ {s : Usage} (i : IsShared s) where
  -- An id that `acquire` returns is the first of the free ones.
  acquired :
      (x : ℕ) (free : List ℕ)
      → i.free ≡ free
      → (acquire s.pool).0 ≡ pos x
      → (rest : List ℕ) × (i.free ≡ x ∷ rest) × IsFree (acquire s.pool).1 rest
  acquired x [] e h = cc (acquire-empty {p = s.pool} (rw e at i.chain))
  acquired x (y ∷ ys) e h =
      let (got, chain) = acquire-IsFree {p = s.pool} y ys (rw e at i.chain) in (ys, cc, chain)

  -- When `acquire` returns no id, none is free and the pool is as it was.
  exhausted :
      (n : ℕ) (free : List ℕ)
      → i.free ≡ free
      → (acquire s.pool).0 ≡ negsuc n
      → (i.free ≡ []) × ((acquire s.pool).1 ≡ s.pool)
  exhausted n [] e h = (e, ap (λ r. r.1) (acquire-empty {p = s.pool} (rw e at i.chain)))
  exhausted n (y ∷ ys) e h = cc (acquire-IsFree {p = s.pool} y ys (rw e at i.chain)).0

  take-IsShared :
      (x : ℕ)
      → (acquire s.pool).0 ≡ pos x
      → IsShared (record { pool = (acquire s.pool).1; held = x ∷ s.held })
  take-IsShared x h =
      let (rest, e, chain) = acquired x i.free refl h in
      record {
        free = rest;
        chain = chain;
        once = λ y.
            omega (arith, i.once y, count-cons y x s.held, count-cons y x rest, ap (count y) e);
      }

  give-IsShared :
      (x : ℕ) (before after : List ℕ)
      → s.held ≡ before ++ (x ∷ after)
      → IsShared (record { pool = (release s.pool (pos x)).1; held = before ++ after })
  give-IsShared x before after e =
      let in_range : (x < max_count) × (count x i.free ≡ 0) =
        ground (arith, i.once x, ap (count x) e, count_middle x x before after) in
      let (done, chain) =
        release-IsFree {p = s.pool} x i.free i.chain in_range.0
          (fresh_of_count x i.free in_range.1) in
      record {
        free = x ∷ i.free;
        chain = chain;
        once = λ y.
            omega (
              arith,
              i.once y,
              ap (count y) e,
              count_middle y x before after,
              count-cons y x i.free,
            );
      }

Step-IsShared : {s t : Usage} → IsShared s → Step s t → IsShared t
Step-IsShared i (take x h) = take-IsShared i x h
Step-IsShared {s} i (refused n h) = rw (exhausted i n i.free refl h).1 i
Step-IsShared i (give x before after e) = give-IsShared i x before after e

Reach-IsShared : {s : Usage} → Reach s → IsShared s
Reach-IsShared begin = IsShared-start
Reach-IsShared (next r st) = Step-IsShared (Reach-IsShared r) st

-- In every reachable state of the pool and its clients, an id that `acquire` returns is in range
-- and held by no client.
pub acquire_exclusive :
    {s : Usage} (x : ℕ)
    → Reach s
    → (acquire s.pool).0 ≡ pos x
    → (x < max_count) × (count x s.held ≡ 0)
acquire_exclusive {s} x r h =
    let (rest, e, chain) = acquired (Reach-IsShared r) x (Reach-IsShared r).free refl h in
    ground (arith, (Reach-IsShared r).once x, ap (count x) e, count-cons x x rest)

-- In every reachable state, `acquire` returns -1 only when every chunk number is held.
pub acquire_exhausted :
    {s : Usage} (n : ℕ)
    → Reach s
    → (acquire s.pool).0 ≡ negsuc n
    → (x : ℕ) → x < max_count
    → count x s.held ≡ 1
acquire_exhausted {s} n r h x lt =
    let i = Reach-IsShared r in
    let (e, same) = exhausted i n i.free refl h in
    ground (arith, i.once x, ap (count x) e, count-nil x)
