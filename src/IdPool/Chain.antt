-- ===== src/IdPool/Chain.antt =====
-- The free list of a pool: what `next_` and `cursor_` spell out, and how each operation moves it.
use cpp_ipc.Prelude.{
  ℕ, zero, suc, ◌+◌, ◌<◌, ◌≡◌, ◌≢◌, refl, true, false, List, [], ◌∷◌, arith, length, get_or, set,
  length-set, get_or-set_self, get_or-set_ne, All, replicate,
}
use cpp_ipc.Prelude.Int.{pos, negsuc}
use cpp_ipc.IdPool.{IdPool, max_count, prepare, acquire, release}

-- From `c` the links of `next` go through exactly the ids of `free`, and end at `max_count`.
abbrev pub Links : List ℕ → ℕ → List ℕ → Type 0
Links next c [] = c ≡ max_count
Links next c (x ∷ xs) = (c ≡ x) × (x < max_count) × Links next (get_or next x 0) xs

-- The pool's free ids are those of `free`, first the one that is handed out next.
pub record IsFree (p : IdPool) (free : List ℕ) : Type 0 where
  pub size : length p.next ≡ max_count
  pub links : Links p.next p.cursor free
  pub ready : p.prepared ≡ true

abbrev pub upto : ℕ → ℕ → List ℕ
upto i zero = []
upto i (suc n) = i ∷ upto (i + 1) n

-- The pool in freshly mapped shared memory: every byte is zero.
abbrev pub zeroed : IdPool
zeroed = record { next = replicate max_count 0; cursor = 0; prepared = false }

-- The first `prepare` of a zeroed pool frees every id, in order.
pub prepare-zeroed : IsFree (prepare zeroed) (upto 0 max_count)
unfolding prepare
prepare-zeroed = record { size = refl; links = omega arith; ready = refl }

-- Writing a link of an id outside the list leaves the list alone.
Links-set :
    (next free : List ℕ) (c x v : ℕ)
    → All (λ y. y ≢ x) free
    → Links next c free
    → Links (set next x v) c free
Links-set next [] c x v h l = l
Links-set next (y ∷ ys) c x v h l = (
  l.0,
  l.1,
  rw (get_or-set_ne next {i = x} {j = y} v 0 (λ e. h.0 (omega arith)))
      (Links-set next ys (get_or next y 0) x v h.1 l.2),
)

-- `acquire` takes the first free id; on an empty pool it returns -1 and changes nothing.
pub acquire-IsFree :
    {p : IdPool} (x : ℕ) (free : List ℕ)
    → IsFree p (x ∷ free)
    → ((acquire p).0 ≡ pos x) × IsFree (acquire p).1 free
unfolding acquire
acquire-IsFree x free f = ground arith

pub acquire-empty : {p : IdPool} → IsFree p [] → acquire p ≡ (negsuc 0, p)
unfolding acquire
acquire-empty f = ground arith

-- `release` of an id that is not free puts it first.
pub release-IsFree :
    {p : IdPool} (x : ℕ) (free : List ℕ)
    → IsFree p free
    → x < max_count
    → All (λ y. y ≢ x) free
    → ((release p (pos x)).0 ≡ true) × IsFree (release p (pos x)).1 (x ∷ free)
unfolding release
release-IsFree {p} x free f h fresh = (
  refl,
  record {
    size = omega (arith, length-set p.next x p.cursor, f.size);
    links = (
      omega arith,
      h,
      rw (get_or-set_self p.next x p.cursor 0 (omega (arith, f.size)))
          (Links-set p.next free p.cursor x p.cursor fresh f.links),
    );
    ready = f.ready;
  },
)

-- Once prepared, a pool is not initialised again.
pub prepare_again : {p : IdPool} (free : List ℕ) → IsFree p free → prepare p ≡ p
unfolding prepare
prepare_again free f = ground (arith, f.ready)
