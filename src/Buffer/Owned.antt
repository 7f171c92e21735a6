-- ===== src/Buffer/Owned.antt =====
-- src/libipc/buffer.cpp: the memory of each buffer is freed once.
use mathlib.Core.Option.{some-injective, none-ne-some}
use cpp_ipc.Prelude.{
  ℕ, zero, suc, ◌+◌, ◌≡◌, refl, sym, ap, ◌∙◌, arith, some, List, [], ◌∷◌, get_elem?, set,
  get_elem?-set_self, get_elem?-set_ne, get_elem?-lt, ℕ_discrete, Option-cases, inl, inr,
}
use cpp_ipc.RwLock.Tally.{tally, tally-set}
use cpp_ipc.Buffer.{
  Call, Buffer, empty_buffer, destroy, Program, logged, swap_out, make, move_from, assign, swap,
  remove_at, drop,
}

-- A weight of the call that will free the memory of a buffer.
abbrev pub cost : (Call → ℕ) → Buffer → ℕ
cost f b = tally f (destroy b)

tally-logged :
    (f : Call → ℕ) (cs log : List Call) → tally f (logged cs log) ≡ tally f cs + tally f log
tally-logged f [] log = omega arith
tally-logged f (c ∷ cs) log = omega (arith, tally-logged f cs (c ∷ log))

tally-remove_at :
    (f : Buffer → ℕ) (bs : List Buffer) (i : ℕ) (b : Buffer)
    → get_elem? bs i ≡ some b
    → tally f (remove_at bs i) + f b ≡ tally f bs
tally-remove_at f [] i b h = absurd (none-ne-some b h)
tally-remove_at f (c ∷ bs) zero b h = omega (arith, ap f (some-injective c b h))
tally-remove_at f (c ∷ bs) (suc i) b h = omega (arith, tally-remove_at f bs i b h)

pub balance : (Call → ℕ) → Program → ℕ
balance f g = tally (cost f) g.buffers + tally f g.calls

empty_cost : (f : Call → ℕ) → cost f empty_buffer ≡ 0
unfolding destroy
empty_cost f = refl

swap_out-tally :
    (f : Call → ℕ) (i : ℕ) (b old : Buffer) (bs bs' : List Buffer)
    → swap_out i b bs ≡ some (old, bs')
    → tally (cost f) bs' + cost f old ≡ tally (cost f) bs + cost f b
unfolding swap_out
swap_out-tally f i b old bs bs' e = elim (Option-cases (get_elem? bs i)) [
  | inl out ↦ absurd (none-ne-some (old, bs') (rw (swap_out, out) at e))
  | inr (c, at) ↦
      let both = some-injective (c, set bs i b) (old, bs') (rw (swap_out, at) at e) in
      omega (
        arith,
        tally-set (cost f) bs i c b at,
        ap (λ (r : Buffer × List Buffer). cost f r.0) both,
        ap (λ (r : Buffer × List Buffer). tally (cost f) r.1) both,
      )
]

drop-balance :
    (f : Call → ℕ) (i : ℕ) (g g' : Program) → drop i g ≡ some g' → balance f g' ≡ balance f g
unfolding drop balance
drop-balance f i g g' e = elim (Option-cases (get_elem? g.buffers i)) [
  | inl out ↦ absurd (none-ne-some g' (rw (drop, out) at e))
  | inr (b, at) ↦
      let same =
        some-injective
          (record { buffers = remove_at g.buffers i; calls = logged (destroy b) g.calls }) g'
          (rw (drop, at) at e) in
      omega (
        arith,
        tally-remove_at (cost f) g.buffers i b at,
        tally-logged f (destroy b) g.calls,
        ap (balance f) same,
      )
]

move_from-balance :
    (f : Call → ℕ) (j : ℕ) (g g' : Program) → move_from j g ≡ some g' → balance f g' ≡ balance f g
unfolding move_from balance
move_from-balance f j g g' e = elim (Option-cases (swap_out j empty_buffer g.buffers)) [
  | inl out ↦ absurd (none-ne-some g' (rw (move_from, out) at e))
  | inr ((taken, bs), at) ↦
      let same = some-injective (record g { buffers = taken ∷ bs }) g' (rw (move_from, at) at e) in
      omega (
        arith,
        swap_out-tally f j empty_buffer taken g.buffers bs at,
        empty_cost f,
        ap (balance f) same,
      )
]

assign-balance :
    (f : Call → ℕ) (i j : ℕ) (g g' : Program) → assign i j g ≡ some g' → balance f g' ≡ balance f g
unfolding assign balance
assign-balance f i j g g' e = elim (Option-cases (swap_out j empty_buffer g.buffers)) [
  | inl out ↦ absurd (none-ne-some g' (rw (assign, out) at e))
  | inr ((rhs, bs), at) ↦ elim (Option-cases (swap_out i rhs bs)) [
    | inl out ↦ absurd (none-ne-some g' (rw (assign, at, out) at e))
    | inr ((old, bs'), there) ↦
        let same =
          some-injective (record { buffers = bs'; calls = logged (destroy old) g.calls }) g'
            (rw (assign, at, there) at e) in
        omega (
          arith,
          swap_out-tally f j empty_buffer rhs g.buffers bs at,
          swap_out-tally f i rhs old bs bs' there,
          empty_cost f,
          tally-logged f (destroy old) g.calls,
          ap (balance f) same,
        )
  ]
]

-- `set` at a place that was just set, or at another one.
get_set :
    (bs : List Buffer) (i j : ℕ) (a b : Buffer)
    → get_elem? bs i ≡ some a
    → get_elem? bs j ≡ some b
    → get_elem? (set bs i b) j ≡ some b
get_set bs i j a b at_i at_j = elim (ℕ_discrete i j) [
  | yes same ↦ rw (sym same) (get_elem?-set_self bs i b (get_elem?-lt bs i a at_i))
  | no other ↦ get_elem?-set_ne bs b other ∙ at_j
]

swap-balance :
    (f : Call → ℕ) (i j : ℕ) (g g' : Program) → swap i j g ≡ some g' → balance f g' ≡ balance f g
unfolding swap balance
swap-balance f i j g g' e = elim (Option-cases (get_elem? g.buffers i)) [
  | inl out ↦ absurd (none-ne-some g' (rw (swap, out) at e))
  | inr (a, at_i) ↦ elim (Option-cases (get_elem? g.buffers j)) [
    | inl out ↦ absurd (none-ne-some g' (rw (swap, at_i, out) at e))
    | inr (b, at_j) ↦
        let same =
          some-injective (record g { buffers = set (set g.buffers i b) j a }) g'
            (rw (swap, at_i, at_j) at e) in
        omega (
          arith,
          tally-set (cost f) g.buffers i a b at_i,
          tally-set (cost f) (set g.buffers i b) j b a (get_set g.buffers i j a b at_i at_j),
          ap (balance f) same,
        )
  ]
]

-- A run of a program, with the calls that its buffers were made for.
pub data Reach : Program → List Call → Type 0 where
  start : Reach (record { buffers = []; calls = [] }) []
  made :
      {g : Program} {due : List Call} (b : Buffer)
      → Reach g due
      → Reach (make b g) (logged (destroy b) due)
  moved :
      {g g' : Program} {due : List Call} (j : ℕ)
      → Reach g due
      → move_from j g ≡ some g'
      → Reach g' due
  assigned :
      {g g' : Program} {due : List Call} (i j : ℕ)
      → Reach g due
      → assign i j g ≡ some g'
      → Reach g' due
  swapped :
      {g g' : Program} {due : List Call} (i j : ℕ)
      → Reach g due
      → swap i j g ≡ some g'
      → Reach g' due
  dropped :
      {g g' : Program} {due : List Call} (i : ℕ) → Reach g due → drop i g ≡ some g' → Reach g' due

-- After any buffers are made, moved, assigned, swapped and destroyed, the calls of destructors so
-- far together with those that the buffers still owe are the calls that the buffers were made for,
-- each as often, by the sum of any weight of a call: no memory is freed twice or left.
pub freed_once :
    {g : Program} {due : List Call} (f : Call → ℕ)
    → Reach g due
    → tally (λ b. tally f (destroy b)) g.buffers + tally f g.calls ≡ tally f due
unfolding balance make
freed_once f start = refl
freed_once f (made {g} {due} b run) =
    omega (arith, freed_once f run, tally-logged f (destroy b) due)
freed_once f (moved {g} {g'} j run e) = move_from-balance f j g g' e ∙ freed_once f run
freed_once f (assigned {g} {g'} i j run e) = assign-balance f i j g g' e ∙ freed_once f run
freed_once f (swapped {g} {g'} i j run e) = swap-balance f i j g g' e ∙ freed_once f run
freed_once f (dropped {g} {g'} i run e) = drop-balance f i g g' e ∙ freed_once f run
