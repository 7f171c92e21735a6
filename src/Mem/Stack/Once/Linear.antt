-- ===== src/Mem/Stack/Once/Linear.antt =====
-- include/libipc/concur/intrusive_stack.h: runs in which no node is pushed twice are those of a stack.
use mathlib.Core.Path.{subst}
use mathlib.Core.Option.{none-ne-some}
use cpp_ipc.Prelude.{
  ℕ, ◌≡◌, ◌≢◌, inl, inr, refl, ap, arith, ◌==◌, All, Distinct, Bool-cases, ℕ_discrete,
}
use cpp_ipc.ProdCons.{store}
use cpp_ipc.Mem.Pool.Chain.{Chain}
use cpp_ipc.Mem.Stack.{Thread, owner}
use cpp_ipc.Mem.Stack.Once.{World, Moves, Reach, here, after, start, holds, Apart, Doing, IsStack}
use cpp_ipc.Mem.Stack.Once.Grows.{Kept, not_live}
use cpp_ipc.Mem.Stack.Once.Kept.{Moves-Kept}

record Inv (w : World) : Type 0 where
  stack : IsStack w
  doing : (i : ℕ) → Doing w (w.thread i)
  apart : (i j : ℕ) → i ≢ j → Apart (w.thread i) (w.thread j)

Inv-start : Inv start
unfolding Chain
Inv-start = record {
  stack = record { links = refl; stacked = tt; distinct = tt };
  doing = λ i. tt;
  apart = λ i j ne n e. absurd (none-ne-some n e);
}

Doing-thread :
    (w : World) (f : ℕ → Thread) (d : Thread) → Doing w d → Doing (record w { thread = f }) d
Doing-thread w f Thread.idle h = h
Doing-thread w f (owner n) h = h
Doing-thread w f (Thread.pushing n old) h = h
Doing-thread w f (Thread.linked n old) h = h
Doing-thread w f (Thread.popping old) h = h
Doing-thread w f (Thread.unlinking old next) h = h

Moves-Inv :
    {w : World} (i : ℕ) {v : World} {t : Thread}
    → Moves w (w.thread i) v t
    → Inv w
    → Inv (record v { thread = store w.thread i t })
Moves-Inv {w} i {v} {t} moves before = record {
  stack = record { links = k.stack.links; stacked = k.stack.stacked; distinct = k.stack.distinct };
  doing = λ j. Doing-thread v (store w.thread i t) (store w.thread i t j) (at j);
  apart = λ a b ne. elim (Bool-cases (i == a)) [
    | inl same ↦ elim (Bool-cases (i == b)) [
      | inl also ↦ absurd (ne (ground arith))
      | inr other ↦ rw (same, other) (with_own b (ground arith))
    ]
    | inr elsewhere ↦ elim (Bool-cases (i == b)) [
      | inl same ↦ rw (elsewhere, same) (λ n e e'. with_own a (ground arith) n e' e)
      | inr other ↦ rw (elsewhere, other) (before.apart a b ne)
    ]
  ];
}
  where
    k : Kept w v (w.thread i) t
    k = Moves-Kept moves before.stack (before.doing i)

    at : (j : ℕ) → Doing v (store w.thread i t j)
    at j = elim (Bool-cases (i == j)) [
      | inl same ↦ rw same k.own
      | inr other ↦
          rw other (k.others (w.thread j) (before.doing j) (before.apart i j (ground arith))).0
    ]

    with_own : (j : ℕ) → i ≢ j → Apart t (w.thread j)
    with_own j ne = (k.others (w.thread j) (before.doing j) (before.apart i j ne)).1

Reach-Inv : {w : World} → Reach w → Inv w
Reach-Inv here = Inv-start
Reach-Inv (after i run moves) = Moves-Inv i moves (Reach-Inv run)

-- In every interleaving of `push` and `pop` from an empty stack in which no node is pushed twice,
-- the links from the top go through exactly the nodes of a stack that each exchange of `push` puts
-- its node on and each exchange of `pop` takes the top of, each once, and a node that a thread has
-- from `pop` is off the stack and no other thread has it.
pub stack-linear :
    {w : World}
    → Reach w
    → Chain w.stack.next w.stack.top w.live
      × Distinct w.live
      × ((i n : ℕ)
          → w.thread i ≡ owner n
          → All (λ x. x ≢ n) w.live × ((j : ℕ) → w.thread j ≡ owner n → i ≡ j))
stack-linear {w} run =
    let v = Reach-Inv run in
    (
      v.stack.links,
      v.stack.distinct,
      λ i n at. (
        not_live w n w.live (λ e. omega (arith, subst (Doing w) at (v.doing i))) v.stack.stacked,
        λ j at'. elim (ℕ_discrete i j) [
          | yes same ↦ same
          | no other ↦ absurd (v.apart i j other n (ap holds at) (ap holds at'))
        ],
      ),
    )
