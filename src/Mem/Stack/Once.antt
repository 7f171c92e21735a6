-- ===== src/Mem/Stack/Once.antt =====
-- include/libipc/concur/intrusive_stack.h: runs of `push` and `pop` in which no node is pushed twice.
pub mod Grows
pub mod Kept
pub mod Linear
use mathlib.Core.Option.{some-injective, none-ne-some}
use cpp_ipc.Prelude.{
  ℕ, ◌+◌, ◌≤◌, ◌<◌, ◌≡◌, ◌≢◌, ◌⊎◌, inl, inr, refl, sym, ap, ◌∙◌, arith, Option, none, some, List,
  [], ◌∷◌, ◌==◌, Bool, All, Distinct, Bool-cases, true, false,
}
use cpp_ipc.Mem.Cache.{update}
use cpp_ipc.ProdCons.{store}
use cpp_ipc.Mem.Pool.Chain.{Chain, Chain-update, update_ne, update_same}
use cpp_ipc.Mem.Stack.{
  Stack, Thread, owner, pushing, linked, popping, unlinking, Access, push_load, push_store,
  push_exchange, push_again, pop_load, pop_empty, pop_next, pop_exchange, pop_again,
}

-- The stack with any number of threads, and what the code does not keep: the nodes on the stack, the top
-- first, and how far each node has come, which is 0 before its push, 1 until the exchange of `push`,
-- 2 on the stack and 3 from the exchange of `pop` on.
pub record World : Type 0 where
  pub stack : Stack
  pub thread : ℕ → Thread
  pub live : List ℕ
  pub stage : ℕ → ℕ

abbrev pub start : World
start = record {
  stack = record { top = 0; next = λ _. 0 };
  thread = λ _. Thread.idle;
  live = [];
  stage = λ _. 0;
}

abbrev pub rest : List ℕ → List ℕ
rest [] = []
rest (n ∷ ns) = ns

-- What an access makes of the world: an exchange of `push` puts its node on top, one of `pop` takes the top.
abbrev pub effect : {s e : Stack} {t t' : Thread} → Access s t e t' → World → World
effect {e = e} (push_exchange {s} {n} top) w = record w {
  stack = e;
  live = n ∷ w.live;
  stage = update w.stage n 2;
}
effect {e = e} (pop_exchange {s} {old} top) w = record w {
  stack = e;
  live = rest w.live;
  stage = update w.stage old 3;
}
effect {e = e} push_load w = record w { stack = e }
effect {e = e} push_store w = record w { stack = e }
effect {e = e} push_again w = record w { stack = e }
effect {e = e} pop_load w = record w { stack = e }
effect {e = e} (pop_empty z) w = record w { stack = e }
effect {e = e} (pop_next ne) w = record w { stack = e }
effect {e = e} pop_again w = record w { stack = e }

-- A thread that has popped a node may go on without it, and does not push it.
abbrev pub pushes : {s e : Stack} {t t' : Thread} → Access s t e t' → Bool
pushes push_load = true
pushes push_store = false
pushes (push_exchange top) = false
pushes push_again = false
pushes pop_load = false
pushes (pop_empty z) = false
pushes (pop_next ne) = false
pushes (pop_exchange top) = false
pushes pop_again = false

pub data Moves (w : World) : Thread → World → Thread → Type 0 where
  access :
      {e : Stack} {t t' : Thread} (a : Access w.stack t e t')
      → pushes a ≡ false
      → Moves w t (effect a w) t'
  bring :
      (n : ℕ) {e : Stack} {t' : Thread}
      → n ≢ 0
      → w.stage n ≡ 0
      → Access w.stack (owner n) e t'
      → Moves w Thread.idle (record w { stack = e; stage = update w.stage n 1 }) t'
  keep : {n : ℕ} → Moves w (owner n) w Thread.idle

pub data Reach : World → Type 0 where
  here : Reach start
  after :
      {w v : World} {t : Thread} (i : ℕ)
      → Reach w
      → Moves w (w.thread i) v t
      → Reach (record v { thread = store w.thread i t })

abbrev pub holds : Thread → Option ℕ
holds Thread.idle = none
holds (owner n) = some n
holds (pushing n old) = some n
holds (linked n old) = some n
holds (popping old) = none
holds (unlinking old next) = none

abbrev pub Apart : Thread → Thread → Type 0
Apart t d = (n : ℕ) → holds t ≡ some n → holds d ≡ some n → ⊥

-- What a thread knows of the nodes.
abbrev pub Doing : World → Thread → Type 0
Doing w Thread.idle = Unit
Doing w (owner n) = w.stage n ≡ 3
Doing w (pushing n old) = (w.stage n ≡ 1) × (n ≢ 0)
Doing w (linked n old) = (w.stage n ≡ 1) × (n ≢ 0) × (w.stack.next n ≡ old)
Doing w (popping old) = (old ≢ 0 → 2 ≤ w.stage old)
Doing w (unlinking old next) = (old ≢ 0) × (2 ≤ w.stage old) × (w.stack.next old ≡ next)

pub record IsStack (w : World) : Type 0 where
  pub links : Chain w.stack.next w.stack.top w.live
  pub stacked : All (λ n. w.stage n ≡ 2) w.live
  pub distinct : Distinct w.live
