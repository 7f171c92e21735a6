-- ===== src/ProdCons.antt =====
-- src/libipc/prod_cons.h: the algorithms that move elements between producers and consumers, one for
-- each choice of single or multiple ends and of unicast or broadcast.
pub mod Single
pub mod Shared
pub mod Multi
pub mod Many
pub mod Broadcast
mod Tests
use cpp_ipc.Prelude.{ℕ, ◌==◌, if◌then◌else◌, ◌≡◌, ◌≢◌, arith}

-- The 256 elements of an array, by position.
abbrev pub Block {ℓ} : Type ℓ → Type ℓ
Block A = ℕ → A

abbrev pub store {ℓ} : {A : Type ℓ} → Block A → ℕ → A → Block A
store block i a j = if i == j then a else block j

module _ {ℓ} {A : Type ℓ} (block : Block A) (x : A) {i j : ℕ} where
  pub store_self : i ≡ j → store block i x j ≡ x
  store_self e = ground arith

  pub store_ne : i ≢ j → store block i x j ≡ block j
  store_ne e = ground arith
