-- ===== src/RwLock/Tally.antt =====
-- include/libipc/rw_lock.h: how many threads stand where.
use cpp_ipc.Prelude.{
  ℕ, zero, suc, ◌+◌, ◌≤◌, ◌≡◌, refl, ap, List, [], ◌∷◌, some, get_elem?, set, length, arith,
  replicate, ◌≢◌,
}
use mathlib.Core.Option.{none-ne-some, some-injective}

module _ {ℓ} {A : Type ℓ} where
  -- The sum of a weight over a list.
  abbrev pub tally : (A → ℕ) → List A → ℕ
  tally f [] = 0
  tally f (x ∷ xs) = f x + tally f xs

  pub tally-set :
      (f : A → ℕ) (xs : List A) (i : ℕ) (old new : A)
      → get_elem? xs i ≡ some old
      → tally f (set xs i new) + f old ≡ tally f xs + f new
  tally-set f [] i old new h = absurd (none-ne-some old h)
  tally-set f (x ∷ xs) zero old new h = omega (arith, ap f (some-injective x old h))
  tally-set f (x ∷ xs) (suc i) old new h = omega (arith, tally-set f xs i old new h)

  pub tally_le_length : (f : A → ℕ) → ((x : A) → f x ≤ 1) → (xs : List A) → tally f xs ≤ length xs
  tally_le_length f h [] = omega arith
  tally_le_length f h (x ∷ xs) = omega (arith, h x, tally_le_length f h xs)

  pub tally-elem :
      (f : A → ℕ) (xs : List A) (i : ℕ) (x : A) → get_elem? xs i ≡ some x → f x ≤ tally f xs
  tally-elem f [] i x h = absurd (none-ne-some x h)
  tally-elem f (y ∷ xs) zero x h = omega (arith, ap f (some-injective y x h))
  tally-elem f (y ∷ xs) (suc i) x h = omega (arith, tally-elem f xs i x h)

  -- Two different places count twice.
  pub tally-two :
      (f : A → ℕ) (xs : List A) (i j : ℕ) (x y : A)
      → i ≢ j
      → get_elem? xs i ≡ some x
      → get_elem? xs j ≡ some y
      → f x + f y ≤ tally f xs
  tally-two f [] i j x y n h k = absurd (none-ne-some x h)
  tally-two f (z ∷ xs) zero zero x y n h k = absurd (n refl)
  tally-two f (z ∷ xs) zero (suc j) x y n h k =
      omega (arith, ap f (some-injective z x h), tally-elem f xs j y k)
  tally-two f (z ∷ xs) (suc i) zero x y n h k =
      omega (arith, ap f (some-injective z y k), tally-elem f xs i x h)
  tally-two f (z ∷ xs) (suc i) (suc j) x y n h k =
      omega (arith, tally-two f xs i j x y (λ e. n (ap suc e)) h k)

pub tally-replicate {ℓ} :
    {A : Type ℓ} (f : A → ℕ) (n : ℕ) (x : A) → f x ≡ 0 → tally f (replicate n x) ≡ 0
tally-replicate f zero x h = refl
tally-replicate f (suc n) x h = omega (arith, tally-replicate f n x h)
