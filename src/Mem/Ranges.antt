-- ===== src/Mem/Ranges.antt =====
-- Ranges of addresses: which overlap, and which lie in another.
use cpp_ipc.Prelude.{ℕ, ◌≤◌, arith, List, [], ◌∷◌, All, ◌⊎◌, inl, inr}

-- From the first number up to, and without, the second.
abbrev pub Range : Type 0
Range = ℕ × ℕ

pub Apart : Range → Range → Type 0
Apart a b = (a.1 ≤ b.0) ⊎ (b.1 ≤ a.0)

pub Inside : Range → Range → Type 0
Inside a b = (b.0 ≤ a.0) × (a.1 ≤ b.1)

abbrev pub Somewhere : Range → List Range → Type 0
Somewhere a [] = ¬ Unit {0}
Somewhere a (b ∷ bs) = Inside a b ⊎ Somewhere a bs

-- No two overlap.
abbrev pub Separate : List Range → Type 0
Separate [] = Unit
Separate (a ∷ rest) = All (Apart a) rest × Separate rest

module _ (big : Range) where
  -- What lies in a range is apart from what the range is apart from.
  pub Inside-Apart : (a b : Range) → Inside a big → Apart big b → Apart a b
  unfolding Inside Apart
  Inside-Apart a b i h = ground arith

  pub Inside-All :
      (a : Range) (xs : List Range) → Inside a big → All (Apart big) xs → All (Apart a) xs
  Inside-All a [] i h = tt
  Inside-All a (x ∷ xs) i (h, hs) = (Inside-Apart a x i h, Inside-All a xs i hs)

  pub Inside-Somewhere :
      (a : Range) (xs : List Range) → Inside a big → Somewhere big xs → Somewhere a xs
  unfolding Inside
  Inside-Somewhere a [] i h = h
  Inside-Somewhere a (x ∷ xs) i (inl h) = inl (omega arith)
  Inside-Somewhere a (x ∷ xs) i (inr h) = inr (Inside-Somewhere a xs i h)

  -- A range that is apart from all memory in use is apart from what lies in it.
  pub Somewhere-Apart :
      (a : Range) (xs : List Range) → All (Apart big) xs → Somewhere a xs → Apart big a
  unfolding Inside Apart
  Somewhere-Apart a [] h i = absurd (i tt)
  Somewhere-Apart a (x ∷ xs) (h, hs) (inl i) = ground arith
  Somewhere-Apart a (x ∷ xs) (h, hs) (inr i) = Somewhere-Apart a xs hs i

module _ {A : Type 0} {P Q : A → Type 0} where
  pub All-map : (xs : List A) → ((x : A) → P x → Q x) → All P xs → All Q xs
  All-map [] f h = tt
  All-map (x ∷ xs) f (h, hs) = (f x h, All-map xs f hs)

pub Apart-sym : (a b : Range) → Apart a b → Apart b a
unfolding Apart
Apart-sym a b h = ground arith

-- Two ranges that lie in a range at its ends.
pub before : (a b : Range) → a.1 ≤ b.0 → Apart a b
unfolding Apart
before a b h = inl h

pub inside : {a b : Range} → b.0 ≤ a.0 → a.1 ≤ b.1 → Inside a b
unfolding Inside
inside h l = (h, l)

module _ {A : Type 0} (P Q : A → Type 0) where
  pub All-both : (xs : List A) → All P xs → All Q xs → All (λ x. P x × Q x) xs
  All-both [] p q = tt
  All-both (x ∷ xs) (p, ps) (q, qs) = ((p, q), All-both xs ps qs)
