-- ===== src/Mem/Stack/Once/Grows.antt =====
-- include/libipc/concur/intrusive_stack.h: what a move does to the nodes of other threads, where no node
-- is pushed twice.
use mathlib.Core.Path.{subst}
use mathlib.Core.Option.{some-injective, none-ne-some}
use cpp_ipc.Prelude.{
  ℕ, ◌≤◌, ◌≡◌, ◌≢◌, ◌⊎◌, inl, inr, refl, sym, ap, ◌∙◌, Option, none, some, List, [], ◌∷◌, All,
  Distinct,
}
use cpp_ipc.Mem.Cache.{update}
use cpp_ipc.Mem.Pool.Chain.{Chain, update_ne}
use cpp_ipc.Mem.Stack.{Thread, owner, pushing, linked, popping, unlinking}
use cpp_ipc.Mem.Stack.Once.{World, rest, holds, Apart, Doing, IsStack}

-- What a move by a thread that holds `own` does to the nodes of others.
pub record Grows (w v : World) (own : Option ℕ) : Type 0 where
  pub entered : (n : ℕ) → 2 ≤ w.stage n → (2 ≤ v.stage n) × (v.stack.next n ≡ w.stack.next n)
  pub flying :
      (n : ℕ)
      → (own ≡ some n → ⊥)
      → w.stage n ≡ 1
      → (v.stage n ≡ 1) × (v.stack.next n ≡ w.stack.next n)
  pub popped : (n : ℕ) → w.stage n ≡ 3 → v.stage n ≡ 3

pub carry :
    (w v : World) {own : Option ℕ}
    → Grows w v own
    → (d : Thread) → ((n : ℕ) → own ≡ some n → holds d ≡ some n → ⊥)
    → Doing w d
    → Doing v d
carry w v g Thread.idle a h = h
carry w v g (owner n) a h = g.popped n h
carry w v g (pushing n old) a h = ((g.flying n (λ e. a n e refl) h.0).0, h.1)
carry w v g (linked n old) a h =
    let (stage, next) = g.flying n (λ e. a n e refl) h.0 in (stage, h.1, next ∙ h.2)
carry w v g (popping old) a h = λ real. (g.entered old (h real)).0
carry w v g (unlinking old next) a h =
    let (stage, same) = g.entered old h.1 in (h.0, stage, same ∙ h.2)

pub holds-stage :
    (w : World) (d : Thread)
    → Doing w d
    → (n : ℕ) → holds d ≡ some n
    → (w.stage n ≡ 1) ⊎ (w.stage n ≡ 3)
holds-stage w Thread.idle h n e = absurd (none-ne-some n e)
holds-stage w (owner k) h n e = inr (ap w.stage (sym (some-injective k n e)) ∙ h)
holds-stage w (pushing k old) h n e = inl (ap w.stage (sym (some-injective k n e)) ∙ h.0)
holds-stage w (linked k old) h n e = inl (ap w.stage (sym (some-injective k n e)) ∙ h.0)
holds-stage w (popping old) h n e = absurd (none-ne-some n e)
holds-stage w (unlinking old next) h n e = absurd (none-ne-some n e)

-- A move of a thread, with what it means for the others.
pub record Kept (w v : World) (t t' : Thread) : Type 0 where
  pub stack : IsStack v
  pub own : Doing v t'
  pub others : (d : Thread) → Doing w d → Apart t d → Doing v d × Apart t' d

Grows-same : (w : World) (own : Option ℕ) → Grows w w own
Grows-same w own = record {
  entered = λ n h. (h, refl);
  flying = λ n o h. (h, refl);
  popped = λ n h. h;
}

-- The thread holds what it held, or nothing.
pub holding :
    {w v : World} {t t' : Thread} {own : Option ℕ}
    → holds t ≡ own
    → (holds t' ≡ own) ⊎ (holds t' ≡ none)
    → Grows w v own
    → IsStack v
    → Doing v t'
    → Kept w v t t'
holding {w} {v} had has g i h = record {
  stack = i;
  own = h;
  others = λ d k a. (
    carry w v g d (λ n e. a n (had ∙ e)) k,
    λ n e e'. elim has [
      | inl same ↦ a n (had ∙ sym same ∙ e) e'
      | inr free ↦ none-ne-some n (sym free ∙ e)
    ],
  );
}

pub quiet :
    {w : World} {t t' : Thread} {own : Option ℕ}
    → holds t ≡ own
    → (holds t' ≡ own) ⊎ (holds t' ≡ none)
    → IsStack w
    → Doing w t'
    → Kept w w t t'
quiet {w} {own = own} had has i h = holding had has (Grows-same w own) i h

-- A stage that changes is not that of another node.
pub stage_ne : (w : World) (n k s : ℕ) → w.stage n ≢ w.stage k → update w.stage n s k ≡ w.stage k
stage_ne w n k s ne = update_ne w.stage n s k (λ e. ne (ap w.stage (sym e)))

pub All-stage :
    (w : World) (n s : ℕ) (xs : List ℕ)
    → All (λ x. x ≢ n) xs
    → All (λ x. w.stage x ≡ 2) xs
    → All (λ x. update w.stage n s x ≡ 2) xs
All-stage w n s [] h a = tt
All-stage w n s (x ∷ xs) (h, hs) (a, as') =
    (update_ne w.stage n s x h ∙ a, All-stage w n s xs hs as')

-- A node at another stage is not on the stack.
pub not_live :
    (w : World) (n : ℕ) (xs : List ℕ)
    → w.stage n ≢ 2
    → All (λ x. w.stage x ≡ 2) xs
    → All (λ x. x ≢ n) xs
not_live w n [] ne a = tt
not_live w n (x ∷ xs) ne (a, as') = ((λ e. ne (ap w.stage (sym e) ∙ a)), not_live w n xs ne as')

-- The top of a stack that is not empty.
pub top-stage :
    (w : World) (p : ℕ) (xs : List ℕ)
    → Chain w.stack.next p xs
    → All (λ x. w.stage x ≡ 2) xs
    → p ≢ 0
    → w.stage p ≡ 2
unfolding Chain
top-stage w p [] c a ne = absurd (ne c)
top-stage w p (x ∷ xs) (e, _, c) (a, as') ne = ap w.stage e ∙ a

pub rest-Chain :
    (next : ℕ → ℕ) (p q : ℕ) (xs : List ℕ)
    → Chain next p xs
    → p ≢ 0
    → next p ≡ q
    → Chain next q (rest xs)
unfolding Chain
rest-Chain next p q [] c ne e = absurd (ne c)
rest-Chain next p q (x ∷ xs) (_, _, c) ne e = subst (λ k. Chain next k xs) e c

pub rest-Distinct : (xs : List ℕ) → Distinct xs → Distinct (rest xs)
rest-Distinct [] d = tt
rest-Distinct (x ∷ xs) d = d.1

pub rest-stage :
    (w : World) (p : ℕ) (xs : List ℕ)
    → Chain w.stack.next p xs
    → All (λ x. w.stage x ≡ 2) xs
    → Distinct xs
    → All (λ x. update w.stage p 3 x ≡ 2) (rest xs)
unfolding Chain
rest-stage w p [] c a d = tt
rest-stage w p (x ∷ xs) (e, _, c) (a, as') (d, ds) = rw e (All-stage w x 3 xs d as')
