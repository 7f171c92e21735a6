-- ===== src/Mem/Stack/Once/Kept.antt =====
-- include/libipc/concur/intrusive_stack.h: what each access keeps, where no node is pushed twice.
use mathlib.Core.Path.{subst}
use mathlib.Core.Bool.{true≢false}
use mathlib.Core.Option.{some-injective, none-ne-some}
use cpp_ipc.Prelude.{ℕ, ◌≤◌, ◌≡◌, ◌≢◌, inl, inr, refl, sym, ap, ◌∙◌, arith, none, some}
use cpp_ipc.Mem.Cache.{update}
use cpp_ipc.Mem.Pool.Chain.{Chain, Chain-update, update_ne, update_same}
use cpp_ipc.Mem.Stack.{
  Thread, owner, pushing, linked, unlinking, push_load, push_store, push_exchange, push_again,
  pop_load, pop_empty, pop_next, pop_exchange, pop_again,
}
use cpp_ipc.Mem.Stack.Once.{World, effect, Moves, access, bring, keep, Doing, IsStack}
use cpp_ipc.Mem.Stack.Once.Grows.{
  All-stage, Kept, carry, holding, holds-stage, not_live, quiet, rest-Chain, rest-Distinct,
  rest-stage, stage_ne, top-stage,
}

push_store-Kept :
    (w : World) (n old : ℕ)
    → IsStack w
    → Doing w (pushing n old)
    → Kept w
        (effect (push_store {s = w.stack} {n = n} {old = old}) w)
        (pushing n old)
        (linked n old)
push_store-Kept w n old i h =
    holding refl (inl refl)
      (record {
        entered = λ k l. (l, update_ne w.stack.next n old k (λ e. omega (arith, ap w.stage e)));
        flying = λ k other l. (l, update_ne w.stack.next n old k (λ e. other (ap some (sym e))));
        popped = λ k l. l;
      })
      (record {
        links =
            Chain-update w.stack.next n old w.stack.top w.live
              (not_live w n w.live (λ e. omega (arith, h.0)) i.stacked) i.links;
        stacked = i.stacked;
        distinct = i.distinct;
      })
      (h.0, h.1, update_same w.stack.next n old)

push_exchange-Kept :
    (w : World) (n old : ℕ)
    → (top : w.stack.top ≡ old) → IsStack w
    → Doing w (linked n old)
    → Kept w
        (effect (push_exchange {s = w.stack} {n = n} {old = old} top) w)
        (linked n old)
        Thread.idle
unfolding Chain
push_exchange-Kept w n old top i h =
    let apart = not_live w n w.live (λ e. omega (arith, h.0)) i.stacked in
    holding refl (inr refl)
      (record {
        entered =
            λ k l. let same = stage_ne w n k 2 (λ e. omega (arith, h.0)) in (omega arith, refl);
        flying = λ k other l.
            let same = update_ne w.stage n 2 k (λ e. other (ap some (sym e))) in (same ∙ l, refl);
        popped = λ k l. let same = stage_ne w n k 2 (λ e. omega (arith, h.0)) in same ∙ l;
      })
      (record {
        links = (refl, h.1, subst (λ k. Chain w.stack.next k w.live) (top ∙ sym h.2) i.links);
        stacked = (update_same w.stage n 2, All-stage w n 2 w.live apart i.stacked);
        distinct = (apart, i.distinct);
      })
      tt

entered : (w : World) (n k : ℕ) → 2 ≤ w.stage k → 2 ≤ update w.stage n 3 k
entered w n k l = ground arith

pop_exchange-Kept :
    (w : World) (old next : ℕ)
    → (top : w.stack.top ≡ old) → IsStack w
    → Doing w (unlinking old next)
    → Kept w
        (effect (pop_exchange {s = w.stack} {old = old} {next = next} top) w)
        (unlinking old next)
        (owner old)
pop_exchange-Kept w old next top i h =
    let links : Chain w.stack.next old w.live =
      subst (λ k. Chain w.stack.next k w.live) top i.links in
    let stacked : w.stage old ≡ 2 = top-stage w old w.live links i.stacked h.0 in
    record {
      stack = record {
        links = rest-Chain w.stack.next old next w.live links h.0 h.2;
        stacked = rest-stage w old w.live links i.stacked i.distinct;
        distinct = rest-Distinct w.live i.distinct;
      };
      own = update_same w.stage old 3;
      others = λ d k a. (
        carry w (effect (pop_exchange {s = w.stack} {old = old} {next = next} top) w)
            (record {
              entered = λ j l. ((entered w old j l), refl);
              flying = λ j other l. (stage_ne w old j 3 (λ e. omega arith) ∙ l, refl);
              popped = λ j l. stage_ne w old j 3 (λ e. omega arith) ∙ l;
            })
            d (λ n e. absurd (none-ne-some n e)) k,
        λ n e e'.
            let same : w.stage old ≡ w.stage n = ap w.stage (some-injective old n e) in
            elim (holds-stage w d k n e') [
              | inl flying ↦ omega (arith, stacked, same, flying)
              | inr popped ↦ omega (arith, stacked, same, popped)
            ],
      );
    }

bring-Kept :
    (w : World) (n : ℕ)
    → n ≢ 0
    → w.stage n ≡ 0
    → IsStack w
    → Kept w (record w { stage = update w.stage n 1 }) Thread.idle (pushing n w.stack.top)
bring-Kept w n real new i = record {
  stack = record {
    links = i.links;
    stacked = All-stage w n 1 w.live (not_live w n w.live (λ e. omega arith) i.stacked) i.stacked;
    distinct = i.distinct;
  };
  own = (update_same w.stage n 1, real);
  others = λ d k a. (
    carry w (record w { stage = update w.stage n 1 }) {own = none}
        (record {
          entered = λ j l. let same = stage_ne w n j 1 (λ e. omega arith) in (omega arith, refl);
          flying = λ j other l. (stage_ne w n j 1 (λ e. omega arith) ∙ l, refl);
          popped = λ j l. stage_ne w n j 1 (λ e. omega arith) ∙ l;
        })
        d (λ j e. absurd (none-ne-some j e)) k,
    λ j e e'.
        let same : w.stage n ≡ w.stage j = ap w.stage (some-injective n j e) in
        elim (holds-stage w d k j e') [
          | inl flying ↦ omega (arith, new, same, flying)
          | inr popped ↦ omega (arith, new, same, popped)
        ],
  );
}

pub Moves-Kept :
    {w : World} {t : Thread} {v : World} {t' : Thread}
    → Moves w t v t'
    → IsStack w
    → Doing w t
    → Kept w v t t'
Moves-Kept (access push_load once) i h = absurd (true≢false once)
Moves-Kept {w} (access (push_store {n} {old}) once) i h = push_store-Kept w n old i h
Moves-Kept {w} (access (push_exchange {n} {old} top) once) i h = push_exchange-Kept w n old top i h
Moves-Kept (access push_again once) i h = quiet refl (inl refl) i (h.0, h.1)
Moves-Kept {w} (access pop_load once) i h =
    quiet refl (inl refl) i
      (λ ne. omega (arith, top-stage w w.stack.top w.live i.links i.stacked ne))
Moves-Kept (access (pop_empty z) once) i h = quiet refl (inl refl) i tt
Moves-Kept (access (pop_next ne) once) i h = quiet refl (inl refl) i (ne, h ne, refl)
Moves-Kept {w} (access (pop_exchange {old} {next} top) once) i h =
    pop_exchange-Kept w old next top i h
Moves-Kept {w} (access pop_again once) i h =
    quiet refl (inl refl) i
      (λ ne. omega (arith, top-stage w w.stack.top w.live i.links i.stacked ne))
Moves-Kept {w} (bring n real new push_load) i h = bring-Kept w n real new i
Moves-Kept keep i h = quiet refl (inr refl) i tt
