-- ===== src/Wait/Ends.antt =====
-- src/libipc/ipc.cpp, `wait_for`: what a result says, and that the loops end.
use mathlib.Core.Path.{subst}
use mathlib.Core.Option.{some-injective, none-ne-some}
use cpp_ipc.Prelude.{
  ℕ, zero, suc, ◌≤◌, ◌<◌, ◌≡◌, ◌≢◌, refl, sym, ap, ◌∙◌, arith, Bool, true, false, not, ◌⊎◌, inl,
  inr, Bool-cases, Option, some, ◌==◌,
}
use cpp_ipc.Wait.{wait_if, yield_for, wait_for}

module _ {W : Type 0} (pred : W → Bool × W) (wait : W → Bool × W) (quit : W → Bool) where
  -- Why a loop returned this: the predicate was false just before, the waiter has quit, or the time
  -- was up.
  pub Ended : Bool × W → Type 0
  Ended (true, w) = (quit w ≡ true) ⊎ ((v : W) × (pred v ≡ (false, w)))
  Ended (false, w) = (v : W) × (wait v ≡ (false, w))

  give :
      (x : Bool × W) {o : Option (Bool × W)} {end : Bool × W}
      → o ≡ some x
      → o ≡ some end
      → Ended x
      → Ended end
  give x e f h = subst Ended (some-injective _ _ (sym e ∙ f)) h

  wait_if-Ended :
      (fuel : ℕ) (w : W) (end : Bool × W) → wait_if pred wait quit fuel w ≡ some end → Ended end
  unfolding wait_if Ended
  wait_if-Ended zero w end e = absurd (none-ne-some _ e)
  wait_if-Ended (suc fuel) w end e = elim (Bool-cases (quit w)) [
    | inl gone ↦ give (true, w) (rw (wait_if, gone) refl) e (inl gone)
    | inr stays ↦ elim (Bool-cases (pred w).0) [
      | inr done ↦
          give (true, (pred w).1) (rw (wait_if, stays, done) refl) e
            (inr (w, ap (λ b. (b, (pred w).1)) done))
      | inl again ↦ elim (Bool-cases (wait (pred w).1).0) [
        | inr late ↦
            give (false, (wait (pred w).1).1) (rw (wait_if, stays, again, late) refl) e
              ((pred w).1, ap (λ b. (b, (wait (pred w).1).1)) late)
        | inl woken ↦
            let rest : wait_if pred wait quit (suc fuel) w
                ≡ wait_if pred wait quit fuel (wait (pred w).1).1 =
              rw (wait_if, stays, again, woken) refl in
            wait_if-Ended fuel (wait (pred w).1).1 end (sym rest ∙ e)
      ]
    ]
  ]

  yield_for-Ended :
      (turns fuel : ℕ) (w : W) (end : Bool × W)
      → yield_for pred wait quit turns fuel w ≡ some end
      → Ended end
  unfolding yield_for Ended
  yield_for-Ended zero fuel w end e = elim (Bool-cases (pred w).0) [
    | inr done ↦
        give (true, (pred w).1) (rw (yield_for, done) refl) e
          (inr (w, ap (λ b. (b, (pred w).1)) done))
    | inl again ↦
        let rest : yield_for pred wait quit 0 fuel w ≡ wait_if pred wait quit fuel (pred w).1 =
          rw (yield_for, again) refl in
        wait_if-Ended fuel (pred w).1 end (sym rest ∙ e)
  ]
  yield_for-Ended (suc turns) fuel w end e = elim (Bool-cases (pred w).0) [
    | inr done ↦
        give (true, (pred w).1) (rw (yield_for, done) refl) e
          (inr (w, ap (λ b. (b, (pred w).1)) done))
    | inl again ↦
        let rest : yield_for pred wait quit (suc turns) fuel w
            ≡ yield_for pred wait quit turns fuel (pred w).1 =
          rw (yield_for, again) refl in
        yield_for-Ended turns fuel (pred w).1 end (sym rest ∙ e)
  ]

  pub wait_for-Ended :
      (fuel tm : ℕ) (w : W) (end : Bool × W)
      → tm ≢ 0
      → wait_for pred wait quit fuel tm w ≡ some end
      → Ended end
  unfolding wait_for
  wait_for-Ended fuel tm w end h e =
      let timed : (tm == 0) ≡ false = ground arith in
      let loop : wait_for pred wait quit fuel tm w ≡ yield_for pred wait quit 32 fuel w =
        rw timed refl in
      yield_for-Ended 32 fuel w end (sym loop ∙ e)

  -- `rank` counts the times that `cond_.wait` may still return before the time is up.
  module _ (rank : W → ℕ) (pred-rank : (w : W) → rank (pred w).1 ≤ rank w)
      (wait-rank : (w : W) → (wait w).0 ≡ true → rank (wait w).1 < rank w) where
    wait_if_ends :
        (fuel : ℕ) (w : W)
        → rank w < fuel
        → (end : Bool × W) × (wait_if pred wait quit fuel w ≡ some end)
    unfolding wait_if
    wait_if_ends zero w h = absurd (omega arith)
    wait_if_ends (suc fuel) w h = elim (Bool-cases (quit w)) [
      | inl gone ↦ ((true, w), rw (wait_if, gone) refl)
      | inr stays ↦ elim (Bool-cases (pred w).0) [
        | inr done ↦ ((true, (pred w).1), rw (wait_if, stays, done) refl)
        | inl again ↦ elim (Bool-cases (wait (pred w).1).0) [
          | inr late ↦ ((false, (wait (pred w).1).1), rw (wait_if, stays, again, late) refl)
          | inl woken ↦
              let (end, e) =
                wait_if_ends fuel (wait (pred w).1).1
                  (omega (arith, pred-rank w, wait-rank (pred w).1 woken)) in
              (end, rw (wait_if, stays, again, woken) e)
        ]
      ]
    ]

    yield_for_ends :
        (turns fuel : ℕ) (w : W)
        → rank w < fuel
        → (end : Bool × W) × (yield_for pred wait quit turns fuel w ≡ some end)
    unfolding yield_for
    yield_for_ends zero fuel w h = elim (Bool-cases (pred w).0) [
      | inr done ↦ ((true, (pred w).1), rw (yield_for, done) refl)
      | inl again ↦
          let (end, e) = wait_if_ends fuel (pred w).1 (omega (arith, pred-rank w)) in
          (end, rw (yield_for, again) e)
    ]
    yield_for_ends (suc turns) fuel w h = elim (Bool-cases (pred w).0) [
      | inr done ↦ ((true, (pred w).1), rw (yield_for, done) refl)
      | inl again ↦
          let (end, e) = yield_for_ends turns fuel (pred w).1 (omega (arith, pred-rank w)) in
          (end, rw (yield_for, again) e)
    ]

    -- `wait_for` ends, with more fuel than the number of times that the condition variable may
    -- still wake before the time is up, which the predicate does not raise and each such wake
    -- lowers.
    pub wait_for_ends :
        (fuel tm : ℕ) (w : W)
        → rank w < fuel
        → (end : Bool × W) × (wait_for pred wait quit fuel tm w ≡ some end)
    unfolding wait_for
    wait_for_ends fuel tm w h = elim (Bool-cases (tm == 0)) [
      | inl polled ↦ ((not (pred w).0, (pred w).1), rw polled refl)
      | inr timed ↦ let (end, e) = yield_for_ends 32 fuel w h in (end, rw timed e)
    ]
