-- ===== src/Codecvt/Strings/Between.antt =====
-- src/libipc/imp/codecvt.cpp: the loop between UTF-8 and UTF-16 goes through UTF-32.
use mathlib.Core.Option.{some-injective, none-ne-some}
use cpp_ipc.Prelude.{
  ℕ, zero, suc, ◌+◌, ◌-◌, ◌≤◌, ◌≡◌, ◌≢◌, refl, sym, ap, arith, some, List, [], ◌∷◌, ◌==◌, ltb,
  if◌then◌else◌, drop, lt→ltb, All, false, Bool-cases, Option-cases, inl, inr,
}
use cpp_ipc.Codecvt.Strings.{from32, to32, between}

module _ (into : List ℕ → ℕ × ℕ) (out : ℕ → ℕ → ℕ × List ℕ) where
  -- Where a string in UTF-8 or UTF-16 is read to UTF-32 with a place for each of its characters
  -- and none of them is 0, the loop from one of the two encodings to the other gives, for any
  -- `cvt_char`, what the loop from UTF-32 gives for those characters, refused characters included.
  pub between-to32 :
      (fuel places offset dlen : ℕ) (src : List ℕ) (n : ℕ) (cs : List ℕ)
      → to32 into fuel places src ≡ some (n, cs)
      → n ≤ places
      → All (λ c. c ≢ 0) cs
      → between into out fuel offset dlen src ≡ from32 out offset dlen cs
  unfolding to32 between from32
  between-to32 zero places offset dlen src n cs e le real = absurd (none-ne-some (n, cs) e)
  between-to32 (suc fuel) places offset dlen [] n cs e le real =
      rw (sym (ap (λ (r : ℕ × List ℕ). r.1) (some-injective (0, []) (n, cs) e))) refl
  between-to32 (suc fuel) places offset dlen (u ∷ src) n cs e le real = elim (Bool-cases (u == 0)) [
    | inl end ↦
        let none_left =
          ap (λ (r : ℕ × List ℕ). r.1) (some-injective (0, []) (n, cs) (rw (to32, end) at e)) in
        rw (between, end, sym none_left) refl
    | inr more ↦ elim (Bool-cases ((into (u ∷ src)).0 == 0)) [
      | inl refused ↦ absurd (none-ne-some (n, cs) (rw (to32, more, refused) at e))
      | inr taken ↦
          elim (Option-cases (to32 into fuel (places - 1) (drop (into (u ∷ src)).0 (u ∷ src)))) [
            | inl stopped ↦ absurd (none-ne-some (n, cs) (rw (to32, more, taken, stopped) at e))
            | inr (r, went) ↦
                let c = (into (u ∷ src)).1 in
                let both =
                  some-injective (r.0 + 1, if ltb 0 places then c ∷ r.1 else r.1) (n, cs)
                    (rw (to32, more, taken, went) at e) in
                let count = ap (λ (t : ℕ × List ℕ). t.0) both in
                let room = lt→ltb 0 places (omega (arith, count)) in
                let text = sym (ap (λ (t : ℕ × List ℕ). t.1) (rw room at both)) in
                let chars = rw text at real in
                let (m, units) = out c dlen in
                let some_char : (c == 0) ≡ false = ground (arith, chars.0) in
                let next =
                  between-to32 fuel (places - 1) (offset + (out c dlen).0) (dlen - (out c dlen).0)
                    (drop (into (u ∷ src)).0 (u ∷ src)) r.0 r.1 went (omega (arith, count))
                    chars.1 in
                rw (text, between, more, taken, next, some_char) refl
          ]
    ]
  ]
