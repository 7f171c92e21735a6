-- ===== src/Fmt/Format/Concat.antt =====
-- src/libipc/imp/fmt.cpp: what `sbuf_cat` leaves in its buffer.
use mathlib.Core.Path.{subst}
use cpp_ipc.Prelude.{
  ℕ, zero, suc, ◌+◌, ◌-◌, ◌≤◌, ◌<◌, ◌≡◌, refl, ap, ◌∙◌, arith, min, false, ◌==◌, some, List, [],
  ◌∷◌, ◌++◌, length, take, set, get_elem?, length-take, take_all, length-set, get_elem?-set_self,
  append_assoc, append_nil,
}
use cpp_ipc.Fmt.{normalize, overwrite}
use cpp_ipc.Fmt.Text.Room.{length-overwrite, take-overwrite}
use cpp_ipc.Fmt.Format.{smem_cpy, cat_loop, sbuf_cat}

-- The texts without zeros at their ends, one behind the other.
unfoldable pub concat : List (List ℕ) → List ℕ
concat [] = []
concat (s ∷ args) = normalize s ++ concat args

module _ (buf : List ℕ) where
  -- With `remain` bytes left, the ones in front hold `done`.
  record Filled (done : List ℕ) (remain : ℕ) (now : List ℕ) : Type 0 where
    same : length now ≡ length buf
    left : 1 ≤ remain
    within : remain ≤ length buf
    front : take (length buf - remain) now ≡ done

-- A copy to the rest of the buffer adds what fits.
smem_cpy-Filled :
    (buf done now s : List ℕ) (remain : ℕ)
    → Filled buf done remain now
    → let (now', n) = smem_cpy (length now - remain) remain s now in
      (n ≡ min (remain - 1) (length (normalize s)))
      × Filled buf (done ++ take n (normalize s)) (remain - n) now'
unfolding smem_cpy
smem_cpy-Filled buf done now s remain f =
    let full : (remain == 0) ≡ false = ground arith in
    let str = normalize s in
    let sz = min (remain - 1) (length str) in
    let at = length now - remain in
    let size : length (take sz str) ≡ sz = omega (arith, length-take sz str) in
    let inside : at + length (take sz str) ≤ length now = omega (arith, f.same) in
    rw full (
      refl,
      record {
        same = length-overwrite at (take sz str) now inside ∙ f.same;
        left = omega arith;
        within = omega arith;
        front =
            ap (λ k. take k (overwrite at (take sz str) now)) (omega (arith, f.same))
            ∙ take-overwrite at sz (take sz str) now inside (omega (arith, size))
            ∙ rw (f.same, f.front)
                (ap (λ ys. done ++ ys) (take_all (take sz str) sz (omega (arith, size))));
      },
    )

module _ {A : Type 0} where
  take-append :
      (k : ℕ) (xs ys : List A)
      → take k (xs ++ ys) ≡ take (min k (length xs)) xs ++ take (k - length xs) ys
  take-append zero xs ys =
      let e : min zero (length xs) ≡ 0 = omega arith in
      let d : zero - length xs ≡ 0 = omega arith in rw (e, d) refl
  take-append (suc k) [] ys =
      let e : min (suc k) 0 ≡ 0 = omega arith in
      let d : suc k - 0 ≡ suc k = omega arith in rw (e, d) refl
  take-append (suc k) (x ∷ xs) ys =
      let e : min (suc k) (suc (length xs)) ≡ suc (min k (length xs)) = omega arith in
      let d : suc k - suc (length xs) ≡ k - length xs = omega arith in
      rw (e, d) (ap (λ zs. x ∷ zs) (take-append k xs ys))

  take-set : (i : ℕ) (xs : List A) (v : A) → take i (set xs i v) ≡ take i xs
  take-set zero xs v = refl
  take-set (suc i) [] v = refl
  take-set (suc i) (x ∷ xs) v = ap (λ zs. x ∷ zs) (take-set i xs v)

cat_loop-Filled :
    (buf : List ℕ) (args : List (List ℕ)) (done now : List ℕ) (remain : ℕ)
    → Filled buf done remain now
    → let (now', left) = cat_loop args remain now in
      Filled buf (done ++ take (remain - 1) (concat args)) left now'
unfolding cat_loop concat
cat_loop-Filled buf [] done now remain f =
    let nothing : take {A = ℕ} (remain - 1) [] ≡ [] =
      take_all {A = ℕ} [] (remain - 1) (omega arith) in
    rw (nothing, append_nil done) f
cat_loop-Filled buf (s ∷ args) done now remain f =
    let str = normalize s in
    let (now', n) = smem_cpy (length now - remain) remain s now in
    let (e, f') = smem_cpy-Filled buf done now s remain f in
    let split : (done ++ take n str) ++ take (remain - n - 1) (concat args)
        ≡ done ++ take (remain - 1) (str ++ concat args) =
      append_assoc done (take n str) (take (remain - n - 1) (concat args))
      ∙ ap (λ ys. done ++ ys)
          (rw (e, take-append (remain - 1) str (concat args))
            (ap (λ k. take (min (remain - 1) (length str)) str ++ take k (concat args))
              (omega arith))) in
    subst
      (λ d. Filled buf d (cat_loop args (remain - n) now').1 (cat_loop args (remain - n) now').0)
      split (cat_loop-Filled buf args (done ++ take n str) now' (remain - n) f')

-- `sbuf_cat` to a buffer that is not empty leaves the texts one behind the other, without a zero
-- at the end of each and cut off where the buffer has one byte left, with a zero behind them, and
-- does not change the size of the buffer.
pub sbuf_cat-concat :
    (args : List (List ℕ)) (buf : List ℕ)
    → 0 < length buf
    → let (buf', sz) = sbuf_cat args buf in
      (take sz buf' ≡ take (length buf - 1) (concat args))
      × (get_elem? buf' sz ≡ some 0)
      × (length buf' ≡ length buf)
unfolding sbuf_cat
sbuf_cat-concat args buf h =
    let none_written : length buf - length buf ≡ 0 = omega arith in
    let start : Filled buf [] (length buf) buf = record {
      same = refl;
      left = h;
      within = omega arith;
      front = ap (λ k. take k buf) none_written;
    } in
    let f = cat_loop-Filled buf args [] buf (length buf) start in
    let (now, remain) = cat_loop args (length buf) buf in
    let sz = length now - remain in
    (
      take-set sz now 0 ∙ ap (λ k. take (k - remain) now) f.same ∙ f.front,
      get_elem?-set_self now sz 0 (omega (arith, f.same)),
      length-set now sz 0 ∙ f.same,
    )
