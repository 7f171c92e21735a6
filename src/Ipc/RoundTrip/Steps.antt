-- ===== src/Ipc/RoundTrip/Steps.antt =====
-- src/libipc/ipc.cpp, `detail_impl::recv`: what it does with a fragment of another sender.
use cpp_ipc.Prelude.{
  ℕ, zero, suc, ◌≤◌, ◌<◌, List, ◌∷◌, ◌≡◌, refl, ◌≢◌, Option, none, some, ◌==◌, leb, true, false,
  arith, Bool, Bool-cases, inl, inr, ap, sym, ==_iff,
}
use cpp_ipc.Prelude.Int.{ℤ, pos, ◌+ℤ◌, ◌-ℤ◌, ltb_ℤ, int_laws}
use cpp_ipc.Ipc.{data_length, bytes, Msg}
use cpp_ipc.Ipc.Cache.{Cache, append, make_cache}
use cpp_ipc.Ipc.Recv.{Pending, find, erase, put, collect, message, recv}

-- A message whose last `left` bytes begin with this fragment.
abbrev pub fragment : ℕ → ℕ → ℕ → List ℕ → Msg
fragment cc id left src = record {
  cc_id = cc;
  id = id;
  remain = pos left -ℤ pos data_length;
  payload = bytes src;
}

r_size_lem : (left : ℕ) → pos data_length +ℤ (pos left -ℤ pos data_length) ≡ pos left
r_size_lem left = omega int_laws

more_lem : (left : ℕ) → data_length < left → ltb_ℤ (pos 0) (pos left -ℤ pos data_length) ≡ true
unfolding ◌-ℤ◌
more_lem left h = ground arith

last_lem : (left : ℕ) → left ≤ data_length → ltb_ℤ (pos 0) (pos left -ℤ pos data_length) ≡ false
unfolding ◌-ℤ◌
last_lem left h = ground arith

same_lem : (i : ℕ) → (i == i) ≡ true
same_lem i = ground arith

put_self : (i : ℕ) (d c : Cache) (p : Pending) → put i d ((i, c) ∷ p) ≡ (i, d) ∷ p
unfolding put
put_self i d c p = rw (same_lem i)

erase_self : (i : ℕ) (c : Cache) (p : Pending) → erase i ((i, c) ∷ p) ≡ p
unfolding erase
erase_self i c p = rw (same_lem i)

foreign_lem :
    (cc : ℕ) (own : Option ℕ)
    → own ≢ some cc
    → elim own as (λ _. Bool) [ none ↦ false | some i ↦ cc == i ] ≡ false
foreign_lem sender none h = refl
foreign_lem sender (some i) h = elim (Bool-cases (sender == i)) [
  | inl e ↦ absurd (h (ap some (sym ((==_iff sender i).0 e))))
  | inr e ↦ e
]

module _ (alloc : ℕ → List ℕ) (own : Option ℕ) (found : ℤ → ℕ → Bool) (cc id : ℕ)
    (other : own ≢ some cc) where
  foreign : elim own as (λ _. Bool) [ none ↦ false | some i ↦ cc == i ] ≡ false
  foreign = foreign_lem cc own other

  pub recv-only :
      (left : ℕ) (src : List ℕ) (ms : List Msg) (p : Pending)
      → 0 < left
      → left ≤ data_length
      → find id p ≡ none
      → recv alloc own found (fragment cc id left src ∷ ms) p
        ≡ record { result = message (make_cache alloc src left); pending = p; queue = ms }
  unfolding recv
  recv-only zero src ms p h l e = absurd (omega arith)
  recv-only (suc n) src ms p h l e =
      let small : leb (suc n) data_length ≡ true = ground arith in
      rw (foreign, r_size_lem (suc n), e, small)

  pub recv-first :
      (left : ℕ) (src : List ℕ) (ms : List Msg) (p : Pending)
      → data_length < left
      → find id p ≡ none
      → recv alloc own found (fragment cc id left src ∷ ms) p
        ≡ recv alloc own found ms
            ((id, record { fill = data_length; buff = make_cache alloc src left }) ∷ collect id p)
  unfolding recv
  recv-first zero src ms p h e = absurd (omega arith)
  recv-first (suc n) src ms p h e =
      let big : leb (suc n) data_length ≡ false = ground arith in
      rw (foreign, r_size_lem (suc n), e, big)

  pub recv-more :
      (left : ℕ) (src : List ℕ) (ms : List Msg) (c : Cache) (p : Pending)
      → data_length < left
      → recv alloc own found (fragment cc id left src ∷ ms) ((id, c) ∷ p)
        ≡ recv alloc own found ms ((id, append src data_length c) ∷ p)
  unfolding recv find
  recv-more zero src ms c p h = absurd (omega arith)
  recv-more (suc n) src ms c p h = rw (
    foreign,
    r_size_lem (suc n),
    same_lem id,
    more_lem (suc n) h,
    put_self id (append src data_length c) c p,
  )

  pub recv-last :
      (left : ℕ) (src : List ℕ) (ms : List Msg) (c : Cache) (p : Pending)
      → 0 < left
      → left ≤ data_length
      → recv alloc own found (fragment cc id left src ∷ ms) ((id, c) ∷ p)
        ≡ record { result = message (append src left c).buff; pending = p; queue = ms }
  unfolding recv find
  recv-last zero src ms c p h l = absurd (omega arith)
  recv-last (suc n) src ms c p h l =
      rw (foreign, r_size_lem (suc n), same_lem id, last_lem (suc n) l, erase_self id c p)
