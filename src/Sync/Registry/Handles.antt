-- ===== src/Sync/Registry/Handles.antt =====
-- src/libipc/platform/linux/mutex.h: `open` and `close` of any handles of a process.
pub mod Opened
use mathlib.Core.Path.{fun_ext}
use mathlib.Core.Option.{some-injective, none-ne-some}
use cpp_ipc.Prelude.{
  ℕ, zero, suc, ◌+◌, ◌-◌, ◌%◌, ◌^◌, ◌≤◌, ◌<◌, ◌≡◌, ◌≢◌, refl, sym, ap, ◌∙◌, arith, Bool, true,
  false, ◌||◌, ◌⊎◌, inl, inr, Bool-cases, Option-cases, Option, none, some, List, [], ◌∷◌, ◌==◌,
  if◌then◌else◌, leb, ltb, leb→le, get_elem?, set, length, replicate,
}
use cpp_ipc.RwLock.Tally.{tally, tally-set, tally-elem, tally_le_length, tally-replicate}
use cpp_ipc.Sync.{Entry, Program, put, acquire_mutex, close, attach, open_mutex}
use cpp_ipc.Sync.Registry.{
  uses, IsValid, SameBut, put_cases, dec_eq, keep-IsValid, recount-IsValid, erase-IsValid,
}

uses-le : (k : ℕ) (h : Option ℕ) → uses k h ≤ 1
unfolding uses
uses-le k none = omega arith
uses-le k (some j) = ground arith

-- A handle that had the entry `k`, or none, is set.
left-SameBut :
    (hs : List (Option ℕ)) (i k : ℕ) → get_elem? hs i ≡ some (some k) → SameBut k hs (set hs i none)
unfolding SameBut uses
left-SameBut hs i k at j other = ground (arith, tally-set (uses j) hs i (some k) none at)

joined-SameBut :
    (hs : List (Option ℕ)) (i k : ℕ) → get_elem? hs i ≡ some none → SameBut k hs (set hs i (some k))
unfolding SameBut uses
joined-SameBut hs i k at j other = ground (arith, tally-set (uses j) hs i none (some k) at)

one_less :
    (hs : List (Option ℕ)) (i k : ℕ)
    → get_elem? hs i ≡ some (some k)
    → tally (uses k) (set hs i none) + 1 ≡ tally (uses k) hs
unfolding uses
one_less hs i k at = ground (arith, tally-set (uses k) hs i (some k) none at)

one_more :
    (hs : List (Option ℕ)) (i k : ℕ)
    → get_elem? hs i ≡ some none
    → tally (uses k) (set hs i (some k)) ≡ tally (uses k) hs + 1
unfolding uses
one_more hs i k at = ground (arith, tally-set (uses k) hs i none (some k) at)

put-put {ℓ} : {A : Type ℓ} (f : ℕ → A) (k : ℕ) (x y : A) → put (put f k x) k y ≡ put f k y
put-put f k x y = fun_ext λ j. elim (dec_eq k j) [
  | inl same ↦ let e : (k == j) ≡ true = ground arith in rw e refl
  | inr other ↦ let e : (k == j) ≡ false = ground arith in rw e refl
]

-- `close` of the last handle, and of another one.
close-last :
    (k : ℕ) (p : Program) (e : Entry)
    → p.entry k ≡ some e
    → p.handles e.name ≡ some k
    → e.named ≡ true
    → leb e.ref 1 ≡ true
    → close (some k) p
      ≡ some (record p { entry = put p.entry k none; handles = put p.handles e.name none })
unfolding close
close-last k p e there found named last =
    rw (close, there, named, found, last)
      (ap (λ f. some (record p { entry = f; handles = put p.handles e.name none }))
        (put-put p.entry k _ none))

close-other :
    (k : ℕ) (p : Program) (e : Entry)
    → p.entry k ≡ some e
    → p.handles e.name ≡ some k
    → e.named ≡ true
    → 1 < e.ref
    → e.ref < 2 ^ 31
    → close (some k) p
      ≡ some (record p { entry = put p.entry k (some (record e { ref = e.ref - 1 })) })
unfolding close
close-other k p e there found named more few =
    let others : leb e.ref 1 ≡ false = ground arith in
    let positive : leb (2 ^ 31) e.ref ≡ false = ground arith in
    let word : (e.ref + 2 ^ 32 - 1) % 2 ^ 32 ≡ e.ref - 1 = omega arith in
    rw (close, there, named, found, others, positive, word)
      (ap
        (λ b. some (record p {
          entry =
              put p.entry k
                (some (record { name = e.name; named = b; opened = e.opened; ref = e.ref - 1 }));
        }))
        named)

-- `close` finds the entry of its handle.
pub close-IsValid :
    (i k : ℕ) (p : Program) (hs : List (Option ℕ)) (e : Entry)
    → IsValid p hs
    → length hs < 2 ^ 31
    → get_elem? hs i ≡ some (some k)
    → p.entry k ≡ some e
    → (p' : Program) × (close (some k) p ≡ some p') × IsValid p' (set hs i none)
unfolding close
close-IsValid i k p hs e v few at there =
    let less = one_less hs i k at in
    let left = left-SameBut hs i k at in
    let few_uses : tally (uses k) hs < 2 ^ 31 =
      omega (arith, tally_le_length (uses k) (uses-le k) hs) in
    elim (Bool-cases e.named) [
      | inr shut ↦ (
        p,
        rw (close, there, shut) refl,
        keep-IsValid p hs (set hs i none) v k e there left (sym (v.mapped k e there) ∙ shut),
      )
      | inl named ↦
          let count = v.counted k e there (sym (v.mapped k e there) ∙ named) in
          let found = (v.found k e there).0 in
          elim (Bool-cases (leb e.ref 1)) [
            | inl last ↦ (
              _,
              close-last k p e there found named last,
              erase-IsValid p hs (set hs i none) v k e there left
                  (omega (arith, leb→le e.ref 1 last)),
            )
            | inr others ↦ (
              _,
              close-other k p e there found named (ground arith) (omega arith),
              recount-IsValid p hs (set hs i none) v k e there left (e.ref - 1) (omega arith),
            )
          ]
    ]

pub join-IsValid :
    (i k : ℕ) (p : Program) (hs : List (Option ℕ)) (e : Entry)
    → IsValid p hs
    → length hs < 2 ^ 31
    → get_elem? hs i ≡ some none
    → p.entry k ≡ some e
    → (e.opened ≡ true
        → IsValid
            (record p { entry = put p.entry k (some (record e { ref = (e.ref + 1) % 2 ^ 32 })) })
            (set hs i (some k)))
      × (e.opened ≡ false → IsValid p (set hs i (some k)))
join-IsValid i k p hs e v few at there =
    let joined = joined-SameBut hs i k at in
    let few_uses : tally (uses k) hs < 2 ^ 31 =
      omega (arith, tally_le_length (uses k) (uses-le k) hs) in
    (
      λ opened.
          recount-IsValid p hs (set hs i (some k)) v k e there joined ((e.ref + 1) % 2 ^ 32)
            (omega (arith, one_more hs i k at, v.counted k e there opened)),
      λ shut. keep-IsValid p hs (set hs i (some k)) v k e there joined shut,
    )

unused : (p : Program) (hs : List (Option ℕ)) → IsValid p hs → tally (uses p.next) hs ≡ 0
unused p hs v = elim (dec_eq (tally (uses p.next) hs) 0) [
  | inl zero_uses ↦ zero_uses
  | inr used ↦
      let (x, at_x) = v.alive p.next (omega arith) in
      absurd (omega (arith, (v.found p.next x at_x).1))
]

-- A new entry, that no handle uses yet.
pub insert-IsValid :
    (opens : Bool) (name : ℕ) (p : Program) (hs : List (Option ℕ))
    → IsValid p hs
    → name ≢ 0
    → p.handles name ≡ none
    → IsValid
        (record {
          entry =
              put p.entry p.next
                (some (record { name = name; named = opens; opened = opens; ref = 0 }));
          handles = put p.handles name (some p.next);
          next = p.next + 1;
        })
        hs
insert-IsValid opens name p hs v named new =
    let fresh : Entry = record { name = name; named = opens; opened = opens; ref = 0 } in
    record {
      found = λ j f h. elim (put_cases p.entry p.next (some fresh) j) [
        | inl (same, at) ↦
            let equal = ap (λ (x : Entry). x.name) (some-injective fresh f (sym at ∙ h)) in
            elim (put_cases p.handles name (some p.next) f.name) [
              | inl (_, there) ↦ (there ∙ ap some same, omega arith, λ z. named (equal ∙ z))
              | inr (differs, _) ↦ absurd (differs equal)
            ]
        | inr (other, at) ↦
            let (a, b, c) = v.found j f (sym at ∙ h) in
            elim (put_cases p.handles name (some p.next) f.name) [
              | inl (same, _) ↦ absurd (none-ne-some j (sym new ∙ ap p.handles same ∙ a))
              | inr (differs, stays) ↦ (stays ∙ a, omega arith, c)
            ]
      ];
      named = λ n j h. elim (put_cases p.handles name (some p.next) n) [
        | inl (same, there) ↦ elim (put_cases p.entry p.next (some fresh) j) [
          | inl (_, at) ↦ (fresh, at, same)
          | inr (other, _) ↦ absurd (other (some-injective p.next j (sym there ∙ h)))
        ]
        | inr (differs, stays) ↦
            let (x, at_x, is_n) = v.named n j (sym stays ∙ h) in
            elim (put_cases p.entry p.next (some fresh) j) [
              | inl (same, _) ↦ absurd (omega (arith, (v.found j x at_x).1))
              | inr (_, at) ↦ (x, at ∙ at_x, is_n)
            ]
      ];
      alive = λ j l. elim (put_cases p.entry p.next (some fresh) j) [
        | inl (_, at) ↦ (fresh, at)
        | inr (_, at) ↦ let (x, at_x) = v.alive j l in (x, at ∙ at_x)
      ];
      counted = λ j f h opened. elim (put_cases p.entry p.next (some fresh) j) [
        | inl (same, at) ↦
            sym (ap (λ (x : Entry). x.ref) (some-injective fresh f (sym at ∙ h)))
            ∙ sym (unused p hs v)
            ∙ ap (λ m. tally (uses m) hs) same
        | inr (_, at) ↦ v.counted j f (sym at ∙ h) opened
      ];
      mapped = λ j f h. elim (put_cases p.entry p.next (some fresh) j) [
        | inl (same, at) ↦
            let equal = some-injective fresh f (sym at ∙ h) in
            sym (ap (λ (x : Entry). x.named) equal) ∙ ap (λ (x : Entry). x.opened) equal
        | inr (_, at) ↦ v.mapped j f (sym at ∙ h)
      ];
    }
