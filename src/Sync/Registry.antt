-- ===== src/Sync/Registry.antt =====
-- src/libipc/platform/linux/mutex.h: an entry lives as long as a handle uses it.
pub mod Handles
use mathlib.Core.Option.{some-injective, none-ne-some}
use cpp_ipc.Prelude.{
  ℕ, zero, suc, ◌+◌, ◌-◌, ◌%◌, ◌^◌, ◌≤◌, ◌<◌, ◌≡◌, ◌≢◌, refl, sym, ap, ◌∙◌, arith, Bool, true,
  false, ◌||◌, ◌⊎◌, inl, inr, Bool-cases, Option-cases, Option, none, some, List, [], ◌∷◌, ◌==◌,
  if◌then◌else◌, leb, ltb, get_elem?, set, length, replicate,
}
use cpp_ipc.RwLock.Tally.{tally, tally-set, tally-elem, tally_le_length, tally-replicate}
use cpp_ipc.Sync.{Entry, Program, put, acquire_mutex, close, attach, open_mutex}

pub dec_eq : (a b : ℕ) → (a ≡ b) ⊎ (a ≢ b)
dec_eq a b = ground arith

-- 1 for a handle on the entry.
pub uses : ℕ → Option ℕ → ℕ
uses k none = 0
uses k (some j) = if j == k then 1 else 0

-- The program with its handles.
pub record IsValid (p : Program) (hs : List (Option ℕ)) : Type 0 where
  -- An entry is found by its name, and the map holds no other.
  pub found :
      (k : ℕ) (e : Entry)
      → p.entry k ≡ some e
      → (p.handles e.name ≡ some k) × (k < p.next) × (e.name ≢ 0)
  pub named : (n k : ℕ) → p.handles n ≡ some k → (e : Entry) × (p.entry k ≡ some e) × (e.name ≡ n)
  -- An entry that is used is there.
  pub alive : (k : ℕ) → 1 ≤ tally (uses k) hs → (e : Entry) × (p.entry k ≡ some e)
  pub counted :
      (k : ℕ) (e : Entry) → p.entry k ≡ some e → e.opened ≡ true → e.ref ≡ tally (uses k) hs
  -- No entry has a name without memory.
  pub mapped : (k : ℕ) (e : Entry) → p.entry k ≡ some e → e.named ≡ e.opened

pub put_cases {ℓ} :
    {A : Type ℓ} (f : ℕ → A) (k : ℕ) (v : A) (j : ℕ)
    → ((k ≡ j) × (put f k v j ≡ v)) ⊎ ((k ≢ j) × (put f k v j ≡ f j))
put_cases f k v j = elim (dec_eq k j) [
  | inl same ↦ inl (same, let e : (k == j) ≡ true = ground arith in rw e refl)
  | inr other ↦ inr (other, let e : (k == j) ≡ false = ground arith in rw e refl)
]

-- Only handles on the entry `k` have come or gone.
pub SameBut : ℕ → List (Option ℕ) → List (Option ℕ) → Type 0
SameBut k hs hs' = (j : ℕ) → k ≢ j → tally (uses j) hs' ≡ tally (uses j) hs

-- The entry at `k` gets another count.
module _ (p : Program) (hs hs' : List (Option ℕ)) (v : IsValid p hs) (k : ℕ) (e : Entry)
    (there : p.entry k ≡ some e) (same_but : SameBut k hs hs') where
  here : (j : ℕ) (x : Entry) → k ≡ j → p.entry j ≡ some x → e ≡ x
  here j x same h = some-injective e x (sym there ∙ ap p.entry same ∙ h)

  -- The entry was not opened, so that it is not counted.
  pub keep-IsValid : e.opened ≡ false → IsValid p hs'
  unfolding SameBut
  keep-IsValid shut = record {
    found = v.found;
    named = v.named;
    alive = λ j l. elim (dec_eq k j) [
      | inl same ↦ (e, ap p.entry (sym same) ∙ there)
      | inr other ↦ v.alive j (omega (arith, same_but j other))
    ];
    counted = λ j f h opened. elim (dec_eq k j) [
      | inl same ↦ cc (ap (λ (x : Entry). x.opened) (here j f same h), shut, opened)
      | inr other ↦ same_ref j f h opened other
    ];
    mapped = v.mapped;
  }
    where
      same_ref :
          (j : ℕ) (f : Entry)
          → p.entry j ≡ some f
          → f.opened ≡ true
          → k ≢ j
          → f.ref ≡ tally (uses j) hs'
      same_ref j f h opened other = v.counted j f h opened ∙ sym (same_but j other)

  pub recount-IsValid :
      (ref : ℕ)
      → ref ≡ tally (uses k) hs'
      → IsValid (record p { entry = put p.entry k (some (record e { ref = ref })) }) hs'
  unfolding SameBut
  recount-IsValid ref count =
      let new : Entry = record e { ref = ref } in
      record {
        found = λ j f h. elim (put_cases p.entry k (some new) j) [
          | inl (same, at) ↦
              let name : e.name ≡ f.name =
                ap (λ (x : Entry). x.name) (some-injective new f (sym at ∙ h)) in
              let (a, b, c) = v.found k e there in
              (ap p.handles (sym name) ∙ a ∙ ap some same, omega arith, λ z. c (name ∙ z))
          | inr (other, at) ↦ v.found j f (sym at ∙ h)
        ];
        named = λ n j h.
            let (x, at_x, name) = v.named n j h in
            elim (put_cases p.entry k (some new) j) [
              | inl (same, at) ↦ (new, at, ap (λ (x : Entry). x.name) (here j x same at_x) ∙ name)
              | inr (other, at) ↦ (x, at ∙ at_x, name)
            ];
        alive = λ j l. elim (put_cases p.entry k (some new) j) [
          | inl (same, at) ↦ (new, at)
          | inr (other, at) ↦
              let (x, at_x) = v.alive j (omega (arith, same_but j other)) in (x, at ∙ at_x)
        ];
        counted = λ j f h opened. elim (put_cases p.entry k (some new) j) [
          | inl (same, at) ↦
              sym (ap (λ (x : Entry). x.ref) (some-injective new f (sym at ∙ h)))
              ∙ count
              ∙ ap (λ m. tally (uses m) hs') same
          | inr (other, at) ↦ v.counted j f (sym at ∙ h) opened ∙ sym (same_but j other)
        ];
        mapped = λ j f h. elim (put_cases p.entry k (some new) j) [
          | inl (same, at) ↦
              let equal = some-injective new f (sym at ∙ h) in
              sym (ap (λ (x : Entry). x.named) equal)
              ∙ v.mapped k e there
              ∙ ap (λ (x : Entry). x.opened) equal
          | inr (other, at) ↦ v.mapped j f (sym at ∙ h)
        ];
      }

  -- The entry at `k` is erased once no handle uses it.
  pub erase-IsValid :
      tally (uses k) hs' ≡ 0
      → IsValid (record p { entry = put p.entry k none; handles = put p.handles e.name none }) hs'
  unfolding SameBut
  erase-IsValid unused = record {
    found = λ j f h. elim (put_cases p.entry k none j) [
      | inl (same, at) ↦ absurd (none-ne-some f (sym at ∙ h))
      | inr (other, at) ↦
          let (a, b, c) = v.found j f (sym at ∙ h) in
          let (a', b', c') = v.found k e there in
          elim (put_cases p.handles e.name none f.name) [
            | inl (same, gone) ↦
                absurd (other (some-injective k j (sym a' ∙ ap p.handles same ∙ a)))
            | inr (differs, stays) ↦ (stays ∙ a, b, c)
          ]
    ];
    named = λ n j h. elim (put_cases p.handles e.name none n) [
      | inl (same, gone) ↦ absurd (none-ne-some j (sym gone ∙ h))
      | inr (differs, stays) ↦
          let (x, at_x, name) = v.named n j (sym stays ∙ h) in
          elim (put_cases p.entry k none j) [
            | inl (same, at) ↦
                absurd (differs (ap (λ (x : Entry). x.name) (here j x same at_x) ∙ name))
            | inr (other, at) ↦ (x, at ∙ at_x, name)
          ]
    ];
    alive = λ j l. elim (put_cases p.entry k none j) [
      | inl (same, at) ↦ absurd (omega (arith, unused, ap (λ m. tally (uses m) hs') same))
      | inr (other, at) ↦
          let (x, at_x) = v.alive j (omega (arith, same_but j other)) in (x, at ∙ at_x)
    ];
    counted = λ j f h opened. elim (put_cases p.entry k none j) [
      | inl (same, at) ↦ absurd (none-ne-some f (sym at ∙ h))
      | inr (other, at) ↦ v.counted j f (sym at ∙ h) opened ∙ sym (same_but j other)
    ];
    mapped = λ j f h. elim (put_cases p.entry k none j) [
      | inl (same, at) ↦ absurd (none-ne-some f (sym at ∙ h))
      | inr (other, at) ↦ v.mapped j f (sym at ∙ h)
    ];
  }
