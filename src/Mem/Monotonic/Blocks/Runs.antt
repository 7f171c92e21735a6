-- ===== src/Mem/Monotonic/Blocks/Runs.antt =====
-- src/libipc/mem/monotonic_buffer_resource.cpp: any calls of `allocate` and `release`.
use cpp_ipc.Prelude.{
  ℕ, ◌+◌, ◌^◌, max, ◌<◌, ◌≡◌, ◌≢◌, arith, refl, false, Option, List, [], All, ◌⊎◌, inl, inr,
  Bool-cases, ◌==◌,
}
use cpp_ipc.Mem.Ranges.{Range, Apart, Inside, Somewhere, Separate, inside}
use cpp_ipc.Mem.Monotonic.{Resource, no_buffer, with_buffer, round_up, node_size, allocate, release}
use cpp_ipc.Mem.Monotonic.Blocks.{IsValid, Fresh, node_bytes, owned, headers, add, allocate-IsValid}

-- The resource with the blocks given out since it was last released.
pub data Reach : Resource → List Range → Type 0 where
  empty : (size : ℕ) → size < 2 ^ 64 → Reach (no_buffer size) []
  buffered :
      (place size : ℕ)
      → (place ≡ 0 → size ≡ 0)
      → place + size < 2 ^ 64
      → Reach (with_buffer place size) []
  allocated :
      {r : Resource} {given : List Range} (k bytes : ℕ) (upstream : Option ℕ)
      → Reach r given
      → k < 64
      → round_up node_size (2 ^ k) + max r.next_size bytes < 2 ^ 64
      → Fresh upstream (node_bytes bytes (2 ^ k) r) r
      → Reach
          (allocate upstream bytes (2 ^ k) r).0
          (add (allocate upstream bytes (2 ^ k) r).1 bytes given)
  released : {r : Resource} {given : List Range} → Reach r given → Reach (release r).1 []

whole_buffer : (place size : ℕ) → Inside (place, place + size) (place, place + size)
whole_buffer place size = inside (omega arith) (omega arith)

-- A resource without nodes, all of whose buffer, where it has one, is free.
fresh-IsValid :
    (r : Resource)
    → r.free_list ≡ []
    → r.initial_buffer + r.initial_size < 2 ^ 64
    → ((r.head ≡ 0) × (r.tail ≡ 0))
      ⊎ ((r.initial_buffer ≢ 0)
          × (r.head ≡ r.initial_buffer)
          × (r.tail ≡ r.initial_buffer + r.initial_size))
    → IsValid r []
unfolding owned headers
fresh-IsValid r e h how = record {
  ordered = ground arith;
  small = ground arith;
  bounded = h;
  space = elim how [
    | inl (a, b) ↦ inl b
    | inr (there, a, b) ↦
        let some_buffer : (r.initial_buffer == 0) ≡ false = ground arith in
        rw (a, b, e, some_buffer) (inr (inl (whole_buffer r.initial_buffer r.initial_size)))
  ];
  inside = tt;
  apart = tt;
  free_given = tt;
  free_headers = rw e tt;
  with_header = rw e tt;
  given_headers = tt;
}

pub release-IsValid :
    (r : Resource) (given : List Range) → IsValid r given → IsValid (release r).1 []
unfolding release
release-IsValid r given v = elim (Bool-cases (r.initial_buffer == 0)) [
  | inl none_there ↦ rw none_there (fresh-IsValid _ refl v.bounded (inl (refl, refl)))
  | inr there ↦ rw there (fresh-IsValid _ refl v.bounded (inr (ground arith, refl, refl)))
]

dec_eq_zero : (n : ℕ) → (n ≡ 0) ⊎ (n ≢ 0)
dec_eq_zero n = ground arith

Reach-IsValid : (r : Resource) (given : List Range) → Reach r given → IsValid r given
unfolding no_buffer with_buffer
Reach-IsValid r given (empty size h) = fresh-IsValid _ refl (omega arith) (inl (refl, refl))
Reach-IsValid r given (buffered place size null h) = elim (dec_eq_zero place) [
  | inl none_there ↦
      fresh-IsValid _ refl h (inl (none_there, omega (arith, none_there, null none_there)))
  | inr there ↦ fresh-IsValid _ refl h (inr (there, refl, refl))
]
Reach-IsValid r given (allocated {r = before} {given = old} k bytes upstream run h fits fresh) =
    allocate-IsValid k bytes upstream before old h fits (Reach-IsValid before old run) fresh
Reach-IsValid r given (released {r = before} {given = old} run) =
    release-IsValid before old (Reach-IsValid before old run)

-- After any calls of `allocate` and `release` whose sizes do not wrap, with alignments that are
-- powers of two and an upstream resource that gives blocks at multiples of 16 that overlap no
-- memory in use, the blocks given out since the last release do not overlap, lie in the nodes of
-- the resource or in its initial buffer, where it was given one that is not null, and overlap no
-- header of a node.
pub blocks-Separate :
    (r : Resource) (given : List Range)
    → Reach r given
    → Separate given
      × All (λ a. Somewhere a (owned r)) given
      × All (λ a. All (Apart a) (headers r)) given
blocks-Separate r given run =
    let v = Reach-IsValid r given run in (v.apart, v.inside, v.given_headers)
