-- ===== src/Mem/Monotonic/Blocks.antt =====
-- src/libipc/mem/monotonic_buffer_resource.cpp: the blocks that are given out.
pub mod Runs
use cpp_ipc.Prelude.{
  ℕ, zero, suc, ◌+◌, ◌-◌, ◌*◌, ◌%◌, ◌^◌, max, ◌≤◌, ◌<◌, ◌≡◌, ◌≢◌, refl, ap, sym, ◌∙◌, arith, Option,
  none, some, List, [], ◌∷◌, ◌++◌, map, All, ◌⊎◌, inl, inr, Option-cases, Bool-cases, ◌==◌,
  if◌then◌else◌, true, false,
}
use mathlib.Core.Option.{some-injective, none-ne-some}
use native.Mathlib.Nat.{one-le-pow}
use cpp_ipc.Ipc.Chunks.{u64}
use cpp_ipc.Mem.Ranges.{
  Range, Apart, Inside, Somewhere, Separate, Inside-All, Inside-Apart, All-both, Inside-Somewhere,
  Somewhere-Apart, All-map, Apart-sym, before, inside,
}
use cpp_ipc.Mem.Monotonic.{
  Node, Resource, node_size, round_up, next_buffer_size, align, make_node, try_again, allocate,
}
use cpp_ipc.Mem.Monotonic.Aligned.{align-Fits, align-some, pad-round_up}

-- What a node needs of the upstream resource for the next `allocate`.
unfoldable pub node_bytes : (bytes alignment : ℕ) → Resource → ℕ
node_bytes bytes alignment r = u64 (round_up node_size alignment + max r.next_size bytes)

-- The blocks of memory of the resource, its initial buffer last where it has one, and the headers of
-- its nodes.
abbrev pub own_buffer : Resource → List Range
own_buffer r =
    if r.initial_buffer == 0 then [] else (r.initial_buffer, r.initial_buffer + r.initial_size) ∷ []

unfoldable pub owned : Resource → List Range
owned r = map (λ n. (n.place, n.place + n.size)) r.free_list ++ own_buffer r

pub headers : Resource → List Range
headers r = map (λ n. (n.place, n.place + node_size)) r.free_list

-- The resource with the blocks it has given out.
pub record IsValid (r : Resource) (given : List Range) : Type 0 where
  pub ordered : r.head ≤ r.tail
  pub small : r.tail < 2 ^ 64
  pub bounded : r.initial_buffer + r.initial_size < 2 ^ 64
  pub space : (r.tail ≡ 0) ⊎ Somewhere (r.head, r.tail) (owned r)
  pub inside : All (λ a. Somewhere a (owned r)) given
  pub apart : Separate given
  pub free_given : All (Apart (r.head, r.tail)) given
  pub free_headers : All (Apart (r.head, r.tail)) (headers r)
  pub with_header : All (λ n. node_size ≤ n.size) r.free_list
  pub given_headers : All (λ a. All (Apart a) (headers r)) given

-- A block of the upstream resource is aligned and overlaps none of the memory in use.
unfoldable pub Fresh : Option ℕ → ℕ → Resource → Type 0
Fresh none size r = Unit
Fresh (some place) size r =
    (place % 16 ≡ 0) × (place + size < 2 ^ 64) × All (Apart (place, place + size)) (owned r)

-- The blocks after a call that returned `p`.
unfoldable pub add : Option ℕ → ℕ → List Range → List Range
add none bytes given = given
add (some p) bytes given = (p, p + bytes) ∷ given

-- A block from the free range, with what is left behind it.
cut-IsValid :
    (r : Resource) (given : List Range) (p bytes : ℕ)
    → IsValid r given
    → r.head ≤ p
    → p + bytes ≤ r.tail
    → 0 < bytes
    → IsValid (record r { head = p + bytes }) ((p, p + bytes) ∷ given)
unfolding owned headers
cut-IsValid r given p bytes v le fit some_bytes =
    let here : Inside (p, p + bytes) (r.head, r.tail) = inside le fit in
    let rest : Inside (p + bytes, r.tail) (r.head, r.tail) = inside (omega arith) (omega arith) in
    let whole : Somewhere (r.head, r.tail) (owned r) = elim v.space [
      | inl none_left ↦ absurd (omega arith)
      | inr h ↦ h
    ] in
    record {
      ordered = fit;
      small = v.small;
      bounded = v.bounded;
      space = inr (Inside-Somewhere (r.head, r.tail) (p + bytes, r.tail) (owned r) rest whole);
      inside = (Inside-Somewhere (r.head, r.tail) (p, p + bytes) (owned r) here whole, v.inside);
      apart = (Inside-All (r.head, r.tail) (p, p + bytes) given here v.free_given, v.apart);
      free_given = (
        Apart-sym _ _ (before (p, p + bytes) (p + bytes, r.tail) (omega arith)),
        Inside-All (r.head, r.tail) (p + bytes, r.tail) given rest v.free_given,
      );
      free_headers =
          Inside-All (r.head, r.tail) (p + bytes, r.tail) (headers r) rest v.free_headers;
      with_header = v.with_header;
      given_headers = (
        Inside-All (r.head, r.tail) (p, p + bytes) (headers r) here v.free_headers,
        v.given_headers,
      );
    }

-- The headers lie in the blocks of memory.
headers-Apart :
    (big : Range) (nodes : List Node)
    → All (λ n. node_size ≤ n.size) nodes
    → (others : List Range)
    → All (Apart big) (map (λ n. (n.place, n.place + n.size)) nodes ++ others)
    → All (Apart big) (map (λ n. (n.place, n.place + node_size)) nodes)
headers-Apart big [] h others a = tt
headers-Apart big (n ∷ nodes) (h, hs) others (a, rest) = (
  Apart-sym _ _ (
      Inside-Apart _ _ big (inside (omega arith) (omega arith))
        (Apart-sym big (n.place, n.place + n.size) a)),
  headers-Apart big nodes hs others rest,
)

-- A fresh node, with all of its space free.
node-IsValid :
    (r : Resource) (given : List Range) (place size next : ℕ)
    → IsValid r given
    → node_size ≤ size
    → Fresh (some place) size r
    → IsValid
        (record r {
          free_list = record { place = place; size = size } ∷ r.free_list;
          head = place + node_size;
          tail = place + size;
          next_size = next;
        })
        given
unfolding owned headers Fresh
node-IsValid r given place size next v fit (sixteen, below, others) =
    let big : Range = (place, place + size) in
    let free : Inside (place + node_size, place + size) big = inside (omega arith) (omega arith) in
    let header : Inside (place, place + node_size) big = inside (omega arith) (omega arith) in
    record {
      ordered = omega arith;
      small = below;
      bounded = v.bounded;
      space = inr (inl free);
      inside = All-map given (λ a s. one_more a s) v.inside;
      apart = v.apart;
      free_given =
          All-map given
            (λ a s.
              Inside-Apart big (place + node_size, place + size) a free
                (Somewhere-Apart big a (owned r) others s))
            v.inside;
      free_headers = (
        Apart-sym _ _
            (before (place, place + node_size) (place + node_size, place + size) (omega arith)),
        Inside-All big _ (headers r) free
            (headers-Apart big r.free_list v.with_header (own_buffer r) others),
      );
      with_header = (fit, v.with_header);
      given_headers =
          All-map given
            (λ a h. (
              Apart-sym _ a (
                  Inside-Apart big (place, place + node_size) a header
                    (Somewhere-Apart big a (owned r) others h.0)),
              h.1,
            ))
            (All-both (λ a. Somewhere a (owned r)) (λ a. All (Apart a) (headers r)) given v.inside
              v.given_headers);
    }
  where
    one_more :
        (a : Range)
        → Somewhere a (owned r)
        → Somewhere a
            (owned (record r { free_list = record { place = place; size = size } ∷ r.free_list }))
    one_more a h = inr h

next-IsValid :
    (r : Resource) (given : List Range) (next : ℕ)
    → IsValid r given
    → IsValid (record r { next_size = next }) given
unfolding owned headers
next-IsValid r given next v = record {
  ordered = v.ordered;
  small = v.small;
  bounded = v.bounded;
  space = v.space;
  inside = v.inside;
  apart = v.apart;
  free_given = v.free_given;
  free_headers = v.free_headers;
  with_header = v.with_header;
  given_headers = v.given_headers;
}

-- A call keeps the blocks apart from each other and inside the memory of the resource, and so the
-- block it returns.
pub allocate-IsValid :
    (k bytes : ℕ) (upstream : Option ℕ) (r : Resource) (given : List Range)
    → k < 64
    → round_up node_size (2 ^ k) + max r.next_size bytes < 2 ^ 64
    → IsValid r given
    → Fresh upstream (node_bytes bytes (2 ^ k) r) r
    → let (r', p) = allocate upstream bytes (2 ^ k) r in IsValid r' (add p bytes given)
unfolding allocate make_node try_again node_bytes add Fresh
allocate-IsValid k bytes upstream r given h fits v fresh = elim (Bool-cases (bytes == 0)) [
  | inl nothing ↦ rw nothing v
  | inr asked ↦ elim (Option-cases (align (2 ^ k) bytes r.head (u64 (r.tail + 2 ^ 64 - r.head)))) [
    | inr ((p, s), e) ↦
        let (le, fit, left) = align-Fits (2 ^ k) bytes r.head _ p s e in
        rw (asked, e)
          (cut-IsValid r given p bytes v le (omega (arith, v.ordered, v.small)) (ground arith))
    | inl full ↦ fresh_node upstream fresh asked full
  ]
]
  where
    fresh_node :
        (upstream : Option ℕ)
        → Fresh upstream (node_bytes bytes (2 ^ k) r) r
        → (bytes == 0) ≡ false
        → align (2 ^ k) bytes r.head (u64 (r.tail + 2 ^ 64 - r.head)) ≡ none
        → let (r', p) = allocate upstream bytes (2 ^ k) r in IsValid r' (add p bytes given)
    fresh_node none fresh asked full =
        rw (asked, full, make_node) (next-IsValid r given (max r.next_size bytes) v)
    fresh_node (some place) fresh asked full =
        let size : ℕ = node_bytes bytes (2 ^ k) r in
        let whole : size ≡ round_up node_size (2 ^ k) + max r.next_size bytes = omega arith in
        let space : ℕ = u64 (size + 2 ^ 64 - node_size) in
        let room = pad-round_up k place h fresh.0 in
        let pad : ℕ = (2 ^ k - (place + node_size) % 2 ^ k) % 2 ^ k in
        let enough : bytes + pad ≤ space = omega arith in
        let e = align-some (2 ^ k) bytes (place + node_size) space enough in
        let p : ℕ = place + node_size + pad in
        let end : p + (space - pad) ≡ place + size = omega arith in
        let next : ℕ = next_buffer_size (max r.next_size bytes) in
        let v' = node-IsValid r given place size next v (omega arith) fresh in
        rw (asked, full, make_node, try_again, e, end)
          (cut-IsValid _ given p bytes v' (omega arith) (omega arith) (ground arith))
