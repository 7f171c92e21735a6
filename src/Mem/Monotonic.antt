-- ===== src/Mem/Monotonic.antt =====
-- src/libipc/mem/monotonic_buffer_resource.cpp: blocks are cut from the front of a buffer, and the
-- buffers are freed together. What the upstream resource answers is an argument: the address of a
-- block, or `none`.
pub mod Aligned
pub mod Blocks
pub mod Success
use cpp_ipc.Prelude.{
  ℕ, ◌+◌, ◌-◌, ◌*◌, ◌/◌, ◌%◌, ◌^◌, max, bit_and, Option, none, some, List, [], ◌∷◌, ◌==◌, ltb, leb,
  if◌then◌else◌, map,
}
use cpp_ipc.Prelude.Bits.{bit_not}
use cpp_ipc.Ipc.Chunks.{u64}

-- The place and the size of a block of the upstream resource, which begins with `next` and `size`.
pub record Node : Type 0 where
  pub place : ℕ
  pub size : ℕ

-- `sizeof(node)`.
abbrev pub node_size : ℕ
node_size = 16

-- An `initial_buffer` of 0 is the null pointer.
pub record Resource : Type 0 where
  pub free_list : List Node
  pub head : ℕ
  pub tail : ℕ
  pub next_size : ℕ
  pub initial_buffer : ℕ
  pub initial_size : ℕ

-- `round_up` of include/libipc/imp/aligned.h.
unfoldable pub round_up : (value alignment : ℕ) → ℕ
round_up value alignment = bit_and (u64 (value + alignment - 1)) (bit_not 64 (alignment - 1))

unfoldable pub next_buffer_size : ℕ → ℕ
next_buffer_size size = u64 (size * 3) / 2

unfoldable pub no_buffer : (initial_size : ℕ) → Resource
no_buffer initial_size = record {
  free_list = [];
  head = 0;
  tail = 0;
  next_size = initial_size;
  initial_buffer = 0;
  initial_size = initial_size;
}

unfoldable pub with_buffer : (place size : ℕ) → Resource
with_buffer place size = record {
  free_list = [];
  head = place;
  tail = place + size;
  next_size = next_buffer_size size;
  initial_buffer = place;
  initial_size = size;
}

-- `std::align`: the aligned place and the space that is left from it on.
unfoldable pub align : (alignment bytes p space : ℕ) → Option (ℕ × ℕ)
align alignment bytes p space =
    let pad = (alignment - p % alignment) % alignment in
    if ltb space (bytes + pad) then none else some (p + pad, space - pad)

unfoldable pub make_node : Option ℕ → (initial_size alignment : ℕ) → Option Node
make_node none initial_size alignment = none
make_node (some place) initial_size alignment =
    some (record { place = place; size = u64 (round_up node_size alignment + initial_size) })

-- `allocate` after a fresh node.
unfoldable pub try_again : (bytes alignment : ℕ) → Node → Resource → Resource × Option ℕ
try_again bytes alignment node r =
    elim (align alignment bytes (node.place + node_size) (u64 (node.size + 2 ^ 64 - node_size))) [
      | none ↦ (r, none)
      | some (p, s) ↦ (record r { tail = p + s; head = p + bytes }, some p)
    ]

unfoldable pub allocate : Option ℕ → (bytes alignment : ℕ) → Resource → Resource × Option ℕ
allocate upstream bytes alignment r =
    if bytes == 0
    then (r, none)
    else elim (align alignment bytes r.head (u64 (r.tail + 2 ^ 64 - r.head))) [
      | some (p, s) ↦ (record r { head = p + bytes }, some p)
      | none ↦
          let next = max r.next_size bytes in
          elim (make_node upstream next alignment) [
            | none ↦ (record r { next_size = next }, none)
            | some node ↦
                try_again bytes alignment node
                  (record r { free_list = node ∷ r.free_list; next_size = next_buffer_size next })
          ]
    ]

-- The blocks given back to the upstream resource, in order, and the resource after it.
pub release : Resource → List Node × Resource
release r = (
  r.free_list,
  if r.initial_buffer == 0
      then record r { free_list = []; head = 0; tail = 0; next_size = r.initial_size }
      else record r {
        free_list = [];
        head = r.initial_buffer;
        tail = r.initial_buffer + r.initial_size;
        next_size = next_buffer_size r.initial_size;
      },
)
