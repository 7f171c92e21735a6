-- ===== src/Ipc/Chunks/Layout.antt =====
-- src/libipc/ipc.cpp: the sizes and places of chunks.
use cpp_ipc.Prelude.{
  ℕ, ◌+◌, ◌-◌, ◌*◌, ◌/◌, ◌%◌, ◌^◌, ◌≤◌, ◌<◌, bit_and, ◌≡◌, ◌≢◌, arith, some, ◌⊎◌, inl, inr, ◌∙◌,
  sym, ap, zero, suc, dec_lt,
}
use cpp_ipc.Prelude.Bits.{bit_not, bit_and_fields, bit_and-low_mask, bit_and-zero}
use cpp_ipc.Prelude.Int.{pos}
use cpp_ipc.Ipc.Chunks.{
  u64, make_align, align_chunk_size, calc_chunk_size, data_offset, chunks_mem_size, Chunks,
  find_storage,
}
use cpp_ipc.IdPool.{max_count}

make_align-sixteen : (n : ℕ) → n < 2 ^ 48 → make_align 16 n ≡ (n + 15) / 16 * 16
make_align-sixteen n h =
    let x : ℕ = n + 16 - 1 in
    let fields : x / 16 * 2 ^ 4 + x % 16 ≡ u64 x = omega arith in
    let masked : bit_and (x / 16 * 2 ^ 4 + x % 16) ((2 ^ 60 - 1) * 2 ^ 4 + 0)
        ≡ bit_and (x / 16) (2 ^ 60 - 1) * 2 ^ 4 + bit_and (x % 16) 0 =
      bit_and_fields 4 (x / 16) (2 ^ 60 - 1) (x % 16) 0 (omega arith) (omega arith) in
    ap (λ t. bit_and t (bit_not 64 15)) (sym fields)
    ∙ omega (arith, masked, bit_and-low_mask 60 (x / 16), bit_and-zero (x % 16))

-- For sizes below 2^40, a chunk has room for its connections and its message, less than 1024 bytes
-- to spare, and a size that is a multiple of 1024.
pub calc_chunk_size-bounds :
    (size : ℕ)
    → size < 2 ^ 40
    → (data_offset + size ≤ calc_chunk_size size)
      × (calc_chunk_size size < data_offset + size + 1024)
      × (calc_chunk_size size % 1024 ≡ 0)
calc_chunk_size-bounds size h =
    let aligned : align_chunk_size (u64 (data_offset + size)) ≡ (size + 15) / 1024 * 1024 + 1024 =
      omega arith in
    let whole : calc_chunk_size size ≡ (size + 15) / 1024 * 1024 + 1024 =
      ap (λ t. make_align 16 t) aligned
      ∙ make_align-sixteen ((size + 15) / 1024 * 1024 + 1024) (omega arith)
      ∙ omega arith in
    rw whole (omega arith, omega arith, omega arith)

apart : (c i j : ℕ) → i < j → c * i + c ≤ c * j
apart c i zero h = absurd (omega arith)
apart c i (suc j) h = elim (dec_lt i j) [
  | yes l ↦ omega (arith, apart c i j l)
  | no n ↦ let same : i ≡ j = omega arith in rw same (omega arith)
]

-- Where a chunk of less than 2^42 bytes begins.
u64-slot : (c i : ℕ) → i < max_count → c < 2 ^ 42 → u64 (c * i) ≡ c * i
u64-slot c i h l = omega (arith, apart c i max_count h)

apart_either : (c i j : ℕ) → i ≢ j → (c * i + c ≤ c * j) ⊎ (c * j + c ≤ c * i)
apart_either c i j ne = elim (dec_lt i j) [
  | yes l ↦ inl (apart c i j l)
  | no n ↦ inr (apart c j i (omega arith))
]

-- For messages below 2^40 bytes of one size class, the bytes of a chunk lie in the memory of the
-- chunks and do not overlap those of another chunk.
pub find_storage-disjoint :
    (i j size size' : ℕ) (info : Chunks)
    → i < max_count
    → j < max_count
    → i ≢ j
    → size < 2 ^ 40
    → size' < 2 ^ 40
    → calc_chunk_size size ≡ calc_chunk_size size'
    → (a : ℕ) × (b : ℕ) × (find_storage (pos i) size (some info) ≡ some a)
      × (find_storage (pos j) size' (some info) ≡ some b)
      × (a + size ≤ chunks_mem_size (calc_chunk_size size))
      × ((a + size ≤ b) ⊎ (b + size' ≤ a))
unfolding find_storage
find_storage-disjoint i j size size' info hi hj ne h h' e =
    let c : ℕ = calc_chunk_size size in
    let room : data_offset + size ≤ c = (calc_chunk_size-bounds size h).0 in
    let near : c < data_offset + size + 1024 = (calc_chunk_size-bounds size h).1 in
    let room' : data_offset + size' ≤ c = rw e (calc_chunk_size-bounds size' h').0 in
    let at_i : u64 (c * i) ≡ c * i = u64-slot c i hi (omega arith) in
    let at_j : u64 (c * j) ≡ c * j = u64-slot c j hj (omega arith) in
    let mem : chunks_mem_size c ≡ max_count * c = omega arith in
    (
      c * i + data_offset,
      c * j + data_offset,
      rw at_i,
      rw (← e, at_j),
      rw mem (omega (arith, apart c i max_count hi)),
      ground (arith, apart_either c i j ne),
    )
