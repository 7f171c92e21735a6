-- ===== src/Mem/Sizes/Fits.antt =====
-- src/libipc/mem/new.cpp: a block holds the size it was chosen for.
use cpp_ipc.Prelude.{
  ℕ, ◌+◌, ◌-◌, ◌*◌, ◌/◌, ◌^◌, ◌≤◌, ◌<◌, ◌≡◌, refl, ap, ◌∙◌, arith, true, [], ◌∷◌, max, dec_le,
}
use cpp_ipc.Prelude.Align.{bit_and-high_mask}
use cpp_ipc.Ipc.Chunks.{u64}
use cpp_ipc.Mem.Monotonic.{round_up}
use cpp_ipc.Mem.Sizes.{regular_level, block_pool_resource, elem, get_regular_resource}

round_up_lem :
    (k s : ℕ)
    → k ≤ 13
    → s ≤ 65536
    → 2 ^ k ≤ 8192
    → round_up s (2 ^ k) ≡ (s + 2 ^ k - 1) / 2 ^ k * 2 ^ k
unfolding round_up
round_up_lem k s l h small =
    let word : u64 (s + 2 ^ k - 1) ≡ s + 2 ^ k - 1 = omega arith in
    rw word (bit_and-high_mask k (64 - k) 64 (s + 2 ^ k - 1) (omega arith) (omega arith))

level_0 : (s : ℕ) → s ≤ 128 → regular_level s ≡ 0
unfolding regular_level
level_0 s h = ground arith

level_1 : (s : ℕ) → 128 < s → s ≤ 1024 → regular_level s ≡ 1
unfolding regular_level
level_1 s h l = ground arith

level_2 : (s : ℕ) → 1024 < s → s ≤ 8192 → regular_level s ≡ 2
unfolding regular_level
level_2 s h l = ground arith

level_3 : (s : ℕ) → 8192 < s → s ≤ 65536 → regular_level s ≡ 3
unfolding regular_level
level_3 s h l = ground arith

-- The cases of a switch are the multiples of the alignment that the sizes of its level are rounded to.
elem_16 :
    (q : ℕ) → 1 ≤ q → q ≤ 8 → elem (q * 16) (16 ∷ 32 ∷ 48 ∷ 64 ∷ 80 ∷ 96 ∷ 112 ∷ 128 ∷ []) ≡ true
elem_16 q h l = ground arith

elem_128 :
    (q : ℕ) → 2 ≤ q → q ≤ 8 → elem (q * 128) (256 ∷ 384 ∷ 512 ∷ 640 ∷ 768 ∷ 896 ∷ 1024 ∷ []) ≡ true
elem_128 q h l = ground arith

elem_1024 :
    (q : ℕ)
    → 2 ≤ q
    → q ≤ 8
    → elem (q * 1024) (2048 ∷ 3072 ∷ 4096 ∷ 5120 ∷ 6144 ∷ 7168 ∷ 8192 ∷ []) ≡ true
elem_1024 q h l = ground arith

elem_8192 :
    (q : ℕ)
    → 2 ≤ q
    → q ≤ 8
    → elem (q * 8192) (16384 ∷ 24576 ∷ 32768 ∷ 40960 ∷ 49152 ∷ 57344 ∷ 65536 ∷ []) ≡ true
elem_8192 q h l = ground arith

-- The pool that a size has, whose blocks hold it.
pub Fits : ℕ → Type 0
Fits s =
    (b : ℕ) × (e : ℕ) × (get_regular_resource s ≡ block_pool_resource b e)
    × (get_regular_resource b ≡ block_pool_resource b e)
    × (s ≤ b)
    × (b < s + max 16 s)

pool_0 :
    (s : ℕ)
    → 0 < s
    → s ≤ 128
    → get_regular_resource s ≡ block_pool_resource ((s + 15) / 16 * 16) 512
unfolding get_regular_resource
pool_0 s h l =
    let size : round_up s 16 ≡ (s + 15) / 16 * 16 =
      round_up_lem 4 s (omega arith) (omega arith) (omega arith) ∙ omega arith in
    rw (level_0 s l, size, elem_16 ((s + 15) / 16) (omega arith) (omega arith)) refl

fits_0 : (s : ℕ) → 0 < s → s ≤ 128 → Fits s
unfolding Fits
fits_0 s h l =
    let same : ((s + 15) / 16 * 16 + 15) / 16 * 16 ≡ (s + 15) / 16 * 16 = omega arith in
    (
      (s + 15) / 16 * 16,
      512,
      pool_0 s h l,
      pool_0 ((s + 15) / 16 * 16) (omega arith) (omega arith)
          ∙ ap (λ b. block_pool_resource b 512) same,
      omega arith,
      omega arith,
    )

pool_1 :
    (s : ℕ)
    → 128 < s
    → s ≤ 1024
    → get_regular_resource s ≡ block_pool_resource ((s + 127) / 128 * 128) 256
unfolding get_regular_resource
pool_1 s h l =
    let size : round_up s 128 ≡ (s + 127) / 128 * 128 =
      round_up_lem 7 s (omega arith) (omega arith) (omega arith) ∙ omega arith in
    rw (level_1 s h l, size, elem_128 ((s + 127) / 128) (omega arith) (omega arith)) refl

fits_1 : (s : ℕ) → 128 < s → s ≤ 1024 → Fits s
unfolding Fits
fits_1 s h l =
    let same : ((s + 127) / 128 * 128 + 127) / 128 * 128 ≡ (s + 127) / 128 * 128 = omega arith in
    (
      (s + 127) / 128 * 128,
      256,
      pool_1 s h l,
      pool_1 ((s + 127) / 128 * 128) (omega arith) (omega arith)
          ∙ ap (λ b. block_pool_resource b 256) same,
      omega arith,
      omega arith,
    )

pool_2 :
    (s : ℕ)
    → 1024 < s
    → s ≤ 8192
    → get_regular_resource s ≡ block_pool_resource ((s + 1023) / 1024 * 1024) 128
unfolding get_regular_resource
pool_2 s h l =
    let size : round_up s 1024 ≡ (s + 1023) / 1024 * 1024 =
      round_up_lem 10 s (omega arith) (omega arith) (omega arith) ∙ omega arith in
    rw (level_2 s h l, size, elem_1024 ((s + 1023) / 1024) (omega arith) (omega arith)) refl

fits_2 : (s : ℕ) → 1024 < s → s ≤ 8192 → Fits s
unfolding Fits
fits_2 s h l =
    let same : ((s + 1023) / 1024 * 1024 + 1023) / 1024 * 1024 ≡ (s + 1023) / 1024 * 1024 =
      omega arith in
    (
      (s + 1023) / 1024 * 1024,
      128,
      pool_2 s h l,
      pool_2 ((s + 1023) / 1024 * 1024) (omega arith) (omega arith)
          ∙ ap (λ b. block_pool_resource b 128) same,
      omega arith,
      omega arith,
    )

pool_3 :
    (s : ℕ)
    → 8192 < s
    → s ≤ 65536
    → get_regular_resource s ≡ block_pool_resource ((s + 8191) / 8192 * 8192) 64
unfolding get_regular_resource
pool_3 s h l =
    let size : round_up s 8192 ≡ (s + 8191) / 8192 * 8192 =
      round_up_lem 13 s (omega arith) (omega arith) (omega arith) ∙ omega arith in
    rw (level_3 s h l, size, elem_8192 ((s + 8191) / 8192) (omega arith) (omega arith)) refl

fits_3 : (s : ℕ) → 8192 < s → s ≤ 65536 → Fits s
unfolding Fits
fits_3 s h l =
    let same : ((s + 8191) / 8192 * 8192 + 8191) / 8192 * 8192 ≡ (s + 8191) / 8192 * 8192 =
      omega arith in
    (
      (s + 8191) / 8192 * 8192,
      64,
      pool_3 s h l,
      pool_3 ((s + 8191) / 8192 * 8192) (omega arith) (omega arith)
          ∙ ap (λ b. block_pool_resource b 64) same,
      omega arith,
      omega arith,
    )

-- Each size from 1 to 65536 has a pool whose blocks hold it, and are smaller than the sum of the
-- size with the larger of itself and 16, and the size of those blocks has the same pool.
pub get_regular_resource-Fits :
    (s : ℕ)
    → 1 ≤ s
    → s ≤ 65536
    → (b : ℕ) × (e : ℕ) × (get_regular_resource s ≡ block_pool_resource b e)
      × (get_regular_resource b ≡ block_pool_resource b e)
      × (s ≤ b)
      × (b < s + max 16 s)
unfolding Fits
get_regular_resource-Fits s h l = elim (dec_le s 128) [
  | yes small ↦ fits_0 s h small
  | no more ↦ elim (dec_le s 1024) [
    | yes small ↦ fits_1 s (omega arith) small
    | no more' ↦ elim (dec_le s 8192) [
      | yes small ↦ fits_2 s (omega arith) small
      | no more'' ↦ fits_3 s (omega arith) l
    ]
  ]
]
