-- ===== src/Shm/Handle.antt =====
-- src/libipc/shm.cpp: `handle`, which owns one use of a shared memory object.
use cpp_ipc.Prelude.{
  ℕ, ◌^◌, ◌<◌, ◌≡◌, ◌≢◌, refl, arith, Bool, false, not, Option, none, some, List, [], ◌∷◌, ◌==◌,
  if◌then◌else◌,
}
use cpp_ipc.Prelude.Int.{ℤ, negsuc}
use cpp_ipc.Shm
use cpp_ipc.Shm.{System, Call, IdInfo}

-- `handle_`: an `m` of 0 is the null pointer.
pub record Handle : Type 0 where
  pub id : Option IdInfo
  pub m : ℕ
  pub n : List ℕ
  pub s : ℕ

abbrev pub empty : Handle
empty = record { id = none; m = 0; n = []; s = 0 }

pub valid : Handle → Bool
valid h = not (h.m == 0)

-- The id and the handle without it.
pub detach : Handle → Option IdInfo × Handle
detach h = (h.id, empty)

module _ (word : ℕ → ℕ) where
  -- What `release` returns, the handle, the counts and the calls.
  pub release : Handle → (ℕ → ℕ) → ℤ × Handle × (ℕ → ℕ) × List Call
  release h acc = elim h.id [
    | none ↦ (negsuc 0, h, acc, [])
    | some i ↦ let (ret, acc', calls) = Shm.release word i acc in (ret, (detach h).1, acc', calls)
  ]

  pub clear : Handle → (ℕ → ℕ) → Handle × (ℕ → ℕ) × List Call
  clear h acc = elim h.id [
    | none ↦ (h, acc, [])
    | some i ↦ let (acc', calls) = Shm.remove word i acc in ((detach h).1, acc', calls)
  ]

  -- `id_` and the memory that `get_mem` finds for it.
  pub hold : System → IdInfo → Handle → (ℕ → ℕ) → Handle × (ℕ → ℕ)
  hold os i h acc =
      let (i', acc', r) = Shm.get_mem word os i acc in
      elim r [
        | none ↦ (record h { id = some i'; m = 0 }, acc')
        | some (mem, size) ↦ (record h { id = some i'; m = mem; s = size }, acc')
      ]

  pub attach : System → Option IdInfo → Handle → (ℕ → ℕ) → Handle × (ℕ → ℕ) × List Call
  attach os none h acc = (h, acc, [])
  attach os (some i) h acc =
      let (ret, h', acc', calls) = release h acc in
      let (h'', acc'') = hold os i h' acc' in (h'', acc'', calls)

  -- The result, the handle, the counts and the calls.
  pub acquire :
      System
      → (name : List ℕ) → (size mode : ℕ) → Handle
      → (ℕ → ℕ)
      → Bool × Handle × (ℕ → ℕ) × List Call
  acquire os [] size mode h acc = (false, h, acc, [])
  acquire os (c ∷ name) size mode h acc =
      if size == 0
      then (false, h, acc, [])
      else let (ret, h', acc', calls) = release h acc in
        elim (Shm.acquire os (c ∷ name) size mode) [
          | none ↦ (false, h', acc', calls)
          | some i ↦
              let (h'', acc'') = hold os i (record h' { n = c ∷ name }) acc' in
              (valid h'', h'', acc'', calls)
        ]

  -- An empty handle that acquires an object and releases it leaves the counts of all objects as
  -- they were and is empty, also where the acquisition fails, if memory is mapped at addresses
  -- that are not null.
  pub release-acquire :
      (os : System) (name : List ℕ) (size mode : ℕ) (acc : ℕ → ℕ) (o : ℕ)
      → acc o < 2 ^ 32
      → os.mmap ≢ some 0
      → let (ok, h, acc', calls) = acquire os name size mode empty acc in
        let (ret, h', acc'', calls') = release h acc' in (acc'' o ≡ acc o) × (h' ≡ empty)
  unfolding acquire release hold detach Shm.acquire Shm.get_mem Shm.map_mem Shm.release
      Shm.calc_size
  release-acquire os [] size mode acc o h real = (refl, refl)
  release-acquire os (c ∷ name) size mode acc o h real = ground arith
