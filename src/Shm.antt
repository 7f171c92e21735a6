-- ===== src/Shm.antt =====
-- src/libipc/platform/posix/shm_posix.cpp: shared memory objects with a count of their users at
-- their end. What the operating system answers is an argument; `none` and `false` are failures.
pub mod Handle
pub mod Users
mod Tests
use cpp_ipc.Prelude.{
  ℕ, ◌+◌, ◌-◌, ◌*◌, ◌/◌, ◌%◌, ◌^◌, Bool, true, false, ◌||◌, Option, none, some, List, [], ◌∷◌, ◌++◌,
  ◌==◌, ltb, leb, if◌then◌else◌,
}
use cpp_ipc.Prelude.Int.{ℤ, pos, negsuc}
use cpp_ipc.Ipc.{to_i32}
use cpp_ipc.Mem.Cache.{update}

-- What the next calls return: the descriptor of `shm_open`, the size of `fstat`, whether `ftruncate`
-- succeeds, and the address of `mmap`.
pub record System : Type 0 where
  pub shm_open : Option ℕ
  pub fstat : Option ℕ
  pub ftruncate : Bool
  pub mmap : Option ℕ

-- Calls without an answer that matters.
pub data Call : Type 0 where
  munmap : (mem size : ℕ) → Call
  shm_unlink : (name : List ℕ) → Call

-- `id_info_t`: a `mem` of 0 is the null pointer, an `fd` of `none` is -1.
pub record IdInfo : Type 0 where
  pub fd : Option ℕ
  pub mem : ℕ
  pub size : ℕ
  pub name : List ℕ

-- `alignof(info_t)` and `sizeof(info_t)`.
abbrev pub info_size : ℕ
info_size = 4

pub calc_size : ℕ → ℕ
calc_size size = ((size - 1) / info_size + 1) * info_size + info_size

-- A name begins with a "/".
pub op_name : List ℕ → List ℕ
op_name [] = []
op_name (c ∷ name) = if c == 47 then c ∷ name else 47 ∷ c ∷ name

-- The modes `create` and `open`; other modes create an object that does not exist.
abbrev pub mode_create : ℕ
mode_create = 1

abbrev pub mode_open : ℕ
mode_open = 2

pub acquire : System → (name : List ℕ) → (size mode : ℕ) → Option IdInfo
acquire os [] size mode = none
acquire os (c ∷ name) size mode = elim os.shm_open [
  | none ↦ none
  | some fd ↦ some (record {
    fd = some fd;
    mem = 0;
    size = if mode == mode_open then 0 else size;
    name = op_name (c ∷ name);
  })
]

-- `word` tells which word of the shared memory objects is mapped at an address, and `acc` is the value
-- of each word that is a count.
module _ (word : ℕ → ℕ) where
  -- `acc_of`: the count lies at the end of the memory, by the size that the handle has.
  abbrev pub acc_of : (mem size : ℕ) → ℕ
  acc_of mem size = word (mem + size - info_size)

  pub get_ref : IdInfo → (ℕ → ℕ) → ℤ
  get_ref i acc = if i.mem == 0 || i.size == 0 then pos 0 else to_i32 (acc (acc_of i.mem i.size))

  pub sub_ref : IdInfo → (ℕ → ℕ) → ℕ → ℕ
  sub_ref i acc =
      if i.mem == 0 || i.size == 0
      then acc
      else update acc (acc_of i.mem i.size) ((acc (acc_of i.mem i.size) + 2 ^ 32 - 1) % 2 ^ 32)

  -- `mmap` and what follows it.
  pub map_mem : System → IdInfo → (ℕ → ℕ) → IdInfo × (ℕ → ℕ) × Option (ℕ × ℕ)
  map_mem os i acc = elim os.mmap [
    | none ↦ (i, acc, none)
    | some mem ↦ (
      record i { fd = none; mem = mem },
      update acc (acc_of mem i.size) ((acc (acc_of mem i.size) + 1) % 2 ^ 32),
      some (mem, i.size),
    )
  ]

  -- The handle, the counts, and the memory with its size.
  pub get_mem : System → IdInfo → (ℕ → ℕ) → IdInfo × (ℕ → ℕ) × Option (ℕ × ℕ)
  get_mem os i acc =
      if i.mem == 0
      then elim i.fd [
        | none ↦ (i, acc, none)
        | some fd ↦
            if i.size == 0
            then elim os.fstat [
              | none ↦ (i, acc, none)
              | some size ↦
                  let i' = record i { size = size } in
                  if leb size info_size || ltb 0 (size % info_size)
                  then (i', acc, none)
                  else map_mem os i' acc
            ]
            else let i' = record i { size = calc_size i.size } in
              if os.ftruncate then map_mem os i' acc else (i', acc, none)
      ]
      else (i, acc, some (i.mem, i.size))

  -- The result, the counts and the calls.
  pub release : IdInfo → (ℕ → ℕ) → ℤ × (ℕ → ℕ) × List Call
  release i acc =
      if i.mem == 0 || i.size == 0
      then (negsuc 0, acc, [])
      else let users = acc (acc_of i.mem i.size) in
        let unlink = elim i.name as (λ _. List Call) [
          | [] ↦ []
          | c ∷ name ↦ shm_unlink (c ∷ name) ∷ []
        ] in
        (
          to_i32 users,
          update acc (acc_of i.mem i.size) ((users + 2 ^ 32 - 1) % 2 ^ 32),
          munmap i.mem i.size ∷ (if at_most_one (to_i32 users) then unlink else []),
        )
    where
      at_most_one : ℤ → Bool
      at_most_one (pos n) = leb n 1
      at_most_one (negsuc n) = true

  pub remove : IdInfo → (ℕ → ℕ) → (ℕ → ℕ) × List Call
  remove i acc =
      let (ret, acc', calls) = release (record i { name = [] }) acc in
      (
        acc',
        calls
            ++ elim i.name as (λ _. List Call) [ [] ↦ [] | c ∷ name ↦ shm_unlink (c ∷ name) ∷ [] ],
      )

pub remove_name : List ℕ → List Call
remove_name [] = []
remove_name (c ∷ name) = shm_unlink (op_name (c ∷ name)) ∷ []
