-- ===== src/Sync.antt =====
-- src/libipc/platform/linux/mutex.h: the handles of a process on the mutexes it has opened, by name.
-- A name is a number, 0 the null pointer. Entries of the map are found by name and referred to by
-- address; an address of an entry that was erased is not used again.
pub mod Registry
pub mod Lock
mod Tests
use cpp_ipc.Prelude.{
  ℕ, zero, suc, ◌+◌, ◌-◌, ◌%◌, ◌^◌, Bool, true, false, ◌||◌, Option, none, some, List, [], ◌∷◌,
  ◌==◌, leb, ltb, if◌then◌else◌,
}

-- What a call on the lock returns.
pub data Eno : Type 0 where
  ok : Eno
  timed_out : Eno
  owner_dead : Eno
  failed : Eno

pub data Tried : Type 0 where
  returned : Bool → Tried
  threw : Eno → Tried

-- `robust_mutex` that is valid, with the calls of the lock as functions of the state of the system.
module _ {W : Type 0} (timedlock : W → Eno × W) (consistent unlock : W → Bool × W) where
  -- The loop of `lock`; `none` is no turn left.
  pub lock_loop : (fuel : ℕ) → W → Option (Bool × W)
  lock_loop zero w = none
  lock_loop (suc fuel) w =
      let (eno, w') = timedlock w in
      let (repaired, w'') = consistent w' in
      let (unlocked, w''') = unlock w'' in
      elim eno [
        | ok ↦ some (true, w')
        | timed_out ↦ some (false, w')
        | failed ↦ some (false, w')
        | owner_dead ↦ elim repaired [
          | false ↦ some (false, w'')
          | true ↦ elim unlocked [ false ↦ some (false, w''') | true ↦ lock_loop fuel w''' ]
        ]
      ]

  pub try_lock : W → Tried × W
  try_lock w =
      let (eno, w') = timedlock w in
      let (repaired, w'') = consistent w' in
      let (unlocked, w''') = unlock w'' in
      elim eno [
        | ok ↦ (returned true, w')
        | timed_out ↦ (returned false, w')
        | failed ↦ (threw failed, w')
        | owner_dead ↦ if repaired then (threw owner_dead, w''') else (threw owner_dead, w'')
      ]

-- `shm_data` of a mutex: whether its handle of shared memory has a name, whether it also has memory, so
-- that the mutex is valid, and the handles that use it.
pub record Entry : Type 0 where
  pub name : ℕ
  pub named : Bool
  pub opened : Bool
  pub ref : ℕ

-- `curr_prog`: the entry at each address, the map by name, and the next address.
pub record Program : Type 0 where
  pub entry : ℕ → Option Entry
  pub handles : ℕ → Option ℕ
  pub next : ℕ

abbrev pub put {ℓ} : {A : Type ℓ} → (ℕ → A) → ℕ → A → ℕ → A
put f k v j = if k == j then v else f j

-- `acquire_mutex`, where `opens` tells whether the shared memory object of a new entry can be opened, and
-- `maps` whether it can then be sized and mapped.
pub acquire_mutex : (opens maps : Bool) → (name : ℕ) → Program → Option ℕ × Program
acquire_mutex opens maps name p = if name == 0 then (none, p) else elim (p.handles name) [
  | some k ↦ (some k, p)
  | none ↦ (
    some p.next,
    record {
      entry = put p.entry p.next (
          some (record {
            name = name;
            named = opens;
            opened = if maps then opens else false;
            ref = 0;
          }));
      handles = put p.handles name (some p.next);
      next = p.next + 1;
    },
  )
]

-- `close` of a handle; `none` is a use of an entry that was erased.
pub close : Option ℕ → Program → Option Program
close none p = some p
close (some k) p = elim (p.entry k) [
  | none ↦ none
  | some e ↦
      let p' = record p {
        entry = put p.entry k (some (record e { ref = (e.ref + 2 ^ 32 - 1) % 2 ^ 32 }));
      } in
      let p'' = elim (p.handles e.name) as (λ _. Program) [
        | none ↦ p
        | some j ↦
            if leb e.ref 1 || leb (2 ^ 31) e.ref
            then record p { entry = put p'.entry j none; handles = put p.handles e.name none }
            else p'
      ] in
      some (if e.named then p'' else p)
]

-- `open` of a handle that has its entry.
pub count_handle : Option ℕ → Program → Option ℕ × Bool × Program
count_handle none p = (none, false, p)
count_handle (some k) p = elim (p.entry k) [
  | none ↦ (some k, false, p)
  | some e ↦
      if e.opened
      then (
        some k,
        true,
        record p { entry = put p.entry k (some (record e { ref = (e.ref + 1) % 2 ^ 32 })) },
      )
      else (some k, false, p)
]

-- `open` after `close`: the handle, whether it is valid, and the program.
pub attach : (opens maps : Bool) → (name : ℕ) → Program → Option ℕ × Bool × Program
attach opens maps name p = let (h, p') = acquire_mutex opens maps name p in count_handle h p'

pub open_mutex :
    (opens maps : Bool) → (name : ℕ) → Option ℕ → Program → Option (Option ℕ × Bool × Program)
open_mutex opens maps name h p = elim (close h p) [
  | none ↦ none
  | some p' ↦ some (attach opens maps name p')
]
