-- ===== src/Sync/Tests.antt =====
-- Runs of the mutex of a process and of its registry.
use cpp_ipc.Prelude.{
  ℕ, zero, suc, ◌≡◌, refl, arith, Bool, true, false, Option, none, some, [], ◌∷◌, get_elem?, set,
}
use cpp_ipc.RwLock.Tally.{tally}
use cpp_ipc.Sync.{
  Eno, ok, timed_out, owner_dead, failed, threw, Entry, Program, try_lock, open_mutex, close,
  attach, count_handle, acquire_mutex,
}
use cpp_ipc.Sync.Registry.{uses}
use cpp_ipc.Sync.Registry.Handles.Opened.{Reach, open_mutex-counted}

-- How many holders have died, and whether the caller has the mutex.
abbrev World : Type 0
World = ℕ × Bool

abbrev timedlock : World → Eno × World
timedlock (zero, held) = (ok, (0, true))
timedlock (suc n, held) = (owner_dead, (n, true))

abbrev consistent : World → Bool × World
consistent w = (true, w)

abbrev unlock : World → Bool × World
unlock (n, held) = (true, (n, false))

abbrev Holds : World → Type 0
Holds (n, held) = held ≡ true

abbrev code : Eno → ℕ
code ok = 0
code timed_out = 1
code owner_dead = 2
code failed = 3

-- `try_lock` throws where it has set the mutex free, which `lock` would take.
try_lock_throws : try_lock timedlock consistent unlock (1, false) ≡ (threw owner_dead, (0, false))
unfolding try_lock
try_lock_throws = refl

abbrev start_at : Program
start_at = record { entry = λ _. none; handles = λ _. none; next = 0 }

abbrev opened : Option (Option ℕ × Bool × Program) → Option ℕ × Bool × Program
opened none = (none, false, start_at)
opened (some r) = r

first : Option ℕ × Bool × Program
first = opened (open_mutex true true 5 none start_at)

second : Option ℕ × Bool × Program
second = opened (open_mutex true true 5 none first.2)

both : Reach second.2 (some 0 ∷ some 0 ∷ [])
unfolding first second open_mutex attach count_handle acquire_mutex close
both = Reach.opened true 5 1 none (Reach.opened true 5 0 none (Reach.start 2) refl refl) refl refl

open_mutex-counted_example :
    (h' : Option ℕ) × (valid : Bool) × (p' : Program) × (open_mutex true true 6 (some 0) second.2
      ≡ some (h', valid, p'))
    × ((k : ℕ) → h' ≡ some k → p'.handles 6 ≡ some k)
    × ((j k : ℕ)
        → get_elem? (set (some 0 ∷ some 0 ∷ []) 0 h') j ≡ some (some k)
        → (e : Entry) × (p'.entry k ≡ some e)
          × (p'.handles e.name ≡ some k)
          × (e.opened ≡ true → e.ref ≡ tally (uses k) (set (some 0 ∷ some 0 ∷ []) 0 h')))
open_mutex-counted_example = open_mutex-counted true 6 0 (some 0) both (omega arith) refl

-- Two handles open a name whose object can be opened and not mapped, and close it: the first close
-- erases the entry that the other handle is on.
unmapped : Option ℕ × Bool × Program
unmapped = opened (open_mutex true false 5 none (opened (open_mutex true false 5 none start_at)).2)

erased : (p : Program) × (close (some 0) unmapped.2 ≡ some p) × (close (some 0) p ≡ none)
unfolding unmapped open_mutex attach count_handle acquire_mutex close
erased = (_, refl, refl)
