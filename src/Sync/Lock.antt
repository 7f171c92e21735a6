-- ===== src/Sync/Lock.antt =====
-- src/libipc/platform/linux/mutex.h: `robust_mutex::lock` where holders of the mutex have died.
use cpp_ipc.Prelude.{ℕ, zero, suc, ◌<◌, ◌≡◌, ◌⊎◌, Bool, true, false, some}
use cpp_ipc.Sync.{Eno, ok, timed_out, owner_dead, failed, lock_loop}

module _ {W : Type 0} (timedlock : W → Eno × W) (consistent unlock : W → Bool × W) where
  -- What a turn that finds a dead holder leaves, and what so many of them do.
  abbrev pub repair : W → W
  repair w = (unlock (consistent (timedlock w).1).1).1

  abbrev pub repairs : ℕ → W → W
  repairs zero w = w
  repairs (suc n) w = repairs n (repair w)

  -- One of the two calls on a mutex whose holder has died fails.
  abbrev pub Stuck : W → Type 0
  Stuck w =
      ((timedlock w).0 ≡ owner_dead)
      × (((consistent (timedlock w).1).0 ≡ false)
          ⊎ ((unlock (consistent (timedlock w).1).1).0 ≡ false))

  -- `Holds` tells whether the caller has the mutex.
  module _ (Holds : W → Type 0) (locked : (w : W) → (timedlock w).0 ≡ ok → Holds (timedlock w).1)
      (not_locked : (w : W)
        → (Holds w → ⊥)
        → ((timedlock w).0 ≡ timed_out) ⊎ ((timedlock w).0 ≡ failed)
        → Holds (timedlock w).1
        → ⊥)
      (unlocked : (w : W) → (unlock w).0 ≡ true → Holds (unlock w).1 → ⊥) where
    -- How `lock` ended, where the turn after `n` repairs finds no dead holder.
    abbrev Ends : (fuel n : ℕ) → W → Type 0
    Ends fuel n w =
        (got : Bool) × (w' : W) × (lock_loop timedlock consistent unlock fuel w ≡ some (got, w'))
        × (got ≡ true → Holds w')
        × (got ≡ false → (Holds w' → ⊥) ⊎ ((j : ℕ) × (j < n) × Stuck (repairs j w)))
