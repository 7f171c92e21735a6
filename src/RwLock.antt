-- ===== src/RwLock.antt =====
-- include/libipc/rw_lock.h: the locks, an atomic access of one thread at a time.
pub mod Tally
pub mod Exclusion
pub mod Spin
mod Tests
use cpp_ipc.Prelude.{
  ℕ, ◌+◌, ◌-◌, ◌%◌, ◌^◌, ◌≡◌, ◌≢◌, Bool, true, false, bit_and, bit_or, List, some, get_elem?, set,
}

-- `w_mask` and `w_flag` of a 32-bit word.
abbrev pub w_mask : ℕ
w_mask = 2 ^ 31 - 1

abbrev pub w_flag : ℕ
w_flag = w_mask + 1

-- Where a thread stands in `lock`, `unlock`, `lock_shared` and `unlock_shared`.
pub data Thread : Type 0 where
  idle : Thread
  locking : Thread  -- before `fetch_or` of `w_flag`
  draining : Thread  -- waits until the readers are gone
  writing : Thread  -- holds the lock
  reading_in : (old : ℕ) → Thread  -- in the loop of `lock_shared`, with the word it saw
  reading : Thread  -- holds a shared lock

-- An access of a thread: the word and the thread's place before and after it.
pub data Access : ℕ → Thread → ℕ → Thread → Type 0 where
  lock : {lc : ℕ} → Access lc idle lc locking
  locked : {lc : ℕ} → lc ≡ 0 → Access lc locking (bit_or lc w_flag) writing
  flagged :
      {lc : ℕ} → lc ≢ 0 → bit_and lc w_flag ≡ 0 → Access lc locking (bit_or lc w_flag) draining
  held : {lc : ℕ} → bit_and lc w_flag ≢ 0 → Access lc locking (bit_or lc w_flag) locking
  drained : {lc : ℕ} → bit_and lc w_mask ≡ 0 → Access lc draining lc writing
  undrained : {lc : ℕ} → bit_and lc w_mask ≢ 0 → Access lc draining lc draining
  unlock : {lc : ℕ} → Access lc writing 0 idle
  load : {lc : ℕ} → Access lc idle lc (reading_in lc)
  reload : {lc old : ℕ} → bit_and old w_flag ≢ 0 → Access lc (reading_in old) lc (reading_in lc)
  shared :
      {lc old : ℕ}
      → bit_and old w_flag ≡ 0
      → lc ≡ old
      → Access lc (reading_in old) ((old + 1) % 2 ^ 32) reading
  -- A weak exchange may fail where the values agree.
  retry : {lc old : ℕ} → bit_and old w_flag ≡ 0 → Access lc (reading_in old) lc (reading_in lc)
  unlock_shared : {lc : ℕ} → Access lc reading ((lc + 2 ^ 32 - 1) % 2 ^ 32) idle

pub record System : Type 0 where
  pub word : ℕ
  pub threads : List Thread

pub data Step (s : System) : System → Type 0 where
  access :
      (i : ℕ) {t t' : Thread} {w : ℕ}
      → get_elem? s.threads i ≡ some t
      → Access s.word t w t'
      → Step s (record { word = w; threads = set s.threads i t' })

-- The states that the accesses of threads lead to, from a free lock.
pub data Reach (s : System) : System → Type 0 where
  here : Reach s s
  after : {m e : System} → Reach s m → Step m e → Reach s e
