-- ===== src/RwLock/Exclusion.antt =====
-- include/libipc/rw_lock.h: a writer is alone.
use cpp_ipc.Prelude.{
  ℕ, ◌+◌, ◌-◌, ◌*◌, ◌%◌, ◌^◌, ◌≤◌, ◌<◌, ◌≡◌, ◌≢◌, refl, ap, sym, ◌∙◌, bit_and, bit_or, List, some,
  get_elem?, set, length, arith, replicate, inl, inr, ◌⊎◌, length-set, length-replicate,
}
use cpp_ipc.Prelude.Bits.{
  bit_or_both_fields, bit_or-zero, bit_and-zero, bit_and_fields, bit_and-low_mask,
}
use cpp_ipc.RwLock.{
  w_mask, w_flag, Thread, idle, locking, draining, writing, reading_in, reading, Access, lock,
  locked, flagged, held, drained, undrained, unlock, load, reload, shared, retry, unlock_shared,
  System, Step, Reach, access, here, after,
}
use cpp_ipc.RwLock.Tally.{tally, tally-set, tally_le_length, tally-two, tally-elem, tally-replicate}

-- The weights: who waits with the flag set, who holds the lock, who holds a shared lock.
abbrev pub drains : Thread → ℕ
drains draining = 1
drains t = 0

abbrev pub holds : Thread → ℕ
holds writing = 1
holds t = 0

abbrev pub shares : Thread → ℕ
shares reading = 1
shares t = 0

-- What the word is, and who can hold it, with `d`, `h` and `r` threads of each kind.
abbrev pub Fits : ℕ → ℕ → ℕ → ℕ → Type 0
Fits word d h r = (word ≡ (d + h) * 2 ^ 31 + r) × (d + h ≤ 1) × ((h ≡ 0) ⊎ (r ≡ 0))

-- Bits of a word.
le_one : (n : ℕ) → n ≤ 1 → (n ≡ 0) ⊎ (n ≡ 1)
le_one n h = ground arith

or_flag : (w r : ℕ) → r < 2 ^ 31 → w ≤ 1 → bit_or (w * 2 ^ 31 + r) w_flag ≡ 2 ^ 31 + r
or_flag w r h l = elim (le_one w l) [
  | inl e ↦ rw e (bit_or_both_fields 31 0 1 r 0 h (omega arith) ∙ omega (arith, bit_or-zero r))
  | inr e ↦ rw e (bit_or_both_fields 31 1 1 r 0 h (omega arith) ∙ omega (arith, bit_or-zero r))
]

and_flag : (w r : ℕ) → r < 2 ^ 31 → w ≤ 1 → bit_and (w * 2 ^ 31 + r) w_flag ≡ w * 2 ^ 31
and_flag w r h l = elim (le_one w l) [
  | inl e ↦ rw e (bit_and_fields 31 0 1 r 0 h (omega arith) ∙ omega (arith, bit_and-zero r))
  | inr e ↦ rw e (bit_and_fields 31 1 1 r 0 h (omega arith) ∙ omega (arith, bit_and-zero r))
]

and_mask : (w r : ℕ) → r < 2 ^ 31 → w ≤ 1 → bit_and (w * 2 ^ 31 + r) w_mask ≡ r
and_mask w r h l = omega (arith, bit_and-low_mask 31 (w * 2 ^ 31 + r))

-- The word is as the counts of the threads' places say, of fewer than 2^31 threads.
pub record Inv (s : System) : Type 0 where
  pub few : length s.threads < 2 ^ 31
  pub fits : Fits s.word (tally drains s.threads) (tally holds s.threads) (tally shares s.threads)

-- The three tests of the word.
word_flag : {lc : ℕ} (d h r : ℕ) → r < 2 ^ 31 → Fits lc d h r → bit_and lc w_flag ≡ (d + h) * 2 ^ 31
word_flag d h r k f = ap (λ t. bit_and t w_flag) f.0 ∙ and_flag (d + h) r k f.1

word_mask : {lc : ℕ} (d h r : ℕ) → r < 2 ^ 31 → Fits lc d h r → bit_and lc w_mask ≡ r
word_mask d h r k f = ap (λ t. bit_and t w_mask) f.0 ∙ and_mask (d + h) r k f.1

word_or : {lc : ℕ} (d h r : ℕ) → r < 2 ^ 31 → Fits lc d h r → bit_or lc w_flag ≡ 2 ^ 31 + r
word_or d h r k f = ap (λ t. bit_or t w_flag) f.0 ∙ or_flag (d + h) r k f.1

-- What an access does to the counts of one thread, as the counts of the rest allow.
access-Fits :
    {lc : ℕ} {t : Thread} {lc' : ℕ} {t' : Thread} (d h r : ℕ)
    → Access lc t lc' t'
    → r + shares t < 2 ^ 31
    → r + shares t' < 2 ^ 31
    → Fits lc (d + drains t) (h + holds t) (r + shares t)
    → Fits lc' (d + drains t') (h + holds t') (r + shares t')
access-Fits d h r lock l k f = f
access-Fits d h r (locked e) l k f = ground (arith, word_or (d + 0) (h + 0) (r + 0) l f)
access-Fits d h r (flagged e c) l k f =
    ground (arith, word_or (d + 0) (h + 0) (r + 0) l f, word_flag (d + 0) (h + 0) (r + 0) l f)
access-Fits d h r (held c) l k f =
    ground (arith, word_or (d + 0) (h + 0) (r + 0) l f, word_flag (d + 0) (h + 0) (r + 0) l f)
access-Fits d h r (drained e) l k f = ground (arith, word_mask (d + 1) (h + 0) (r + 0) l f)
access-Fits d h r (undrained e) l k f = f
access-Fits d h r unlock l k f = ground arith
access-Fits d h r load l k f = f
access-Fits d h r (reload e) l k f = f
access-Fits d h r (shared e o) l k f =
    ground (arith, ap (λ t. bit_and t w_flag) o, word_flag (d + 0) (h + 0) (r + 0) l f)
access-Fits d h r (retry e) l k f = f
access-Fits d h r unlock_shared l k f = ground arith

shares_le : (t : Thread) → shares t ≤ 1
shares_le idle = omega arith
shares_le locking = omega arith
shares_le draining = omega arith
shares_le writing = omega arith
shares_le (reading_in old) = omega arith
shares_le reading = omega arith

Step-Inv : {s s' : System} → Step s s' → Inv s → Inv s'
Step-Inv {s} (access i {t} {t'} {w} e a) inv =
    let xs : List Thread = s.threads in
    let d : ℕ = tally drains xs - drains t in
    let h : ℕ = tally holds xs - holds t in
    let r : ℕ = tally shares xs - shares t in
    let ds : d + drains t ≡ tally drains xs = omega (arith, tally-elem drains xs i t e) in
    let hs : h + holds t ≡ tally holds xs = omega (arith, tally-elem holds xs i t e) in
    let rs : r + shares t ≡ tally shares xs = omega (arith, tally-elem shares xs i t e) in
    let ds' : d + drains t' ≡ tally drains (set xs i t') =
      omega (arith, tally-set drains xs i t t' e, ds) in
    let hs' : h + holds t' ≡ tally holds (set xs i t') =
      omega (arith, tally-set holds xs i t t' e, hs) in
    let rs' : r + shares t' ≡ tally shares (set xs i t') =
      omega (arith, tally-set shares xs i t t' e, rs) in
    let few' : length (set xs i t') < 2 ^ 31 = omega (arith, inv.few, length-set xs i t') in
    let before : Fits s.word (d + drains t) (h + holds t) (r + shares t) =
      rw (ds, hs, rs) inv.fits in
    let now : Fits w (d + drains t') (h + holds t') (r + shares t') =
      access-Fits d h r a (omega (arith, inv.few, tally_le_length shares shares_le xs))
        (omega (arith, few', tally_le_length shares shares_le (set xs i t'))) before in
    record { few = few'; fits = rw (sym ds', sym hs', sym rs') now }

start-Inv : (n : ℕ) → n < 2 ^ 31 → Inv (record { word = 0; threads = replicate n idle })
start-Inv n h = record {
  few = omega (arith, length-replicate n idle);
  fits = ground (
    arith,
    tally-replicate drains n idle refl,
    tally-replicate holds n idle refl,
    tally-replicate shares n idle refl,
  );
}

Reach-Inv : {s s' : System} → Reach s s' → Inv s → Inv s'
Reach-Inv here inv = inv
Reach-Inv (after r e) inv = Step-Inv e (Reach-Inv r inv)

-- In every reachable state of fewer than 2^31 threads that use the read-write lock, while one
-- holds it no other holds it and none holds a shared lock.
pub writer_alone :
    (n : ℕ) (s : System) (i j : ℕ)
    → n < 2 ^ 31
    → Reach (record { word = 0; threads = replicate n idle }) s
    → get_elem? s.threads i ≡ some writing
    → (get_elem? s.threads j ≢ some reading) × (i ≢ j → get_elem? s.threads j ≢ some writing)
writer_alone n s i j h r e =
    let inv : Inv s = Reach-Inv r (start-Inv n h) in
    (
      λ k. ground (
        arith,
        inv.fits,
        tally-elem holds s.threads i writing e,
        tally-elem shares s.threads j reading k,
      ),
      λ ne k. ground (arith, inv.fits, tally-two holds s.threads i j writing writing ne e k),
    )

-- In every reachable state of fewer than 2^31 threads, the low 31 bits of the word count the
-- shared locks that are held.
pub readers_counted :
    (n : ℕ) (s : System)
    → n < 2 ^ 31
    → Reach (record { word = 0; threads = replicate n idle }) s
    → s.word % 2 ^ 31 ≡ tally shares s.threads
readers_counted n s h r =
    let inv : Inv s = Reach-Inv r (start-Inv n h) in
    ground (arith, inv.fits, inv.few, tally_le_length shares shares_le s.threads)
