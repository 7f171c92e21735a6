-- ===== src/RwLock/Spin.antt =====
-- include/libipc/rw_lock.h, `spin_lock`: the word is exchanged for 1 until a 0 comes back.
use cpp_ipc.Prelude.{
  ℕ, ◌+◌, ◌-◌, ◌≤◌, ◌≡◌, ◌≢◌, refl, sym, List, some, get_elem?, set, arith, replicate,
}
use cpp_ipc.RwLock.Tally.{tally, tally-set, tally-two, tally-elem, tally-replicate}

pub data Spinner : Type 0 where
  idle : Spinner
  spinning : Spinner  -- before the exchange in `lock`
  holding : Spinner

pub data Access : ℕ → Spinner → ℕ → Spinner → Type 0 where
  lock : {lc : ℕ} → Access lc idle lc spinning
  locked : {lc : ℕ} → lc ≡ 0 → Access lc spinning 1 holding
  taken : {lc : ℕ} → lc ≢ 0 → Access lc spinning 1 spinning
  unlock : {lc : ℕ} → Access lc holding 0 idle

pub record Spinners : Type 0 where
  pub word : ℕ
  pub threads : List Spinner

pub data Step (s : Spinners) : Spinners → Type 0 where
  access :
      (i : ℕ) {t t' : Spinner} {w : ℕ}
      → get_elem? s.threads i ≡ some t
      → Access s.word t w t'
      → Step s (record { word = w; threads = set s.threads i t' })

pub data Reach (s : Spinners) : Spinners → Type 0 where
  here : Reach s s
  after : {m e : Spinners} → Reach s m → Step m e → Reach s e

holds : Spinner → ℕ
holds idle = 0
holds spinning = 0
holds holding = 1

Inv : Spinners → Type 0
Inv s = (s.word ≡ tally holds s.threads) × (s.word ≤ 1)

access_lem :
    {lc : ℕ} {t : Spinner} {lc' : ℕ} {t' : Spinner} (h : ℕ)
    → Access lc t lc' t'
    → (lc ≡ h + holds t) × (lc ≤ 1)
    → (lc' ≡ h + holds t') × (lc' ≤ 1)
unfolding holds
access_lem h lock f = f
access_lem h (locked e) f = ground arith
access_lem h (taken e) f = ground arith
access_lem h unlock f = ground arith

Step-Inv : {s s' : Spinners} → Step s s' → Inv s → Inv s'
unfolding Inv
Step-Inv {s} (access i {t} {t'} {w} e a) inv =
    let h : ℕ = tally holds s.threads - holds t in
    let hs : h + holds t ≡ tally holds s.threads =
      omega (arith, tally-elem holds s.threads i t e) in
    let hs' : h + holds t' ≡ tally holds (set s.threads i t') =
      omega (arith, tally-set holds s.threads i t t' e, hs) in
    rw (sym hs') (access_lem h a (rw hs inv))

Reach-Inv : {s s' : Spinners} → Reach s s' → Inv s → Inv s'
Reach-Inv here inv = inv
Reach-Inv (after r e) inv = Step-Inv e (Reach-Inv r inv)

-- In every reachable state at most one thread holds the spin lock, and while one does the word is
-- 1.
pub holder_alone :
    (n : ℕ) (s : Spinners) (i j : ℕ)
    → Reach (record { word = 0; threads = replicate n idle }) s
    → get_elem? s.threads i ≡ some holding
    → (s.word ≡ 1) × (i ≢ j → get_elem? s.threads j ≢ some holding)
unfolding Inv holds
holder_alone n s i j r e =
    let inv : Inv s = Reach-Inv r (ground (arith, tally-replicate holds n idle refl)) in
    (
      ground (arith, inv, tally-elem holds s.threads i holding e),
      λ ne k. ground (arith, inv, tally-two holds s.threads i j holding holding ne e k),
    )
