-- ===== src/Sync/Registry/Handles/Opened.antt =====
-- src/libipc/platform/linux/mutex.h: runs of `open` and `close` by the handles of a process.
use mathlib.Core.Option.{some-injective, none-ne-some}
use mathlib.Core.Path.{subst}
use cpp_ipc.Prelude.{
  ℕ, zero, suc, ◌+◌, ◌%◌, ◌^◌, ◌≤◌, ◌<◌, ◌≡◌, ◌≢◌, refl, sym, ◌∙◌, arith, Bool, true, false, inl,
  inr, Bool-cases, Option-cases, Option, none, some, List, ◌==◌, get_elem?, get_elem?-lt,
  get_elem?-set_self, set-set, set-get_elem?, length-set, set, length, replicate,
}
use cpp_ipc.RwLock.Tally.{tally, tally-replicate, tally-elem}
use cpp_ipc.Sync.{Entry, Program, put, acquire_mutex, close, attach, open_mutex, count_handle}
use cpp_ipc.Sync.Registry.{uses, IsValid, put_cases}
use cpp_ipc.Sync.Registry.Handles.{close-IsValid, join-IsValid, insert-IsValid}

put_self {ℓ} : {A : Type ℓ} (f : ℕ → A) (k : ℕ) (v : A) → put f k v k ≡ v
put_self f k v = elim (put_cases f k v k) [
  | inl (_, at) ↦ at
  | inr (other, _) ↦ absurd (other refl)
]

acquire_mutex-IsValid :
    (opens : Bool) (name : ℕ) (p : Program) (hs : List (Option ℕ))
    → IsValid p hs
    → name ≢ 0
    → (k : ℕ) × (p' : Program) × (e : Entry) × (acquire_mutex opens true name p ≡ (some k, p'))
      × IsValid p' hs
      × (p'.entry k ≡ some e)
      × (p'.handles name ≡ some k)
unfolding acquire_mutex
acquire_mutex-IsValid opens name p hs v named =
    let real : (name == 0) ≡ false = ground arith in
    let fresh : Entry = record { name = name; named = opens; opened = opens; ref = 0 } in
    elim (Option-cases (p.handles name)) [
      | inl new ↦ (
        p.next,
        _,
        fresh,
        rw (acquire_mutex, real, new) refl,
        insert-IsValid opens name p hs v named new,
        put_self p.entry p.next (some fresh),
        put_self p.handles name (some p.next),
      )
      | inr (k, old) ↦
          let (e, at, is_name) = v.named name k old in
          (k, p, e, rw (acquire_mutex, real, old) refl, v, at, old)
    ]

-- What `open` gives.
Opened : (name i : ℕ) → List (Option ℕ) → Option ℕ × Bool × Program → Type 0
Opened name i hs r =
    let (h, valid, p) = r in
    IsValid p (set hs i h) × ((k : ℕ) → h ≡ some k → p.handles name ≡ some k)

count_handle-open :
    (k : ℕ) (p : Program) (e : Entry)
    → p.entry k ≡ some e
    → e.opened ≡ true
    → count_handle (some k) p ≡ (
      some k,
      true,
      record p { entry = put p.entry k (some (record e { ref = (e.ref + 1) % 2 ^ 32 })) },
    )
unfolding count_handle
count_handle-open k p e there opened = rw (count_handle, there, opened) refl

count_handle-Opened :
    (name i : ℕ) (p : Program) (hs : List (Option ℕ)) (k : ℕ) (e : Entry)
    → length hs < 2 ^ 31
    → get_elem? hs i ≡ some none
    → IsValid p hs
    → p.entry k ≡ some e
    → p.handles name ≡ some k
    → Opened name i hs (count_handle (some k) p)
unfolding count_handle Opened
count_handle-Opened name i p hs k e few at v there found =
    let (joined, waits) = join-IsValid i k p hs e v few at there in
    let on_entry : (j : ℕ) → some k ≡ some j → p.handles name ≡ some j = λ j h. found ∙ h in
    elim (Bool-cases e.opened) [
      | inl opened ↦ rw (count_handle-open k p e there opened) (joined opened, on_entry)
      | inr shut ↦ rw (count_handle, there, shut) (waits shut, on_entry)
    ]

attach-Opened :
    (opens : Bool) (name i : ℕ) (p : Program) (hs : List (Option ℕ))
    → IsValid p hs
    → length hs < 2 ^ 31
    → get_elem? hs i ≡ some none
    → Opened name i hs (attach opens true name p)
unfolding attach acquire_mutex count_handle Opened
attach-Opened opens zero i p hs v few at =
    (rw (set-get_elem? hs i none at) v, λ k h. absurd (none-ne-some k h))
attach-Opened opens (suc n) i p hs v few at =
    let (k, p', e, acquired, v', there, found) =
      acquire_mutex-IsValid opens (suc n) p hs v (λ z. omega arith) in
    subst (λ (r : Option ℕ × Program). Opened (suc n) i hs (count_handle r.0 r.1)) (sym acquired)
      (count_handle-Opened (suc n) i p' hs k e few at v' there found)

uses-some :
    (hs : List (Option ℕ)) (i k : ℕ) → get_elem? hs i ≡ some (some k) → 1 ≤ tally (uses k) hs
unfolding uses
uses-some hs i k at = ground (arith, tally-elem (uses k) hs i (some k) at)

-- `close` finds the entry of its handle, and leaves each entry that is used in place.
pub close-some :
    (i : ℕ) (h : Option ℕ) (p : Program) (hs : List (Option ℕ))
    → IsValid p hs
    → length hs < 2 ^ 31
    → get_elem? hs i ≡ some h
    → (p' : Program) × (close h p ≡ some p') × IsValid p' (set hs i none)
unfolding close
close-some i none p hs v few at = (p, refl, rw (set-get_elem? hs i none at) v)
close-some i (some k) p hs v few at =
    let (e, there) = v.alive k (uses-some hs i k at) in close-IsValid i k p hs e v few at there

open_mutex-IsValid :
    (opens : Bool) (name i : ℕ) (h : Option ℕ) (p : Program) (hs : List (Option ℕ))
    → IsValid p hs
    → length hs < 2 ^ 31
    → get_elem? hs i ≡ some h
    → (h' : Option ℕ) × (valid : Bool) × (p' : Program) × (open_mutex opens true name h p
        ≡ some (h', valid, p'))
      × IsValid p' (set hs i h')
      × ((k : ℕ) → h' ≡ some k → p'.handles name ≡ some k)
unfolding open_mutex Opened
open_mutex-IsValid opens name i h p hs v few at =
    let (p', closed, v') = close-some i h p hs v few at in
    let (v'', on_entry) =
      attach-Opened opens name i p' (set hs i none) v' (omega (arith, length-set hs i none))
        (get_elem?-set_self hs i none (get_elem?-lt hs i h at)) in
    let r = attach opens true name p' in
    (
      r.0,
      r.1,
      r.2,
      rw (open_mutex, closed) refl,
      rw (sym (set-set hs i none (attach opens true name p').0)) v'',
      on_entry,
    )

-- `open` and `close` of the handles of a process, that start without an entry.
pub data Reach : Program → List (Option ℕ) → Type 0 where
  start :
      (n : ℕ)
      → Reach (record { entry = λ _. none; handles = λ _. none; next = 0 }) (replicate n none)
  opened :
      {p p' : Program} {hs : List (Option ℕ)} (opens : Bool) (name i : ℕ) (h : Option ℕ)
      {h' : Option ℕ} {valid : Bool}
      → Reach p hs
      → get_elem? hs i ≡ some h
      → open_mutex opens true name h p ≡ some (h', valid, p')
      → Reach p' (set hs i h')
  closed :
      {p p' : Program} {hs : List (Option ℕ)} (i : ℕ) (h : Option ℕ)
      → Reach p hs
      → get_elem? hs i ≡ some h
      → close h p ≡ some p'
      → Reach p' (set hs i none)

Reach-IsValid :
    {p : Program} {hs : List (Option ℕ)} → Reach p hs → length hs < 2 ^ 31 → IsValid p hs
unfolding uses
Reach-IsValid (start n) few = record {
  found = λ k e h. absurd (none-ne-some e h);
  named = λ m k h. absurd (none-ne-some k h);
  alive = λ k l. absurd (omega (arith, tally-replicate (uses k) n none refl));
  counted = λ k e h. absurd (none-ne-some e h);
  mapped = λ k e h. absurd (none-ne-some e h);
}
Reach-IsValid (opened {p} {p'} {hs} opens name i h {h'} {valid} run at done) few =
    let still : length hs < 2 ^ 31 = omega (arith, length-set hs i h') in
    let (h'', valid', p'', did, v, _) =
      open_mutex-IsValid opens name i h p hs (Reach-IsValid run still) still at in
    let same = some-injective (h'', valid', p'') (h', valid, p') (sym did ∙ done) in
    subst (λ (r : Option ℕ × Bool × Program). IsValid r.2 (set hs i r.0)) same v
Reach-IsValid (closed {p} {p'} {hs} i h run at done) few =
    let still : length hs < 2 ^ 31 = omega (arith, length-set hs i none) in
    let (p'', did, v) = close-some i h p hs (Reach-IsValid run still) still at in
    subst (λ (q : Program). IsValid q (set hs i none)) (some-injective p'' p' (sym did ∙ done)) v

-- The entry that a handle of the process is on.
abbrev Counted : Program → List (Option ℕ) → ℕ → Type 0
Counted p hs k =
    (e : Entry) × (p.entry k ≡ some e)
    × (p.handles e.name ≡ some k)
    × (e.opened ≡ true → e.ref ≡ tally (uses k) hs)

used-Counted :
    (p : Program) (hs : List (Option ℕ)) (j k : ℕ)
    → IsValid p hs
    → get_elem? hs j ≡ some (some k)
    → Counted p hs k
used-Counted p hs j k v at =
    let (e, there) = v.alive k (uses-some hs j k at) in
    (e, there, (v.found k e there).0, v.counted k e there)

-- After any calls of `open` and `close` by fewer than 2^31 handles of a process, where shared
-- memory objects that can be opened can also be sized and mapped, `open` of a name uses no entry
-- that was erased and gives no entry, or the one that the map has under the name; then each handle
-- that has an entry finds it in place, under its name in the map, and the count of an entry that
-- was opened is the number of handles on it.
pub open_mutex-counted :
    {p : Program} {hs : List (Option ℕ)} (opens : Bool) (name i : ℕ) (h : Option ℕ)
    → Reach p hs
    → length hs < 2 ^ 31
    → get_elem? hs i ≡ some h
    → (h' : Option ℕ) × (valid : Bool) × (p' : Program) × (open_mutex opens true name h p
        ≡ some (h', valid, p'))
      × ((k : ℕ) → h' ≡ some k → p'.handles name ≡ some k)
      × ((j k : ℕ)
          → get_elem? (set hs i h') j ≡ some (some k)
          → (e : Entry) × (p'.entry k ≡ some e)
            × (p'.handles e.name ≡ some k)
            × (e.opened ≡ true → e.ref ≡ tally (uses k) (set hs i h')))
open_mutex-counted {p} {hs} opens name i h run few at =
    let (h', valid, p', did, v, on_entry) =
      open_mutex-IsValid opens name i h p hs (Reach-IsValid run few) few at in
    (h', valid, p', did, on_entry, λ j k used. used-Counted p' (set hs i h') j k v used)
