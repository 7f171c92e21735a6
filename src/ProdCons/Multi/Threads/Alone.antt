-- ===== src/ProdCons/Multi/Threads/Alone.antt =====
-- src/libipc/prod_cons.h: a call of `pop` of the ring of many producers, with no other at work.
use mathlib.Core.Path.{fun_ext, subst}
use mathlib.Core.Bool.{false≢true}
use mathlib.Core.Option.{some-injective, none-ne-some}
use cpp_ipc.Prelude.{
  ℕ, ◌^◌, ◌<◌, ◌≡◌, Bool, true, false, Bool-cases, inl, inr, refl, some, none, [], ◌∷◌, ◌++◌, List,
  arith, length, get_elem?, get_elem?-lt, ap, ◌∙◌, sym, ◌==◌, if◌then◌else◌,
}
use cpp_ipc.ProdCons.{store}
use cpp_ipc.ProdCons.Multi.Threads.{
  Memory, Thread, popping, loaded, probing, probed, moving, copying, copied, Access, System, step,
}
use cpp_ipc.ProdCons.Multi.Threads.Carry.{IsMemory, Flagged, Doing, holds}
use cpp_ipc.ProdCons.Multi.Threads.Fifo.{Inv, Step-Inv}

module _ {ℓ} {A : Type ℓ} where
  -- Within a call of `pop`.
  abbrev pub in_pop : Thread A → Bool
  in_pop popping = true
  in_pop (loaded r) = true
  in_pop (probing w) = true
  in_pop (probed w f) = true
  in_pop (moving w) = true
  in_pop (copying r) = true
  in_pop (copied r x) = true
  in_pop _ = false

  -- Accesses of one call of `pop`, with no other in between.
  pub data Run (m : Memory A) (t : Thread A) : Memory A → Thread A → Type ℓ where
    here : Run m t m t
    after :
        {m' m'' : Memory A} {t' t'' : Thread A}
        → Run m t m' t'
        → in_pop t' ≡ true
        → Access m' t' m'' t''
        → Run m t m'' t''

  -- Only thread 0 is at work.
  abbrev alone : Memory A → Thread A → System A
  alone m t = record { mem = m; thread = λ j. if 0 == j then t else Thread.idle }

  alone-store :
      (t t' : Thread A)
      → ◌≡◌ {A = ℕ → Thread A}
          (store (λ j. if 0 == j then t else Thread.idle) 0 t')
          (λ j. if 0 == j then t' else Thread.idle)
  alone-store t t' =
      fun_ext
        λ j. elim (Bool-cases (0 == j)) [ inl same ↦ rw same refl | inr other ↦ rw other refl ]

  start-Inv :
      {s : System A} → Inv s → ((j : ℕ) → s.thread j ≡ Thread.idle) → Inv (alone s.mem popping)
  start-Inv {s} v idle = record {
    memory = v.memory;
    doing = λ j. elim (Bool-cases (0 == j)) [ inl same ↦ rw same tt | inr other ↦ rw other tt ];
    apart = λ a b ne c e e'. none-ne-some c (sym (none_held a) ∙ e);
    covered = λ c lo hi. elim (v.covered c lo hi) [
      | inl (j, held) ↦ absurd (none-ne-some c (ap holds (sym (idle j)) ∙ held))
      | inr set ↦ inr set
    ];
  }
    where
      none_held : (j : ℕ) → holds {A = A} (if 0 == j then popping else Thread.idle) ≡ none
      none_held j = elim (Bool-cases (0 == j)) [
        | inl same ↦ rw same refl
        | inr other ↦ rw other refl
      ]

  module _ (sent received : List A) (x : A) (few : length sent < 2 ^ 32)
      (next : get_elem? sent (length received) ≡ some x) where
    -- What the call knows of the indices, and what it has done once it has returned.
    abbrev Place : Memory A → Thread A → Type ℓ
    Place m Thread.idle = (m.received ≡ received ++ (x ∷ []))
    Place m (loaded r) = (m.received ≡ received) × (r ≡ m.rd)
    Place m (probing w) = (m.received ≡ received) × (w ≡ m.wt) × (m.rd ≡ m.wt)
    Place m _ = (m.received ≡ received)

    Access-Place :
        {m m' : Memory A} {t t' : Thread A}
        → Access m t m' t'
        → in_pop t ≡ true
        → IsMemory m
        → Doing m t
        → (m.wt < m.ct → holds t ≡ none → Flagged m m.wt)
        → m.sent ≡ sent
        → Place m t
        → (m'.sent ≡ sent) × Place m' t'
    Access-Place (Access.call x) p i d c s k = absurd (false≢true p)
    Access-Place Access.load_ct p i d c s k = absurd (false≢true p)
    Access-Place (Access.full e) p i d c s k = absurd (false≢true p)
    Access-Place (Access.not_full ne) p i d c s k = absurd (false≢true p)
    Access-Place (Access.claim e) p i d c s k = absurd (false≢true p)
    Access-Place Access.claim_again p i d c s k = absurd (false≢true p)
    Access-Place Access.fill p i d c s k = absurd (false≢true p)
    Access-Place Access.commit p i d c s k = absurd (false≢true p)
    Access-Place Access.load_flag p i d c s k = absurd (false≢true p)
    Access-Place (Access.elsewhere ne) p i d c s k = absurd (false≢true p)
    Access-Place (Access.at_wt e) p i d c s k = absurd (false≢true p)
    Access-Place (Access.not_committed ne) p i d c s k = absurd (false≢true p)
    Access-Place (Access.committed e) p i d c s k = absurd (false≢true p)
    Access-Place (Access.take_flag e) p i d c s k = absurd (false≢true p)
    Access-Place (Access.lost_flag ne) p i d c s k = absurd (false≢true p)
    Access-Place Access.advance p i d c s k = absurd (false≢true p)
    Access-Place Access.call_pop p i d c s k = absurd (false≢true p)
    Access-Place Access.load_rd p i d c s k = (s, (k, refl))
    Access-Place {m} (Access.look_empty e) p i d c s (k, at) =
        (s, (k, refl, omega (arith, i.behind, i.claimed, i.bounded, e, at)))
    Access-Place {m} (Access.none_left {w} ne) p i d c s (k, at, empty) =
        let there : get_elem? m.sent (length m.received) ≡ some x = rw (s, k) next in
        let below : m.wt < m.ct =
          omega (arith, get_elem?-lt m.sent (length m.received) x there, i.ct_eq, i.rd_eq, empty) in
        absurd (ne (rw at (c below refl)))
    Access-Place (Access.one_committed e) p i d c s k = (s, k.0)
    Access-Place (Access.probe e) p i d c s k = (s, k)
    Access-Place Access.probe_again p i d c s k = (s, k)
    Access-Place Access.move p i d c s k = (s, k)
    Access-Place (Access.some_left ne) p i d c s k = (s, k.0)
    Access-Place Access.copy p i d c s k = (s, k)
    Access-Place {m} (Access.take {r} {x = y} e) p i d c s k =
        let found : get_elem? m.sent r ≡ some y = d.2 (sym e) in
        let at : r ≡ length received = omega (arith, e, i.rd_eq, ap length k) in
        let same : y ≡ x = some-injective y x (
          sym found
          ∙ ap (λ n. get_elem? m.sent n) at
          ∙ ap (λ (ys : List A). get_elem? ys (length received)) s
          ∙ next) in
        (s, rw (k, same) refl)
    Access-Place Access.retry p i d c s k = (s, k)

    Run-Place :
        {m m' : Memory A} {t' : Thread A}
        → Run m popping m' t'
        → Inv (alone m popping)
        → m.sent ≡ sent
        → m.received ≡ received
        → Inv (alone m' t') × (m'.sent ≡ sent) × Place m' t'
    Run-Place here v s k = (v, s, k)
    Run-Place {m} (after {m' = n} {m'' = n'} {t' = t} {t'' = t'} run p access) v s k =
        let (u, s', k') = Run-Place run v s k in
        let flagged =
          λ (below : n.wt < n.ct) (free : holds t ≡ none). covered_here n t u below free in
        let (s'', k'') = Access-Place access p u.memory (u.doing 0) flagged s' k' in
        let stepped = Step-Inv {s = alone n t} (step 0 access) u (rw s'' few) in
        (
          subst (λ (f : ℕ → Thread A). Inv (record { mem = n'; thread = f })) (alone-store t t')
              stepped,
          s'',
          k'',
        )
      where
        covered_here :
            (n : Memory A) (t : Thread A)
            → Inv (alone n t)
            → n.wt < n.ct
            → holds t ≡ none
            → Flagged n n.wt
        covered_here n t u below free = elim (u.covered n.wt (omega arith) below) [
          | inr set ↦ set
          | inl (j, held) ↦ elim (Bool-cases (0 == j)) [
            | inl same ↦ absurd (none-ne-some n.wt (sym free ∙ rw same at held))
            | inr other ↦ absurd (none-ne-some n.wt (rw other at held))
          ]
        ]

  -- Whatever accesses of its own a call of `pop` makes, it has taken the first element that is left.
  pub pop_returned :
      {s : System A} (x : A) {m' : Memory A}
      → Inv s
      → length s.mem.sent < 2 ^ 32
      → ((j : ℕ) → s.thread j ≡ Thread.idle)
      → get_elem? s.mem.sent (length s.mem.received) ≡ some x
      → Run s.mem popping m' Thread.idle
      → (m'.received ≡ s.mem.received ++ (x ∷ [])) × (m'.sent ≡ s.mem.sent)
  pop_returned {s} x v few idle at run =
      let (u, same, got) =
        Run-Place s.mem.sent s.mem.received x few at run (start-Inv v idle) refl refl in
      (got, same)
