-- ===== src/ProdCons/Multi/Threads/Progress.antt =====
-- src/libipc/prod_cons.h: `pop` of the ring of many producers once every other call has ended.
use mathlib.Core.Option.{some-injective, none-ne-some}
use cpp_ipc.Prelude.{
  ℕ, ◌+◌, ◌-◌, ◌^◌, ◌<◌, ◌≡◌, ◌≢◌, inl, inr, refl, some, [], ◌∷◌, ◌++◌, arith, length, get_elem?,
  get_elem?-lt, ap, ◌∙◌, sym, dec_lt,
}
use cpp_ipc.Circ.{u32, index_of}
use cpp_ipc.ProdCons.{store_self}
use cpp_ipc.ProdCons.Multi.{Elem}
use cpp_ipc.ProdCons.Multi.Threads.{Memory, Thread, elem, set_flag, Access, System, Reach}
use cpp_ipc.ProdCons.Multi.Threads.Carry.{Flagged, holds}
use cpp_ipc.ProdCons.Multi.Threads.Fifo.{Reach-Inv}
use cpp_ipc.ProdCons.Multi.Threads.Alone.{Run, here, after, pop_returned}

module _ {ℓ} {A : Type ℓ} where
  abbrev Delivers : Memory A → A → Type ℓ
  Delivers m x =
      (m' : Memory A) × Run m Thread.popping m' Thread.idle
      × (m'.received ≡ m.received ++ (x ∷ []))
      × (m'.sent ≡ m.sent)

  pop_ready :
      (m m' : Memory A) (x : A)
      → Run m Thread.popping m' Thread.popping
      → m'.received ≡ m.received
      → m'.sent ≡ m.sent
      → index_of m'.rd ≢ index_of m'.wt
      → (elem m' m'.rd).item ≡ x
      → Delivers m x
  pop_ready m m' x run received sent some_left same = (
    _,
    after
        (after (after (after run refl Access.load_rd) refl (Access.some_left some_left)) refl
          Access.copy)
        refl (Access.take refl),
    rw (same, received) refl,
    sent,
  )

  pop_committed :
      (m : Memory A) (x : A)
      → m.rd ≡ m.wt
      → m.wt < 2 ^ 32 - 1
      → Flagged m m.wt
      → (elem m m.wt).item ≡ x
      → Delivers m x
  pop_committed m x empty small set same =
      pop_ready m (record (set_flag m m.wt 0) { wt = u32 (m.wt + 1) }) x
        (after
          (after
            (after
              (after (after here refl Access.load_rd) refl (Access.look_empty (ap index_of empty)))
              refl (Access.one_committed set))
            refl (Access.probe refl))
          refl Access.move)
        refl refl (omega arith)
        (ap (λ (e : Elem A). e.item)
            (store_self m.block (record { item = (elem m m.wt).item; flag = 0 })
              (ap index_of (sym empty)))
          ∙ same)

  delivered :
      {items : ℕ → A} {s : System A} (x : A)
      → Reach items s
      → length s.mem.sent < 2 ^ 32
      → ((j : ℕ) → s.thread j ≡ Thread.idle)
      → get_elem? s.mem.sent (length s.mem.received) ≡ some x
      → Delivers s.mem x
  delivered {items} {s} x r l idle at =
      let v = Reach-Inv r l in
      let i = v.memory in
      let next : get_elem? s.mem.sent s.mem.rd ≡ some x = rw i.rd_eq at in
      let below : s.mem.rd < s.mem.ct =
        omega (arith, get_elem?-lt s.mem.sent s.mem.rd x next, i.ct_eq) in
      elim (dec_lt s.mem.rd s.mem.wt) [
        | yes ready ↦
            pop_ready s.mem s.mem x here refl refl (omega (arith, i.claimed, i.bounded))
              (some-injective _ x (sym (i.stored s.mem.rd (omega arith) ready) ∙ next))
        | no empty ↦
            let same : s.mem.rd ≡ s.mem.wt = omega (arith, i.behind) in
            elim (v.covered s.mem.wt (omega arith) (omega arith)) [
              | inl (j, held) ↦ absurd (none-ne-some s.mem.wt (ap holds (sym (idle j)) ∙ held))
              | inr set ↦
                  let (_, _, placed) = i.flags s.mem.wt (omega (arith, i.ct_eq)) set in
                  pop_committed s.mem x same (omega (arith, i.ct_eq)) set
                    (some-injective _ x (sym placed ∙ ap (get_elem? s.mem.sent) (sym same) ∙ next))
            ]
      ]

  -- After any interleaving of fewer than 2^32 claims that has left every thread idle, where an
  -- element that was claimed has not been handed out, one call of `pop` on its own can return, and
  -- whatever exchanges of it fail, it returns with the first such element, also where the thread
  -- that committed it has not moved the write index.
  pub pop_delivers :
      {items : ℕ → A} {s : System A} (x : A)
      → Reach items s
      → length s.mem.sent < 2 ^ 32
      → ((j : ℕ) → s.thread j ≡ Thread.idle)
      → get_elem? s.mem.sent (length s.mem.received) ≡ some x
      → (m' : Memory A) × Run s.mem Thread.popping m' Thread.idle
        × (m'.received ≡ s.mem.received ++ (x ∷ []))
        × (m'.sent ≡ s.mem.sent)
        × ((m'' : Memory A)
            → Run s.mem Thread.popping m'' Thread.idle
            → (m''.received ≡ s.mem.received ++ (x ∷ [])) × (m''.sent ≡ s.mem.sent))
  pop_delivers {items} {s} x r l idle at =
      let (m', run, got, same) = delivered x r l idle at in
      (m', run, got, same, λ m'' other. pop_returned x (Reach-Inv r l) l idle at other)
