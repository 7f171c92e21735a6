-- ===== src/ProdCons/Broadcast/Reader.antt =====
-- What a connected receiver has yet to read, and how `push` and `pop` change it.
use cpp_ipc.Prelude.{
  ℕ, suc, ◌+◌, ◌%◌, ◌^◌, ◌≤◌, ◌<◌, bit_and, ◌≡◌, ◌≢◌, refl, ap, ◌∙◌, true, false, List, [], ◌∷◌,
  ◌++◌, arith, length,
}
use cpp_ipc.Prelude.Bits.{bit, bit_not, bit-bit_and, ne_zero_of_bit}
use cpp_ipc.Circ.{u32, index_of}
use cpp_ipc.ProdCons.{Block, store, store_ne}
use cpp_ipc.ProdCons.Broadcast.{Elem, Channel, ep_mask, write, push}
use cpp_ipc.ProdCons.Broadcast.Counter.{Awaits, unread_of, rc_low, rc_high}

module _ {ℓ} {A : Type ℓ} where
  -- From index `cur` up to `stop` lie exactly `items`, all yet to be read by `k`.
  abbrev pub Unread : ℕ → ℕ → Block (Elem A) → ℕ → ℕ → List A → Type ℓ
  Unread e k block cur stop [] = (cur ≡ stop) × Unit {ℓ}
  Unread e k block cur stop (x ∷ xs) =
      ((block (index_of cur)).item ≡ x)
      × Awaits e k (block (index_of cur)).rc
      × Unread e k block (u32 (cur + 1)) stop xs

  pub record IsChannel (ch : Channel A) : Type ℓ where
    pub wt_fits : ch.wt < 2 ^ 32
    pub epoch_fits : ch.epoch < 2 ^ 64
    pub epoch_whole : ch.epoch % 2 ^ 32 ≡ 0
    pub cc_fits : ch.cc < 2 ^ 32
    pub rc_fits : (i : ℕ) → (ch.block i).rc < 2 ^ 64

  -- Receiver `k` is connected, and has `items` to read.
  pub record Reads (ch : Channel A) (k cur : ℕ) (items : List A) : Type ℓ where
    pub in_range : k < 32
    pub connected : bit ch.cc k ≡ 1
    pub cur_fits : cur < 2 ^ 32
    pub bounded : length items ≤ 256
    pub unread : Unread ch.epoch k ch.block cur ch.wt items

  pub Unread-stop :
      (e k : ℕ) (block : Block (Elem A)) (cur stop : ℕ) (items : List A)
      → cur < 2 ^ 32
      → Unread e k block cur stop items
      → stop ≡ u32 (cur + length items)
  Unread-stop e k block cur stop [] h u = omega arith
  Unread-stop e k block cur stop (x ∷ xs) h u =
      omega (arith, Unread-stop e k block (u32 (cur + 1)) stop xs (omega arith) u.2)

  -- A write elsewhere in the array.
  pub Unread-store :
      (e k : ℕ) (block : Block (Elem A)) (cur stop : ℕ) (items : List A) (at : ℕ) (el : Elem A)
      → ((i : ℕ) → i < length items → at ≢ index_of (cur + i))
      → Unread e k block cur stop items
      → Unread e k (store block at el) cur stop items
  Unread-store e k block cur stop [] at el far u = u
  Unread-store e k block cur stop (x ∷ xs) at el far u =
      let same =
        store_ne block el {i = at} {j = index_of cur} (λ q. far 0 (omega arith) (omega arith)) in
      (
        ap (λ r. r.item) same ∙ u.0,
        rw same u.1,
        Unread-store e k block (u32 (cur + 1)) stop xs at el
            (λ i l q. far (suc i) (omega arith) (omega arith)) u.2,
      )

  -- One more element at the end.
  pub Unread-append :
      (e k : ℕ) (block : Block (Elem A)) (cur stop : ℕ) (items : List A) (x : A)
      → Unread e k block cur stop items
      → (block (index_of stop)).item ≡ x
      → Awaits e k (block (index_of stop)).rc
      → Unread e k block cur (u32 (stop + 1)) (items ++ (x ∷ []))
  Unread-append e k block cur stop [] x u it aw = rw u.0 (it, aw, (refl, tt))
  Unread-append e k block cur stop (y ∷ ys) x u it aw =
      (u.0, u.1, Unread-append e k block (u32 (cur + 1)) stop ys x u.2 it aw)

  -- A change of counters that keeps what `k` awaits.
  pub Unread-keep :
      (e k : ℕ) (block block' : Block (Elem A)) (cur stop : ℕ) (items : List A)
      → ((i : ℕ) → (block' i).item ≡ (block i).item)
      → ((i : ℕ) → Awaits e k (block i).rc → Awaits e k (block' i).rc)
      → Unread e k block cur stop items
      → Unread e k block' cur stop items
  Unread-keep e k block block' cur stop [] same keep u = u
  Unread-keep e k block block' cur stop (x ∷ xs) same keep u = (
    same (index_of cur) ∙ u.0,
    keep (index_of cur) u.1,
    Unread-keep e k block block' (u32 (cur + 1)) stop xs same keep u.2,
  )

  -- `push` refuses to overwrite an element of this epoch that a connected receiver has yet to read.
  pub push_refused :
      (x : A) (ch : Channel A) (k : ℕ)
      → bit ch.cc k ≡ 1
      → Awaits ch.epoch k (ch.block (index_of ch.wt)).rc
      → push x ch ≡ (false, ch)
  unfolding push
  push_refused x ch k on aw =
      let rc : ℕ = (ch.block (index_of ch.wt)).rc in
      let rem : u32 (bit_and rc ep_mask) ≡ unread_of rc = omega (arith, rc_low rc) in
      let busy : bit_and ch.cc (u32 (bit_and rc ep_mask)) ≢ 0 =
        rw rem
          (ne_zero_of_bit k _ (omega (arith, bit-bit_and k ch.cc (unread_of rc), aw.pending))) in
      let high : bit_and rc (bit_not 64 ep_mask) ≡ ch.epoch = rc_high rc aw.fits ∙ aw.epoch in
      ground (arith, ne_zero_of_bit k ch.cc on)

  -- Where `push` succeeds it writes.
  pub push-write :
      (x : A) (ch : Channel A) → (push x ch).0 ≡ true → push x ch ≡ (true, write x ch.cc ch)
  unfolding push
  push-write x ch h = ground arith

  pub push_failed : (x : A) (ch : Channel A) → (push x ch).0 ≡ false → push x ch ≡ (false, ch)
  unfolding push
  push_failed x ch h = ground arith
