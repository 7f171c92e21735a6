-- ===== src/ProdCons/Multi.antt =====
-- src/libipc/prod_cons.h, `prod_cons_impl<wr<multi, multi, unicast>>`: any number of producers and of
-- consumers. A producer claims an index of `ct_`, fills its element, sets the element's commit flag,
-- and moves `wt_` over the elements that are committed. A call's parts run here without another call.
pub mod Settle
pub mod Alone
pub mod Threads
use cpp_ipc.Prelude.{
  ℕ, zero, suc, ◌+◌, ◌-◌, ◌^◌, Bool, true, false, Option, none, some, ◌==◌, if◌then◌else◌,
}
use cpp_ipc.Prelude.Bits.{bit_not}
use cpp_ipc.Circ.{u32, index_of}
use cpp_ipc.ProdCons.{Block, store}

pub record Elem {ℓ} (A : Type ℓ) : Type ℓ where
  pub item : A
  pub flag : ℕ  -- f_ct_, uint64_t

pub record Ring {ℓ} (A : Type ℓ) : Type ℓ where
  pub rd : ℕ  -- read index, uint32_t
  pub wt : ℕ  -- write index, uint32_t
  pub ct : ℕ  -- commit index, uint32_t
  pub block : Block (Elem A)

module _ {ℓ} {A : Type ℓ} where
  -- The loop at the start of `push`: the index that is claimed, if the ring is not full.
  pub claim : Ring A → Option ℕ × Ring A
  claim r =
      if index_of (u32 (r.ct + 1)) == index_of r.rd
      then (none, r)
      else (some r.ct, record r { ct = u32 (r.ct + 1) })

  -- The element is written, and its flag is set.
  abbrev pub fill : A → ℕ → Ring A → Ring A
  fill x cur r = record r {
    block = store r.block (index_of cur) (record { item = x; flag = bit_not 64 cur });
  }

  abbrev pub is_committed : ℕ → Ring A → Bool
  is_committed cur r = bit_not 64 (r.block (index_of cur)).flag == cur

  -- The flag of the element at `wt_` is taken, and `wt_` moves over it.
  abbrev pub advance : Ring A → Ring A
  advance r = record r {
    wt = u32 (r.wt + 1);
    block = store r.block (index_of r.wt) (record (r.block (index_of r.wt)) { flag = 0 });
  }

  -- The loop at the end of `push`.
  pub settle : ℕ → ℕ → Ring A → Ring A
  settle zero cur r = r
  settle (suc fuel) cur r =
      let rest = settle fuel (u32 (cur + 1)) (advance r) in
      if cur == r.wt then (if is_committed cur r then rest else r) else r

  pub push : A → Ring A → Bool × Ring A
  push x r =
      let (cur, r') = claim r in
      elim cur [ none ↦ (false, r') | some c ↦ (true, settle 257 c (fill x c r')) ]

  -- `none` after the fuel has run out.
  pub pop_from : ℕ → Ring A → Option (Option A × Ring A)
  pop_from zero r = none
  pop_from (suc fuel) r =
      let rest = pop_from fuel (advance r) in
      let cur_rd = index_of r.rd in
      if cur_rd == index_of r.wt
      then (if is_committed r.wt r then rest else some (none, r))
      else some (some (r.block cur_rd).item, record r { rd = u32 (r.rd + 1) })

  -- A consumer moves `wt_` over one element at most: then the ring is not empty.
  pub pop : Ring A → Option (Option A × Ring A)
  pop r = pop_from 2 r
