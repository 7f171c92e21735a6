-- ===== src/ProdCons/Single.antt =====
-- src/libipc/prod_cons.h, `prod_cons_impl<wr<single, single, unicast>>`: one producer, one consumer.
pub mod Queue
use cpp_ipc.Prelude.{ℕ, ◌+◌, ◌-◌, ◌^◌, Bool, true, false, Option, none, some, ◌==◌, if◌then◌else◌}
use cpp_ipc.Prelude.Bits.{bit_not}
use cpp_ipc.Circ.{u32, index_of}
use cpp_ipc.Circ.Unicast
use cpp_ipc.ProdCons.{Block, store}

pub record Ring {ℓ} (A : Type ℓ) : Type ℓ where
  pub rd : ℕ  -- read index, uint32_t
  pub wt : ℕ  -- write index, uint32_t
  pub block : Block A

pub cursor {ℓ} : {A : Type ℓ} → Ring A → ℕ
cursor r = 0

module _ {ℓ} {A : Type ℓ} where
  unfoldable pub push : A → Ring A → Bool × Ring A
  push x r =
      let cur_wt = index_of r.wt in
      if cur_wt == index_of (u32 (r.rd + 2 ^ 32 - 1))
      then (false, r)
      else (true, record r { block = store r.block cur_wt x; wt = u32 (r.wt + 1) })

  -- The element that `f` is given, if any; `out` is then told that it was the last reader.
  unfoldable pub pop : Ring A → Option A × Ring A
  pop r =
      let cur_rd = index_of r.rd in
      if cur_rd == index_of r.wt
      then (none, r)
      else (some (r.block cur_rd), record r { rd = u32 (r.rd + 1) })

-- `force_push` writes nothing: it disconnects every receiver, and fails. The result is that and the
-- new `cc_`.
pub force_push : ℕ → Bool × ℕ
force_push cc = (false, Unicast.disconnect cc (bit_not 32 0))
