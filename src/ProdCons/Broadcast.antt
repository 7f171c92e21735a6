-- ===== src/ProdCons/Broadcast.antt =====
-- src/libipc/prod_cons.h, `prod_cons_impl<wr<single, multi, broadcast>>`: one producer whose elements
-- go to every receiver. Each element has a read counter: the epoch of its writing in the upper 32
-- bits, and below one bit for each receiver that has yet to read it.
pub mod Counter
pub mod Reader
pub mod Steps
pub mod Delivery
pub mod Force
pub mod Threads
use cpp_ipc.Prelude.{
  ℕ, zero, suc, ◌+◌, ◌-◌, ◌%◌, ◌^◌, bit_and, bit_or, Bool, true, false, not, ◌&&◌, Option, none,
  some, ◌==◌, if◌then◌else◌,
}
use cpp_ipc.Prelude.Bits.{bit_not}
use cpp_ipc.Circ.{u32, index_of}
use cpp_ipc.Circ.Broadcast
use cpp_ipc.ProdCons.{Block, store}

abbrev pub u64 : ℕ → ℕ
u64 n = n % 2 ^ 64

abbrev pub ep_mask : ℕ
ep_mask = 0xffffffff

abbrev pub ep_incr : ℕ
ep_incr = 0x100000000

pub record Elem {ℓ} (A : Type ℓ) : Type ℓ where
  pub item : A
  pub rc : ℕ  -- uint64_t

-- The array with its connections.
pub record Channel {ℓ} (A : Type ℓ) : Type ℓ where
  pub wt : ℕ  -- uint32_t
  pub epoch : ℕ  -- uint64_t
  pub block : Block (Elem A)
  pub cc : ℕ  -- uint32_t

module _ {ℓ} {A : Type ℓ} where
  pub cursor : Channel A → ℕ
  cursor ch = ch.wt

  -- The element at the write index gets its counter and its item, and the index moves on.
  abbrev pub write : A → ℕ → Channel A → Channel A
  write x cc ch = record ch {
    wt = u32 (ch.wt + 1);
    block = store ch.block (index_of ch.wt) (record { item = x; rc = bit_or ch.epoch cc });
  }

  pub push : A → Channel A → Bool × Channel A
  push x ch =
      let cur_rc = (ch.block (index_of ch.wt)).rc in
      let rem_cc = u32 (bit_and cur_rc ep_mask) in
      if ch.cc == 0
      then (false, ch)
      else if not (bit_and ch.cc rem_cc == 0) && bit_and cur_rc (bit_not 64 ep_mask) == ch.epoch
      then (false, ch)
      else (true, write x ch.cc ch)

  unfoldable pub force_push : A → Channel A → Bool × Channel A
  force_push x ch =
      let next = record ch { epoch = u64 (ch.epoch + ep_incr) } in
      let rem_cc = u32 (bit_and (next.block (index_of next.wt)).rc ep_mask) in
      let left = Broadcast.disconnect next.cc rem_cc in
      if next.cc == 0
      then (false, next)
      else if bit_and next.cc rem_cc == 0
      then (true, write x next.cc next)
      else if left == 0
      then (false, record next { cc = left })
      else (true, write x left (record next { cc = left }))

  -- `pop` of the receiver whose id is `id` and whose cursor is `cur`: the item and whether this was the
  -- last receiver to read it, if there is one; the cursor; the array.
  pub pop : ℕ → ℕ → Channel A → Option (A × Bool) × ℕ × Channel A
  pop id cur ch =
      let at = index_of cur in
      let el = ch.block at in
      let nxt_rc = bit_and el.rc (bit_not 64 id) in
      if cur == cursor ch
      then (none, cur, ch)
      else if bit_and el.rc ep_mask == 0
      then (some (el.item, true), u32 (cur + 1), ch)
      else (
        some (el.item, bit_and nxt_rc ep_mask == 0),
        u32 (cur + 1),
        record ch { block = store ch.block at (record el { rc = nxt_rc }) },
      )
