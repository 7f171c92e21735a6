-- ===== src/ProdCons/Many.antt =====
-- src/libipc/prod_cons.h, `prod_cons_impl<wr<multi, multi, broadcast>>`: many producers whose elements
-- go to every receiver, each call without another call. A read counter holds from the top the epoch
-- of its writing (8 bits), a count of its changes (24 bits), and one bit for each receiver that has
-- yet to read; a commit flag tells which index the element is written for.
pub mod Delivery
pub mod Threads
use cpp_ipc.Prelude.{
  ℕ, ◌+◌, ◌-◌, ◌%◌, ◌^◌, bit_and, bit_or, Bool, true, false, not, ◌&&◌, Option, none, some, ◌==◌,
  if◌then◌else◌,
}
use cpp_ipc.Prelude.Bits.{bit_not}
use cpp_ipc.Circ.{u32, index_of}
use cpp_ipc.Circ.Broadcast
use cpp_ipc.ProdCons.{Block, store}

abbrev pub u64 : ℕ → ℕ
u64 n = n % 2 ^ 64

abbrev pub rc_mask : ℕ
rc_mask = 0x00000000ffffffff

abbrev pub ep_mask : ℕ
ep_mask = 0x00ffffffffffffff

abbrev pub ep_incr : ℕ
ep_incr = 0x0100000000000000

abbrev pub ic_mask : ℕ
ic_mask = 0xff000000ffffffff

abbrev pub ic_incr : ℕ
ic_incr = 0x0000000100000000

pub inc_rc : ℕ → ℕ
inc_rc rc = bit_or (bit_and rc ic_mask) (bit_and (u64 (rc + ic_incr)) (bit_not 64 ic_mask))

pub inc_mask : ℕ → ℕ
inc_mask rc = bit_and (inc_rc rc) (bit_not 64 rc_mask)

pub record Elem {ℓ} (A : Type ℓ) : Type ℓ where
  pub item : A
  pub rc : ℕ  -- uint64_t
  pub flag : ℕ  -- f_ct_, uint64_t

pub record Channel {ℓ} (A : Type ℓ) : Type ℓ where
  pub ct : ℕ  -- uint32_t
  pub epoch : ℕ  -- uint64_t
  pub block : Block (Elem A)
  pub cc : ℕ  -- uint32_t

module _ {ℓ} {A : Type ℓ} where
  pub cursor : Channel A → ℕ
  cursor ch = ch.ct

  -- The element at the commit index is taken, written and committed.
  abbrev pub write : A → ℕ → Channel A → Channel A
  write x cc ch =
      let cur_rc = (ch.block (index_of ch.ct)).rc in
      let nxt_rc = bit_or (inc_mask (bit_or ch.epoch (bit_and cur_rc ep_mask))) cc in
      record ch {
        ct = u32 (ch.ct + 1);
        block =
            store ch.block (index_of ch.ct)
              (record { item = x; rc = nxt_rc; flag = bit_not 64 ch.ct });
      }

  unfoldable pub push : A → Channel A → Bool × Channel A
  push x ch =
      let el = ch.block (index_of ch.ct) in
      let rem_cc = u32 (bit_and el.rc rc_mask) in
      if ch.cc == 0
      then (false, ch)
      else if not (bit_and ch.cc rem_cc == 0) && bit_and el.rc (bit_not 64 ep_mask) == ch.epoch
      then (false, ch)
      else if rem_cc == 0 && (not (el.flag == ch.ct) && not (el.flag == 0))
      then (false, ch)
      else (true, write x ch.cc ch)

  unfoldable pub force_push : A → Channel A → Bool × Channel A
  force_push x ch =
      let next = record ch { epoch = u64 (ch.epoch + ep_incr) } in
      let rem_cc = u32 (bit_and (next.block (index_of next.ct)).rc rc_mask) in
      let left = Broadcast.disconnect next.cc rem_cc in
      if next.cc == 0
      then (false, next)
      else if bit_and next.cc rem_cc == 0
      then (true, write x next.cc next)
      else if left == 0
      then (false, record next { cc = left })
      else (true, write x left (record next { cc = left }))

  -- `pop` of the receiver whose id is `id` and whose cursor is `cur`: the item and whether this was the
  -- last receiver to read it, if there is one; the cursor; the array.
  pub pop : ℕ → ℕ → Channel A → Option (A × Bool) × ℕ × Channel A
  pop id cur ch =
      let at = index_of cur in
      let el = ch.block at in
      let next = u32 (cur + 1) in
      let nxt_rc = bit_and (inc_rc el.rc) (bit_not 64 id) in
      let read = bit_and nxt_rc rc_mask == 0 in
      let flag' = if read then next + 256 - 1 else el.flag in
      if not (el.flag == bit_not 64 cur)
      then (none, cur, ch)
      else if bit_and el.rc rc_mask == 0
      then (
        some (el.item, true),
        next,
        record ch { block = store ch.block at (record el { flag = next + 256 - 1 }) },
      )
      else (
        some (el.item, read),
        next,
        record ch { block = store ch.block at (record el { rc = nxt_rc; flag = flag' }) },
      )
