-- ===== src/Circ/Broadcast.antt =====
-- src/libipc/circ/elem_def.h, `conn_head<P, true>`: one bit of `cc_` for each receiver.
pub mod Connect
pub mod Count
use cpp_ipc.Prelude.{
  ℕ, zero, suc, ◌+◌, ◌-◌, bit_and, bit_or, bit_xor, Bool, not, Option, none, some, List, [], ◌∷◌,
  ◌==◌, if◌then◌else◌,
}
use cpp_ipc.Prelude.Bits.{bit_not}
use cpp_ipc.Circ.{u32, Attempt, exchanges}

-- The id returned, with the value stored if there was one; `none` after the last turn means that
-- the loop goes on.
unfoldable pub connect : List Attempt → Option (ℕ × Option ℕ)
connect [] = none
connect (a ∷ more) =
    let rest = connect more in
    let next = bit_or a.seen (u32 (a.seen + 1)) in
    if next == a.seen
    then some (0, none)
    else if exchanges a
    then some (bit_xor next a.seen, some next)
    else rest

-- The new value of `cc_`, which is also what `disconnect` returns.
unfoldable pub disconnect : ℕ → ℕ → ℕ
disconnect cc cc_id = bit_and cc (bit_not 32 cc_id)

unfoldable pub connected : ℕ → ℕ → Bool
connected cc cc_id = not (bit_and cc cc_id == 0)

-- The loop of `conn_count`; `none` when the fuel has run out.
pub count_from : ℕ → ℕ → ℕ → Option ℕ
count_from zero cur cnt = none
count_from (suc fuel) cur cnt =
    let rest = count_from fuel (bit_and cur (cur - 1)) (u32 (cnt + 1)) in
    if cur == 0 then some cnt else rest

pub conn_count : ℕ → Option ℕ
conn_count cc = count_from 33 cc 0
