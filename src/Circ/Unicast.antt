-- ===== src/Circ/Unicast.antt =====
-- src/libipc/circ/elem_def.h, `conn_head<P, false>`: `cc_` is the number of receivers.
use cpp_ipc.Prelude.{ℕ, ◌+◌, ◌-◌, ◌^◌, Bool, not, ◌&&◌, ◌==◌, if◌then◌else◌}
use cpp_ipc.Prelude.Bits.{bit_not}
use cpp_ipc.Circ.{u32}

-- The new value of `cc_`, which is also the id returned.
unfoldable pub connect : ℕ → ℕ
connect cc = u32 (cc + 1)

unfoldable pub disconnect : ℕ → ℕ → ℕ
disconnect cc cc_id = if cc_id == bit_not 32 0 then 0 else u32 (cc + 2 ^ 32 - 1)

unfoldable pub connected : ℕ → ℕ → Bool
connected cc cc_id = not (cc == 0) && not (cc_id == 0)

pub conn_count : ℕ → ℕ
conn_count cc = cc
