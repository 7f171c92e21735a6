-- ===== src/ProdCons/Shared/Fifo.antt =====
-- What any interleaving of one producer and any number of consumers delivers.
use cpp_ipc.Prelude.{
  ◌^◌, ◌≤◌, ◌<◌, ◌≡◌, List, ◌++◌, arith, length, drop, append-drop_of_agree, length-drop,
}
use cpp_ipc.ProdCons.{Block}
use cpp_ipc.ProdCons.Shared.{System, Reach}
use cpp_ipc.ProdCons.Shared.Invariant.{Reach-Inv}

module _ {ℓ} {A : Type ℓ} where
  -- In every interleaving of the accesses of one producer and any number of consumers, while fewer
  -- than 2^32 elements have been published, the elements handed to consumers are the first ones
  -- published, in the order taken, each once, and at most 255 others are pending.
  pub received_prefix :
      {block : Block A} {s : System A}
      → Reach block s
      → length s.mem.sent < 2 ^ 32
      → (rest : List A) × (s.mem.sent ≡ s.mem.received ++ rest) × (length rest ≤ 255)
  received_prefix {s} r l =
      let i = (Reach-Inv r l).memory in
      (
        drop (length s.mem.received) s.mem.sent,
        append-drop_of_agree s.mem.received s.mem.sent (omega (arith, i.wt_eq, i.rd_eq, i.behind))
            (λ k lt. i.agree k (omega (arith, i.rd_eq))),
        omega (arith, length-drop (length s.mem.received) s.mem.sent, i.wt_eq, i.rd_eq, i.bounded),
      )
