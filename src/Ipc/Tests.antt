-- ===== src/Ipc/Tests.antt =====
-- Messages and chunks at concrete values.
use cpp_ipc.Prelude.{
  ℕ, ◌+◌, ◌≤◌, ◌≡◌, ◌⊎◌, refl, Bool, true, false, some, List, [], ◌∷◌, ◌++◌, replicate, arith,
}
use cpp_ipc.Prelude.Int.{ℤ, pos}
use cpp_ipc.IdPool.Chain.{zeroed}
use cpp_ipc.Ipc.{Msg}
use cpp_ipc.Ipc.Recv.{find, collect, message, recv}
use cpp_ipc.Ipc.Send.{send}
use cpp_ipc.Ipc.RoundTrip.Fragments.{accept}
use cpp_ipc.Ipc.RoundTrip.Message.{no_chunk, sender, recv-send}
use cpp_ipc.Ipc.Chunks.{Chunks, calc_chunk_size, chunks_mem_size, find_storage}
use cpp_ipc.Ipc.Chunks.Layout.{find_storage-disjoint}
use cpp_ipc.Ipc.Chunks.Recycle.{releases, released_once, released_twice}

abbrev text : List ℕ
text = replicate 100 65

abbrev zeros : ℕ → List ℕ
zeros n = replicate n 0

abbrev never : ℤ → ℕ → Bool
never id size = false

recv-send_example :
    (ms : List Msg) × (send (accept 1) no_chunk text (sender 7 0) [] ≡ (true, sender 8 0, [] ++ ms))
    × (recv zeros (some 2) never (ms ++ []) []
        ≡ record { result = message text; pending = collect 7 []; queue = [] })
unfolding find
recv-send_example =
    recv-send zeros (some 2) never 1 7 0 text [] [] [] (λ e. ground arith) refl refl (omega arith)
      (omega arith)

abbrev chunks : Chunks
chunks = record { pool = zeroed; conns = λ _. 0 }

find_storage-disjoint_example :
    (a : ℕ) × (b : ℕ) × (find_storage (pos 3) 2000 (some chunks) ≡ some a)
    × (find_storage (pos 4) 1500 (some chunks) ≡ some b)
    × (a + 2000 ≤ chunks_mem_size (calc_chunk_size 2000))
    × ((a + 2000 ≤ b) ⊎ (b + 1500 ≤ a))
find_storage-disjoint_example =
    find_storage-disjoint 3 4 2000 1500 chunks (omega arith) (omega arith) (λ e. omega arith)
      (omega arith) (omega arith) refl

released_once_example : releases ((0, 3) ∷ (1, 3) ∷ []) 3 ≡ (1, 0)
released_once_example =
    released_once 0 3 ((1, 3) ∷ []) (omega arith, refl, refl, (omega arith, refl, refl, tt))

released_twice_example : (releases ((0, 1) ∷ (1, 3) ∷ []) 3).0 ≡ 2
released_twice_example = released_twice 0 1 (omega arith) (omega arith) (λ e. omega arith)
