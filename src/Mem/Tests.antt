-- ===== src/Mem/Tests.antt =====
-- The allocators at concrete states.
use cpp_ipc.Prelude.{ℕ, ◌≡◌, refl, arith, List, [], ◌∷◌, some, none, All, get_elem?, Distinct, ◌≢◌}
use cpp_ipc.Mem.Ranges.{Range, Apart, Somewhere, Separate}
use cpp_ipc.Mem.Monotonic.{
  Resource, no_buffer, with_buffer, allocate, round_up, next_buffer_size, align, make_node,
  try_again,
}
use cpp_ipc.Mem.Monotonic.Blocks.{owned, headers, add, node_bytes, Fresh}
use cpp_ipc.Mem.Monotonic.Blocks.Runs.{Reach, blocks-Separate}
use cpp_ipc.Mem.Stack
use cpp_ipc.Mem.Stack.Once
use cpp_ipc.Mem.Stack.Once.Linear.{stack-linear}
use cpp_ipc.Mem.Stack.{popped_twice}
use cpp_ipc.Mem.Cache.Threads
use cpp_ipc.Mem.Cache.Threads.{two_owners}
use cpp_ipc.Mem.Pool.{Pool}
use cpp_ipc.Mem.Pool
use cpp_ipc.Mem.Pool.Chain.{Chain, Gives, refilled, allocate-Gives}

-- Without a buffer, 24 bytes are cut from a node at 4096.
first_runs : allocate (some 4096) 24 8 (no_buffer 0) ≡ (
  record {
    free_list = record { place = 4096; size = 40 } ∷ [];
    head = 4136;
    tail = 4136;
    next_size = 36;
    initial_buffer = 0;
    initial_size = 0;
  },
  some 4112,
)
unfolding allocate try_again make_node align round_up next_buffer_size no_buffer
first_runs = refl

-- Two blocks of a buffer of 64 bytes.
abbrev two_blocks : List Range
two_blocks = (1032, 1042) ∷ (1024, 1032) ∷ []

abbrev cut_twice : Resource
cut_twice = record {
  free_list = [];
  head = 1042;
  tail = 1088;
  next_size = 96;
  initial_buffer = 1024;
  initial_size = 64;
}

cut_twice-Reach : Reach cut_twice two_blocks
unfolding allocate align with_buffer next_buffer_size add node_bytes Fresh round_up
cut_twice-Reach =
    Reach.allocated 1 10 none
      (Reach.allocated 3 8 none (Reach.buffered 1024 64 (λ z. absurd (omega arith)) (omega arith))
        (omega arith) (omega arith) tt)
      (omega arith) (omega arith) tt

blocks-Separate_example :
    Separate two_blocks
    × All (λ a. Somewhere a (owned cut_twice)) two_blocks
    × All (λ a. All (Apart a) (headers cut_twice)) two_blocks
blocks-Separate_example = blocks-Separate cut_twice two_blocks cut_twice-Reach

two_owners_example :
    (s : Threads.System) × Threads.Reach (Threads.start 7 100 (λ _. 200)) s
    × (get_elem? s.threads 0 ≡ some (Threads.owner 100))
    × (get_elem? s.threads 2 ≡ some (Threads.owner 100))
two_owners_example = two_owners 7 100 (λ _. 200)

abbrev empty_pool : Pool
empty_pool = record {
  cursor = 0;
  next = λ _. 0;
  central = record { cached = []; aqueired = []; value = λ _. 0 };
}

allocate-Gives_example : Gives (refilled 64 3 4096 []) (Pool.allocate 64 3 4096 empty_pool)
unfolding Chain
allocate-Gives_example =
    allocate-Gives 64 2 4096 empty_pool [] (omega arith) refl
      (record { linked = refl; distinct = tt })

popped_twice_example :
    (s : Stack.System) × Stack.Reach (Stack.start 8 9 (λ _. 0)) s
    × (get_elem? s.threads 2 ≡ some (Stack.owner 9))
    × (get_elem? s.threads 3 ≡ some (Stack.owner 9))
popped_twice_example = popped_twice 8 9 (λ _. 0) (omega arith) (omega arith)

-- A node is pushed by one thread and popped by another.
abbrev one_popped : (w : Once.World) × Once.Reach w
one_popped =
    let brought = Once.after 0 Once.here (Once.bring 8 (omega arith) refl Stack.push_load) in
    let on_top =
      Once.after 0 (Once.after 0 brought (Once.access Stack.push_store refl))
        (Once.access (Stack.push_exchange refl) refl) in
    (
      _,
      Once.after 1
          (Once.after 1 (Once.after 1 on_top (Once.access Stack.pop_load refl))
            (Once.access (Stack.pop_next (omega arith)) refl))
          (Once.access (Stack.pop_exchange refl) refl),
    )

stack-linear_example :
    Chain one_popped.0.stack.next 0 []
    × Distinct {A = ℕ} []
    × ((i n : ℕ)
        → one_popped.0.thread i ≡ Stack.owner n
        → All {A = ℕ} (λ x. x ≢ n) [] × ((j : ℕ) → one_popped.0.thread j ≡ Stack.owner n → i ≡ j))
unfolding Chain
stack-linear_example = stack-linear one_popped.1
