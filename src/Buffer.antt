-- ===== src/Buffer.antt =====
-- src/libipc/buffer.cpp: buffers that own the memory of a message. Memory and functions are numbers, 0 the
-- null pointer.
pub mod Owned
mod Tests
use cpp_ipc.Prelude.{
  ℕ, zero, suc, Bool, true, false, ◌||◌, ◌&&◌, not, Option, none, some, List, [], ◌∷◌, ◌==◌,
  if◌then◌else◌, get_elem?, set,
}

-- A call of a destructor.
pub record Call : Type 0 where
  pub destructor : ℕ
  pub memory : ℕ
  pub size : ℕ

-- `buffer_`, which a buffer points to and no other one does.
pub record Buffer : Type 0 where
  pub p : ℕ
  pub s : ℕ
  pub a : ℕ  -- what is freed in place of `p`
  pub d : ℕ  -- the destructor

abbrev pub empty_buffer : Buffer
empty_buffer = record { p = 0; s = 0; a = 0; d = 0 }

-- `~buffer_`.
pub destroy : Buffer → List Call
destroy b =
    if b.d == 0
    then []
    else record { destructor = b.d; memory = if b.a == 0 then b.p else b.a; size = b.s } ∷ []

pub is_empty : Buffer → Bool
is_empty b = b.p == 0 || b.s == 0

-- `operator==`, where `memcmp` tells whether so many bytes at two addresses are the same.
pub equals : (memcmp : ℕ → ℕ → ℕ → Bool) → Buffer → Buffer → Bool
equals memcmp b1 b2 = b1.s == b2.s && memcmp b1.p b2.p b1.s

-- The buffers of a program, and the calls of destructors, the last first.
pub record Program : Type 0 where
  pub buffers : List Buffer
  pub calls : List Call

abbrev pub logged : List Call → List Call → List Call
logged [] log = log
logged (c ∷ cs) log = logged cs (c ∷ log)

-- `swap` with a buffer that is not in the list: the list, and what the other one has then.
pub swap_out : ℕ → Buffer → List Buffer → Option (Buffer × List Buffer)
swap_out i b bs = elim (get_elem? bs i) [ none ↦ none | some old ↦ some (old, set bs i b) ]

-- A buffer that is made from memory.
pub make : Buffer → Program → Program
make b g = record g { buffers = b ∷ g.buffers }

-- `buffer(buffer&&)`: an empty one, that is swapped.
pub move_from : ℕ → Program → Option Program
move_from j g = elim (swap_out j empty_buffer g.buffers) [
  | none ↦ none
  | some (taken, bs) ↦ some (record g { buffers = taken ∷ bs })
]

-- `operator=(buffer)` with `std::move` of another one or of itself.
pub assign : (i j : ℕ) → Program → Option Program
assign i j g = elim (swap_out j empty_buffer g.buffers) [
  | none ↦ none
  | some (rhs, bs) ↦ elim (swap_out i rhs bs) [
    | none ↦ none
    | some (old, bs') ↦ some (record { buffers = bs'; calls = logged (destroy old) g.calls })
  ]
]

-- `swap` of two.
pub swap : (i j : ℕ) → Program → Option Program
swap i j g = elim (get_elem? g.buffers i) [
  | none ↦ none
  | some a ↦ elim (get_elem? g.buffers j) [
    | none ↦ none
    | some b ↦ some (record g { buffers = set (set g.buffers i b) j a })
  ]
]

abbrev pub remove_at : List Buffer → ℕ → List Buffer
remove_at [] i = []
remove_at (b ∷ bs) zero = bs
remove_at (b ∷ bs) (suc i) = b ∷ remove_at bs i

-- `~buffer`.
pub drop : ℕ → Program → Option Program
drop i g = elim (get_elem? g.buffers i) [
  | none ↦ none
  | some b ↦ some (record { buffers = remove_at g.buffers i; calls = logged (destroy b) g.calls })
]
