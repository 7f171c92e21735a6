-- ===== src/IdPool.antt =====
-- src/libipc/utility/id_pool.h: `id_pool<>`, the pool of large-message chunk numbers. The free ids
-- are a list that is threaded through `next_` by index.
pub mod Chain
pub mod Clients
mod Tests
use cpp_ipc.Prelude.{
  ℕ, zero, suc, ◌+◌, ◌%◌, ◌^◌, min, Bool, true, false, not, ◌&&◌, List, [], ◌∷◌, ltb, ◌==◌,
  if◌then◌else◌, get_or, set,
}
use cpp_ipc.Prelude.Int.{ℤ, pos, negsuc}

-- `limited_max_count()`: `large_msg_cache`, at most the largest 8-bit number.
abbrev pub max_count : ℕ
max_count = min 32 255

pub record IdPool : Type 0 where
  pub next : List ℕ  -- uint8_t[max_count]
  pub cursor : ℕ  -- uint8_t
  pub prepared : Bool

abbrev pub u8 : ℕ → ℕ
u8 n = n % 2 ^ 8

-- The loop of `init()`, `i = next_[i] = (i + 1)`: the value assigned is read back as 8 bits.
pub init_from : ℕ → ℕ → List ℕ → List ℕ
init_from zero i next = next
init_from (suc fuel) i next =
    let rest = init_from fuel (u8 (i + 1)) (set next i (u8 (i + 1))) in
    if ltb i max_count then rest else next

pub init : IdPool → IdPool
unfolding init_from
init p = record p { next = init_from (max_count + 1) 0 p.next }

abbrev pub all_zero : List ℕ → Bool
all_zero [] = true
all_zero (x ∷ xs) = x == 0 && all_zero xs

-- The bytes of the pool equal those of a pool with static storage, which are zeros.
pub invalid : IdPool → Bool
invalid p = all_zero p.next && (p.cursor == 0 && not p.prepared)

pub prepare : IdPool → IdPool
unfolding invalid init
prepare p =
    let q = if not p.prepared && invalid p then init p else p in record q { prepared = true }

pub empty : IdPool → Bool
empty p = p.cursor == max_count

-- The id, or -1 of an empty pool.
pub acquire : IdPool → ℤ × IdPool
unfolding empty
acquire p =
    if empty p
    then (negsuc 0, p)
    else (pos p.cursor, record p { cursor = get_or p.next p.cursor 0 })

-- A write past the array, which C leaves undefined, changes nothing here.
pub release : IdPool → ℤ → Bool × IdPool
release p (pos id) = (true, record p { next = set p.next id p.cursor; cursor = u8 id })
release p (negsuc n) = (false, p)
