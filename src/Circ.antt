-- ===== src/Circ.antt =====
-- src/libipc/circ/elem_def.h: the connections of an element array, one bit for each receiver in
-- broadcast mode and a count in unicast mode.
pub mod Broadcast
pub mod Unicast
mod Tests
use cpp_ipc.Prelude.{ℕ, ◌%◌, ◌^◌, Bool, true, false, not, ◌&&◌, ◌==◌, if◌then◌else◌}

abbrev pub u32 : ℕ → ℕ
u32 n = n % 2 ^ 32

-- `index_of`: the low 8 bits of an index are a position among the 256 elements.
abbrev pub index_of : ℕ → ℕ
index_of c = c % 2 ^ 8

pub record ConnHead : Type 0 where
  pub cc : ℕ  -- connections
  pub lc : ℕ  -- the word of the spin lock
  pub constructed : Bool

-- `init()` of one thread. Constructing the head in place resets the lock that is held, too.
pub init : ConnHead → ConnHead
init c =
    let locked = record c { lc = 1 } in
    let fresh : ConnHead = record { cc = 0; lc = 0; constructed = false } in
    let guarded = if locked.constructed then locked else record fresh { constructed = true } in
    if c.constructed then c else record guarded { lc = 0 }

-- One turn of a compare-exchange loop: the value that the load saw, the value at the exchange (other
-- threads may have written between), and whether the weak exchange fails though they agree.
pub record Attempt : Type 0 where
  pub seen : ℕ
  pub now : ℕ
  pub spurious : Bool

abbrev pub exchanges : Attempt → Bool
exchanges a = not a.spurious && a.now == a.seen

-- The turn of a thread that is alone.
abbrev pub alone : ℕ → Attempt
alone cc = record { seen = cc; now = cc; spurious = false }
