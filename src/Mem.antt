-- ===== src/Mem.antt =====
-- include/libipc/mem and src/libipc/mem: where memory comes from. Addresses are numbers.
mod Ranges
pub mod Monotonic
pub mod Cache
pub mod Pool
pub mod Sizes
pub mod Stack
mod Tests
