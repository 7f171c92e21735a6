-- ===== src/Ipc/RoundTrip.antt =====
-- src/libipc/ipc.cpp: `send` and `recv` together.
pub mod Buffer
pub mod Steps
pub mod Fragments
pub mod Message
