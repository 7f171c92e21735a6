-- ===== src/Shm/Tests.antt =====
-- Two users of one shared memory object.
use cpp_ipc.Prelude.{ℕ, ◌%◌, ◌≡◌, refl, true, some, none, [], ◌∷◌, if◌then◌else◌, ◌==◌}
use cpp_ipc.Shm
use cpp_ipc.Shm.{System, IdInfo}
use cpp_ipc.Shm.Users.{user, Users}

-- One object of 64 bytes, which is mapped at multiples of 64.
abbrev word : ℕ → ℕ
word a = a % 64

abbrev os : ℕ → System
os mem = record { shm_open = some 3; fstat = some 64; ftruncate = true; mmap = some mem }

abbrev opened : IdInfo
opened = record { fd = some 3; mem = 0; size = 60; name = 47 ∷ 97 ∷ [] }

abbrev mapped : ℕ → IdInfo
mapped mem = record { fd = none; mem = mem; size = 64; name = 47 ∷ 97 ∷ [] }

abbrev both : Users word
both = record {
  acc = λ o. if 60 == o then 2 else if 60 == o then 1 else 0;
  ids = mapped 64 ∷ mapped 128 ∷ [];
}

-- A handle of another size has its count elsewhere.
other_size : user word 60 (record { fd = none; mem = 64; size = 32; name = 47 ∷ 97 ∷ [] }) ≡ 0
unfolding user
other_size = refl
