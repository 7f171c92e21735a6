-- ===== src/Shm/Users.antt =====
-- src/libipc/platform/posix/shm_posix.cpp: the counts of the objects, whoever maps and releases them.
use cpp_ipc.Prelude.{
  ℕ, ◌+◌, ◌-◌, ◌%◌, ◌^◌, ◌≤◌, ◌<◌, ◌≡◌, ◌≢◌, refl, arith, false, ◌||◌, none, some, List, [], ◌∷◌,
  ◌==◌, if◌then◌else◌, get_elem?, set, length,
}
use cpp_ipc.RwLock.Tally.{tally, tally-set, tally-elem, tally_le_length}
use cpp_ipc.Ipc.{to_i32}
use cpp_ipc.Prelude.Int.{pos}
use cpp_ipc.Shm
use cpp_ipc.Shm.{System, Call, IdInfo, calc_size, map_mem}

-- What is left of a handle that was released.
abbrev pub closed : IdInfo
closed = record { fd = none; mem = 0; size = 0; name = [] }

module _ (word : ℕ → ℕ) where
  -- 1 for a handle that is counted in the word.
  unfoldable pub user : ℕ → IdInfo → ℕ
  user o i =
      if i.mem == 0 || i.size == 0 then 0 else if Shm.acc_of word i.mem i.size == o then 1 else 0

  user-le : (o : ℕ) (i : IdInfo) → user o i ≤ 1
  unfolding user
  user-le o i = ground arith

  -- How the count of an word follows a handle.
  Follows : ℕ → IdInfo → IdInfo → (ℕ → ℕ) → (ℕ → ℕ) → Type 0
  Follows o i i' acc acc' = acc' o ≡ (acc o + user o i' + 2 ^ 32 - user o i) % 2 ^ 32

  get_mem-Follows :
      (o : ℕ) (os : System) (i : IdInfo) (acc : ℕ → ℕ)
      → acc o < 2 ^ 32
      → os.mmap ≢ some 0
      → let (i', acc', _) = Shm.get_mem word os i acc in Follows o i i' acc acc'
  unfolding Shm.get_mem map_mem user Follows calc_size
  get_mem-Follows o os i acc h real = ground arith

  release-Follows :
      (o : ℕ) (i : IdInfo) (acc : ℕ → ℕ)
      → acc o < 2 ^ 32
      → let (ret, acc', calls) = Shm.release word i acc in Follows o i closed acc acc'
  unfolding Shm.release user Follows
  release-Follows o i acc h = ground arith

  remove-Follows :
      (o : ℕ) (i : IdInfo) (acc : ℕ → ℕ)
      → acc o < 2 ^ 32
      → let (acc', calls) = Shm.remove word i acc in Follows o i closed acc acc'
  unfolding Shm.remove Shm.release user Follows
  remove-Follows o i acc h = ground arith

  acquire-unused :
      (o : ℕ) (os : System) (name : List ℕ) (size mode : ℕ) (i : IdInfo)
      → Shm.acquire os name size mode ≡ some i
      → user o i ≡ 0
  unfolding Shm.acquire user
  acquire-unused o os [] size mode i e = cc e
  acquire-unused o os (c ∷ name) size mode i e = ground arith

  -- The handles of all processes, and the counts, which are 0 in fresh memory.
  pub record Users : Type 0 where
    pub acc : ℕ → ℕ
    pub ids : List IdInfo

  pub data Step (s : Users) : Users → Type 0 where
    acquire :
        (os : System) (name : List ℕ) (size mode : ℕ) {i : IdInfo}
        → Shm.acquire os name size mode ≡ some i
        → Step s (record s { ids = i ∷ s.ids })
    get_mem :
        (k : ℕ) {i : IdInfo} (os : System)
        → get_elem? s.ids k ≡ some i
        → os.mmap ≢ some 0
        → Step s (record {
          acc = (Shm.get_mem word os i s.acc).1;
          ids = set s.ids k (Shm.get_mem word os i s.acc).0;
        })
    release :
        (k : ℕ) {i : IdInfo}
        → get_elem? s.ids k ≡ some i
        → Step s (record { acc = (Shm.release word i s.acc).1; ids = set s.ids k closed })
    remove :
        (k : ℕ) {i : IdInfo}
        → get_elem? s.ids k ≡ some i
        → Step s (record { acc = (Shm.remove word i s.acc).0; ids = set s.ids k closed })

  pub data Reach : Users → Type 0 where
    start : Reach (record { acc = λ _. 0; ids = [] })
    after : {s e : Users} → Reach s → Step s e → Reach e

  -- The count of an word is the number of handles that use it.
  abbrev pub Counted : Users → Type 0
  Counted s = (o : ℕ) → s.acc o ≡ tally (user o) s.ids % 2 ^ 32

  moved :
      (o k : ℕ) (s : Users) (i i' : IdInfo) (acc' : ℕ → ℕ)
      → get_elem? s.ids k ≡ some i
      → Counted s
      → Follows o i i' s.acc acc'
      → acc' o ≡ tally (user o) (set s.ids k i') % 2 ^ 32
  unfolding Follows
  moved o k s i i' acc' at c f = omega (arith, c o, tally-set (user o) s.ids k i i' at, user-le o i)

  small : (s : Users) → Counted s → (o : ℕ) → s.acc o < 2 ^ 32
  small s c o = omega (arith, c o)

  Step-Counted : {s e : Users} → Step s e → Counted s → Counted e
  Step-Counted {s} (acquire os name size mode e) c =
      λ o. omega (arith, c o, acquire-unused o os name size mode _ e)
  Step-Counted {s} (get_mem k {i} os at real) c =
      λ o. moved o k s i _ _ at c (get_mem-Follows o os i s.acc (small s c o) real)
  Step-Counted {s} (release k {i} at) c =
      λ o. moved o k s i closed _ at c (release-Follows o i s.acc (small s c o))
  Step-Counted {s} (remove k {i} at) c =
      λ o. moved o k s i closed _ at c (remove-Follows o i s.acc (small s c o))

  pub users_counted : {s : Users} → Reach s → (o : ℕ) → s.acc o ≡ tally (user o) s.ids % 2 ^ 32
  users_counted start o = omega arith
  users_counted (after run step) o = Step-Counted step (users_counted run) o

  used : (i : IdInfo) → i.mem ≢ 0 → i.size ≢ 0 → user (Shm.acc_of word i.mem i.size) i ≡ 1
  unfolding user
  used i mapped sized = ground arith

  -- While fewer than 2^31 handles exist, `release` of a handle that uses an object, and has a
  -- name, returns the number of handles that use it, and unlinks the name exactly where no other
  -- handle does.
  pub release-last :
      {s : Users} (k : ℕ) (i : IdInfo) (c : ℕ) (name : List ℕ)
      → Reach s
      → get_elem? s.ids k ≡ some i
      → length s.ids < 2 ^ 31
      → i.mem ≢ 0
      → i.size ≢ 0
      → i.name ≡ c ∷ name
      → let users = tally (user (Shm.acc_of word i.mem i.size)) s.ids in
        let (ret, acc, calls) = Shm.release word i s.acc in
        (ret ≡ pos users)
        × (calls
            ≡ Shm.munmap i.mem i.size ∷ (if users == 1 then Shm.shm_unlink i.name ∷ [] else []))
  unfolding Shm.release
  release-last {s} k i c name run at few mapped sized named =
      let T : ℕ = tally (user (Shm.acc_of word i.mem i.size)) s.ids in
      let uses : user (Shm.acc_of word i.mem i.size) i ≡ 1 = used i mapped sized in
      let some_user : 1 ≤ T =
        omega (arith, tally-elem (user (Shm.acc_of word i.mem i.size)) s.ids k i at, uses) in
      let few_users : T < 2 ^ 31 = omega (
        arith,
        tally_le_length (user (Shm.acc_of word i.mem i.size))
            (user-le (Shm.acc_of word i.mem i.size)) s.ids,
      ) in
      let count : s.acc (Shm.acc_of word i.mem i.size) ≡ T =
        omega (arith, users_counted run (Shm.acc_of word i.mem i.size)) in
      let there : (i.mem == 0) ≡ false = ground arith in
      let whole : (i.size == 0) ≡ false = ground arith in
      let word : to_i32 T ≡ pos T = ground arith in
      rw (Shm.release, there, whole, count, word, named) (refl, ground arith)
