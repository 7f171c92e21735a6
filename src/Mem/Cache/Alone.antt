-- ===== src/Mem/Cache/Alone.antt =====
-- include/libipc/mem/central_cache_pool.h: calls one after the other.
use cpp_ipc.Prelude.{
  ℕ, ◌≡◌, ◌≢◌, refl, sym, ap₂, arith, List, [], ◌∷◌, map, All, Distinct, ◌==◌, false, true,
}
use cpp_ipc.Mem.Cache.{Cache, update, aqueire_cached, release}

-- The lists that are in the cache, the last one released first.
pub lists : Cache → List ℕ
lists c = map c.value c.cached

-- No node stands twice in the stacks.
pub IsValid : Cache → Type 0
IsValid c =
    Distinct c.cached × Distinct c.aqueired × All (λ a. All (λ n. n ≢ a) c.cached) c.aqueired

update-map :
    (f : ℕ → ℕ) (k v : ℕ) (xs : List ℕ) → All (λ y. y ≢ k) xs → map (update f k v) xs ≡ map f xs
update-map f k v [] h = refl
update-map f k v (x ∷ xs) (h, hs) =
    ap₂ ◌∷◌ (let other : (k == x) ≡ false = ground arith in rw other refl) (update-map f k v xs hs)

update_same : (f : ℕ → ℕ) (k v : ℕ) → update f k v k ≡ v
update_same f k v = let same : (k == k) ≡ true = ground arith in rw same refl

-- A node apart from all others may join them.
joins :
    (n : ℕ) (xs ys : List ℕ)
    → All (λ y. y ≢ n) ys
    → All (λ y. All (λ x. x ≢ y) xs) ys
    → All (λ y. All (λ x. x ≢ y) (n ∷ xs)) ys
joins n xs [] h a = tt
joins n xs (y ∷ ys) (h, hs) (a, rest) = ((λ e. h (sym e), a), joins n xs ys hs rest)

leaves :
    (n : ℕ) (xs ys : List ℕ)
    → All (λ y. All (λ x. x ≢ y) (n ∷ xs)) ys
    → All (λ y. y ≢ n) ys × All (λ y. All (λ x. x ≢ y) xs) ys
leaves n xs [] h = (tt, tt)
leaves n xs (y ∷ ys) (h, hs) =
    let (apart, others) = leaves n xs ys hs in ((λ e. h.0 (sym e), apart), (h.1, others))

-- The lists after a call, and the block that it returned.
abbrev pub Pops : List ℕ → Cache × ℕ → Type 0
Pops [] (c, p) = (lists c ≡ []) × (p ≡ 0)
Pops (q ∷ qs) (c, p) = (lists c ≡ qs) × (p ≡ q)

-- With calls one after the other the cache is a stack of lists: `release` pushes.
pub release-push :
    (node p : ℕ) (c : Cache)
    → IsValid c
    → p ≢ 0
    → node ≢ 0
    → All (λ n. n ≢ node) c.cached
    → IsValid (release node p c) × (lists (release node p c) ≡ p ∷ lists c)
unfolding release lists IsValid
release-push node p c v h full fresh = pushed c.cached c.aqueired c.value v fresh
  where
    given : (p == 0) ≡ false
    given = ground arith

    pushed :
        (xs ys : List ℕ) (f : ℕ → ℕ)
        → (let c : Cache = record { cached = xs; aqueired = ys; value = f } in IsValid c)
        → All (λ n. n ≢ node) xs
        → let c : Cache = record { cached = xs; aqueired = ys; value = f } in
          IsValid (release node p c) × (lists (release node p c) ≡ p ∷ lists c)
    pushed xs [] f (d, e, a) fresh =
        let constructed : (node == 0) ≡ false = ground arith in
        rw (given, constructed)
          (((fresh, d), tt, tt), ap₂ ◌∷◌ (update_same f node p) (update-map f node p xs fresh))
    pushed xs (a ∷ ys) f (d, (e, es), (b, bs)) fresh =
        rw given
          (((b, d), es, joins a xs ys e bs), ap₂ ◌∷◌ (update_same f a p) (update-map f a p xs b))

-- With calls one after the other `aqueire` pops the list released last.
pub aqueire-pop :
    (c : Cache) → IsValid c → IsValid (aqueire_cached c).0 × Pops (lists c) (aqueire_cached c)
unfolding aqueire_cached lists IsValid
aqueire-pop c v = popped c.cached c.aqueired c.value v
  where
    popped :
        (xs ys : List ℕ) (f : ℕ → ℕ)
        → (let c : Cache = record { cached = xs; aqueired = ys; value = f } in IsValid c)
        → let c : Cache = record { cached = xs; aqueired = ys; value = f } in
          IsValid (aqueire_cached c).0 × Pops (lists c) (aqueire_cached c)
    popped [] ys f v = (v, (refl, refl))
    popped (x ∷ xs) ys f ((d, ds), e, a) =
        let (apart, others) = leaves x xs ys a in ((ds, (apart, e), (d, others)), (refl, refl))
