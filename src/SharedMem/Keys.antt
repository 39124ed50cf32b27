-- ===== src/SharedMem/Keys.antt =====
-- The keys of the segments of src/local_manager/src/mem.go and of
-- src/lambda_executor/src/graphutil/mem.go.
use faa_sgraph.Base.{
  Apart, ℕ, zero, suc, ◌+◌, ◌*◌, ◌%◌, ◌^◌, ◌≤◌, ◌<◌, ◌≡◌, ◌≢◌, ap, ap₂, ◌∙◌, subst, inl, inr, List,
  [], ◌∷◌, ◌++◌, arith, All, All-map, Mem,
}
use faa_sgraph.SharedMem.{vertex_keys, pool_keys}

-- As many numbers as given, from one on.
abbrev pub numbers : ℕ → ℕ → List ℕ
numbers zero k = []
numbers (suc n) k = k ∷ numbers n (suc k)

vertex_keys-numbers :
    (n id i : ℕ) (rest : List ℕ) (m : ℕ)
    → id * 10 + i + n < 2 ^ 64
    → rest ≡ numbers m (id * 10 + i + n)
    → vertex_keys n id i ++ rest ≡ numbers (n + m) (id * 10 + i)
vertex_keys-numbers zero id i rest m h e =
    let a : id * 10 + i + 0 ≡ id * 10 + i = omega arith in
    let b : 0 + m ≡ m = omega arith in rw b (e ∙ ap (numbers m) a)
vertex_keys-numbers (suc n) id i rest m h e =
    let small : (id * 10 + i) % 2 ^ 64 ≡ id * 10 + i = omega arith in
    let shift : id * 10 + i + suc n ≡ id * 10 + suc i + n = omega arith in
    let size : suc n + m ≡ suc (n + m) = omega arith in
    let next : id * 10 + suc i ≡ suc (id * 10 + i) = omega arith in
    rw size (
      ap₂ ◌∷◌ small (
        vertex_keys-numbers n id (suc i) rest m (omega arith) (e ∙ ap (numbers m) shift)
        ∙ ap (numbers (n + m)) next))

pub pool_keys-numbers :
    (id cnt : ℕ) → id * 10 + cnt + 1 < 2 ^ 64 → pool_keys id cnt ≡ numbers (cnt + 2) (id * 10)
unfolding pool_keys
pool_keys-numbers id cnt h =
    let a : (id * 10 + cnt) % 2 ^ 64 ≡ id * 10 + 0 + cnt = omega arith in
    let b : (id * 10 + cnt + 1) % 2 ^ 64 ≡ suc (id * 10 + 0 + cnt) = omega arith in
    let start : id * 10 + 0 ≡ id * 10 = omega arith in
    vertex_keys-numbers cnt id 0 (((id * 10 + cnt) % 2 ^ 64) ∷ ((id * 10 + cnt + 1) % 2 ^ 64) ∷ [])
      2 (omega arith) (ap₂ (λ x y. x ∷ y ∷ []) a b)
    ∙ ap (numbers (cnt + 2)) start

numbers_above : (n k : ℕ) → All (λ j. k ≤ j) (numbers n k)
numbers_above zero k = tt
numbers_above (suc n) k = (
  omega arith,
  All-map (λ j. suc k ≤ j) (λ j. k ≤ j) (numbers n (suc k)) (λ j h. omega arith)
      (numbers_above n (suc k)),
)

pub numbers-Apart : (n k : ℕ) → Apart (numbers n k)
numbers-Apart zero k = tt
numbers-Apart (suc n) k = (
  All-map (λ j. suc k ≤ j) (λ j. j ≢ k) (numbers n (suc k)) (λ j h e. absurd (omega (arith, h, e)))
      (numbers_above n (suc k)),
  numbers-Apart n (suc k),
)

numbers-bounds : (n k j : ℕ) → Mem j (numbers n k) → (k ≤ j) × (j < k + n)
numbers-bounds zero k j m = absurd m
numbers-bounds (suc n) k j (inl e) = (omega arith, omega arith)
numbers-bounds (suc n) k j (inr m) =
    let (low, high) = numbers-bounds n (suc k) j m in (omega arith, omega arith)

-- With at most eight vertex arrays each, two requests have no key in common.
pub pool_keys_apart :
    (a b cnt cnt' key : ℕ)
    → cnt ≤ 8
    → cnt' ≤ 8
    → a * 10 + 9 < 2 ^ 64
    → b * 10 + 9 < 2 ^ 64
    → a ≢ b
    → Mem key (pool_keys a cnt)
    → ¬ Mem key (pool_keys b cnt')
pool_keys_apart a b cnt cnt' key few few' small small' other m m' =
    let (low, high) =
      numbers-bounds (cnt + 2) (a * 10) key
        (subst (Mem key) (pool_keys-numbers a cnt (omega arith)) m) in
    let (low', high') =
      numbers-bounds (cnt' + 2) (b * 10) key
        (subst (Mem key) (pool_keys-numbers b cnt' (omega arith)) m') in
    let same : a ≡ b = omega arith in other same
