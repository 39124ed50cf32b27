-- ===== src/Base/Sums.antt =====
-- Sums and predicates over a list, and what a write at one index does to them.
use Prim.Native.Nat.{ℕ, zero, suc, ◌+◌, ◌*◌, ◌≤◌}
use mathlib.Core.Path.{◌≡◌, ap, subst}
use mathlib.Core.Logic.{◌⊎◌, inl, inr}
use mathlib.Core.Option.{some, some-injective}
use mathlib.Core.List.{List, [], ◌∷◌, ◌++◌}
use native.Mathlib.Omega.{arith}
use faa_sgraph.Base.Lists.{get_elem?, set, length}

-- Every element satisfies P.
abbrev pub All {ℓ κ} : {A : Type ℓ} → (A → Type κ) → List A → Type κ
All P [] = Unit
All P (x ∷ xs) = P x × All P xs

module _ {ℓ} {A : Type ℓ} where
  abbrev pub sum_by : (A → ℕ) → List A → ℕ
  sum_by f [] = 0
  sum_by f (x ∷ xs) = f x + sum_by f xs

  pub sum_by-set :
      (f : A → ℕ) (xs : List A) (i : ℕ) (x y : A)
      → get_elem? xs i ≡ some x
      → sum_by f (set xs i y) + f x ≡ sum_by f xs + f y
  sum_by-set f [] i x y h = absurd (ground arith)
  sum_by-set f (a ∷ xs) zero x y h = omega (arith, ap f (some-injective _ _ h))
  sum_by-set f (a ∷ xs) (suc i) x y h = omega (arith, sum_by-set f xs i x y h)

  pub sum_by-append : (f : A → ℕ) (xs ys : List A) → sum_by f (xs ++ ys) ≡ sum_by f xs + sum_by f ys
  sum_by-append f [] ys = omega arith
  sum_by-append f (x ∷ xs) ys = omega (arith, sum_by-append f xs ys)

  pub sum_by-le :
      (f g : A → ℕ) (k : ℕ) (xs : List A)
      → ((a : A) → f a ≤ g a + k)
      → sum_by f xs ≤ sum_by g xs + k * length xs
  sum_by-le f g k [] h = omega arith
  sum_by-le f g k (x ∷ xs) h = omega (arith, h x, sum_by-le f g k xs h)

  pub All-get {κ} :
      (P : A → Type κ) (xs : List A) (i : ℕ) {x : A} → All P xs → get_elem? xs i ≡ some x → P x
  All-get P [] i a h = absurd (ground arith)
  All-get P (y ∷ xs) zero a h = subst P (some-injective _ _ h) a.0
  All-get P (y ∷ xs) (suc i) a h = All-get P xs i a.1 h

  pub All-set {κ} :
      (P : A → Type κ) (xs : List A) (i : ℕ) (y : A) → All P xs → P y → All P (set xs i y)
  All-set P [] i y a h = tt
  All-set P (x ∷ xs) zero y a h = (h, a.1)
  All-set P (x ∷ xs) (suc i) y a h = (a.0, All-set P xs i y a.1 h)

  pub All-append {κ} : (P : A → Type κ) (xs ys : List A) → All P xs → All P ys → All P (xs ++ ys)
  All-append P [] ys a b = b
  All-append P (x ∷ xs) ys a b = (a.0, All-append P xs ys a.1 b)

  pub All-map {κ μ} :
      (P : A → Type κ) (Q : A → Type μ) (xs : List A) → ((x : A) → P x → Q x) → All P xs → All Q xs
  All-map P Q [] f a = tt
  All-map P Q (x ∷ xs) f a = (f x a.0, All-map P Q xs f a.1)

module _ {A : Type 0} where
  abbrev pub Mem : A → List A → Type 0
  Mem x [] = ⊥
  Mem x (y ∷ ys) = (x ≡ y) ⊎ Mem x ys

  pub Mem-append_left : (x : A) (xs ys : List A) → Mem x xs → Mem x (xs ++ ys)
  Mem-append_left x [] ys h = absurd h
  Mem-append_left x (a ∷ xs) ys (inl e) = inl e
  Mem-append_left x (a ∷ xs) ys (inr h) = inr (Mem-append_left x xs ys h)

  pub Mem-append_right : (x : A) (xs ys : List A) → Mem x ys → Mem x (xs ++ ys)
  Mem-append_right x [] ys h = h
  Mem-append_right x (a ∷ xs) ys h = inr (Mem-append_right x xs ys h)
