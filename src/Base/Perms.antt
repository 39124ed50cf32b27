-- ===== src/Base/Perms.antt =====
-- Permutations, as the library has them: what they keep of a sum and of a predicate over a list, and
-- how often a number stands in a list.
use Prim.Native.Nat.{ℕ}
use mathlib.Core.Path.{◌≡◌, refl, ap, sym, ◌∙◌, subst}
use mathlib.Core.Logic.{◌≢◌, inl, inr}
use mathlib.Core.List.{List, [], ◌∷◌, Permᴰ}
use native.Mathlib.Omega.{arith}
use faa_sgraph.Base.Sums.{All, sum_by, Mem}
use faa_sgraph.Base.Tests.{◌==◌, ==_iff, if◌then◌else◌, Bool-cases}

module _ {ℓ} {A : Type ℓ} where
  pub sum_by-Perm : (f : A → ℕ) (xs ys : List A) → Permᴰ xs ys → sum_by f xs ≡ sum_by f ys
  sum_by-Perm f xs ys Permᴰ.nil = refl
  sum_by-Perm f xs ys (Permᴰ.cons {l₁ = l₁} {l₂ = l₂} e d) =
      omega (arith, ap f e, sum_by-Perm f l₁ l₂ d)
  sum_by-Perm f xs ys (Permᴰ.swap d e) = omega (arith, ap f d, ap f e)
  sum_by-Perm f xs ys (Permᴰ.trans {l₂ = l₂} d e) = sum_by-Perm f xs l₂ d ∙ sum_by-Perm f l₂ ys e

  pub All-Perm {κ} : (P : A → Type κ) (xs ys : List A) → Permᴰ xs ys → All P xs → All P ys
  All-Perm P xs ys Permᴰ.nil a = tt
  All-Perm P xs ys (Permᴰ.cons {l₁ = l₁} {l₂ = l₂} e d) (p, a) = (subst P e p, All-Perm P l₁ l₂ d a)
  All-Perm P xs ys (Permᴰ.swap d e) (p, (q, a)) = (subst P e q, (subst P d p, a))
  All-Perm P xs ys (Permᴰ.trans {l₂ = l₂} d e) a = All-Perm P l₂ ys e (All-Perm P xs l₂ d a)

module _ {A : Type 0} where
  pub Mem-Perm : (a : A) (xs ys : List A) → Permᴰ xs ys → Mem a xs → Mem a ys
  Mem-Perm a xs ys Permᴰ.nil m = m
  Mem-Perm a xs ys (Permᴰ.cons e d) (inl f) = inl (f ∙ e)
  Mem-Perm a xs ys (Permᴰ.cons {l₁ = l₁} {l₂ = l₂} e d) (inr m) = inr (Mem-Perm a l₁ l₂ d m)
  Mem-Perm a xs ys (Permᴰ.swap d e) (inl f) = inr (inl (f ∙ d))
  Mem-Perm a xs ys (Permᴰ.swap d e) (inr (inl f)) = inl (f ∙ e)
  Mem-Perm a xs ys (Permᴰ.swap d e) (inr (inr m)) = inr (inr m)
  Mem-Perm a xs ys (Permᴰ.trans {l₂ = l₂} d e) m = Mem-Perm a l₂ ys e (Mem-Perm a xs l₂ d m)

  pub All-Mem {κ} : (P : A → Type κ) (a : A) (xs : List A) → All P xs → Mem a xs → P a
  All-Mem P a (x ∷ xs) (p, ps) (inl e) = subst P (sym e) p
  All-Mem P a (x ∷ xs) (p, ps) (inr m) = All-Mem P a xs ps m
  All-Mem P a [] p m = absurd m

-- How often a number stands in a list.
abbrev pub times : ℕ → List ℕ → ℕ
times k xs = sum_by (λ j. if j == k then 1 else 0) xs

pub times-zero : (k : ℕ) (xs : List ℕ) → All (λ j. j ≢ k) xs → times k xs ≡ 0
times-zero k [] a = refl
times-zero k (x ∷ xs) (h, a) = elim (Bool-cases (x == k)) [
  | inl same ↦ absurd (h ((==_iff x k).0 same))
  | inr other ↦ rw other (omega (arith, times-zero k xs a))
]

pub absent : (k : ℕ) (xs : List ℕ) → times k xs ≡ 0 → All (λ j. j ≢ k) xs
absent k [] h = tt
absent k (x ∷ xs) h = elim (Bool-cases (x == k)) [
  | inl same ↦ absurd (ground (arith, h, same))
  | inr other ↦
      let rest : times k xs ≡ 0 = ground (arith, h, other) in
      ((λ e. absurd (ground (arith, other, e))), absent k xs rest)
]

-- No number twice.
abbrev pub Apart : List ℕ → Type 0
Apart [] = Unit
Apart (k ∷ ks) = All (λ j. j ≢ k) ks × Apart ks
