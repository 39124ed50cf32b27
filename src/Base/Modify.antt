-- ===== src/Base/Modify.antt =====
-- `xs[i] = f(xs[i])`, which panics out of range.
use mathlib.Core.Path.{◌≡◌, ap, sym, ◌∙◌, subst}
use mathlib.Core.Option.{Option, none, some, some-injective}
use mathlib.Core.Option
use mathlib.Core.List.{List}
use mathlib.Core.Logic.{inl, inr}
use Prim.Native.Nat.{ℕ, ◌<◌}
use native.Mathlib.Omega.{arith}
use native.Mathlib.Decide.{ℕ_discrete}
use faa_sgraph.Base.Lists.{
  get_elem?, set, length, length-set, get_elem?-set_self, get_elem?-set_ne, lt-length_of_get_elem?,
  get_elem?_total,
}
use faa_sgraph.Base.Tests.{◌==◌, if◌then◌else◌, Option-cases}
use faa_sgraph.Base.Options.{◌>>=◌, >>=-eq-some}

module _ {ℓ} {A : Type ℓ} where
  abbrev pub modify : (A → A) → List A → ℕ → Option (List A)
  modify f xs i = get_elem? xs i >>= λ x. some (set xs i (f x))

  pub modify_total :
      (f : A → A) (xs : List A) (i : ℕ)
      → i < length xs
      → (ys : List A) × (modify f xs i ≡ some ys) × (length ys ≡ length xs)
  modify_total f xs i h =
      let (x, e) = get_elem?_total xs i h in (set xs i (f x), rw (e, ◌>>=◌), length-set xs i (f x))

  pub length-modify :
      (f : A → A) (xs ys : List A) (i : ℕ) → modify f xs i ≡ some ys → length ys ≡ length xs
  length-modify f xs ys i h =
      let (x, e, k) = >>=-eq-some (get_elem? xs i) _ h in
      ap length (sym (some-injective _ _ k)) ∙ length-set xs i (f x)

  pub get-modify :
      (f : A → A) (xs ys : List A) (i j : ℕ)
      → modify f xs i ≡ some ys
      → get_elem? ys j ≡ Option.map (λ x. if i == j then f x else x) (get_elem? xs j)
  get-modify f xs ys i j h =
      let (x, e, k) = >>=-eq-some (get_elem? xs i) _ h in
      let here = lt-length_of_get_elem? xs i e in
      let read : get_elem? ys j ≡ get_elem? (set xs i (f x)) j =
        ap (λ zs. get_elem? zs j) (sym (some-injective _ _ k)) in
      elim (ℕ_discrete i j) [
        | yes same ↦
            let old : get_elem? xs j ≡ some x = subst (λ m. get_elem? xs m ≡ some x) same e in
            let new : get_elem? (set xs i (f x)) j ≡ some (f x) =
              subst (λ m. get_elem? (set xs i (f x)) m ≡ some (f x)) same
                (get_elem?-set_self xs i (f x) here) in
            rw old (ground (arith, read, new))
        | no other ↦
            let kept = get_elem?-set_ne xs (f x) other in
            elim (Option-cases (get_elem? xs j)) [
              | inl missing ↦ rw missing (read ∙ kept ∙ missing)
              | inr (y, found) ↦ rw found (ground (arith, read, kept, found))
            ]
      ]
