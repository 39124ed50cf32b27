-- ===== src/Graph/Fits.antt =====
-- The arrays that util/txt2csr.go builds fit what `LoadGraph` of
-- src/lambda_executor/src/graphutil/graph.go assumes: lists of the lengths that the degrees give,
-- with words for entries.
use mathlib.Core.Option
use faa_sgraph.Base.{
  ℕ, suc, ◌*◌, ◌^◌, ◌≤◌, ◌<◌, ◌≡◌, ap, sym, ◌∙◌, subst, Bool, true, false, some, List, [], ◌∷◌,
  ◌++◌, arith, get_elem?, length, if◌then◌else◌, All, ◌==◌,
}
use faa_sgraph.Bytes.RoundTrip.{AreWords}
use faa_sgraph.Csr.{weight, weight-lt, entry, concat}
use faa_sgraph.Csr.Adjacency.{directions, out_of, in_of}
use faa_sgraph.Csr.Build.{InRange}
use faa_sgraph.Graph.Segment.{Fit}

pub Fit-pointwise :
    (k : ℕ) (ls : List (List ℕ)) (ds : List ℕ)
    → length ls ≡ length ds
    → ((j : ℕ)
        → j < length ds
        → (l : List ℕ) × (d : ℕ) × (get_elem? ls j ≡ some l)
          × (get_elem? ds j ≡ some d)
          × (length l ≡ k * d))
    → Fit k ls ds
Fit-pointwise k [] [] h p = tt
Fit-pointwise k [] (d ∷ ds) h p = absurd (omega arith)
Fit-pointwise k (l ∷ ls) [] h p = absurd (omega arith)
Fit-pointwise k (l ∷ ls) (d ∷ ds) h p =
    let (l', d', e, f, q) = p 0 (omega arith) in
    let same_l : l ≡ l' = Option.some-injective _ _ e in
    let same_d : d ≡ d' = Option.some-injective _ _ f in
    (
      ap length same_l ∙ q ∙ ap (λ (t : ℕ). k * t) (sym same_d),
      Fit-pointwise k ls ds (omega arith) (λ j lt. p (suc j) (omega arith)),
    )

AreWords-append : (xs ys : List ℕ) → AreWords xs → AreWords ys → AreWords (xs ++ ys)
AreWords-append [] ys a b = b
AreWords-append (x ∷ xs) ys a b = (a.0, AreWords-append xs ys a.1 b)

pub AreWords-concat :
    (ls : List (List ℕ))
    → ((j : ℕ) → j < length ls → (l : List ℕ) × (get_elem? ls j ≡ some l) × AreWords l)
    → AreWords (concat ls)
AreWords-concat [] p = tt
AreWords-concat (l ∷ ls) p =
    let (l', e, w) = p 0 (omega arith) in
    AreWords-append l (concat ls) (subst AreWords (sym (Option.some-injective _ _ e)) w)
      (AreWords-concat ls (λ j lt. p (suc j) (omega arith)))

AreWords-entry :
    (weighted test : Bool) (x w : ℕ)
    → x < 2 ^ 32
    → w < 2 ^ 32
    → AreWords (if test then entry weighted x w else [])
AreWords-entry true true x w a b = (a, (b, tt))
AreWords-entry false true x w a b = (a, tt)
AreWords-entry weighted false x w a b = tt

-- Nodes and weights are words.
pub AreWords-out_of :
    (weighted : Bool) (n : ℕ) (es : List (ℕ × ℕ)) (u : ℕ)
    → n ≤ 2 ^ 31
    → All (InRange n) es
    → AreWords (out_of weighted es u)
AreWords-out_of weighted n [] u h r = tt
AreWords-out_of weighted n ((a, b) ∷ es) u h r =
    AreWords-append (if a == u then entry weighted b (weight a b) else []) (out_of weighted es u)
      (AreWords-entry weighted (a == u) b (weight a b) (omega arith) (weight-lt a b))
      (AreWords-out_of weighted n es u h r.1)

pub AreWords-in_of :
    (weighted : Bool) (n : ℕ) (es : List (ℕ × ℕ)) (u : ℕ)
    → n ≤ 2 ^ 31
    → All (InRange n) es
    → AreWords (in_of weighted es u)
AreWords-in_of weighted n [] u h r = tt
AreWords-in_of weighted n ((a, b) ∷ es) u h r =
    AreWords-append (if b == u then entry weighted a (weight a b) else []) (in_of weighted es u)
      (AreWords-entry weighted (b == u) a (weight a b) (omega arith) (weight-lt a b))
      (AreWords-in_of weighted n es u h r.1)

pub directions-InRange :
    (directed : Bool) (n : ℕ) (es : List (ℕ × ℕ))
    → All (InRange n) es
    → All (InRange n) (directions directed es)
directions-InRange directed n [] r = tt
directions-InRange true n ((a, b) ∷ es) r = (r.0, directions-InRange true n es r.1)
directions-InRange false n ((a, b) ∷ es) r =
    (r.0, ((r.0.1, r.0.0), directions-InRange false n es r.1))
