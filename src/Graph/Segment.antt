-- ===== src/Graph/Segment.antt =====
-- Segments of the files that src/lambda_executor/src/graphutil/graph.go reads: the offsets of a
-- range of nodes, moved to start at zero, cut the edges of the range into the nodes' lists.
use mathlib.Core.List.{append_assoc}
use faa_sgraph.Base.{
  ℕ, zero, suc, ◌+◌, ◌-◌, ◌*◌, ◌%◌, ◌^◌, ◌≤◌, ◌<◌, ◌≡◌, refl, ap, ap₂, sym, ◌∙◌, some, List, [],
  ◌∷◌, ◌++◌, map, arith, get_elem?, length, take, drop, length-append, take-append_left,
  drop-append_left, drop-add, take-add, take-nil, drop-nil,
}
use faa_sgraph.Csr.{offsets_from, concat}
use faa_sgraph.Graph.{slice, edges_at}

abbrev pub sum : List ℕ → ℕ
sum [] = 0
sum (d ∷ ds) = d + sum ds

-- Each list has k words for each of its degree.
abbrev pub Fit : ℕ → List (List ℕ) → List ℕ → Type 0
Fit k [] [] = Unit {0}
Fit k [] (d ∷ ds) = ⊥
Fit k (l ∷ ls) [] = ⊥
Fit k (l ∷ ls) (d ∷ ds) = (length l ≡ k * d) × Fit k ls ds

module _ (k : ℕ) where
  pub drop-concat :
      (s : ℕ) (ls : List (List ℕ)) (ds : List ℕ)
      → Fit k ls ds
      → drop (k * sum (take s ds)) (concat ls) ≡ concat (drop s ls)
  drop-concat zero ls ds f = let e : k * 0 ≡ 0 = omega arith in rw e
  drop-concat (suc s) [] [] f = drop-nil (k * 0)
  drop-concat (suc s) [] (d ∷ ds) f = absurd f
  drop-concat (suc s) (l ∷ ls) [] f = absurd f
  drop-concat (suc s) (l ∷ ls) (d ∷ ds) f =
      let split : k * (d + sum (take s ds)) ≡ k * d + k * sum (take s ds) = grind arith in
      rw split (
        drop-add (k * d) (k * sum (take s ds)) (l ++ concat ls)
        ∙ ap (drop (k * sum (take s ds))) (drop-append_left (k * d) l (concat ls) f.0)
        ∙ drop-concat s ls ds f.1)

  pub take-concat :
      (c : ℕ) (ls : List (List ℕ)) (ds : List ℕ)
      → Fit k ls ds
      → take (k * sum (take c ds)) (concat ls) ≡ concat (take c ls)
  take-concat zero ls ds f = let e : k * 0 ≡ 0 = omega arith in rw e
  take-concat (suc c) [] [] f = take-nil (k * 0)
  take-concat (suc c) [] (d ∷ ds) f = absurd f
  take-concat (suc c) (l ∷ ls) [] f = absurd f
  take-concat (suc c) (l ∷ ls) (d ∷ ds) f =
      let split : k * (d + sum (take c ds)) ≡ k * d + k * sum (take c ds) = grind arith in
      rw split (
        take-add (k * d) (k * sum (take c ds)) (l ++ concat ls)
        ∙ ap (λ xs. xs ++ take (k * sum (take c ds)) (drop (k * d) (l ++ concat ls)))
            (take-append_left (k * d) l (concat ls) f.0)
        ∙ ap (λ xs. l ++ take (k * sum (take c ds)) xs) (drop-append_left (k * d) l (concat ls) f.0)
        ∙ ap (λ xs. l ++ xs) (take-concat c ls ds f.1))

  pub length-concat :
      (ls : List (List ℕ)) (ds : List ℕ) → Fit k ls ds → length (concat ls) ≡ k * sum ds
  length-concat [] [] f = omega arith
  length-concat [] (d ∷ ds) f = absurd f
  length-concat (l ∷ ls) [] f = absurd f
  length-concat (l ∷ ls) (d ∷ ds) f =
      omega (arith, length-append l (concat ls), f.0, length-concat ls ds f.1)

  pub Fit-drop :
      (s : ℕ) (ls : List (List ℕ)) (ds : List ℕ) → Fit k ls ds → Fit k (drop s ls) (drop s ds)
  Fit-drop zero ls ds f = f
  Fit-drop (suc s) [] [] f = tt
  Fit-drop (suc s) [] (d ∷ ds) f = absurd f
  Fit-drop (suc s) (l ∷ ls) [] f = absurd f
  Fit-drop (suc s) (l ∷ ls) (d ∷ ds) f = Fit-drop s ls ds f.1

  pub Fit-take :
      (c : ℕ) (ls : List (List ℕ)) (ds : List ℕ) → Fit k ls ds → Fit k (take c ls) (take c ds)
  Fit-take zero ls ds f = tt
  Fit-take (suc c) [] [] f = tt
  Fit-take (suc c) [] (d ∷ ds) f = absurd f
  Fit-take (suc c) (l ∷ ls) [] f = absurd f
  Fit-take (suc c) (l ∷ ls) (d ∷ ds) f = (f.0, Fit-take c ls ds f.1)

pub drop-offsets_from :
    (s a : ℕ) (ds : List ℕ)
    → s ≤ length ds
    → drop s (offsets_from a ds) ≡ offsets_from (a + sum (take s ds)) (drop s ds)
drop-offsets_from zero a ds h = let e : a + 0 ≡ a = omega arith in rw e
drop-offsets_from (suc s) a [] h = elim h [ ]
drop-offsets_from (suc s) a (d ∷ ds) h =
    let e : a + (d + sum (take s ds)) ≡ a + d + sum (take s ds) = omega arith in
    rw e (drop-offsets_from s (a + d) ds (omega arith))

pub take-offsets_from :
    (c a : ℕ) (ds : List ℕ)
    → c ≤ length ds
    → take (suc c) (offsets_from a ds) ≡ offsets_from a (take c ds)
take-offsets_from zero a [] h = refl
take-offsets_from zero a (d ∷ ds) h = refl
take-offsets_from (suc c) a [] h = elim h [ ]
take-offsets_from (suc c) a (d ∷ ds) h =
    ap (λ xs. a ∷ xs) (take-offsets_from c (a + d) ds (omega arith))

pub length-offsets_from : (a : ℕ) (ds : List ℕ) → length (offsets_from a ds) ≡ suc (length ds)
length-offsets_from a [] = refl
length-offsets_from a (d ∷ ds) = ap suc (length-offsets_from (a + d) ds)

scaled : (k a b c : ℕ) → (b + c) * k < 2 ^ 32 → (a + b - a) * k % 2 ^ 32 ≡ b * k
scaled k a b c h =
    let e : a + b - a ≡ b = omega arith in
    let less : b * k ≤ (b + c) * k = grind arith in rw e (omega arith)

-- Offsets moved to start at zero and scaled are the offsets of the scaled degrees.
pub rebase-offsets_from :
    (k a b : ℕ) (ds : List ℕ)
    → (b + sum ds) * k < 2 ^ 32
    → map (λ o. (o - a) * k % 2 ^ 32) (offsets_from (a + b) ds)
      ≡ offsets_from (b * k) (map (λ d. k * d) ds)
rebase-offsets_from k a b [] h = ap (λ x. x ∷ []) (scaled k a b 0 h)
rebase-offsets_from k a b (d ∷ ds) h =
    let next : a + b + d ≡ a + (b + d) = omega arith in
    let base : b * k + k * d ≡ (b + d) * k = grind arith in
    let all : b + d + sum ds ≡ b + (d + sum ds) = omega arith in
    let fits : (b + d + sum ds) * k < 2 ^ 32 = rw all h in
    let rest = rebase-offsets_from k a (b + d) ds fits in
    rw (next, base) (ap₂ ◌∷◌ (scaled k a b (d + sum ds) h) rest)

slice_middle :
    (before l after : List ℕ) (a n : ℕ)
    → length before ≡ a
    → length l ≡ n
    → a + n < 2 ^ 31
    → slice (before ++ (l ++ after)) a (a + n) ≡ some l
unfolding slice
slice_middle before l after a n h f small =
    let size : length (before ++ (l ++ after)) ≡ a + (n + length after) =
      omega (arith, length-append before (l ++ after), length-append l after) in
    let ends : a + n - a ≡ n = omega arith in
    let cut : take n (drop a (before ++ (l ++ after))) ≡ l =
      ap (take n) (drop-append_left a before (l ++ after) h) ∙ take-append_left n l after f in
    rw (size, ends) (ground (arith, cut))

pub first_offset : (a : ℕ) (ds : List ℕ) → get_elem? (offsets_from a ds) 0 ≡ some a
first_offset a [] = refl
first_offset a (d ∷ ds) = refl

-- The offsets of the lists' lengths cut the written words into the lists.
pub edges_at-concat :
    (k : ℕ) (before : List ℕ) (a : ℕ) (ls : List (List ℕ)) (ds : List ℕ) (i : ℕ)
    → length before ≡ a
    → Fit k ls ds
    → i < length ls
    → a + k * sum ds < 2 ^ 31
    → edges_at (before ++ concat ls) (offsets_from a (map (λ d. k * d) ds)) i ≡ get_elem? ls i
edges_at-concat k before a [] ds i h f lt small = elim lt [ ]
edges_at-concat k before a (l ∷ ls) [] i h f lt small = absurd f
edges_at-concat k before a (l ∷ ls) (d ∷ ds) zero h f lt small =
    let less : a + k * d < 2 ^ 31 =
      let split : k * (d + sum ds) ≡ k * d + k * sum ds = grind arith in
      omega (arith, small, split) in
    rw (first_offset (a + k * d) (map (λ d. k * d) ds))
      (slice_middle before l (concat ls) a (k * d) h f.0 less)
edges_at-concat k before a (l ∷ ls) (d ∷ ds) (suc i) h f lt small =
    let shift : before ++ (l ++ concat ls) ≡ (before ++ l) ++ concat ls =
      sym (append_assoc before l (concat ls)) in
    let less : a + k * d + k * sum ds < 2 ^ 31 =
      let split : k * (d + sum ds) ≡ k * d + k * sum ds = grind arith in
      omega (arith, small, split) in
    rw shift (
      edges_at-concat k (before ++ l) (a + k * d) ls ds i
        (omega (arith, length-append before l, f.0)) f.1 (omega arith) less)

module _ (k : ℕ) where
  -- The degrees read off the scaled offsets are the scaled degrees.
  pub offsets-degree :
      (a : ℕ) (ds : List ℕ) (i : ℕ) {d : ℕ}
      → get_elem? ds i ≡ some d
      → (lo : ℕ) × (get_elem? (offsets_from a (map (λ d. k * d) ds)) i ≡ some lo)
        × (get_elem? (offsets_from a (map (λ d. k * d) ds)) (suc i) ≡ some (lo + k * d))
  offsets-degree a [] i h = absurd (ground arith)
  offsets-degree a (c ∷ []) zero h = (a, refl, ground arith)
  offsets-degree a (c ∷ e ∷ ds) zero h = (a, refl, ground arith)
  offsets-degree a (c ∷ ds) (suc i) h = offsets-degree (a + k * c) ds i h
