-- ===== src/Cluster/Cpus.antt =====
-- The masks of processors of src/faas_controller/src/faas/cluster.go: what the scan of `Get` finds,
-- and what the loop of `Put` frees.
use faa_sgraph.Base.{
  ℕ, zero, suc, ◌+◌, ◌≤◌, ◌<◌, ◌≡◌, refl, ap, sym, ◌∙◌, subst, ◌⊎◌, inl, inr, Bool, true, false,
  some, List, [], ◌∷◌, ◌++◌, arith, ltb, length, length-set, get_elem?, set, drop, Bool-cases, min,
}
use mathlib.Core.Option.{some-injective}
use faa_sgraph.Cluster.{lead_taken, next_free, take_cpus, free_cpus}

abbrev pub free_count : List Bool → ℕ
free_count [] = 0
free_count (true ∷ bs) = free_count bs
free_count (false ∷ bs) = suc (free_count bs)

-- The scan goes past the mask when no processor from p on is free, and otherwise stops at a free one.
abbrev ScanStops : List Bool → ℕ → ℕ → Type 0
ScanStops mask p q =
    ((free_count (drop p mask) ≡ 0) × (length mask ≤ q))
    ⊎ ((q < length mask)
        × (get_elem? mask q ≡ some false)
        × (free_count (drop q (set mask q true)) + 1 ≡ free_count (drop p mask)))

ScanStops-cons :
    (b : Bool) (bs : List Bool) (p q : ℕ) → ScanStops bs p q → ScanStops (b ∷ bs) (suc p) (suc q)
ScanStops-cons b bs p q (inl (none_free, past)) = inl (none_free, omega arith)
ScanStops-cons b bs p q (inr (inside, is_free, less)) = inr (omega arith, is_free, less)

next_free_lem : (mask : List Bool) (p : ℕ) → ScanStops mask p (next_free mask p)
next_free_lem [] zero = inl (refl, omega arith)
next_free_lem [] (suc p) = inl (refl, omega arith)
next_free_lem (false ∷ bs) zero = inr (omega arith, refl, omega arith)
next_free_lem (true ∷ bs) zero =
    let e : suc (0 + lead_taken bs) ≡ 0 + suc (lead_taken bs) = omega arith in
    subst (λ q. ScanStops (true ∷ bs) 0 q) e
      (elim (next_free_lem bs zero) [
        | inl (none_free, past) ↦ inl (none_free, omega arith)
        | inr (inside, is_free, less) ↦ inr (omega arith, is_free, less)
      ])
next_free_lem (b ∷ bs) (suc p) =
    let e : suc (next_free bs p) ≡ next_free (b ∷ bs) (suc p) = omega arith in
    subst (λ q. ScanStops (b ∷ bs) (suc p) q) e
      (ScanStops-cons b bs p (next_free bs p) (next_free_lem bs p))

-- A write past the end changes nothing.
set_past : (mask : List Bool) (q : ℕ) (b : Bool) → length mask ≤ q → set mask q b ≡ mask
set_past [] q b h = refl
set_past (x ∷ xs) zero b h = absurd (omega arith)
set_past (x ∷ xs) (suc q) b h = ap (λ ys. x ∷ ys) (set_past xs q b (omega arith))

drop_past : (mask : List Bool) (p q : ℕ) → length mask ≤ q → free_count (drop q mask) ≡ 0
drop_past [] p zero h = refl
drop_past [] p (suc q) h = refl
drop_past (x ∷ xs) p zero h = absurd (omega arith)
drop_past (x ∷ xs) p (suc q) h = drop_past xs p q (omega arith)

-- The loop over `j` finds as many processors as there are free ones from p on, at most `j`, and
-- leaves the others free for the next container.
pub take_cpus-count :
    (j : ℕ) (mask : List Bool) (p : ℕ)
    → (length (take_cpus j mask p).0 ≡ min j (free_count (drop p mask)))
      × (free_count (drop (take_cpus j mask p).2 (take_cpus j mask p).1)
            + length (take_cpus j mask p).0
          ≡ free_count (drop p mask))
unfolding take_cpus
take_cpus-count zero mask p = (omega arith, omega arith)
take_cpus-count (suc j) mask p =
    let (found, left) = take_cpus-count j (set mask (next_free mask p) true) (next_free mask p) in
    elim (next_free_lem mask p) [
      | inl (none_free, past) ↦
          let same = set_past mask (next_free mask p) true past in
          let outside : ltb (next_free mask p) (length mask) ≡ false = ground arith in
          let nothing = drop_past mask p (next_free mask p) past in
          let nothing' : free_count (drop (next_free mask p) (set mask (next_free mask p) true))
              ≡ 0 =
            rw same nothing in
          rw outside (omega arith, omega arith)
      | inr (inside, is_free, less) ↦
          let within : ltb (next_free mask p) (length mask) ≡ true = ground arith in
          rw within (omega arith, omega arith)
    ]

length-take_cpus : (j : ℕ) (mask : List Bool) (p : ℕ) → length (take_cpus j mask p).1 ≡ length mask
unfolding take_cpus
length-take_cpus zero mask p = refl
length-take_cpus (suc j) mask p =
    length-take_cpus j (set mask (next_free mask p) true) (next_free mask p)
    ∙ length-set mask (next_free mask p) true

set_comm : (m : List Bool) (a b : ℕ) (v : Bool) → set (set m a v) b v ≡ set (set m b v) a v
set_comm [] a b v = refl
set_comm (x ∷ xs) zero zero v = refl
set_comm (x ∷ xs) zero (suc b) v = refl
set_comm (x ∷ xs) (suc a) zero v = refl
set_comm (x ∷ xs) (suc a) (suc b) v = ap (λ ys. x ∷ ys) (set_comm xs a b v)

-- To free one more processor before a list of them is to free it after.
free_cpus-set :
    (cs : List ℕ) (m m' : List Bool) (q : ℕ)
    → free_cpus cs m ≡ some m'
    → free_cpus cs (set m q false) ≡ some (set m' q false)
free_cpus-set [] m m' q h = ap (λ x. some (set x q false)) (some-injective _ _ h)
free_cpus-set (c ∷ cs) m m' q h =
    let same = length-set m q false in
    elim (Bool-cases (ltb c (length m))) [
      | inl inside ↦
          let step : free_cpus cs (set m c false) ≡ some m' = ground (arith, h, inside) in
          rw (same, inside, set_comm m q c false) (free_cpus-set cs (set m c false) m' q step)
      | inr past ↦ absurd (ground (arith, h, past))
    ]

length-free_cpus :
    (cs : List ℕ) (m m' : List Bool) → free_cpus cs m ≡ some m' → length m' ≡ length m
length-free_cpus [] m m' h = ap length (sym (some-injective _ _ h))
length-free_cpus (c ∷ cs) m m' h = elim (Bool-cases (ltb c (length m))) [
  | inl inside ↦
      let step : free_cpus cs (set m c false) ≡ some m' = ground (arith, h, inside) in
      length-free_cpus cs (set m c false) m' step ∙ length-set m c false
  | inr past ↦ absurd (ground (arith, h, past))
]

-- The order of two lists of processors does not count.
pub free_cpus_comm :
    (xs ys : List ℕ) (m m' m'' : List Bool)
    → free_cpus ys m ≡ some m'
    → free_cpus xs m' ≡ some m''
    → free_cpus (xs ++ ys) m ≡ some m''
free_cpus_comm [] ys m m' m'' h k = h ∙ k
free_cpus_comm (x ∷ xs) ys m m' m'' h k =
    let size = length-free_cpus ys m m' h in
    elim (Bool-cases (ltb x (length m))) [
      | inl inside ↦
          let inside' : ltb x (length m') ≡ true = ground arith in
          let step : free_cpus xs (set m' x false) ≡ some m'' = ground (arith, k, inside') in
          rw inside (
            free_cpus_comm xs ys (set m x false) (set m' x false) m'' (free_cpus-set ys m m' x h)
              step)
      | inr past ↦
          let past' : ltb x (length m') ≡ false = ground arith in absurd (ground (arith, k, past'))
    ]

set_back : (m : List Bool) (q : ℕ) → get_elem? m q ≡ some false → set (set m q true) q false ≡ m
set_back [] q h = refl
set_back (b ∷ bs) zero h = ap (λ x. x ∷ bs) (sym (some-injective _ _ h))
set_back (b ∷ bs) (suc q) h = ap (λ ys. b ∷ ys) (set_back bs q h)

-- Freeing what the loop over `j` took gives the mask back.
pub free_cpus-take_cpus :
    (j : ℕ) (mask : List Bool) (p : ℕ)
    → free_cpus (take_cpus j mask p).0 (take_cpus j mask p).1 ≡ some mask
unfolding take_cpus
free_cpus-take_cpus zero mask p = refl
free_cpus-take_cpus (suc j) mask p =
    let q = next_free mask p in
    let later = free_cpus-take_cpus j (set mask q true) q in
    elim (next_free_lem mask p) [
      | inl (none_free, past) ↦
          let outside : ltb (next_free mask p) (length mask) ≡ false = ground arith in
          rw outside (later ∙ ap some (set_past mask q true past))
      | inr (inside, is_free, less) ↦
          let within : ltb (next_free mask p) (length mask) ≡ true = ground arith in
          let size = length-take_cpus j (set mask q true) q ∙ length-set mask q true in
          rw within (
            rw (size, within)
              (free_cpus-set (take_cpus j (set mask q true) q).0 (take_cpus j (set mask q true) q).1
                  (set mask q true) q later
                ∙ ap some (set_back mask q is_free)))
    ]

free_count-set :
    (m : List Bool) (q : ℕ)
    → get_elem? m q ≡ some false
    → free_count (set m q true) + 1 ≡ free_count m
free_count-set [] q h = absurd (ground arith)
free_count-set (true ∷ bs) zero h = absurd (ground arith)
free_count-set (false ∷ bs) zero h = omega arith
free_count-set (true ∷ bs) (suc q) h = free_count-set bs q h
free_count-set (false ∷ bs) (suc q) h = omega (arith, free_count-set bs q h)

pub take_cpus-free_count :
    (j : ℕ) (mask : List Bool) (p : ℕ)
    → free_count (take_cpus j mask p).1 + length (take_cpus j mask p).0 ≡ free_count mask
unfolding take_cpus
take_cpus-free_count zero mask p = omega arith
take_cpus-free_count (suc j) mask p =
    let q = next_free mask p in
    let later = take_cpus-free_count j (set mask q true) q in
    elim (next_free_lem mask p) [
      | inl (none_free, past) ↦
          let outside : ltb (next_free mask p) (length mask) ≡ false = ground arith in
          rw outside (later ∙ ap free_count (set_past mask q true past))
      | inr (inside, is_free, less) ↦
          let within : ltb (next_free mask p) (length mask) ≡ true = ground arith in
          rw within (omega (arith, free_count-set mask q is_free))
    ]
