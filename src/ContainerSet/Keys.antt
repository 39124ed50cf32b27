-- ===== src/ContainerSet/Keys.antt =====
-- Which partitions a container of src/faas_controller/src/faas/container_set.go loads.
use mathlib.Core.Option.{some-injective}
use faa_sgraph.Base.{
  ℕ, zero, suc, ◌+◌, ◌-◌, ◌*◌, ◌≤◌, ◌<◌, ◌≡◌, refl, ap, sym, ◌∙◌, subst, inl, inr, List, [], ◌∷◌,
  ◌++◌, arith, length, length-append, get_elem?, get_elem?_total, get_elem?-append_left,
  get-append_right, leb, Bool-cases, some, min,
}
use faa_sgraph.ContainerSet.{keys_of, load_keys}

module _ {A : Type 0} (partition : ℕ) (starts : List ℕ) where
  -- At index `at` of the start nodes there is a key, and the list has it with the container.
  abbrev pub Pairs : List (ℕ × A) → ℕ → ℕ → A → Type 0
  Pairs pairs i at c =
      (key : ℕ) × (get_elem? starts at ≡ some key) × (get_elem? pairs i ≡ some (key, c))

  Pairs-cons :
      (m at key : ℕ) (own : List (ℕ × A)) (c : A)
      → get_elem? starts at ≡ some key
      → ((r : ℕ) → r < m → suc at + r < partition → Pairs own r (suc at + r) c)
      → (r : ℕ) → r < suc m
      → at + r < partition
      → Pairs ((key, c) ∷ own) r (at + r) c
  Pairs-cons m at key own c e found zero h k =
      let same : at ≡ at + 0 = omega arith in (key, ap (get_elem? starts) (sym same) ∙ e, refl)
  Pairs-cons m at key own c e found (suc r) h k =
      let same : suc at + r ≡ at + suc r = omega arith in
      subst (λ j. Pairs ((key, c) ∷ own) (suc r) j c) same (found r (omega arith) (omega arith))

  Pairs-append :
      (per i : ℕ) (c : A) (cs : List A) (own rest : List (ℕ × A))
      → length own ≡ min per (partition - i)
      → ((r : ℕ) → r < per → i + r < partition → Pairs own r (i + r) c)
      → ((q r : ℕ) (c' : A)
          → r < per
          → (i + per) + (q * per + r) < partition
          → get_elem? cs q ≡ some c'
          → Pairs rest (q * per + r) ((i + per) + (q * per + r)) c')
      → (q r : ℕ) (c' : A) → r < per
      → i + (q * per + r) < partition
      → get_elem? (c ∷ cs) q ≡ some c'
      → Pairs (own ++ rest) (q * per + r) (i + (q * per + r)) c'
  Pairs-append per i c cs own rest size found rest_found zero r c' h k e =
      let first : 0 * per + r ≡ r = omega arith in
      let (key, f, g) = found r h (omega (arith, k)) in
      rw first (
        key,
        f,
        get_elem?-append_left own rest r (omega (arith, k, size))
            ∙ g
            ∙ ap (λ d. some (key, d)) (some-injective _ _ e),
      )
  Pairs-append per i c cs own rest size found rest_found (suc q) r c' h k e =
      let step : suc q * per + r ≡ per + (q * per + r) = grind arith in
      let full : length own ≡ per = omega (arith, size, k, step) in
      let at : (i + per) + (q * per + r) ≡ i + (suc q * per + r) = omega (arith, step) in
      let (key, f, g) = rest_found q r c' h (omega (arith, k, at)) e in
      let shifted : length own + (q * per + r) ≡ suc q * per + r = omega (arith, full, step) in
      (
        key,
        ap (get_elem? starts) (sym at) ∙ f,
        ap (get_elem? (own ++ rest)) (sym shifted) ∙ get-append_right own rest (q * per + r) ∙ g,
      )

  module _ (enough : partition ≤ length starts) where
    -- A container takes the next start nodes, up to the number of partitions.
    keys_of_lem :
        (m at : ℕ) (c : A)
        → (own : List (ℕ × A)) × (keys_of partition starts m at c ≡ some own)
          × (length own ≡ min m (partition - at))
          × ((r : ℕ) → r < m → at + r < partition → Pairs own r (at + r) c)
    unfolding keys_of
    keys_of_lem zero at c = ([], refl, omega arith, λ r h k. absurd (omega arith))
    keys_of_lem (suc m) at c = elim (Bool-cases (leb partition at)) [
      | inl past ↦
          let over : partition ≤ at = ground arith in
          ([], rw past refl, omega arith, λ r h k. absurd (omega arith))
      | inr inside ↦
          let less : at < partition = ground arith in
          let (key, e) = get_elem?_total starts at (omega arith) in
          let (own, f, size, found) = keys_of_lem m (suc at) c in
          (
            (key, c) ∷ own,
            rw (inside, e, f) refl,
            omega (arith, size),
            Pairs-cons m at key own c e found,
          )
    ]

    -- The loops of `LoadGraph` give partition number `q * slot_per_container + r` to container `q`.
    pub load_keys-Pairs :
        (per i : ℕ) (cs : List A)
        → (pairs : List (ℕ × A)) × (load_keys partition starts per i cs ≡ some pairs)
          × (length pairs ≡ min (length cs * per) (partition - i))
          × ((q r : ℕ) (c : A)
              → r < per
              → i + (q * per + r) < partition
              → get_elem? cs q ≡ some c
              → Pairs pairs (q * per + r) (i + (q * per + r)) c)
    unfolding load_keys
    load_keys-Pairs per i [] = ([], refl, omega arith, λ q r c h k e. absurd (ground arith))
    load_keys-Pairs per i (c ∷ cs) =
        let (own, e, size, found) = keys_of_lem per i c in
        let (rest, f, rest_size, rest_found) = load_keys-Pairs per (i + per) cs in
        let sum = length-append own rest in
        let product : suc (length cs) * per ≡ per + length cs * per = grind arith in
        (
          own ++ rest,
          rw (e, f) refl,
          omega (arith, size, rest_size, sum, product),
          Pairs-append per i c cs own rest size found rest_found,
        )
