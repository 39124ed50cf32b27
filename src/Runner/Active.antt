-- ===== src/Runner/Active.antt =====
-- The vertices on which src/lambda_executor/src/runner/graph_runner.go computes: the active ones of
-- its partition, each once and in order; and the blocks of `LoadMem`, which are the partition.
use mathlib.Core.List.{append-nil}
use faa_sgraph.Base.{
  ℕ, zero, suc, ◌+◌, ◌-◌, ◌<◌, ◌≤◌, min, ◌≡◌, refl, ap, ap₂, sym, ◌∙◌, subst, ◌↔◌, inl, inr, true,
  false, some, List, [], ◌∷◌, ◌++◌, arith, ltb, Bool-cases, ℕ_discrete, Mem,
}
use faa_sgraph.Bitmap
use faa_sgraph.Bitmap.{Bitmap}
use faa_sgraph.Bitmap.Members.{room, get_total}
use faa_sgraph.Runner.{active_from, vertices, load_blocks}
use faa_sgraph.Wire.RoundTrip.{concat_all}

-- Strictly ascending, from a bound on.
abbrev pub Ascends : ℕ → List ℕ → Type 0
Ascends low [] = Unit {0}
Ascends low (x ∷ xs) = (low ≤ x) × Ascends (suc x) xs

Ascends-lower : (a b : ℕ) (xs : List ℕ) → a ≤ b → Ascends b xs → Ascends a xs
Ascends-lower a b [] h s = tt
Ascends-lower a b (x ∷ xs) h s = (omega (arith, s.0), s.1)

ne_above : (v u : ℕ) → v ≤ u → (u ≡ v → ⊥) → suc v ≤ u
ne_above v u low other = elim (Bool-cases (ltb v u)) [
  | inl less ↦ ground arith
  | inr not_less ↦ absurd (other (ground arith))
]

apart : some false ≡ some true → ⊥
apart h = absurd (ground arith)

-- For an active set with room for the partition, `gas` returns a list of its vertices in ascending
-- order, so each once, which has a vertex exactly if it is in the partition and in the set.
pub active_from-Mem :
    (active : Bitmap) (v n : ℕ)
    → v + n ≤ room active
    → (vs : List ℕ) × (active_from active v n ≡ some vs)
      × Ascends v vs
      × ((u : ℕ) → Mem u vs ↔ ((v ≤ u) × (u < v + n) × (Bitmap.get active u ≡ some true)))
unfolding active_from
active_from-Mem active v zero h =
    ([], refl, tt, λ u. (λ m. absurd m, λ k. absurd (omega (arith, k.0, k.1))))
active_from-Mem active v (suc n) h =
    let (x, e) = get_total active v (omega arith) in
    let (vs, f, up, iff) = active_from-Mem active (suc v) n (omega arith) in
    elim (Bool-cases x) [
      | inl here ↦ (
        v ∷ vs,
        rw (e, f, here) refl,
        (omega arith, up),
        λ u. (
          λ m. elim m [
            | inl one ↦ (
              omega arith,
              omega arith,
              subst (λ w. Bitmap.get active w ≡ some true) (sym one) (e ∙ ap some here),
            )
            | inr later ↦ let (low, high, k) = (iff u).0 later in (omega arith, omega arith, k)
          ],
          λ (low, high, k). elim (ℕ_discrete u v) [
            | yes one ↦ inl one
            | no other ↦
                let above : suc v ≤ u = ne_above v u low other in
                inr ((iff u).1 (above, omega arith, k))
          ],
        ),
      )
      | inr absent ↦ (
        vs,
        rw (e, f, absent) refl,
        Ascends-lower v (suc v) vs (omega arith) up,
        λ u. (
          λ later. let (low, high, k) = (iff u).0 later in (omega arith, omega arith, k),
          λ (low, high, k). elim (ℕ_discrete u v) [
            | yes one ↦
                let there : Bitmap.get active v ≡ some true =
                  subst (λ w. Bitmap.get active w ≡ some true) one k in
                absurd (apart (sym (e ∙ ap some absent) ∙ there))
            | no other ↦
                let above : suc v ≤ u = ne_above v u low other in (iff u).1 (above, omega arith, k)
          ],
        ),
      )
    ]

vertices-append : (a n m : ℕ) → vertices a n ++ vertices (a + n) m ≡ vertices a (n + m)
vertices-append a zero m = ap₂ vertices (omega arith) (omega arith)
vertices-append a (suc n) m =
    let here : a + suc n ≡ suc a + n = omega arith in
    let count : suc n + m ≡ suc (n + m) = omega arith in
    rw (here, count) (ap (λ r. a ∷ r) (vertices-append (suc a) n m))

-- The blocks of `LoadMem`, on fuel for the vertices, are the partition, each vertex once.
pub load_blocks-vertices :
    (block fuel start size i : ℕ)
    → 0 < block
    → size ≤ i + fuel
    → concat_all (load_blocks block fuel start size i) ≡ vertices (start + i) (size - i)
unfolding load_blocks
load_blocks-vertices block zero start size i h l =
    let none_left : size - i ≡ 0 = omega arith in rw none_left refl
load_blocks-vertices block (suc fuel) start size i h l = elim (Bool-cases (ltb i size)) [
  | inr past ↦ let none_left : size - i ≡ 0 = ground arith in rw (past, none_left) refl
  | inl more ↦
      let rest = load_blocks-vertices block fuel start size (i + block) h (omega arith) in
      rw (more, rest)
        (elim (Bool-cases (ltb block (size - i))) [
          | inl whole ↦
              let n : min block (size - i) ≡ block = ground arith in
              let next : start + (i + block) ≡ start + i + block = omega arith in
              let all : block + (size - (i + block)) ≡ size - i = ground arith in
              rw (n, next)
                (vertices-append (start + i) block (size - (i + block))
                  ∙ ap (vertices (start + i)) all)
          | inr last ↦
              let n : min block (size - i) ≡ size - i = ground arith in
              let none_left : size - (i + block) ≡ 0 = ground arith in
              rw (n, none_left) (append-nil (vertices (start + i) (size - i)))
        ])
]
