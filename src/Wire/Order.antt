-- ===== src/Wire/Order.antt =====
-- The frames that a kernel in app/graph sends, written in any order, and what the readers of
-- src/lambda_executor/src/main.go and src/local_manager/src/main.go make of them.
use mathlib.Core.Option
use mathlib.Core.List.{Permᴰ}
use mathlib.Core.List.Permᴰ
use faa_sgraph.Base.{
  ℕ, suc, ◌+◌, ◌%◌, ◌^◌, ◌<◌, ◌≤◌, ◌≡◌, refl, ap, ap₂, sym, ◌∙◌, subst, true, Option, List, [], ◌∷◌,
  arith, length, length-append, drop, All, All-Perm, sum_by, sum_by-Perm,
}
use faa_sgraph.Bytes.RoundTrip.{AreWords}
use faa_sgraph.Kernel.Updates.{opened, flush}
use faa_sgraph.Wire.{read_frames}
use faa_sgraph.Wire.Fill.{Full}
use faa_sgraph.Wire.RoundTrip.{flat, frame, frames, concat_all, read_frames-frames, each_frame}
use faa_sgraph.Wire.Sent.{push_all, flush-Holds, AreChunks-concat_all}

abbrev first_or : List ℕ → List (List ℕ) → List ℕ
first_or x [] = x
first_or x (y ∷ ys) = y

-- Frames in another order are the frames of the updates in another order.
frames-uncons :
    (uss : List (List (ℕ × ℕ))) (x : List ℕ) (xs : List (List ℕ))
    → frames uss ≡ x ∷ xs
    → (us : List (ℕ × ℕ)) × (uss' : List (List (ℕ × ℕ))) × (uss ≡ us ∷ uss')
      × (frame us ≡ x)
      × (frames uss' ≡ xs)
frames-uncons [] x xs e = absurd (ground (arith, ap length e))
frames-uncons (us ∷ uss) x xs e = (us, uss, refl, ap (first_or x) e, ap (drop 1) e)

frames-Perm :
    (xs ys : List (List ℕ))
    → Permᴰ xs ys
    → (uss : List (List (ℕ × ℕ))) → frames uss ≡ xs
    → (vss : List (List (ℕ × ℕ))) × (frames vss ≡ ys) × Permᴰ uss vss
frames-Perm xs ys Permᴰ.nil uss e = (uss, e, Permᴰ.refl uss)
frames-Perm xs ys (Permᴰ.cons {a = a} {l₁ = l₁} {l₂ = l₂} h d) uss e =
    let (us, uss', split, here, rest) = frames-uncons uss a l₁ e in
    let (vss, f, p) = frames-Perm l₁ l₂ d uss' rest in
    (
      us ∷ vss,
      ap₂ ◌∷◌ (here ∙ h) f,
      subst (λ r. Permᴰ r (us ∷ vss)) (sym split) (Permᴰ.cons refl p),
    )
frames-Perm xs ys (Permᴰ.swap {a = a} {b = b} {l = l} h k) uss e =
    let (us, uss', split, here, rest) = frames-uncons uss a (b ∷ l) e in
    let (vs, vss, split', here', rest') = frames-uncons uss' b l rest in
    (
      vs ∷ us ∷ vss,
      ap₂ ◌∷◌ (here' ∙ k) (ap₂ ◌∷◌ (here ∙ h) rest'),
      subst (λ r. Permᴰ r (vs ∷ us ∷ vss)) (sym (split ∙ ap (λ r. us ∷ r) split'))
          (Permᴰ.swap refl refl),
    )
frames-Perm xs ys (Permᴰ.trans {l₂ = l₂} d d') uss e =
    let (vss, f, p) = frames-Perm xs l₂ d uss e in
    let (wss, g, q) = frames-Perm l₂ ys d' vss f in (wss, g, Permᴰ.trans p q)

pub length-concat_all : (uss : List (List (ℕ × ℕ))) → length (concat_all uss) ≡ sum_by length uss
length-concat_all [] = refl
length-concat_all (us ∷ uss) =
    omega (arith, length-append us (concat_all uss), length-concat_all uss)

length-Perm : (uss vss : List (List (ℕ × ℕ))) → Permᴰ uss vss → length uss ≡ length vss
length-Perm uss vss Permᴰ.nil = refl
length-Perm uss vss (Permᴰ.cons {l₁ = l₁} {l₂ = l₂} e d) = ap suc (length-Perm l₁ l₂ d)
length-Perm uss vss (Permᴰ.swap d e) = refl
length-Perm uss vss (Permᴰ.trans {l₂ = l₂} d e) = length-Perm uss l₂ d ∙ length-Perm l₂ vss e

-- A reader of all that one writer was given, frame by frame, on any state, whatever the order in which
-- the frames were written.
pub read_frames-sent {ℓ} :
    {S : Type ℓ} (cut : ℕ → ℕ) (apply : List ℕ → S → Option S) (ups : List (ℕ × ℕ))
    (body : List (List ℕ)) (fuel : ℕ) (b : List ℕ) (s : S)
    → Full cut
    → Permᴰ (flush true (push_all ups opened)) body
    → length b ≡ 4
    → All (λ u. (u.0 < 2 ^ 32) × (u.1 < 2 ^ 32)) ups
    → length ups ≤ fuel
    → (uss vss : List (List (ℕ × ℕ))) × (concat_all uss ≡ ups)
      × Permᴰ uss vss
      × (read_frames cut apply fuel b (concat_all body) 0 s
          ≡ Option.map (λ s'. (s', length ups % 2 ^ 32)) (each_frame apply vss s))
read_frames-sent cut apply ups body fuel b s full perm four words enough =
    let (uss, e, h) = flush-Holds ups in
    let (vss, same, moved) = frames-Perm (flush true (push_all ups opened)) body perm uss (sym e) in
    let chunks =
      AreChunks-concat_all uss h.short
        (subst (All (λ u. (u.0 < 2 ^ 32) × (u.1 < 2 ^ 32))) (sym h.all_of) words) in
    let chunks' = All-Perm (λ us. AreWords (flat us) × (length us < 2 ^ 28)) uss vss moved chunks in
    let count : 0 + length (concat_all vss) ≡ length ups = omega (
      arith,
      length-concat_all uss,
      length-concat_all vss,
      sum_by-Perm length uss vss moved,
      ap length h.all_of,
    ) in
    let few : length vss ≤ fuel = omega (arith, length-Perm uss vss moved, h.few) in
    (
      uss,
      vss,
      h.all_of,
      moved,
      ap (λ x. read_frames cut apply fuel b (concat_all x) 0 s) (sym same)
          ∙ read_frames-frames cut apply vss fuel 0 b s full four chunks' few (omega arith)
          ∙ ap (λ n. Option.map (λ s'. (s', n % 2 ^ 32)) (each_frame apply vss s)) count,
    )
