-- ===== src/Graph/Side.antt =====
-- One side (in or out) of `LoadGraph` in src/lambda_executor/src/graphutil/graph.go, on files that
-- util/txt2csr.go wrote: the loaded segment is that of the nodes of the partition.
use mathlib.Core.Option
use Prim.Native.Nat.add
use faa_sgraph.Base.{
  ℕ, zero, suc, ◌+◌, ◌-◌, ◌*◌, ◌%◌, ◌^◌, ◌≤◌, ◌<◌, ◌≡◌, refl, ap, sym, ◌∙◌, true, some, List, [],
  ◌∷◌, map, arith, leb, get_elem?, length, take, drop, length-drop, get-take-drop,
}
use faa_sgraph.Bytes.{
  byte_slice_to_uint32_slice, byte_slice_to_int64_slice, uint32_slice_to_byte_slice,
  int64_slice_to_byte_slice,
}
use faa_sgraph.Bytes.RoundTrip.{
  AreWords, AreOffsets, words-bytes, offsets-bytes, length-bytes, length-offset_bytes,
}
use faa_sgraph.Bytes.Cut.{drop-bytes, take-bytes, drop-offset_bytes, take-offset_bytes}
use faa_sgraph.Csr.{offsets_from, concat}
use faa_sgraph.Graph.{edges_at}
use faa_sgraph.Graph.File.{read_segment-take}
use faa_sgraph.Graph.Load.{load_offset, load_csr, rebase, last}
use faa_sgraph.Graph.Segment.{
  sum, Fit, Fit-drop, Fit-take, drop-concat, take-concat, length-concat, drop-offsets_from,
  take-offsets_from, length-offsets_from, rebase-offsets_from, edges_at-concat, first_offset,
}

pub sum-split : (n : ℕ) (ds : List ℕ) → sum ds ≡ sum (take n ds) + sum (drop n ds)
sum-split zero ds = omega arith
sum-split (suc n) [] = refl
sum-split (suc n) (d ∷ ds) = omega (arith, sum-split n ds)

AreOffsets-from : (a : ℕ) (ds : List ℕ) → a + sum ds < 2 ^ 63 → AreOffsets (offsets_from a ds)
AreOffsets-from a [] h = (omega arith, tt)
AreOffsets-from a (d ∷ ds) h = (omega arith, AreOffsets-from (a + d) ds (omega arith))

AreWords-take : (n : ℕ) (ws : List ℕ) → AreWords ws → AreWords (take n ws)
AreWords-take zero ws h = tt
AreWords-take (suc n) [] h = tt
AreWords-take (suc n) (w ∷ ws) h = (h.0, AreWords-take n ws h.1)

AreWords-drop : (n : ℕ) (ws : List ℕ) → AreWords ws → AreWords (drop n ws)
AreWords-drop zero ws h = h
AreWords-drop (suc n) [] h = tt
AreWords-drop (suc n) (w ∷ ws) h = AreWords-drop n ws h.1

last-offsets_from : (a : ℕ) (ds : List ℕ) → last (offsets_from a ds) ≡ some (a + sum ds)
last-offsets_from a [] = ap some (omega arith)
last-offsets_from a (d ∷ []) = ap some (omega arith)
last-offsets_from a (d ∷ e ∷ ds) = last-offsets_from (a + d) (e ∷ ds) ∙ ap some (omega arith)

mul_mono : (k a b : ℕ) → a ≤ b → k * a ≤ k * b
mul_mono k a b h = grind arith

rebase-map :
    (k a : ℕ) (ds : List ℕ)
    → rebase k (offsets_from a ds) ≡ map (λ x. (x - a) * k % 2 ^ 32) (offsets_from a ds)
rebase-map k a [] = refl
rebase-map k a (d ∷ ds) = refl

-- A partition of c nodes from node s on, in a graph whose node j has the words ls[j].
module _ (chunk : ℕ → ℕ) (k s c : ℕ) (ls : List (List ℕ)) (ds : List ℕ)
    (pos : (n : ℕ) → 0 < chunk n) (fit : Fit k ls ds) (inside : s + c ≤ length ds)
    (small : sum ds * k < 2 ^ 32) (few : sum ds < 2 ^ 32) (words : AreWords (concat ls)) where
  -- The degrees, the lists and the first offset of the partition.
  abbrev pub own_degrees : List ℕ
  own_degrees = take c (drop s ds)

  abbrev pub own_lists : List (List ℕ)
  own_lists = take c (drop s ls)

  abbrev pub first : ℕ
  first = sum (take s ds)

  own_sum : first + sum own_degrees ≤ sum ds
  own_sum = omega (arith, sum-split s ds, sum-split c (drop s ds))

  pub load_offset-own :
      load_offset chunk (int64_slice_to_byte_slice (offsets_from 0 ds)) s (suc c)
      ≡ some (offsets_from first own_degrees)
  load_offset-own =
      let file = int64_slice_to_byte_slice (offsets_from 0 ds) in
      let at : s * 8 ≡ 8 * s = omega arith in
      let len : suc c * 8 ≡ 8 * suc c = omega arith in
      let read =
        read_segment-take chunk pos file (8 * s) (8 * suc c)
          (omega (arith, length-offset_bytes (offsets_from 0 ds), length-offsets_from 0 ds)) in
      let cut : take (8 * suc c) (drop (8 * s) file)
          ≡ int64_slice_to_byte_slice (offsets_from first own_degrees) =
        ap (take (8 * suc c)) (drop-offset_bytes s (offsets_from 0 ds))
        ∙ take-offset_bytes (suc c) (drop s (offsets_from 0 ds))
        ∙ ap int64_slice_to_byte_slice (
            ap (take (suc c)) (drop-offsets_from s 0 ds (omega arith))
            ∙ take-offsets_from c (0 + first) (drop s ds) (omega (arith, length-drop s ds))
            ∙ ap (λ a. offsets_from a own_degrees) (add.zero first)) in
      rw (at, len)
        (ap (Option.map byte_slice_to_int64_slice) (read ∙ ap some cut)
          ∙ ap some (
              offsets-bytes (offsets_from first own_degrees)
                (AreOffsets-from first own_degrees (omega (arith, own_sum)))))

  pub load_csr-own :
      (old : List ℕ)
      → load_csr chunk true k
          (offsets_from first own_degrees)
          (uint32_slice_to_byte_slice (concat ls))
          old
        ≡ some (concat own_lists)
  load_csr-own old =
      let file = uint32_slice_to_byte_slice (concat ls) in
      let at : first * 4 * k ≡ 4 * (k * first) = grind arith in
      let len : sum own_degrees * 4 * k ≡ 4 * (k * sum own_degrees) = grind arith in
      let order : leb first (first + sum own_degrees) ≡ true = ground arith in
      let gap : first + sum own_degrees - first ≡ sum own_degrees = omega arith in
      let room : k * first + k * sum own_degrees ≤ length (concat ls) =
        let most : k * (first + sum own_degrees) ≤ k * sum ds =
          mul_mono k (first + sum own_degrees) (sum ds) own_sum in
        let split : k * (first + sum own_degrees) ≡ k * first + k * sum own_degrees = grind arith in
        omega (arith, most, split, length-concat k ls ds fit) in
      let read =
        read_segment-take chunk pos file (4 * (k * first)) (4 * (k * sum own_degrees))
          (omega (arith, room, length-bytes (concat ls))) in
      let own : take (k * sum own_degrees) (drop (k * first) (concat ls)) ≡ concat own_lists =
        ap (take (k * sum own_degrees)) (drop-concat k s ls ds fit)
        ∙ take-concat k c (drop s ls) (drop s ds) (Fit-drop k s ls ds fit) in
      let cut : take (4 * (k * sum own_degrees)) (drop (4 * (k * first)) file)
          ≡ uint32_slice_to_byte_slice (take (k * sum own_degrees) (drop (k * first) (concat ls))) =
        ap (take (4 * (k * sum own_degrees))) (drop-bytes (k * first) (concat ls))
        ∙ take-bytes (k * sum own_degrees) (drop (k * first) (concat ls)) in
      let fine =
        AreWords-take (k * sum own_degrees) (drop (k * first) (concat ls))
          (AreWords-drop (k * first) (concat ls) words) in
      rw (first_offset first own_degrees, last-offsets_from first own_degrees, order, gap, at, len)
        (ap (Option.map byte_slice_to_uint32_slice) (read ∙ ap some cut)
          ∙ ap some (words-bytes _ fine ∙ own))

  pub rebase-own :
      rebase k (offsets_from first own_degrees) ≡ offsets_from 0 (map (λ d. k * d) own_degrees)
  rebase-own =
      let fewer : sum own_degrees ≤ sum ds = omega (arith, own_sum) in
      let most : sum own_degrees * k ≤ sum ds * k = grind arith in
      let start : first + 0 ≡ first = omega arith in
      let zero_start : 0 * k ≡ 0 = omega arith in
      let none_before : 0 + sum own_degrees ≡ sum own_degrees = omega arith in
      rebase-map k first own_degrees
      ∙ ap (λ a. map (λ x. (x - first) * k % 2 ^ 32) (offsets_from a own_degrees)) (sym start)
      ∙ rebase-offsets_from k first 0 own_degrees (rw none_before (omega arith))
      ∙ ap (λ a. offsets_from a (map (λ d. k * d) own_degrees)) zero_start

  -- Node s + i of the partition finds its list in the loaded arrays.
  pub edges_at-own :
      (i : ℕ)
      → i < c
      → i < length own_lists
      → sum ds * k < 2 ^ 31
      → edges_at (concat own_lists) (offsets_from 0 (map (λ d. k * d) own_degrees)) i
        ≡ get_elem? ls (s + i)
  edges_at-own i h l bytes =
      let most : sum own_degrees * k ≤ sum ds * k =
        let fewer : sum own_degrees ≤ sum ds = omega (arith, own_sum) in grind arith in
      let turned : 0 + k * sum own_degrees ≡ sum own_degrees * k = grind arith in
      edges_at-concat k [] 0 own_lists own_degrees i refl
        (Fit-take k c (drop s ls) (drop s ds) (Fit-drop k s ls ds fit)) l
        (omega (arith, most, turned))
      ∙ get-take-drop s c i ls h
