-- ===== src/Graph/File.antt =====
-- `readSegmentFromFile` and `readFromFile` of src/lambda_executor/src/graphutil/graph.go. A call
-- of `f.Read` that finds n bytes read returns at most `chunk n` bytes. The system chooses this for
-- each call; the loop is on fuel.
use mathlib.Core.List.{append_assoc}
use faa_sgraph.Base.{
  ℕ, zero, suc, ◌+◌, ◌-◌, ◌≤◌, ◌<◌, min, ◌≡◌, refl, ap, sym, ◌∙◌, Option, none, some, List, [], ◌∷◌,
  ◌++◌, arith, ◌==◌, if◌then◌else◌, length, take, drop, length-drop, ℕ_discrete, take-add,
}

take_all : (xs : List ℕ) → take (length xs) xs ≡ xs
take_all [] = refl
take_all (x ∷ xs) = ap (λ ys. x ∷ ys) (take_all xs)

module _ (chunk : ℕ → ℕ) where
  -- `rest` is the file from the read position, `want` the length of `buf`, `acc` what was read.
  unfoldable pub read_loop : ℕ → List ℕ → ℕ → List ℕ → Option (List ℕ)
  read_loop zero rest want acc = none
  read_loop (suc fuel) rest want acc =
      let n = min want (min (chunk (length acc)) (length rest)) in
      let more = read_loop fuel (drop n rest) (want - n) (acc ++ take n rest) in
      if n == want then some (acc ++ take n rest) else more

  unfoldable pub read_segment_from_file : List ℕ → ℕ → ℕ → Option (List ℕ)
  read_segment_from_file file offset len = read_loop (suc len) (drop offset file) len []

  unfoldable pub read_from_file : List ℕ → Option (List ℕ)
  read_from_file file = read_loop (suc (length file)) file (length file) []

  read_loop-take :
      ((n : ℕ) → 0 < chunk n)
      → (fuel want : ℕ) (rest acc : List ℕ) → want ≤ length rest
      → want < fuel
      → read_loop fuel rest want acc ≡ some (acc ++ take want rest)
  unfolding read_loop
  read_loop-take pos zero want rest acc h f = elim f [ ]
  read_loop-take pos (suc fuel) want rest acc h f =
      let n = min want (min (chunk (length acc)) (length rest)) in
      let some_bytes = pos (length acc) in
      elim (ℕ_discrete n want) [
        | yes last ↦ ground (arith, ap (λ k. acc ++ take k rest) last)
        | no short ↦
            let left : want - n ≤ length (drop n rest) = omega (arith, length-drop n rest) in
            let less : want - n < fuel = omega arith in
            let more =
              read_loop-take pos fuel (want - n) (drop n rest) (acc ++ take n rest) left less in
            let parts : want ≡ n + (want - n) = omega arith in
            let whole : take want rest ≡ take n rest ++ take (want - n) (drop n rest) =
              ap (λ k. take k rest) parts ∙ take-add n (want - n) rest in
            let joined : acc ++ take n rest ++ take (want - n) (drop n rest)
                ≡ acc ++ take want rest =
              append_assoc acc (take n rest) (take (want - n) (drop n rest))
              ∙ ap (λ zs. acc ++ zs) (sym whole) in
            ground (arith, more, ap some joined)
      ]

  -- A segment that lies within the file is read whole, however the system cuts the reads.
  pub read_segment-take :
      ((n : ℕ) → 0 < chunk n)
      → (file : List ℕ) (offset len : ℕ) → offset + len ≤ length file
      → read_segment_from_file file offset len ≡ some (take len (drop offset file))
  unfolding read_segment_from_file
  read_segment-take pos file offset len h =
      read_loop-take pos (suc len) len (drop offset file) []
        (omega (arith, length-drop offset file)) (omega arith)

  -- A file is read whole.
  pub read_file_all : ((n : ℕ) → 0 < chunk n) → (file : List ℕ) → read_from_file file ≡ some file
  unfolding read_from_file
  read_file_all pos file =
      read_loop-take pos (suc (length file)) (length file) file [] (omega arith) (omega arith)
      ∙ ap some (take_all file)
