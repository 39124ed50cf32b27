-- ===== src/Wire/Fill.antt =====
-- The buffer that the readers of frames (src/lambda_executor/src/main.go,
-- src/local_manager/src/main.go) fill pair by pair holds the next bytes of the body.
use mathlib.Core.List.{append_assoc, append-nil}
use faa_sgraph.Base.{
  ℕ, zero, suc, ◌+◌, ◌*◌, ◌%◌, ◌^◌, ◌<◌, ◌≤◌, min, ◌≡◌, refl, ap, ap₂, sym, ◌∙◌, true, some, List,
  [], ◌∷◌, ◌++◌, arith, leb, length, take, drop, length-append, length-take, length-drop,
  take-append_left, drop-append_left, take-add, drop-add,
}
use faa_sgraph.Wire.{read_into, read_at, fill}

pub drop-all : (n : ℕ) (xs : List ℕ) → length xs ≤ n → drop n xs ≡ []
drop-all zero [] h = refl
drop-all zero (x ∷ xs) h = absurd (omega arith)
drop-all (suc n) [] h = refl
drop-all (suc n) (x ∷ xs) h = drop-all n xs (omega arith)

-- The transport returns four bytes wherever four are asked for and left: no read is short.
abbrev pub Full : (ℕ → ℕ) → Type 0
Full cut = (n : ℕ) → 4 ≤ cut n

pub read_into_lem :
    (cut : ℕ → ℕ) (b s : List ℕ)
    → Full cut
    → length b ≡ 4
    → 4 ≤ length s
    → read_into cut b s ≡ (take 4 s, drop 4 s)
unfolding read_into
read_into_lem cut b s full four enough =
    let whole = full (length s) in
    let count : min (length b) (min (cut (length s)) (length s)) ≡ 4 = omega arith in
    rw (count, drop-all 4 b (omega arith), append-nil (take 4 s)) refl

-- Where there are four bytes to read and room for them, they take the place of four of the buffer.
read_at_lem :
    (cut : ℕ → ℕ) (off : ℕ) (done zs s : List ℕ)
    → Full cut
    → length done ≡ off
    → 4 ≤ length zs
    → 4 ≤ length s
    → read_at cut off (done ++ zs) s ≡ some (done ++ (take 4 s ++ drop 4 zs), drop 4 s)
unfolding read_at
read_at_lem cut off done zs s full h k l =
    let fits : leb (off + 4) (length (done ++ zs)) ≡ true = ground (arith, length-append done zs) in
    let front = take-append_left off done zs h in
    let back = drop-append_left off done zs h in
    let four : length (take 4 zs) ≡ 4 = omega (arith, length-take 4 zs) in
    let over : read_into cut (take 4 zs) s ≡ (take 4 s, drop 4 s) =
      read_into_lem cut (take 4 zs) s full four l in
    let after : drop (off + 4) (done ++ zs) ≡ drop 4 zs =
      drop-add off 4 (done ++ zs) ∙ ap (drop 4) back in
    rw (fits, front, back, over, after) refl

-- Any number of pairs.
pub fill_lem :
    (cut : ℕ → ℕ) (k i : ℕ) (done zs s : List ℕ)
    → Full cut
    → length done ≡ 8 * i
    → length zs ≡ 8 * k
    → 8 * k ≤ length s
    → 8 * (i + k) < 2 ^ 32
    → fill cut k i (done ++ zs) s ≡ some (done ++ take (8 * k) s, drop (8 * k) s)
unfolding fill
fill_lem cut zero i done zs s full h l m b =
    let empty : zs ≡ [] = drop-all 0 zs (omega arith) in ap (λ r. some (done ++ r, s)) empty
fill_lem cut (suc k) i done zs s full h l m b =
    let off : 8 * i % 2 ^ 32 ≡ 8 * i = omega arith in
    let a = take 4 s in
    let s' = drop 4 s in
    let b' = take 4 s' in
    let s'' = drop 4 s' in
    let z = drop 4 (drop 4 zs) in
    let one : read_at cut (8 * i) (done ++ zs) s ≡ some (done ++ a ++ drop 4 zs, s') =
      read_at_lem cut (8 * i) done zs s full h (omega arith) (omega arith)
      ∙ ap (λ r. some (r, s')) (sym (append_assoc done a (drop 4 zs))) in
    let two : read_at cut (8 * i + 4) (done ++ a ++ drop 4 zs) s'
        ≡ some (done ++ a ++ b' ++ z, s'') =
      read_at_lem cut (8 * i + 4) (done ++ a) (drop 4 zs) s' full
        (omega (arith, length-append done a, length-take 4 s)) (omega (arith, length-drop 4 zs))
        (omega (arith, length-drop 4 s))
      ∙ ap (λ r. some (r, s'')) (sym (append_assoc (done ++ a) b' z)) in
    let more =
      fill_lem cut k (suc i) (done ++ a ++ b') z s'' full
        (omega (
          arith,
          length-append (done ++ a) b',
          length-append done a,
          length-take 4 s,
          length-take 4 s',
          length-drop 4 s,
        ))
        (omega (arith, length-drop 4 zs, length-drop 4 (drop 4 zs)))
        (omega (arith, length-drop 4 s, length-drop 4 s')) (omega arith) in
    rw (off, one, two) (more ∙ ap₂ (λ x y. some (x, y)) (taken k done s) (dropped k s))
  where
    taken :
        (k : ℕ) (done s : List ℕ)
        → done ++ take 4 s ++ take 4 (drop 4 s) ++ take (8 * k) (drop 4 (drop 4 s))
          ≡ done ++ take (8 * suc k) s
    taken k done s =
        let count : 8 * suc k ≡ 4 + (4 + 8 * k) = omega arith in
        let split : take (8 * suc k) s
            ≡ take 4 s ++ (take 4 (drop 4 s) ++ take (8 * k) (drop 4 (drop 4 s))) =
          ap (λ n. take n s) count
          ∙ take-add 4 (4 + 8 * k) s
          ∙ ap (λ r. take 4 s ++ r) (take-add 4 (8 * k) (drop 4 s)) in
        append_assoc (done ++ take 4 s) (take 4 (drop 4 s)) (take (8 * k) (drop 4 (drop 4 s)))
        ∙ append_assoc done (take 4 s) (take 4 (drop 4 s) ++ take (8 * k) (drop 4 (drop 4 s)))
        ∙ ap (λ r. done ++ r) (sym split)

    dropped : (k : ℕ) (s : List ℕ) → drop (8 * k) (drop 4 (drop 4 s)) ≡ drop (8 * suc k) s
    dropped k s =
        let count : 8 * suc k ≡ 4 + (4 + 8 * k) = omega arith in
        sym (ap (λ n. drop n s) count ∙ drop-add 4 (4 + 8 * k) s ∙ drop-add 4 (8 * k) (drop 4 s))
