-- ===== src/Hash.antt =====
-- util/hash.go: the identifiers of a file of edges, numbered from 0 without gaps. The text is taken
-- as its list of parsed edges; a count is a uint32. `none` is an index-out-of-range panic.
pub mod Dense
pub mod Tests
use faa_sgraph.Base.{
  ℕ, zero, suc, ◌+◌, ◌-◌, ◌*◌, ◌%◌, ◌^◌, max, Bool, true, false, Option, none, some, List, [], ◌∷◌,
  ◌>>=◌, modify, get_elem?, replicate,
}

-- The first pass: the largest identifier, and a mark at each that occurs.
pub record Marks : Type 0 where
  pub mx : ℕ
  pub hash : List ℕ

unfoldable pub mark : List (ℕ × ℕ) → Marks → Option Marks
mark [] s = some s
mark ((u, v) ∷ es) s = do
  h ← modify (λ x. 1) s.hash u
  h' ← modify (λ x. 1) h v
  mark es (record { mx = max (max s.mx u) v; hash = h' })

-- `hash[i] += hash[i-1]` on the entries after the first, with the entry before.
unfoldable pub add_up : ℕ → ℕ → List ℕ → List ℕ
add_up before zero xs = xs
add_up before (suc n) [] = []
add_up before (suc n) (x ∷ xs) = (x + before) % 2 ^ 32 ∷ add_up ((x + before) % 2 ^ 32) n xs

-- `hash[i]--`, which panics where there is no entry: the first one, if there is room for none.
unfoldable pub count_down : ℕ → List ℕ → Option (List ℕ)
count_down zero xs = some xs
count_down (suc n) [] = none
count_down (suc n) (x ∷ xs) = do rest ← count_down n xs; some ((x + (2 ^ 32 - 1)) % 2 ^ 32 ∷ rest)

-- The second pass writes the number of each end.
unfoldable pub rename : List ℕ → List (ℕ × ℕ) → Option (List (ℕ × ℕ))
rename hash [] = some []
rename hash ((u, v) ∷ es) = do
  a ← get_elem? hash u
  b ← get_elem? hash v
  rest ← rename hash es
  some ((a, b) ∷ rest)

-- The program, for room for three times as many identifiers as there are vertices.
unfoldable pub hash_edges : ℕ → List (ℕ × ℕ) → Option (List (ℕ × ℕ))
unfolding mark add_up count_down rename
hash_edges vertex es = do
  s ← mark es (record { mx = 0; hash = replicate (vertex * 3) 0 })
  hash ← count_down (suc s.mx) (add_up 0 (suc s.mx) s.hash)
  rename hash es
