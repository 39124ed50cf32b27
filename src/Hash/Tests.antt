-- ===== src/Hash/Tests.antt =====
-- Runs of util/hash.go, and an instance of its theorem.
use faa_sgraph.Base.{ℕ, ◌<◌, ◌≡◌, refl, none, some, List, [], ◌∷◌, arith, get_elem?, replicate, All}
use faa_sgraph.Hash.{Marks, mark, add_up, count_down, rename, hash_edges}
use faa_sgraph.Hash.Dense.{rank, hash_edges-rank}

-- Three identifiers: 1, 4 and 7.
abbrev edges : List (ℕ × ℕ)
edges = (4, 1) ∷ (7, 4) ∷ []

abbrev marked_ids : Marks
marked_ids = record { mx = 7; hash = 0 ∷ 1 ∷ 0 ∷ 0 ∷ 1 ∷ 0 ∷ 0 ∷ 1 ∷ 0 ∷ [] }

mark_run : mark edges (record { mx = 0; hash = replicate 9 0 }) ≡ some marked_ids
unfolding mark
mark_run = refl

hash_run : hash_edges 3 edges ≡ some ((1, 0) ∷ (2, 1) ∷ [])
unfolding hash_edges mark add_up count_down rename
hash_run = refl

-- With room for nothing the program panics, even on no edges.
no_room_run : hash_edges 0 [] ≡ none
unfolding hash_edges mark add_up count_down
no_room_run = refl

hash_edges-rank_example :
    (hash_edges 3 edges ≡ some ((1, 0) ∷ (2, 1) ∷ []))
    × All
        (λ e. (get_elem? marked_ids.hash e.0 ≡ some 1) × (get_elem? marked_ids.hash e.1 ≡ some 1))
        edges
    × ((i j : ℕ)
        → i < j
        → get_elem? marked_ids.hash i ≡ some 1
        → get_elem? marked_ids.hash j ≡ some 1
        → rank marked_ids.hash i < rank marked_ids.hash j)
hash_edges-rank_example = hash_edges-rank 3 edges marked_ids (omega arith) (omega arith) mark_run
