-- ===== src/Coordinator/Tests.antt =====
-- Runs of src/graph_coordinator/src/container_set.go, and instances of its theorems.
use faa_sgraph.Base.{
  ℕ, ◌+◌, ◌≤◌, ◌≡◌, ◌↔◌, refl, true, false, some, List, [], ◌∷◌, arith, ◌==◌, if◌then◌else◌, All,
}
use faa_sgraph.Bitmap
use faa_sgraph.Bitmap.{Bitmap}
use faa_sgraph.Coordinator.{
  Request, ended, still_running, dispatch_request, rounds, collect, no_comm,
}
use faa_sgraph.Coordinator.Union.{AnyHas, Sized, words_of, dispatch_request-AnyHas}
use faa_sgraph.Coordinator.Rounds.{rounds_return, rounds_never_end}

abbrev bits : ℕ → Bitmap
bits w = record { words = w ∷ [] }

joined_run : dispatch_request 4 3 (bits 5 ∷ bits 2 ∷ []) ≡ some (bits 7)
unfolding dispatch_request Bitmap.or Bitmap.or_two Bitmap.new_bitmap Bitmap.new_bitmap_with
joined_run = refl

collect_run : collect (7 ∷ 3 ∷ 9 ∷ []) no_comm ≡ record { comm = 19; max_comm = 9; min_comm = 3 }
unfolding collect
collect_run = refl

dispatch_request-AnyHas_example :
    (d : Bitmap) × (dispatch_request 4 3 (bits 5 ∷ bits 2 ∷ []) ≡ some d)
    × ((Bitmap.get d 1 ≡ some true) ↔ AnyHas 1 (bits 5 ∷ bits 2 ∷ []))
dispatch_request-AnyHas_example =
    dispatch_request-AnyHas 4 3 1 (bits 5 ∷ bits 2 ∷ []) (refl, (refl, tt)) (omega arith)

abbrev limited : Request
limited = record { total_node = 4; round_limit = 3; trigger_all = false; no_change = true }

abbrev unlimited : Request
unlimited = record { total_node = 4; round_limit = 0; trigger_all = false; no_change = true }

-- Containers that count their rounds, and answer with what they are sent, then with nothing.
abbrev counting : ℕ → Bitmap → ℕ × List Bitmap
counting n b = (n + 1, bits (if n == 0 then 3 else 0) ∷ [])

counting-Sized : (n : ℕ) (b : Bitmap) → All (Sized (words_of 4)) (counting n b).1
counting-Sized n b = (refl, tt)

abbrev changing : Request
changing = record { total_node = 4; round_limit = 0; trigger_all = false; no_change = false }

-- The same set is sent in two rounds and is answered differently.
rounds_run : rounds counting 2 changing 5 0 0 (bits 3) ≡ ended 2
unfolding rounds dispatch_request Bitmap.or_two Bitmap.or Bitmap.empty Bitmap.new_bitmap
    Bitmap.new_bitmap_with
rounds_run = refl

rounds_return_example : (k : ℕ) × (rounds counting 2 limited 4 0 0 (bits 1) ≡ ended k) × (k ≤ 4)
rounds_return_example =
    rounds_return counting 2 limited counting-Sized 4 0 0 (bits 1) (omega arith) (omega arith)
      (omega arith)

rounds_never_end_example : rounds counting 2 unlimited 100 0 0 (bits 1) ≡ still_running
unfolding Bitmap.empty
rounds_never_end_example =
    rounds_never_end counting 2 unlimited counting-Sized 100 0 0 (bits 1) refl refl refl refl
