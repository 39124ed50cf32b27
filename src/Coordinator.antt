-- ===== src/Coordinator.antt =====
-- src/graph_coordinator/src/container_set.go: the rounds of one request. What the containers answer
-- is a parameter: with a state of their own, which each round changes, they answer the active set that
-- they are sent. Clocks and printing are left out.
pub mod Rounds
pub mod Union
pub mod Tests
use mathlib.Core.Option
use faa_sgraph.Base.{
  ℕ, zero, suc, ◌+◌, ◌<◌, min, max, Bool, true, false, Option, none, some, List, [], ◌∷◌, ltb, ◌==◌,
  ◌&&◌, if◌then◌else◌, ◌>>=◌,
}
use faa_sgraph.Bitmap
use faa_sgraph.Bitmap.{Bitmap}

-- The fields that `run` reads.
pub record Request : Type 0 where
  pub total_node : ℕ
  pub round_limit : ℕ
  pub trigger_all : Bool
  pub no_change : Bool

-- The union of what the containers answer, in the order in which the answers come; `Or2` under a
-- lock for one or two partitions, the locked instruction `Or` for more.
abbrev pub union_with : Bool → List Bitmap → Bitmap → Option Bitmap
union_with few [] acc = some acc
union_with few (b ∷ bs) acc = do
  acc' ← if few then Bitmap.or_two acc b else Bitmap.or acc b
  union_with few bs acc'

-- `loadMem` joins the first active sets in the same way, always by `Or`.
unfoldable pub load_mem : ℕ → List Bitmap → Option Bitmap
unfolding Bitmap.or Bitmap.or_two Bitmap.new_bitmap
load_mem total_node answers = union_with false answers (Bitmap.new_bitmap total_node)

-- `dispatchRequest`, without the metrics.
unfoldable pub dispatch_request : ℕ → ℕ → List Bitmap → Option Bitmap
unfolding Bitmap.or Bitmap.or_two Bitmap.new_bitmap
dispatch_request total_node partitions answers =
    union_with (ltb partitions 3) answers (Bitmap.new_bitmap total_node)

-- The metrics of a round, which are float64 and stand here as numbers: the edges that were scanned
-- add up, and of all else the largest counts.
abbrev pub merge_metric : Bool → Option ℕ → ℕ → ℕ
merge_metric scanned none t = t
merge_metric scanned (some old) t = if scanned then old + t else max old t

-- `combinePerformanceMetrics` adds up rounds.
abbrev pub combine_metric : Option ℕ → ℕ → ℕ
combine_metric none t = t
combine_metric (some old) t = old + t

-- What a number of rounds comes to: the loop ended in some round, a round panicked, or the loop is
-- still running when the fuel is used up.
pub data Outcome : Type 0 where
  ended : ℕ → Outcome
  panicked still_running : Outcome

abbrev pub or_panicked {ℓ} : {A : Type ℓ} → Option A → (A → Outcome) → Outcome
or_panicked none f = panicked
or_panicked (some x) f = f x

module _ {State : Type 0} (answer : State → Bitmap → State × List Bitmap) (partitions : ℕ)
    (s : Request) where
  -- The set that the containers are sent.
  abbrev pub sent_set : Bitmap → Bitmap
  sent_set active = if s.trigger_all then Bitmap.new_bitmap_with_all s.total_node else active

  -- The loop of `run`, on fuel, with the rounds done; it ends with the last round's number.
  unfoldable pub rounds : ℕ → ℕ → State → Bitmap → Outcome
  unfolding dispatch_request Bitmap.empty
  rounds zero round state active = if Bitmap.empty active then ended round else still_running
  rounds (suc fuel) round state active =
      if Bitmap.empty active
      then ended round
      else (if ltb 0 s.round_limit && ltb s.round_limit (suc round)
          then ended (suc round)
          else or_panicked
              (dispatch_request s.total_node partitions (answer state (sent_set active)).1)
              (λ next.
                rounds fuel (suc round) (answer state (sent_set active)).0
                  (if s.no_change then sent_set active else next)))

  unfoldable pub run : ℕ → State → List Bitmap → Outcome
  unfolding rounds load_mem
  run fuel state loaded =
      or_panicked (load_mem s.total_node loaded) (λ active. rounds fuel 0 state active)

-- What the workers say they received: the sum, the largest and the least.
pub record Comm : Type 0 where
  pub comm : ℕ
  pub max_comm : ℕ
  pub min_comm : ℕ

abbrev pub no_comm : Comm
no_comm = record { comm = 0; max_comm = 0; min_comm = 1000000000000000 }

unfoldable pub collect : List ℕ → Comm → Comm
collect [] c = c
collect (x ∷ xs) c = collect xs (record {
  comm = c.comm + x;
  max_comm = if ltb c.max_comm x then x else c.max_comm;
  min_comm = if ltb x c.min_comm then x else c.min_comm;
})
