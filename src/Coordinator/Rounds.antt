-- ===== src/Coordinator/Rounds.antt =====
-- When the loop of rounds in src/graph_coordinator/src/container_set.go ends.
use faa_sgraph.Base.{
  ℕ, zero, suc, ◌+◌, ◌<◌, ◌≤◌, ◌≡◌, refl, inl, inr, true, false, List, arith, ltb, if◌then◌else◌,
  Bool-cases, All,
}
use faa_sgraph.Bitmap
use faa_sgraph.Bitmap.{Bitmap}
use faa_sgraph.Coordinator.{Request, ended, still_running, sent_set, rounds}
use faa_sgraph.Coordinator.Union.{Sized, words_of, dispatch_request-Sized}

-- The containers answer with bitmaps of the size of the graph, whatever state they are in.
module _ {State : Type 0} (answer : State → Bitmap → State × List Bitmap) (partitions : ℕ)
    (s : Request)
    (sized : (state : State) (b : Bitmap)
      → All (Sized (words_of s.total_node)) (answer state b).1) where
  -- With a limit, and with fuel for more rounds than it, the loop returns after at most one round
  -- more than the limit, the one in which it breaks off, whatever state the containers are in and
  -- however a round changes it, where their answers have the size of the graph.
  pub rounds_return :
      (fuel round : ℕ) (state : State) (active : Bitmap)
      → 0 < s.round_limit
      → s.round_limit < round + fuel
      → round ≤ s.round_limit
      → (k : ℕ) × (rounds answer partitions s fuel round state active ≡ ended k)
        × (k ≤ s.round_limit + 1)
  unfolding rounds
  rounds_return zero round state active limit enough le = absurd (omega arith)
  rounds_return (suc fuel) round state active limit enough le =
      let limited : ltb 0 s.round_limit ≡ true = ground arith in
      elim (Bool-cases (Bitmap.empty active)) [
        | inl empty ↦ (round, rw empty refl, omega arith)
        | inr more ↦ elim (Bool-cases (ltb s.round_limit (suc round))) [
          | inl past ↦ (suc round, rw (more, limited, past) refl, omega arith)
          | inr within ↦
              let set = sent_set answer partitions s active in
              let (next, e, size) =
                dispatch_request-Sized s.total_node partitions (answer state set).1
                  (sized state set) in
              let (k, f, g) =
                rounds_return fuel (suc round) (answer state set).0
                  (if s.no_change then set else next) limit (omega arith) (ground arith) in
              (k, rw (more, limited, within, e) f, g)
        ]
      ]

  -- With `NoChange` and without `TriggerAll`, no limit and a first active set that is not empty, the
  -- loop is still running after any number of rounds, where the answers have the size of the
  -- graph: it neither ends nor panics.
  pub rounds_never_end :
      (fuel round : ℕ) (state : State) (active : Bitmap)
      → s.no_change ≡ true
      → s.trigger_all ≡ false
      → s.round_limit ≡ 0
      → Bitmap.empty active ≡ false
      → rounds answer partitions s fuel round state active ≡ still_running
  unfolding rounds
  rounds_never_end zero round state active same each zero_limit more = rw more refl
  rounds_never_end (suc fuel) round state active same each zero_limit more =
      let later =
        rounds_never_end fuel (suc round) (answer state active).0 active same each zero_limit
          more in
      let unlimited : ltb 0 s.round_limit ≡ false = ground arith in
      let (next, e, size) =
        dispatch_request-Sized s.total_node partitions (answer state active).1
          (sized state active) in
      rw (more, unlimited, each, e, same) later
