-- ===== src/MemPool/Cas.antt =====
-- The retry loop of `minCas` in src/lambda_executor/src/graphutil/mem.go (and `MinCas` in
-- src/local_manager/src/mem.go), run by many threads on one cell. An atomic load and an atomic
-- compare-and-swap are one step each; a schedule names the thread that moves next.
pub mod Least
pub mod Bound
pub mod Alone
use faa_sgraph.Base.{
  ℕ, ◌+◌, Bool, true, false, Option, none, some, List, [], ◌∷◌, map, leb, ◌==◌, if◌then◌else◌,
  get_elem?, set,
}

-- Where a thread stands: before the load, with the loaded value, or returned.
pub data Pc : Type 0 where
  start : Pc
  loaded : ℕ → Pc
  done : Bool → Pc

pub record Thread : Type 0 where
  pub val : ℕ
  pub pc : Pc

pub record System : Type 0 where
  pub cell : ℕ
  pub threads : List Thread

-- One atomic action of a thread that carries `val`, on a cell that holds `cell`.
unfoldable pub act : ℕ → ℕ → Pc → ℕ × Pc
act cell val start = (cell, loaded cell)
act cell val (loaded old) =
    if leb old val
    then (cell, done false)
    else (if cell == old then (val, done true) else (cell, start))
act cell val (done r) = (cell, done r)

-- The thread with number i moves; a number with no thread changes nothing.
unfoldable pub move : System → ℕ → System
unfolding act
move s i = elim (get_elem? s.threads i) [
  | none ↦ s
  | some t ↦ record {
    cell = (act s.cell t.val t.pc).0;
    threads = set s.threads i (record t { pc = (act s.cell t.val t.pc).1 });
  }
]

unfoldable pub run : System → List ℕ → System
run s [] = s
run s (i ∷ is) = run (move s i) is

-- All threads before their load, each with the value that it was called with.
unfoldable pub init : ℕ → List ℕ → System
init cell vals = record { cell = cell; threads = map (λ v. record { val = v; pc = start }) vals }
