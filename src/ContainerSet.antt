-- ===== src/ContainerSet.antt =====
-- src/faas_controller/src/faas/container_set.go: `LoadGraph`, which tells the new containers of each
-- other and gives each its partitions. Addresses and start nodes stand as numbers, `ip:port` as a
-- pair; what the containers answer, and the clock, are left out.
pub mod Keys
pub mod Addresses
pub mod Workers
pub mod Tests
use mathlib.Core.Option
use faa_sgraph.Base.{
  ℕ, zero, suc, ◌+◌, Bool, true, false, Option, none, some, List, [], ◌∷◌, ◌++◌, map, leb, ◌==◌,
  if◌then◌else◌, ◌>>=◌, get_elem?,
}
use faa_sgraph.Cluster.{Place}

abbrev pub is_in : ℕ → List ℕ → Bool
is_in ip [] = false
is_in ip (k ∷ ks) = let rest = is_in ip ks in if k == ip then true else rest

-- The loop over `ipCnt`, with the addresses that it has counted so far: what it adds to
-- WorkerIPList.
unfoldable pub worker_ips : List ℕ → List ℕ → List ℕ
worker_ips counted [] = []
worker_ips counted (ip ∷ ips) =
    let rest = worker_ips (ip ∷ counted) ips in if is_in ip counted then rest else ip ∷ rest

-- One container's turn in the loop that fills ContainerAddrList, with what is left of `j` and the
-- value of `i+j`.
abbrev pub addrs_of : ℕ → ℕ → ℕ → Place → List (ℕ × ℕ)
addrs_of partition zero at p = []
addrs_of partition (suc m) at p =
    if leb partition at then [] else (p.ip, p.port) ∷ addrs_of partition m (suc at) p

-- `i` is the variable of the range, so that the addition at the end of its turn is lost.
unfoldable pub container_addrs : ℕ → ℕ → ℕ → List Place → List (ℕ × ℕ)
container_addrs partition slot_per_container i [] = []
container_addrs partition slot_per_container i (p ∷ ps) =
    addrs_of partition slot_per_container i p
    ++ container_addrs partition slot_per_container (suc i) ps

module _ {A : Type 0} where
  -- The partitions that one container loads, by their start nodes.
  unfoldable pub keys_of : ℕ → List ℕ → ℕ → ℕ → A → Option (List (ℕ × A))
  keys_of partition start_nodes zero at container = some []
  keys_of partition start_nodes (suc m) at container = if leb partition at then some [] else (do
    key ← get_elem? start_nodes at
    rest ← keys_of partition start_nodes m (suc at) container
    some ((key, container) ∷ rest))

  -- The loop that fills `keyContainer`; here `i` moves on by the slots of a container.
  unfoldable pub load_keys : ℕ → List ℕ → ℕ → ℕ → List A → Option (List (ℕ × A))
  unfolding keys_of
  load_keys partition start_nodes slot_per_container i [] = some []
  load_keys partition start_nodes slot_per_container i (c ∷ cs) = do
    own ← keys_of partition start_nodes slot_per_container i c
    rest ← load_keys partition start_nodes slot_per_container (i + slot_per_container) cs
    some (own ++ rest)
