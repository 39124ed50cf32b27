-- ===== src/Cluster.antt =====
-- src/faas_controller/src/faas/cluster.go: slots, ports and processors of the nodes. Addresses are
-- only compared and stand as numbers; the text of a set of processors stands as the list of their
-- numbers. `sort.Slice` promises an order by the test and no more, so that the sort is a parameter.
pub mod Sort
pub mod Placed
pub mod Round
pub mod Cpus
pub mod Account
pub mod Away
pub mod Start
pub mod Back
pub mod Restore
pub mod Hosts
pub mod Tests
use mathlib.Core.Option
use faa_sgraph.Base.{
  ℕ, zero, suc, ◌+◌, ◌-◌, ◌*◌, min, max, Bool, true, false, Option, none, some, List, [], ◌∷◌, ◌++◌,
  map, ltb, ◌==◌, if◌then◌else◌, ◌>>=◌, length, get_elem?, set, drop, replicate,
}

pub record Node : Type 0 where
  pub ip : ℕ
  pub slot : ℕ
  pub ports : List ℕ
  pub cpu_mask : List Bool

pub record Cluster : Type 0 where
  pub nodes : List Node
  pub current_slot : ℕ

-- One entry of the lists `ip`, `port` and `cpuSet`: what one container gets.
pub record Place : Type 0 where
  pub ip : ℕ
  pub port : ℕ
  pub cpus : List ℕ

-- What `Get` answers when it does not refuse.
pub record Grant : Type 0 where
  pub places : List Place
  pub coordinator_ip : ℕ
  pub coordinator_port : ℕ

abbrev pub low_port_number : ℕ
low_port_number = 19000

abbrev pub high_port_number : ℕ
high_port_number = 20000

abbrev pub up_from : ℕ → ℕ → List ℕ
up_from zero p = []
up_from (suc n) p = p ∷ up_from n (suc p)

-- `init`, from the addresses of the workers and the slots that are taken on each; the configuration
-- takes no more slots of a node than it has. An entry that is missing is a panic.
abbrev pub taken_slots : List ℕ → List ℕ → Option (List ℕ)
taken_slots [] config = some []
taken_slots (w ∷ ws) [] = none
taken_slots (w ∷ ws) (t ∷ ts) = do rest ← taken_slots ws ts; some (t ∷ rest)

abbrev pub total_of : List ℕ → ℕ
total_of [] = 0
total_of (t ∷ ts) = t + total_of ts

abbrev pub init_nodes : ℕ → List ℕ → List ℕ → List Node
init_nodes most (w ∷ ws) (t ∷ ts) =
    record {
      ip = w;
      slot = most - t;
      ports = up_from (suc high_port_number - low_port_number) low_port_number;
      cpu_mask = replicate most false;
    }
    ∷ init_nodes most ws ts
init_nodes most ws ts = []

abbrev pub is_nil : List ℕ → Bool
is_nil [] = true
is_nil (x ∷ xs) = false

unfoldable pub init : ℕ → List ℕ → List ℕ → Option Cluster
init most workers config = do
  taken ← if is_nil config then some (replicate (length workers) 0) else taken_slots workers config
  some (record {
    nodes = init_nodes most workers taken;
    current_slot = most * length workers - total_of taken;
  })

-- How many processors in a row are taken.
abbrev pub lead_taken : List Bool → ℕ
lead_taken [] = 0
lead_taken (true ∷ bs) = suc (lead_taken bs)
lead_taken (false ∷ bs) = 0

-- Where the scan for a free processor stops that starts at `p`.
abbrev pub next_free : List Bool → ℕ → ℕ
next_free mask p = p + lead_taken (drop p mask)

-- The loop over `j`: processors for one container, the mask and where the scan stands. At the end of
-- the mask there is no processor, and nothing is set.
unfoldable pub take_cpus : ℕ → List Bool → ℕ → List ℕ × List Bool × ℕ
take_cpus zero mask p = ([], mask, p)
take_cpus (suc j) mask p =
    let q = next_free mask p in
    let rest = take_cpus j (set mask q true) q in
    (if ltb q (length mask) then q ∷ rest.0 else rest.0, rest.1, rest.2)

-- `node.ports[0]` and `node.ports[1:]`.
abbrev pub pop_port : List ℕ → Option (ℕ × List ℕ)
pop_port [] = none
pop_port (p ∷ ps) = some (p, ps)

-- To cut the last comma off a text that is empty is a panic.
abbrev pub trimmed : List ℕ → Option (List ℕ)
trimmed [] = none
trimmed (c ∷ cs) = some (c ∷ cs)

-- The loop over `i`, on fuel: places for the containers of one node, the ports that are left and the
-- mask.
unfoldable pub take_places :
    ℕ → ℕ → ℕ → ℕ → ℕ → List ℕ → List Bool → ℕ → Option (List Place × List ℕ × List Bool)
unfolding take_cpus
take_places zero ip slot_per_container use_slot i ports mask p =
    if ltb i use_slot then none else some ([], ports, mask)
take_places (suc fuel) ip slot_per_container use_slot i ports mask p =
    if ltb i use_slot
    then (do
      (port, left) ← pop_port ports
      let found = take_cpus slot_per_container mask p
      cpus ← trimmed found.0
      (places, ports_left, mask_left) ←
          take_places fuel ip slot_per_container use_slot (i + slot_per_container) left found.1
            found.2
      some (record { ip = ip; port = port; cpus = cpus } ∷ places, ports_left, mask_left))
    else some ([], ports, mask)

abbrev pub all_cpus : List Place → List ℕ
all_cpus [] = []
all_cpus (p ∷ ps) = p.cpus ++ all_cpus ps

abbrev pub with_cpus : List ℕ → Place → Place
with_cpus every p = record p { cpus = every }

-- With SHARE_CPU every container of the node gets the processors of all of them.
abbrev pub shared : Bool → List ℕ → List Place → List Place
shared share_cpu every places = if share_cpu then map (with_cpus every) places else places

-- One round of the loop over the nodes, which takes `use_slot` slots.
unfoldable pub take_node : Bool → ℕ → ℕ → Node → Option (List Place × Node)
unfolding take_places
take_node share_cpu slot_per_container use_slot n = do
  (places, ports, mask) ←
      take_places use_slot n.ip slot_per_container use_slot 0 n.ports n.cpu_mask 0
  every ← trimmed (all_cpus places)
  some (
    shared share_cpu every places,
    record n { slot = n.slot - use_slot; ports = ports; cpu_mask = mask },
  )

unfoldable pub place_all : Bool → ℕ → List Node → ℕ → Option (List Place × List Node)
unfolding take_node
place_all share_cpu slot_per_container [] left = some ([], [])
place_all share_cpu slot_per_container (n ∷ ns) left = do
  let use_slot = min n.slot left
  (places, n') ← take_node share_cpu slot_per_container use_slot n
  if (left - use_slot) == 0 then some (places, n' ∷ ns) else (do
    (more, ns') ← place_all share_cpu slot_per_container ns (left - use_slot)
    some (places ++ more, n' ∷ ns'))

-- The first container's address and a port of the first node, for the coordinator.
abbrev pub with_coordinator : ℕ → List Place → List Node → Option (Cluster × Grant)
with_coordinator current (p ∷ ps) (n ∷ ns) = do
  (port, left) ← pop_port n.ports
  some (
    record { nodes = record n { ports = left } ∷ ns; current_slot = current },
    record { places = p ∷ ps; coordinator_ip = p.ip; coordinator_port = port },
  )
with_coordinator current places nodes = none

-- `none` is a panic, and a cluster with no grant is the answer `false`.
unfoldable pub get :
    (List Node → List Node) → Bool → ℕ → ℕ → Cluster → Option (Cluster × Option Grant)
unfolding place_all
get sort share_cpu slot_per_container total_slot c =
    if ltb c.current_slot (max 2 total_slot) then some (c, none) else (do
      (places, nodes) ← place_all share_cpu slot_per_container (sort c.nodes) (max 2 total_slot)
      (c', grant) ← with_coordinator (c.current_slot - max 2 total_slot) places nodes
      some (c', some grant))

-- `ipPort[ip]`, in the order of the containers.
abbrev pub ports_at : ℕ → List Place → List ℕ
ports_at ip [] = []
ports_at ip (p ∷ ps) = if p.ip == ip then p.port ∷ ports_at ip ps else ports_at ip ps

-- `ipCpuSet[ip]`, which the last container of the node has set.
abbrev pub cpus_at : ℕ → List Place → List ℕ → List ℕ
cpus_at ip [] found = found
cpus_at ip (p ∷ ps) found = cpus_at ip ps (if p.ip == ip then p.cpus else found)

-- The processors of a list are free again; a number past the mask is a panic.
abbrev pub free_cpus : List ℕ → List Bool → Option (List Bool)
free_cpus [] mask = some mask
free_cpus (c ∷ cs) mask = if ltb c (length mask) then free_cpus cs (set mask c false) else none

-- One round of the loop of `Put`.
unfoldable pub put_node : ℕ → Grant → Node → Option Node
put_node slot_per_container g n = do
  mask ← free_cpus (cpus_at n.ip g.places []) n.cpu_mask
  some (record n {
    slot = n.slot + length (ports_at n.ip g.places) * slot_per_container;
    ports =
        n.ports
        ++ ports_at n.ip g.places
        ++ (if n.ip == g.coordinator_ip then g.coordinator_port ∷ [] else []);
    cpu_mask = mask;
  })

unfoldable pub put_nodes : ℕ → Grant → List Node → Option (List Node)
unfolding put_node
put_nodes slot_per_container g [] = some []
put_nodes slot_per_container g (n ∷ ns) = do
  n' ← put_node slot_per_container g n
  ns' ← put_nodes slot_per_container g ns
  some (n' ∷ ns')

-- The slots that `Put` adds to the count of the cluster.
abbrev pub returned : ℕ → List Place → List Node → ℕ
returned slot_per_container ps [] = 0
returned slot_per_container ps (n ∷ ns) =
    length (ports_at n.ip ps) * slot_per_container + returned slot_per_container ps ns

unfoldable pub put : ℕ → Grant → Cluster → Option Cluster
unfolding put_nodes
put slot_per_container g c = do
  nodes ← put_nodes slot_per_container g c.nodes
  some (record {
    nodes = nodes;
    current_slot = c.current_slot + returned slot_per_container g.places c.nodes;
  })
