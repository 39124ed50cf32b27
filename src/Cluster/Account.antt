-- ===== src/Cluster/Account.antt =====
-- `Get` of src/faas_controller/src/faas/cluster.go over all nodes: when it grants, and that what it
-- takes of the nodes is what it takes of the count.
use mathlib.Core.List.{append-nil}
use faa_sgraph.Base.{
  sum_by-Perm, All-Perm, ℕ, ◌+◌, ◌-◌, ◌≤◌, ◌<◌, ◌≡◌, refl, ap, sym, ◌∙◌, subst, ◌⊎◌, inl, inr, Bool,
  false, none, some, List, [], ◌∷◌, ◌++◌, map, arith, ltb, ◌==◌, length, length-append, length-map,
  Bool-cases, min, max, All, sum_by,
}
use faa_sgraph.Cluster.{Node, Cluster, Place, Grant, place_all, with_coordinator, get}
use faa_sgraph.Cluster.Cpus.{free_count}
use faa_sgraph.Cluster.Round.{NodeTaken, take_node-NodeTaken}
use faa_sgraph.Cluster.Sort.{Descends, Sorting}

abbrev pub slots_of : List Node → ℕ
slots_of ns = sum_by (λ n. n.slot) ns

-- A port and a free processor for each free slot, and a port more for a coordinator.
abbrev pub Fits : Node → Type 0
Fits n = (n.slot < length n.ports) × (n.slot ≤ free_count n.cpu_mask)

-- The greedy distribution of `left` slots: all that a node has, until the rest fits on one.
abbrev pub PlacedAll : Bool → ℕ → List Node → ℕ → List Place → List Node → Type 0
PlacedAll share_cpu per [] left ps ns' = ⊥
PlacedAll share_cpu per (n ∷ ns) left ps ns' =
    (mine : List Place) × (more : List Place) × (n' : Node) × (later : List Node) × (ps
      ≡ mine ++ more)
    × (ns' ≡ n' ∷ later)
    × NodeTaken share_cpu per (min n.slot left) n mine n'
    × (((left ≤ n.slot) × (more ≡ []) × (later ≡ ns))
        ⊎ ((n.slot < left) × PlacedAll share_cpu per ns (left - n.slot) more later))

sum-zero :
    (n : Node) (ns : List Node) → All (λ m. m.slot ≤ n.slot) ns → n.slot ≡ 0 → slots_of ns ≡ 0
sum-zero n [] a h = refl
sum-zero n (m ∷ ms) (le, a) h = omega (arith, sum-zero n ms a h)

pub place_all-PlacedAll :
    (share_cpu : Bool) (per left : ℕ) (ns : List Node)
    → 0 < per
    → 0 < left
    → left ≤ slots_of ns
    → Descends ns
    → All Fits ns
    → (ps : List Place) × (ns' : List Node) × (place_all share_cpu per ns left ≡ some (ps, ns'))
      × PlacedAll share_cpu per ns left ps ns'
unfolding place_all
place_all-PlacedAll share_cpu per left [] one need enough d f = absurd (omega arith)
place_all-PlacedAll share_cpu per left (n ∷ ns) one need enough (largest, d) ((ports, cpus), f) =
    let nothing = sum-zero n ns largest in
    let some_slot : 0 < n.slot = ground (arith, nothing) in
    let (mine, n', e, t) =
      take_node-NodeTaken share_cpu per (min n.slot left) n one (omega arith) (omega arith)
        (omega arith) cpus in
    elim (Bool-cases ((left - min n.slot left) == 0)) [
      | inl done ↦
          let fits : left ≤ n.slot = ground arith in
          (
            mine,
            n' ∷ ns,
            rw (e, done) refl,
            (mine, [], n', ns, sym (append-nil mine), refl, t, inl (fits, refl, refl)),
          )
      | inr go ↦
          let less : n.slot < left = ground arith in
          let rest : left - min n.slot left ≡ left - n.slot = omega arith in
          let (more, later, e', p) =
            place_all-PlacedAll share_cpu per (left - n.slot) ns one (omega arith) (omega arith) d
              f in
          let e'' = subst (λ m. place_all share_cpu per ns m ≡ some (more, later)) (sym rest) e' in
          (
            mine ++ more,
            n' ∷ later,
            rw (e, go, e'') refl,
            (mine, more, n', later, refl, refl, t, inr (less, p)),
          )
    ]

pub slots_of-PlacedAll :
    (share_cpu : Bool) (per left : ℕ) (ns ns' : List Node) (ps : List Place)
    → PlacedAll share_cpu per ns left ps ns'
    → slots_of ns' + left ≡ slots_of ns
slots_of-PlacedAll share_cpu per left [] ns' ps p = absurd p
slots_of-PlacedAll share_cpu per left (n ∷ ns) ns' ps (mine, more, n', later, e, e', t, next) =
    let sum = ap slots_of e' in
    elim next [
      | inl (fits, last, same) ↦ omega (arith, t.fewer, ap slots_of same)
      | inr (less, p) ↦
          omega (arith, t.fewer, slots_of-PlacedAll share_cpu per (left - n.slot) ns later more p)
    ]

-- A cluster whose count is the sum of its nodes' free slots.
pub record Wf (c : Cluster) : Type 0 where
  pub fits : All Fits c.nodes
  pub counted : c.current_slot ≡ slots_of c.nodes

-- The coordinator has the address of the first node and the next of its ports.
pub record Coordinated (current : ℕ) (ps : List Place) (n : Node) (ns : List Node) (c' : Cluster)
    (g : Grant) : Type 0 where
  pub places : g.places ≡ ps
  pub count : c'.current_slot ≡ current
  pub left : List ℕ
  pub port : n.ports ≡ g.coordinator_port ∷ left
  pub nodes : c'.nodes ≡ record n { ports = left } ∷ ns
  pub at_first : g.coordinator_ip ≡ n.ip

with_coordinator-Coordinated :
    (current : ℕ) (ps more : List Place) (ports : List ℕ) (n : Node) (ns : List Node)
    → n.ports ≡ ports
    → 0 < length ports
    → 0 < length ps
    → All (λ q. q.ip ≡ n.ip) ps
    → (c' : Cluster) × (g : Grant) × (with_coordinator current (ps ++ more) (n ∷ ns) ≡ some (c', g))
      × Coordinated current (ps ++ more) n ns c' g
with_coordinator-Coordinated current ps more [] n ns e h k a = elim h [ ]
with_coordinator-Coordinated current [] more (port ∷ left) n ns e h k a = elim k [ ]
with_coordinator-Coordinated current (p ∷ ps) more (port ∷ left) n ns e h k (at_ip, a) = (
  record { nodes = record n { ports = left } ∷ ns; current_slot = current },
  record { places = p ∷ (ps ++ more); coordinator_ip = p.ip; coordinator_port = port },
  rw e refl,
  record { places = refl; count = refl; left = left; port = e; nodes = refl; at_first = at_ip },
)

-- The greedy distribution over the sorted nodes, and an address for the coordinator.
abbrev pub Granted : Sorting → Bool → ℕ → ℕ → Cluster → Cluster → Grant → Type 0
Granted s share_cpu per wanted c c' g =
    (n' : Node) × (later : List Node) × PlacedAll share_cpu per (s.sort c.nodes) wanted g.places
      (n' ∷ later)
    × Coordinated (c.current_slot - wanted) g.places n' later c' g

PlacedAll-Coordinated :
    (share_cpu : Bool) (per left current : ℕ) (ns ns' : List Node) (ps : List Place)
    → All Fits ns
    → PlacedAll share_cpu per ns left ps ns'
    → (n' : Node) × (later : List Node) × (c' : Cluster) × (g : Grant) × (ns' ≡ n' ∷ later)
      × (with_coordinator current ps (n' ∷ later) ≡ some (c', g))
      × Coordinated current ps n' later c' g
PlacedAll-Coordinated share_cpu per left current [] ns' ps f p = absurd p
PlacedAll-Coordinated share_cpu per left current (n ∷ ns) ns' ps ((ports, cpus), f)
      (mine, more, n', later, e, e', t, next) =
    let count : length mine + length n'.ports ≡ length n.ports = omega (
      arith,
      ap length t.ports_split,
      length-append (map (λ q. q.port) mine) n'.ports,
      length-map mine (λ q. q.port),
    ) in
    let at_ip = subst (λ ip. All (λ q. q.ip ≡ ip) mine) (sym t.same_ip) t.at_ip in
    let (c', g, f, k) =
      with_coordinator-Coordinated current mine more n'.ports n' later refl
        (omega (arith, t.fewest)) t.some_places at_ip in
    (
      n',
      later,
      c',
      g,
      e',
      subst (λ qs. with_coordinator current qs (n' ∷ later) ≡ some (c', g)) (sym e) f,
      subst (λ qs. Coordinated current qs n' later c' g) (sym e) k,
    )

module _ (s : Sorting) (share_cpu : Bool) (per total : ℕ) (c : Cluster) (one : 0 < per)
    (wf : Wf c) where
  pub get-Granted :
      max 2 total ≤ c.current_slot
      → (c' : Cluster) × (g : Grant) × (get s.sort share_cpu per total c ≡ some (c', some g))
        × Granted s share_cpu per (max 2 total) c c' g
  unfolding get
  get-Granted enough =
      let granted : ltb c.current_slot (max 2 total) ≡ false = ground arith in
      let sum = sum_by-Perm (λ n. n.slot) c.nodes (s.sort c.nodes) (s.perm c.nodes) in
      let fits = All-Perm Fits c.nodes (s.sort c.nodes) (s.perm c.nodes) wf.fits in
      let (ps, ns', e, p) =
        place_all-PlacedAll share_cpu per (max 2 total) (s.sort c.nodes) one (omega arith)
          (omega (arith, wf.counted)) (s.descends c.nodes) fits in
      let (n', later, c', g, e', f, k) =
        PlacedAll-Coordinated share_cpu per (max 2 total) (c.current_slot - max 2 total)
          (s.sort c.nodes) ns' ps fits p in
      let placed =
        subst (λ qs. PlacedAll share_cpu per (s.sort c.nodes) (max 2 total) qs (n' ∷ later))
          (sym k.places)
          (subst (λ ms. PlacedAll share_cpu per (s.sort c.nodes) (max 2 total) ps ms) e' p) in
      let spread = e ∙ ap (λ ms. some (ps, ms)) e' in
      (
        c',
        g,
        rw (granted, spread, f) refl,
        (
          n',
          later,
          placed,
          subst (λ qs. Coordinated (c.current_slot - max 2 total) qs n' later c' g) (sym k.places)
              k,
        ),
      )

  -- Where the count of the cluster is the sum of its nodes' free slots, and each free slot has a port
  -- and a processor, and a port is left for the coordinator, `Get` does not panic: it refuses just
  -- when the count is below what is wanted, and then changes nothing; otherwise it takes what is
  -- wanted of the nodes and of the count alike.
  pub get-slots_of :
      ((c.current_slot < max 2 total) × (get s.sort share_cpu per total c ≡ some (c, none)))
      ⊎ ((c' : Cluster) × (g : Grant) × (get s.sort share_cpu per total c ≡ some (c', some g))
          × (c'.current_slot + max 2 total ≡ c.current_slot)
          × (slots_of c'.nodes ≡ c'.current_slot))
  unfolding get
  get-slots_of = elim (Bool-cases (ltb c.current_slot (max 2 total))) [
    | inl refused ↦ inl (ground arith, rw refused refl)
    | inr granted ↦
        let enough : max 2 total ≤ c.current_slot = ground arith in
        let (c', g, e, (n', later, p, k)) = get-Granted enough in
        let sum = sum_by-Perm (λ n. n.slot) c.nodes (s.sort c.nodes) (s.perm c.nodes) in
        let taken =
          slots_of-PlacedAll share_cpu per (max 2 total) (s.sort c.nodes) (n' ∷ later) g.places p in
        let after = ap slots_of k.nodes in
        inr (c', g, e, omega (arith, k.count), omega (arith, k.count, wf.counted))
  ]
