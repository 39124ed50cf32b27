-- ===== src/ContainerSet/Addresses.antt =====
-- ContainerAddrList of src/faas_controller/src/faas/container_set.go, and what
-- src/lambda_executor/src/runner/graph_runner.go makes of it.
use mathlib.Core.Option.{some-injective}
use faa_sgraph.Base.{
  ℕ, zero, suc, ◌+◌, ◌*◌, ◌≤◌, ◌<◌, ◌≡◌, refl, ap, sym, ◌∙◌, false, List, [], ◌∷◌, arith, length,
  length-append, length-map, length-replicate, replicate, get_elem?, get_elem?-replicate,
  get_elem?-append_left, get-append_right, map, leb, none, some,
}
use faa_sgraph.Cluster.{Place}
use faa_sgraph.Graph.{Graph}
use faa_sgraph.Runner.{Runner, other_parts, create_writers}
use faa_sgraph.ContainerSet.{addrs_of, container_addrs, load_keys}
use faa_sgraph.ContainerSet.Keys.{load_keys-Pairs}

abbrev pub addr : Place → ℕ × ℕ
addr p = (p.ip, p.port)

addrs_of-replicate :
    (partition m at : ℕ) (p : Place)
    → at + m ≤ partition
    → addrs_of partition m at p ≡ replicate m (addr p)
addrs_of-replicate partition zero at p h = refl
addrs_of-replicate partition (suc m) at p h =
    let inside : leb partition at ≡ false = ground arith in
    rw inside (ap (λ xs. addr p ∷ xs) (addrs_of-replicate partition m (suc at) p (omega arith)))

module _ (partition per : ℕ) where
  length-container_addrs :
      (i : ℕ) (ps : List Place)
      → i + length ps + per ≤ partition + 1
      → length (container_addrs partition per i ps) ≡ length ps * per
  unfolding container_addrs
  length-container_addrs i [] h = omega arith
  length-container_addrs i (p ∷ ps) h =
      let own = addrs_of-replicate partition per i p (omega arith) in
      let size = length-replicate per (addr p) in
      let sum =
        length-append (addrs_of partition per i p) (container_addrs partition per (suc i) ps) in
      let product : suc (length ps) * per ≡ per + length ps * per = grind arith in
      omega
        (arith, ap length own, size, sum, product, length-container_addrs (suc i) ps (omega arith))

  get-container_addrs :
      (i : ℕ) (ps : List Place) (q r : ℕ) (p : Place)
      → i + length ps + per ≤ partition + 1
      → r < per
      → get_elem? ps q ≡ some p
      → get_elem? (container_addrs partition per i ps) (q * per + r) ≡ some (addr p)
  unfolding container_addrs
  get-container_addrs i [] q r p h k e = absurd (ground arith)
  get-container_addrs i (x ∷ xs) zero r p h k e =
      let own = addrs_of-replicate partition per i x (omega arith) in
      let size = length-replicate per (addr x) in
      let first : 0 * per + r ≡ r = omega arith in
      rw (first, own)
        (get_elem?-append_left (replicate per (addr x)) (container_addrs partition per (suc i) xs) r
            (omega arith)
          ∙ get_elem?-replicate per r (addr x) k
          ∙ ap (λ y. some (addr y)) (some-injective _ _ e))
  get-container_addrs i (x ∷ xs) (suc q) r p h k e =
      let own = addrs_of-replicate partition per i x (omega arith) in
      let size = length-replicate per (addr x) in
      let step : length (replicate per (addr x)) + (q * per + r) ≡ suc q * per + r = grind arith in
      rw (← step, own)
        (get-append_right (replicate per (addr x)) (container_addrs partition per (suc i) xs)
            (q * per + r)
          ∙ get-container_addrs (suc i) xs q r p (omega arith) k e)

module _ (partition per : ℕ) (starts : List ℕ) (ps : List Place)
    (few : length ps + per ≤ partition + 1) where
  -- The address at the index of a start node is the one of the container that loads its partition,
  -- where no turn of the loop that fills ContainerAddrList breaks off.
  pub container_addrs-load_keys :
      (q r : ℕ) (p : Place)
      → partition ≤ length starts
      → r < per
      → q * per + r < partition
      → get_elem? ps q ≡ some p
      → (pairs : List (ℕ × Place)) × (key : ℕ) × (load_keys partition starts per 0 ps ≡ some pairs)
        × (get_elem? starts (q * per + r) ≡ some key)
        × (get_elem? pairs (q * per + r) ≡ some (key, p))
        × (get_elem? (container_addrs partition per 0 ps) (q * per + r) ≡ some (p.ip, p.port))
  container_addrs-load_keys q r p enough h k e =
      let (pairs, f, size, found) = load_keys-Pairs partition starts enough per 0 ps in
      let (key, g, l) = found q r p h (omega (arith, k)) e in
      let start : 0 + (q * per + r) ≡ q * per + r = omega arith in
      (
        pairs,
        key,
        f,
        ap (get_elem? starts) (sym start) ∙ g,
        l,
        get-container_addrs partition per 0 ps q r p (omega arith) h e,
      )

more_addresses :
    (start : ℕ) (addrs nodes : List ℕ)
    → length nodes < length addrs
    → other_parts start addrs nodes ≡ none
more_addresses start [] nodes h = absurd (omega arith)
more_addresses start (a ∷ addrs) [] h = refl
more_addresses start (a ∷ addrs) (n ∷ ns) h = rw (more_addresses start addrs ns (omega arith)) refl

-- Without shared memory an executor panics in `createWriters` when the containers have room for more
-- partitions than there are, and the containers and the slots of one are together at most one more
-- than the partitions: the controller then sends it more addresses than start nodes.
pub create_writers_panics :
    (text : ℕ × ℕ → ℕ) (partition per : ℕ) (ps : List Place) (r : Runner) (g : Graph)
    → r.share_memory ≡ false
    → r.container_addr_list ≡ map text (container_addrs partition per 0 ps)
    → length r.start_node_list ≡ partition
    → length ps + per ≤ partition + 1
    → partition < length ps * per
    → create_writers r g ≡ none
unfolding create_writers
create_writers_panics text partition per ps r g off addrs nodes few more =
    let size = ap length addrs ∙ length-map (container_addrs partition per 0 ps) text in
    let count = length-container_addrs partition per 0 ps (omega arith) in
    rw off (
      more_addresses g.start_node r.container_addr_list r.start_node_list
        (omega (arith, size, count, nodes, more)))
