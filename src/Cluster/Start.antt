-- ===== src/Cluster/Start.antt =====
-- The cluster that `init` of src/faas_controller/src/faas/cluster.go sets up.
use faa_sgraph.Base.{
  Apart, ℕ, zero, suc, ◌+◌, ◌-◌, ◌*◌, ◌≤◌, ◌≡◌, ◌≢◌, refl, ap, sym, ◌⊎◌, inl, inr, false, some,
  List, [], ◌∷◌, arith, length, length-replicate, replicate, All,
}
use faa_sgraph.Cluster.{Cluster, init, init_nodes, taken_slots, total_of, up_from, low_port_number}
use faa_sgraph.Cluster.Cpus.{free_count}
use faa_sgraph.Cluster.Account.{slots_of, Fits, Wf}
use faa_sgraph.Cluster.Away.{Distinct}

length-up_from : (n p : ℕ) → length (up_from n p) ≡ n
length-up_from zero p = refl
length-up_from (suc n) p = ap suc (length-up_from n (suc p))

free_count-replicate : (n : ℕ) → free_count (replicate n false) ≡ n
free_count-replicate zero = refl
free_count-replicate (suc n) = ap suc (free_count-replicate n)

All-replicate : (most n : ℕ) → All (λ t. t ≤ most) (replicate n 0)
All-replicate most zero = tt
All-replicate most (suc n) = (omega arith, All-replicate most n)

module _ (most : ℕ) (ports : most ≤ 1000) where
  init_nodes-Fits : (ws ts : List ℕ) → All Fits (init_nodes most ws ts)
  init_nodes-Fits [] ts = tt
  init_nodes-Fits (w ∷ ws) [] = tt
  init_nodes-Fits (w ∷ ws) (t ∷ ts) =
      let count = length-up_from 1001 low_port_number in
      let free = free_count-replicate most in
      ((omega (arith, count), omega (arith, free)), init_nodes-Fits ws ts)

  slots_of-init_nodes :
      (ws ts : List ℕ)
      → length ws ≡ length ts
      → All (λ t. t ≤ most) ts
      → slots_of (init_nodes most ws ts) + total_of ts ≡ most * length ws
  slots_of-init_nodes [] [] e a = omega arith
  slots_of-init_nodes [] (t ∷ ts) e a = absurd (omega arith)
  slots_of-init_nodes (w ∷ ws) [] e a = absurd (omega arith)
  slots_of-init_nodes (w ∷ ws) (t ∷ ts) e (h, a) =
      let product : most * suc (length ws) ≡ most + most * length ws = grind arith in
      omega (arith, product, slots_of-init_nodes ws ts (omega arith) a)

  away_nodes :
      (w : ℕ) (ws ts : List ℕ) → All (λ v. v ≢ w) ws → All (λ m. m.ip ≢ w) (init_nodes most ws ts)
  away_nodes w [] ts a = tt
  away_nodes w (v ∷ vs) [] a = tt
  away_nodes w (v ∷ vs) (t ∷ ts) (h, a) = (h, away_nodes w vs ts a)

  init_nodes-Distinct : (ws ts : List ℕ) → Apart ws → Distinct (init_nodes most ws ts)
  init_nodes-Distinct [] ts d = tt
  init_nodes-Distinct (w ∷ ws) [] d = tt
  init_nodes-Distinct (w ∷ ws) (t ∷ ts) (a, d) = (away_nodes w ws ts a, init_nodes-Distinct ws ts d)

taken_total :
    (most : ℕ) (ws config : List ℕ)
    → length ws ≤ length config
    → All (λ t. t ≤ most) config
    → (taken : List ℕ) × (taken_slots ws config ≡ some taken)
      × (length ws ≡ length taken)
      × All (λ t. t ≤ most) taken
taken_total most [] config h a = ([], refl, refl, tt)
taken_total most (w ∷ ws) [] h a = absurd (omega arith)
taken_total most (w ∷ ws) (t ∷ ts) h (le, a) =
    let (taken, e, size, b) = taken_total most ws ts (omega arith) a in
    (t ∷ taken, rw e refl, omega (arith, size), (le, b))

start_with :
    (most : ℕ) (workers taken : List ℕ)
    → most ≤ 1000
    → Apart workers
    → length workers ≡ length taken
    → All (λ t. t ≤ most) taken
    → let c : Cluster = record {
      nodes = init_nodes most workers taken;
      current_slot = most * length workers - total_of taken;
    } in
      Wf c × Distinct c.nodes
start_with most workers taken ports distinct size a =
    let sum = slots_of-init_nodes most ports workers taken size a in
    (
      record { fits = init_nodes-Fits most ports workers taken; counted = omega (arith, sum) },
      init_nodes-Distinct most ports workers taken distinct,
    )

-- With at most 1000 slots per node, an address to each worker, and in the configuration either no
-- slots taken or, for each worker, no more than a node has, `init` returns a cluster as `Get` needs
-- it: the count is the sum of the free slots, each free slot has a port and a processor and a port is
-- left over, and no two nodes have the same address.
pub init-Wf :
    (most : ℕ) (workers config : List ℕ)
    → most ≤ 1000
    → Apart workers
    → (config ≡ []) ⊎ (length workers ≤ length config)
    → All (λ t. t ≤ most) config
    → (c : Cluster) × (init most workers config ≡ some c) × Wf c × Distinct c.nodes
unfolding init
init-Wf most workers [] ports distinct entries a =
    let taken = replicate (length workers) 0 in
    let (wf, d) =
      start_with most workers taken ports distinct (sym (length-replicate (length workers) 0))
        (All-replicate most (length workers)) in
    (
      record {
        nodes = init_nodes most workers taken;
        current_slot = most * length workers - total_of taken;
      },
      refl,
      wf,
      d,
    )
init-Wf most workers (t ∷ ts) ports distinct (inl e) a = absurd (ground (arith, e))
init-Wf most workers (t ∷ ts) ports distinct (inr enough) a =
    let (taken, e, size, b) = taken_total most workers (t ∷ ts) enough a in
    let (wf, d) = start_with most workers taken ports distinct size b in
    (
      record {
        nodes = init_nodes most workers taken;
        current_slot = most * length workers - total_of taken;
      },
      rw e refl,
      wf,
      d,
    )
