-- ===== src/Cluster/Round.antt =====
-- One round of the loop over the nodes in `Get` of src/faas_controller/src/faas/cluster.go.
use faa_sgraph.Base.{
  ℕ, ◌+◌, ◌-◌, ◌*◌, ◌≤◌, ◌<◌, ◌≡◌, refl, ap, ◌∙◌, subst, Bool, true, false, some, List, [], ◌∷◌,
  ◌++◌, map, arith, length, length-map, All, ==_iff, ◌==◌,
}
use faa_sgraph.Cluster.{Node, Place, take_node, free_cpus, all_cpus, with_cpus, cpus_at, shared}
use faa_sgraph.Cluster.Cpus.{free_count}
use faa_sgraph.Cluster.Placed.{Taken, trimmed_total, take_places-Taken}

-- What one round of the loop over the nodes does with a node.
pub record NodeTaken (share_cpu : Bool) (per need : ℕ) (n : Node) (ps : List Place) (n' : Node)
    : Type 0 where
  pub same_ip : n'.ip ≡ n.ip
  pub fewer : n'.slot + need ≡ n.slot
  pub at_ip : All (λ q. q.ip ≡ n.ip) ps
  pub ports_split : map (λ q. q.port) ps ++ n'.ports ≡ n.ports
  pub exact : (k : ℕ) → need ≡ k * per → length ps ≡ k
  pub some_places : 0 < length ps
  pub fewest : length ps ≤ need
  pub free_left : free_count n.cpu_mask ≤ free_count n'.cpu_mask + length ps * per
  pub cpus_back :
      share_cpu ≡ true
      → (found : List ℕ) → free_cpus (cpus_at n.ip ps found) n'.cpu_mask ≡ some n.cpu_mask

cpus_at-shared :
    (ip : ℕ) (every : List ℕ) (ps : List Place)
    → All (λ q. q.ip ≡ ip) ps
    → cpus_at ip (map (with_cpus every) ps) every ≡ every
cpus_at-shared ip every [] a = refl
cpus_at-shared ip every (p ∷ ps) (e, a) =
    let here : (p.ip == ip) ≡ true = (==_iff p.ip ip).1 e in
    rw (cpus_at, here) (cpus_at-shared ip every ps a)

-- The last of the containers of the node has the processors of all.
cpus_at-first :
    (ip : ℕ) (every found : List ℕ) (ps : List Place)
    → All (λ q. q.ip ≡ ip) ps
    → 0 < length ps
    → cpus_at ip (map (with_cpus every) ps) found ≡ every
cpus_at-first ip every found [] a h = elim h [ ]
cpus_at-first ip every found (p ∷ ps) (e, a) h =
    let here : (p.ip == ip) ≡ true = (==_iff p.ip ip).1 e in
    rw (cpus_at, here) (cpus_at-shared ip every ps a)

some_place : (ps : List Place) → 0 < length (all_cpus ps) → 0 < length ps
some_place [] h = elim h [ ]
some_place (p ∷ ps) h = omega arith

All-shared :
    (ip : ℕ) (share_cpu : Bool) (every : List ℕ) (ps : List Place)
    → All (λ q. q.ip ≡ ip) ps
    → All (λ q. q.ip ≡ ip) (shared share_cpu every ps)
All-shared ip false every ps a = a
All-shared ip true every [] a = tt
All-shared ip true every (p ∷ ps) (e, a) = (e, All-shared ip true every ps a)

ports-shared :
    (share_cpu : Bool) (every : List ℕ) (ps : List Place)
    → map (λ q. q.port) (shared share_cpu every ps) ≡ map (λ q. q.port) ps
ports-shared false every ps = refl
ports-shared true every [] = refl
ports-shared true every (p ∷ ps) = ap (λ qs. p.port ∷ qs) (ports-shared true every ps)

length-shared :
    (share_cpu : Bool) (every : List ℕ) (ps : List Place)
    → length (shared share_cpu every ps) ≡ length ps
length-shared false every ps = refl
length-shared true every ps = length-map ps (with_cpus every)

module _ (per need : ℕ) (n : Node) (some_need : 0 < need) (r : List Place × List ℕ × List Bool)
    (t : Taken n.ip per need n.ports n.cpu_mask r) where
  cpus_back-shared :
      (share_cpu : Bool)
      → share_cpu ≡ true
      → (found : List ℕ)
      → free_cpus (cpus_at n.ip (shared share_cpu (all_cpus r.0) r.0) found) r.2 ≡ some n.cpu_mask
  cpus_back-shared false h found = absurd (ground arith)
  cpus_back-shared true h found =
      let last =
        cpus_at-first n.ip (all_cpus r.0) found r.0 t.at_ip
          (some_place r.0 (t.some_cpu some_need)) in
      ap (λ cs. free_cpus cs r.2) last ∙ t.cpus_back

  Taken-NodeTaken :
      (share_cpu : Bool)
      → need ≤ n.slot
      → NodeTaken share_cpu per need n
          (shared share_cpu (all_cpus r.0) r.0)
          (record n { slot = n.slot - need; ports = r.1; cpu_mask = r.2 })
  Taken-NodeTaken share_cpu slots =
      let size = length-shared share_cpu (all_cpus r.0) r.0 in
      record {
        same_ip = refl;
        fewer = omega arith;
        at_ip = All-shared n.ip share_cpu (all_cpus r.0) r.0 t.at_ip;
        ports_split = rw (ports-shared share_cpu (all_cpus r.0) r.0) t.ports_split;
        exact = λ k h. size ∙ t.exact k h;
        some_places = rw size (some_place r.0 (t.some_cpu some_need));
        fewest = rw size t.fewest;
        free_left = rw size (omega (arith, t.cpus_count, t.at_most));
        cpus_back = cpus_back-shared share_cpu;
      }

-- A round of the loop succeeds where the node has the slots, and a port and a processor for each.
pub take_node-NodeTaken :
    (share_cpu : Bool) (per need : ℕ) (n : Node)
    → 0 < per
    → 0 < need
    → need ≤ n.slot
    → n.slot ≤ length n.ports
    → n.slot ≤ free_count n.cpu_mask
    → (ps : List Place) × (n' : Node) × (take_node share_cpu per need n ≡ some (ps, n'))
      × NodeTaken share_cpu per need n ps n'
unfolding take_node
take_node-NodeTaken share_cpu per need n one some_need slots ports cpus =
    let (r, e, t) =
      take_places-Taken n.ip per one need need 0 n.ports n.cpu_mask 0 (omega arith) (omega arith)
        (omega arith) in
    let start : need - 0 ≡ need = omega arith in
    let cut = trimmed_total (all_cpus r.0) (t.some_cpu (omega arith)) in
    (
      shared share_cpu (all_cpus r.0) r.0,
      record n { slot = n.slot - need; ports = r.1; cpu_mask = r.2 },
      rw (e, cut) refl,
      Taken-NodeTaken per need n some_need r
          (subst (λ m. Taken n.ip per m n.ports n.cpu_mask r) start t) share_cpu slots,
    )
