-- ===== src/ContainerSet/Workers.antt =====
-- WorkerIPList of src/faas_controller/src/faas/container_set.go for the places that
-- src/faas_controller/src/faas/cluster.go grants.
use mathlib.Core.List.{Permᴰ}
use faa_sgraph.Base.{
  ℕ, zero, suc, ◌≤◌, ◌<◌, ◌≡◌, refl, ap, sym, ◌∙◌, subst, inl, inr, Bool, true, List, [], ◌∷◌, ◌++◌,
  arith, length, max, All, map, ==_iff, Bool-cases, some,
}
use faa_sgraph.Cluster.{Node, Place, Cluster, Grant, get}
use faa_sgraph.Cluster.Sort.{Sorting}
use faa_sgraph.Cluster.Account.{slots_of, Wf, get-Granted}
use faa_sgraph.Cluster.Hosts.{Blocks, fewest_hosts}
use faa_sgraph.ContainerSet.{is_in, worker_ips}

abbrev pub ips_of : List Place → List ℕ
ips_of ps = map (λ p. p.ip) ps

module _ (more : List Place) where
  seen_block :
      (ip : ℕ) (mine : List Place) (counted : List ℕ)
      → All (λ q. q.ip ≡ ip) mine
      → is_in ip counted ≡ true
      → (counted' : List ℕ) × (length (worker_ips counted (ips_of (mine ++ more)))
          ≤ length (worker_ips counted' (ips_of more)))
  unfolding worker_ips
  seen_block ip [] counted a h = (counted, omega arith)
  seen_block ip (p ∷ ps) counted (e, a) h =
      let again : is_in p.ip counted ≡ true = ap (λ k. is_in k counted) e ∙ h in
      let still : is_in ip (p.ip ∷ counted) ≡ true = rw ((==_iff p.ip ip).1 e) refl in
      let (counted', le) = seen_block ip ps (p.ip ∷ counted) a still in (counted', rw again le)

  new_block :
      (ip : ℕ) (mine : List Place) (counted : List ℕ)
      → All (λ q. q.ip ≡ ip) mine
      → (counted' : List ℕ) × (length (worker_ips counted (ips_of (mine ++ more)))
          ≤ suc (length (worker_ips counted' (ips_of more))))
  unfolding worker_ips
  new_block ip [] counted a = (counted, omega arith)
  new_block ip (p ∷ ps) counted (e, a) =
      let still : is_in ip (p.ip ∷ counted) ≡ true = rw ((==_iff p.ip ip).1 e) refl in
      let (counted', le) = seen_block ip ps (p.ip ∷ counted) a still in
      elim (Bool-cases (is_in p.ip counted)) [
        | inl again ↦ (counted', rw again (omega (arith, le)))
        | inr fresh ↦ (counted', rw fresh (omega (arith, le)))
      ]

-- One address for each block of places at most.
worker_ips-Blocks :
    (hosts : ℕ) (ps : List Place) (counted : List ℕ)
    → Blocks hosts ps
    → length (worker_ips counted (ips_of ps)) ≤ hosts
unfolding worker_ips
worker_ips-Blocks zero ps counted b =
    subst (λ qs. length (worker_ips counted (ips_of qs)) ≤ 0) (sym b) (omega arith)
worker_ips-Blocks (suc k) ps counted (ip, mine, more, e, a, b) =
    let (counted', le) = new_block more ip mine counted a in
    let rest = worker_ips-Blocks k more counted' b in
    subst (λ qs. length (worker_ips counted (ips_of qs)) ≤ suc k) (sym e) (omega (arith, le, rest))

-- A request is spread over as few hosts as can be: for any nodes that together have the slots that
-- are wanted, the list of workers of the grant is no longer than the list of those nodes.
pub worker_ips-get :
    (s : Sorting) (share_cpu : Bool) (per total : ℕ) (c : Cluster) (chosen others : List Node)
    → 0 < per
    → Wf c
    → max 2 total ≤ c.current_slot
    → Permᴰ (chosen ++ others) c.nodes
    → max 2 total ≤ slots_of chosen
    → (c' : Cluster) × (g : Grant) × (get s.sort share_cpu per total c ≡ some (c', some g))
      × (length (worker_ips [] (ips_of g.places)) ≤ length chosen)
worker_ips-get s share_cpu per total c chosen others one wf enough perm wanted =
    let (c', g, e, (n', later, p, k)) = get-Granted s share_cpu per total c one wf enough in
    let (hosts, blocks, le) =
      fewest_hosts s share_cpu per (max 2 total) c.nodes (n' ∷ later) chosen others g.places
        (omega arith) p perm wanted in
    (c', g, e, omega (arith, le, worker_ips-Blocks hosts g.places [] blocks))
