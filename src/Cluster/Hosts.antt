-- ===== src/Cluster/Hosts.antt =====
-- The number of nodes that `Get` of src/faas_controller/src/faas/cluster.go spreads a request over.
use mathlib.Core.List.{Permᴰ}
use faa_sgraph.Base.{
  sum_by-Perm, ℕ, zero, suc, ◌+◌, ◌-◌, ◌*◌, ◌≤◌, ◌<◌, ◌≡◌, refl, ◌∙◌, inl, inr, Bool, List, [], ◌∷◌,
  ◌++◌, arith, length, All, sum_by, sum_by-append, sum_by-le, ltb, Bool-cases,
}
use faa_sgraph.Cluster.{Node, Place}
use faa_sgraph.Cluster.Sort.{Descends, Sorting}
use faa_sgraph.Cluster.Account.{slots_of, PlacedAll}

abbrev excess : ℕ → Node → ℕ
excess v n = n.slot - v

-- The places lie in `hosts` blocks, one for each node.
abbrev pub Blocks : ℕ → List Place → Type 0
Blocks zero ps = ps ≡ []
Blocks (suc k) ps =
    (ip : ℕ) × (mine : List Place) × (more : List Place) × (ps ≡ mine ++ more)
    × All (λ q. q.ip ≡ ip) mine
    × Blocks k more

no_excess : (v : ℕ) (ns : List Node) → All (λ m. m.slot ≤ v) ns → sum_by (excess v) ns ≡ 0
no_excess v [] a = refl
no_excess v (n ∷ ns) (h, a) = omega (arith, no_excess v ns a)

-- With `suc k` hosts, the k largest have fewer slots than are wanted: in the form that does not name
-- them, with the slots of the last host as the mark.
few_hosts :
    (share_cpu : Bool) (per left : ℕ) (ns ns' : List Node) (ps : List Place)
    → 0 < left
    → Descends ns
    → PlacedAll share_cpu per ns left ps ns'
    → (k : ℕ) × (v : ℕ) × Blocks (suc k) ps
      × (sum_by (excess v) ns + k * v < left)
      × ((b : ℕ) → All (λ m. m.slot ≤ b) ns → v ≤ b)
few_hosts share_cpu per left [] ns' ps h d p = absurd p
few_hosts share_cpu per left (n ∷ ns) ns' ps h (largest, d)
      (mine, more, n', later, e, e', t, next) =
    elim next [
      | inl (fits, last, same) ↦
          let none_over = no_excess n.slot ns largest in
          (0, n.slot, (n.ip, mine, more, e, t.at_ip, last), omega (arith, none_over), λ b a. a.0)
      | inr (less, p) ↦
          let (k, v, blocks, few, bound) =
            few_hosts share_cpu per (left - n.slot) ns later more (omega arith) d p in
          let below = bound n.slot largest in
          let product : suc k * v ≡ v + k * v = grind arith in
          (
            suc k,
            v,
            (n.ip, mine, more, e, t.at_ip, blocks),
            omega (arith, below, few, product),
            λ b a. bound b a.1,
          )
    ]

-- Any nodes that together have the slots that are wanted are at least as many as the hosts.
pub fewest_hosts :
    (s : Sorting) (share_cpu : Bool) (per wanted : ℕ) (ns ns' chosen others : List Node)
    (ps : List Place)
    → 0 < wanted
    → PlacedAll share_cpu per (s.sort ns) wanted ps ns'
    → Permᴰ (chosen ++ others) ns
    → wanted ≤ slots_of chosen
    → (hosts : ℕ) × Blocks hosts ps × (hosts ≤ length chosen)
fewest_hosts s share_cpu per wanted ns ns' chosen others ps h p perm enough =
    let (k, v, blocks, few, bound) =
      few_hosts share_cpu per wanted (s.sort ns) ns' ps h (s.descends ns) p in
    let sum =
      sum_by-Perm (excess v) (chosen ++ others) ns perm
      ∙ sum_by-Perm (excess v) ns (s.sort ns) (s.perm ns) in
    let parts = sum_by-append (excess v) chosen others in
    let most = sum_by-le (λ n. n.slot) (excess v) v chosen (λ n. omega arith) in
    let more : suc k ≤ length chosen = elim (Bool-cases (ltb k (length chosen))) [
      | inl enough_hosts ↦ ground arith
      | inr too_few ↦
          let le : length chosen ≤ k = ground arith in
          let product : v * length chosen ≤ k * v = grind arith in
          absurd (omega (arith, few, sum, parts, most, product))
    ] in
    (suc k, blocks, more)
