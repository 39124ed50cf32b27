-- ===== src/Cluster/Back.antt =====
-- `Put` of src/faas_controller/src/faas/cluster.go after `Get`: what it gives back.
use mathlib.Core.List.{append_assoc, append-nil, Permᴰ}
use mathlib.Core.List.Permᴰ
use native.Mathlib.Nat.{mul-sub}
use faa_sgraph.Base.{
  ℕ, ◌+◌, ◌-◌, ◌*◌, ◌≡◌, ◌≢◌, refl, ap, ap₂, sym, ◌∙◌, subst, inl, inr, true, some, List, [], ◌∷◌,
  ◌++◌, map, arith, ltb, ◌==◌, if◌then◌else◌, length, length-map, Bool-cases, min, All, All-map,
  All-append,
}
use faa_sgraph.Cluster.{Node, Place, Grant, put_node, put_nodes, ports_at, cpus_at, free_cpus}
use faa_sgraph.Cluster.Round.{NodeTaken}
use faa_sgraph.Cluster.Account.{PlacedAll}
use faa_sgraph.Cluster.Away.{
  Distinct, Away, ports_at-append, cpus_at-append, ports_at-Away, cpus_at-Away, ports_at-here,
  PlacedAll-Away,
}

-- The same node, with its ports in some order.
pub record SameNode (n m : Node) : Type 0 where
  pub ip : m.ip ≡ n.ip
  pub slot : m.slot ≡ n.slot
  pub mask : m.cpu_mask ≡ n.cpu_mask
  pub ports : Permᴰ n.ports m.ports

abbrev pub SameNodes : List Node → List Node → Type 0
SameNodes [] [] = Unit
SameNodes (n ∷ ns) (m ∷ ms) = SameNode n m × SameNodes ns ms
SameNodes ns ms = ⊥

rotate : (xs ys zs : List ℕ) → Permᴰ (xs ++ (ys ++ zs)) ((ys ++ xs) ++ zs)
rotate xs ys zs =
    subst (λ l. Permᴰ l ((ys ++ xs) ++ zs)) (append_assoc xs ys zs)
      (Permᴰ.append_right zs (Permᴰ.append_comm xs ys))

abbrev pub coordinator_ports : Grant → Node → List ℕ
coordinator_ports g n = if n.ip == g.coordinator_ip then g.coordinator_port ∷ [] else []

-- One node, when the places that were given on it are `mine`.
back_node :
    (per : ℕ) (g : Grant) (n m : Node) (mine : List Place)
    → m.ip ≡ n.ip
    → ports_at n.ip g.places ≡ map (λ q. q.port) mine
    → free_cpus (cpus_at n.ip g.places []) m.cpu_mask ≡ some n.cpu_mask
    → m.slot + length mine * per ≡ n.slot
    → Permᴰ n.ports (map (λ q. q.port) mine ++ (m.ports ++ coordinator_ports g m))
    → (m' : Node) × (put_node per g m ≡ some m') × SameNode n m'
unfolding put_node
back_node per g n m mine ip ports cpus slot perm =
    let count : length (ports_at n.ip g.places) ≡ length mine =
      ap length ports ∙ length-map mine (λ q. q.port) in
    let own : ports_at m.ip g.places ≡ map (λ q. q.port) mine =
      ap (λ k. ports_at k g.places) ip ∙ ports in
    let rotated : Permᴰ n.ports (m.ports ++ ports_at m.ip g.places ++ coordinator_ports g m) =
      rw own (Permᴰ.trans perm (rotate (map (λ q. q.port) mine) m.ports (coordinator_ports g m))) in
    (
      record m {
        slot = m.slot + length (ports_at m.ip g.places) * per;
        ports = m.ports ++ ports_at m.ip g.places ++ coordinator_ports g m;
        cpu_mask = n.cpu_mask;
      },
      rw (ip, cpus) refl,
      record { ip = ip; slot = rw (ip, count) slot; mask = refl; ports = rotated },
    )

abbrev pub Whole : ℕ → ℕ → Type 0
Whole per m = (k : ℕ) × (m ≡ k * per)

Whole-min : (per a b : ℕ) → Whole per a → Whole per b → Whole per (min a b)
Whole-min per a b (j, e) (k, f) = elim (Bool-cases (ltb a b)) [
  | inl less ↦ (j, ground arith)
  | inr more ↦ (k, ground arith)
]

Whole-sub : (per a b : ℕ) → Whole per a → Whole per b → Whole per (a - b)
Whole-sub per a b (j, e) (k, f) = (j - k, ap₂ ◌-◌ e f ∙ grind (arith, mul-sub per j k))

-- A node before `Put`, which has the ports of `n` once the coordinator's is back.
pub record Ready (g : Grant) (n o : Node) : Type 0 where
  pub ip : o.ip ≡ n.ip
  pub slot : o.slot ≡ n.slot
  pub mask : o.cpu_mask ≡ n.cpu_mask
  pub ports : Permᴰ n.ports (o.ports ++ coordinator_ports g o)

abbrev pub AllReady : Grant → List Node → List Node → Type 0
AllReady g [] [] = Unit
AllReady g (n ∷ ns) (o ∷ os) = Ready g n o × AllReady g ns os
AllReady g ns os = ⊥

-- The rest of the nodes has no place of a node before them.
Away-extend :
    (n : Node) (ns : List Node) (pre mine : List Place)
    → All (λ m. m.ip ≢ n.ip) ns
    → All (λ m. Away m.ip pre) ns
    → All (λ q. q.ip ≡ n.ip) mine
    → All (λ m. Away m.ip (pre ++ mine)) ns
Away-extend n [] pre mine d a t = tt
Away-extend n (m ∷ ms) pre mine (h, d) (k, a) t =
    let own : Away m.ip mine =
      All-map (λ q. q.ip ≡ n.ip) (λ q. q.ip ≢ m.ip) mine (λ q f e. h (sym e ∙ f)) t in
    (All-append (λ q. q.ip ≢ m.ip) pre mine k own, Away-extend n ms pre mine d a t)

module _ (per : ℕ) (g : Grant) where
  back_untouched :
      (ns os : List Node)
      → All (λ n. Away n.ip g.places) ns
      → AllReady g ns os
      → (ms : List Node) × (put_nodes per g os ≡ some ms) × SameNodes ns ms
  unfolding put_nodes
  back_untouched [] [] a r = ([], refl, tt)
  back_untouched [] (o ∷ os) a r = absurd r
  back_untouched (n ∷ ns) [] a r = absurd r
  back_untouched (n ∷ ns) (o ∷ os) (h, a) (r, rs) =
      let kept = ap₂ free_cpus (cpus_at-Away n.ip g.places [] h) r.mask in
      let (m, e, same) =
        back_node per g n o [] r.ip (ports_at-Away n.ip g.places h) kept (omega (arith, r.slot))
          r.ports in
      let (ms, f, rest) = back_untouched ns os a rs in (m ∷ ms, rw (e, f) refl, (same, rest))

  -- One node with its own places among those of the grant.
  back_placed :
      (n n' o : Node) (need : ℕ) (pre mine more : List Place)
      → Whole per need
      → NodeTaken true per need n mine n'
      → Ready g n' o
      → g.places ≡ pre ++ (mine ++ more)
      → Away n.ip pre
      → Away n.ip more
      → (m : Node) × (put_node per g o ≡ some m) × SameNode n m
  back_placed n n' o need pre mine more (k, whole) t r places before later =
      let own_ports : ports_at n.ip g.places ≡ map (λ q. q.port) mine =
        ap (ports_at n.ip) places
        ∙ ports_at-append n.ip pre (mine ++ more)
        ∙ ap₂ ◌++◌ (ports_at-Away n.ip pre before) (ports_at-append n.ip mine more)
        ∙ ap₂ ◌++◌ (ports_at-here n.ip mine t.at_ip) (ports_at-Away n.ip more later)
        ∙ append-nil (map (λ q. q.port) mine) in
      let own_cpus : cpus_at n.ip g.places [] ≡ cpus_at n.ip mine [] =
        ap (λ ps. cpus_at n.ip ps []) places
        ∙ cpus_at-append n.ip pre (mine ++ more) []
        ∙ ap (cpus_at n.ip (mine ++ more)) (cpus_at-Away n.ip pre [] before)
        ∙ cpus_at-append n.ip mine more []
        ∙ cpus_at-Away n.ip more (cpus_at n.ip mine []) later in
      let count : length mine * per ≡ need = ap (λ j. j * per) (t.exact k whole) ∙ sym whole in
      back_node per g n o mine (r.ip ∙ t.same_ip) own_ports
        (ap₂ free_cpus own_cpus r.mask ∙ t.cpus_back refl []) (omega (arith, r.slot, t.fewer))
        (subst (λ l. Permᴰ l (map (λ q. q.port) mine ++ (o.ports ++ coordinator_ports g o)))
          t.ports_split (Permᴰ.append_left (map (λ q. q.port) mine) r.ports))

  -- All nodes over which the grant was distributed.
  pub back_nodes :
      (left : ℕ) (ns ns' os : List Node) (pre ps : List Place)
      → PlacedAll true per ns left ps ns'
      → AllReady g ns' os
      → g.places ≡ pre ++ ps
      → All (λ n. Away n.ip pre) ns
      → Distinct ns
      → All (λ n. Whole per n.slot) ns
      → Whole per left
      → (ms : List Node) × (put_nodes per g os ≡ some ms) × SameNodes ns ms
  unfolding put_nodes
  back_nodes left [] ns' os pre ps p r places a d w v = absurd p
  back_nodes left (n ∷ ns) ns' [] pre ps (mine, more, n', later, e, e', t, next) r places (b, a)
        (apart, d) (w, ws) v =
      absurd (subst (λ l. AllReady g l []) e' r)
  back_nodes left (n ∷ ns) ns' (o ∷ os) pre ps (mine, more, n', later, e, e', t, next) r places
        (b, a) (apart, d) (w, ws) v =
      let (ready, readies) = subst (λ l. AllReady g l (o ∷ os)) e' r in
      let split = places ∙ ap (λ qs. pre ++ qs) e in
      let before = Away-extend n ns pre mine apart a t.at_ip in
      let rest : Away n.ip more
          × ((ms : List Node) × (put_nodes per g os ≡ some ms) × SameNodes ns ms) =
        elim next [
          | inl (fits, last, same) ↦
              let whole : g.places ≡ pre ++ mine =
                split
                ∙ ap (λ qs. pre ++ (mine ++ qs)) last
                ∙ ap (λ qs. pre ++ qs) (append-nil mine) in
              let untouched = subst (λ qs. All (λ m. Away m.ip qs) ns) (sym whole) before in
              (
                subst (Away n.ip) (sym last) tt,
                back_untouched ns os untouched (subst (λ l. AllReady g l os) same readies),
              )
          | inr (less, p) ↦ (
            PlacedAll-Away true per (left - n.slot) n.ip ns later more apart p,
            back_nodes (left - n.slot) ns later os (pre ++ mine) more p readies
                (split ∙ sym (append_assoc pre mine more)) before d ws
                (Whole-sub per left n.slot v w),
          )
        ] in
      let (away, (ms, f, more_same)) = rest in
      let (m, k, same) =
        back_placed n n' o (min n.slot left) pre mine more (Whole-min per n.slot left w v) t ready
          split b away in
      (m ∷ ms, rw (k, f) refl, (same, more_same))
