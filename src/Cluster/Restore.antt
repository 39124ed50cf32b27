-- ===== src/Cluster/Restore.antt =====
-- `Put` of src/faas_controller/src/faas/cluster.go undoes `Get`.
use mathlib.Core.List.{Permᴰ, head-eq_of_cons-eq, tail-eq_of_cons-eq}
use mathlib.Core.List.Permᴰ
use mathlib.Core.Option.{some-injective}
use faa_sgraph.Base.{
  ne→==, sum_by-Perm, All-Perm, ℕ, ◌+◌, ◌-◌, ◌*◌, ◌≤◌, ◌<◌, ◌≡◌, ◌≢◌, refl, ap, sym, ◌∙◌, subst,
  inl, inr, Bool, true, some, List, [], ◌∷◌, ◌++◌, arith, ◌==◌, ==_iff, length, max, All,
  >>=-eq-some,
}
use faa_sgraph.Cluster.{
  Node, Cluster, Place, Grant, get, put, put_node, put_nodes, returned, ports_at, cpus_at,
  free_cpus,
}
use faa_sgraph.Cluster.Sort.{Sorting}
use faa_sgraph.Cluster.Account.{
  slots_of, PlacedAll, Wf, Coordinated, slots_of-PlacedAll, get-Granted,
}
use faa_sgraph.Cluster.Away.{Distinct, Distinct-Perm, Away}
use faa_sgraph.Cluster.Back.{SameNodes, Whole, AllReady, back_nodes, coordinator_ports}

put_node-slot :
    (per : ℕ) (g : Grant) (o m : Node)
    → put_node per g o ≡ some m
    → m.slot ≡ o.slot + length (ports_at o.ip g.places) * per
unfolding put_node
put_node-slot per g o m h =
    let (mask, e, f) = >>=-eq-some (free_cpus (cpus_at o.ip g.places []) o.cpu_mask) _ h in
    ap (λ n. n.slot) (sym (some-injective _ _ f))

put_nodes-slots_of :
    (per : ℕ) (g : Grant) (os ms : List Node)
    → put_nodes per g os ≡ some ms
    → slots_of os + returned per g.places os ≡ slots_of ms
unfolding put_nodes
put_nodes-slots_of per g [] ms h = ap slots_of (some-injective _ _ h)
put_nodes-slots_of per g (o ∷ os) ms h =
    let (m, e, k) = >>=-eq-some (put_node per g o) _ h in
    let (ms', f, l) = >>=-eq-some (put_nodes per g os) _ k in
    omega (
      arith,
      put_node-slot per g o m e,
      put_nodes-slots_of per g os ms' f,
      ap slots_of (some-injective _ _ l),
    )

SameNodes-slots_of : (ns ms : List Node) → SameNodes ns ms → slots_of ms ≡ slots_of ns
SameNodes-slots_of [] [] s = refl
SameNodes-slots_of [] (m ∷ ms) s = absurd s
SameNodes-slots_of (n ∷ ns) [] s = absurd s
SameNodes-slots_of (n ∷ ns) (m ∷ ms) (s, ss) = omega (arith, s.slot, SameNodes-slots_of ns ms ss)

other_addresses :
    (share_cpu : Bool) (per left ip : ℕ) (ns ns' : List Node) (ps : List Place)
    → All (λ m. m.ip ≢ ip) ns
    → PlacedAll share_cpu per ns left ps ns'
    → All (λ m. m.ip ≢ ip) ns'
other_addresses share_cpu per left ip [] ns' ps a p = absurd p
other_addresses share_cpu per left ip (n ∷ ns) ns' ps (h, a)
      (mine, more, n', later, e, e', t, next) =
    let rest : All (λ m. m.ip ≢ ip) later = elim next [
      | inl (fits, last, same) ↦ subst (All (λ m. m.ip ≢ ip)) (sym same) a
      | inr (less, p) ↦ other_addresses share_cpu per (left - n.slot) ip ns later more a p
    ] in
    subst (All (λ m. m.ip ≢ ip)) (sym e') ((λ f. h (sym t.same_ip ∙ f)), rest)

AllReady-refl :
    (g : Grant) (ns : List Node) → All (λ m. m.ip ≢ g.coordinator_ip) ns → AllReady g ns ns
AllReady-refl g [] a = tt
AllReady-refl g (n ∷ ns) (h, a) = (
  record {
    ip = refl;
    slot = refl;
    mask = refl;
    ports =
        rw (coordinator_ports, ne→== n.ip g.coordinator_ip h)
          (Permᴰ.symm (Permᴰ.append-nil n.ports));
  },
  AllReady-refl g ns a,
)

Coordinated-AllReady :
    (current : ℕ) (n : Node) (ns : List Node) (c' : Cluster) (g : Grant)
    → Coordinated current g.places n ns c' g
    → All (λ m. m.ip ≢ n.ip) ns
    → AllReady g (n ∷ ns) c'.nodes
Coordinated-AllReady current n ns c' g k a =
    let here : (n.ip == g.coordinator_ip) ≡ true =
      (==_iff n.ip g.coordinator_ip).1 (sym k.at_first) in
    let ports : Permᴰ n.ports (k.left ++ coordinator_ports g (record n { ports = k.left })) =
      rw (coordinator_ports, here)
        (subst (λ l. Permᴰ l (k.left ++ (g.coordinator_port ∷ []))) (sym k.port)
          (Permᴰ.append_comm (g.coordinator_port ∷ []) k.left)) in
    subst (AllReady g (n ∷ ns)) (sym k.nodes) (
      record { ip = refl; slot = refl; mask = refl; ports = ports },
      AllReady-refl g ns (subst (λ ip. All (λ m. m.ip ≢ ip) ns) (sym k.at_first) a),
    )

later_apart :
    (share_cpu : Bool) (per left : ℕ) (ns : List Node) (n' : Node) (later : List Node)
    (ps : List Place)
    → Distinct ns
    → PlacedAll share_cpu per ns left ps (n' ∷ later)
    → All (λ m. m.ip ≢ n'.ip) later
later_apart share_cpu per left [] n' later ps d p = absurd p
later_apart share_cpu per left (n ∷ ns) n' later ps (a, d)
      (mine, more, first, rest, e, e', t, next) =
    let here : first ≡ n' = sym (head-eq_of_cons-eq e') in
    let same : rest ≡ later = sym (tail-eq_of_cons-eq e') in
    let away : All (λ m. m.ip ≢ n.ip) rest = elim next [
      | inl (fits, last, same_rest) ↦ subst (All (λ m. m.ip ≢ n.ip)) (sym same_rest) a
      | inr (less, p) ↦ other_addresses share_cpu per (left - n.slot) n.ip ns rest more a p
    ] in
    subst (λ ip. All (λ m. m.ip ≢ ip) later) (sym t.same_ip ∙ ap (λ m. m.ip) here)
      (subst (All (λ m. m.ip ≢ n.ip)) same away)

Away-nil : (ns : List Node) → All (λ n. Away n.ip []) ns
Away-nil [] = tt
Away-nil (n ∷ ns) = (tt, Away-nil ns)

-- Where every number of slots is a whole number of containers, no two nodes have one address and
-- processors are shared, `Put` after a `Get` that grants gives back the count and, node by node, the
-- slots, the mask of processors and the ports, these in some order.
pub put-get :
    (s : Sorting) (per total : ℕ) (c : Cluster)
    → 0 < per
    → Wf c
    → Distinct c.nodes
    → All (λ n. Whole per n.slot) c.nodes
    → Whole per (max 2 total)
    → max 2 total ≤ c.current_slot
    → (c' : Cluster) × (g : Grant) × (back : Cluster) × (get s.sort true per total c
        ≡ some (c', some g))
      × (put per g c' ≡ some back)
      × (back.current_slot ≡ c.current_slot)
      × SameNodes (s.sort c.nodes) back.nodes
unfolding put
put-get s per total c one wf distinct whole wanted enough =
    let perm = s.perm c.nodes in
    let sorted = s.sort c.nodes in
    let (c', g, e, (n', later, p, k)) = get-Granted s true per total c one wf enough in
    let d = Distinct-Perm c.nodes sorted perm distinct in
    let apart = later_apart true per (max 2 total) sorted n' later g.places d p in
    let ready = Coordinated-AllReady (c.current_slot - max 2 total) n' later c' g k apart in
    let (ms, f, same) =
      back_nodes per g (max 2 total) sorted (n' ∷ later) c'.nodes [] g.places p ready refl
        (Away-nil sorted) d (All-Perm (λ n. Whole per n.slot) c.nodes sorted perm whole) wanted in
    let back : Cluster = record {
      nodes = ms;
      current_slot = c'.current_slot + returned per g.places c'.nodes;
    } in
    let taken = slots_of-PlacedAll true per (max 2 total) sorted (n' ∷ later) g.places p in
    let after = ap slots_of k.nodes in
    let put_back = put_nodes-slots_of per g c'.nodes ms f in
    let same_sum = SameNodes-slots_of sorted ms same in
    let sum = sum_by-Perm (λ n. n.slot) c.nodes sorted perm in
    (
      c',
      g,
      back,
      e,
      rw f refl,
      omega (arith, k.count, wf.counted, taken, after, put_back, same_sum, sum),
      same,
    )
