-- ===== src/Cluster/Placed.antt =====
-- What `Get` of src/faas_controller/src/faas/cluster.go takes of one node.
use faa_sgraph.Base.{
  ℕ, zero, suc, ◌+◌, ◌-◌, ◌*◌, ◌≤◌, ◌<◌, ◌≡◌, refl, ap, inl, inr, Bool, false, some, List, [], ◌∷◌,
  ◌++◌, map, arith, ltb, length, length-append, drop, Bool-cases, All,
}
use faa_sgraph.Cluster.{Place, take_cpus, take_places, free_cpus, all_cpus, trimmed}
use faa_sgraph.Cluster.Cpus.{
  free_count, take_cpus-count, take_cpus-free_count, free_cpus-take_cpus, free_cpus_comm,
}

pub trimmed_total : (cs : List ℕ) → 0 < length cs → trimmed cs ≡ some cs
trimmed_total [] h = elim h [ ]
trimmed_total (c ∷ cs) h = refl

-- What the places of the containers of one node, the ports and the mask after it have to do with the
-- ports and the mask before.
pub record Taken (ip per_container need : ℕ) (ports : List ℕ) (mask : List Bool)
    (r : List Place × List ℕ × List Bool) : Type 0 where
  pub at_ip : All (λ q. q.ip ≡ ip) r.0
  pub ports_split : map (λ q. q.port) r.0 ++ r.1 ≡ ports
  pub cpus_back : free_cpus (all_cpus r.0) r.2 ≡ some mask
  pub cpus_count : free_count r.2 + length (all_cpus r.0) ≡ free_count mask
  pub at_most : length (all_cpus r.0) ≤ length r.0 * per_container
  pub fewest : length r.0 ≤ need
  pub some_cpu : 0 < need → 0 < length (all_cpus r.0)
  pub exact : (k : ℕ) → need ≡ k * per_container → length r.0 ≡ k

module _ (ip per : ℕ) (one : 0 < per) where
  exact_none : (k : ℕ) → 0 ≡ k * per → 0 ≡ k
  exact_none zero h = refl
  exact_none (suc k) h = absurd (grind arith)

  exact_more :
      (need i k len : ℕ)
      → i < need
      → ((k' : ℕ) → need - (i + per) ≡ k' * per → len ≡ k')
      → need - i ≡ k * per
      → suc len ≡ k
  exact_more need i zero len h f e = absurd (omega arith)
  exact_more need i (suc k) len h f e =
      let step : suc k * per ≡ per + k * per = grind arith in ap suc (f k (omega arith))

  Taken-stop :
      (need i : ℕ) (ports : List ℕ) (mask : List Bool)
      → need ≤ i
      → Taken ip per (need - i) ports mask ([], ports, mask)
  Taken-stop need i ports mask h = record {
    at_ip = tt;
    ports_split = refl;
    cpus_back = refl;
    cpus_count = omega arith;
    at_most = omega arith;
    fewest = omega arith;
    some_cpu = λ g. absurd (omega arith);
    exact = λ k e. exact_none k (omega arith);
  }

  Taken-more :
      (need i port : ℕ) (ports : List ℕ) (mask : List Bool) (p : ℕ)
      (r : List Place × List ℕ × List Bool)
      → i < need
      → 0 < length (take_cpus per mask p).0
      → Taken ip per (need - (i + per)) ports (take_cpus per mask p).1 r
      → Taken ip per
          (need - i)
          (port ∷ ports)
          mask
          (record { ip = ip; port = port; cpus = (take_cpus per mask p).0 } ∷ r.0, r.1, r.2)
  Taken-more need i port ports mask p r more some_found t =
      let count = take_cpus-free_count per mask p in
      let (found, left) = take_cpus-count per mask p in
      let lengths = length-append (take_cpus per mask p).0 (all_cpus r.0) in
      record {
        at_ip = (refl, t.at_ip);
        ports_split = ap (λ ps. port ∷ ps) t.ports_split;
        cpus_back =
            free_cpus_comm (take_cpus per mask p).0 (all_cpus r.0) r.2 (take_cpus per mask p).1 mask
              t.cpus_back (free_cpus-take_cpus per mask p);
        cpus_count = omega (arith, t.cpus_count);
        at_most = omega (arith, t.at_most);
        fewest = omega (arith, t.fewest);
        some_cpu = λ g. omega arith;
        exact = λ k e. exact_more need i k (length r.0) more t.exact e;
      }

  pub take_places-Taken :
      (fuel need i : ℕ) (ports : List ℕ) (mask : List Bool) (p : ℕ)
      → need ≤ i + fuel
      → need ≤ i + length ports
      → need ≤ i + free_count (drop p mask)
      → (r : List Place × List ℕ × List Bool) × (take_places fuel ip per need i ports mask p
          ≡ some r)
        × Taken ip per (need - i) ports mask r
  unfolding take_places
  take_places-Taken zero need i ports mask p fuel_ok ports_ok free_ok =
      let stop : ltb i need ≡ false = ground arith in
      (([], ports, mask), rw stop refl, Taken-stop need i ports mask (omega arith))
  take_places-Taken (suc fuel) need i [] mask p fuel_ok ports_ok free_ok =
      let stop : ltb i need ≡ false = ground arith in
      (([], [], mask), rw stop refl, Taken-stop need i [] mask (omega arith))
  take_places-Taken (suc fuel) need i (port ∷ left) mask p fuel_ok ports_ok free_ok =
      elim (Bool-cases (ltb i need)) [
        | inl go ↦
            let more : i < need = ground arith in
            let (found, free_left) = take_cpus-count per mask p in
            let some_found : 0 < length (take_cpus per mask p).0 = omega arith in
            let cut = trimmed_total (take_cpus per mask p).0 some_found in
            let (r, e, t) =
              take_places-Taken fuel need (i + per) left (take_cpus per mask p).1
                (take_cpus per mask p).2 (omega arith) (omega arith) (omega arith) in
            (
              (record { ip = ip; port = port; cpus = (take_cpus per mask p).0 } ∷ r.0, r.1, r.2),
              rw (go, cut, e) refl,
              Taken-more need i port left mask p r more some_found t,
            )
        | inr stop ↦ (
          ([], port ∷ left, mask),
          rw stop refl,
          Taken-stop need i (port ∷ left) mask (ground arith),
        )
      ]
