-- ===== src/Cluster/Away.antt =====
-- What the lists of `Put` in src/faas_controller/src/faas/cluster.go hold for one node, where no two
-- nodes have the same address.
use mathlib.Core.List.{Permᴰ}
use faa_sgraph.Base.{
  ne→==, All-Perm, ℕ, ◌-◌, ◌≡◌, ◌≢◌, refl, ap, sym, ◌∙◌, subst, inl, inr, Bool, List, [], ◌∷◌, ◌++◌,
  map, ◌==◌, ==_iff, if◌then◌else◌, Bool-cases, All, All-map, All-append,
}
use faa_sgraph.Cluster.{Node, Place, ports_at, cpus_at}
use faa_sgraph.Cluster.Account.{PlacedAll}

-- No two nodes have the same address.
abbrev pub Distinct : List Node → Type 0
Distinct [] = Unit
Distinct (n ∷ ns) = All (λ m. m.ip ≢ n.ip) ns × Distinct ns

pub Distinct-Perm : (xs ys : List Node) → Permᴰ xs ys → Distinct xs → Distinct ys
Distinct-Perm xs ys Permᴰ.nil d = tt
Distinct-Perm xs ys (Permᴰ.cons {a = a} {b = b} {l₁ = l₁} {l₂ = l₂} e p) (apart, d) = (
  subst (λ n. All (λ m. m.ip ≢ n.ip) l₂) e (All-Perm (λ m. m.ip ≢ a.ip) l₁ l₂ p apart),
  Distinct-Perm l₁ l₂ p d,
)
Distinct-Perm xs ys (Permᴰ.swap {a = a} {b = b} {a' = a'} {b' = b'} {l = l} e f)
      ((other, apart), (apart', d)) =
    (
      (
        λ h. other (sym (ap (λ n. n.ip) e ∙ h ∙ ap (λ n. n.ip) (sym f)) ∙ refl),
        subst (λ n. All (λ m. m.ip ≢ n.ip) l) f apart',
      ),
      (subst (λ n. All (λ m. m.ip ≢ n.ip) l) e apart, d),
    )
Distinct-Perm xs ys (Permᴰ.trans {l₂ = l₂} p q) d = Distinct-Perm l₂ ys q (Distinct-Perm xs l₂ p d)

pub ports_at-append :
    (ip : ℕ) (xs ys : List Place) → ports_at ip (xs ++ ys) ≡ ports_at ip xs ++ ports_at ip ys
ports_at-append ip [] ys = refl
ports_at-append ip (x ∷ xs) ys = elim (Bool-cases (x.ip == ip)) [
  | inl here ↦ rw here (ap (λ ps. x.port ∷ ps) (ports_at-append ip xs ys))
  | inr away ↦ rw away (ports_at-append ip xs ys)
]

pub cpus_at-append :
    (ip : ℕ) (xs ys : List Place) (found : List ℕ)
    → cpus_at ip (xs ++ ys) found ≡ cpus_at ip ys (cpus_at ip xs found)
cpus_at-append ip [] ys found = refl
cpus_at-append ip (x ∷ xs) ys found = cpus_at-append ip xs ys (if x.ip == ip then x.cpus else found)

-- Places on other nodes.
abbrev pub Away : ℕ → List Place → Type 0
Away ip ps = All (λ q. q.ip ≢ ip) ps

pub ports_at-Away : (ip : ℕ) (ps : List Place) → Away ip ps → ports_at ip ps ≡ []
ports_at-Away ip [] a = refl
ports_at-Away ip (p ∷ ps) (h, a) = rw (ne→== p.ip ip h) (ports_at-Away ip ps a)

pub cpus_at-Away :
    (ip : ℕ) (ps : List Place) (found : List ℕ) → Away ip ps → cpus_at ip ps found ≡ found
cpus_at-Away ip [] found a = refl
cpus_at-Away ip (p ∷ ps) found (h, a) = rw (cpus_at, ne→== p.ip ip h) (cpus_at-Away ip ps found a)

pub ports_at-here :
    (ip : ℕ) (ps : List Place) → All (λ q. q.ip ≡ ip) ps → ports_at ip ps ≡ map (λ q. q.port) ps
ports_at-here ip [] a = refl
ports_at-here ip (p ∷ ps) (h, a) =
    rw ((==_iff p.ip ip).1 h) (ap (λ qs. p.port ∷ qs) (ports_at-here ip ps a))

pub PlacedAll-Away :
    (share_cpu : Bool) (per left ip : ℕ) (ns ns' : List Node) (ps : List Place)
    → All (λ m. m.ip ≢ ip) ns
    → PlacedAll share_cpu per ns left ps ns'
    → Away ip ps
PlacedAll-Away share_cpu per left ip [] ns' ps a p = absurd p
PlacedAll-Away share_cpu per left ip (n ∷ ns) ns' ps (h, a)
      (mine, more, n', later, e, e', t, next) =
    let own : Away ip mine =
      All-map (λ q. q.ip ≡ n.ip) (λ q. q.ip ≢ ip) mine (λ q f g. h (sym f ∙ g)) t.at_ip in
    let rest : Away ip more = elim next [
      | inl (fits, last, same) ↦ subst (Away ip) (sym last) tt
      | inr (less, p) ↦ PlacedAll-Away share_cpu per (left - n.slot) ip ns later more a p
    ] in
    subst (Away ip) (sym e) (All-append (λ q. q.ip ≢ ip) mine more own rest)
