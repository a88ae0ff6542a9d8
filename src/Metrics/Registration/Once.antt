-- ===== src/Metrics/Registration/Once.antt =====
-- What registerMetrics does on a registry, and what it does on it again.
use mathlib.Core.List.{append-nil, append_assoc}
use distri_inference_sidecar.Prelude.{
  length, ◌<◌, ◌≡◌, refl, ap, sym, subst, ◌∙◌, Bool, true, false, not, ◌&&◌, ◌||◌, Option, none,
  some, List, [], ◌∷◌, ◌++◌, ◌⊎◌, inl, inr, Bytes, bytes_eq, bytes_eq_refl, Bool-cases, arith,
}
use distri_inference_sidecar.Metrics.{new}
use distri_inference_sidecar.Metrics.Registration.{
  Collector, collectors, has, taken, collector_names, IsRegistry, must_register, and_metrics,
  register_metrics,
}

-- Whatever names follow, one that is registered stays so.
has-append : (n : Bytes) (ms ks : List Bytes) → has n (ms ++ ks) ≡ (has n ms || has n ks)
has-append n [] ks = refl
has-append n (m ∷ ms) ks = ground (arith, has-append n ms ks)

taken-more :
    (cs : List Collector) (ns ks : List Bytes) → taken cs ns ≡ true → taken cs (ns ++ ks) ≡ true
taken-more (c ∷ cs) ns ks h = ground (arith, has-append c.name ns ks, taken-more cs ns ks)
taken-more [] ns ks h = h

has-there : (n : Bytes) (ms ks : List Bytes) → has n (ms ++ n ∷ ks) ≡ true
has-there n [] ks = rw (bytes_eq_refl n) refl
has-there n (m ∷ ms) ks = ground (arith, has-there n ms ks)

taken_self :
    (cs : List Collector) (ns : List Bytes)
    → 0 < length cs
    → taken cs (ns ++ collector_names cs) ≡ true
taken_self [] ns h = ground arith
taken_self (c ∷ cs) ns h = rw (has-there c.name ns (collector_names cs)) refl

-- Each name is new when its turn comes.
abbrev fresh : List Collector → List Bytes → Bool
fresh [] ns = true
fresh (c ∷ cs) ns = not (has c.name ns) && fresh cs (ns ++ c.name ∷ [])

fresh-append :
    (cs : List Collector) (ns ks : List Bytes)
    → taken cs ns ≡ false
    → fresh cs ks ≡ true
    → fresh cs (ns ++ ks) ≡ true
fresh-append [] ns ks free h = refl
fresh-append (c ∷ cs) ns ks free h =
    rw (append_assoc ns ks (c.name ∷ []))
      (ground (arith, has-append c.name ns ks, fresh-append cs ns (ks ++ c.name ∷ [])))

fresh-collectors : fresh collectors [] ≡ true
unfolding bytes_eq
fresh-collectors = refl

fresh-names : (ns : List Bytes) → taken collectors ns ≡ false → fresh collectors ns ≡ true
fresh-names ns absent =
    subst (λ ks. fresh collectors ks ≡ true) (append-nil ns)
      (fresh-append collectors ns [] absent fresh-collectors)

module _ {R : Type 0} (register : Collector → R → Option R) (names : R → List Bytes)
    (law : IsRegistry register names) where
  must_register-taken :
      (cs : List Collector) (r : R) → taken cs (names r) ≡ true → must_register register cs r ≡ none
  unfolding must_register
  must_register-taken [] r h = ground arith
  must_register-taken (c ∷ cs) r h = elim (Bool-cases (has c.name (names r))) [
    | inl there ↦ rw (must_register, law.refuses c r there) refl
    | inr absent ↦
        let (q, e, n) = law.adds c r absent in
        rw (must_register, e)
          (must_register-taken cs q (rw n (taken-more cs (names r) (c.name ∷ []) (rw absent at h))))
  ]

  must_register-fresh :
      (cs : List Collector) (r : R)
      → fresh cs (names r) ≡ true
      → (q : R) × (must_register register cs r ≡ some q) × (names q ≡ names r ++ collector_names cs)
  unfolding must_register
  must_register-fresh [] r h = (r, refl, sym (append-nil (names r)))
  must_register-fresh (c ∷ cs) r h =
      let absent : has c.name (names r) ≡ false = ground arith in
      let (q, e, n) = law.adds c r absent in
      let rest : fresh cs (names q) ≡ true = rw n (ground arith) in
      let (p, f, k) = must_register-fresh cs q rest in
      (
        p,
        rw (must_register, e) f,
        k ∙ rw n (append_assoc (names r) (c.name ∷ []) (collector_names cs)),
      )

  -- If the registry has one of the eleven names, registerMetrics panics. Else it registers them in
  -- the order of its call, and a second call on the same registry panics.
  pub register_metrics-once :
      (r : R)
      → ((taken collectors (names r) ≡ true) × (register_metrics register r ≡ none))
        ⊎ ((taken collectors (names r) ≡ false)
            × ((q : R) × (register_metrics register r ≡ some (q, new))
                × (names q ≡ names r ++ collector_names collectors)
                × (register_metrics register q ≡ none)))
  unfolding register_metrics
  register_metrics-once r = elim (Bool-cases (taken collectors (names r))) [
    | inl there ↦ inl (there, ap and_metrics (must_register-taken collectors r there))
    | inr absent ↦
        let (q, e, n) = must_register-fresh collectors r (fresh-names (names r) absent) in
        inr (
          absent,
          (
            q,
            ap and_metrics e,
            n,
            ap and_metrics (
                must_register-taken collectors q
                  (rw n (taken_self collectors (names r) (omega arith)))),
          ),
        )
  ]
