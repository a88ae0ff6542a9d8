-- ===== src/Tests/Registries.antt =====
-- A registry that is the list of its names.
use distri_inference_sidecar.Prelude.{
  ◌≡◌, refl, false, true, Option, none, some, List, [], ◌∷◌, ◌++◌, ◌⊎◌, Bytes, codes, if◌then◌else◌,
}
use distri_inference_sidecar.Metrics
use distri_inference_sidecar.Metrics.Registration.{
  Collector, collectors, has, taken, collector_names, IsRegistry, register_metrics,
}
use distri_inference_sidecar.Metrics.Registration.Once.{register_metrics-once}

abbrev add_name : Collector → List Bytes → Option (List Bytes)
add_name c ns = if has c.name ns then none else some (ns ++ c.name ∷ [])

add_name-IsRegistry : IsRegistry add_name (λ ns. ns)
add_name-IsRegistry = record {
  refuses = λ c ns h. rw h refl;
  adds = λ c ns h. (ns ++ c.name ∷ [], rw h refl, refl);
}

abbrev names : List Bytes
names = codes "go_goroutines" ∷ []

register_metrics-once_example :
    ((taken collectors names ≡ true) × (register_metrics add_name names ≡ none))
    ⊎ ((taken collectors names ≡ false)
        × ((q : List Bytes) × (register_metrics add_name names ≡ some (q, Metrics.new))
            × (q ≡ names ++ collector_names collectors)
            × (register_metrics add_name q ≡ none)))
register_metrics-once_example = register_metrics-once add_name (λ ns. ns) add_name-IsRegistry names
