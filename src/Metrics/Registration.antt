-- ===== src/Metrics/Registration.antt =====
-- internal/metrics/metrics.go: registerMetrics, New and NewForTest. A registry of the Prometheus
-- library is taken by its documentation: MustRegister registers its arguments in their order, and
-- panics at the first whose name is registered already.
pub mod Once
use mathlib.Core.List.{append-nil, append_assoc}
use distri_inference_sidecar.Prelude.{
  ℕ, ◌≡◌, refl, ap, sym, subst, ◌∙◌, Bool, true, false, not, ◌&&◌, ◌||◌, Option, none, some, List,
  [], ◌∷◌, ◌++◌, ◌⊎◌, inl, inr, map, Bytes, codes, bytes_eq, bytes_eq_refl, Bool-cases, arith,
}
use distri_inference_sidecar.Metrics.{Metrics, new}

-- The buckets of a histogram, in thousandths, and the label of a vector.
pub data Kind : Type 0 where
  histogram : List ℕ → Kind
  counter gauge : Kind
  gauge_vec : Bytes → Kind

pub record Collector : Type 0 where
  pub kind : Kind
  pub name : Bytes
  pub help : Bytes

abbrev collector : Kind → Bytes → Bytes → Collector
collector kind name help = record { kind = kind; name = name; help = help }

abbrev infer_latency : Collector
infer_latency =
    collector (histogram (10000 ∷ 50000 ∷ 100000 ∷ 200000 ∷ 500000 ∷ 1000000 ∷ 2000000 ∷ []))
      (codes "infer_latency_ms") (codes "End-to-end inference latency in milliseconds")

abbrev batch_size : Collector
batch_size =
    collector (histogram (1000 ∷ 4000 ∷ 8000 ∷ 16000 ∷ 32000 ∷ [])) (codes "batch_size")
      (codes "Number of requests per batch flush")

abbrev circuit_breaker_trips : Collector
circuit_breaker_trips =
    collector counter (codes "circuit_breaker_trips_total")
      (codes "Requests rejected by VRAM guard")

abbrev vram_used_mb : Collector
vram_used_mb = collector gauge (codes "vram_used_mb") (codes "Current GPU VRAM usage in MB")

abbrev rejected_requests : Collector
rejected_requests =
    collector counter (codes "rejected_requests_total") (codes "Requests rejected by the tokenizer")

abbrev vram_poll_duration : Collector
vram_poll_duration =
    collector
      (histogram (100 ∷ 250 ∷ 500 ∷ 1000 ∷ 2000 ∷ 5000 ∷ 10000 ∷ 20000 ∷ 50000 ∷ 100000 ∷ []))
      (codes "vram_poll_duration_ms") (codes "Duration of VRAM polling operation in milliseconds")

abbrev vram_poll_errors : Collector
vram_poll_errors =
    collector counter (codes "vram_poll_errors_total")
      (codes "Total errors encountered during VRAM polling")

abbrev vram_reader_mode : Collector
vram_reader_mode =
    collector (gauge_vec (codes "mode")) (codes "vram_reader_mode")
      (codes "Active VRAM reader mode (1 active, 0 inactive)")

abbrev infer_success : Collector
infer_success =
    collector counter (codes "infer_success_total")
      (codes "Total successful inference results returned to callers")

abbrev infer_errors : Collector
infer_errors =
    collector counter (codes "infer_errors_total")
      (codes "Total inference errors returned to callers")

abbrev queue_rejects : Collector
queue_rejects =
    collector counter (codes "queue_rejects_total")
      (codes "Requests rejected because the batch queue is full")

-- In the order of MustRegister.
abbrev pub collectors : List Collector
collectors =
    infer_latency ∷ batch_size ∷ circuit_breaker_trips ∷ vram_used_mb ∷ rejected_requests
    ∷ vram_poll_duration ∷ vram_poll_errors ∷ vram_reader_mode ∷ infer_success ∷ infer_errors
    ∷ queue_rejects ∷ []

abbrev pub has : Bytes → List Bytes → Bool
has n [] = false
has n (m ∷ ms) = bytes_eq n m || has n ms

-- Some of the names is among those.
abbrev pub taken : List Collector → List Bytes → Bool
taken [] ns = false
taken (c ∷ cs) ns = has c.name ns || taken cs ns

abbrev pub collector_names : List Collector → List Bytes
collector_names = map (λ c. c.name)

-- What the library documents of a registry. `register` is `none` where MustRegister panics.
pub record IsRegistry {R : Type 0} (register : Collector → R → Option R) (names : R → List Bytes)
    : Type 0 where
  pub refuses : (c : Collector) (r : R) → has c.name (names r) ≡ true → register c r ≡ none
  pub adds :
      (c : Collector) (r : R)
      → has c.name (names r) ≡ false
      → (q : R) × (register c r ≡ some q) × (names q ≡ names r ++ c.name ∷ [])

unfoldable pub must_register :
    {R : Type 0} → (Collector → R → Option R) → List Collector → R → Option R
must_register register [] r = some r
must_register register (c ∷ cs) r = elim (register c r) [
  | none ↦ none
  | some q ↦ must_register register cs q
]

abbrev pub and_metrics : {R : Type 0} → Option R → Option (R × Metrics)
and_metrics none = none
and_metrics (some r) = some (r, new)

unfoldable pub register_metrics :
    {R : Type 0} → (Collector → R → Option R) → R → Option (R × Metrics)
unfolding must_register
register_metrics register r = and_metrics (must_register register collectors r)
