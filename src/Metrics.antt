-- ===== src/Metrics.antt =====
-- internal/metrics/metrics.go: the collectors of `Metrics`. A counter is its count, a histogram is
-- the list of its observations, newest last.
pub mod Registration
use distri_inference_sidecar.Prelude.{ℕ, ◌+◌, List, [], ◌∷◌, Bytes, bytes_eq, if◌then◌else◌}

pub record Metrics : Type 0 where
  pub infer_latency : List ℕ
  pub batch_size : List ℕ
  pub circuit_breaker_trips : ℕ
  pub rejected_requests : ℕ
  -- In microseconds; the program divides by 1000 as it observes.
  pub vram_poll_duration : List ℕ
  pub vram_poll_errors : ℕ
  -- The value of each label that was set.
  pub vram_reader_mode : List (Bytes × ℕ)
  pub infer_success : ℕ
  pub infer_errors : ℕ
  pub queue_rejects : ℕ

-- `WithLabelValues(label).Set(v)`.
unfoldable pub set_label : Bytes → ℕ → List (Bytes × ℕ) → List (Bytes × ℕ)
set_label label v [] = (label, v) ∷ []
set_label label v ((l, w) ∷ ls) =
    let rest = set_label label v ls in if bytes_eq l label then (label, v) ∷ ls else (l, w) ∷ rest

-- `RejectedRequests.Inc()`, by Infer.
abbrev pub count_rejected : Metrics → Metrics
count_rejected m = record m { rejected_requests = m.rejected_requests + 1 }

-- A fresh registry: every collector at zero.
abbrev pub new : Metrics
new = record {
  infer_latency = [];
  batch_size = [];
  circuit_breaker_trips = 0;
  rejected_requests = 0;
  vram_poll_duration = [];
  vram_poll_errors = 0;
  vram_reader_mode = [];
  infer_success = 0;
  infer_errors = 0;
  queue_rejects = 0;
}
