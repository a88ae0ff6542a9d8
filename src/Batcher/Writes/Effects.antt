-- ===== src/Batcher/Writes/Effects.antt =====
-- What a list of writes leaves in the log and in the collectors.
use mathlib.Core.List.{append-nil, append_assoc, filter_map, foldr}
use distri_inference_sidecar.Prelude.{
  ℕ, ◌+◌, ◌≡◌, refl, ap, sym, ◌∙◌, Option, none, some, List, [], ◌∷◌, ◌++◌, arith,
}
use distri_inference_sidecar.Metrics.{Metrics}
use distri_inference_sidecar.Batcher.Types.{Config, Request, Delivery, Out}
use distri_inference_sidecar.Batcher.Flush.{Env, flush_batch}
use distri_inference_sidecar.Batcher.Writes.{
  Write, sends, counts_success, counts_error, observes_latency, observes_size, apply, apply_all,
  flush_writes,
}
use distri_inference_sidecar.Batcher.Writes.Applied.{flush_batch-writes}

abbrev pub delivered : Write → Option Delivery
delivered (sends ch r) = some (ch, r)
delivered _ = none

abbrev pub latency_of : Write → Option ℕ
latency_of (observes_latency n) = some n
latency_of _ = none

abbrev pub size_of : Write → Option ℕ
size_of (observes_size n) = some n
size_of _ = none

abbrev pub add_success : Write → ℕ → ℕ
add_success counts_success n = n + 1
add_success _ n = n

abbrev pub add_error : Write → ℕ → ℕ
add_error counts_error n = n + 1
add_error _ n = n

-- The collectors that no flush writes.
abbrev pub others : Metrics → Metrics
others m = record m { infer_success = 0; infer_errors = 0; infer_latency = []; batch_size = [] }

pub record Effects (ws : List Write) (a b : Out) : Type 0 where
  pub sent : b.sent ≡ a.sent ++ filter_map delivered ws
  pub successes : b.metrics.infer_success ≡ foldr add_success a.metrics.infer_success ws
  pub errors : b.metrics.infer_errors ≡ foldr add_error a.metrics.infer_errors ws
  pub latencies : b.metrics.infer_latency ≡ a.metrics.infer_latency ++ filter_map latency_of ws
  pub sizes : b.metrics.batch_size ≡ a.metrics.batch_size ++ filter_map size_of ws
  pub kept : others b.metrics ≡ others a.metrics

foldr-add_success :
    (ws : List Write) (w : Write) (n : ℕ)
    → foldr add_success (add_success w n) ws ≡ add_success w (foldr add_success n ws)
foldr-add_success [] w n = refl
foldr-add_success (v ∷ ws) w n = ground (arith, foldr-add_success ws w n)

foldr-add_error :
    (ws : List Write) (w : Write) (n : ℕ)
    → foldr add_error (add_error w n) ws ≡ add_error w (foldr add_error n ws)
foldr-add_error [] w n = refl
foldr-add_error (v ∷ ws) w n = ground (arith, foldr-add_error ws w n)

pub apply_all-Effects : (ws : List Write) (out : Out) → Effects ws out (apply_all ws out)
unfolding filter_map
apply_all-Effects [] out = record {
  sent = sym (append-nil _);
  successes = refl;
  errors = refl;
  latencies = sym (append-nil _);
  sizes = sym (append-nil _);
  kept = refl;
}
apply_all-Effects (sends ch r ∷ ws) out =
    let h = apply_all-Effects ws (apply (sends ch r) out) in
    record {
      sent = h.sent ∙ append_assoc out.sent ((ch, r) ∷ []) (filter_map delivered ws);
      successes = h.successes;
      errors = h.errors;
      latencies = h.latencies;
      sizes = h.sizes;
      kept = h.kept;
    }
apply_all-Effects (counts_success ∷ ws) out =
    let h = apply_all-Effects ws (apply counts_success out) in
    record {
      sent = h.sent;
      successes = h.successes ∙ foldr-add_success ws counts_success out.metrics.infer_success;
      errors = h.errors;
      latencies = h.latencies;
      sizes = h.sizes;
      kept = h.kept;
    }
apply_all-Effects (counts_error ∷ ws) out =
    let h = apply_all-Effects ws (apply counts_error out) in
    record {
      sent = h.sent;
      successes = h.successes;
      errors = h.errors ∙ foldr-add_error ws counts_error out.metrics.infer_errors;
      latencies = h.latencies;
      sizes = h.sizes;
      kept = h.kept;
    }
apply_all-Effects (observes_latency n ∷ ws) out =
    let h = apply_all-Effects ws (apply (observes_latency n) out) in
    record {
      sent = h.sent;
      successes = h.successes;
      errors = h.errors;
      latencies =
          h.latencies ∙ append_assoc out.metrics.infer_latency (n ∷ []) (filter_map latency_of ws);
      sizes = h.sizes;
      kept = h.kept;
    }
apply_all-Effects (observes_size n ∷ ws) out =
    let h = apply_all-Effects ws (apply (observes_size n) out) in
    record {
      sent = h.sent;
      successes = h.successes;
      errors = h.errors;
      latencies = h.latencies;
      sizes = h.sizes ∙ append_assoc out.metrics.batch_size (n ∷ []) (filter_map size_of ws);
      kept = h.kept;
    }

-- A flush writes no other collector.
pub flush_batch-others :
    (env : Env) (cfg : Config) (batch : List Request) (out : Out)
    → others (flush_batch env cfg batch out).metrics ≡ others out.metrics
flush_batch-others env cfg batch out =
    ap (λ o. others o.metrics) (flush_batch-writes env cfg batch out)
    ∙ (apply_all-Effects (flush_writes env cfg batch) out).kept
