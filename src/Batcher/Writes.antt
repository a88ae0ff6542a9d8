-- ===== src/Batcher/Writes.antt =====
-- internal/batcher/batcher.go: flushBatch as the list of its writes to what the goroutines share, a
-- send or the update of one collector each, in its own order.
pub mod Applied
pub mod Effects
pub mod Interleaving
pub mod Observed
pub mod Together
use distri_inference_sidecar.Prelude.{
  ℕ, ◌+◌, ◌≡◌, refl, ap, sym, ◌∙◌, Option, none, some, List, [], ◌∷◌, ◌++◌, map, length, Bytes,
  Option-cases, List-cases, Bool-cases, inl, inr, if◌then◌else◌, arith,
}
use distri_inference_sidecar.Errors.{GoError, Fallible, ok, err}
use distri_inference_sidecar.Batcher.Types.{
  Config, Request, Result, SingleResult, Response, Out, send,
}
use distri_inference_sidecar.Batcher.ReqMap.{ReqMap, get, put, group}
use distri_inference_sidecar.Batcher.Answers.{live}
use distri_inference_sidecar.Batcher.Delivery.{drop_cancelled-live}
use distri_inference_sidecar.Batcher.Flush.{
  Env, wrap_unavailable, wrap_response_invalid, failure, count_error, count_success, fail_request,
  fail_batch, cancelled, drop_cancelled, single_req, is_empty, reply, count_reply, fan_out, missing,
  fail_entry, fail_missing, deliver, status_error, is_success, decoded, received, observe,
  post_body, flush_active, flush_batch,
}

pub data Write : Type 0 where
  sends : ℕ → Result → Write
  counts_success counts_error : Write
  observes_latency observes_size : ℕ → Write

abbrev pub apply : Write → Out → Out
apply (sends ch r) out = send out ch r
apply counts_success out = count_success out
apply counts_error out = count_error out
apply (observes_latency n) out = record out {
  metrics = record out.metrics { infer_latency = out.metrics.infer_latency ++ n ∷ [] };
}
apply (observes_size n) out = record out {
  metrics = record out.metrics { batch_size = out.metrics.batch_size ++ n ∷ [] };
}

abbrev pub apply_all : List Write → Out → Out
apply_all [] out = out
apply_all (w ∷ ws) out = apply_all ws (apply w out)

pub apply_all-append :
    (ws vs : List Write) (out : Out) → apply_all (ws ++ vs) out ≡ apply_all vs (apply_all ws out)
apply_all-append [] vs out = refl
apply_all-append (w ∷ ws) vs out = apply_all-append ws vs (apply w out)

abbrev pub fail_writes : Request → GoError → List Write
fail_writes r e = counts_error ∷ sends r.result_ch (failure e) ∷ []

unfoldable pub batch_writes : List Request → GoError → List Write
batch_writes [] e = []
batch_writes (r ∷ rs) e = fail_writes r e ++ batch_writes rs e

unfoldable pub cancelled_writes : Env → List Request → List Write
cancelled_writes env [] = []
cancelled_writes env (r ∷ rs) = elim (cancelled env r) [
  | some e ↦ fail_writes r e ++ cancelled_writes env rs
  | none ↦ cancelled_writes env rs
]

abbrev pub count_write : SingleResult → Write
count_write res = if is_empty res.error then counts_success else counts_error

-- The writes of the loop over the results, and the map that it leaves.
unfoldable pub fan_out_writes : ℕ → List SingleResult → ReqMap → ReqMap × List Write
unfolding reply
fan_out_writes latency [] m = (m, [])
fan_out_writes latency (res ∷ results) m = elim (get res.id m) [
  | [] ↦ fan_out_writes latency results m
  | r ∷ rs ↦
      let (n, ws) = fan_out_writes latency results (put res.id rs m) in
      (n, count_write res ∷ sends r.result_ch (reply latency res) ∷ ws)
]

unfoldable pub missing_writes : ReqMap → List Write
unfolding batch_writes
missing_writes [] = []
missing_writes ((id, rs) ∷ m) = batch_writes rs (missing id) ++ missing_writes m

unfoldable pub deliver_writes : Env → List Request → List SingleResult → List Write
unfolding fan_out_writes missing_writes
deliver_writes env batch results =
    let (m, ws) = fan_out_writes env.latency_ms results (group batch) in
    ws ++ missing_writes (env.ranged m)

unfoldable pub decoded_writes : Env → List Request → Fallible (List SingleResult) → List Write
unfolding deliver_writes batch_writes
decoded_writes env batch (err e) = batch_writes batch (wrap_response_invalid e)
decoded_writes env batch (ok results) = deliver_writes env batch results

unfoldable pub received_writes : Env → List Request → Fallible Response → List Write
unfolding decoded_writes batch_writes
received_writes env batch (err e) = batch_writes batch (wrap_unavailable e)
received_writes env batch (ok resp) =
    if is_success resp
    then decoded_writes env batch (env.decode resp.body)
    else batch_writes batch (wrap_unavailable (status_error resp))

unfoldable pub post_writes : Env → Config → List Request → Fallible Bytes → List Write
unfolding received_writes batch_writes
post_writes env cfg batch (err e) = batch_writes batch (wrap_response_invalid e)
post_writes env cfg batch (ok body) = elim (env.request_err cfg.backend_url body) [
  | some e ↦ batch_writes batch (wrap_response_invalid e)
  | none ↦
      observes_latency env.latency_ms
      ∷ observes_size (length batch)
      ∷ received_writes env batch (env.post cfg.backend_url body)
]

unfoldable pub active_writes : Env → Config → List Request → List Write
unfolding post_writes
active_writes env cfg [] = []
active_writes env cfg (r ∷ rs) =
    post_writes env cfg (r ∷ rs) (env.marshal (map single_req (r ∷ rs)))

unfoldable pub flush_writes : Env → Config → List Request → List Write
unfolding cancelled_writes active_writes
flush_writes env cfg batch = cancelled_writes env batch ++ active_writes env cfg (live env batch)
