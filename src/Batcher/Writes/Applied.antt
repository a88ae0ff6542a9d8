-- ===== src/Batcher/Writes/Applied.antt =====
-- That flushBatch is the list of its writes.
use distri_inference_sidecar.Prelude.{
  ℕ, ◌≡◌, refl, ap, sym, ◌∙◌, List, [], ◌∷◌, Bytes, Option-cases, List-cases, Bool-cases, inl, inr,
  arith,
}
use distri_inference_sidecar.Errors.{GoError, Fallible, ok, err}
use distri_inference_sidecar.Batcher.Types.{Config, Request, SingleResult, Response, Out, send}
use distri_inference_sidecar.Batcher.ReqMap.{ReqMap, get, put, group}
use distri_inference_sidecar.Batcher.Answers.{live}
use distri_inference_sidecar.Batcher.Delivery.{drop_cancelled-live}
use distri_inference_sidecar.Batcher.Flush.{
  Env, wrap_unavailable, wrap_response_invalid, fail_request, fail_batch, cancelled, drop_cancelled,
  reply, count_reply, fan_out, missing, fail_entry, fail_missing, deliver, status_error, is_success,
  decoded, received, observe, post_body, flush_active, flush_batch,
}
use distri_inference_sidecar.Batcher.Writes.{
  Write, apply, apply_all, apply_all-append, batch_writes, cancelled_writes, count_write,
  fan_out_writes, missing_writes, deliver_writes, decoded_writes, received_writes, post_writes,
  active_writes, flush_writes,
}

fail_batch-writes :
    (rs : List Request) (e : GoError) (out : Out)
    → fail_batch rs e out ≡ apply_all (batch_writes rs e) out
unfolding fail_batch batch_writes fail_request
fail_batch-writes [] e out = refl
fail_batch-writes (r ∷ rs) e out = fail_batch-writes rs e (fail_request r e out)

drop_cancelled-writes :
    (env : Env) (rs : List Request) (out : Out)
    → (drop_cancelled env rs out).1 ≡ apply_all (cancelled_writes env rs) out
unfolding drop_cancelled cancelled_writes fail_request
drop_cancelled-writes env [] out = refl
drop_cancelled-writes env (r ∷ rs) out = elim (Option-cases (cancelled env r)) [
  | inl e ↦ rw (e, drop_cancelled, cancelled_writes) (drop_cancelled-writes env rs out)
  | inr (x, e) ↦
      rw (e, drop_cancelled, cancelled_writes) (drop_cancelled-writes env rs (fail_request r x out))
]

count_reply-write :
    (res : SingleResult) (out : Out) → count_reply res out ≡ apply (count_write res) out
unfolding count_reply
count_reply-write res out = ground arith

abbrev fan_out_applied : Out → ReqMap × List Write → ReqMap × Out
fan_out_applied out (m, ws) = (m, apply_all ws out)

fan_out-writes :
    (latency : ℕ) (results : List SingleResult) (m : ReqMap) (out : Out)
    → fan_out latency results m out ≡ fan_out_applied out (fan_out_writes latency results m)
unfolding fan_out fan_out_writes
fan_out-writes latency [] m out = refl
fan_out-writes latency (res ∷ results) m out = elim (List-cases (get res.id m)) [
  | inl e ↦ rw (e, fan_out, fan_out_writes) (fan_out-writes latency results m out)
  | inr (r, rs, e) ↦
      rw (e, fan_out, fan_out_writes)
        (rw count_reply-write (
          fan_out-writes latency results (put res.id rs m)
            (send (apply (count_write res) out) r.result_ch (reply latency res))))
]

fail_entry-writes :
    (id : Bytes) (rs : List Request) (out : Out)
    → fail_entry id rs out ≡ apply_all (batch_writes rs (missing id)) out
unfolding fail_entry fail_request batch_writes
fail_entry-writes id [] out = refl
fail_entry-writes id (r ∷ rs) out = fail_entry-writes id rs (fail_request r (missing id) out)

fail_missing-writes :
    (m : ReqMap) (out : Out) → fail_missing m out ≡ apply_all (missing_writes m) out
unfolding fail_missing missing_writes
fail_missing-writes [] out = refl
fail_missing-writes ((id, rs) ∷ m) out =
    fail_missing-writes m (fail_entry id rs out)
    ∙ ap (apply_all (missing_writes m)) (fail_entry-writes id rs out)
    ∙ sym (apply_all-append (batch_writes rs (missing id)) (missing_writes m) out)

deliver-writes :
    (env : Env) (batch : List Request) (results : List SingleResult) (out : Out)
    → deliver env batch results out ≡ apply_all (deliver_writes env batch results) out
unfolding deliver deliver_writes
deliver-writes env batch results out =
    let left = fan_out_writes env.latency_ms results (group batch) in
    rw (fan_out-writes env.latency_ms results (group batch) out) (
      fail_missing-writes (env.ranged left.0) (apply_all left.1 out)
      ∙ sym (apply_all-append left.1 (missing_writes (env.ranged left.0)) out))

decoded-writes :
    (env : Env) (batch : List Request) (d : Fallible (List SingleResult)) (out : Out)
    → decoded env batch d out ≡ apply_all (decoded_writes env batch d) out
unfolding decoded decoded_writes
decoded-writes env batch (err e) out = fail_batch-writes batch (wrap_response_invalid e) out
decoded-writes env batch (ok results) out = deliver-writes env batch results out

received-writes :
    (env : Env) (batch : List Request) (r : Fallible Response) (out : Out)
    → received env batch r out ≡ apply_all (received_writes env batch r) out
unfolding received received_writes
received-writes env batch (err e) out = fail_batch-writes batch (wrap_unavailable e) out
received-writes env batch (ok resp) out = elim (Bool-cases (is_success resp)) [
  | inl good ↦ rw good (decoded-writes env batch (env.decode resp.body) out)
  | inr bad ↦ rw bad (fail_batch-writes batch (wrap_unavailable (status_error resp)) out)
]

post_body-writes :
    (env : Env) (cfg : Config) (batch : List Request) (b : Fallible Bytes) (out : Out)
    → post_body env cfg batch b out ≡ apply_all (post_writes env cfg batch b) out
unfolding post_body post_writes
post_body-writes env cfg batch (err e) out = fail_batch-writes batch (wrap_response_invalid e) out
post_body-writes env cfg batch (ok body) out =
    elim (Option-cases (env.request_err cfg.backend_url body)) [
      | inl e ↦
          rw (e, post_body, post_writes)
            (received-writes env batch (env.post cfg.backend_url body) (observe env batch out))
      | inr (x, e) ↦
          rw (e, post_body, post_writes) (fail_batch-writes batch (wrap_response_invalid x) out)
    ]

flush_active-writes :
    (env : Env) (cfg : Config) (batch : List Request) (out : Out)
    → flush_active env cfg batch out ≡ apply_all (active_writes env cfg batch) out
unfolding flush_active active_writes
flush_active-writes env cfg [] out = refl
flush_active-writes env cfg (r ∷ rs) out = post_body-writes env cfg (r ∷ rs) _ out

-- A flush is its writes, one after the other.
pub flush_batch-writes :
    (env : Env) (cfg : Config) (batch : List Request) (out : Out)
    → flush_batch env cfg batch out ≡ apply_all (flush_writes env cfg batch) out
unfolding flush_batch flush_writes
flush_batch-writes env cfg batch out = rw (drop_cancelled-live env batch out) (
    flush_active-writes env cfg (live env batch) (drop_cancelled env batch out).1
    ∙ ap (apply_all (active_writes env cfg (live env batch))) (drop_cancelled-writes env batch out)
    ∙ sym (
        apply_all-append (cancelled_writes env batch) (active_writes env cfg (live env batch)) out))
