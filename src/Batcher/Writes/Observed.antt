-- ===== src/Batcher/Writes/Observed.antt =====
-- What a flush observes in the two histograms.
use mathlib.Core.List.{append-nil}
use distri_inference_sidecar.Prelude.{
  ℕ, ◌≡◌, refl, sym, ap, ◌∙◌, Bool, true, false, Option, none, some, List, [], ◌∷◌, ◌++◌, map,
  length, Bytes, Option-cases, List-cases, Bool-cases, inl, inr, arith,
}
use distri_inference_sidecar.Errors.{GoError, Fallible, ok, err}
use distri_inference_sidecar.Batcher.Types.{Config, Request, SingleResult, Response, Out, send}
use distri_inference_sidecar.Batcher.ReqMap.{ReqMap, get, put, group}
use distri_inference_sidecar.Batcher.Answers.{live}
use distri_inference_sidecar.Batcher.Delivery.{drop_cancelled-live}
use distri_inference_sidecar.Batcher.Flush.{
  Env, wrap_unavailable, wrap_response_invalid, fail_request, fail_batch, cancelled, drop_cancelled,
  single_req, reply, count_reply, fan_out, missing, fail_entry, fail_missing, deliver, status_error,
  is_success, decoded, received, observe, post_body, flush_active, flush_batch,
}

-- A call of the backend is made with a payload that is encoded and a request that is built.
abbrev sends_post : Fallible Bytes → (Bytes → Option GoError) → Bool
sends_post (err e) f = false
sends_post (ok body) f = elim (f body) [ none ↦ true | some e ↦ false ]

-- Whether a flush calls the backend: it does for some request whose context is not done.
abbrev pub posts : Env → Config → List Request → Bool
posts env cfg [] = false
posts env cfg (r ∷ rs) =
    sends_post (env.marshal (map single_req (r ∷ rs))) (env.request_err cfg.backend_url)

abbrev pub latencies_if : Bool → ℕ → List ℕ
latencies_if true n = n ∷ []
latencies_if false n = []

abbrev pub histograms : Out → List ℕ × List ℕ
histograms out = (out.metrics.infer_latency, out.metrics.batch_size)

abbrev pub observed : Bool → ℕ → ℕ → Out → List ℕ × List ℕ
observed called latency size out = (
  out.metrics.infer_latency ++ latencies_if called latency,
  out.metrics.batch_size ++ latencies_if called size,
)

observed-none : (latency size : ℕ) (out : Out) → observed false latency size out ≡ histograms out
observed-none latency size out =
    rw (append-nil out.metrics.infer_latency, append-nil out.metrics.batch_size)

fail_batch-histograms :
    (rs : List Request) (e : GoError) (out : Out)
    → histograms (fail_batch rs e out) ≡ histograms out
unfolding fail_batch fail_request
fail_batch-histograms [] e out = refl
fail_batch-histograms (r ∷ rs) e out = fail_batch-histograms rs e (fail_request r e out)

drop_cancelled-histograms :
    (env : Env) (rs : List Request) (out : Out)
    → histograms (drop_cancelled env rs out).1 ≡ histograms out
unfolding drop_cancelled fail_request
drop_cancelled-histograms env [] out = refl
drop_cancelled-histograms env (r ∷ rs) out = elim (Option-cases (cancelled env r)) [
  | inl e ↦ rw (e, drop_cancelled) (drop_cancelled-histograms env rs out)
  | inr (x, e) ↦ rw (e, drop_cancelled) (drop_cancelled-histograms env rs (fail_request r x out))
]

count_reply-histograms :
    (res : SingleResult) (out : Out) → histograms (count_reply res out) ≡ histograms out
unfolding count_reply
count_reply-histograms res out = ground arith

fan_out-histograms :
    (latency : ℕ) (results : List SingleResult) (m : ReqMap) (out : Out)
    → histograms (fan_out latency results m out).1 ≡ histograms out
unfolding fan_out
fan_out-histograms latency [] m out = refl
fan_out-histograms latency (res ∷ results) m out = elim (List-cases (get res.id m)) [
  | inl e ↦ rw (e, fan_out) (fan_out-histograms latency results m out)
  | inr (r, rs, e) ↦
      rw (e, fan_out)
        (fan_out-histograms latency results (put res.id rs m)
            (send (count_reply res out) r.result_ch (reply latency res))
          ∙ count_reply-histograms res out)
]

fail_entry-histograms :
    (id : Bytes) (rs : List Request) (out : Out)
    → histograms (fail_entry id rs out) ≡ histograms out
unfolding fail_entry fail_request
fail_entry-histograms id [] out = refl
fail_entry-histograms id (r ∷ rs) out =
    fail_entry-histograms id rs (fail_request r (missing id) out)

fail_missing-histograms :
    (m : ReqMap) (out : Out) → histograms (fail_missing m out) ≡ histograms out
unfolding fail_missing
fail_missing-histograms [] out = refl
fail_missing-histograms ((id, rs) ∷ m) out =
    fail_missing-histograms m (fail_entry id rs out) ∙ fail_entry-histograms id rs out

decoded-histograms :
    (env : Env) (batch : List Request) (d : Fallible (List SingleResult)) (out : Out)
    → histograms (decoded env batch d out) ≡ histograms out
unfolding decoded deliver
decoded-histograms env batch (err e) out = fail_batch-histograms batch (wrap_response_invalid e) out
decoded-histograms env batch (ok results) out =
    fail_missing-histograms (env.ranged (fan_out env.latency_ms results (group batch) out).0) _
    ∙ fan_out-histograms env.latency_ms results (group batch) out

received-histograms :
    (env : Env) (batch : List Request) (r : Fallible Response) (out : Out)
    → histograms (received env batch r out) ≡ histograms out
unfolding received
received-histograms env batch (err e) out = fail_batch-histograms batch (wrap_unavailable e) out
received-histograms env batch (ok resp) out = elim (Bool-cases (is_success resp)) [
  | inl good ↦ rw (good, received) (decoded-histograms env batch (env.decode resp.body) out)
  | inr bad ↦
      rw (bad, received) (fail_batch-histograms batch (wrap_unavailable (status_error resp)) out)
]

sends_post-built :
    (body : Bytes) (f : Bytes → Option GoError) → f body ≡ none → sends_post (ok body) f ≡ true
sends_post-built body f e = rw (e, sends_post)

sends_post-unbuilt :
    (body : Bytes) (f : Bytes → Option GoError) {x : GoError}
    → f body ≡ some x
    → sends_post (ok body) f ≡ false
sends_post-unbuilt body f e = rw (e, sends_post)

post_body-histograms :
    (env : Env) (cfg : Config) (batch : List Request) (b : Fallible Bytes) (out : Out)
    → histograms (post_body env cfg batch b out)
      ≡ observed (sends_post b (env.request_err cfg.backend_url)) env.latency_ms (length batch) out
unfolding post_body
post_body-histograms env cfg batch (err e) out =
    fail_batch-histograms batch (wrap_response_invalid e) out
    ∙ sym (observed-none env.latency_ms (length batch) out)
post_body-histograms env cfg batch (ok body) out =
    elim (Option-cases (env.request_err cfg.backend_url body)) [
      | inl e ↦
          rw (e, post_body)
            (received-histograms env batch (env.post cfg.backend_url body) (observe env batch out)
              ∙ ap (λ c. observed c env.latency_ms (length batch) out)
                  (sym (sends_post-built body (env.request_err cfg.backend_url) e)))
      | inr (x, e) ↦
          rw (e, post_body)
            (fail_batch-histograms batch (wrap_response_invalid x) out
              ∙ sym (observed-none env.latency_ms (length batch) out)
              ∙ ap (λ c. observed c env.latency_ms (length batch) out)
                  (sym (sends_post-unbuilt body (env.request_err cfg.backend_url) e)))
    ]

flush_active-histograms :
    (env : Env) (cfg : Config) (batch : List Request) (out : Out)
    → histograms (flush_active env cfg batch out)
      ≡ observed (posts env cfg batch) env.latency_ms (length batch) out
unfolding flush_active
flush_active-histograms env cfg [] out = sym (observed-none env.latency_ms 0 out)
flush_active-histograms env cfg (r ∷ rs) out = post_body-histograms env cfg (r ∷ rs) _ out

-- A flush observes its latency and the number of its live requests, if it calls the backend.
pub flush_batch-histograms :
    (env : Env) (cfg : Config) (batch : List Request) (out : Out)
    → histograms (flush_batch env cfg batch out)
      ≡ observed (posts env cfg (live env batch)) env.latency_ms (length (live env batch)) out
unfolding flush_batch
flush_batch-histograms env cfg batch out =
    let kept = drop_cancelled-histograms env batch out in
    rw (drop_cancelled-live env batch out) (
      flush_active-histograms env cfg (live env batch) (drop_cancelled env batch out).1
      ∙ ap
          (λ h. (
            h.0 ++ latencies_if (posts env cfg (live env batch)) env.latency_ms,
            h.1 ++ latencies_if (posts env cfg (live env batch)) (length (live env batch)),
          ))
          kept)
