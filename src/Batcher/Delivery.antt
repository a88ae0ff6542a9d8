-- ===== src/Batcher/Delivery.antt =====
-- What flushBatch sends to the waiters of its batch, on every path through it.
use mathlib.Core.List.{map-append, append_assoc, append-nil, perm_middle, map-map}
use mathlib.Core.List.Perm
use distri_inference_sidecar.Prelude.{
  ℕ, ◌≡◌, refl, sym, ap, ◌∙◌, List, [], ◌∷◌, ◌++◌, map, Perm, Option-cases, inl, inr, Bool-cases,
  Bytes,
}
use distri_inference_sidecar.Errors.{GoError, Fallible, ok, err, ◌>>=◌}
use distri_inference_sidecar.Batcher.Types.{Config, Request, Delivery, SingleResult, Response, Out}
use distri_inference_sidecar.Batcher.ReqMap.{ReqMap}
use distri_inference_sidecar.Batcher.Flush.{
  Env, fail_request, fail_batch, cancelled, drop_cancelled, is_success, decoded, received,
  post_body, observe, flush_active, flush_batch,
}
use distri_inference_sidecar.Batcher.Answers.{
  take_result, answers, failed, live, abandoned, backend_answer, settle, owed, invalid, unavailable,
  check_status, is_success-range, fails_with,
}
use distri_inference_sidecar.Batcher.FanOut.{sent-deliver}

sent-fail_batch :
    (rs : List Request) (e : GoError) (out : Out)
    → (fail_batch rs e out).sent ≡ out.sent ++ map (failed e) rs
unfolding fail_batch fail_request
sent-fail_batch [] e out = sym (append-nil _)
sent-fail_batch (r ∷ rs) e out =
    sent-fail_batch rs e (fail_request r e out)
    ∙ append_assoc out.sent (failed e r ∷ []) (map (failed e) rs)

pub drop_cancelled-live :
    (env : Env) (rs : List Request) (out : Out) → (drop_cancelled env rs out).0 ≡ live env rs
unfolding drop_cancelled live
drop_cancelled-live env [] out = refl
drop_cancelled-live env (r ∷ rs) out = elim (Option-cases (cancelled env r)) [
  | inl e ↦ rw (e, drop_cancelled, live) (ap (λ qs. r ∷ qs) (drop_cancelled-live env rs out))
  | inr (x, e) ↦ rw (e, drop_cancelled, live) (drop_cancelled-live env rs (fail_request r x out))
]

sent-drop_cancelled :
    (env : Env) (rs : List Request) (out : Out)
    → (drop_cancelled env rs out).1.sent ≡ out.sent ++ abandoned env rs
unfolding drop_cancelled abandoned
sent-drop_cancelled env [] out = sym (append-nil _)
sent-drop_cancelled env (r ∷ rs) out = elim (Option-cases (cancelled env r)) [
  | inl e ↦ rw (e, drop_cancelled, abandoned) (sent-drop_cancelled env rs out)
  | inr (x, e) ↦
      rw (e, drop_cancelled, abandoned)
        (sent-drop_cancelled env rs (fail_request r x out)
          ∙ unfold fail_request in append_assoc out.sent (failed x r ∷ []) (abandoned env rs))
]

abbrev pub channels : List Delivery → List ℕ
channels = map (λ d. d.0)

settle-nil : (latency : ℕ) (a : Fallible (List SingleResult)) → settle latency [] a ≡ []
unfolding answers
settle-nil latency (ok results) = refl
settle-nil latency (err e) = refl

channels-answers :
    (latency : ℕ) (results : List SingleResult) (rs : List Request)
    → channels (answers latency results rs) ≡ map (λ r. r.result_ch) rs
unfolding answers
channels-answers latency results [] = refl
channels-answers latency results (r ∷ rs) =
    ap (λ cs. r.result_ch ∷ cs) (channels-answers latency (take_result r.id results).1 rs)

pub channels-settle :
    (latency : ℕ) (rs : List Request) (a : Fallible (List SingleResult))
    → channels (settle latency rs a) ≡ map (λ r. r.result_ch) rs
channels-settle latency rs (ok results) = channels-answers latency results rs
channels-settle latency rs (err e) = map-map _ _ rs

channels-split :
    (env : Env) (rs : List Request)
    → Perm
        (channels (abandoned env rs) ++ map (λ r. r.result_ch) (live env rs))
        (map (λ r. r.result_ch) rs)
unfolding abandoned live
channels-split env [] = Perm.nil
channels-split env (r ∷ rs) = elim (Option-cases (cancelled env r)) [
  | inl e ↦
      rw (e, abandoned, live)
        (Perm.trans (perm_middle _ _) (Perm.cons r.result_ch (channels-split env rs)))
  | inr (x, e) ↦ rw (e, abandoned, live) (Perm.cons r.result_ch (channels-split env rs))
]

channels-owed :
    (env : Env) (cfg : Config) (rs : List Request)
    → Perm (channels (owed env cfg rs)) (map (λ r. r.result_ch) rs)
unfolding owed
channels-owed env cfg rs =
    rw
      (
        map-append,
        channels-settle env.latency_ms (live env rs) (backend_answer env cfg (live env rs)),
      )
      (channels-split env rs)

-- The three stages behind the loops, each against the rest of the chain in `backend_answer`.
module _ (env : Env) (cfg : Config) (ranged : (m : ReqMap) → Perm (env.ranged m) m) where
  Sends : List Request → Out → Fallible (List SingleResult) → Out → Type 0
  Sends batch out answer out' = Perm out'.sent (out.sent ++ settle env.latency_ms batch answer)

  sent-failed :
      (batch : List Request) (e : GoError) (out : Out)
      → Sends batch out (err e) (fail_batch batch e out)
  unfolding Sends
  sent-failed batch e out = rw sent-fail_batch Perm.rfl

  sent-decoded :
      (batch : List Request) (d : Fallible (List SingleResult)) (out : Out)
      → Sends batch out (invalid d) (decoded env batch d out)
  unfolding decoded Sends
  sent-decoded batch (ok results) out = sent-deliver env ranged batch results out
  sent-decoded batch (err e) out = sent-failed batch _ out

  sent-received :
      (batch : List Request) (r : Fallible Response) (out : Out)
      → Sends batch out
          (unavailable r >>= λ resp.
            unavailable (check_status resp) >>= λ good. invalid (env.decode good.body))
          (received env batch r out)
  unfolding received Sends
  sent-received batch (err e) out = sent-failed batch _ out
  sent-received batch (ok resp) out = elim (Bool-cases (is_success resp)) [
    | inl good ↦
        rw (is_success-range resp, good, received) (sent-decoded batch (env.decode resp.body) out)
    | inr bad ↦ rw (is_success-range resp, bad, received) (sent-failed batch _ out)
  ]

  sent-post_body :
      (batch : List Request) (b : Fallible Bytes) (out : Out)
      → Sends batch out
          (invalid b >>= λ body.
            invalid (fails_with (env.request_err cfg.backend_url body)) >>= λ built.
            unavailable (env.post cfg.backend_url body) >>= λ resp.
            unavailable (check_status resp) >>= λ good. invalid (env.decode good.body))
          (post_body env cfg batch b out)
  unfolding post_body Sends
  sent-post_body batch (err e) out = sent-failed batch _ out
  sent-post_body batch (ok body) out = elim (Option-cases (env.request_err cfg.backend_url body)) [
    | inl e ↦
        rw (e, post_body)
          (sent-received batch (env.post cfg.backend_url body) (observe env batch out))
    | inr (x, e) ↦ rw (e, post_body) (sent-failed batch _ out)
  ]

  sent-flush_active :
      (batch : List Request) (out : Out)
      → Perm
          (flush_active env cfg batch out).sent
          (out.sent ++ settle env.latency_ms batch (backend_answer env cfg batch))
  unfolding flush_active backend_answer
  sent-flush_active [] out = rw (settle-nil, append-nil) Perm.rfl
  sent-flush_active (r ∷ rs) out = unfold Sends in sent-post_body (r ∷ rs) _ out

  -- A flush sends what it owes its batch and nothing else, whatever the backend does and in
  -- whichever order the map of waiters is ranged over: a context's error to each request whose
  -- context is done; to each other one the error of the first call in the chain that fails, or
  -- else its answer. The hypothesis on the environment is that a range over a map visits each of
  -- its entries once.
  pub flush_batch-owed :
      (batch : List Request) (out : Out)
      → Perm (flush_batch env cfg batch out).sent (out.sent ++ owed env cfg batch)
  unfolding flush_batch owed
  flush_batch-owed batch out = rw (drop_cancelled-live env batch out) (
      Perm.trans (sent-flush_active (live env batch) (drop_cancelled env batch out).1)
        (rw (sent-drop_cancelled env batch out, append_assoc) Perm.rfl))

  -- A flush sends exactly one result on the result channel of each request of its batch, on every
  -- path: requests that share an ID get one each, and a request for which the backend sends no
  -- result gets one too.
  pub flush_batch-once :
      (batch : List Request) (out : Out)
      → Perm
          (channels (flush_batch env cfg batch out).sent)
          (channels out.sent ++ map (λ r. r.result_ch) batch)
  flush_batch-once batch out =
      Perm.trans (Perm.map (λ d. d.0) (flush_batch-owed batch out))
        (rw map-append (Perm.append_left (channels out.sent) (channels-owed env cfg batch)))
