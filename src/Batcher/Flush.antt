-- ===== src/Batcher/Flush.antt =====
-- internal/batcher/batcher.go: flushBatch and what it calls. JSON, HTTP, the clock and the order
-- in which Go ranges over a map are the fields of `Env`.
use distri_inference_sidecar.Prelude.{
  ℕ, ◌+◌, Bool, ◌||◌, Option, none, some, List, [], ◌∷◌, ◌++◌, map, length, Bytes, codes,
  if◌then◌else◌,
}
use distri_inference_sidecar.Prelude.Int.{pos, ltb_ℤ, leb_ℤ, format_int}
use distri_inference_sidecar.Errors.{
  GoError, Fallible, ok, err, sentinel, plain, wrapped, errors_is, error_text,
  err_backend_unavailable, err_backend_response_invalid,
}
use distri_inference_sidecar.Batcher.Types.{
  Config, Request, Result, Out, SingleReq, SingleResult, Body, Response, send,
}
use distri_inference_sidecar.Batcher.ReqMap.{ReqMap, get, put, group}

-- What one flush meets outside the batcher.
pub record Env : Type 0 where
  -- `Ctx.Err()` when the flush looks at it.
  pub ctx_err : ℕ → Option GoError
  -- `json.Marshal` of the payload.
  pub marshal : List SingleReq → Fallible Bytes
  -- The error of `http.NewRequestWithContext` at a URL and a body.
  pub request_err : Bytes → Bytes → Option GoError
  -- `httpClient.Do` of a POST, the URL and the body given.
  pub post : Bytes → Bytes → Fallible Response
  -- `time.Since(start).Milliseconds()` after the call.
  pub latency_ms : ℕ
  -- `json.NewDecoder(body).Decode` into the results.
  pub decode : Body → Fallible (List SingleResult)
  -- The entries of a map in the order of one `range` loop.
  pub ranged : ReqMap → ReqMap

unfoldable pub wrap_unavailable : GoError → GoError
wrap_unavailable e =
    if errors_is e err_backend_unavailable
    then e
    else wrapped [] (sentinel err_backend_unavailable) (codes ": " ++ error_text e)

unfoldable pub wrap_response_invalid : GoError → GoError
wrap_response_invalid e =
    if errors_is e err_backend_response_invalid
    then e
    else wrapped [] (sentinel err_backend_response_invalid) (codes ": " ++ error_text e)

abbrev pub failure : GoError → Result
failure e = record { output_data = []; latency_ms = 0; err = some e }

abbrev pub count_error : Out → Out
count_error out = record out {
  metrics = record out.metrics { infer_errors = out.metrics.infer_errors + 1 };
}

abbrev pub count_success : Out → Out
count_success out = record out {
  metrics = record out.metrics { infer_success = out.metrics.infer_success + 1 };
}

unfoldable pub fail_request : Request → GoError → Out → Out
fail_request r e out = send (count_error out) r.result_ch (failure e)

unfoldable pub fail_batch : List Request → GoError → Out → Out
fail_batch [] e out = out
fail_batch (r ∷ rs) e out = fail_batch rs e (fail_request r e out)

-- `req.Ctx != nil` and then `req.Ctx.Err()`.
abbrev pub cancelled : Env → Request → Option GoError
cancelled env r = elim r.ctx [ none ↦ none | some c ↦ env.ctx_err c ]

-- The first loop: the requests still active, and what was written for the others.
unfoldable pub drop_cancelled : Env → List Request → Out → List Request × Out
drop_cancelled env [] out = ([], out)
drop_cancelled env (r ∷ rs) out = elim (cancelled env r) [
  | some e ↦ drop_cancelled env rs (fail_request r e out)
  | none ↦ let (active, out') = drop_cancelled env rs out in (r ∷ active, out')
]

abbrev pub single_req : Request → SingleReq
single_req r = record { id = r.id; input_data = r.input_data; model_name = r.model_name }

abbrev pub is_empty : Bytes → Bool
is_empty [] = Bool.true
is_empty (_ ∷ _) = Bool.false

-- What one item of the backend's answer sends to its waiter.
unfoldable pub reply : ℕ → SingleResult → Result
reply latency res =
    if is_empty res.error
    then record { output_data = res.output_data; latency_ms = latency; err = none }
    else failure (plain res.error)

unfoldable pub count_reply : SingleResult → Out → Out
count_reply res out = if is_empty res.error then count_success out else count_error out

-- The loop over the backend's results.
unfoldable pub fan_out : ℕ → List SingleResult → ReqMap → Out → ReqMap × Out
fan_out latency [] m out = (m, out)
fan_out latency (res ∷ results) m out = elim (get res.id m) [
  | [] ↦ fan_out latency results m out
  | r ∷ rs ↦
      fan_out latency results (put res.id rs m)
        (send (count_reply res out) r.result_ch (reply latency res))
]

abbrev pub missing : Bytes → GoError
missing id = plain (codes "missing backend result for request id " ++ id)

unfoldable pub fail_entry : Bytes → List Request → Out → Out
unfolding fail_request
fail_entry id [] out = out
fail_entry id (r ∷ rs) out = fail_entry id rs (fail_request r (missing id) out)

-- The loop over the map that is left.
unfoldable pub fail_missing : ReqMap → Out → Out
unfolding fail_entry
fail_missing [] out = out
fail_missing ((id, rs) ∷ m) out = fail_missing m (fail_entry id rs out)

unfoldable pub deliver : Env → List Request → List SingleResult → Out → Out
unfolding fan_out fail_missing
deliver env batch results out =
    let (m, out') = fan_out env.latency_ms results (group batch) out in
    fail_missing (env.ranged m) out'

-- The error for a status outside 200 to 299, with the body as far as it could be read.
unfoldable pub status_error : Response → GoError
status_error resp = plain (
    codes "backend returned status "
    ++ (format_int resp.status_code ++ (codes ": " ++ resp.body.bytes)))

abbrev pub is_success : Response → Bool
is_success resp =
    if ltb_ℤ resp.status_code (pos 200) || leb_ℤ (pos 300) resp.status_code
    then Bool.false
    else Bool.true

unfoldable pub decoded : Env → List Request → Fallible (List SingleResult) → Out → Out
unfolding deliver fail_batch
decoded env batch (err e) out = fail_batch batch (wrap_response_invalid e) out
decoded env batch (ok results) out = deliver env batch results out

unfoldable pub received : Env → List Request → Fallible Response → Out → Out
unfolding decoded fail_batch
received env batch (err e) out = fail_batch batch (wrap_unavailable e) out
received env batch (ok resp) out =
    if is_success resp
    then decoded env batch (env.decode resp.body) out
    else fail_batch batch (wrap_unavailable (status_error resp)) out

-- The two histograms.
abbrev pub observe : Env → List Request → Out → Out
observe env batch out = record out {
  metrics = record out.metrics {
    infer_latency = out.metrics.infer_latency ++ env.latency_ms ∷ [];
    batch_size = out.metrics.batch_size ++ length batch ∷ [];
  };
}

unfoldable pub post_body : Env → Config → List Request → Fallible Bytes → Out → Out
unfolding received fail_batch
post_body env cfg batch (err e) out = fail_batch batch (wrap_response_invalid e) out
post_body env cfg batch (ok body) out = elim (env.request_err cfg.backend_url body) [
  | some e ↦ fail_batch batch (wrap_response_invalid e) out
  | none ↦ received env batch (env.post cfg.backend_url body) (observe env batch out)
]

unfoldable pub flush_active : Env → Config → List Request → Out → Out
unfolding post_body
flush_active env cfg [] out = out
flush_active env cfg (r ∷ rs) out =
    post_body env cfg (r ∷ rs) (env.marshal (map single_req (r ∷ rs))) out

unfoldable pub flush_batch : Env → Config → List Request → Out → Out
unfolding drop_cancelled flush_active
flush_batch env cfg batch out =
    let (active, out') = drop_cancelled env batch out in flush_active env cfg active out'
