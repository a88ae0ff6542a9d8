-- ===== src/Batcher/Answers.antt =====
-- What a flush owes its waiters, said request by request and with no map: a description of
-- flushBatch that is independent of its loops.
use distri_inference_sidecar.Prelude.{
  ℕ, ◌≡◌, Bool, true, false, ◌&&◌, ◌||◌, ltb, arith, Option, none, some, List, [], ◌∷◌, ◌++◌, map,
  Bytes, bytes_eq, if◌then◌else◌,
}
use distri_inference_sidecar.Errors.{GoError, Fallible, ok, err, ◌>>=◌}
use distri_inference_sidecar.Batcher.Types.{
  Config, Request, Result, Delivery, SingleResult, Response,
}
use distri_inference_sidecar.Batcher.Flush.{
  Env, wrap_unavailable, wrap_response_invalid, failure, cancelled, single_req, reply, missing,
  status_error, is_success,
}
use distri_inference_sidecar.Prelude.Int.{ℤ, pos, negsuc, ltb_ℤ, leb_ℤ}

abbrev cons_unused :
    SingleResult → Option SingleResult × List SingleResult → Option SingleResult × List SingleResult
cons_unused res (found, rest) = (found, res ∷ rest)

-- The first result for an ID, and the results without it.
unfoldable pub take_result : Bytes → List SingleResult → Option SingleResult × List SingleResult
take_result id [] = (none, [])
take_result id (res ∷ results) =
    if bytes_eq id res.id then (some res, results) else cons_unused res (take_result id results)

abbrev pub answer : ℕ → Bytes → Option SingleResult → Result
answer latency id none = failure (missing id)
answer latency id (some res) = reply latency res

-- In the batch's order, each request has the first result for its ID that no earlier one took.
unfoldable pub answers : ℕ → List SingleResult → List Request → List Delivery
unfolding take_result
answers latency results [] = []
answers latency results (r ∷ rs) =
    let (found, rest) = take_result r.id results in
    (r.result_ch, answer latency r.id found) ∷ answers latency rest rs

abbrev pub failed : GoError → Request → Delivery
failed e r = (r.result_ch, failure e)

-- The requests whose context is not done.
unfoldable pub live : Env → List Request → List Request
live env [] = []
live env (r ∷ rs) =
    let rest = live env rs in elim (cancelled env r) [ some e ↦ rest | none ↦ r ∷ rest ]

-- The context errors of the others.
unfoldable pub abandoned : Env → List Request → List Delivery
abandoned env [] = []
abandoned env (r ∷ rs) =
    let rest = abandoned env rs in
    elim (cancelled env r) [ some e ↦ failed e r ∷ rest | none ↦ rest ]

-- An error under one of the two backend sentinels.
abbrev pub unavailable {ℓ} : {A : Type ℓ} → Fallible A → Fallible A
unavailable (ok a) = ok a
unavailable (err e) = err (wrap_unavailable e)

abbrev pub invalid {ℓ} : {A : Type ℓ} → Fallible A → Fallible A
invalid (ok a) = ok a
invalid (err e) = err (wrap_response_invalid e)

abbrev pub fails_with : Option GoError → Fallible (Unit {0})
fails_with none = ok tt
fails_with (some e) = err e

-- The codes from 200 to 299 are successes.
abbrev pub is_2xx : ℤ → Bool
is_2xx (pos n) = ltb 199 n && ltb n 300
is_2xx (negsuc n) = false

abbrev pub check_status : Response → Fallible Response
check_status resp = if is_2xx resp.status_code then ok resp else err (status_error resp)

is_success_code :
    (c : ℤ) → is_2xx c ≡ (if ltb_ℤ c (pos 200) || leb_ℤ (pos 300) c then false else true)
is_success_code (pos n) = ground arith
is_success_code (negsuc n) = ground arith

pub is_success-range : (resp : Response) → is_2xx resp.status_code ≡ is_success resp
is_success-range resp = is_success_code resp.status_code

-- The chain of calls that yields the backend's results, each failure under its sentinel.
unfoldable pub backend_answer : Env → Config → List Request → Fallible (List SingleResult)
backend_answer env cfg batch = do
  body ← invalid (env.marshal (map single_req batch))
  built ← invalid (fails_with (env.request_err cfg.backend_url body))
  resp ← unavailable (env.post cfg.backend_url body)
  good ← unavailable (check_status resp)
  invalid (env.decode good.body)

abbrev pub settle : ℕ → List Request → Fallible (List SingleResult) → List Delivery
settle latency batch (ok results) = answers latency results batch
settle latency batch (err e) = map (failed e) batch

-- All that one flush sends.
unfoldable pub owed : Env → Config → List Request → List Delivery
unfolding abandoned live
owed env cfg batch =
    abandoned env batch
    ++ settle env.latency_ms (live env batch) (backend_answer env cfg (live env batch))
