-- ===== src/Batcher/Counters.antt =====
-- The success and error counters against what is sent.
use distri_inference_sidecar.Prelude.{
  ℕ, ◌+◌, ◌≡◌, Bool, Option, none, some, List, [], ◌∷◌, ◌++◌, Option-cases, List-cases, Bool-cases,
  inl, inr, arith, Bytes,
}
use distri_inference_sidecar.Metrics
use distri_inference_sidecar.Metrics.{Metrics}
use distri_inference_sidecar.Errors.{GoError, Fallible, ok, err}
use distri_inference_sidecar.Batcher.ReqMap.{ReqMap, get, put, group}
use distri_inference_sidecar.Batcher.Types.{
  Config, Request, Result, Delivery, SingleResult, Response, Out, send,
}
use distri_inference_sidecar.Batcher.Flush.{
  Env, fail_request, fail_batch, cancelled, drop_cancelled, reply, count_reply, failure, missing,
  fan_out, fail_entry, fail_missing, deliver, is_success, decoded, received, post_body, observe,
  flush_active, flush_batch,
}
use distri_inference_sidecar.Batcher.Queue.{Batcher, submit, drain_error}
use distri_inference_sidecar.Batcher.System.{
  System, Step, submits, peeks, receives, times_out, sees_stop, dispatches, drains, returns,
  flushes, ticks, stops_tracking, rejects, locks, signals, waits, Reach, here, next, start,
  after_submit, take_request, dispatch,
}

abbrev pub is_ok : Option GoError → ℕ
is_ok none = 1
is_ok (some _) = 0

abbrev pub is_failed : Option GoError → ℕ
is_failed none = 0
is_failed (some _) = 1

abbrev pub successes : List Delivery → ℕ
successes [] = 0
successes ((ch, r) ∷ ds) = is_ok r.err + successes ds

abbrev pub failures : List Delivery → ℕ
failures [] = 0
failures ((ch, r) ∷ ds) = is_failed r.err + failures ds

-- One more result.
successes-concat :
    (ds : List Delivery) (ch : ℕ) (r : Result)
    → successes (ds ++ (ch, r) ∷ []) ≡ successes ds + is_ok r.err
successes-concat [] ch r = omega arith
successes-concat ((c, q) ∷ ds) ch r = omega (arith, successes-concat ds ch r)

failures-concat :
    (ds : List Delivery) (ch : ℕ) (r : Result)
    → failures (ds ++ (ch, r) ∷ []) ≡ failures ds + is_failed r.err
failures-concat [] ch r = omega arith
failures-concat ((c, q) ∷ ds) ch r = omega (arith, failures-concat ds ch r)

-- infer_success_total and infer_errors_total are the numbers of results sent without and with an
-- error.
pub record IsCounted (out : Out) : Type 0 where
  pub success : out.metrics.infer_success ≡ successes out.sent
  pub errors : out.metrics.infer_errors ≡ failures out.sent

fail_request-IsCounted :
    (r : Request) (e : GoError) (out : Out) → IsCounted out → IsCounted (fail_request r e out)
unfolding fail_request
fail_request-IsCounted r e out h = ground (
  arith,
  successes-concat out.sent r.result_ch (failure e),
  failures-concat out.sent r.result_ch (failure e),
)

fail_batch-IsCounted :
    (rs : List Request) (e : GoError) (out : Out) → IsCounted out → IsCounted (fail_batch rs e out)
unfolding fail_batch
fail_batch-IsCounted [] e out h = h
fail_batch-IsCounted (r ∷ rs) e out h =
    fail_batch-IsCounted rs e _ (fail_request-IsCounted r e out h)

drop_cancelled-IsCounted :
    (env : Env) (rs : List Request) (out : Out)
    → IsCounted out
    → IsCounted (drop_cancelled env rs out).1
unfolding drop_cancelled
drop_cancelled-IsCounted env [] out h = h
drop_cancelled-IsCounted env (r ∷ rs) out h = elim (Option-cases (cancelled env r)) [
  | inl e ↦ rw (e, drop_cancelled) (drop_cancelled-IsCounted env rs out h)
  | inr (x, e) ↦
      rw (e, drop_cancelled) (drop_cancelled-IsCounted env rs _ (fail_request-IsCounted r x out h))
]

reply-IsCounted :
    (latency : ℕ) (res : SingleResult) (ch : ℕ) (out : Out)
    → IsCounted out
    → IsCounted (send (count_reply res out) ch (reply latency res))
unfolding count_reply reply
reply-IsCounted latency res ch out h = ground (
  arith,
  successes-concat out.sent ch (reply latency res),
  failures-concat out.sent ch (reply latency res),
)

fan_out-IsCounted :
    (latency : ℕ) (results : List SingleResult) (m : ReqMap) (out : Out)
    → IsCounted out
    → IsCounted (fan_out latency results m out).1
unfolding fan_out
fan_out-IsCounted latency [] m out h = h
fan_out-IsCounted latency (res ∷ results) m out h = elim (List-cases (get res.id m)) [
  | inl e ↦ rw (e, fan_out) (fan_out-IsCounted latency results m out h)
  | inr (r, more, e) ↦
      rw (e, fan_out)
        (fan_out-IsCounted latency results (put res.id more m) _
          (reply-IsCounted latency res r.result_ch out h))
]

fail_entry-IsCounted :
    (id : Bytes) (rs : List Request) (out : Out) → IsCounted out → IsCounted (fail_entry id rs out)
unfolding fail_entry
fail_entry-IsCounted id [] out h = h
fail_entry-IsCounted id (r ∷ rs) out h =
    fail_entry-IsCounted id rs _ (fail_request-IsCounted r (missing id) out h)

fail_missing-IsCounted : (m : ReqMap) (out : Out) → IsCounted out → IsCounted (fail_missing m out)
unfolding fail_missing
fail_missing-IsCounted [] out h = h
fail_missing-IsCounted ((id, rs) ∷ m) out h =
    fail_missing-IsCounted m _ (fail_entry-IsCounted id rs out h)

deliver-IsCounted :
    (env : Env) (batch : List Request) (results : List SingleResult) (out : Out)
    → IsCounted out
    → IsCounted (deliver env batch results out)
unfolding deliver
deliver-IsCounted env batch results out h =
    fail_missing-IsCounted (env.ranged (fan_out env.latency_ms results (group batch) out).0) _
      (fan_out-IsCounted env.latency_ms results (group batch) out h)

decoded-IsCounted :
    (env : Env) (batch : List Request) (d : Fallible (List SingleResult)) (out : Out)
    → IsCounted out
    → IsCounted (decoded env batch d out)
unfolding decoded
decoded-IsCounted env batch (ok results) out h = deliver-IsCounted env batch results out h
decoded-IsCounted env batch (err e) out h = fail_batch-IsCounted batch _ out h

received-IsCounted :
    (env : Env) (batch : List Request) (r : Fallible Response) (out : Out)
    → IsCounted out
    → IsCounted (received env batch r out)
unfolding received
received-IsCounted env batch (err e) out h = fail_batch-IsCounted batch _ out h
received-IsCounted env batch (ok resp) out h = elim (Bool-cases (is_success resp)) [
  | inl good ↦ rw (good, received) (decoded-IsCounted env batch (env.decode resp.body) out h)
  | inr bad ↦ rw (bad, received) (fail_batch-IsCounted batch _ out h)
]

post_body-IsCounted :
    (env : Env) (cfg : Config) (batch : List Request) (b : Fallible Bytes) (out : Out)
    → IsCounted out
    → IsCounted (post_body env cfg batch b out)
unfolding post_body
post_body-IsCounted env cfg batch (err e) out h = fail_batch-IsCounted batch _ out h
post_body-IsCounted env cfg batch (ok body) out h =
    elim (Option-cases (env.request_err cfg.backend_url body)) [
      | inl e ↦
          rw (e, post_body)
            (received-IsCounted env batch (env.post cfg.backend_url body) (observe env batch out)
              (ground arith))
      | inr (x, e) ↦ rw (e, post_body) (fail_batch-IsCounted batch _ out h)
    ]

flush_active-IsCounted :
    (env : Env) (cfg : Config) (batch : List Request) (out : Out)
    → IsCounted out
    → IsCounted (flush_active env cfg batch out)
unfolding flush_active
flush_active-IsCounted env cfg [] out h = h
flush_active-IsCounted env cfg (r ∷ rs) out h = post_body-IsCounted env cfg (r ∷ rs) _ out h

-- A flush keeps the two counters equal to the numbers of results sent, on every path.
pub flush_batch-IsCounted :
    (env : Env) (cfg : Config) (batch : List Request) (out : Out)
    → IsCounted out
    → IsCounted (flush_batch env cfg batch out)
unfolding flush_batch
flush_batch-IsCounted env cfg batch out h =
    flush_active-IsCounted env cfg _ _ (drop_cancelled-IsCounted env batch out h)

submit-IsCounted :
    (is_open : Bool) (r : Request) (b : Batcher)
    → IsCounted b.out
    → IsCounted (submit is_open r b).0.out
unfolding submit
submit-IsCounted is_open r b h = ground arith

Step-IsCounted : {s t : System} → Step s t → IsCounted s.b.out → IsCounted t.b.out
unfolding dispatch take_request after_submit
Step-IsCounted {s} (submits is_open r) h = submit-IsCounted is_open r s.b h
Step-IsCounted (peeks e) h = h
Step-IsCounted (receives batch r rest e q) h = h
Step-IsCounted (times_out batch e) h = h
Step-IsCounted (sees_stop batch e c) h = h
Step-IsCounted (dispatches [] e) h = h
Step-IsCounted (dispatches (r ∷ rs) e) h = h
Step-IsCounted {s} (drains r rest e q) h = fail_request-IsCounted r drain_error s.b.out h
Step-IsCounted (returns e q) h = h
Step-IsCounted {s} (flushes env before after batch ranged e) h =
    flush_batch-IsCounted env s.b.cfg batch s.b.out h
Step-IsCounted (ticks e) h = h
Step-IsCounted (stops_tracking e c) h = h
Step-IsCounted {s} rejects h = ground arith
Step-IsCounted (locks e) h = h
Step-IsCounted (signals e) h = h
Step-IsCounted (waits e w) h = h

run-IsCounted : {s t : System} → IsCounted s.b.out → Reach s t → IsCounted t.b.out
run-IsCounted h here = h
run-IsCounted h (next r st) = Step-IsCounted st (run-IsCounted h r)

-- In every state that a batcher with fresh metrics reaches, the two counters are the numbers of
-- results sent without and with an error.
pub Reach-IsCounted :
    (cfg : Config) {s : System} → Reach (start cfg Metrics.new) s → IsCounted s.b.out
unfolding start
Reach-IsCounted cfg reach = run-IsCounted {s = start cfg Metrics.new} (ground arith) reach
