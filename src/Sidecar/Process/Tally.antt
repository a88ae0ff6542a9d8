-- ===== src/Sidecar/Process/Tally.antt =====
-- The counters of refused requests against the replies that were given.
use distri_inference_sidecar.Prelude.{
  ℕ, ◌+◌, ◌≡◌, refl, ap, ◌∙◌, Bool, Option, none, some, List, [], ◌∷◌, Bytes, arith,
}
use distri_inference_sidecar.Prelude.Int.{ℤ}
use distri_inference_sidecar.Metrics.{Metrics}
use distri_inference_sidecar.Tokenizer.{validate}
use distri_inference_sidecar.VramGuard.Readers.{Nvml}
use distri_inference_sidecar.Batcher.Flush.{fail_request}
use distri_inference_sidecar.Batcher.Queue.{Batcher}
use distri_inference_sidecar.Batcher.Writes.Effects.{others, flush_batch-others}
use distri_inference_sidecar.Batcher.System
use distri_inference_sidecar.Batcher.System.{System, take_request, dispatch}
use distri_inference_sidecar.Batcher.System.Own.{IsOwn, IsStop}
use distri_inference_sidecar.GrpcServer.{
  Code, invalid_argument, resource_exhausted, InferRequest, Reply, response, Status, status,
  infer_submit, infer_wait, Wake, received, context_done, status_from_submit_err,
  status_from_result_err, status_from_context_err,
}
use distri_inference_sidecar.Sidecar.{RuntimeConfig}
use distri_inference_sidecar.Sidecar.Process.{
  Call, Process, World, Step, arrives, reads, submits, receives, leaves, batches, watches, updates,
  ends_updates, is_signalled, rpcs_finish, stops, stops_guard, serves, http_breaks, closes,
  finishes, Reach, here, next, launch, submit_call, after_call,
}

-- One for the code, else nothing.
abbrev pub rejection : Code → ℕ
rejection invalid_argument = 1
rejection _ = 0

abbrev pub exhaustion : Code → ℕ
exhaustion resource_exhausted = 1
exhaustion _ = 0

abbrev pub tally : (Code → ℕ) → Option Status → ℕ
tally f none = 0
tally f (some st) = f st.code

abbrev pub tally_reply : (Code → ℕ) → Reply → ℕ
tally_reply f (response resp) = 0
tally_reply f (status st) = f st.code

abbrev pub total : (Code → ℕ) → List (ℕ × Reply) → ℕ
total f [] = 0
total f ((_, reply) ∷ rs) = tally_reply f reply + total f rs

-- The replies InvalidArgument are what RejectedRequests counts beyond `m`, and the replies
-- ResourceExhausted what CircuitBreakerTrips and QueueRejects count together.
abbrev pub Counted : Metrics → Metrics → List (ℕ × Reply) → Type 0
Counted m now rs =
    (now.rejected_requests ≡ m.rejected_requests + total rejection rs)
    × (now.circuit_breaker_trips + now.queue_rejects
        ≡ m.circuit_breaker_trips + m.queue_rejects + total exhaustion rs)

infer_submit-tally :
    (bpe_count : Bytes → ℤ) (is_open : Bool) (req : InferRequest) (ctx ch : ℕ) (b : Batcher)
    → let out = infer_submit bpe_count is_open req ctx ch b in
      (out.0.out.metrics.rejected_requests
        ≡ b.out.metrics.rejected_requests + tally rejection out.1)
      × (out.0.out.metrics.circuit_breaker_trips + out.0.out.metrics.queue_rejects
          ≡ b.out.metrics.circuit_breaker_trips
            + b.out.metrics.queue_rejects
            + tally exhaustion out.1)
unfolding infer_submit validate status_from_submit_err
infer_submit-tally bpe_count is_open req ctx ch b = (ground arith, ground arith)

infer_wait-tally :
    (req : InferRequest) (k : Wake)
    → (tally_reply rejection (infer_wait req k) ≡ 0)
      × (tally_reply exhaustion (infer_wait req k) ≡ 0)
unfolding infer_wait status_from_result_err status_from_context_err
infer_wait-tally req k = (ground arith, ground arith)

-- An own step of the batcher, or one of Stop, writes neither of the counters.
abbrev Kept : Metrics → Metrics → Type 0
Kept a b = others b ≡ others a

Kept-IsOwn : {s t : System} (st : System.Step s t) → IsOwn st → Kept s.b.out.metrics t.b.out.metrics
unfolding dispatch take_request fail_request
Kept-IsOwn (System.submits is_open r) own = absurd own
Kept-IsOwn System.rejects own = absurd own
Kept-IsOwn (System.locks e) own = absurd own
Kept-IsOwn (System.signals e) own = absurd own
Kept-IsOwn (System.waits e w) own = absurd own
Kept-IsOwn (System.peeks e) own = refl
Kept-IsOwn (System.receives batch r rest e q) own = refl
Kept-IsOwn (System.times_out batch e) own = refl
Kept-IsOwn (System.sees_stop batch e c) own = refl
Kept-IsOwn (System.dispatches [] e) own = refl
Kept-IsOwn (System.dispatches (r ∷ rs) e) own = refl
Kept-IsOwn (System.drains r rest e q) own = refl
Kept-IsOwn (System.returns e q) own = refl
Kept-IsOwn {s} (System.flushes env before after batch ranged e) own =
    flush_batch-others env s.b.cfg batch s.b.out
Kept-IsOwn (System.ticks e) own = refl
Kept-IsOwn (System.stops_tracking e c) own = refl

Kept-IsStop :
    {s t : System} (st : System.Step s t) → IsStop st → Kept s.b.out.metrics t.b.out.metrics
Kept-IsStop (System.locks e) own = refl
Kept-IsStop (System.signals e) own = refl
Kept-IsStop (System.waits e w) own = refl
Kept-IsStop (System.submits is_open r) own = absurd own
Kept-IsStop System.rejects own = absurd own
Kept-IsStop (System.peeks e) own = absurd own
Kept-IsStop (System.receives batch r rest e q) own = absurd own
Kept-IsStop (System.times_out batch e) own = absurd own
Kept-IsStop (System.sees_stop batch e c) own = absurd own
Kept-IsStop (System.dispatches batch e) own = absurd own
Kept-IsStop (System.drains r rest e q) own = absurd own
Kept-IsStop (System.returns e q) own = absurd own
Kept-IsStop (System.flushes env before after batch ranged e) own = absurd own
Kept-IsStop (System.ticks e) own = absurd own
Kept-IsStop (System.stops_tracking e c) own = absurd own

Counted-Kept :
    (m a b : Metrics) (rs : List (ℕ × Reply)) → Kept a b → Counted m a rs → Counted m b rs
Counted-Kept m a b rs k h = (
  ap (λ x. x.rejected_requests) k ∙ h.0,
  ap (λ x. x.circuit_breaker_trips + x.queue_rejects) k ∙ h.1,
)

Counted-submit :
    {F : Type 0} (m : Metrics) (before after : List Call) (c : Call) (st : Option Status)
    (p : Process F) (s : System)
    → (s.b.out.metrics.rejected_requests
        ≡ p.system.b.out.metrics.rejected_requests + tally rejection st)
    → (s.b.out.metrics.circuit_breaker_trips + s.b.out.metrics.queue_rejects
        ≡ p.system.b.out.metrics.circuit_breaker_trips
          + p.system.b.out.metrics.queue_rejects
          + tally exhaustion st)
    → Counted m p.system.b.out.metrics p.replies
    → let q = after_call before after c st (record p { system = s }) in
      Counted m q.system.b.out.metrics q.replies
Counted-submit m before after c none p s e d h = (omega arith, omega arith)
Counted-submit m before after c (some st) p s e d h = (omega arith, omega arith)

module _ (w : World) (m : Metrics) where
  abbrev Tallies : Process w.fl.F → Type 0
  Tallies p = Counted m p.system.b.out.metrics p.replies

  waited-Tallies :
      (before after : List Call) (c : Call) (k : Wake) (p : Process w.fl.F)
      → Tallies p
      → Counted m p.system.b.out.metrics ((c.id, infer_wait c.req k) ∷ p.replies)
  waited-Tallies before after c k p h =
      let (e, d) = infer_wait-tally c.req k in (omega arith, omega arith)

  Step-Tallies : {p q : Process w.fl.F} → Step w p q → Tallies p → Tallies q
  unfolding submit_call
  Step-Tallies (arrives req e l) h = h
  Step-Tallies (reads before after call e a) h = h
  Step-Tallies {p} (submits before after call c e a) h =
      let out = submit_call w.bpe_count c call p.system in
      let t = infer_submit-tally w.bpe_count c call.req call.id call.id p.system.b in
      Counted-submit m before after call out.1 p out.0 t.0 t.1 h
  Step-Tallies {p} (receives before after call earlier later r e a i) h =
      waited-Tallies before after call (received r) p h
  Step-Tallies {p} (leaves before after call x e a) h =
      waited-Tallies before after call (context_done x) p h
  Step-Tallies {p} (batches s st own) h =
      Counted-Kept m p.system.b.out.metrics s.b.out.metrics p.replies (Kept-IsOwn st own) h
  Step-Tallies {p} (stops s st e own) h =
      Counted-Kept m p.system.b.out.metrics s.b.out.metrics p.replies (Kept-IsStop st own) h
  Step-Tallies (watches x st) h = h
  Step-Tallies (updates u) h = h
  Step-Tallies (ends_updates u v) h = h
  Step-Tallies (is_signalled e) h = h
  Step-Tallies (rpcs_finish e c) h = h
  Step-Tallies (stops_guard e c) h = h
  Step-Tallies (serves x st) h = h
  Step-Tallies (http_breaks d g) h = h
  Step-Tallies (closes x d g) h = h
  Step-Tallies (finishes e g) h = h

  -- In every reachable state RejectedRequests has grown by the number of replies InvalidArgument,
  -- and CircuitBreakerTrips and QueueRejects together by the number of replies ResourceExhausted.
  pub Reach-Counted :
      (api : Nvml) (cfg : RuntimeConfig w.fl.F) {p : Process w.fl.F}
      → Reach w (launch w api cfg m) p
      → Counted m p.system.b.out.metrics p.replies
  unfolding launch System.start
  Reach-Counted api cfg here = (omega arith, omega arith)
  Reach-Counted api cfg (next r st) = Step-Tallies st (Reach-Counted api cfg r)
