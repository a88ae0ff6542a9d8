-- ===== src/Sidecar/Process/Closed.antt =====
-- What main has waited for when it ends.
use distri_inference_sidecar.Prelude.{
  Perm, ◌≡◌, refl, subst, Bool, true, false, Option, none, some, List, arith,
}
use distri_inference_sidecar.Metrics.{Metrics}
use distri_inference_sidecar.VramGuard.Readers.{Nvml}
use distri_inference_sidecar.Batcher.System
use distri_inference_sidecar.GrpcServer.{Status}
use distri_inference_sidecar.GrpcServer.Serving
use distri_inference_sidecar.GrpcServer.Serving.{
  ServeCall, starting, listening, refused, left, Server,
}
use distri_inference_sidecar.Sidecar.{RuntimeConfig}
use distri_inference_sidecar.Sidecar.Closing.{
  HttpServer, up, broken, shut, Wait, shutting_metrics, awaiting_serve, awaiting_gauge, over,
  Closing, HasReturned, WaitStep, shuts, shuts_late, sees_serve, leaves_serve, sees_gauge,
  leaves_gauge,
}
use distri_inference_sidecar.Sidecar.Process.Calls.{reply_ids, below, Reach-IsAccounted}
use distri_inference_sidecar.Sidecar.Process.Shutdown.{StageFits, Reach-IsOrderly}
use distri_inference_sidecar.Sidecar.Process.{
  Stage, serving, closing_rpcs, stopping_batcher, closing_rest, finished, Call, Process, World,
  Step, arrives, reads, submits, receives, leaves, batches, watches, updates, ends_updates,
  is_signalled, rpcs_finish, stops, stops_guard, serves, http_breaks, closes, finishes, Reach, here,
  next, launch, submit_call, after_call,
}

-- What has ended, by the wait that main is in: the metrics server, the call of Serve and the
-- goroutine of the gauge, the last two unless a wait has timed out.
abbrev pub Ended : HttpServer → Wait → Bool → ServeCall → Bool → Type 0
Ended http shutting_metrics late c g = Unit
Ended http awaiting_serve late c g = http ≡ shut
Ended http awaiting_gauge true c g = http ≡ shut
Ended http awaiting_gauge false c g = (http ≡ shut) × HasReturned c
Ended http over true c g = http ≡ shut
Ended http over false c g = (http ≡ shut) × HasReturned c × (g ≡ true)

abbrev EndedBy : Closing → ServeCall → Bool → Type 0
EndedBy k c g = Ended k.http k.wait k.late c g

abbrev Through : Stage → Wait → Type 0
Through serving k = Unit
Through closing_rpcs k = Unit
Through stopping_batcher k = Unit
Through closing_rest k = Unit
Through finished k = k ≡ over

abbrev IsClosing : {F : Type 0} → Process F → Type 0
IsClosing p = EndedBy p.closing p.server.serve_call p.gauge_done × Through p.stage p.closing.wait

HasReturned-serves :
    {s x : Server} → Serving.Step s x → HasReturned s.serve_call → HasReturned x.serve_call
HasReturned-serves (Serving.fails e a) h = tt
HasReturned-serves (Serving.listens a b) h = absurd (subst HasReturned a h)
HasReturned-serves (Serving.refuses e a b) h = tt
HasReturned-serves (Serving.breaks e a) h = tt
HasReturned-serves (Serving.returns a b) h = tt

-- Serve and the goroutine of the gauge end for good.
Ended-later :
    (http : HttpServer) (k : Wait) (late : Bool) (c d : ServeCall) (g : Bool)
    → (HasReturned c → HasReturned d)
    → Ended http k late c g
    → Ended http k late d true
Ended-later http shutting_metrics late c d g f h = tt
Ended-later http awaiting_serve late c d g f h = h
Ended-later http awaiting_gauge true c d g f h = h
Ended-later http awaiting_gauge false c d g f h = (h.0, f h.1)
Ended-later http over true c d g f h = h
Ended-later http over false c d g f h = (h.0, f h.1, refl)

Ended-serves :
    (http : HttpServer) (k : Wait) (late : Bool) (c d : ServeCall) (g : Bool)
    → (HasReturned c → HasReturned d)
    → Ended http k late c g
    → Ended http k late d g
Ended-serves http shutting_metrics late c d g f h = tt
Ended-serves http awaiting_serve late c d g f h = h
Ended-serves http awaiting_gauge true c d g f h = h
Ended-serves http awaiting_gauge false c d g f h = (h.0, f h.1)
Ended-serves http over true c d g f h = h
Ended-serves http over false c d g f h = (h.0, f h.1, h.2)

-- A server that breaks has not been shut down.
Ended-breaks :
    (http other : HttpServer) (k : Wait) (late : Bool) (c : ServeCall) (g : Bool)
    → http ≡ up
    → Ended http k late c g
    → Ended other k late c g
Ended-breaks http other k late c g e h = ground arith

-- The steps of main's waits.
Ended-waits :
    {c : ServeCall} {g : Bool} {k x : Closing} → WaitStep c g k x → EndedBy k c g → EndedBy x c g
Ended-waits (shuts a) h = refl
Ended-waits (shuts_late a) h = refl
Ended-waits {c} {g} {k} (sees_serve a r) h =
    sees k.late (subst (λ x. Ended k.http x k.late c g) a h)
  where
    sees : (late : Bool) → k.http ≡ shut → Ended k.http awaiting_gauge late c g
    sees true e = e
    sees false e = (e, r)
Ended-waits {c} {g} {k} (leaves_serve a) h = subst (λ x. Ended k.http x k.late c g) a h
Ended-waits {c} {g} {k} (sees_gauge a d) h =
    sees k.late (subst (λ x. Ended k.http x k.late c g) a h)
  where
    sees : (late : Bool) → Ended k.http awaiting_gauge late c g → Ended k.http over late c g
    sees true e = e
    sees false e = (e.0, e.1, d)
Ended-waits {c} {g} {k} (leaves_gauge a) h =
    drop k.late (subst (λ x. Ended k.http x k.late c g) a h)
  where
    drop : (late : Bool) → Ended k.http awaiting_gauge late c g → k.http ≡ shut
    drop true e = e
    drop false e = e.0

after_call-IsClosing :
    {F : Type 0} (before after : List Call) (c : Call) (st : Option Status) (p : Process F)
    → IsClosing p
    → IsClosing (after_call before after c st p)
after_call-IsClosing before after c none p h = h
after_call-IsClosing before after c (some st) p h = h

module _ (w : World) where
  Step-IsClosing : {p q : Process w.fl.F} → Step w p q → IsClosing p → IsClosing q
  unfolding submit_call
  Step-IsClosing (arrives req e l) h = h
  Step-IsClosing (reads before after call e a) h = h
  Step-IsClosing {p} (submits before after call c e a) h =
      let out = submit_call w.bpe_count c call p.system in
      after_call-IsClosing before after call out.1 (record p { system = out.0 }) h
  Step-IsClosing (receives before after call earlier later r e a i) h = h
  Step-IsClosing (leaves before after call x e a) h = h
  Step-IsClosing (batches s st own) h = h
  Step-IsClosing (stops s st e own) h = h
  Step-IsClosing (watches x st) h = h
  Step-IsClosing (updates u) h = h
  Step-IsClosing {p} (ends_updates u v) h = (
    Ended-later p.closing.http p.closing.wait p.closing.late p.server.serve_call p.server.serve_call
        p.gauge_done (λ r. r) h.0,
    h.1,
  )
  Step-IsClosing (is_signalled e) h = (h.0, tt)
  Step-IsClosing (rpcs_finish e c) h = (h.0, tt)
  Step-IsClosing (stops_guard e d) h = (h.0, tt)
  Step-IsClosing {p} (serves x st) h = (
    Ended-serves p.closing.http p.closing.wait p.closing.late p.server.serve_call x.serve_call
        p.gauge_done (HasReturned-serves st) h.0,
    h.1,
  )
  Step-IsClosing {p} (http_breaks e a) h = (
    Ended-breaks p.closing.http (broken e) p.closing.wait p.closing.late p.server.serve_call
        p.gauge_done a h.0,
    h.1,
  )
  Step-IsClosing (closes x e st) h = (Ended-waits st h.0, rw e tt)
  Step-IsClosing (finishes e a) h = (h.0, a)

  Reach-IsClosing :
      (api : Nvml) (cfg : RuntimeConfig w.fl.F) (m : Metrics) {p : Process w.fl.F}
      → Reach w (launch w api cfg m) p
      → IsClosing p
  unfolding launch
  Reach-IsClosing api cfg m here = (tt, tt)
  Reach-IsClosing api cfg m (next r st) = Step-IsClosing st (Reach-IsClosing api cfg m r)

  -- When main has ended, every RPC that has arrived has exactly one reply, Batcher.Stop has returned
  -- and the guard is told to stop; if no wait of main has timed out, the metrics server is shut
  -- down, Serve has returned, and the goroutine of the gauge has ended.
  pub finished-Ended :
      (api : Nvml) (cfg : RuntimeConfig w.fl.F) (m : Metrics) {p : Process w.fl.F}
      → Reach w (launch w api cfg m) p
      → p.stage ≡ finished
      → Perm (reply_ids p.replies) (below p.next_id)
        × (p.system.stopping ≡ System.done)
        × (p.watch.stop_closed ≡ true)
        × Ended p.closing.http over p.closing.late p.server.serve_call p.gauge_done
  finished-Ended api cfg m {p} reach e =
      let (ended, through) = Reach-IsClosing api cfg m reach in
      let all_over : p.closing.wait ≡ over = subst (λ s. Through s p.closing.wait) e through in
      let (no_calls, stopped, told) =
        subst (λ s. StageFits s p.calls p.system.stopping p.watch.stop_closed) e
          (Reach-IsOrderly w api cfg m reach) in
      (
        rw no_calls at (Reach-IsAccounted w api cfg m reach),
        stopped,
        told,
        subst (λ k. Ended p.closing.http k p.closing.late p.server.serve_call p.gauge_done) all_over
            ended,
      )
