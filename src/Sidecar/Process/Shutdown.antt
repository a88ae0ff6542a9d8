-- ===== src/Sidecar/Process/Shutdown.antt =====
-- The order of main's shutdown: GracefulStop, Batcher.Stop, Guard.Stop.
use distri_inference_sidecar.Prelude.{
  ◌≡◌, refl, Bool, true, false, ◌⊎◌, inl, inr, Option, none, some, List, [], ◌∷◌, ◌++◌, Perm, arith,
}
use distri_inference_sidecar.Metrics.{Metrics}
use distri_inference_sidecar.VramGuard.Readers.{Nvml}
use distri_inference_sidecar.Batcher.System
use distri_inference_sidecar.Batcher.System.{System, Stopping, idle, done}
use distri_inference_sidecar.Batcher.System.Safety.{start-IsSafe}
use distri_inference_sidecar.GrpcServer.{Status}
use distri_inference_sidecar.Sidecar.{RuntimeConfig, batcher_config}
use distri_inference_sidecar.Sidecar.Process.{
  Call, Process, Stage, serving, closing_rpcs, stopping_batcher, closing_rest, finished, World,
  Step, arrives, reads, submits, receives, leaves, batches, watches, updates, ends_updates,
  is_signalled, rpcs_finish, stops, stops_guard, serves, http_breaks, closes, finishes, Reach, here,
  next, launch, submit_call, after_call,
}
use distri_inference_sidecar.Sidecar.Process.Batching.{Reach-batching}
use distri_inference_sidecar.Sidecar.Process.Calls.{reply_ids, below, Reach-IsAccounted}
use distri_inference_sidecar.Batcher.System.Own.{kept-IsOwn}
use distri_inference_sidecar.Sidecar.Process.Kept.{stop_closed-Step}

-- What main's position says of the RPCs, of Batcher.Stop and of the guard's stopCh.
abbrev pub StageFits : Stage → List Call → Stopping → Bool → Type 0
StageFits serving calls stopping closed = (stopping ≡ idle) × (closed ≡ false)
StageFits closing_rpcs calls stopping closed = (stopping ≡ idle) × (closed ≡ false)
StageFits stopping_batcher calls stopping closed = (calls ≡ []) × (closed ≡ false)
StageFits closing_rest calls stopping closed = (calls ≡ []) × (stopping ≡ done) × (closed ≡ true)
StageFits finished calls stopping closed = (calls ≡ []) × (stopping ≡ done) × (closed ≡ true)

abbrev pub IsOrderly : {F : Type 0} → Process F → Type 0
IsOrderly p = StageFits p.stage p.calls p.system.stopping p.watch.stop_closed

-- With an RPC in progress, main has not called Batcher.Stop, and other RPCs may be in progress.
StageFits-calls :
    (st : Stage) (before after cs : List Call) (c : Call) (stopping : Stopping) (closed : Bool)
    → StageFits st (before ++ c ∷ after) stopping closed
    → StageFits st cs stopping closed
StageFits-calls serving before after cs c stopping closed h = h
StageFits-calls closing_rpcs before after cs c stopping closed h = h
StageFits-calls stopping_batcher [] after cs c stopping closed h = ground arith
StageFits-calls stopping_batcher (b ∷ before) after cs c stopping closed h = ground arith
StageFits-calls closing_rest [] after cs c stopping closed h = ground arith
StageFits-calls closing_rest (b ∷ before) after cs c stopping closed h = ground arith
StageFits-calls finished [] after cs c stopping closed h = ground arith
StageFits-calls finished (b ∷ before) after cs c stopping closed h = ground arith

after_call-IsOrderly :
    {F : Type 0} (before after : List Call) (c : Call) (st : Option Status) (p : Process F)
    → p.calls ≡ before ++ c ∷ after
    → IsOrderly p
    → IsOrderly (after_call before after c st p)
after_call-IsOrderly before after c none p e h =
    StageFits-calls p.stage before after _ c p.system.stopping p.watch.stop_closed (rw (← e) h)
after_call-IsOrderly before after c (some st) p e h =
    StageFits-calls p.stage before after _ c p.system.stopping p.watch.stop_closed (rw (← e) h)

module _ (w : World) where
  Step-IsOrderly : {p q : Process w.fl.F} → Step w p q → IsOrderly p → IsOrderly q
  unfolding submit_call
  Step-IsOrderly {p} (arrives req e l) h = rw e (rw e at h)
  Step-IsOrderly {p} (reads before after call e a) h =
      StageFits-calls p.stage before after _ call p.system.stopping p.watch.stop_closed (rw (← e) h)
  Step-IsOrderly {p} (submits before after call c e a) h =
      let out = submit_call w.bpe_count c call p.system in
      after_call-IsOrderly before after call out.1 (record p { system = out.0 }) e h
  Step-IsOrderly {p} (receives before after call earlier later r e a i) h =
      StageFits-calls p.stage before after _ call p.system.stopping p.watch.stop_closed (rw (← e) h)
  Step-IsOrderly {p} (leaves before after call x e a) h =
      StageFits-calls p.stage before after _ call p.system.stopping p.watch.stop_closed (rw (← e) h)
  Step-IsOrderly {p} (batches s st own) h = rw (kept-IsOwn st own).1 h
  Step-IsOrderly {p} (watches x st) h = rw (stop_closed-Step w st) h
  Step-IsOrderly (updates u) h = h
  Step-IsOrderly (ends_updates u v) h = h
  Step-IsOrderly {p} (is_signalled e) h = ground arith
  Step-IsOrderly {p} (rpcs_finish e c) h = ground arith
  Step-IsOrderly {p} (stops s st e own) h = ground arith
  Step-IsOrderly {p} (stops_guard e d) h = ground arith
  Step-IsOrderly (serves x st) h = h
  Step-IsOrderly (http_breaks d g) h = h
  Step-IsOrderly (closes x d g) h = h
  Step-IsOrderly {p} (finishes e g) h = ground arith

  pub Reach-IsOrderly :
      (api : Nvml) (cfg : RuntimeConfig w.fl.F) (m : Metrics) {p : Process w.fl.F}
      → Reach w (launch w api cfg m) p
      → IsOrderly p
  unfolding launch System.start
  Reach-IsOrderly api cfg m here = (refl, refl)
  Reach-IsOrderly api cfg m (next r st) = Step-IsOrderly st (Reach-IsOrderly api cfg m r)

StageFits-stopping :
    (st : Stage) (cs : List Call) (stopping : Stopping) (closed : Bool)
    → StageFits st cs stopping closed
    → ((stopping ≡ idle) ⊎ (cs ≡ [])) × ((closed ≡ false) ⊎ (stopping ≡ done))
StageFits-stopping st cs stopping closed h = ground arith

-- What main's order of shutdown gives: as long as Batcher.Stop is to do anything, every RPC that
-- has arrived has exactly one reply and none is in progress; and the guard is stopped only behind
-- the return of Batcher.Stop.
abbrev pub IsOrdered : {F : Type 0} → Process F → Type 0
IsOrdered p =
    (((p.system.b.stopped ≡ false) × (p.system.b.stop_closed ≡ false))
      ⊎ ((p.calls ≡ []) × Perm (reply_ids p.replies) (below p.next_id)))
    × ((p.watch.stop_closed ≡ false) ⊎ (p.system.stopping ≡ done))

module _ (w : World) where
  -- In every reachable state of the process, either the batcher is not told to stop, or every RPC
  -- that has arrived has exactly one reply and none is in progress; and either the guard is not
  -- told to stop, or Batcher.Stop has returned. So no RPC meets a batcher that is stopped.
  pub Reach-IsOrdered :
      (api : Nvml) (cfg : RuntimeConfig w.fl.F) (m : Metrics) {p : Process w.fl.F}
      → Reach w (launch w api cfg m) p
      → IsOrdered p
  Reach-IsOrdered api cfg m {p} reach =
      let safe = start-IsSafe (batcher_config cfg) m (Reach-batching w api cfg m reach) in
      let (asked, guard_last) =
        StageFits-stopping p.stage p.calls p.system.stopping p.watch.stop_closed
          (Reach-IsOrderly w api cfg m reach) in
      elim asked [
        | inl e ↦ (inl (ground (arith, safe, e)), guard_last)
        | inr e ↦ (inr (e, rw e at (Reach-IsAccounted w api cfg m reach)), guard_last)
      ]
