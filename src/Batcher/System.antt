-- ===== src/Batcher/System.antt =====
-- internal/batcher/batcher.go: Submit, Start, Stop, trackQPS and the flushes as interleaved steps
-- over the shared state. A step is a stretch of code that the others cannot divide, or whose
-- division they cannot see: the writes of one flush go to its own waiters and to counters, so a
-- flush is one step, taken when its backend call is over.
pub mod Own
pub mod Rate
pub mod Collecting
pub mod Gathering
pub mod Order
pub mod Growing
pub mod Outputs
pub mod History
pub mod Ledger
pub mod Safety
pub mod Shutdown
pub mod Settling
pub mod Promise
pub mod Halting
use mathlib.Core.List.{flatten}
use distri_inference_sidecar.Prelude.{
  ℕ, ◌+◌, ◌≡◌, Bool, true, false, Option, none, some, List, [], ◌∷◌, ◌++◌, Perm, if◌then◌else◌,
}
use distri_inference_sidecar.Metrics.{Metrics, count_rejected}
use distri_inference_sidecar.Errors.{GoError}
use distri_inference_sidecar.Batcher.Types.{Config, Request}
use distri_inference_sidecar.Batcher.ReqMap.{ReqMap}
use distri_inference_sidecar.Batcher.Flush.{Env, flush_batch, fail_request}
use distri_inference_sidecar.Batcher.Queue.{
  Batcher, new, with_metrics, submit, is_full, drain_error, mark_stopped, close_stop, track_qps,
}

-- Where the goroutine of Start stands.
pub data Loop : Type 0 where
  -- At the check of stopCh that opens each round.
  top : Loop
  -- In the select of collectBatch.
  collecting : List Request → Loop
  -- Behind the return of collectBatch.
  collected : List Request → Loop
  -- In drainQueueWithError.
  draining : Loop
  returned : Loop

-- Where the call of Stop stands.
pub data Stopping : Type 0 where
  idle locked waiting done : Stopping

pub record System : Type 0 where
  pub b : Batcher
  pub loop : Loop
  -- The batches that a flush goroutine holds.
  pub flights : List (List Request)
  -- trackQPS runs.
  pub tracking : Bool
  pub stopping : Stopping
  -- The requests that Submit has accepted so far.
  pub accepted : List Request

-- Start has begun: its wg.Add(1) for trackQPS is done.
unfoldable pub start : Config → Metrics → System
unfolding new
start cfg m = record {
  b = new cfg m;
  loop = top;
  flights = [];
  tracking = true;
  stopping = idle;
  accepted = [];
}

abbrev pub record_accepted : Option GoError → Request → List Request → List Request
record_accepted none r rs = rs ++ r ∷ []
record_accepted (some _) r rs = rs

unfoldable pub after_submit : Bool → Request → System → System
unfolding submit
after_submit is_open r s =
    let (b', e) = submit is_open r s.b in
    record s { b = b'; accepted = record_accepted e r s.accepted }

-- `case req := <-b.queue` of collectBatch.
unfoldable pub take_request : List Request → Request → List Request → System → System
unfolding is_full
take_request batch r rest s =
    let batch' = batch ++ r ∷ [] in
    record s {
      b = record s.b { queue = rest };
      loop = if is_full s.b.cfg batch' then collected batch' else collecting batch';
    }

-- What Start does with the batch that collectBatch returned.
unfoldable pub dispatch : List Request → System → System
dispatch [] s = record s { loop = if s.b.stop_closed then draining else top }
dispatch (r ∷ rs) s = record s { flights = s.flights ++ (r ∷ rs) ∷ []; loop = top }

abbrev pub WgIdle : System → Type 0
WgIdle s = (s.flights ≡ []) × (s.tracking ≡ false)

pub data Step (s : System) : System → Type 0 where
  submits : (is_open : Bool) (r : Request) → Step s (after_submit is_open r s)
  peeks :
      s.loop ≡ top
      → Step s (record s { loop = if s.b.stop_closed then draining else collecting [] })
  receives :
      (batch : List Request) (r : Request) (rest : List Request)
      → s.loop ≡ collecting batch
      → s.b.queue ≡ r ∷ rest
      → Step s (take_request batch r rest s)
  times_out :
      (batch : List Request)
      → s.loop ≡ collecting batch
      → Step s (record s { loop = collected batch })
  sees_stop :
      (batch : List Request)
      → s.loop ≡ collecting batch
      → s.b.stop_closed ≡ true
      → Step s (record s { loop = collected batch })
  dispatches : (batch : List Request) → s.loop ≡ collected batch → Step s (dispatch batch s)
  drains :
      (r : Request) (rest : List Request)
      → s.loop ≡ draining
      → s.b.queue ≡ r ∷ rest
      → Step s
          (record s { b = record s.b { queue = rest; out = fail_request r drain_error s.b.out } })
  returns : s.loop ≡ draining → s.b.queue ≡ [] → Step s (record s { loop = returned })
  flushes :
      (env : Env) (before after : List (List Request)) (batch : List Request)
      -- A range over a map visits each of its entries once.
      → ((m : ReqMap) → Perm (env.ranged m) m)
      → s.flights ≡ before ++ batch ∷ after
      → Step s (record s {
        b = record s.b { out = flush_batch env s.b.cfg batch s.b.out };
        flights = before ++ after;
      })
  ticks : s.tracking ≡ true → Step s (record s { b = track_qps s.b })
  stops_tracking :
      s.tracking ≡ true → s.b.stop_closed ≡ true → Step s (record s { tracking = false })
  -- Infer writes its own counter in the metrics that it shares with the batcher.
  rejects : Step s (record s { b = with_metrics s.b (count_rejected s.b.out.metrics) })
  locks : s.stopping ≡ idle → Step s (record s { b = mark_stopped s.b; stopping = locked })
  signals : s.stopping ≡ locked → Step s (record s { b = close_stop s.b; stopping = waiting })
  waits : s.stopping ≡ waiting → WgIdle s → Step s (record s { stopping = done })

pub data Reach (s : System) : System → Type 0 where
  here : Reach s s
  next : {t u : System} → Reach s t → Step t u → Reach s u

-- The requests that the loop holds.
abbrev pub held : Loop → List Request
held top = []
held (collecting batch) = batch
held (collected batch) = batch
held draining = []
held returned = []

-- The requests that are accepted and have no result yet.
abbrev pub pending : System → List Request
pending s = s.b.queue ++ (held s.loop ++ flatten s.flights)
