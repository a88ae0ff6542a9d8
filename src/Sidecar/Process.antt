-- ===== src/Sidecar/Process.antt =====
-- cmd/sidecar/main.go: the process that main runs, as interleaved steps: the RPCs of Infer, the
-- goroutines of the batcher and of the guard, and main from the start of the server to its exit.
-- The gRPC library is taken by its documentation: GracefulStop admits no new RPC and returns when
-- the pending ones are finished. The guard's collectors are kept with the guard.
pub mod Batching
pub mod Parts
pub mod Kept
pub mod Calls
pub mod Fresh
pub mod Shutdown
pub mod Held
pub mod Replies
pub mod Served
pub mod Patient
pub mod Stopping
pub mod Finishing
pub mod Tally
pub mod Listening
pub mod Unheard
pub mod Closed
pub mod Unwatched
use distri_inference_sidecar.Prelude.{
  ℕ, suc, ◌≡◌, ◌≢◌, Bool, true, false, Option, none, some, List, [], ◌∷◌, ◌++◌, Bytes, codes,
}
use distri_inference_sidecar.Prelude.Int.{ℤ}
use distri_inference_sidecar.Errors.{GoError}
use distri_inference_sidecar.Metrics.{Metrics}
use distri_inference_sidecar.Float.{Float64}
use distri_inference_sidecar.VramGuard.{get_usage, is_open}
use distri_inference_sidecar.VramGuard.Readers.{Nvml}
use distri_inference_sidecar.VramGuard.Watch
use distri_inference_sidecar.VramGuard.Watch.{Watch}
use distri_inference_sidecar.Batcher.Types.{Request, Result}
use distri_inference_sidecar.Batcher.System
use distri_inference_sidecar.Batcher.System.{System, done}
use distri_inference_sidecar.Batcher.System.Own.{IsOwn, IsStop}
use distri_inference_sidecar.Batcher.Queue.{Batcher}
use distri_inference_sidecar.GrpcServer.{
  InferRequest, Reply, status, Status, submitted, infer_submit, infer_wait, received, context_done,
}
use distri_inference_sidecar.GrpcServer.Serving
use distri_inference_sidecar.GrpcServer.Serving.{Server, HasListened}
use distri_inference_sidecar.Sidecar.Closing.{
  HttpServer, up, broken, Closing, over, open_up, WaitStep,
}
use distri_inference_sidecar.Sidecar.{RuntimeConfig, guard_config, batcher_config}

-- How far an RPC of Infer is: begun, behind Submit's reading of the circuit, or in its select.
pub data Phase : Type 0 where
  arrived : Phase
  read : Bool → Phase
  waiting : Phase

-- An RPC in progress. Its number stands for its context and for its result channel.
pub record Call : Type 0 where
  pub id : ℕ
  pub req : InferRequest
  pub phase : Phase

-- Where main stands: before the signal, in GracefulStop, in Batcher.Stop, behind Guard.Stop, and
-- behind its end.
pub data Stage : Type 0 where
  serving closing_rpcs stopping_batcher closing_rest finished : Stage

pub record Process (F : Type 0) : Type 0 where
  pub system : System
  pub watch : Watch F
  pub server : Server
  -- The gauge VRAMUsedMB.
  pub used_gauge : F
  -- vramGaugeDone is closed.
  pub gauge_done : Bool
  pub calls : List Call
  -- The number of the next RPC.
  pub next_id : ℕ
  -- The replies given so far.
  pub replies : List (ℕ × Reply)
  pub stage : Stage
  pub closing : Closing

abbrev pub arrive : {F : Type 0} → InferRequest → Process F → Process F
arrive req p = record p {
  calls = record { id = p.next_id; req = req; phase = arrived } ∷ p.calls;
  next_id = suc p.next_id;
}

-- An RPC ends with its reply.
abbrev pub answer : {F : Type 0} → List Call → List Call → Call → Reply → Process F → Process F
answer before after call reply p = record p {
  calls = before ++ after;
  replies = (call.id, reply) ∷ p.replies;
}

abbrev pub move_call : {F : Type 0} → List Call → List Call → Call → Phase → Process F → Process F
move_call before after call phase p = record p {
  calls = before ++ record call { phase = phase } ∷ after;
}

abbrev record_waiting : Option Status → Request → List Request → List Request
record_waiting none r rs = rs ++ r ∷ []
record_waiting (some _) r rs = rs

-- What Infer does to the batcher before its select.
abbrev pub with_submission : System → Request → Batcher × Option Status → System × Option Status
with_submission s r (b, st) = (record s { b = b; accepted = record_waiting st r s.accepted }, st)

unfoldable pub submit_call : (Bytes → ℤ) → Bool → Call → System → System × Option Status
unfolding infer_submit
submit_call bpe_count is_open call s =
    with_submission s (submitted call.req call.id call.id)
      (infer_submit bpe_count is_open call.req call.id call.id s.b)

-- An RPC goes on to wait, or ends with a status.
abbrev pub after_call :
    {F : Type 0} → List Call → List Call → Call → Option Status → Process F → Process F
after_call before after call none p = move_call before after call waiting p
after_call before after call (some st) p = answer before after call (status st) p

-- The outside of the process: the tokenizer, and the verb %q.
pub record World : Type 1 where
  pub fl : Float64
  pub bpe_count : Bytes → ℤ
  pub quote : Bytes → Bytes

abbrev pub call_submit :
    (w : World) → List Call → List Call → Call → Bool → Process w.fl.F → Process w.fl.F
call_submit w before after call is_open p =
    let (s, st) = submit_call w.bpe_count is_open call p.system in
    after_call before after call st (record p { system = s })

pub data Step (w : World) (p : Process w.fl.F) : Process w.fl.F → Type 0 where
  arrives :
      (req : InferRequest)
      → p.stage ≡ serving
      → HasListened p.server.serve_call
      → Step w p (arrive req p)
  reads :
      (before after : List Call) (call : Call)
      → p.calls ≡ before ++ call ∷ after
      → call.phase ≡ arrived
      → Step w p (move_call before after call (read (is_open w.fl p.watch.guard)) p)
  submits :
      (before after : List Call) (call : Call) (is_open : Bool)
      → p.calls ≡ before ++ call ∷ after
      → call.phase ≡ read is_open
      → Step w p (call_submit w before after call is_open p)
  receives :
      (before after : List Call) (call : Call) (earlier later : List (ℕ × Result)) (r : Result)
      → p.calls ≡ before ++ call ∷ after
      → call.phase ≡ waiting
      → p.system.b.out.sent ≡ earlier ++ (call.id, r) ∷ later
      → Step w p (answer before after call (infer_wait call.req (received r)) p)
  leaves :
      (before after : List Call) (call : Call) (e : GoError)
      → p.calls ≡ before ++ call ∷ after
      → call.phase ≡ waiting
      → Step w p (answer before after call (infer_wait call.req (context_done e)) p)
  batches :
      (s : System) (st : System.Step p.system s) → IsOwn st → Step w p (record p { system = s })
  watches :
      (x : Watch w.fl.F) → Watch.Step w.fl w.quote p.watch x → Step w p (record p { watch = x })
  -- The goroutine that main starts for Serve.
  serves : (x : Server) → Serving.Step p.server x → Step w p (record p { server = x })
  -- The goroutine that main starts for the gauge: a tick, and its end behind the signal.
  updates :
      p.gauge_done ≡ false → Step w p (record p { used_gauge = (get_usage w.fl p.watch.guard).0 })
  ends_updates :
      p.gauge_done ≡ false → p.stage ≢ serving → Step w p (record p { gauge_done = true })
  is_signalled :
      p.stage ≡ serving
      → Step w p (record p { server = Serving.graceful_stop p.server; stage = closing_rpcs })
  rpcs_finish :
      p.stage ≡ closing_rpcs → p.calls ≡ [] → Step w p (record p { stage = stopping_batcher })
  stops :
      (s : System) (st : System.Step p.system s)
      → p.stage ≡ stopping_batcher
      → IsStop st
      → Step w p (record p { system = s })
  stops_guard :
      p.stage ≡ stopping_batcher
      → p.system.stopping ≡ done
      → Step w p (record p { watch = Watch.stop w.fl p.watch; stage = closing_rest })
  http_breaks :
      (e : GoError)
      → p.closing.http ≡ up
      → Step w p (record p { closing = record p.closing { http = broken e } })
  closes :
      (x : Closing)
      → p.stage ≡ closing_rest
      → WaitStep p.server.serve_call p.gauge_done p.closing x
      → Step w p (record p { closing = x })
  finishes :
      p.stage ≡ closing_rest → p.closing.wait ≡ over → Step w p (record p { stage = finished })

pub data Reach (w : World) (p : Process w.fl.F) : Process w.fl.F → Type 0 where
  here : Reach w p p
  next : {q r : Process w.fl.F} → Reach w p q → Step w q r → Reach w p r

-- main up to the start of the server, with fresh metrics.
unfoldable pub launch : (w : World) → Nvml → RuntimeConfig w.fl.F → Metrics → Process w.fl.F
unfolding System.start Watch.new
launch w api cfg m = record {
  system = System.start (batcher_config cfg) m;
  watch = Watch.new w.fl api (guard_config cfg) (some m);
  server = Serving.new (codes ":50051");
  used_gauge = w.fl.of_ℕ 0;
  gauge_done = false;
  calls = [];
  next_id = 0;
  replies = [];
  stage = serving;
  closing = open_up;
}
