-- ===== src/Sidecar/Process/Finishing.antt =====
-- That main can always come to its end, with every RPC answered and no caller leaving.
use mathlib.Core.List.Perm
use mathlib.Core.List.{mem-map_of_mem}
use distri_inference_sidecar.Prelude.{
  ◌≡◌, refl, Bool, false, Option, none, some, List, [], ◌∷◌, Perm, arith,
}
use distri_inference_sidecar.Metrics.{Metrics}
use distri_inference_sidecar.VramGuard.{is_open}
use distri_inference_sidecar.VramGuard.Readers.{Nvml}
use distri_inference_sidecar.Batcher.ReqMap.{ReqMap}
use distri_inference_sidecar.Batcher.Flush.{Env}
use distri_inference_sidecar.Batcher.System.Safety.{start-IsSafe}
use distri_inference_sidecar.Batcher.System.Settling.{settles}
use distri_inference_sidecar.GrpcServer.{Status}
use distri_inference_sidecar.Sidecar.{RuntimeConfig, batcher_config}
use distri_inference_sidecar.Sidecar.Process.{
  Phase, arrived, read, waiting, Call, Process, Stage, serving, closing_rpcs, stopping_batcher,
  closing_rest, finished, World, Step, reads, submits, receives, is_signalled, rpcs_finish, Reach,
  next, launch, submit_call, call_submit, after_call,
}
use distri_inference_sidecar.Sidecar.Process.Batching.{Reach-batching}
use distri_inference_sidecar.Sidecar.Process.Calls.{reply_ids, below, Reach-IsAccounted}
use distri_inference_sidecar.Sidecar.Process.Held.{found, AllHeld-at, Reach-Holds}
use distri_inference_sidecar.Sidecar.Process.Patient.{
  Patient, at_once, then, reached, by_batcher, next_id-Patient,
}
use distri_inference_sidecar.Sidecar.Process.Stopping.{Ends, through, after, from_guard, from_stop}
use distri_inference_sidecar.Sidecar.Process.Shutdown.{Reach-IsOrderly}

module _ (w : World) (api : Nvml) (cfg : RuntimeConfig w.fl.F) (m : Metrics) (env : Env)
    (ranged : (rs : ReqMap) → Perm (env.ranged rs) rs) where
  abbrev Runs : Process w.fl.F → Type 0
  Runs p = Reach w (launch w api cfg m) p

  -- What remains when the first RPC has its reply.
  abbrev Onward : List Call → Type 0
  Onward cs = (q : Process w.fl.F) → Runs q → q.stage ≡ closing_rpcs → q.calls ≡ cs → Ends w q

  -- The first RPC, from each of its phases.
  wait_call :
      (c : Call) (cs : List Call) (p : Process w.fl.F)
      → Runs p
      → p.stage ≡ closing_rpcs
      → p.calls ≡ c ∷ cs
      → c.phase ≡ waiting
      → Onward cs
      → Ends w p
  wait_call c cs p reach e h a go =
      let safe = start-IsSafe (batcher_config cfg) m (Reach-batching w api cfg m reach) in
      let before = Reach-IsOrderly w api cfg m reach in
      let opened : p.system.b.stop_closed ≡ false = ground (arith, safe, before, e) in
      let (s, own, open_still, answered) =
        settles env ranged (batcher_config cfg) m p.system (Reach-batching w api cfg m reach)
          opened in
      let run : Patient w p (record p { system = s }) = by_batcher own in
      let held = Reach-Holds w api cfg m (reached reach run) in
      let held_here =
        mem-map_of_mem (λ r. r.result_ch) (AllHeld-at s.accepted p.calls [] cs c h a held) in
      let (earlier, r, later, at_id) =
        found c.id s.b.out.sent ((Perm.mem_iff answered).1 held_here) in
      let st : Step w (record p { system = s }) _ = receives [] cs c earlier later r h a at_id in
      through (then run st tt) (go _ (next (reached reach run) st) e refl)

  after_submission :
      (st : Option Status) (c : Call) (cs : List Call) (p : Process w.fl.F)
      → Runs (after_call [] cs c st p)
      → p.stage ≡ closing_rpcs
      → Onward cs
      → Ends w (after_call [] cs c st p)
  after_submission (some st) c cs p reach e go = go _ reach e refl
  after_submission none c cs p reach e go =
      wait_call (record c { phase = waiting }) cs _ reach e refl refl go

  submit_one :
      (c : Call) (cs : List Call) (o : Bool) (p : Process w.fl.F)
      → Runs p
      → p.stage ≡ closing_rpcs
      → p.calls ≡ c ∷ cs
      → c.phase ≡ read o
      → Onward cs
      → Ends w p
  submit_one c cs o p reach e h a go =
      let st : Step w p (call_submit w [] cs c o p) = submits [] cs c o h a in
      let out = submit_call w.bpe_count o c p.system in
      after st tt (after_submission out.1 c cs (record p { system = out.0 }) (next reach st) e go)

  answer_call :
      (ph : Phase) (c : Call) (cs : List Call) (p : Process w.fl.F)
      → Runs p
      → p.stage ≡ closing_rpcs
      → p.calls ≡ c ∷ cs
      → c.phase ≡ ph
      → Onward cs
      → Ends w p
  answer_call waiting c cs p reach e h a go = wait_call c cs p reach e h a go
  answer_call (read o) c cs p reach e h a go = submit_one c cs o p reach e h a go
  answer_call arrived c cs p reach e h a go =
      let o = is_open w.fl p.watch.guard in
      let st : Step w p _ = reads [] cs c h a in
      after st tt (submit_one (record c { phase = read o }) cs o _ (next reach st) e refl refl go)

  answer_calls :
      (cs : List Call) (p : Process w.fl.F)
      → Runs p
      → p.stage ≡ closing_rpcs
      → p.calls ≡ cs
      → Ends w p
  answer_calls [] p reach e h =
      let st : Step w p _ = rpcs_finish e h in
      after st tt (from_stop w api cfg m env ranged p.system.stopping _ (next reach st) refl refl)
  answer_calls (c ∷ cs) p reach e h =
      answer_call c.phase c cs p reach e h refl (λ q r d k. answer_calls cs q r d k)

  from_stage : (k : Stage) (p : Process w.fl.F) → Runs p → p.stage ≡ k → Ends w p
  from_stage serving p reach e =
      let st : Step w p _ = is_signalled e in
      after st tt (answer_calls p.calls _ (next reach st) refl refl)
  from_stage closing_rpcs p reach e = answer_calls p.calls p reach e refl
  from_stage stopping_batcher p reach e =
      from_stop w api cfg m env ranged p.system.stopping p reach e refl
  from_stage closing_rest p reach e = from_guard p e
  from_stage finished p reach e = record { target = p; run = at_once; is_finished = e }

  -- From every reachable state, steps in which no RPC arrives and no caller leaves lead to the end
  -- of main, where every RPC that has arrived has exactly one reply. The backend calls in flight are
  -- taken to end, in the environment given.
  pub main-finishes :
      (p : Process w.fl.F)
      → Reach w (launch w api cfg m) p
      → (q : Process w.fl.F) × Patient w p q
        × (q.stage ≡ finished)
        × Perm (reply_ids q.replies) (below p.next_id)
  main-finishes p reach =
      let l = from_stage p.stage p reach refl in
      let there = reached reach l.run in
      let orderly = Reach-IsOrderly w api cfg m there in
      let no_calls : l.target.calls ≡ [] = ground (arith, orderly, l.is_finished) in
      (
        l.target,
        l.run,
        l.is_finished,
        rw (next_id-Patient l.run) at (rw no_calls at (Reach-IsAccounted w api cfg m there)),
      )
