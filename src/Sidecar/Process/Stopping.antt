-- ===== src/Sidecar/Process/Stopping.antt =====
-- From Batcher.Stop on, main can always come to its end.
use distri_inference_sidecar.Prelude.{
  ◌≡◌, refl, ◌∙◌, true, false, [], Perm, Bool-cases, inl, inr, arith,
}
use distri_inference_sidecar.Metrics.{Metrics}
use distri_inference_sidecar.VramGuard.Readers.{Nvml}
use distri_inference_sidecar.Batcher.ReqMap.{ReqMap}
use distri_inference_sidecar.Batcher.Flush.{Env}
use distri_inference_sidecar.Batcher.System
use distri_inference_sidecar.Batcher.System.{System, Stopping, idle, locked, done}
use distri_inference_sidecar.Batcher.System.Own.{kept-OwnReach}
use distri_inference_sidecar.Batcher.System.Safety.{start-IsSafe}
use distri_inference_sidecar.Batcher.System.Shutdown.{from_loop}
use distri_inference_sidecar.Sidecar.{RuntimeConfig, batcher_config}
use distri_inference_sidecar.Sidecar.Closing.{
  Wait, shutting_metrics, awaiting_serve, awaiting_gauge, over, shuts_late, leaves_serve,
  leaves_gauge,
}
use distri_inference_sidecar.Sidecar.Process.{
  Process, stopping_batcher, closing_rest, finished, World, Step, batches, stops, stops_guard,
  closes, finishes, Reach, next, launch,
}
use distri_inference_sidecar.Sidecar.Process.Batching.{Reach-batching}
use distri_inference_sidecar.Sidecar.Process.Patient.{
  IsPatient, Patient, at_once, then, then_run, reached, by_batcher,
}

-- What a state leads to: the end of main.
pub record Ends (w : World) (p : Process w.fl.F) : Type 0 where
  pub target : Process w.fl.F
  pub run : Patient w p target
  pub is_finished : target.stage ≡ finished

module _ {w : World} where
  pub through : {p q : Process w.fl.F} → Patient w p q → Ends w q → Ends w p
  through a l = record { target = l.target; run = then_run a l.run; is_finished = l.is_finished }

  pub after : {p q : Process w.fl.F} (st : Step w p q) → IsPatient st → Ends w q → Ends w p
  after st own l = through (then at_once st own) l

  -- The last waits, each by its timeout.
  from_over : (p : Process w.fl.F) → p.stage ≡ closing_rest → p.closing.wait ≡ over → Ends w p
  from_over p e d = record { target = _; run = then at_once (finishes e d) tt; is_finished = refl }

  from_gauge :
      (p : Process w.fl.F) → p.stage ≡ closing_rest → p.closing.wait ≡ awaiting_gauge → Ends w p
  from_gauge p e d = after (closes _ e (leaves_gauge d)) tt (from_over _ e refl)

  from_serve :
      (p : Process w.fl.F) → p.stage ≡ closing_rest → p.closing.wait ≡ awaiting_serve → Ends w p
  from_serve p e d = after (closes _ e (leaves_serve d)) tt (from_gauge _ e refl)

  from_wait :
      (k : Wait) (p : Process w.fl.F) → p.stage ≡ closing_rest → p.closing.wait ≡ k → Ends w p
  from_wait over p e d = from_over p e d
  from_wait awaiting_gauge p e d = from_gauge p e d
  from_wait awaiting_serve p e d = from_serve p e d
  from_wait shutting_metrics p e d = after (closes _ e (shuts_late d)) tt (from_serve _ e refl)

  -- The end of main.
  pub from_guard : (p : Process w.fl.F) → p.stage ≡ closing_rest → Ends w p
  from_guard p e = from_wait p.closing.wait p e refl

  from_done :
      (p : Process w.fl.F) → p.stage ≡ stopping_batcher → p.system.stopping ≡ done → Ends w p
  from_done p e d = after (stops_guard e d) tt (from_guard _ refl)

  from_idle_wg :
      (p : Process w.fl.F)
      → p.stage ≡ stopping_batcher
      → p.system.stopping ≡ System.waiting
      → p.system.flights ≡ []
      → p.system.tracking ≡ false
      → Ends w p
  from_idle_wg p e d f t = after (stops _ (System.waits d (f, t)) e tt) tt (from_done _ e refl)

  from_rest :
      (p : Process w.fl.F)
      → p.stage ≡ stopping_batcher
      → p.system.stopping ≡ System.waiting
      → p.system.b.stop_closed ≡ true
      → p.system.flights ≡ []
      → Ends w p
  from_rest p e d c f = elim (Bool-cases p.system.tracking) [
    | inl t ↦ after (batches _ (System.stops_tracking t c) tt) tt (from_idle_wg _ e d f refl)
    | inr t ↦ from_idle_wg p e d f t
  ]

module _ (w : World) (api : Nvml) (cfg : RuntimeConfig w.fl.F) (m : Metrics) (env : Env)
    (ranged : (rs : ReqMap) → Perm (env.ranged rs) rs) where
  abbrev Runs : Process w.fl.F → Type 0
  Runs p = Reach w (launch w api cfg m) p

  -- The call of Batcher.Stop, from each of its positions.
  from_waiting :
      (p : Process w.fl.F)
      → Runs p
      → p.stage ≡ stopping_batcher
      → p.system.stopping ≡ System.waiting
      → Ends w p
  from_waiting p reach e d =
      let safe = start-IsSafe (batcher_config cfg) m (Reach-batching w api cfg m reach) in
      let closed : p.system.b.stop_closed ≡ true = ground (arith, safe, d) in
      let l = from_loop env ranged p.system.loop p.system closed refl in
      let q = record p { system = l.target } in
      let rest =
        start-IsSafe (batcher_config cfg) m
          (Reach-batching w api cfg m (reached reach (by_batcher {p = p} l.reach))) in
      through (by_batcher l.reach) (
        from_rest q e ((kept-OwnReach l.reach).1 ∙ d) (ground (arith, rest, l.rest))
          l.rest.no_flights)

  from_locked :
      (p : Process w.fl.F)
      → Runs p
      → p.stage ≡ stopping_batcher
      → p.system.stopping ≡ locked
      → Ends w p
  from_locked p reach e d =
      let st : Step w p _ = stops _ (System.signals d) e tt in
      after st tt (from_waiting _ (next reach st) e refl)

  pub from_stop :
      (k : Stopping) (p : Process w.fl.F)
      → Runs p
      → p.stage ≡ stopping_batcher
      → p.system.stopping ≡ k
      → Ends w p
  from_stop idle p reach e d =
      let st : Step w p _ = stops _ (System.locks d) e tt in
      after st tt (from_locked _ (next reach st) e refl)
  from_stop locked p reach e d = from_locked p reach e d
  from_stop System.waiting p reach e d = from_waiting p reach e d
  from_stop done p reach e d = from_done p e d
