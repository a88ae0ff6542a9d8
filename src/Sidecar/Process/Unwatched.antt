-- ===== src/Sidecar/Process/Unwatched.antt =====
-- A run of main that ends before the goroutine of the guard.
use distri_inference_sidecar.Prelude.{◌≡◌, refl, false, some, codes, arith}
use distri_inference_sidecar.Prelude.Int.{ℤ}
use distri_inference_sidecar.Errors.{plain}
use distri_inference_sidecar.Metrics.{Metrics}
use distri_inference_sidecar.Float.{Float64}
use distri_inference_sidecar.VramGuard.{start_ticker}
use distri_inference_sidecar.VramGuard.Readers.{Nvml}
use distri_inference_sidecar.VramGuard.Watch
use distri_inference_sidecar.VramGuard.Watch.{Watch, polling}
use distri_inference_sidecar.Batcher.System
use distri_inference_sidecar.GrpcServer.Serving
use distri_inference_sidecar.Sidecar.{RuntimeConfig, guard_config}
use distri_inference_sidecar.Sidecar.Closing.{shuts, sees_serve, sees_gauge}
use distri_inference_sidecar.Sidecar.Process.{
  finished, Process, World, batches, watches, ends_updates, is_signalled, rpcs_finish, stops,
  stops_guard, serves, closes, finishes, Reach, here, next, launch,
}

enter-polling :
    (fl : Float64) (w : Watch fl.F) (period : ℤ)
    → start_ticker fl w.guard.cfg ≡ some period
    → ((Watch.enter fl w).loop ≡ polling) × ((Watch.enter fl w).closes ≡ w.closes)
unfolding Watch.enter
enter-polling fl w period h = (rw h refl, rw h refl)

module _ (w : World) (api : Nvml) (cfg : RuntimeConfig w.fl.F) (m : Metrics) where
  -- The signal comes behind the first steps of the guard's goroutine; main goes on to the end of
  -- its waits, of which none times out.
  abbrev Quiet : Process w.fl.F → Type 0
  Quiet q =
      Reach w (launch w api cfg m) q
      × (q.stage ≡ finished)
      × (q.closing.late ≡ false)
      × (q.watch ≡ Watch.stop w.fl (Watch.enter w.fl (launch w api cfg m).watch))

  runs_out : (q : Process w.fl.F) × Quiet q
  unfolding launch System.start System.dispatch Watch.new
  runs_out =
      let entered : Reach w (launch w api cfg m) _ = next here (watches _ (Watch.enters refl)) in
      let signalled : Reach w (launch w api cfg m) _ = next entered (is_signalled refl) in
      let served : Reach w (launch w api cfg m) _ =
        next signalled (serves _ (Serving.refuses (plain (codes "stopped")) refl refl)) in
      let closed : Reach w (launch w api cfg m) _ =
        next (next served (ends_updates refl (λ e. ground arith))) (rpcs_finish refl refl) in
      let told : Reach w (launch w api cfg m) _ =
        next (next closed (stops _ (System.locks refl) refl tt))
          (stops _ (System.signals refl) refl tt) in
      let returned : Reach w (launch w api cfg m) _ =
        next
          (next (next told (batches _ (System.peeks refl) tt))
            (batches _ (System.returns refl refl) tt))
          (batches _ (System.stops_tracking refl refl) tt) in
      let stopped : Reach w (launch w api cfg m) _ =
        next (next returned (stops _ (System.waits refl (refl, refl)) refl tt))
          (stops_guard refl refl) in
      let waited : Reach w (launch w api cfg m) _ =
        next (next (next stopped (closes _ refl (shuts refl))) (closes _ refl (sees_serve refl tt)))
          (closes _ refl (sees_gauge refl refl)) in
      (_, (next waited (finishes refl refl), refl, refl, refl))

  -- If the guard's ticker can be made, main can end, with none of its waits timed out, while the
  -- goroutine of Start still polls and has not closed the reader.
  pub finished-polling :
      (period : ℤ)
      → start_ticker w.fl (guard_config cfg) ≡ some period
      → (q : Process w.fl.F) × Reach w (launch w api cfg m) q
        × (q.stage ≡ finished)
        × (q.closing.late ≡ false)
        × (q.watch.loop ≡ polling)
        × (q.watch.closes ≡ 0)
  unfolding launch Watch.new
  finished-polling period h =
      let (q, (reach, e, late, same)) = runs_out in
      let (polls, opened) = enter-polling w.fl (launch w api cfg m).watch period h in
      (q, reach, e, late, rw same polls, rw same opened)
