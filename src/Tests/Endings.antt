-- ===== src/Tests/Endings.antt =====
-- The process at its end: the signal comes before Serve listens, and no wait of main times out.
use distri_inference_sidecar.Prelude.{Perm, ◌≡◌, refl, true, false, some, codes, arith}
use distri_inference_sidecar.Prelude.Int.{pos}
use distri_inference_sidecar.Errors.{plain}
use distri_inference_sidecar.Metrics
use distri_inference_sidecar.Float.Approx.{Approx, approx}
use distri_inference_sidecar.VramGuard.{start_ticker}
use distri_inference_sidecar.VramGuard.Watch
use distri_inference_sidecar.VramGuard.Watch.{polling}
use distri_inference_sidecar.Batcher.System
use distri_inference_sidecar.GrpcServer.Serving
use distri_inference_sidecar.Sidecar.{guard_config}
use distri_inference_sidecar.Sidecar.Closing.{shut, over, shuts, sees_serve, sees_gauge}
use distri_inference_sidecar.Sidecar.Process.{
  stopping_batcher, finished, Process, batches, ends_updates, is_signalled, rpcs_finish, stops,
  stops_guard, serves, closes, finishes, Reach, here, next, launch,
}
use distri_inference_sidecar.Sidecar.Process.Closed.{Ended, finished-Ended}
use distri_inference_sidecar.Sidecar.Process.Calls.{reply_ids, below}
use distri_inference_sidecar.Sidecar.Process.Unwatched.{finished-polling}
use distri_inference_sidecar.Tests.Readers.{two_devices}
use distri_inference_sidecar.Tests.Sidecars.{loaded}
use distri_inference_sidecar.Tests.Guards.{mb}
use distri_inference_sidecar.Tests.Processes.{world, launched}

-- GracefulStop has returned, and the gauge is no longer updated.
abbrev signalled : Process Approx
signalled = record launched {
  server = record launched.server {
    serve_call = Serving.refused (plain (codes "stopped"));
    is_stopped = true;
  };
  gauge_done = true;
  stage = stopping_batcher;
}

to_signalled : Reach world launched signalled
unfolding launch
to_signalled =
    next
      (next
        (next (next here (is_signalled refl))
          (serves _ (Serving.refuses (plain (codes "stopped")) refl refl)))
        (ends_updates refl (λ e. ground arith)))
      (rpcs_finish refl refl)

-- Batcher.Stop has returned.
abbrev halted : Process Approx
halted = record signalled {
  system = record launched.system {
    b = record launched.system.b { stopped = true; stop_closed = true };
    loop = System.returned;
    tracking = false;
    stopping = System.done;
  };
}

to_halted : Reach world launched halted
unfolding launch System.start
to_halted =
    next
      (next
        (next
          (next
            (next (next to_signalled (stops _ (System.locks refl) refl tt))
              (stops _ (System.signals refl) refl tt))
            (batches _ (System.peeks refl) tt))
          (batches _ (System.returns refl refl) tt))
        (batches _ (System.stops_tracking refl refl) tt))
      (stops _ (System.waits refl (refl, refl)) refl tt)

abbrev ended : Process Approx
ended = record halted {
  watch = Watch.stop approx launched.watch;
  stage = finished;
  closing = record { http = shut; wait = over; late = false };
}

to_ended : Reach world launched ended
unfolding launch System.start
to_ended =
    next
      (next
        (next (next (next to_halted (stops_guard refl refl)) (closes _ refl (shuts refl)))
          (closes _ refl (sees_serve refl tt)))
        (closes _ refl (sees_gauge refl refl)))
      (finishes refl refl)

finished-Ended_example :
    Perm (reply_ids ended.replies) (below ended.next_id)
    × (ended.system.stopping ≡ System.done)
    × (ended.watch.stop_closed ≡ true)
    × Ended ended.closing.http over ended.closing.late ended.server.serve_call ended.gauge_done
finished-Ended_example =
    finished-Ended world two_devices (loaded (mb 95) 500) Metrics.new to_ended refl

half_second : start_ticker approx (guard_config (loaded (mb 95) 500)) ≡ some (pos 500000000)
unfolding start_ticker
half_second = refl

finished-polling_example :
    (q : Process Approx) × Reach world launched q
    × (q.stage ≡ finished)
    × (q.closing.late ≡ false)
    × (q.watch.loop ≡ polling)
    × (q.watch.closes ≡ 0)
finished-polling_example =
    finished-polling world two_devices (loaded (mb 95) 500) Metrics.new (pos 500000000) half_second
