-- ===== src/Sidecar/Closing.antt =====
-- cmd/sidecar/main.go: the last waits of main, behind Guard.Stop, and the HTTP server that
-- internal/metrics/metrics.go starts. The library's Shutdown is taken by its documentation: with or
-- without an error, the server takes no more requests.
use distri_inference_sidecar.Prelude.{◌≡◌, Bool, true, false}
use distri_inference_sidecar.Errors.{GoError}
use distri_inference_sidecar.GrpcServer.Serving.{ServeCall, starting, listening, refused, left}

-- The goroutine of StartHTTPServer: in ListenAndServe, or returned from it, with an error that is
-- logged or by Shutdown.
pub data HttpServer : Type 0 where
  up : HttpServer
  broken : GoError → HttpServer
  shut : HttpServer

-- The call or the select where main is.
pub data Wait : Type 0 where
  shutting_metrics awaiting_serve awaiting_gauge over : Wait

-- `late` says that a wait has ended by its timeout.
pub record Closing : Type 0 where
  pub http : HttpServer
  pub wait : Wait
  pub late : Bool

-- StartHTTPServer is called, and the waits are to come.
abbrev pub open_up : Closing
open_up = record { http = up; wait = shutting_metrics; late = false }

-- grpcDone has got what Serve returned.
abbrev pub HasReturned : ServeCall → Type 0
HasReturned starting = ⊥
HasReturned listening = ⊥
HasReturned (refused e) = Unit
HasReturned (left e) = Unit

pub data WaitStep (serve_call : ServeCall) (gauge_done : Bool) (c : Closing)
    : Closing → Type 0 where
  shuts :
      c.wait ≡ shutting_metrics
      → WaitStep serve_call gauge_done c (record c { http = shut; wait = awaiting_serve })
  shuts_late :
      c.wait ≡ shutting_metrics
      → WaitStep serve_call gauge_done c
          (record c { http = shut; wait = awaiting_serve; late = true })
  sees_serve :
      c.wait ≡ awaiting_serve
      → HasReturned serve_call
      → WaitStep serve_call gauge_done c (record c { wait = awaiting_gauge })
  leaves_serve :
      c.wait ≡ awaiting_serve
      → WaitStep serve_call gauge_done c (record c { wait = awaiting_gauge; late = true })
  sees_gauge :
      c.wait ≡ awaiting_gauge
      → gauge_done ≡ true
      → WaitStep serve_call gauge_done c (record c { wait = over })
  leaves_gauge :
      c.wait ≡ awaiting_gauge
      → WaitStep serve_call gauge_done c (record c { wait = over; late = true })
