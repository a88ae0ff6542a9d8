-- ===== src/Batcher/System/Rate.antt =====
-- The estimate of the request rate: what trackQPS stores.
use distri_inference_sidecar.Prelude.{ℕ, ◌+◌, ◌≡◌, refl, Option, none, some, [], ◌∷◌, arith, Bool}
use distri_inference_sidecar.Errors.{GoError}
use distri_inference_sidecar.Metrics.{Metrics}
use distri_inference_sidecar.Batcher.Types.{Config, Request}
use distri_inference_sidecar.Batcher.Queue.{submit, enqueue}
use distri_inference_sidecar.Batcher.System.{
  System, Step, submits, peeks, receives, times_out, sees_stop, dispatches, drains, returns,
  flushes, ticks, stops_tracking, rejects, locks, signals, waits, Reach, here, next, start,
  after_submit, take_request, dispatch,
}

-- One for a call of Submit that returns nil.
abbrev one_if_accepted : Option GoError → ℕ
one_if_accepted none = 1
one_if_accepted (some e) = 0

abbrev counted_by : {s t : System} → ℕ → Step s t → ℕ
counted_by {s} n (submits o r) = n + one_if_accepted (submit o r s.b).1
counted_by n (ticks e) = 0
counted_by n _ = n

-- The requests accepted in a run since the last tick of trackQPS.
abbrev pub since_tick : {s t : System} → Reach s t → ℕ
since_tick here = 0
since_tick (next reach st) = counted_by (since_tick reach) st

abbrev window_by : {s t : System} → ℕ → ℕ → Step s t → ℕ
window_by w n (ticks e) = n
window_by w n _ = w

-- The requests accepted between the last two ticks, or before the first one.
abbrev pub last_window : {s t : System} → Reach s t → ℕ
last_window here = 0
last_window (next reach st) = window_by (last_window reach) (since_tick reach) st

abbrev IsRated : ℕ → ℕ → System → Type 0
IsRated n w s = (s.b.req_count ≡ n) × (s.b.current_qps ≡ w)

submit-IsRated :
    (n w : ℕ) (s : System) (o : Bool) (r : Request)
    → IsRated n w s
    → IsRated (n + one_if_accepted (submit o r s.b).1) w (after_submit o r s)
unfolding after_submit submit enqueue
submit-IsRated n w s o r h = ground arith

Step-IsRated :
    (n w : ℕ) {s t : System} (st : Step s t)
    → IsRated n w s
    → IsRated (counted_by n st) (window_by w n st) t
unfolding take_request dispatch
Step-IsRated n w {s} (submits o r) h = submit-IsRated n w s o r h
Step-IsRated n w (ticks e) h = (refl, h.0)
Step-IsRated n w (peeks e) h = h
Step-IsRated n w (receives batch r rest e q) h = h
Step-IsRated n w (times_out batch e) h = h
Step-IsRated n w (sees_stop batch e k) h = h
Step-IsRated n w (dispatches [] e) h = h
Step-IsRated n w (dispatches (r ∷ rs) e) h = h
Step-IsRated n w (drains r rest e q) h = h
Step-IsRated n w (returns e q) h = h
Step-IsRated n w (flushes env before after batch ranged e) h = h
Step-IsRated n w (stops_tracking e k) h = h
Step-IsRated n w rejects h = h
Step-IsRated n w (locks e) h = h
Step-IsRated n w (signals e) h = h
Step-IsRated n w (waits e k) h = h

-- In every run from Start the request counter is the number of requests accepted since the last
-- tick of trackQPS, and the stored rate the number accepted in the second before that tick; refused
-- requests count in neither.
pub Reach-rate :
    (cfg : Config) (m : Metrics) {s : System} (reach : Reach (start cfg m) s)
    → (s.b.req_count ≡ since_tick reach) × (s.b.current_qps ≡ last_window reach)
unfolding start
Reach-rate cfg m here = (refl, refl)
Reach-rate cfg m (next reach st) =
    Step-IsRated (since_tick reach) (last_window reach) st (Reach-rate cfg m reach)
