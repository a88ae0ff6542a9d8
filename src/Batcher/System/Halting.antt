-- ===== src/Batcher/System/Halting.antt =====
-- The shutdown against any interleaving: the work that is left only gets less, and none is stuck.
use distri_inference_sidecar.Prelude.{
  ℕ, ◌+◌, ◌≤◌, ◌≡◌, refl, Bool, true, false, List, [], ◌∷◌, length, length-append, Perm, ◌⊎◌, inl,
  inr, List-cases, arith,
}
use distri_inference_sidecar.Metrics.{Metrics}
use distri_inference_sidecar.Batcher.Types.{Config, Request}
use distri_inference_sidecar.Batcher.ReqMap.{ReqMap}
use distri_inference_sidecar.Batcher.Flush.{Env}
use distri_inference_sidecar.Batcher.Queue.{submit, enqueue}
use distri_inference_sidecar.Batcher.System.{
  System, Loop, top, collecting, collected, draining, returned, Step, submits, peeks, receives,
  times_out, sees_stop, dispatches, drains, returns, flushes, ticks, stops_tracking, rejects, locks,
  signals, waits, Reach, here, next, start, after_submit, take_request, dispatch,
}
use distri_inference_sidecar.Batcher.System.Safety.{start-IsSafe, closed_means_stopped}
use distri_inference_sidecar.Batcher.System.Shutdown.{AtRest}

-- One for a step of the batcher's goroutines, but for the ticks of trackQPS.
abbrev pub work_of : {s t : System} → Step s t → ℕ
work_of (submits o r) = 0
work_of rejects = 0
work_of (locks e) = 0
work_of (signals e) = 0
work_of (waits e k) = 0
work_of (ticks e) = 0
work_of _ = 1

abbrev pub work : {s t : System} → Reach s t → ℕ
work here = 0
work (next reach st) = work_of st + work reach

-- How many steps the loop may still take besides those that take a request.
abbrev pub loop_left : Loop → ℕ
loop_left returned = 0
loop_left draining = 1
loop_left top = 2
loop_left (collected batch) = 4
loop_left (collecting batch) = 5

abbrev tracking_left : Bool → ℕ
tracking_left true = 1
tracking_left false = 0

abbrev pub steps_left : System → ℕ
steps_left s = length s.b.queue + loop_left s.loop + length s.flights + tracking_left s.tracking

abbrev pub IsClosed : System → Type 0
IsClosed s = (s.b.stop_closed ≡ true) × (s.b.stopped ≡ true)

abbrev Falls : ℕ → System → System → Type 0
Falls n s t = IsClosed t × (n + steps_left t ≤ steps_left s)

submit-Falls : (o : Bool) (r : Request) (s : System) → IsClosed s → Falls 0 s (after_submit o r s)
unfolding after_submit submit enqueue
submit-Falls o r s c = ground arith

take-Falls :
    (s : System) (batch : List Request) (r : Request) (rest : List Request)
    → s.loop ≡ collecting batch
    → s.b.queue ≡ r ∷ rest
    → IsClosed s
    → Falls 1 s (take_request batch r rest s)
unfolding take_request
take-Falls s batch r rest e q c = ground arith

Step-Falls : {s t : System} (st : Step s t) → IsClosed s → Falls (work_of st) s t
unfolding dispatch
Step-Falls {s} (submits o r) c = submit-Falls o r s c
Step-Falls rejects c = (c, omega arith)
Step-Falls (locks e) c = ((c.0, refl), omega arith)
Step-Falls (signals e) c = ((refl, c.1), omega arith)
Step-Falls (waits e k) c = (c, omega arith)
Step-Falls (ticks e) c = (c, omega arith)
Step-Falls (peeks e) c = ground arith
Step-Falls {s} (receives batch r rest e q) c = take-Falls s batch r rest e q c
Step-Falls (times_out batch e) c = ground arith
Step-Falls (sees_stop batch e k) c = ground arith
Step-Falls (dispatches [] e) c = ground arith
Step-Falls {s} (dispatches (r ∷ rs) e) c = ground (arith, length-append s.flights ((r ∷ rs) ∷ []))
Step-Falls (drains r rest e q) c = ground arith
Step-Falls (returns e q) c = ground arith
Step-Falls (flushes env before after batch ranged e) c =
    ground (arith, length-append before (batch ∷ after), length-append before after)
Step-Falls (stops_tracking e k) c = ground arith

Reach-Falls : {s t : System} (run : Reach s t) → IsClosed s → Falls (work run) s t
Reach-Falls here c = (c, omega arith)
Reach-Falls (next run st) c =
    let (d, less) = Reach-Falls run c in let (e, more) = Step-Falls st d in (e, omega arith)

-- One of the goroutines can take a step.
pub data CanWork (s : System) : Type 0 where
  by_step : {t : System} (st : Step s t) → work_of st ≡ 1 → CanWork s

module _ (env : Env) (ranged : (m : ReqMap) → Perm (env.ranged m) m) where
  loop-CanWork :
      (l : Loop) (s : System)
      → s.loop ≡ l
      → s.flights ≡ []
      → s.b.stop_closed ≡ true
      → AtRest s ⊎ CanWork s
  loop-CanWork top s e f c = inr (by_step (peeks e) refl)
  loop-CanWork (collecting batch) s e f c = inr (by_step (sees_stop batch e c) refl)
  loop-CanWork (collected []) s e f c = inr (by_step (dispatches [] e) refl)
  loop-CanWork (collected (r ∷ rs)) s e f c = inr (by_step (dispatches (r ∷ rs) e) refl)
  loop-CanWork draining s e f c = elim (List-cases s.b.queue) [
    | inl q ↦ inr (by_step (returns e q) refl)
    | inr (r, rest, q) ↦ inr (by_step (drains r rest e q) refl)
  ]
  loop-CanWork returned s e f c = inl (record { loop_returned = e; no_flights = f })

  closed-CanWork : (s : System) → s.b.stop_closed ≡ true → AtRest s ⊎ CanWork s
  closed-CanWork s c = elim (List-cases s.flights) [
    | inl f ↦ loop-CanWork s.loop s refl f c
    | inr (b, bs, f) ↦ inr (by_step (flushes env [] bs b ranged f) refl)
  ]

  -- Once stopCh is closed, in whatever order submissions, ticks, Stop and the batcher's goroutines
  -- go on, the goroutines take no more steps, ticks aside, than were left at the start; and until
  -- the loop has returned and no flush is in flight, one of them can take a step. The backend call
  -- of a flush is taken to end, in the environment given.
  pub closed-halts :
      (cfg : Config) (m : Metrics) {s t : System}
      → Reach (start cfg m) s
      → s.b.stop_closed ≡ true
      → (run : Reach s t) → (work run + steps_left t ≤ steps_left s) × (AtRest t ⊎ CanWork t)
  closed-halts cfg m {s} {t} reach c run =
      let safe = start-IsSafe cfg m reach in
      let stopped = closed_means_stopped s.stopping s.b.stopped s.b.stop_closed safe.flags_fit c in
      let (closed, bound) = Reach-Falls run (c, stopped) in (bound, closed-CanWork t closed.0)
