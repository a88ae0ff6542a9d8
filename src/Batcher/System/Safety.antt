-- ===== src/Batcher/System/Safety.antt =====
-- What holds of the shared state between two steps: the bounds on the queue and on batches, and
-- the order in which a shutdown proceeds.
use Prim.Native.Nat.{max}
use distri_inference_sidecar.Prelude.{
  ℕ, ◌≤◌, ◌<◌, ◌≡◌, Bool, true, false, List, [], ◌∷◌, ◌++◌, length, length-append, arith,
}
use distri_inference_sidecar.Prelude.Int.{pos_part}
use distri_inference_sidecar.Metrics.{Metrics}
use distri_inference_sidecar.Batcher.Types.{Config, Request}
use distri_inference_sidecar.Batcher.Queue.{submit, is_full, queue_capacity}
use distri_inference_sidecar.Batcher.System.{
  System, Loop, top, collecting, collected, draining, returned, Stopping, idle, locked, waiting,
  done, Step, submits, peeks, receives, times_out, sees_stop, dispatches, drains, returns, flushes,
  ticks, stops_tracking, rejects, locks, signals, waits, Reach, here, next, start, after_submit,
  take_request, dispatch,
}

-- At most this many requests go into one batch: MaxBatchSize, or one if that is not positive.
abbrev pub batch_limit : Config → ℕ
batch_limit cfg = max 1 (pos_part cfg.max_batch_size)

-- What the position of the loop says of the rest of the state.
abbrev LoopFits : Config → Loop → List Request → Bool → Type 0
LoopFits cfg top q closed = Unit
LoopFits cfg (collecting batch) q closed = length batch < batch_limit cfg
LoopFits cfg (collected batch) q closed = length batch ≤ batch_limit cfg
LoopFits cfg draining q closed = closed ≡ true
LoopFits cfg returned q closed = (closed ≡ true) × (q ≡ [])

abbrev pub AllFit : ℕ → List (List Request) → Type 0
AllFit n [] = Unit
AllFit n (batch ∷ bs) = (1 ≤ length batch) × (length batch ≤ n) × AllFit n bs

-- How far Stop is, against the two flags that it sets.
abbrev FlagsFit : Stopping → Bool → Bool → Type 0
FlagsFit idle stopped closed = (stopped ≡ false) × (closed ≡ false)
FlagsFit locked stopped closed = (stopped ≡ true) × (closed ≡ false)
FlagsFit waiting stopped closed = (stopped ≡ true) × (closed ≡ true)
FlagsFit done stopped closed = (stopped ≡ true) × (closed ≡ true)

pub record IsSafe (cfg : Config) (s : System) : Type 0 where
  pub config : s.b.cfg ≡ cfg
  pub queue_fits : length s.b.queue ≤ queue_capacity
  pub loop_fits : LoopFits cfg s.loop s.b.queue s.b.stop_closed
  pub flights_fit : AllFit (batch_limit cfg) s.flights
  pub flags_fit : FlagsFit s.stopping s.b.stopped s.b.stop_closed

submit-IsSafe :
    (cfg : Config) (s : System) (is_open : Bool) (r : Request)
    → IsSafe cfg s
    → IsSafe cfg (after_submit is_open r s)
unfolding after_submit submit
submit-IsSafe cfg s is_open r h = ground (arith, length-append s.b.queue (r ∷ []))

pub closed_means_stopped :
    (p : Stopping) (stopped closed : Bool)
    → FlagsFit p stopped closed
    → closed ≡ true
    → stopped ≡ true
closed_means_stopped p stopped closed h c = ground arith

take-IsSafe :
    (cfg : Config) (s : System) (batch : List Request) (r : Request) (rest : List Request)
    → s.loop ≡ collecting batch
    → s.b.queue ≡ r ∷ rest
    → IsSafe cfg s
    → IsSafe cfg (take_request batch r rest s)
unfolding take_request is_full
take-IsSafe cfg s batch r rest e q h = ground (arith, length-append batch (r ∷ []))

AllFit-concat :
    (n : ℕ) (bs : List (List Request)) (batch : List Request)
    → AllFit n bs
    → 1 ≤ length batch
    → length batch ≤ n
    → AllFit n (bs ++ batch ∷ [])
AllFit-concat n [] batch h p q = (p, q, tt)
AllFit-concat n (b ∷ bs) batch h p q = (h.0, h.1, AllFit-concat n bs batch h.2 p q)

AllFit-remove :
    (n : ℕ) (before after : List (List Request)) (batch : List Request)
    → AllFit n (before ++ batch ∷ after)
    → AllFit n (before ++ after)
AllFit-remove n [] after batch h = h.2
AllFit-remove n (b ∷ before) after batch h = (h.0, h.1, AllFit-remove n before after batch h.2)

Step-IsSafe : (cfg : Config) {s t : System} → Step s t → IsSafe cfg s → IsSafe cfg t
unfolding dispatch
Step-IsSafe cfg {s} (submits is_open r) h = submit-IsSafe cfg s is_open r h
Step-IsSafe cfg {s} (peeks e) h = ground arith
Step-IsSafe cfg {s} (receives batch r rest e q) h = take-IsSafe cfg s batch r rest e q h
Step-IsSafe cfg {s} (times_out batch e) h = ground arith
Step-IsSafe cfg {s} (sees_stop batch e c) h = ground arith
Step-IsSafe cfg {s} (dispatches [] e) h = ground arith
Step-IsSafe cfg {s} (dispatches (r ∷ rs) e) h =
    ground (arith, AllFit-concat (batch_limit cfg) s.flights (r ∷ rs))
Step-IsSafe cfg {s} (drains r rest e q) h = ground arith
Step-IsSafe cfg {s} (returns e q) h = ground arith
Step-IsSafe cfg {s} (flushes env before after batch ranged e) h =
    ground (arith, AllFit-remove (batch_limit cfg) before after batch)
Step-IsSafe cfg (ticks e) h = ground arith
Step-IsSafe cfg (stops_tracking e c) h = ground arith
Step-IsSafe cfg {s} rejects h = ground arith
Step-IsSafe cfg (locks e) h = ground arith
Step-IsSafe cfg (signals e) h = ground arith
Step-IsSafe cfg (waits e w) h = ground arith

Reach-IsSafe : (cfg : Config) {s t : System} → IsSafe cfg s → Reach s t → IsSafe cfg t
Reach-IsSafe cfg h here = h
Reach-IsSafe cfg h (next r st) = Step-IsSafe cfg st (Reach-IsSafe cfg h r)

-- A started batcher is safe in every state that it reaches: the queue holds at most 1000 requests;
-- a batch in collection is below the limit, a collected one at most at the limit, and a batch in
-- flight has from one request to the limit; the loop drains or has returned only if stopCh is
-- closed, and has left the queue empty when it has returned; stopCh is closed only with `stopped`
-- set, and both are set exactly as far as Stop has come.
pub start-IsSafe : (cfg : Config) (m : Metrics) {s : System} → Reach (start cfg m) s → IsSafe cfg s
unfolding start
start-IsSafe cfg m reach = Reach-IsSafe cfg {s = start cfg m} (ground arith) reach
