-- ===== src/Batcher/Queue.antt =====
-- internal/batcher/batcher.go: the state of a Batcher, New, Submit, what the loop takes from the
-- queue, and the request counter behind the QPS estimate.
use distri_inference_sidecar.Prelude.{
  ℕ, ◌+◌, Bool, true, false, Option, none, some, List, [], ◌∷◌, ◌++◌, length, ltb, if◌then◌else◌,
}
use distri_inference_sidecar.Prelude.Int.{ℤ, pos, leb_ℤ}
use distri_inference_sidecar.Errors.{
  GoError, sentinel, plain, err_circuit_open, err_queue_full, err_batcher_stopped, sentinel_text,
}
use distri_inference_sidecar.Metrics.{Metrics}
use distri_inference_sidecar.Batcher.Types.{Config, Request, Out}
use distri_inference_sidecar.Batcher.Window.{client_timeout}

-- The buffer of the queue channel.
abbrev pub queue_capacity : ℕ
queue_capacity = 1000

-- `stop_closed` says that stopCh is closed. The guard is outside: its circuit is read by Submit.
pub record Batcher : Type 0 where
  pub cfg : Config
  pub timeout : ℤ
  pub queue : List Request
  pub req_count : ℕ
  pub current_qps : ℕ
  pub stopped : Bool
  pub stop_closed : Bool
  pub out : Out

unfoldable pub new : Config → Metrics → Batcher
unfolding client_timeout
new cfg m = record {
  cfg = cfg;
  timeout = client_timeout cfg;
  queue = [];
  req_count = 0;
  current_qps = 0;
  stopped = false;
  stop_closed = false;
  out = record { metrics = m; sent = [] };
}

abbrev pub with_metrics : Batcher → Metrics → Batcher
with_metrics b m = record b { out = record b.out { metrics = m } }

abbrev trip : Metrics → Metrics
trip m = record m { circuit_breaker_trips = m.circuit_breaker_trips + 1 }

abbrev reject : Metrics → Metrics
reject m = record m { queue_rejects = m.queue_rejects + 1 }

-- The part of Submit under the read lock; the send succeeds if the buffer has room.
unfoldable pub enqueue : Request → Batcher → Batcher × Option GoError
enqueue r b =
    if b.stopped
    then (b, some (sentinel err_batcher_stopped))
    else if ltb (length b.queue) queue_capacity
    then (record b { queue = b.queue ++ r ∷ []; req_count = b.req_count + 1 }, none)
    else (with_metrics b (reject b.out.metrics), some (sentinel err_queue_full))

-- `is_open` is what `b.vg.IsOpen()` returns.
unfoldable pub submit : Bool → Request → Batcher → Batcher × Option GoError
unfolding enqueue
submit is_open r b =
    if is_open
    then (with_metrics b (trip b.out.metrics), some (sentinel err_circuit_open))
    else enqueue r b

-- `len(batch) >= b.cfg.MaxBatchSize`
unfoldable pub is_full : Config → List Request → Bool
is_full cfg batch = leb_ℤ cfg.max_batch_size (pos (length batch))

-- What drainQueueWithError is given in Start: a fresh error, not the sentinel with that text.
unfoldable pub drain_error : GoError
unfolding sentinel_text
drain_error = plain (sentinel_text err_batcher_stopped)

-- The locked part of Stop, and `close(b.stopCh)`.
abbrev pub mark_stopped : Batcher → Batcher
mark_stopped b = record b { stopped = true }

abbrev pub close_stop : Batcher → Batcher
close_stop b = record b { stop_closed = true }

-- One tick of trackQPS.
abbrev pub track_qps : Batcher → Batcher
track_qps b = record b { current_qps = b.req_count; req_count = 0 }
