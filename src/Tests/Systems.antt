-- ===== src/Tests/Systems.antt =====
-- The interleaved batcher at a concrete history: two requests with one ID and one more are
-- accepted, a full batch is collected and flushed, and Stop finds the third in the queue.
use mathlib.Core.List.{flatten}
use distri_inference_sidecar.Prelude.{◌≡◌, ◌≤◌, ◌+◌, ◌⊎◌, refl, true, false, [], ◌∷◌, ◌++◌}
use distri_inference_sidecar.Metrics
use distri_inference_sidecar.Batcher.Flush.{flush_batch, fail_request}
use distri_inference_sidecar.Batcher.Counters.{IsCounted, Reach-IsCounted}
use distri_inference_sidecar.Batcher.Queue.{drain_error}
use distri_inference_sidecar.Batcher.System.{
  System, top, collected, returned, waiting, done, submits, peeks, receives, dispatches, drains,
  returns, flushes, ticks, locks, signals, Reach, here, next, start, after_submit, take_request,
  dispatch, held,
}
use distri_inference_sidecar.Batcher.System.History.{flushed, IsExplained, Reach-IsExplained}
use distri_inference_sidecar.Batcher.System.History
use distri_inference_sidecar.Batcher.System.Halting.{work, steps_left, CanWork, closed-halts}
use distri_inference_sidecar.Batcher.System.Promise.{no_debts, Acts, debts}
use distri_inference_sidecar.Batcher.System.Promise.Keeping.{start-Acts}
use distri_inference_sidecar.Batcher.System.Order.{dispatched, drained, Reach-fifo}
use distri_inference_sidecar.Batcher.System.Collecting.{choices}
use distri_inference_sidecar.Batcher.System.Gathering.{Gathered, Reach-Gathered}
use distri_inference_sidecar.Batcher.System.Rate.{since_tick, last_window, Reach-rate}
use distri_inference_sidecar.Batcher.System.Safety.{IsSafe, start-IsSafe}
use distri_inference_sidecar.Batcher.System.Shutdown.{AtRest, stop-early}
use distri_inference_sidecar.Tests.Samples.{config, first, second, third, env, env_ranged}

abbrev begin : System
begin = start config Metrics.new

-- The three are accepted and the first two collected.
abbrev gathered : System
unfolding start after_submit take_request
gathered =
    let s = after_submit false third (after_submit false second (after_submit false first begin)) in
    record s { b = record s.b { queue = third ∷ [] }; loop = collected (first ∷ second ∷ []) }

to_gathered : Reach begin gathered
unfolding start after_submit take_request
to_gathered =
    next
      (next
        (next
          (next (next (next here (submits false first)) (submits false second))
            (submits false third))
          (peeks refl))
        (receives [] first (second ∷ third ∷ []) refl refl))
      (receives (first ∷ []) second (third ∷ []) refl refl)

-- Then the batch is in flight and Stop has signalled.
abbrev stopped : System
unfolding start after_submit take_request
stopped = record gathered {
  b = record gathered.b { stopped = true; stop_closed = true };
  loop = top;
  flights = (first ∷ second ∷ []) ∷ [];
  stopping = waiting;
}

to_stopped : Reach begin stopped
unfolding start after_submit take_request dispatch
to_stopped =
    next (next (next to_gathered (dispatches (first ∷ second ∷ []) refl)) (locks refl))
      (signals refl)

-- The loop drains and returns, and the flight lands.
abbrev ended : System
unfolding start after_submit take_request
ended = record stopped {
  b = record stopped.b {
    queue = [];
    out =
        flush_batch env config (first ∷ second ∷ []) (fail_request third drain_error stopped.b.out);
  };
  loop = returned;
  flights = [];
}

to_ended : Reach begin ended
unfolding start after_submit take_request dispatch
to_ended =
    next
      (next (next (next to_stopped (peeks refl)) (drains third [] refl refl)) (returns refl refl))
      (flushes env [] [] (first ∷ second ∷ []) env_ranged refl)

start-IsSafe_example : IsSafe config stopped
start-IsSafe_example = start-IsSafe config Metrics.new to_stopped

Reach-IsCounted_example : IsCounted ended.b.out
Reach-IsCounted_example = Reach-IsCounted config to_ended

stop-early_example :
    (s : System) × Reach begin s
    × (s.stopping ≡ done)
    × (s.accepted ≡ first ∷ [])
    × (held s.loop ≡ first ∷ [])
    × (s.b.out.sent ≡ [])
stop-early_example = stop-early config Metrics.new first

Reach-IsExplained_example : IsExplained config (flushed to_ended) (History.drained to_ended) ended
Reach-IsExplained_example = Reach-IsExplained config Metrics.new to_ended

Reach-fifo_example :
    flatten (dispatched to_stopped)
      ++ (held stopped.loop ++ (drained to_stopped ++ stopped.b.queue))
    ≡ stopped.accepted
Reach-fifo_example = Reach-fifo config Metrics.new to_stopped

Reach-Gathered_example : Gathered config (choices to_gathered) gathered.loop
Reach-Gathered_example = Reach-Gathered config Metrics.new to_gathered

-- The three are counted when the tick comes.
abbrev ticked : System
ticked = record gathered { b = record gathered.b { current_qps = 3; req_count = 0 } }

to_ticked : Reach begin ticked
unfolding start after_submit take_request
to_ticked = next to_gathered (ticks refl)

Reach-rate_example :
    (ticked.b.req_count ≡ since_tick to_ticked) × (ticked.b.current_qps ≡ last_window to_ticked)
Reach-rate_example = Reach-rate config Metrics.new to_ticked

start-Acts_example : Acts config no_debts (debts ended)
start-Acts_example = start-Acts config Metrics.new to_ended

-- From the signal on: four of the five steps that are left.
landing : Reach stopped ended
unfolding start after_submit take_request dispatch
landing =
    next (next (next (next here (peeks refl)) (drains third [] refl refl)) (returns refl refl))
      (flushes env [] [] (first ∷ second ∷ []) env_ranged refl)

closed-halts_example :
    (work landing + steps_left ended ≤ steps_left stopped) × (AtRest ended ⊎ CanWork ended)
unfolding stopped
closed-halts_example = closed-halts env env_ranged config Metrics.new to_stopped refl landing
