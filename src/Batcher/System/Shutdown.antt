-- ===== src/Batcher/System/Shutdown.antt =====
-- Stop: once it has signalled, the batcher can always come to rest with every request answered;
-- but Stop itself may return before that.
use mathlib.Core.List.{flatten}
use distri_inference_sidecar.Prelude.{
  ◌≡◌, refl, subst, ◌∙◌, true, false, List, [], ◌∷◌, map, Perm, arith,
}
use distri_inference_sidecar.Metrics.{Metrics}
use distri_inference_sidecar.Batcher.ReqMap.{ReqMap}
use distri_inference_sidecar.Batcher.Types.{Config, Request}
use distri_inference_sidecar.Batcher.Flush.{Env}
use distri_inference_sidecar.Batcher.Delivery.{channels}
use distri_inference_sidecar.Batcher.Queue.{submit}
use distri_inference_sidecar.Batcher.System.{
  System, Loop, top, collecting, collected, draining, returned, done, Step, submits, peeks,
  receives, sees_stop, dispatches, drains, returns, flushes, stops_tracking, locks, signals, waits,
  Reach, here, next, start, after_submit, take_request, dispatch, held, pending,
}
use distri_inference_sidecar.Batcher.System.Own.{
  IsOwn, OwnReach, own_here, own_next, OwnReach-trans, OwnReach-after, kept-IsOwn,
}
use distri_inference_sidecar.Batcher.System.Ledger.{pending-nil}
use distri_inference_sidecar.Batcher.System.Safety.{start-IsSafe}

-- At rest: the loop has returned and no flush is in flight.
pub record AtRest (s : System) : Type 0 where
  pub loop_returned : s.loop ≡ returned
  pub no_flights : s.flights ≡ []

-- When the batcher is at rest, each accepted request has got exactly one result, and nothing else
-- was sent.
AtRest-answered :
    (cfg : Config) (m : Metrics) {s : System}
    → Reach (start cfg m) s
    → AtRest s
    → Perm (channels s.b.out.sent) (map (λ r. r.result_ch) s.accepted)
unfolding flatten
AtRest-answered cfg m {s} reach rest = pending-nil cfg m reach pending_empty
  where
    queue_empty : s.b.queue ≡ []
    queue_empty = ground (arith, start-IsSafe cfg m reach, rest)

    pending_empty : pending s ≡ []
    pending_empty = rw (queue_empty, rest.loop_returned, rest.no_flights)

-- What a state leads to: another one, stopped as well, with the same accepted requests.
pub record Leads (s : System) : Type 0 where
  pub target : System
  pub reach : OwnReach s target
  pub same : target.accepted ≡ s.accepted
  pub rest : AtRest target

after : {s t : System} (st : Step s t) → IsOwn st → Leads t → Leads s
after st own l = record {
  target = l.target;
  reach = OwnReach-trans (own_next own_here st own) l.reach;
  same = l.same ∙ (kept-IsOwn st own).0;
  rest = l.rest;
}

module _ (env : Env) (ranged : (m : ReqMap) → Perm (env.ranged m) m) where
  land : (fs : List (List Request)) (s : System) → s.flights ≡ fs → s.loop ≡ returned → Leads s
  land [] s f e = record {
    target = s;
    reach = own_here;
    same = refl;
    rest = record { loop_returned = e; no_flights = f };
  }
  land (b ∷ bs) s f e = after (flushes env [] bs b ranged f) tt (land bs _ refl e)

  drain : (q : List Request) (s : System) → s.b.queue ≡ q → s.loop ≡ draining → Leads s
  drain [] s f e = after (returns e f) tt (land s.flights _ refl refl)
  drain (r ∷ rest) s f e = after (drains r rest e f) tt (drain rest _ refl e)

  from_top : (s : System) → s.b.stop_closed ≡ true → s.loop ≡ top → Leads s
  from_top s c e = after (peeks e) tt (drain s.b.queue _ refl (rw c))

  from_collected :
      (batch : List Request) (s : System)
      → s.b.stop_closed ≡ true
      → s.loop ≡ collected batch
      → Leads s
  unfolding dispatch
  from_collected [] s c e = after (dispatches [] e) tt (drain s.b.queue _ refl (rw c))
  from_collected (r ∷ rs) s c e = after (dispatches (r ∷ rs) e) tt (from_top _ c refl)

  pub from_loop : (l : Loop) (s : System) → s.b.stop_closed ≡ true → s.loop ≡ l → Leads s
  from_loop top s c e = from_top s c e
  from_loop (collecting batch) s c e =
      after (sees_stop batch e c) tt (from_collected batch _ c refl)
  from_loop (collected batch) s c e = from_collected batch s c e
  from_loop draining s c e = drain s.b.queue s refl e
  from_loop returned s c e = land s.flights s refl e

  -- From every state reached after Stop has closed stopCh, the batcher comes to rest in some steps
  -- that accept nothing more, and then each request accepted so far has got exactly one result.
  -- The backend calls in flight are taken to end, in the environment given.
  stop-rests :
      (cfg : Config) (m : Metrics) (s : System)
      → Reach (start cfg m) s
      → s.b.stop_closed ≡ true
      → (t : System) × Reach s t
        × AtRest t
        × Perm (channels t.b.out.sent) (map (λ r. r.result_ch) s.accepted)
  stop-rests cfg m s reach c =
      let l = from_loop s.loop s c refl in
      (
        l.target,
        OwnReach-after here l.reach,
        l.rest,
        subst (λ rs. Perm (channels l.target.b.out.sent) (map (λ r. r.result_ch) rs)) l.same
            (AtRest-answered cfg m (OwnReach-after reach l.reach) l.rest),
      )

-- The states on the way to an early return of Stop.
module _ (cfg : Config) (m : Metrics) (r : Request) where
  early : System
  unfolding start after_submit submit take_request
  early =
      let s = after_submit false r (start cfg m) in
      let t = take_request [] r [] (record s { loop = collecting [] }) in
      record t {
        b = record t.b { stopped = true; stop_closed = true };
        tracking = false;
        stopping = done;
      }

  -- Stop can return while the only request that was accepted waits in a batch which the loop has
  -- not handed to a flush: the loop is not counted in the wait group. This holds for every
  -- configuration, every request and every state of the metrics at the start.
  pub stop-early :
      (s : System) × Reach (start cfg m) s
      × (s.stopping ≡ done)
      × (s.accepted ≡ r ∷ [])
      × (held s.loop ≡ r ∷ [])
      × (s.b.out.sent ≡ [])
  unfolding early start after_submit submit take_request
  stop-early = (early, steps, refl, refl, ground arith, refl)
    where
      steps : Reach (start cfg m) early
      steps =
          next
            (next
              (next
                (next
                  (next (next (next here (submits false r)) (peeks refl))
                    (receives [] r [] refl refl))
                  (locks refl))
                (signals refl))
              (stops_tracking refl refl))
            (waits refl (refl, refl))
