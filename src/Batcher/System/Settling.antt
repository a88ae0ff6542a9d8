-- ===== src/Batcher/System/Settling.antt =====
-- While stopCh is open, the batcher's goroutines can always answer everything that is accepted.
use mathlib.Core.List.{flatten}
use distri_inference_sidecar.Prelude.{
  ◌≡◌, refl, false, List, [], ◌∷◌, ◌++◌, map, Perm, Bool-cases, inl, inr, arith,
}
use distri_inference_sidecar.Metrics.{Metrics}
use distri_inference_sidecar.Batcher.ReqMap.{ReqMap}
use distri_inference_sidecar.Batcher.Types.{Config, Request}
use distri_inference_sidecar.Batcher.Flush.{Env}
use distri_inference_sidecar.Batcher.Delivery.{channels}
use distri_inference_sidecar.Batcher.Queue.{is_full}
use distri_inference_sidecar.Batcher.System.{
  System, Loop, top, collecting, collected, draining, returned, Step, peeks, receives, times_out,
  dispatches, flushes, Reach, start, take_request, dispatch, pending,
}
use distri_inference_sidecar.Batcher.System.Own.{
  IsOwn, OwnReach, own_here, own_next, OwnReach-trans, OwnReach-after,
}
use distri_inference_sidecar.Batcher.System.Ledger.{pending-nil}
use distri_inference_sidecar.Batcher.System.Safety.{IsSafe, start-IsSafe}

-- What a state leads to: one where nothing is pending, with stopCh as it was.
record Settles (s : System) : Type 0 where
  target : System
  reach : OwnReach s target
  open_still : target.b.stop_closed ≡ false
  nothing : pending target ≡ []

after : {s t : System} (st : Step s t) → IsOwn st → Settles t → Settles s
after st own l = record {
  target = l.target;
  reach = OwnReach-trans (own_next own_here st own) l.reach;
  open_still = l.open_still;
  nothing = l.nothing;
}

module _ (env : Env) (ranged : (m : ReqMap) → Perm (env.ranged m) m) where
  land :
      (fs : List (List Request)) (s : System)
      → s.flights ≡ fs
      → s.b.stop_closed ≡ false
      → s.b.queue ≡ []
      → s.loop ≡ top
      → Settles s
  unfolding flatten
  land [] s f c q e = record {
    target = s;
    reach = own_here;
    open_still = c;
    nothing = rw (q, e, f);
  }
  land (b ∷ bs) s f c q e = after (flushes env [] bs b ranged f) tt (land bs _ refl c q e)

  -- Behind collectBatch, with what follows at the top of the loop.
  hand_out :
      (batch q : List Request) (s : System)
      → s.b.stop_closed ≡ false
      → s.b.queue ≡ q
      → s.loop ≡ collected batch
      → ((t : System) → t.b.stop_closed ≡ false → t.b.queue ≡ q → t.loop ≡ top → Settles t)
      → Settles s
  unfolding dispatch
  hand_out [] q s c h e go = after (dispatches [] e) tt (go _ c h (rw c))
  hand_out (r ∷ rs) q s c h e go = after (dispatches (r ∷ rs) e) tt (go _ c h refl)

  collect :
      (q batch : List Request) (s : System)
      → s.b.stop_closed ≡ false
      → s.b.queue ≡ q
      → s.loop ≡ collecting batch
      → Settles s
  unfolding take_request
  collect [] batch s c h e =
      after (times_out batch e) tt
        (hand_out batch [] _ c h refl (λ t d k l. land t.flights t refl d k l))
  collect (r ∷ rest) batch s c h e =
      after (receives batch r rest e h) tt (elim (Bool-cases (is_full s.b.cfg (batch ++ r ∷ []))) [
        | inl full ↦
            hand_out (batch ++ r ∷ []) rest _ c refl (rw full)
              (λ t d k l. after (peeks l) tt (collect rest [] _ d k (rw d)))
        | inr more ↦ collect rest (batch ++ r ∷ []) _ c refl (rw more)
      ])

  from_top :
      (q : List Request) (s : System)
      → s.b.stop_closed ≡ false
      → s.b.queue ≡ q
      → s.loop ≡ top
      → Settles s
  from_top q s c h e = after (peeks e) tt (collect q [] _ c h (rw c))

  from_loop :
      (l : Loop) (s : System) {cfg : Config}
      → IsSafe cfg s
      → s.b.stop_closed ≡ false
      → s.loop ≡ l
      → Settles s
  from_loop top s h c e = from_top s.b.queue s c refl e
  from_loop (collecting batch) s h c e = collect s.b.queue batch s c refl e
  from_loop (collected batch) s h c e =
      hand_out batch s.b.queue s c refl e (λ t d k l. from_top s.b.queue t d k l)
  from_loop draining s h c e = absurd (ground arith)
  from_loop returned s h c e = absurd (ground arith)

  -- From every reachable state with stopCh open, steps of the batcher's own goroutines lead to one
  -- with stopCh open where every accepted request has got its result.
  pub settles :
      (cfg : Config) (m : Metrics) (s : System)
      → Reach (start cfg m) s
      → s.b.stop_closed ≡ false
      → (t : System) × OwnReach s t
        × (t.b.stop_closed ≡ false)
        × Perm (channels t.b.out.sent) (map (λ r. r.result_ch) t.accepted)
  settles cfg m s reach c =
      let l = from_loop s.loop s (start-IsSafe cfg m reach) c refl in
      (l.target, l.reach, l.open_still, pending-nil cfg m (OwnReach-after reach l.reach) l.nothing)
