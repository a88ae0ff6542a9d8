-- ===== src/Batcher/System/Collecting.antt =====
-- The loop of the steps against collectBatch: what the loop holds is what the function returns.
use distri_inference_sidecar.Prelude.{
  ◌≡◌, refl, subst, ◌∙◌, Bool, true, false, List, [], ◌∷◌, ◌++◌, arith, if◌then◌else◌, Bool-cases,
  inl, inr,
}
use distri_inference_sidecar.Metrics.{Metrics}
use distri_inference_sidecar.Batcher.Types.{Config, Request}
use distri_inference_sidecar.Batcher.Queue.{is_full}
use distri_inference_sidecar.Batcher.Collect.{
  Choice, taken, deadline, stop_seen, Progress, collect_batch,
}
use distri_inference_sidecar.Batcher.Collect
use distri_inference_sidecar.Batcher.System.{
  System, Loop, top, collecting, collected, draining, returned, Step, submits, peeks, receives,
  times_out, sees_stop, dispatches, drains, returns, flushes, ticks, stops_tracking, rejects, locks,
  signals, waits, Reach, here, next, start, after_submit, take_request, dispatch,
}
use distri_inference_sidecar.Batcher.System.Safety.{start-IsSafe}

abbrev pub chosen_by : {s t : System} → List Choice → Step s t → List Choice
chosen_by cs (peeks e) = []
chosen_by cs (receives batch r rest e q) = cs ++ taken r ∷ []
chosen_by cs (times_out batch e) = cs ++ deadline ∷ []
chosen_by cs (sees_stop batch e k) = cs ++ stop_seen ∷ []
chosen_by cs _ = cs

-- The branches of the select since the last call of collectBatch in a run.
abbrev pub choices : {s t : System} → Reach s t → List Choice
choices here = []
choices (next reach st) = chosen_by (choices reach) st

-- Progress of the call against the position of the loop.
abbrev pub Agrees : Loop → Progress → Type 0
Agrees (collecting batch) p = p ≡ Collect.waiting batch
Agrees (collected batch) p = p ≡ Collect.returned batch
Agrees top p = Unit
Agrees draining p = Unit
Agrees returned p = Unit

collect_batch-snoc :
    (cfg : Config) (batch more : List Request) (cs : List Choice) (c : Choice)
    → collect_batch cfg batch cs ≡ Collect.waiting more
    → collect_batch cfg batch (cs ++ c ∷ []) ≡ collect_batch cfg more (c ∷ [])
unfolding collect_batch
collect_batch-snoc cfg batch more [] c h = ground arith
collect_batch-snoc cfg batch more (taken r ∷ cs) c h =
    ground (arith, collect_batch-snoc cfg (batch ++ r ∷ []) more cs c)
collect_batch-snoc cfg batch more (deadline ∷ cs) c h = ground arith
collect_batch-snoc cfg batch more (stop_seen ∷ cs) c h = ground arith

abbrev Follows : Config → List Choice → System → Type 0
Follows cfg cs s = Agrees s.loop (collect_batch cfg [] cs)

Agrees-turn :
    (c : Bool) (l : Loop) (p : Progress) → Agrees l p → Agrees (if c then draining else l) p
Agrees-turn true l p h = tt
Agrees-turn false l p h = h

module _ (cfg : Config) (cs : List Choice) where
  waits_with :
      (s : System) (batch : List Request)
      → s.loop ≡ collecting batch
      → Follows cfg cs s
      → collect_batch cfg [] cs ≡ Collect.waiting batch
  waits_with s batch e h = subst (λ l. Agrees l (collect_batch cfg [] cs)) e h

  take-Follows :
      (s : System) (batch : List Request) (r : Request) (rest : List Request)
      → s.b.cfg ≡ cfg
      → s.loop ≡ collecting batch
      → Follows cfg cs s
      → Follows cfg (cs ++ taken r ∷ []) (take_request batch r rest s)
  unfolding take_request collect_batch
  take-Follows s batch r rest c e h =
      let run = collect_batch-snoc cfg [] batch cs (taken r) (waits_with s batch e h) in
      elim (Bool-cases (is_full cfg (batch ++ r ∷ []))) [
        | inl full ↦ rw (c, full) (run ∙ rw full)
        | inr more ↦ rw (c, more) (run ∙ rw more)
      ]

  Step-Follows :
      {s t : System} (st : Step s t)
      → s.b.cfg ≡ cfg
      → Follows cfg cs s
      → Follows cfg (chosen_by cs st) t
  unfolding after_submit dispatch collect_batch
  Step-Follows (submits o r) c h = h
  Step-Follows {s} (peeks e) c h =
      Agrees-turn s.b.stop_closed (collecting []) (collect_batch cfg [] []) refl
  Step-Follows {s} (receives batch r rest e q) c h = take-Follows s batch r rest c e h
  Step-Follows {s} (times_out batch e) c h =
      collect_batch-snoc cfg [] batch cs deadline (waits_with s batch e h)
  Step-Follows {s} (sees_stop batch e k) c h =
      collect_batch-snoc cfg [] batch cs stop_seen (waits_with s batch e h)
  Step-Follows {s} (dispatches [] e) c h =
      Agrees-turn s.b.stop_closed top (collect_batch cfg [] cs) tt
  Step-Follows (dispatches (r ∷ rs) e) c h = tt
  Step-Follows {s} (drains r rest e q) c h = h
  Step-Follows (returns e q) c h = tt
  Step-Follows (flushes env before after batch ranged e) c h = h
  Step-Follows (ticks e) c h = h
  Step-Follows (stops_tracking e k) c h = h
  Step-Follows rejects c h = h
  Step-Follows (locks e) c h = h
  Step-Follows (signals e) c h = h
  Step-Follows (waits e k) c h = h

-- In every run from Start, while the loop is in the select of collectBatch or behind its return, it
-- holds the batch that collectBatch has, or returns, by the branches that the select has taken in
-- the call.
pub Reach-Agrees :
    (cfg : Config) (m : Metrics) {s : System} (reach : Reach (start cfg m) s)
    → Agrees s.loop (collect_batch cfg [] (choices reach))
unfolding start
Reach-Agrees cfg m here = tt
Reach-Agrees cfg m (next reach st) =
    Step-Follows cfg (choices reach) st (start-IsSafe cfg m reach).config (Reach-Agrees cfg m reach)
