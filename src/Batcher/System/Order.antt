-- ===== src/Batcher/System/Order.antt =====
-- First come, first served: in which order requests leave the queue, into which batches.
use mathlib.Core.List.{append-nil, append_assoc, flatten}
use distri_inference_sidecar.Prelude.{
  ◌≡◌, refl, sym, ap, subst, ◌∙◌, Bool, true, false, List, [], ◌∷◌, ◌++◌, inl, inr, if◌then◌else◌,
  Bool-cases,
}
use distri_inference_sidecar.Metrics.{Metrics}
use distri_inference_sidecar.Batcher.Types.{Config, Request}
use distri_inference_sidecar.Batcher.Queue.{is_full}
use distri_inference_sidecar.Batcher.System.{
  System, Loop, top, collecting, collected, draining, returned, Step, submits, peeks, receives,
  times_out, sees_stop, dispatches, drains, returns, flushes, ticks, stops_tracking, rejects, locks,
  signals, waits, Reach, here, next, start, after_submit, take_request, dispatch, held,
}
use distri_inference_sidecar.Batcher.System.Ledger.{submit_cases}

abbrev dispatched_by : {s t : System} → Step s t → List (List Request)
dispatched_by (dispatches (r ∷ rs) e) = (r ∷ rs) ∷ []
dispatched_by _ = []

abbrev drained_by : {s t : System} → Step s t → List Request
drained_by (drains r rest e q) = r ∷ []
drained_by _ = []

-- The batches that the loop handed to a flush in a run, in that order.
abbrev pub dispatched : {s t : System} → Reach s t → List (List Request)
dispatched here = []
dispatched (next reach st) = dispatched reach ++ dispatched_by st

-- The requests that were drained in a run, in that order.
abbrev pub drained : {s t : System} → Reach s t → List Request
drained here = []
drained (next reach st) = drained reach ++ drained_by st

-- Nothing is drained before the loop is through with its batches.
abbrev DrainFits : Loop → List Request → Type 0
DrainFits top ds = ds ≡ []
DrainFits (collecting batch) ds = ds ≡ []
DrainFits (collected batch) ds = ds ≡ []
DrainFits draining ds = Unit
DrainFits returned ds = Unit

record IsOrdered (bs : List (List Request)) (ds : List Request) (s : System) : Type 0 where
  in_order : flatten bs ++ (held s.loop ++ (ds ++ s.b.queue)) ≡ s.accepted
  fits : DrainFits s.loop ds

module _ (bs : List (List Request)) (ds : List Request) where
  submit-IsOrdered :
      (s : System) (o : Bool) (r : Request)
      → IsOrdered bs ds s
      → IsOrdered bs ds (after_submit o r s)
  unfolding after_submit
  submit-IsOrdered s o r h = elim (submit_cases o r s.b) [
    | inl (x, e, q, d) ↦ record { in_order = rw (e, q) h.in_order; fits = h.fits }
    | inr (e, q, d) ↦ record {
      in_order = rw (e, q) (simp (append_assoc) refl ∙ ap (λ rs. rs ++ r ∷ []) h.in_order);
      fits = h.fits;
    }
  ]

  -- A step that adds nothing to the two lists.
  plain : {s : System} → IsOrdered bs ds s → IsOrdered (bs ++ []) (ds ++ []) s
  plain {s} h = rw (append-nil bs, append-nil ds) h

  at_loop :
      (s : System) (l : Loop)
      → held l ≡ held s.loop
      → DrainFits l ds
      → IsOrdered bs ds s
      → IsOrdered (bs ++ []) (ds ++ []) (record s { loop = l })
  at_loop s l e f h = plain (record { in_order = rw e h.in_order; fits = f })

  -- The loop turns to draining if stopCh is closed, and goes on else.
  at_turn :
      (c : Bool) (s : System) (l : Loop)
      → held l ≡ []
      → held s.loop ≡ []
      → DrainFits l ds
      → IsOrdered bs ds s
      → IsOrdered (bs ++ []) (ds ++ []) (record s { loop = if c then draining else l })
  at_turn true s l e k f h = at_loop s draining (sym k) tt h
  at_turn false s l e k f h = at_loop s l (e ∙ sym k) f h

  take-IsOrdered :
      (s : System) (batch : List Request) (r : Request) (rest : List Request)
      → s.loop ≡ collecting batch
      → s.b.queue ≡ r ∷ rest
      → IsOrdered bs ds s
      → IsOrdered bs ds (take_request batch r rest s)
  unfolding take_request
  take-IsOrdered s batch r rest e q h =
      let none_drained : ds ≡ [] = subst (λ l. DrainFits l ds) e h.fits in
      let moved : flatten bs ++ ((batch ++ r ∷ []) ++ (ds ++ rest)) ≡ s.accepted =
        rw (none_drained, append_assoc batch (r ∷ []) rest)
          (rw (none_drained, q, e) at h.in_order) in
      elim (Bool-cases (is_full s.b.cfg (batch ++ r ∷ []))) [
        | inl full ↦ rw full (record { in_order = moved; fits = none_drained })
        | inr more ↦ rw more (record { in_order = moved; fits = none_drained })
      ]

flatten-snoc :
    (bs : List (List Request)) (b : List Request) → flatten (bs ++ b ∷ []) ≡ flatten bs ++ b
unfolding flatten
flatten-snoc [] b = append-nil b
flatten-snoc (c ∷ bs) b =
    ap (λ rs. c ++ rs) (flatten-snoc bs b) ∙ sym (append_assoc c (flatten bs) b)

Step-IsOrdered :
    (bs : List (List Request)) (ds : List Request) {s t : System} (st : Step s t)
    → IsOrdered bs ds s
    → IsOrdered (bs ++ dispatched_by st) (ds ++ drained_by st) t
unfolding dispatch
Step-IsOrdered bs ds {s} (submits o r) h = plain bs ds (submit-IsOrdered bs ds s o r h)
Step-IsOrdered bs ds {s} (peeks e) h =
    at_turn bs ds s.b.stop_closed s (collecting []) refl (rw e)
      (subst (λ l. DrainFits l ds) e h.fits) h
Step-IsOrdered bs ds {s} (receives batch r rest e q) h =
    plain bs ds (take-IsOrdered bs ds s batch r rest e q h)
Step-IsOrdered bs ds {s} (times_out batch e) h =
    at_loop bs ds s (collected batch) (rw e) (subst (λ l. DrainFits l ds) e h.fits) h
Step-IsOrdered bs ds {s} (sees_stop batch e k) h =
    at_loop bs ds s (collected batch) (rw e) (subst (λ l. DrainFits l ds) e h.fits) h
Step-IsOrdered bs ds {s} (dispatches [] e) h =
    at_turn bs ds s.b.stop_closed s top refl (rw e) (subst (λ l. DrainFits l ds) e h.fits) h
Step-IsOrdered bs ds {s} (dispatches (r ∷ rs) e) h =
    let none_drained : ds ≡ [] = subst (λ l. DrainFits l ds) e h.fits in
    record {
      in_order =
          rw (none_drained, flatten-snoc bs (r ∷ rs), append_assoc (flatten bs) (r ∷ rs))
            (rw (none_drained, e) at h.in_order);
      fits = rw none_drained;
    }
Step-IsOrdered bs ds {s} (drains r rest e q) h = record {
  in_order = rw (append-nil bs, append_assoc ds (r ∷ []) rest) (rw q at h.in_order);
  fits = rw e tt;
}
Step-IsOrdered bs ds {s} (returns e q) h = at_loop bs ds s returned (rw e) tt h
Step-IsOrdered bs ds (flushes env before after batch ranged e) h =
    plain bs ds (record { in_order = h.in_order; fits = h.fits })
Step-IsOrdered bs ds (ticks e) h = plain bs ds (record { in_order = h.in_order; fits = h.fits })
Step-IsOrdered bs ds (stops_tracking e k) h =
    plain bs ds (record { in_order = h.in_order; fits = h.fits })
Step-IsOrdered bs ds rejects h = plain bs ds (record { in_order = h.in_order; fits = h.fits })
Step-IsOrdered bs ds (locks e) h = plain bs ds (record { in_order = h.in_order; fits = h.fits })
Step-IsOrdered bs ds (signals e) h = plain bs ds (record { in_order = h.in_order; fits = h.fits })
Step-IsOrdered bs ds (waits e k) h = plain bs ds (record { in_order = h.in_order; fits = h.fits })

Reach-IsOrdered :
    (cfg : Config) (m : Metrics) {s : System} (reach : Reach (start cfg m) s)
    → IsOrdered (dispatched reach) (drained reach) s
unfolding start flatten
Reach-IsOrdered cfg m here = record { in_order = refl; fits = refl }
Reach-IsOrdered cfg m (next reach st) =
    Step-IsOrdered (dispatched reach) (drained reach) st (Reach-IsOrdered cfg m reach)

-- In every run from Start the accepted requests are, in the order in which they were accepted,
-- those of the batches handed to a flush, those of the batch in the loop's hands, those drained,
-- and those in the queue: batches are filled and handed out first come, first served.
pub Reach-fifo :
    (cfg : Config) (m : Metrics) {s : System} (reach : Reach (start cfg m) s)
    → flatten (dispatched reach) ++ (held s.loop ++ (drained reach ++ s.b.queue)) ≡ s.accepted
Reach-fifo cfg m reach = (Reach-IsOrdered cfg m reach).in_order
