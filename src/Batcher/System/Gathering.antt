-- ===== src/Batcher/System/Gathering.antt =====
-- internal/batcher/batcher.go, collectBatch: what a batch holds, and why it is returned.
use distri_inference_sidecar.Prelude.{
  ◌≡◌, refl, sym, ap, subst, ◌∙◌, ◌<◌, Bool, true, false, List, [], ◌∷◌, ◌++◌, length,
  length-append, ◌⊎◌, arith, if◌then◌else◌, Bool-cases, inl, inr,
}
use distri_inference_sidecar.Metrics.{Metrics}
use distri_inference_sidecar.Batcher.Types.{Config, Request}
use distri_inference_sidecar.Batcher.Queue.{is_full}
use distri_inference_sidecar.Batcher.Collect.{Choice, taken, deadline, stop_seen}
use distri_inference_sidecar.Batcher.System.{
  System, Loop, top, collecting, collected, draining, Step, submits, peeks, receives, times_out,
  sees_stop, dispatches, drains, returns, flushes, ticks, stops_tracking, rejects, locks, signals,
  waits, Reach, here, next, start, after_submit, take_request, dispatch,
}
use distri_inference_sidecar.Batcher.System.Safety.{batch_limit, start-IsSafe}
use distri_inference_sidecar.Batcher.System.Collecting.{choices, chosen_by}

-- The requests that the select has received, in their order.
abbrev pub received : List Choice → List Request
received [] = []
received (taken r ∷ cs) = r ∷ received cs
received (deadline ∷ cs) = received cs
received (stop_seen ∷ cs) = received cs

-- Whether the select has taken the branch of the deadline or of stopCh.
abbrev pub is_cut : List Choice → Bool
is_cut [] = false
is_cut (taken r ∷ cs) = is_cut cs
is_cut (deadline ∷ cs) = true
is_cut (stop_seen ∷ cs) = true

-- What the loop's hands hold, and why collectBatch has returned: for the deadline or stopCh, or
-- else with a batch of exactly the limit.
abbrev pub Gathered : Config → List Choice → Loop → Type 0
Gathered cfg cs (collecting batch) = (batch ≡ received cs) × (is_cut cs ≡ false)
Gathered cfg cs (collected batch) =
    (batch ≡ received cs) × ((is_cut cs ≡ true) ⊎ (length batch ≡ batch_limit cfg))
Gathered cfg cs _ = Unit

received-snoc :
    (cs : List Choice) (r : Request) → received (cs ++ taken r ∷ []) ≡ received cs ++ r ∷ []
received-snoc [] r = refl
received-snoc (taken q ∷ cs) r = ap (λ rs. q ∷ rs) (received-snoc cs r)
received-snoc (deadline ∷ cs) r = received-snoc cs r
received-snoc (stop_seen ∷ cs) r = received-snoc cs r

is_cut-snoc : (cs : List Choice) (r : Request) → is_cut (cs ++ taken r ∷ []) ≡ is_cut cs
is_cut-snoc [] r = refl
is_cut-snoc (taken q ∷ cs) r = is_cut-snoc cs r
is_cut-snoc (deadline ∷ cs) r = refl
is_cut-snoc (stop_seen ∷ cs) r = refl

deadline-cuts :
    (cs : List Choice)
    → (received (cs ++ deadline ∷ []) ≡ received cs) × (is_cut (cs ++ deadline ∷ []) ≡ true)
deadline-cuts [] = (refl, refl)
deadline-cuts (taken q ∷ cs) = (ap (λ rs. q ∷ rs) (deadline-cuts cs).0, (deadline-cuts cs).1)
deadline-cuts (deadline ∷ cs) = ((deadline-cuts cs).0, refl)
deadline-cuts (stop_seen ∷ cs) = ((deadline-cuts cs).0, refl)

stop_seen-cuts :
    (cs : List Choice)
    → (received (cs ++ stop_seen ∷ []) ≡ received cs) × (is_cut (cs ++ stop_seen ∷ []) ≡ true)
stop_seen-cuts [] = (refl, refl)
stop_seen-cuts (taken q ∷ cs) = (ap (λ rs. q ∷ rs) (stop_seen-cuts cs).0, (stop_seen-cuts cs).1)
stop_seen-cuts (deadline ∷ cs) = ((stop_seen-cuts cs).0, refl)
stop_seen-cuts (stop_seen ∷ cs) = ((stop_seen-cuts cs).0, refl)

-- A batch that is full by the code's test has the limit, if it was below it before.
full_at_limit :
    (cfg : Config) (batch : List Request) (r : Request)
    → length batch < batch_limit cfg
    → is_full cfg (batch ++ r ∷ []) ≡ true
    → length (batch ++ r ∷ []) ≡ batch_limit cfg
unfolding is_full
full_at_limit cfg batch r h e = ground (arith, length-append batch (r ∷ []))

Gathered-turn :
    (cfg : Config) (cs : List Choice) (c : Bool) (l : Loop)
    → Gathered cfg cs l
    → Gathered cfg cs (if c then draining else l)
Gathered-turn cfg cs true l h = tt
Gathered-turn cfg cs false l h = h

module _ (cfg : Config) (cs : List Choice) where
  abbrev Gathers : System → Type 0
  Gathers s = Gathered cfg cs s.loop

  holds :
      (s : System) (batch : List Request)
      → s.loop ≡ collecting batch
      → Gathers s
      → (batch ≡ received cs) × (is_cut cs ≡ false)
  holds s batch e h = subst (Gathered cfg cs) e h

  take-Gathered :
      (s : System) (batch : List Request) (r : Request) (rest : List Request)
      → s.b.cfg ≡ cfg
      → length batch < batch_limit cfg
      → (batch ≡ received cs) × (is_cut cs ≡ false)
      → Gathered cfg (cs ++ taken r ∷ []) (take_request batch r rest s).loop
  unfolding take_request
  take-Gathered s batch r rest c short (same, uncut) =
      let more : batch ++ r ∷ [] ≡ received (cs ++ taken r ∷ []) =
        ap (λ rs. rs ++ r ∷ []) same ∙ sym (received-snoc cs r) in
      elim (Bool-cases (is_full cfg (batch ++ r ∷ []))) [
        | inl full ↦ rw (c, full) (more, inr (full_at_limit cfg batch r short full))
        | inr room ↦ rw (c, room) (more, is_cut-snoc cs r ∙ uncut)
      ]

  Step-Gathered :
      {s t : System} (st : Step s t)
      → s.b.cfg ≡ cfg
      → ((batch : List Request) → s.loop ≡ collecting batch → length batch < batch_limit cfg)
      → Gathers s
      → Gathered cfg (chosen_by cs st) t.loop
  unfolding after_submit dispatch
  Step-Gathered (submits o r) c short h = h
  Step-Gathered {s} (peeks e) c short h =
      Gathered-turn cfg [] s.b.stop_closed (collecting []) (refl, refl)
  Step-Gathered {s} (receives batch r rest e q) c short h =
      take-Gathered s batch r rest c (short batch e) (holds s batch e h)
  Step-Gathered {s} (times_out batch e) c short h =
      ((holds s batch e h).0 ∙ sym (deadline-cuts cs).0, inl (deadline-cuts cs).1)
  Step-Gathered {s} (sees_stop batch e k) c short h =
      ((holds s batch e h).0 ∙ sym (stop_seen-cuts cs).0, inl (stop_seen-cuts cs).1)
  Step-Gathered {s} (dispatches [] e) c short h = Gathered-turn cfg cs s.b.stop_closed top tt
  Step-Gathered (dispatches (r ∷ rs) e) c short h = tt
  Step-Gathered (drains r rest e q) c short h = h
  Step-Gathered (returns e q) c short h = tt
  Step-Gathered (flushes env before after batch ranged e) c short h = h
  Step-Gathered (ticks e) c short h = h
  Step-Gathered (stops_tracking e k) c short h = h
  Step-Gathered rejects c short h = h
  Step-Gathered (locks e) c short h = h
  Step-Gathered (signals e) c short h = h
  Step-Gathered (waits e k) c short h = h

-- In every run from Start, the batch in the select of collectBatch, or behind its return, holds the
-- requests that the select has received in the call, in their order; the select goes on only as
-- long as neither the deadline nor stopCh was taken; and a batch is returned only for one of those
-- or with as many requests as MaxBatchSize, or with one if that is not positive.
pub Reach-Gathered :
    (cfg : Config) (m : Metrics) {s : System} (reach : Reach (start cfg m) s)
    → Gathered cfg (choices reach) s.loop
unfolding start
Reach-Gathered cfg m here = tt
Reach-Gathered cfg m (next reach st) =
    let safe = start-IsSafe cfg m reach in
    Step-Gathered cfg (choices reach) st safe.config (λ batch e. rw e at safe.loop_fits)
      (Reach-Gathered cfg m reach)
