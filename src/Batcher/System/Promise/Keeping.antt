-- ===== src/Batcher/System/Promise/Keeping.antt =====
-- That the steps of the batcher keep its promise.
use mathlib.Core.Quot.{sound}
use mathlib.Core.List.{append_assoc, perm_middle, flatten}
use mathlib.Core.List.Perm
use mathlib.Mathlib.Data.Multiset.Defs.{of_list}
use distri_inference_sidecar.Prelude.{
  ℕ, ◌≤◌, ◌≡◌, refl, sym, ap, ◌∙◌, Bool, true, false, none, List, [], ◌∷◌, ◌++◌, length, Perm, inl,
  inr, if◌then◌else◌, arith,
}
use distri_inference_sidecar.Metrics.{Metrics}
use distri_inference_sidecar.Batcher.Types.{Config, Request, Delivery}
use distri_inference_sidecar.Batcher.Flush.{fail_request}
use distri_inference_sidecar.Batcher.Delivery.{flush_batch-owed}
use distri_inference_sidecar.Batcher.Queue.{Batcher, is_full, submit}
use distri_inference_sidecar.Batcher.System.{
  System, Loop, top, collecting, collected, draining, returned, Step, submits, peeks, receives,
  times_out, sees_stop, dispatches, drains, returns, flushes, ticks, stops_tracking, rejects, locks,
  signals, waits, Reach, here, next, start, after_submit, take_request, dispatch, held, pending,
}
use distri_inference_sidecar.Batcher.System.Safety.{
  batch_limit, AllFit, IsSafe, closed_means_stopped, start-IsSafe,
}
use distri_inference_sidecar.Batcher.System.Ledger.{
  held-if, take-perm, flight-perm, flatten-concat, submit_cases,
}
use distri_inference_sidecar.Batcher.System.Promise.{
  Debts, debts_of, no_debts, accepts, settles, closes, drops, Acts, at_rest, then_act, debts,
}

debts-path :
    {ks ls : List Request} {os ps : List Request} {gs hs : List Delivery} {c d : Bool}
    → ks ≡ ls
    → Perm os ps
    → Perm gs hs
    → c ≡ d
    → debts_of ks os gs c ≡ debts_of ls ps hs d
debts-path {ls = ls} {os} {ps} {gs} {hs} {c} {d} e p q f =
    ap (λ x. debts_of x os gs c) e
    ∙ ap (λ x. debts_of ls os gs x) f
    ∙ ap (λ m. record { accepted = ls; owing = m; given = of_list gs; closed = d }) (sound p)
    ∙ ap (λ m. record { accepted = ls; owing = of_list ps; given = m; closed = d }) (sound q)

-- The last equation of a run of acts, put forward.
onward : {cfg : Config} {a b c : Debts} → Acts cfg a b → b ≡ c → Acts cfg a c
onward (at_rest e) p = at_rest (e ∙ p)
onward (then_act acts act e) p = then_act acts act (e ∙ p)

-- A step that moves requests about, or nothing.
moved :
    (s t : System)
    → t.accepted ≡ s.accepted
    → Perm (pending s) (pending t)
    → t.b.out.sent ≡ s.b.out.sent
    → t.b.stopped ≡ s.b.stopped
    → debts s ≡ debts t
moved s t a p e c = debts-path (sym a) p (rw e Perm.rfl) (sym c)

stopped-submit : (o : Bool) (r : Request) (b : Batcher) → (submit o r b).0.stopped ≡ b.stopped
unfolding submit
stopped-submit o r b = ground arith

accepted_open : (o : Bool) (r : Request) (b : Batcher) → (submit o r b).1 ≡ none → b.stopped ≡ false
unfolding submit
accepted_open o r b h = ground arith

fits_between :
    (n : ℕ) (before after : List (List Request)) (batch : List Request)
    → AllFit n (before ++ batch ∷ after)
    → (1 ≤ length batch) × (length batch ≤ n)
fits_between n [] after batch h = (h.0, h.1)
fits_between n (b ∷ before) after batch h = fits_between n before after batch h.2

-- The loop drains only when Submit has been closed.
draining_closed :
    (cfg : Config) (s : System) → IsSafe cfg s → s.loop ≡ draining → s.b.stopped ≡ true
draining_closed cfg s h e =
    closed_means_stopped s.stopping s.b.stopped s.b.stop_closed h.flags_fit (rw e at h.loop_fits)

module _ (cfg : Config) {a : Debts} where
  submit-Acts :
      (o : Bool) (r : Request) (s : System)
      → Acts cfg a (debts s)
      → Acts cfg a (debts (after_submit o r s))
  unfolding after_submit
  submit-Acts o r s acts = elim (submit_cases o r s.b) [
    | inl (x, e, q, d) ↦
        onward acts (moved s (after_submit o r s) (rw e) (rw q Perm.rfl) d (stopped-submit o r s.b))
    | inr (e, q, d) ↦
        let is_open = accepted_open o r s.b e in
        then_act (onward acts (debts-path refl Perm.rfl Perm.rfl is_open))
          (accepts r s.accepted (pending s) s.b.out.sent)
          (debts-path (rw e)
            (Perm.symm
              (rw (q, append_assoc) (perm_middle s.b.queue (held s.loop ++ flatten s.flights))))
            (rw d Perm.rfl) (sym (stopped-submit o r s.b ∙ is_open)))
  ]

  -- The loop moves on with what it holds.
  loop-Acts :
      (s : System) (l : Loop)
      → held l ≡ held s.loop
      → Acts cfg a (debts s)
      → Acts cfg a (debts (record s { loop = l }))
  loop-Acts s l e acts = onward acts (
      moved s (record s { loop = l }) refl
        (Perm.append_left s.b.queue (Perm.append_right (flatten s.flights) (rw e Perm.rfl))) refl
        refl)

  Step-Acts : {s t : System} → Step s t → IsSafe cfg s → Acts cfg a (debts s) → Acts cfg a (debts t)
  unfolding take_request dispatch fail_request
  Step-Acts {s} (submits o r) h acts = submit-Acts o r s acts
  Step-Acts {s} (peeks e) h acts =
      loop-Acts s (if s.b.stop_closed then draining else collecting [])
        (rw e (held-if s.b.stop_closed draining (collecting []) [] refl refl)) acts
  Step-Acts {s} (receives batch r rest e q) h acts = onward acts (
      moved s (take_request batch r rest s) refl
        (rw
          (held-if (is_full s.b.cfg (batch ++ r ∷ [])) (collected (batch ++ r ∷ []))
            (collecting (batch ++ r ∷ [])) (batch ++ r ∷ []) refl refl)
          (Perm.symm (rw (q, e) (take-perm rest batch r (flatten s.flights)))))
        refl refl)
  Step-Acts {s} (times_out batch e) h acts = loop-Acts s (collected batch) (rw e) acts
  Step-Acts {s} (sees_stop batch e c) h acts = loop-Acts s (collected batch) (rw e) acts
  Step-Acts {s} (dispatches [] e) h acts =
      loop-Acts s (if s.b.stop_closed then draining else top)
        (rw e (held-if s.b.stop_closed draining top [] refl refl)) acts
  Step-Acts {s} (dispatches (r ∷ rs) e) h acts = onward acts (
      moved s (dispatch (r ∷ rs) s) refl
        (Perm.symm (Perm.append_left s.b.queue (rw e (flatten-concat s.flights (r ∷ rs))))) refl
        refl)
  Step-Acts {s} (drains r rest e q) h acts =
      let is_closed = draining_closed cfg s h e in
      let others = rest ++ (held s.loop ++ flatten s.flights) in
      then_act (onward acts (debts-path refl (rw q Perm.rfl) Perm.rfl is_closed))
        (drops r s.accepted others s.b.out.sent) (debts-path refl Perm.rfl Perm.rfl (sym is_closed))
  Step-Acts {s} (returns e q) h acts = loop-Acts s returned (rw e) acts
  Step-Acts {s} (flushes env before after batch ranged e) h acts =
      let sizes = fits_between (batch_limit cfg) before after batch (rw e at h.flights_fit) in
      let left = s.b.queue ++ (held s.loop ++ flatten (before ++ after)) in
      then_act (onward acts (debts-path refl (flight-perm s before after batch e) Perm.rfl refl))
        (settles env batch s.accepted left s.b.out.sent s.b.stopped sizes.0 sizes.1)
        (debts-path refl Perm.rfl
          (Perm.symm (rw h.config (flush_batch-owed env cfg ranged batch s.b.out))) refl)
  Step-Acts (ticks e) h acts = acts
  Step-Acts (stops_tracking e c) h acts = acts
  Step-Acts rejects h acts = acts
  Step-Acts {s} (locks e) h acts =
      then_act acts (closes s.accepted (pending s) s.b.out.sent s.b.stopped) refl
  Step-Acts (signals e) h acts = acts
  Step-Acts (waits e w) h acts = acts

-- Every run from Start is, for the requests accepted, those owed a result, the results given and
-- the flag of Stop, a run of the promise from nothing: a request is accepted only before the flag
-- is set and is then owed a result; a batch of those that are owed one, neither empty nor above the
-- limit, is settled by what one flush owes it in some environment; and a request is dropped with
-- the error of the drain only behind the flag.
pub start-Acts :
    (cfg : Config) (m : Metrics) {s : System} → Reach (start cfg m) s → Acts cfg no_debts (debts s)
unfolding start flatten
start-Acts cfg m here = at_rest refl
start-Acts cfg m (next reach st) =
    Step-Acts cfg st (start-IsSafe cfg m reach) (start-Acts cfg m reach)
