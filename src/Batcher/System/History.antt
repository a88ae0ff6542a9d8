-- ===== src/Batcher/System/History.antt =====
-- What the batcher has done so far, in terms of what each flush owes its batch.
use mathlib.Core.List.{append_assoc, perm_middle, perm_append_singleton, perm_append_comm, flatten}
use mathlib.Core.List.Perm
use distri_inference_sidecar.Prelude.{
  ◌≡◌, refl, subst, Bool, List, [], ◌∷◌, ◌++◌, map, Perm, swap_blocks, inl, inr, if◌then◌else◌,
}
use distri_inference_sidecar.Metrics.{Metrics}
use distri_inference_sidecar.Batcher.Types.{Config, Request, Delivery}
use distri_inference_sidecar.Batcher.ReqMap.{ReqMap}
use distri_inference_sidecar.Batcher.Flush.{Env, fail_request, flush_batch}
use distri_inference_sidecar.Batcher.Answers.{failed, owed}
use distri_inference_sidecar.Batcher.Delivery.{flush_batch-owed}
use distri_inference_sidecar.Batcher.Queue.{is_full, drain_error}
use distri_inference_sidecar.Batcher.System.{
  System, Loop, top, collecting, collected, draining, returned, Step, submits, peeks, receives,
  times_out, sees_stop, dispatches, drains, returns, flushes, ticks, stops_tracking, rejects, locks,
  signals, waits, Reach, here, next, start, after_submit, take_request, dispatch, held, pending,
}
use distri_inference_sidecar.Batcher.System.Ledger.{
  held-if, take-perm, flight-perm, flatten-concat, submit_cases,
}
use distri_inference_sidecar.Batcher.System.Safety.{start-IsSafe}

-- All that the flushes of these batches owe.
abbrev pub all_owed : Config → List (Env × List Request) → List Delivery
all_owed cfg fs = flatten (map (λ f. owed f.0 cfg f.1) fs)

abbrev pub batches_of : List (Env × List Request) → List Request
batches_of fs = flatten (map (λ f. f.1) fs)

abbrev pub flushed_by : {s t : System} → Step s t → List (Env × List Request)
flushed_by (flushes env before after batch ranged e) = (env, batch) ∷ []
flushed_by _ = []

abbrev drained_by : {s t : System} → Step s t → List Request
drained_by (drains r rest e q) = r ∷ []
drained_by _ = []

-- The batches that were flushed in a run, each with its environment, the last one first.
abbrev pub flushed : {s t : System} → Reach s t → List (Env × List Request)
flushed here = []
flushed (next reach st) = flushed_by st ++ flushed reach

-- The requests that were drained in a run.
abbrev pub drained : {s t : System} → Reach s t → List Request
drained here = []
drained (next reach st) = drained_by st ++ drained reach

-- What a state has to do with the batches flushed and the requests drained before it.
pub record IsExplained (cfg : Config) (fs : List (Env × List Request)) (ds : List Request)
    (s : System) : Type 0 where
  pub sent : Perm s.b.out.sent (all_owed cfg fs ++ map (failed drain_error) ds)
  pub taken : Perm (batches_of fs ++ (ds ++ pending s)) s.accepted

module _ (cfg : Config) (fs : List (Env × List Request)) (ds : List Request) where
  keep :
      (s t : System)
      → t.b.out.sent ≡ s.b.out.sent
      → t.accepted ≡ s.accepted
      → Perm (pending t) (pending s)
      → IsExplained cfg fs ds s
      → IsExplained cfg fs ds t
  keep s t d a p h = record {
    sent = rw d h.sent;
    taken = rw a (Perm.trans (Perm.append_left (batches_of fs) (Perm.append_left ds p)) h.taken);
  }

  keep-loop :
      (s : System) (l : Loop)
      → held l ≡ held s.loop
      → IsExplained cfg fs ds s
      → IsExplained cfg fs ds (record s { loop = l })
  keep-loop s l e h =
      keep s (record s { loop = l }) refl refl
        (Perm.append_left s.b.queue (Perm.append_right (flatten s.flights) (rw e Perm.rfl))) h

  submit-IsExplained :
      (s : System) (o : Bool) (r : Request)
      → IsExplained cfg fs ds s
      → IsExplained cfg fs ds (after_submit o r s)
  unfolding after_submit
  submit-IsExplained s o r h = elim (submit_cases o r s.b) [
    | inl (x, e, q, d) ↦ keep s _ d (rw e) (rw q Perm.rfl) h
    | inr (e, q, d) ↦
        let more : Perm ((s.b.queue ++ r ∷ []) ++ (held s.loop ++ flatten s.flights))
            (r ∷ pending s) =
          rw append_assoc (perm_middle s.b.queue (held s.loop ++ flatten s.flights)) in
        record {
          sent = rw d h.sent;
          taken =
              rw (e, q)
                (Perm.trans
                  (Perm.append_left (batches_of fs)
                    (Perm.trans (Perm.append_left ds more) (perm_middle ds (pending s))))
                  (Perm.trans (perm_middle (batches_of fs) (ds ++ pending s)) (
                    Perm.trans (Perm.cons r h.taken)
                      (Perm.symm (perm_append_singleton r s.accepted)))));
        }
  ]

  drain-IsExplained :
      (s : System) (r : Request) (rest : List Request)
      → s.b.queue ≡ r ∷ rest
      → IsExplained cfg fs ds s
      → IsExplained cfg fs
          (r ∷ ds)
          (record s { b = record s.b { queue = rest; out = fail_request r drain_error s.b.out } })
  unfolding fail_request
  drain-IsExplained s r rest q h =
      let x = failed drain_error r in
      let others = rest ++ (held s.loop ++ flatten s.flights) in
      record {
        sent = Perm.trans (perm_append_singleton x s.b.out.sent) (
            Perm.trans (Perm.cons x h.sent)
              (Perm.symm (perm_middle (all_owed cfg fs) (map (failed drain_error) ds))));
        taken = Perm.trans (Perm.append_left (batches_of fs) (Perm.symm (perm_middle ds others))) (
            subst
              (λ rs.
                Perm (batches_of fs ++ (ds ++ (rs ++ (held s.loop ++ flatten s.flights))))
                  s.accepted)
              q h.taken);
      }

  flush-IsExplained :
      (s : System) (env : Env) (before after : List (List Request)) (batch : List Request)
      → s.b.cfg ≡ cfg
      → ((m : ReqMap) → Perm (env.ranged m) m)
      → s.flights ≡ before ++ batch ∷ after
      → IsExplained cfg fs ds s
      → IsExplained cfg ((env, batch) ∷ fs) ds (record s {
        b = record s.b { out = flush_batch env s.b.cfg batch s.b.out };
        flights = before ++ after;
      })
  unfolding flatten
  flush-IsExplained s env before after batch c ranged e h =
      let rest = s.b.queue ++ (held s.loop ++ flatten (before ++ after)) in
      record {
        sent =
            rw (c, append_assoc (owed env cfg batch) (all_owed cfg fs))
              (Perm.trans (flush_batch-owed env cfg ranged batch s.b.out) (
                Perm.trans (perm_append_comm s.b.out.sent (owed env cfg batch))
                  (Perm.append_left (owed env cfg batch) h.sent)));
        taken = rw (append_assoc batch (batches_of fs) (ds ++ rest)) (
            Perm.trans (swap_blocks batch (batches_of fs) (ds ++ rest)) (
              Perm.trans
                (Perm.append_left (batches_of fs) (
                  Perm.trans (swap_blocks batch ds rest)
                    (Perm.append_left ds (Perm.symm (flight-perm s before after batch e)))))
                h.taken));
      }

  Step-IsExplained :
      {s t : System} (st : Step s t)
      → s.b.cfg ≡ cfg
      → IsExplained cfg fs ds s
      → IsExplained cfg (flushed_by st ++ fs) (drained_by st ++ ds) t
  unfolding take_request dispatch
  Step-IsExplained {s} (submits o r) c h = submit-IsExplained s o r h
  Step-IsExplained {s} (peeks e) c h =
      keep-loop s (if s.b.stop_closed then draining else collecting [])
        (rw e (held-if s.b.stop_closed draining (collecting []) [] refl refl)) h
  Step-IsExplained {s} (receives batch r rest e q) c h =
      keep s (take_request batch r rest s) refl refl
        (rw
          (held-if (is_full s.b.cfg (batch ++ r ∷ [])) (collected (batch ++ r ∷ []))
            (collecting (batch ++ r ∷ [])) (batch ++ r ∷ []) refl refl)
          (rw (q, e) (take-perm rest batch r (flatten s.flights))))
        h
  Step-IsExplained {s} (times_out batch e) c h = keep-loop s (collected batch) (rw e) h
  Step-IsExplained {s} (sees_stop batch e k) c h = keep-loop s (collected batch) (rw e) h
  Step-IsExplained {s} (dispatches [] e) c h =
      keep-loop s (if s.b.stop_closed then draining else top)
        (rw e (held-if s.b.stop_closed draining top [] refl refl)) h
  Step-IsExplained {s} (dispatches (r ∷ rs) e) c h =
      keep s (dispatch (r ∷ rs) s) refl refl
        (Perm.append_left s.b.queue (rw e (flatten-concat s.flights (r ∷ rs)))) h
  Step-IsExplained {s} (drains r rest e q) c h = drain-IsExplained s r rest q h
  Step-IsExplained {s} (returns e q) c h = keep-loop s returned (rw e) h
  Step-IsExplained {s} (flushes env before after batch ranged e) c h =
      flush-IsExplained s env before after batch c ranged e h
  Step-IsExplained {s} (ticks e) c h = keep s _ refl refl Perm.rfl h
  Step-IsExplained {s} (stops_tracking e k) c h = keep s _ refl refl Perm.rfl h
  Step-IsExplained {s} rejects c h = keep s _ refl refl Perm.rfl h
  Step-IsExplained {s} (locks e) c h = keep s _ refl refl Perm.rfl h
  Step-IsExplained {s} (signals e) c h = keep s _ refl refl Perm.rfl h
  Step-IsExplained {s} (waits e k) c h = keep s _ refl refl Perm.rfl h

-- In every run from Start, the results sent are, up to order, those that the flushes of the run owe
-- their batches, each in the environment of its flush, and an error for each request drained in the
-- run; and the accepted requests are, each once, those of the batches flushed, those drained and
-- those pending.
pub Reach-IsExplained :
    (cfg : Config) (m : Metrics) {s : System} (reach : Reach (start cfg m) s)
    → IsExplained cfg (flushed reach) (drained reach) s
unfolding start flatten
Reach-IsExplained cfg m here = record { sent = Perm.nil; taken = Perm.nil }
Reach-IsExplained cfg m (next reach st) =
    Step-IsExplained cfg (flushed reach) (drained reach) st (start-IsSafe cfg m reach).config
      (Reach-IsExplained cfg m reach)
