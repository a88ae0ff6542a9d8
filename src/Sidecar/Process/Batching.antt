-- ===== src/Sidecar/Process/Batching.antt =====
-- The process runs the batcher as Batcher/System has it: what holds of the one holds of the other.
use mathlib.Core.List.{append-nil, append_assoc}
use distri_inference_sidecar.Prelude.{
  ◌≡◌, refl, sym, ap, subst, ◌∙◌, [], ◌++◌, Bool, inl, inr, Option, none, some, List, Bool-cases,
}
use distri_inference_sidecar.Errors.{GoError, errors_is, err_tokenizer_failure}
use distri_inference_sidecar.Metrics.{Metrics}
use distri_inference_sidecar.Tokenizer.{validate}
use distri_inference_sidecar.VramGuard.Readers.{Nvml}
use distri_inference_sidecar.Batcher.Types.{Request}
use distri_inference_sidecar.Batcher.System
use distri_inference_sidecar.Batcher.System.{System}
use distri_inference_sidecar.Batcher.Flush.{Env}
use distri_inference_sidecar.Batcher.System.History.{flushed, flushed_by}
use distri_inference_sidecar.Batcher.Queue.{Batcher, submit}
use distri_inference_sidecar.GrpcServer.{
  Status, submitted, infer_submit, refuse, submit_status, submit_valid,
}
use distri_inference_sidecar.Sidecar.{RuntimeConfig, batcher_config}
use distri_inference_sidecar.Sidecar.Process.{
  Call, Process, World, Step, arrives, reads, submits, receives, leaves, batches, watches, updates,
  ends_updates, is_signalled, rpcs_finish, stops, stops_guard, serves, http_breaks, closes,
  finishes, Reach, here, next, launch, submit_call, after_call, with_submission,
}

-- A run of the batcher with the batches that are flushed in it.
abbrev Flushing : System → System → List (Env × List Request) → Type 0
Flushing s t fs = (run : System.Reach s t) × (flushed run ≡ fs)

-- The step of the batcher for what Submit returns.
submits_to :
    (is_open : Bool) (r : Request) (s : System) (out : Batcher × Option GoError)
    → submit is_open r s.b ≡ out
    → Flushing s (record s { b = out.0; accepted = System.record_accepted out.1 r s.accepted }) []
unfolding System.after_submit
submits_to is_open r s out h =
    subst
      (λ o.
        Flushing s (record s { b = o.0; accepted = System.record_accepted o.1 r s.accepted }) [])
      h (System.next System.here (System.submits is_open r), refl)

submission_step :
    (is_open : Bool) (r : Request) (s : System) (out : Batcher × Option GoError)
    → submit is_open r s.b ≡ out
    → Flushing s (with_submission s r (out.0, submit_status out.1)).0 []
submission_step is_open r s (b, none) h = submits_to is_open r s (b, none) h
submission_step is_open r s (b, some e) h = submits_to is_open r s (b, some e) h

refusal_step :
    (e : GoError) (r : Request) (s : System) → Flushing s (with_submission s r (refuse e s.b)).0 []
unfolding refuse
refusal_step e r s = elim (Bool-cases (errors_is e err_tokenizer_failure)) [
  | inl f ↦ rw f (System.here, refl)
  | inr f ↦ rw f (System.next System.here System.rejects, refl)
]

-- The part of Infer before its select is at most one step of the batcher.
valid_step :
    (v : Option GoError) (is_open : Bool) (r : Request) (s : System)
    → Flushing s (with_submission s r (submit_valid v is_open r s.b)).0 []
unfolding submit_valid
valid_step none is_open r s = submission_step is_open r s (submit is_open r s.b) refl
valid_step (some e) is_open r s = refusal_step e r s

Flushing-trans :
    {s t u : System} {fs gs : List (Env × List Request)}
    → Flushing s t fs
    → Flushing t u gs
    → Flushing s u (gs ++ fs)
Flushing-trans {s} {t} {u} {fs} {gs} (p, e) (q, d) = (join q, rw (← d) (joined q))
  where
    join : {v : System} → System.Reach t v → System.Reach s v
    join System.here = p
    join (System.next r st) = System.next (join r) st

    joined : {v : System} (r : System.Reach t v) → flushed (join r) ≡ flushed r ++ fs
    joined System.here = e
    joined (System.next r st) =
        ap (λ hs. flushed_by st ++ hs) (joined r)
        ∙ sym (append_assoc (flushed_by st) (flushed r) fs)

system-after_call :
    {F : Type 0} (before after : List Call) (call : Call) (st : Option Status) (p : Process F)
    → (after_call before after call st p).system ≡ p.system
system-after_call before after call none p = refl
system-after_call before after call (some st) p = refl

-- The batches that are flushed in a step, and those in a run, the last one first.
abbrev flushed_in : {w : World} {p q : Process w.fl.F} → Step w p q → List (Env × List Request)
flushed_in (batches s st own) = flushed_by st
flushed_in (stops s st e own) = flushed_by st
flushed_in _ = []

abbrev pub all_flushed :
    {w : World} {p q : Process w.fl.F} → Reach w p q → List (Env × List Request)
all_flushed here = []
all_flushed (next reach st) = flushed_in st ++ all_flushed reach

module _ (w : World) where
  Step-Flushing :
      {p q : Process w.fl.F} (st : Step w p q) → Flushing p.system q.system (flushed_in st)
  unfolding submit_call infer_submit
  Step-Flushing (arrives req e l) = (System.here, refl)
  Step-Flushing (reads before after call e h) = (System.here, refl)
  Step-Flushing {p} (submits before after call is_open e h) =
      let out = submit_call w.bpe_count is_open call p.system in
      subst (λ s. Flushing p.system s [])
        (sym (system-after_call before after call out.1 (record p { system = out.0 })))
        (valid_step (validate w.bpe_count call.req.input_data) is_open
          (submitted call.req call.id call.id) p.system)
  Step-Flushing (receives before after call earlier later r e h i) = (System.here, refl)
  Step-Flushing (leaves before after call x e h) = (System.here, refl)
  Step-Flushing (batches s st own) = (System.next System.here st, append-nil (flushed_by st))
  Step-Flushing (watches x st) = (System.here, refl)
  Step-Flushing (updates u) = (System.here, refl)
  Step-Flushing (ends_updates u v) = (System.here, refl)
  Step-Flushing (is_signalled e) = (System.here, refl)
  Step-Flushing (rpcs_finish e h) = (System.here, refl)
  Step-Flushing (stops s st e h) = (System.next System.here st, append-nil (flushed_by st))
  Step-Flushing (stops_guard e h) = (System.here, refl)
  Step-Flushing (serves x st) = (System.here, refl)
  Step-Flushing (http_breaks d g) = (System.here, refl)
  Step-Flushing (closes x d g) = (System.here, refl)
  Step-Flushing (finishes e g) = (System.here, refl)

  -- A step of the process is some steps of the batcher, mostly none.
  pub Step-batching : {p q : Process w.fl.F} → Step w p q → System.Reach p.system q.system
  Step-batching st = (Step-Flushing st).0

  -- Every run of the process is, for the batcher, one of its own runs from Start, with the same
  -- batches flushed.
  pub Reach-Flushing :
      (api : Nvml) (cfg : RuntimeConfig w.fl.F) (m : Metrics) {p : Process w.fl.F}
      (reach : Reach w (launch w api cfg m) p)
      → (run : System.Reach (System.start (batcher_config cfg) m) p.system) × (flushed run
          ≡ all_flushed reach)
  unfolding launch
  Reach-Flushing api cfg m here = (System.here, refl)
  Reach-Flushing api cfg m (next r st) =
      Flushing-trans (Reach-Flushing api cfg m r) (Step-Flushing st)

  pub Reach-batching :
      (api : Nvml) (cfg : RuntimeConfig w.fl.F) (m : Metrics) {p : Process w.fl.F}
      → Reach w (launch w api cfg m) p
      → System.Reach (System.start (batcher_config cfg) m) p.system
  Reach-batching api cfg m reach = (Reach-Flushing api cfg m reach).0
