-- ===== src/Sidecar/Process/Patient.antt =====
-- Runs of the process in which no RPC arrives and no caller leaves.
use distri_inference_sidecar.Prelude.{◌≡◌, refl, ◌∙◌, Option, none, some, List}
use distri_inference_sidecar.Batcher.System.{System}
use distri_inference_sidecar.Batcher.System.Own.{OwnReach, own_here, own_next}
use distri_inference_sidecar.GrpcServer.{Status}
use distri_inference_sidecar.Sidecar.Process.{
  Call, Process, World, Step, arrives, reads, submits, receives, leaves, batches, watches, updates,
  ends_updates, is_signalled, rpcs_finish, stops, stops_guard, serves, http_breaks, closes,
  finishes, Reach, next, submit_call, after_call,
}

-- The steps of the process itself: no RPC arrives, and no caller leaves.
abbrev pub IsPatient : {w : World} {p q : Process w.fl.F} → Step w p q → Type 0
IsPatient (arrives req e l) = ⊥
IsPatient (leaves before after call x e h) = ⊥
IsPatient _ = Unit

pub data Patient (w : World) (p : Process w.fl.F) : Process w.fl.F → Type 0 where
  at_once : Patient w p p
  then : {q r : Process w.fl.F} → Patient w p q → (st : Step w q r) → IsPatient st → Patient w p r

next_id-after_call :
    {F : Type 0} (before after : List Call) (c : Call) (st : Option Status) (p : Process F)
    → (after_call before after c st p).next_id ≡ p.next_id
next_id-after_call before after c none p = refl
next_id-after_call before after c (some st) p = refl

module _ {w : World} where
  pub then_run : {p q r : Process w.fl.F} → Patient w p q → Patient w q r → Patient w p r
  then_run a at_once = a
  then_run a (then b st own) = then (then_run a b) st own

  pub reached : {v p q : Process w.fl.F} → Reach w v p → Patient w p q → Reach w v q
  reached a at_once = a
  reached a (then b st own) = next (reached a b) st

  pub by_batcher :
      {p : Process w.fl.F} {s : System}
      → OwnReach p.system s
      → Patient w p (record p { system = s })
  by_batcher own_here = at_once
  by_batcher (own_next r st own) = then (by_batcher r) (batches _ st own) tt

  next_id-Step : {p q : Process w.fl.F} (st : Step w p q) → IsPatient st → q.next_id ≡ p.next_id
  next_id-Step (arrives req e l) own = absurd own
  next_id-Step (leaves before after call x e h) own = absurd own
  next_id-Step (reads before after call e a) own = refl
  next_id-Step {p} (submits before after call o e a) own =
      let out = submit_call w.bpe_count o call p.system in
      next_id-after_call before after call out.1 (record p { system = out.0 })
  next_id-Step (receives before after call earlier later r e a i) own = refl
  next_id-Step (batches s st k) own = refl
  next_id-Step (watches x st) own = refl
  next_id-Step (updates u) own = refl
  next_id-Step (ends_updates u v) own = refl
  next_id-Step (is_signalled e) own = refl
  next_id-Step (rpcs_finish e c) own = refl
  next_id-Step (stops s st e k) own = refl
  next_id-Step (stops_guard e d) own = refl
  next_id-Step (serves x st) own = refl
  next_id-Step (http_breaks d g) own = refl
  next_id-Step (closes x d g) own = refl
  next_id-Step (finishes e g) own = refl

  pub next_id-Patient : {p q : Process w.fl.F} → Patient w p q → q.next_id ≡ p.next_id
  next_id-Patient at_once = refl
  next_id-Patient (then a st own) = next_id-Step st own ∙ next_id-Patient a
