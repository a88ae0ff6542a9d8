-- ===== src/Batcher/System/Growing.antt =====
-- No result is taken back, and no accepted request forgotten.
use mathlib.Core.List.{Subset, mem-append_left}
use mathlib.Core.List.Perm
use distri_inference_sidecar.Prelude.{[], ◌∷◌, inl, inr}
use distri_inference_sidecar.Batcher.Flush.{fail_request}
use distri_inference_sidecar.Batcher.Delivery.{flush_batch-owed}
use distri_inference_sidecar.Batcher.Answers.{owed}
use distri_inference_sidecar.Batcher.System.{
  System, Step, submits, peeks, receives, times_out, sees_stop, dispatches, drains, returns,
  flushes, ticks, stops_tracking, rejects, locks, signals, waits, Reach, here, next, after_submit,
  take_request, dispatch,
}
use distri_inference_sidecar.Batcher.System.Ledger.{submit_cases}

abbrev pub Grows : System → System → Type 0
Grows s t = Subset s.b.out.sent t.b.out.sent × Subset s.accepted t.accepted

Step-Grows : {s t : System} → Step s t → Grows s t
unfolding after_submit take_request dispatch fail_request
Step-Grows {s} (submits o r) = elim (submit_cases o r s.b) [
  | inl (x, e, q, d) ↦ rw (e, d) (λ y m. m, λ y m. m)
  | inr (e, q, d) ↦ rw (e, d) (λ y m. m, λ y m. mem-append_left (r ∷ []) m)
]
Step-Grows (peeks e) = (λ y m. m, λ y m. m)
Step-Grows (receives batch r rest e q) = (λ y m. m, λ y m. m)
Step-Grows (times_out batch e) = (λ y m. m, λ y m. m)
Step-Grows (sees_stop batch e c) = (λ y m. m, λ y m. m)
Step-Grows (dispatches [] e) = (λ y m. m, λ y m. m)
Step-Grows (dispatches (r ∷ rs) e) = (λ y m. m, λ y m. m)
Step-Grows (drains r rest e q) = (λ y m. mem-append_left _ m, λ y m. m)
Step-Grows (returns e q) = (λ y m. m, λ y m. m)
Step-Grows {s} (flushes env before after batch ranged e) = (
  λ y m.
      (Perm.mem_iff (flush_batch-owed env s.b.cfg ranged batch s.b.out)).1
        (mem-append_left (owed env s.b.cfg batch) m),
  λ y m. m,
)
Step-Grows (ticks e) = (λ y m. m, λ y m. m)
Step-Grows (stops_tracking e c) = (λ y m. m, λ y m. m)
Step-Grows rejects = (λ y m. m, λ y m. m)
Step-Grows (locks e) = (λ y m. m, λ y m. m)
Step-Grows (signals e) = (λ y m. m, λ y m. m)
Step-Grows (waits e k) = (λ y m. m, λ y m. m)

pub Reach-Grows : {s t : System} → Reach s t → Grows s t
Reach-Grows here = (λ y m. m, λ y m. m)
Reach-Grows (next r st) =
    let (a, b) = Reach-Grows r in
    let (c, d) = Step-Grows st in (λ y m. c y (a y m), λ y m. d y (b y m))
