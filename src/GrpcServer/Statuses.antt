-- ===== src/GrpcServer/Statuses.antt =====
-- The statuses of what a flush or a context delivers.
use distri_inference_sidecar.Prelude.{◌≡◌, refl, ◌⊎◌, Option, none, some, inl, inr}
use distri_inference_sidecar.Errors.{
  Sentinel, Fallible, ok, err, sentinel, canceled, deadline_exceeded,
}
use distri_inference_sidecar.Batcher.Flush.{failure}
use distri_inference_sidecar.Batcher.Answers.{unavailable}
use distri_inference_sidecar.GrpcServer.{
  Code, internal, code_canceled, code_deadline_exceeded, Status, InferRequest, Reply, response,
  status, Wake, received, context_done, infer_wait, status_from_submit_err, status_from_result_err,
  status_from_context_err,
}
use distri_inference_sidecar.GrpcServer

abbrev pub HasCode : Code → Option Status → Type 0
HasCode c none = ⊥
HasCode c (some st) = st.code ≡ c

-- A call whose error, if it has one, ends in one of the two statuses.
abbrev IsClassified {ℓ} : {A : Type ℓ} → Fallible A → Type 0
IsClassified (ok a) = Unit
IsClassified (err e) =
    HasCode internal (status_from_result_err e)
    ⊎ HasCode GrpcServer.unavailable (status_from_result_err e)

-- Both branches of the select give the same code for a context that is done, so the race between
-- the flush's error and the context does not show in the code.
infer_wait-context :
    (req : InferRequest) (s : Sentinel)
    → (s ≡ canceled) ⊎ (s ≡ deadline_exceeded)
    → (st : Status) × (su : Status) × (infer_wait req (received (failure (sentinel s))) ≡ status st)
      × (infer_wait req (context_done (sentinel s)) ≡ status su)
      × (st.code ≡ su.code)
unfolding infer_wait status_from_result_err status_from_context_err
infer_wait-context req s (inl e) = rw e (_, _, refl, refl, refl)
infer_wait-context req s (inr e) = rw e (_, _, refl, refl, refl)
