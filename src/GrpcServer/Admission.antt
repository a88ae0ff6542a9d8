-- ===== src/GrpcServer/Admission.antt =====
-- How Infer answers a request that it does not wait for.
use distri_inference_sidecar.Prelude.{
  ℕ, ◌≡◌, ◌↔◌, Bool, false, Option, none, some, List, [], ◌∷◌, ◌++◌, length, Bytes, ltb,
  if◌then◌else◌, arith,
}
use distri_inference_sidecar.Prelude.Int.{ℤ, pos, ltb_ℤ}
use distri_inference_sidecar.Errors.{sentinel, err_circuit_open}
use distri_inference_sidecar.Float.{Float64}
use distri_inference_sidecar.Tokenizer.{count_tokens, validate}
use distri_inference_sidecar.VramGuard.{Guard, is_open}
use distri_inference_sidecar.Batcher.Types.{Request}
use distri_inference_sidecar.Batcher.Queue.{Batcher, submit, queue_capacity}
use distri_inference_sidecar.GrpcServer.{
  Code, invalid_argument, resource_exhausted, unavailable, internal, Status, InferRequest,
  submitted, infer_submit, status_from_submit_err, health_check,
}

abbrev pub code_of : Option Status → Option Code
code_of none = none
code_of (some st) = some st.code

-- The documented code for a request, by the first condition that applies: the token count, the
-- circuit, the shutdown, the queue.
abbrev pub refusal : ℤ → Bool → Batcher → Option Code
refusal n is_open b =
    if ltb_ℤ n (pos 0)
    then some internal
    else if ltb_ℤ (pos 512) n
    then some invalid_argument
    else if is_open
    then some resource_exhausted
    else if b.stopped
    then some unavailable
    else if ltb (length b.queue) queue_capacity
    then none
    else some resource_exhausted

-- What happened to the queue.
abbrev pub queue_after : Option Code → Request → List Request → List Request
queue_after none r q = q ++ r ∷ []
queue_after (some _) r q = q

-- Infer answers at once with the code of `refusal`, or waits if that is none; and the request is
-- appended to the queue exactly if Infer waits.
pub infer_submit-refusal :
    (bpe_count : Bytes → ℤ) (is_open : Bool) (req : InferRequest) (ctx ch : ℕ) (b : Batcher)
    → let out = infer_submit bpe_count is_open req ctx ch b in
      let code = refusal (count_tokens bpe_count req.input_data) is_open b in
      (code_of out.1 ≡ code) × (out.0.queue ≡ queue_after code (submitted req ctx ch) b.queue)
unfolding infer_submit validate status_from_submit_err
infer_submit-refusal bpe_count is_open req ctx ch b = (ground arith, ground arith)

-- HealthCheck reports `healthy` exactly if Submit, for whatever request, does not refuse it for the
-- open circuit.
health_check-submit :
    (fl : Float64) (float32 : fl.F → fl.F) (g : Guard fl.F) (r : Request) (b : Batcher)
    → ((health_check fl float32 g).healthy ≡ false)
      ↔ ((submit (is_open fl g) r b).1 ≡ some (sentinel err_circuit_open))
unfolding health_check submit
health_check-submit fl float32 g r b = (λ h. ground arith, λ h. ground arith)
