-- ===== src/GrpcServer.antt =====
-- internal/grpcserver/server.go: the two handlers and the mapping of errors to gRPC statuses.
-- Infer is two functions: what it does up to its select, and what it does with the branch taken.
pub mod Admission
pub mod Statuses
pub mod Serving
pub mod Health
use distri_inference_sidecar.Prelude.{
  ℕ, ◌+◌, Bool, true, false, not, ◌||◌, Option, none, some, List, [], ◌∷◌, ◌++◌, Bytes, codes,
  if◌then◌else◌,
}
use distri_inference_sidecar.Prelude.Int.{ℤ}
use distri_inference_sidecar.Errors.{
  GoError, Sentinel, errors_is, error_text, err_circuit_open, err_queue_full, err_batcher_stopped,
  err_backend_unavailable, err_backend_response_invalid, err_tokenizer_failure, canceled,
  deadline_exceeded,
}
use distri_inference_sidecar.Metrics.{count_rejected}
use distri_inference_sidecar.Float.{Float64}
use distri_inference_sidecar.Tokenizer.{validate}
use distri_inference_sidecar.Batcher.Types.{Request, Result}
use distri_inference_sidecar.Batcher.Queue.{Batcher, with_metrics, submit}
use distri_inference_sidecar.VramGuard.{Guard, get_usage, is_open}

-- The codes of google.golang.org/grpc/codes that the server uses.
pub data Code : Type 0 where
  invalid_argument resource_exhausted unavailable internal : Code
  code_canceled code_deadline_exceeded : Code

pub record Status : Type 0 where
  pub code : Code
  pub message : Bytes

pub record InferRequest : Type 0 where
  pub request_id : Bytes
  pub input_data : Bytes
  pub model_name : Bytes

pub record InferResponse : Type 0 where
  pub request_id : Bytes
  pub output_data : Bytes
  pub latency_ms : ℕ
  pub error : Bytes

-- What an RPC ends with: a response, or an error status.
pub data Reply : Type 0 where
  response : InferResponse → Reply
  status : Status → Reply

abbrev status_of : Code → GoError → Status
status_of c e = record { code = c; message = error_text e }

unfoldable pub status_from_submit_err : GoError → Status
status_from_submit_err e =
    if errors_is e err_circuit_open || errors_is e err_queue_full
    then status_of resource_exhausted e
    else if errors_is e err_batcher_stopped
    then status_of unavailable e
    else status_of internal e

-- `none` for an error that goes into the response.
unfoldable pub status_from_result_err : GoError → Option Status
status_from_result_err e =
    if errors_is e err_backend_unavailable
    then some (status_of unavailable e)
    else if errors_is e err_backend_response_invalid
    then some (status_of internal e)
    else if errors_is e canceled
    then some (status_of code_canceled e)
    else if errors_is e deadline_exceeded
    then some (status_of code_deadline_exceeded e)
    else none

unfoldable pub status_from_context_err : GoError → Status
status_from_context_err e =
    if errors_is e canceled
    then record { code = code_canceled; message = codes "request cancelled by client" }
    else if errors_is e deadline_exceeded
    then record { code = code_deadline_exceeded; message = codes "request deadline exceeded" }
    else status_of code_canceled e

-- The request that Infer submits: `ctx` is the RPC's context and `ch` its fresh result channel.
abbrev pub submitted : InferRequest → ℕ → ℕ → Request
submitted req ctx ch = record {
  id = req.request_id;
  input_data = req.input_data;
  model_name = req.model_name;
  ctx = some ctx;
  result_ch = ch;
}

-- A prompt that Validate refuses.
unfoldable pub refuse : GoError → Batcher → Batcher × Option Status
refuse e b =
    if errors_is e err_tokenizer_failure
    then (b, some (status_of internal e))
    else (with_metrics b (count_rejected b.out.metrics), some (status_of invalid_argument e))

abbrev pub submit_status : Option GoError → Option Status
submit_status none = none
submit_status (some e) = some (status_from_submit_err e)

-- What follows the call of Validate, by its error.
unfoldable pub submit_valid : Option GoError → Bool → Request → Batcher → Batcher × Option Status
unfolding refuse submit
submit_valid (some e) is_open r b = refuse e b
submit_valid none is_open r b = let (b', e) = submit is_open r b in (b', submit_status e)

-- Infer up to its select; `none` if it goes on to wait there. `bpe_count` is the tokenizer and
-- `open` what the guard says. The server and the batcher share the metrics.
unfoldable pub infer_submit :
    (Bytes → ℤ) → Bool → InferRequest → ℕ → ℕ → Batcher → Batcher × Option Status
unfolding submit_valid
infer_submit bpe_count is_open req ctx ch b =
    submit_valid (validate bpe_count req.input_data) is_open (submitted req ctx ch) b

-- The branch of the select that is taken.
pub data Wake : Type 0 where
  received : Result → Wake
  context_done : GoError → Wake

abbrev pub failed_reply : InferRequest → GoError → Option Status → Reply
failed_reply req e (some st) = status st
failed_reply req e none =
    response (record {
      request_id = req.request_id;
      output_data = [];
      latency_ms = 0;
      error = error_text e;
    })

abbrev pub result_reply : InferRequest → Result → Option GoError → Reply
result_reply req r (some e) = failed_reply req e (status_from_result_err e)
result_reply req r none = response (record {
  request_id = req.request_id;
  output_data = r.output_data;
  latency_ms = r.latency_ms;
  error = [];
})

unfoldable pub infer_wait : InferRequest → Wake → Reply
infer_wait req (received r) = result_reply req r r.err
infer_wait req (context_done e) = status (status_from_context_err e)

-- How a handler ends.
pub data Handled : Type 0 where
  returned : Reply → Handled
  panicked : Handled

-- recoveryInterceptor.
unfoldable pub recovery_interceptor : Handled → Reply
recovery_interceptor (returned r) = r
recovery_interceptor panicked =
    status (record { code = internal; message = codes "internal server error" })

pub record HealthResponse (F : Type 0) : Type 0 where
  pub healthy : Bool
  pub vram_used_mb : F
  pub vram_total_mb : F

-- `float32` is the conversion to the narrower type, which keeps its values among the wider ones.
unfoldable pub health_check : (fl : Float64) → (fl.F → fl.F) → Guard fl.F → HealthResponse fl.F
health_check fl float32 g =
    let (used, total) = get_usage fl g in
    record {
      healthy = not (is_open fl g);
      vram_used_mb = float32 used;
      vram_total_mb = float32 total;
    }
