-- ===== src/Tests/Servers.antt =====
-- The RPC handlers at concrete requests.
use distri_inference_sidecar.Prelude.{◌≡◌, true, Bytes, codes, length}
use distri_inference_sidecar.Prelude.Int.{ℤ, pos}
use distri_inference_sidecar.Metrics
use distri_inference_sidecar.Tokenizer.{count_tokens}
use distri_inference_sidecar.Batcher.Queue.{Batcher, new}
use distri_inference_sidecar.GrpcServer
use distri_inference_sidecar.GrpcServer.{InferRequest, submitted, infer_submit}
use distri_inference_sidecar.GrpcServer.Admission.{
  code_of, refusal, queue_after, infer_submit-refusal,
}
use distri_inference_sidecar.Tests.Samples.{config}

abbrev pub count_bytes : Bytes → ℤ
count_bytes s = pos (length s)

abbrev pub prompt : InferRequest
prompt = record { request_id = codes "a"; input_data = codes "hi"; model_name = codes "m" }

abbrev batcher : Batcher
unfolding new
batcher = new config Metrics.new

infer_submit-refusal_example :
    let out = infer_submit count_bytes true prompt 1 1 batcher in
    let code = refusal (count_tokens count_bytes (codes "hi")) true batcher in
    (code_of out.1 ≡ code) × (out.0.queue ≡ queue_after code (submitted prompt 1 1) batcher.queue)
infer_submit-refusal_example = infer_submit-refusal count_bytes true prompt 1 1 batcher
