-- ===== src/Tests/Flushes.antt =====
-- Flushes, windows and admission at concrete inputs.
use distri_inference_sidecar.Prelude.{
  ◌≡◌, refl, Bytes, codes, [], ◌∷◌, ◌++◌, Perm, length, arith, bytes_eq,
}
use distri_inference_sidecar.Prelude.Int.{ℤ, pos}
use distri_inference_sidecar.Batcher.ReqMap.{get, put, group}
use distri_inference_sidecar.Batcher.Flush.{count_reply, reply, flush_batch}
use distri_inference_sidecar.Batcher.Answers.{owed}
use distri_inference_sidecar.Batcher.Delivery.{channels, flush_batch-owed}
use distri_inference_sidecar.Batcher.Counters.{successes}
use distri_inference_sidecar.Batcher.Window.{dynamic_wait_ms, min_collect_wait}
use distri_inference_sidecar.Batcher.Window.Bounds.{dynamic_wait_ms-wraps}
use distri_inference_sidecar.Tokenizer.{validate}
use distri_inference_sidecar.Tokenizer.Admission.{validate-nul}
use distri_inference_sidecar.Tests.Samples.{config, batch, env, env_ranged, empty}

flush_batch-owed_example : Perm (flush_batch env config batch empty).sent (owed env config batch)
flush_batch-owed_example = flush_batch-owed env config env_ranged batch empty

flush_order : channels (flush_batch env config batch empty).sent ≡ 4 ∷ 3 ∷ 1 ∷ 2 ∷ []
unfolding flush_batch bytes_eq get put group count_reply reply
flush_order = refl

flush_counts : successes (flush_batch env config batch empty).sent ≡ 1
unfolding flush_batch bytes_eq get put group count_reply reply
flush_counts = refl

dynamic_wait_ms-wraps_example : dynamic_wait_ms 200 (pos 9223372036855) ≡ min_collect_wait
dynamic_wait_ms-wraps_example =
    dynamic_wait_ms-wraps 200 9223372036855 (omega arith) (omega arith) (omega arith)

-- A tokenizer that counts bytes.
abbrev count_bytes : Bytes → ℤ
count_bytes s = pos (length s)

validate-nul_example :
    validate count_bytes (codes "hi" ++ 0 ∷ codes "there") ≡ validate count_bytes (codes "hi")
validate-nul_example = validate-nul count_bytes (codes "hi") (codes "there") (ground arith)
