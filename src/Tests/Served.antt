-- ===== src/Tests/Served.antt =====
-- The process at a history in which an RPC gets the backend's output.
use mathlib.Core.List.{mem-cons_self}
use distri_inference_sidecar.Prelude.{refl, [], ◌∷◌, codes, arith}
use distri_inference_sidecar.Metrics
use distri_inference_sidecar.Prelude.{none, bytes_eq}
use distri_inference_sidecar.Float.Approx.{Approx}
use distri_inference_sidecar.Batcher.Types.{Request, Result}
use distri_inference_sidecar.Batcher.Flush.{flush_batch, count_reply, reply}
use distri_inference_sidecar.Batcher.ReqMap.{get, group, put}
use distri_inference_sidecar.Batcher.System
use distri_inference_sidecar.Batcher.System.{System}
use distri_inference_sidecar.GrpcServer.{InferResponse, infer_wait, received, submitted}
use distri_inference_sidecar.Tokenizer.{validate}
use distri_inference_sidecar.Sidecar.{batcher_config}
use distri_inference_sidecar.Sidecar.Process.{
  submit_call, Process, waiting, receives, batches, Reach, next, launch, answer,
}
use distri_inference_sidecar.Sidecar.Process.Batching.{all_flushed}
use distri_inference_sidecar.Sidecar.Process.Served.{IsServed, Reach-IsServed}
use distri_inference_sidecar.Tests.Processes.{world, launched, begun, admitted, to_admitted}
use distri_inference_sidecar.Tests.Samples.{env, env_ranged}
use distri_inference_sidecar.Tests.Servers.{prompt}
use distri_inference_sidecar.Tests.Readers.{two_devices}
use distri_inference_sidecar.Tests.Sidecars.{loaded}
use distri_inference_sidecar.Tests.Guards.{mb}

abbrev asked : Request
asked = submitted prompt 0 0

abbrev hello : Result
hello = record { output_data = codes "hello"; latency_ms = 7; err = none }

abbrev flushed_system : System
flushed_system = record admitted.system {
  b = record admitted.system.b {
    queue = [];
    out = flush_batch env admitted.system.b.cfg (asked ∷ []) admitted.system.b.out;
  };
  loop = System.top;
  flights = [];
}

abbrev served : Process Approx
served =
    answer [] [] (record begun { phase = waiting }) (infer_wait prompt (received hello))
      (record admitted { system = flushed_system })

to_flushed : Reach world launched (record admitted { system = flushed_system })
unfolding launch submit_call validate System.take_request System.dispatch
to_flushed =
    next
      (next
        (next
          (next (next to_admitted (batches _ (System.peeks refl) tt))
            (batches _ (System.receives [] asked [] refl refl) tt))
          (batches _ (System.times_out (asked ∷ []) refl) tt))
        (batches _ (System.dispatches (asked ∷ []) refl) tt))
      (batches _ (System.flushes env [] [] (asked ∷ []) env_ranged refl) tt)

to_served : Reach world launched served
unfolding launch submit_call validate flush_batch get group put bytes_eq count_reply reply
to_served =
    next to_flushed (receives [] [] (record begun { phase = waiting }) [] [] hello refl refl refl)

abbrev greeting : InferResponse
greeting = record {
  request_id = codes "a";
  output_data = codes "hello";
  latency_ms = 7;
  error = [];
}

Reach-IsServed_example :
    ∥ IsServed (batcher_config (loaded (mb 95) 500)) (all_flushed to_served) greeting ∥₁
unfolding infer_wait
Reach-IsServed_example =
    Reach-IsServed world two_devices (loaded (mb 95) 500) Metrics.new to_served 0 greeting
      mem-cons_self (ground arith)
