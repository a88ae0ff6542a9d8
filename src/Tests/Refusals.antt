-- ===== src/Tests/Refusals.antt =====
-- The process with a tokenizer that counts 600 tokens in every text: an RPC is refused.
use distri_inference_sidecar.Prelude.{refl, false, []}
use distri_inference_sidecar.Prelude.Int.{pos}
use distri_inference_sidecar.Metrics
use distri_inference_sidecar.Float.Approx.{Approx}
use distri_inference_sidecar.GrpcServer.Serving
use distri_inference_sidecar.Sidecar.Process.{
  Process, World, read, serves, arrives, reads, submits, Reach, here, next, launch, arrive,
  move_call, call_submit,
}
use distri_inference_sidecar.Sidecar.Process.Tally.{Counted, Reach-Counted}
use distri_inference_sidecar.Tests.Servers.{prompt}
use distri_inference_sidecar.Tests.Readers.{two_devices}
use distri_inference_sidecar.Tests.Sidecars.{loaded}
use distri_inference_sidecar.Tests.Guards.{mb}
use distri_inference_sidecar.Tests.Processes.{world, begun}

abbrev verbose : World
verbose = record world { bpe_count = λ s. pos 600 }

abbrev launched : Process Approx
launched = launch verbose two_devices (loaded (mb 95) 500) Metrics.new

abbrev ready : Process Approx
ready = record launched { server = record launched.server { serve_call = Serving.listening } }

abbrev refused : Process Approx
refused =
    call_submit verbose [] [] (record begun { phase = read false }) false
      (move_call [] [] begun (read false) (arrive prompt ready))

to_refused : Reach verbose launched refused
unfolding launch
to_refused =
    next
      (next
        (next (next here (serves ready.server (Serving.listens refl refl)))
          (arrives prompt refl tt))
        (reads [] [] begun refl refl))
      (submits [] [] (record begun { phase = read false }) false refl refl)

Reach-Counted_example : Counted Metrics.new refused.system.b.out.metrics refused.replies
Reach-Counted_example =
    Reach-Counted verbose Metrics.new two_devices (loaded (mb 95) 500) to_refused
