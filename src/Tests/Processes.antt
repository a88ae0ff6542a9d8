-- ===== src/Tests/Processes.antt =====
-- The process at a concrete history: an RPC is accepted, the signal comes, its caller leaves, and
-- main goes on to Batcher.Stop.
use mathlib.Core.List.{Nodup}
use distri_inference_sidecar.Prelude.{◌≡◌, Perm, refl, true, false, [], map, codes}
use distri_inference_sidecar.Errors.{GoError, sentinel, plain, canceled}
use distri_inference_sidecar.Metrics
use distri_inference_sidecar.Float.Approx.{Approx, approx}
use distri_inference_sidecar.Batcher.Delivery.{channels}
use distri_inference_sidecar.Batcher.System
use distri_inference_sidecar.GrpcServer.{infer_wait, context_done}
use distri_inference_sidecar.GrpcServer.Serving
use distri_inference_sidecar.Tokenizer.{validate}
use distri_inference_sidecar.Sidecar.Process.{
  submit_call, Call, Process, World, arrived, read, waiting, arrives, reads, submits, leaves,
  serves, is_signalled, rpcs_finish, stops, Reach, here, next, launch, arrive, move_call,
  call_submit, answer, closing_rpcs, stopping_batcher, finished, updates,
}
use distri_inference_sidecar.Sidecar.Process.Parts.{IsConfigured, Reach-IsConfigured}
use distri_inference_sidecar.Sidecar.Process.Calls.{reply_ids, below}
use distri_inference_sidecar.Sidecar.Process.Fresh.{Reach-Nodup}
use distri_inference_sidecar.Sidecar.Process.Shutdown.{IsOrdered, Reach-IsOrdered}
use distri_inference_sidecar.Sidecar.Process.Patient.{Patient}
use distri_inference_sidecar.Sidecar.Process.Finishing.{main-finishes}
use distri_inference_sidecar.Sidecar.Process.Listening.{Unheard, IsServing, Reach-IsServing}
use distri_inference_sidecar.Tests.Samples.{env, env_ranged}
use distri_inference_sidecar.Tests.Servers.{count_bytes, prompt}
use distri_inference_sidecar.Tests.Watches.{quote}
use distri_inference_sidecar.Tests.Readers.{two_devices}
use distri_inference_sidecar.Tests.Sidecars.{loaded}
use distri_inference_sidecar.Tests.Guards.{mb}

abbrev pub world : World
world = record { fl = approx; bpe_count = count_bytes; quote = quote }

abbrev pub launched : Process Approx
launched = launch world two_devices (loaded (mb 95) 500) Metrics.new

-- Serve listens.
abbrev ready : Process Approx
ready = record launched { server = record launched.server { serve_call = Serving.listening } }

abbrev pub begun : Call
begun = record { id = 0; req = prompt; phase = arrived }

abbrev pub admitted : Process Approx
admitted =
    call_submit world [] [] (record begun { phase = read false }) false
      (move_call [] [] begun (read false) (arrive prompt ready))

-- The RPC waits.
pub to_admitted : Reach world launched admitted
unfolding launch
to_admitted =
    next
      (next
        (next (next here (serves ready.server (Serving.listens refl refl)))
          (arrives prompt refl tt))
        (reads [] [] begun refl refl))
      (submits [] [] (record begun { phase = read false }) false refl refl)

abbrev left : Process Approx
left =
    answer [] [] (record begun { phase = waiting })
      (infer_wait prompt (context_done (sentinel canceled)))
      (record admitted { server = Serving.graceful_stop admitted.server; stage = closing_rpcs })

abbrev halted : Process Approx
halted = record left {
  system = record left.system {
    b = record left.system.b { stopped = true };
    stopping = System.locked;
  };
  stage = stopping_batcher;
}

to_halted : Reach world launched halted
unfolding launch submit_call validate
to_halted =
    next
      (next
        (next (next to_admitted (is_signalled refl))
          (leaves [] [] (record begun { phase = waiting }) (sentinel canceled) refl refl))
        (rpcs_finish refl refl))
      (stops _ (System.locks refl) refl tt)

Reach-IsConfigured_example : IsConfigured two_devices (loaded (mb 95) 500) halted
Reach-IsConfigured_example = Reach-IsConfigured world two_devices (loaded (mb 95) 500) to_halted

Reach-Nodup_example :
    Nodup (map (λ r. r.result_ch) halted.system.accepted)
    × Nodup (channels halted.system.b.out.sent)
Reach-Nodup_example = Reach-Nodup world two_devices (loaded (mb 95) 500) Metrics.new to_halted

Reach-IsOrdered_example : IsOrdered halted
Reach-IsOrdered_example =
    Reach-IsOrdered world two_devices (loaded (mb 95) 500) Metrics.new to_halted

main-finishes_example :
    (q : Process Approx) × Patient world admitted q
    × (q.stage ≡ finished)
    × Perm (reply_ids q.replies) (below admitted.next_id)
main-finishes_example =
    main-finishes world two_devices (loaded (mb 95) 500) Metrics.new env env_ranged admitted
      to_admitted

Reach-IsServing_example : IsServing halted
Reach-IsServing_example =
    Reach-IsServing world two_devices (loaded (mb 95) 500) Metrics.new to_halted

abbrev in_use : GoError
in_use = Serving.listen_error (codes ":50051") (plain (codes "address in use"))

-- Serve cannot listen, and the goroutine of the gauge ticks.
abbrev unheard : Process Approx
unheard = record launched {
  server = record launched.server { serve_call = Serving.refused in_use };
}

to_unheard : Reach world launched unheard
unfolding launch
to_unheard =
    next (next here (serves unheard.server (Serving.fails (plain (codes "address in use")) refl)))
      (updates refl)
