-- ===== src/Tests/Watches.antt =====
-- The life of a guard at a concrete history: a hot reading, a Stop, and the end of Start.
use distri_inference_sidecar.Prelude.{
  ◌≡◌, refl, true, false, none, some, Bytes, codes, bytes_eq, ◌==◌, if◌then◌else◌,
}
use distri_inference_sidecar.Errors.{plain}
use distri_inference_sidecar.Metrics
use distri_inference_sidecar.Float.Approx.{Approx, approx}
use distri_inference_sidecar.VramGuard.Readers.{nvml_read}
use distri_inference_sidecar.VramGuard.Watch.{
  Gpus, failed, Watch, new, enter, tick, stop, returned, enters, ticks, sees_stop, Reach, here,
  next, stops,
}
use distri_inference_sidecar.VramGuard.Watch.Lifecycle.{IsWatched, new-IsWatched}
use distri_inference_sidecar.Tests.Guards.{mb, thresholds}
use distri_inference_sidecar.Tests.Readers.{two_devices}

abbrev pub quote : Bytes → Bytes
quote s = s

-- The second device has used 95 of 100 MiB.
abbrev gpus : Gpus
gpus = record {
  memory = λ i. if i == 1 then some (99614720, 104857600) else none;
  smi = failed (plain (codes "exit status 9"));
}

abbrev watched : Watch Approx
watched = enter approx (new approx two_devices (thresholds (mb 90) (mb 85)) (some Metrics.new))

abbrev ended : Watch Approx
ended =
    let w = stop approx (tick approx quote 7 gpus watched) in
    record w { initialised = false; closes = 1; loop = returned }

hot : (tick approx quote 7 gpus watched).guard.circuit_open ≡ true
unfolding tick enter new bytes_eq nvml_read
hot = refl

to_ended :
    Reach approx quote
      (new approx two_devices (thresholds (mb 90) (mb 85)) (some Metrics.new))
      ended
unfolding tick enter new bytes_eq
to_ended = next (stops (next (next here (enters refl)) (ticks 7 gpus refl))) (sees_stop refl refl)

new-IsWatched_example : IsWatched approx two_devices (thresholds (mb 90) (mb 85)) ended
new-IsWatched_example = new-IsWatched approx quote two_devices (thresholds (mb 90) (mb 85)) to_ended
