-- ===== src/Sidecar/Process/Kept.antt =====
-- What the goroutines of the process leave alone.
use distri_inference_sidecar.Prelude.{◌≡◌, refl, arith}
use distri_inference_sidecar.VramGuard.Watch
use distri_inference_sidecar.VramGuard.Watch.{Watch}
use distri_inference_sidecar.Sidecar.Process.{World}

-- Start's steps do not close stopCh.
pub stop_closed-Step :
    (w : World) {v x : Watch w.fl.F} → Watch.Step w.fl w.quote v x → x.stop_closed ≡ v.stop_closed
unfolding Watch.enter Watch.tick
stop_closed-Step w {v} (Watch.enters e) = ground arith
stop_closed-Step w (Watch.ticks us gpus e) = refl
stop_closed-Step w (Watch.sees_stop e c) = refl
