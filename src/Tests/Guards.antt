-- ===== src/Tests/Guards.antt =====
-- The circuit breaker at concrete readings, on the small float64.
use distri_inference_sidecar.Prelude.{ℕ, ◌*◌, ◌≡◌, refl, Bool, true, false, none, [], ◌∷◌, codes}
use distri_inference_sidecar.Prelude.Int.{pos}
use distri_inference_sidecar.Errors.{Fallible, ok}
use distri_inference_sidecar.Float.Approx.{Approx, nan, thousandths, approx, approx-IsIeee}
use distri_inference_sidecar.VramGuard.{Config, Guard, new_with_reader, poll_once, polls}
use distri_inference_sidecar.VramGuard.Breaker.{Polled, poll_once-Polled}

abbrev pub mb : ℕ → Approx
mb n = thousandths (pos (n * 1000))

abbrev pub thresholds : Approx → Approx → Config Approx
thresholds oom close = record {
  poll_interval_ms = pos 500;
  oom_threshold_pct = oom;
  close_threshold_pct = close;
  reader_mode = codes "auto";
}

abbrev pub guard_with : Config Approx → Bool → Guard Approx
guard_with cfg circuit_open = record {
  cfg = cfg;
  circuit_open = circuit_open;
  metrics = none;
  used_mb = mb 0;
  total_mb = mb 0;
}

abbrev pub guard : Guard Approx
guard = guard_with (thresholds (mb 90) (mb 85)) false

abbrev pub tripped : Guard Approx
tripped = guard_with (thresholds (mb 90) (mb 85)) true

abbrev deaf : Guard Approx
deaf = guard_with (thresholds nan (mb 85)) false

guard_new : new_with_reader approx (thresholds (mb 90) (mb 85)) none ≡ guard
unfolding new_with_reader
guard_new = refl

abbrev pub reading : ℕ → ℕ × Fallible (Approx × Approx)
reading used = (3, ok (mb used, mb 100))

opens : (polls approx (reading 50 ∷ reading 91 ∷ reading 87 ∷ []) guard).circuit_open ≡ true
unfolding polls
opens = refl

closes : (polls approx (reading 91 ∷ reading 87 ∷ reading 85 ∷ []) guard).circuit_open ≡ false
unfolding polls
closes = refl

-- CloseThresholdPct is left at 0: the circuit closes at 85.
abbrev by_default : Guard Approx
by_default = guard_with (thresholds (mb 90) (mb 0)) true

poll_once-Polled_example :
    Polled approx (ok (mb 85, mb 100)) by_default (poll_once approx (reading 85) by_default)
poll_once-Polled_example = poll_once-Polled approx approx-IsIeee 3 (ok (mb 85, mb 100)) by_default
