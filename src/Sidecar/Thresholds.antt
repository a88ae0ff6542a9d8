-- ===== src/Sidecar/Thresholds.antt =====
-- cmd/sidecar/main.go and internal/vramguard/vramguard.go: what the thresholds that main accepts
-- mean for the circuit breaker.
use distri_inference_sidecar.Prelude.{
  ℕ, ◌*◌, ◌≤◌, ◌<◌, ◌≡◌, refl, ap, false, not, ◌||◌, ◌&&◌, Option, none, some, List, Bytes, codes,
  arith,
}
use distri_inference_sidecar.Prelude.Int.{pos}
use distri_inference_sidecar.Duration.{milliseconds-exact, milliseconds-negative}
use distri_inference_sidecar.Errors.{Fallible, ok}
use distri_inference_sidecar.Metrics.{Metrics}
use distri_inference_sidecar.Float.{Float64, IsIeee}
use distri_inference_sidecar.VramGuard
use distri_inference_sidecar.VramGuard.{
  Guard, percent, new_with_reader, poll_once, polls, start_ticker,
}
use distri_inference_sidecar.VramGuard.Breaker.{
  circuit-poll_once, close_threshold-configured, polls-nan, nan_le,
}
use distri_inference_sidecar.Sidecar.{
  Getenv, RuntimeConfig, env_int_required, load_int, env_float_required, load_thresholds,
  load_and_validate_config, guard_config,
}
use distri_inference_sidecar.Sidecar.Valid.{load_and_validate_config-IsValid}

-- The period of the polls is exact for an interval from 1 to 9223372036854 milliseconds.
start_ticker-period :
    (fl : Float64) (cfg : VramGuard.Config fl.F) (n : ℕ)
    → cfg.poll_interval_ms ≡ pos n
    → 1 ≤ n
    → n ≤ 9223372036854
    → start_ticker fl cfg ≡ some (pos (n * 1000000))
unfolding start_ticker
start_ticker-period fl cfg n h low high = ground (arith, milliseconds-exact n high)

-- A POLL_INTERVAL_MS from 9223372036855 to 18446744073709 is accepted, and Start panics on it.
pub start_ticker-panic :
    (fl : Float64) (getenv : Getenv) (cfg : RuntimeConfig fl.F) (n : ℕ)
    → env_int_required getenv (codes "POLL_INTERVAL_MS") (pos 500) ≡ some (pos n)
    → cfg.poll_interval_ms ≡ pos n
    → 9223372036854 < n
    → n ≤ 18446744073709
    → (load_int getenv (codes "POLL_INTERVAL_MS") (pos 500) (pos 1) ≡ some cfg.poll_interval_ms)
      × (start_ticker fl (guard_config cfg) ≡ none)
unfolding start_ticker load_int
start_ticker-panic fl getenv cfg n of_n h low high =
    ground (arith, milliseconds-negative n low high)

module _ (fl : Float64) (ieee : IsIeee fl) where
  open fl use {F, le, lt, of_ℕ}

  -- For a guard with a configuration that main has loaded, a reading with a positive total leaves
  -- the circuit open exactly if the usage has reached OOM_THRESHOLD_PCT, or if the circuit was open
  -- and the usage is not at or below CLOSE_THRESHOLD_PCT. The comparisons are taken to be those of
  -- IEEE 754.
  pub poll_once-loaded :
      (parse_url : Bytes → Option (Bytes × Bytes)) (getenv : Getenv) (cfg : RuntimeConfig F)
      (g : Guard F) (us : ℕ) (used total : F)
      → load_and_validate_config fl parse_url getenv ≡ some cfg
      → g.cfg ≡ guard_config cfg
      → le total (of_ℕ 0) ≡ false
      → (poll_once fl (us, ok (used, total)) g).circuit_open ≡ (
          le cfg.oom_threshold_pct (percent fl used total)
          || g.circuit_open && not (le (percent fl used total) cfg.close_threshold_pct))
  poll_once-loaded parse_url getenv cfg g us used total loaded same positive = ground (
    arith,
    circuit-poll_once fl us (ok (used, total)) g,
    close_threshold-configured fl ieee g.cfg,
    load_and_validate_config-IsValid fl parse_url getenv cfg loaded,
    ap (λ c. c.oom_threshold_pct) same,
    ap (λ c. c.close_threshold_pct) same,
  )

  -- If OOM_THRESHOLD_PCT is the text of a NaN and CLOSE_THRESHOLD_PCT is not at or below zero,
  -- both are accepted, and the circuit of the guard that main makes never opens.
  pub load_thresholds-nan :
      (getenv : Getenv) (cfg : RuntimeConfig F) (m : Option Metrics)
      (ps : List (ℕ × Fallible (F × F)))
      → env_float_required fl getenv (codes "OOM_THRESHOLD_PCT") (of_ℕ 90)
        ≡ some cfg.oom_threshold_pct
      → le cfg.oom_threshold_pct cfg.oom_threshold_pct ≡ false
      → env_float_required fl getenv (codes "CLOSE_THRESHOLD_PCT") (of_ℕ 85)
        ≡ some cfg.close_threshold_pct
      → le cfg.close_threshold_pct (of_ℕ 0) ≡ false
      → (load_thresholds fl getenv ≡ some (cfg.oom_threshold_pct, cfg.close_threshold_pct))
        × ((polls fl ps (new_with_reader fl (guard_config cfg) m)).circuit_open ≡ false)
  unfolding load_thresholds new_with_reader
  load_thresholds-nan getenv cfg m ps of_oom nan of_close positive = (
    ground (
      arith,
      nan_le fl ieee cfg.oom_threshold_pct (of_ℕ 0),
      nan_le fl ieee cfg.oom_threshold_pct cfg.close_threshold_pct,
      ieee.lt_iff (of_ℕ 100) cfg.oom_threshold_pct,
      ieee.le_self_right (of_ℕ 100) cfg.oom_threshold_pct,
    ),
    polls-nan fl ieee ps (new_with_reader fl (guard_config cfg) m) refl nan,
  )
