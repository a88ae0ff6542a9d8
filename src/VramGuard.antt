-- ===== src/VramGuard.antt =====
-- internal/vramguard/vramguard.go: the guard, its circuit breaker and its polling.
pub mod Breaker
pub mod Readers
pub mod Watch
pub mod Stores
use distri_inference_sidecar.Prelude.{
  ℕ, ◌+◌, Bool, true, false, not, ◌&&◌, Option, none, some, List, [], ◌∷◌, ◌++◌, Bytes,
  if◌then◌else◌,
}
use distri_inference_sidecar.Prelude.Int.{ℤ, pos, leb_ℤ}
use distri_inference_sidecar.Duration.{milliseconds}
use distri_inference_sidecar.Errors.{GoError, Fallible, ok, err}
use distri_inference_sidecar.Metrics.{Metrics}
use distri_inference_sidecar.Float.{Float64}

pub record Config (F : Type 0) : Type 0 where
  pub poll_interval_ms : ℤ
  pub oom_threshold_pct : F
  pub close_threshold_pct : F
  pub reader_mode : Bytes

-- `metrics` is `none` for a nil pointer. The reader is outside: a poll is given what it reads.
pub record Guard (F : Type 0) : Type 0 where
  pub cfg : Config F
  pub circuit_open : Bool
  pub metrics : Option Metrics
  pub used_mb : F
  pub total_mb : F

module _ (fl : Float64) where
  open fl use {F, le, lt, sub, mul, div, of_ℕ}

  -- NewWithReader.
  unfoldable pub new_with_reader : Config F → Option Metrics → Guard F
  new_with_reader cfg m = record {
    cfg = cfg;
    circuit_open = false;
    metrics = m;
    used_mb = of_ℕ 0;
    total_mb = of_ℕ 0;
  }

  -- The ticker that Start makes: `none` for the panic of time.NewTicker at a period that is not
  -- positive.
  unfoldable pub start_ticker : Config F → Option ℤ
  unfolding milliseconds
  start_ticker cfg =
      let period = milliseconds cfg.poll_interval_ms in
      if leb_ℤ period (pos 0) then none else some period

  abbrev pub is_open : Guard F → Bool
  is_open g = g.circuit_open

  abbrev pub get_usage : Guard F → F × F
  get_usage g = (g.used_mb, g.total_mb)

  -- Used over total, in percent.
  abbrev pub percent : F → F → F
  percent used total = mul (div used total) (of_ℕ 100)

  -- The threshold for closing: 5 points below the other one unless it is positive, and never
  -- negative.
  unfoldable pub close_threshold : Config F → F
  close_threshold cfg =
      let wanted =
        if le cfg.close_threshold_pct (of_ℕ 0)
        then sub cfg.oom_threshold_pct (of_ℕ 5)
        else cfg.close_threshold_pct in
      if lt wanted (of_ℕ 0) then of_ℕ 0 else wanted

  -- The hysteresis at the end of pollOnce.
  unfoldable pub judge : F → Guard F → Guard F
  unfolding close_threshold
  judge pct g =
      if le g.cfg.oom_threshold_pct pct
      then (if not g.circuit_open then record g { circuit_open = true } else g)
      else if le pct (close_threshold g.cfg) && g.circuit_open
      then record g { circuit_open = false }
      else g

  abbrev pub observe_poll : ℕ → Option Metrics → Option Metrics
  observe_poll us none = none
  observe_poll us (some m) =
      some (record m { vram_poll_duration = m.vram_poll_duration ++ us ∷ [] })

  abbrev count_poll_error : Option Metrics → Option Metrics
  count_poll_error none = none
  count_poll_error (some m) = some (record m { vram_poll_errors = m.vram_poll_errors + 1 })

  -- What pollOnce does with a reading.
  unfoldable pub apply_reading : Fallible (F × F) → Guard F → Guard F
  unfolding judge
  apply_reading (err e) g = record g { metrics = count_poll_error g.metrics }
  apply_reading (ok (used, total)) g =
      if le total (of_ℕ 0)
      then g
      else judge (percent used total) (record g { used_mb = used; total_mb = total })

  -- One poll: its duration in microseconds, and what the reader returned.
  unfoldable pub poll_once : ℕ × Fallible (F × F) → Guard F → Guard F
  unfolding apply_reading
  poll_once (us, reading) g =
      apply_reading reading (record g { metrics = observe_poll us g.metrics })

  -- The polls of one run of Start, in their order.
  unfoldable pub polls : List (ℕ × Fallible (F × F)) → Guard F → Guard F
  unfolding poll_once
  polls [] g = g
  polls (p ∷ ps) g = polls ps (poll_once p g)
