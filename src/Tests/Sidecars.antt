-- ===== src/Tests/Sidecars.antt =====
-- The configuration at concrete environments, on the small float64.
use distri_inference_sidecar.Prelude.{
  ℕ, ◌≡◌, refl, true, not, ◌&&◌, ◌||◌, false, Option, none, some, [], ◌∷◌, Bytes, codes, bytes_eq,
  if◌then◌else◌, arith,
}
use distri_inference_sidecar.Prelude.Int.{pos}
use distri_inference_sidecar.Float.Approx.{Approx, nan, approx, approx-IsIeee}
use distri_inference_sidecar.VramGuard.{new_with_reader, percent, poll_once, polls, start_ticker}
use distri_inference_sidecar.Sidecar.{
  Getenv, RuntimeConfig, load_int, env_int_required, env_float_required, load_thresholds,
  load_and_validate_config, guard_config,
}
use distri_inference_sidecar.Sidecar.Valid.{IsValid, load_and_validate_config-IsValid}
use distri_inference_sidecar.Sidecar.Thresholds.{
  start_ticker-panic, poll_once-loaded, load_thresholds-nan,
}
use distri_inference_sidecar.Tests.Guards.{mb, reading, guard_with}

abbrev parse_url : Bytes → Option (Bytes × Bytes)
parse_url s = some (codes "http", codes "b")

abbrev environment : Bytes → Bytes → Getenv
environment oom poll key =
    if bytes_eq key (codes "BACKEND_URL")
    then codes "http://b/infer"
    else if bytes_eq key (codes "MAX_WAIT_MS")
    then codes " 20 "
    else if bytes_eq key (codes "OOM_THRESHOLD_PCT")
    then oom
    else if bytes_eq key (codes "POLL_INTERVAL_MS")
    then poll
    else if bytes_eq key (codes "VRAM_READER_MODE")
    then codes "SMI"
    else []

abbrev pub loaded : Approx → ℕ → RuntimeConfig Approx
loaded oom poll = record {
  backend_url = codes "http://b/infer";
  max_batch_size = pos 8;
  max_wait_ms = pos 20;
  backend_timeout_ms = pos 120000;
  poll_interval_ms = pos poll;
  oom_threshold_pct = oom;
  close_threshold_pct = mb 85;
  vram_reader_mode = codes "smi";
}

abbrev usual : Getenv
usual = environment (codes "95") []

abbrev nan_oom : Getenv
nan_oom = environment (codes "nan") []

abbrev long_poll : Getenv
long_poll = environment [] (codes "+9223372036855")

loads_usual : load_and_validate_config approx parse_url usual ≡ some (loaded (mb 95) 500)
unfolding load_and_validate_config bytes_eq
loads_usual = refl

zero_rejected : load_and_validate_config approx parse_url (environment [] (codes "0")) ≡ none
unfolding load_and_validate_config bytes_eq
zero_rejected = refl

long_poll_read :
    env_int_required long_poll (codes "POLL_INTERVAL_MS") (pos 500) ≡ some (pos 9223372036855)
unfolding env_int_required bytes_eq
long_poll_read = refl

nan_read : env_float_required approx nan_oom (codes "OOM_THRESHOLD_PCT") (mb 90) ≡ some nan
unfolding env_float_required bytes_eq
nan_read = refl

close_read : env_float_required approx nan_oom (codes "CLOSE_THRESHOLD_PCT") (mb 85) ≡ some (mb 85)
unfolding env_float_required bytes_eq
close_read = refl

load_and_validate_config-IsValid_example : IsValid approx (loaded (mb 95) 500)
load_and_validate_config-IsValid_example =
    load_and_validate_config-IsValid approx parse_url usual (loaded (mb 95) 500) loads_usual

poll_once-loaded_example :
    (poll_once approx
      (reading 90)
      (guard_with (guard_config (loaded (mb 95) 500)) true)).circuit_open
    ≡ (approx.le (mb 95) (percent approx (mb 90) (mb 100))
        || true && not (approx.le (percent approx (mb 90) (mb 100)) (mb 85)))
poll_once-loaded_example =
    poll_once-loaded approx approx-IsIeee parse_url usual (loaded (mb 95) 500)
      (guard_with (guard_config (loaded (mb 95) 500)) true) 3 (mb 90) (mb 100) loads_usual refl refl

load_thresholds-nan_example :
    (load_thresholds approx nan_oom ≡ some (nan, mb 85))
    × ((polls approx
          (reading 99 ∷ [])
          (new_with_reader approx (guard_config (loaded nan 500)) none)).circuit_open
        ≡ false)
load_thresholds-nan_example =
    load_thresholds-nan approx approx-IsIeee nan_oom (loaded nan 500) none (reading 99 ∷ [])
      nan_read refl close_read refl

start_ticker-panic_example :
    (load_int long_poll (codes "POLL_INTERVAL_MS") (pos 500) (pos 1) ≡ some (pos 9223372036855))
    × (start_ticker approx (guard_config (loaded (mb 90) 9223372036855)) ≡ none)
start_ticker-panic_example =
    start_ticker-panic approx long_poll (loaded (mb 90) 9223372036855) 9223372036855 long_poll_read
      refl (omega arith) (omega arith)
