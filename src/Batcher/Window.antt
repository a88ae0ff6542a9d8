-- ===== src/Batcher/Window.antt =====
-- internal/batcher/batcher.go: dynamicWaitMs, and the timeout that New computes. A time.Duration
-- is an int64 of nanoseconds; the products with time.Millisecond wrap.
pub mod Bounds
use distri_inference_sidecar.Prelude.{ℕ, ltb, if◌then◌else◌}
use distri_inference_sidecar.Prelude.Int.{ℤ, pos, ltb_ℤ, leb_ℤ, quot}
use distri_inference_sidecar.Duration.{milliseconds}
use distri_inference_sidecar.Batcher.Types.{Config}

abbrev pub min_collect_wait : ℤ
min_collect_wait = pos 1000000

-- The window before the lower bound is applied; `qps` is what currentQPS.Load() returns.
unfoldable pub wanted_wait : ℕ → ℤ → ℤ
unfolding milliseconds quot
wanted_wait qps max_wait_ms =
    if ltb 100 qps
    then milliseconds max_wait_ms
    else if ltb 50 qps
    then milliseconds (quot max_wait_ms 2)
    else milliseconds (quot max_wait_ms 4)

unfoldable pub dynamic_wait_ms : ℕ → ℤ → ℤ
unfolding wanted_wait
dynamic_wait_ms qps max_wait_ms =
    let wait = wanted_wait qps max_wait_ms in
    if ltb_ℤ wait min_collect_wait then min_collect_wait else wait

-- The timeout of the HTTP client: 120 s unless the configuration gives a positive one.
unfoldable pub client_timeout : Config → ℤ
unfolding milliseconds
client_timeout cfg =
    if leb_ℤ cfg.backend_timeout_ms (pos 0)
    then milliseconds (pos 120000)
    else milliseconds cfg.backend_timeout_ms
