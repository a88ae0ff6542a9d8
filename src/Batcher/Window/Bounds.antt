-- ===== src/Batcher/Window/Bounds.antt =====
-- Bounds on the collection window, and where its int64 product wraps.
use distri_inference_sidecar.Prelude.{ℕ, ◌*◌, ◌≤◌, ◌<◌, ◌≡◌, arith}
use distri_inference_sidecar.Prelude.Int.{ℤ, pos, ◌≤ℤ◌}
use distri_inference_sidecar.Batcher.Window.{min_collect_wait, dynamic_wait_ms}

-- The window is never below one millisecond, for any rate and any MaxWaitMs, also where the
-- product wraps.
min-le-dynamic_wait_ms :
    (qps : ℕ) (max_wait_ms : ℤ) → min_collect_wait ≤ℤ dynamic_wait_ms qps max_wait_ms
unfolding dynamic_wait_ms
min-le-dynamic_wait_ms qps max_wait_ms = ground arith

-- A MaxWaitMs from 1 to 9223372036854 bounds the window from above.
dynamic_wait_ms-le-max :
    (qps n : ℕ) → 1 ≤ n → n ≤ 9223372036854 → dynamic_wait_ms qps (pos n) ≤ℤ pos (n * 1000000)
unfolding dynamic_wait_ms
dynamic_wait_ms-le-max qps n low high = ground arith

-- Over that range the window grows with the rate.
dynamic_wait_ms-mono :
    (p q n : ℕ) → p ≤ q → n ≤ 9223372036854 → dynamic_wait_ms p (pos n) ≤ℤ dynamic_wait_ms q (pos n)
unfolding dynamic_wait_ms
dynamic_wait_ms-mono p q n h high = ground arith

-- The least MaxWaitMs beyond it wraps: under load the window is one millisecond.
pub dynamic_wait_ms-wraps :
    (qps n : ℕ)
    → 100 < qps
    → 9223372036854 < n
    → n ≤ 18446744073709
    → dynamic_wait_ms qps (pos n) ≡ min_collect_wait
unfolding dynamic_wait_ms
dynamic_wait_ms-wraps qps n load low high = ground arith
