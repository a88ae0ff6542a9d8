-- ===== src/Duration.antt =====
-- time.Duration: an int64 of nanoseconds. The program multiplies by time.Millisecond, which wraps.
use distri_inference_sidecar.Prelude.{ℕ, ◌*◌, ◌≤◌, ◌<◌, ◌≡◌, arith}
use distri_inference_sidecar.Prelude.Int.{ℤ, pos, ◌<ℤ◌, wrap64, scale}

-- time.Duration(ms) * time.Millisecond
unfoldable pub milliseconds : ℤ → ℤ
unfolding wrap64 scale
milliseconds ms = wrap64 (scale ms 1000000)

pub milliseconds-exact : (n : ℕ) → n ≤ 9223372036854 → milliseconds (pos n) ≡ pos (n * 1000000)
unfolding milliseconds
milliseconds-exact n h = ground arith

pub milliseconds-negative :
    (n : ℕ) → 9223372036854 < n → n ≤ 18446744073709 → milliseconds (pos n) <ℤ pos 0
unfolding milliseconds
milliseconds-negative n low high = ground arith
