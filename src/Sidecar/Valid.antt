-- ===== src/Sidecar/Valid.antt =====
-- cmd/sidecar/main.go: what main can rely on in a configuration that was loaded.
use distri_inference_sidecar.Prelude.{
  ◌≡◌, refl, true, false, Option, none, some, Bytes, codes, arith,
}
use distri_inference_sidecar.Prelude.Int.{ℤ, pos, leb_ℤ}
use distri_inference_sidecar.Float.{Float64}
use distri_inference_sidecar.Sidecar.{
  ◌>>=◌, Getenv, RuntimeConfig, load_backend_url, load_int, load_thresholds, load_reader_mode,
  is_mode, is_empty, load_and_validate_config,
}

-- A chain that ends with a value has one at its first step.
on_some {ℓ κ τ} :
    {A : Type ℓ}
    → {B : Type κ} → {P : Type τ} → (m : Option A) → {f : A → Option B} → {b : B}
    → (m >>= f) ≡ some b
    → ((a : A) → m ≡ some a → f a ≡ some b → P)
    → P
on_some none h k = ground arith
on_some (some a) h k = k a refl h

load_int-least :
    (getenv : Getenv) (key : Bytes) (fallback least n : ℤ)
    → load_int getenv key fallback least ≡ some n
    → leb_ℤ least n ≡ true
unfolding load_int
load_int-least getenv key fallback least n h = ground arith

load_backend_url-empty :
    (parse_url : Bytes → Option (Bytes × Bytes)) (getenv : Getenv) (url : Bytes)
    → load_backend_url parse_url getenv ≡ some url
    → is_empty url ≡ false
unfolding load_backend_url
load_backend_url-empty parse_url getenv url h = ground arith

load_reader_mode-mode :
    (getenv : Getenv) (mode : Bytes) → load_reader_mode getenv ≡ some mode → is_mode mode ≡ true
unfolding load_reader_mode
load_reader_mode-mode getenv mode h = ground arith

module _ (fl : Float64) where
  open fl use {F, le, lt, of_ℕ}

  load_thresholds-tests :
      (getenv : Getenv) (oom close : F)
      → load_thresholds fl getenv ≡ some (oom, close)
      → (le oom (of_ℕ 0) ≡ false)
        × (lt (of_ℕ 100) oom ≡ false)
        × (le close (of_ℕ 0) ≡ false)
        × (le oom close ≡ false)
  unfolding load_thresholds
  load_thresholds-tests getenv oom close h = ground arith

  abbrev pub IsValid : RuntimeConfig F → Type 0
  IsValid cfg =
      (is_empty cfg.backend_url ≡ false)
      × (leb_ℤ (pos 1) cfg.max_batch_size ≡ true)
      × (leb_ℤ (pos 0) cfg.max_wait_ms ≡ true)
      × (leb_ℤ (pos 1) cfg.backend_timeout_ms ≡ true)
      × (leb_ℤ (pos 1) cfg.poll_interval_ms ≡ true)
      × (le cfg.oom_threshold_pct (of_ℕ 0) ≡ false)
      × (lt (of_ℕ 100) cfg.oom_threshold_pct ≡ false)
      × (le cfg.close_threshold_pct (of_ℕ 0) ≡ false)
      × (le cfg.oom_threshold_pct cfg.close_threshold_pct ≡ false)
      × (is_mode cfg.vram_reader_mode ≡ true)

  -- A configuration that is loaded has a URL, sizes and times in their ranges, thresholds that no
  -- test rejects, and one of the four reader modes.
  pub load_and_validate_config-IsValid :
      (parse_url : Bytes → Option (Bytes × Bytes)) (getenv : Getenv) (cfg : RuntimeConfig F)
      → load_and_validate_config fl parse_url getenv ≡ some cfg
      → IsValid cfg
  unfolding load_and_validate_config
  load_and_validate_config-IsValid parse_url getenv cfg h =
      on_some (load_backend_url parse_url getenv) h λ url of_url h.
        on_some (load_int getenv (codes "MAX_BATCH_SIZE") (pos 8) (pos 1)) h λ batch of_batch h.
          on_some (load_int getenv (codes "MAX_WAIT_MS") (pos 50) (pos 0)) h λ wait of_wait h.
            on_some (load_int getenv (codes "BACKEND_TIMEOUT_MS") (pos 120000) (pos 1)) h
              λ timeout of_timeout h.
                on_some (load_int getenv (codes "POLL_INTERVAL_MS") (pos 500) (pos 1)) h
                  λ poll of_poll h.
                    on_some (load_thresholds fl getenv) h λ (oom, close) of_thresholds h.
                      on_some (load_reader_mode getenv) h λ mode of_mode h. ground (
                        arith,
                        load_backend_url-empty parse_url getenv url of_url,
                        load_int-least getenv (codes "MAX_BATCH_SIZE") (pos 8) (pos 1) batch
                            of_batch,
                        load_int-least getenv (codes "MAX_WAIT_MS") (pos 50) (pos 0) wait of_wait,
                        load_int-least getenv (codes "BACKEND_TIMEOUT_MS") (pos 120000) (pos 1)
                            timeout of_timeout,
                        load_int-least getenv (codes "POLL_INTERVAL_MS") (pos 500) (pos 1) poll
                            of_poll,
                        load_thresholds-tests getenv oom close of_thresholds,
                        load_reader_mode-mode getenv mode of_mode,
                      )
