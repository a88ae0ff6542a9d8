-- ===== src/Sidecar.antt =====
-- cmd/sidecar/main.go: the configuration from the environment. `none` is the exit of the process;
-- `getenv` is os.Getenv, with the empty text for a variable that is not set, and `parse_url` gives
-- the scheme and the host that net/url finds, `none` for an error.
pub mod Valid
pub mod Thresholds
pub mod Closing
pub mod Process
pub mod Corpus
use distri_inference_sidecar.Prelude.{
  ℕ, zero, suc, ◌+◌, ◌-◌, ◌*◌, Bool, true, false, not, ◌&&◌, ◌||◌, Option, none, some, List, [],
  ◌∷◌, ◌++◌, Bytes, codes, bytes_eq, ◌==◌, ltb, leb, if◌then◌else◌,
}
use distri_inference_sidecar.Prelude.Int.{ℤ, pos, neg, ltb_ℤ, leb_ℤ}
use distri_inference_sidecar.Errors.{Fallible, ok, err}
use distri_inference_sidecar.Float.{Float64}
use distri_inference_sidecar.VramGuard
use distri_inference_sidecar.Batcher.Types
use distri_inference_sidecar.Strings.{trim_space, to_lower}

infixl 5 ◌>>=◌ ◌>>◌
abbrev pub ◌>>=◌ {ℓ κ} : {A : Type ℓ} {B : Type κ} → Option A → (A → Option B) → Option B
none >>= f = none
some a >>= f = f a

abbrev pub ◌>>◌ {ℓ} : {B : Type ℓ} → Option (Unit {0}) → Option B → Option B
m >> k = m >>= λ _. k

-- An exit unless the test holds.
abbrev pub require : Bool → Option (Unit {0})
require true = some tt
require false = none

pub record RuntimeConfig (F : Type 0) : Type 0 where
  pub backend_url : Bytes
  pub max_batch_size : ℤ
  pub max_wait_ms : ℤ
  pub backend_timeout_ms : ℤ
  pub poll_interval_ms : ℤ
  pub oom_threshold_pct : F
  pub close_threshold_pct : F
  pub vram_reader_mode : Bytes

abbrev pub is_empty : Bytes → Bool
is_empty [] = true
is_empty (_ ∷ _) = false

-- The value of decimal digits behind a value, `none` if another byte is met.
abbrev digits_value : ℕ → Bytes → Option ℕ
digits_value n [] = some n
digits_value n (c ∷ cs) =
    let rest = digits_value (n * 10 + (c - 48)) cs in if leb 48 c && leb c 57 then rest else none

abbrev magnitude : Bytes → Option ℕ
magnitude [] = none
magnitude (c ∷ cs) = digits_value 0 (c ∷ cs)

-- A magnitude up to a bound, with its sign.
abbrev signed : ℕ → (ℕ → ℤ) → Option ℕ → Option ℤ
signed bound sign none = none
signed bound sign (some n) = if leb n bound then some (sign n) else none

-- strconv.Atoi: a sign or none, digits, and the range of int64.
unfoldable pub atoi : Bytes → Option ℤ
atoi [] = none
atoi (c ∷ cs) =
    if c == 45
    then signed 9223372036854775808 neg (magnitude cs)
    else if c == 43
    then signed 9223372036854775807 (λ n. pos n) (magnitude cs)
    else signed 9223372036854775807 (λ n. pos n) (magnitude (c ∷ cs))

abbrev pub Getenv : Type 0
Getenv = Bytes → Bytes

unfoldable pub env_int_required : Getenv → Bytes → ℤ → Option ℤ
unfolding atoi trim_space
env_int_required getenv key fallback =
    let raw = trim_space (getenv key) in if is_empty raw then some fallback else atoi raw

abbrev value_of {ℓ} : {A : Type ℓ} → Fallible A → Option A
value_of (ok a) = some a
value_of (err e) = none

-- "1", "true", "yes" and "on", in any case.
unfoldable pub parse_bool_env : Getenv → Bytes → Bool
unfolding trim_space to_lower
parse_bool_env getenv key =
    let v = to_lower (trim_space (getenv key)) in
    bytes_eq v (codes "1")
    || bytes_eq v (codes "true")
    || bytes_eq v (codes "yes")
    || bytes_eq v (codes "on")

abbrev pub is_http : Bytes → Bool
is_http scheme = bytes_eq scheme (codes "http") || bytes_eq scheme (codes "https")

abbrev pub is_mode : Bytes → Bool
is_mode mode =
    bytes_eq mode (codes "auto")
    || bytes_eq mode (codes "nvml")
    || bytes_eq mode (codes "smi")
    || bytes_eq mode (codes "nvidia-smi")

-- BACKEND_URL.
unfoldable pub load_backend_url : (Bytes → Option (Bytes × Bytes)) → Getenv → Option Bytes
unfolding trim_space
load_backend_url parse_url getenv = do
  let url = trim_space (getenv (codes "BACKEND_URL"))
  require (not (is_empty url))
  (scheme, host) ← parse_url url
  require (not (is_empty scheme || is_empty host))
  require (is_http scheme)
  some url

-- An integer variable with its least value.
unfoldable pub load_int : Getenv → Bytes → ℤ → ℤ → Option ℤ
unfolding env_int_required
load_int getenv key fallback least = do
  n ← env_int_required getenv key fallback
  require (leb_ℤ least n)
  some n

-- VRAM_READER_MODE.
unfoldable pub load_reader_mode : Getenv → Option Bytes
unfolding trim_space to_lower
load_reader_mode getenv = do
  let raw = to_lower (trim_space (getenv (codes "VRAM_READER_MODE")))
  let mode = if is_empty raw then codes "auto" else raw
  require (is_mode mode)
  some mode

abbrev default_max_batch_size : ℤ
default_max_batch_size = pos 8

abbrev default_max_wait_ms : ℤ
default_max_wait_ms = pos 50

abbrev default_backend_timeout_ms : ℤ
default_backend_timeout_ms = pos 120000

abbrev default_poll_interval_ms : ℤ
default_poll_interval_ms = pos 500

abbrev default_oom_threshold_pct : ℕ
default_oom_threshold_pct = 90

abbrev default_close_threshold_pct : ℕ
default_close_threshold_pct = 85

module _ (fl : Float64) where
  open fl use {F, le, lt, of_ℕ, parse_float}

  unfoldable pub env_float_required : Getenv → Bytes → F → Option F
  unfolding trim_space
  env_float_required getenv key fallback =
      let raw = trim_space (getenv key) in
      if is_empty raw then some fallback else value_of (parse_float raw)

  -- OOM_THRESHOLD_PCT and CLOSE_THRESHOLD_PCT; the tests are those of the source, each negated.
  unfoldable pub load_thresholds : Getenv → Option (F × F)
  unfolding env_float_required
  load_thresholds getenv = do
    oom ← env_float_required getenv (codes "OOM_THRESHOLD_PCT") (of_ℕ default_oom_threshold_pct)
    require (not (le oom (of_ℕ 0) || lt (of_ℕ 100) oom))
    close ←
        env_float_required getenv (codes "CLOSE_THRESHOLD_PCT") (of_ℕ default_close_threshold_pct)
    require (not (le close (of_ℕ 0) || le oom close))
    some (oom, close)

  unfoldable pub load_and_validate_config :
      (Bytes → Option (Bytes × Bytes)) → Getenv → Option (RuntimeConfig F)
  unfolding load_backend_url load_int load_thresholds load_reader_mode
  load_and_validate_config parse_url getenv = do
    url ← load_backend_url parse_url getenv
    batch ← load_int getenv (codes "MAX_BATCH_SIZE") default_max_batch_size (pos 1)
    wait ← load_int getenv (codes "MAX_WAIT_MS") default_max_wait_ms (pos 0)
    timeout ← load_int getenv (codes "BACKEND_TIMEOUT_MS") default_backend_timeout_ms (pos 1)
    poll ← load_int getenv (codes "POLL_INTERVAL_MS") default_poll_interval_ms (pos 1)
    (oom, close) ← load_thresholds getenv
    mode ← load_reader_mode getenv
    some (record {
      backend_url = url;
      max_batch_size = batch;
      max_wait_ms = wait;
      backend_timeout_ms = timeout;
      poll_interval_ms = poll;
      oom_threshold_pct = oom;
      close_threshold_pct = close;
      vram_reader_mode = mode;
    })

-- What main passes to vramguard.New and to batcher.New.
abbrev pub guard_config : {F : Type 0} → RuntimeConfig F → VramGuard.Config F
guard_config cfg = record {
  poll_interval_ms = cfg.poll_interval_ms;
  oom_threshold_pct = cfg.oom_threshold_pct;
  close_threshold_pct = cfg.close_threshold_pct;
  reader_mode = cfg.vram_reader_mode;
}

abbrev pub batcher_config : {F : Type 0} → RuntimeConfig F → Types.Config
batcher_config cfg = record {
  max_batch_size = cfg.max_batch_size;
  max_wait_ms = cfg.max_wait_ms;
  backend_url = cfg.backend_url;
  backend_timeout_ms = cfg.backend_timeout_ms;
}
