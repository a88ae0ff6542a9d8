-- ===== src/VramGuard/Watch.antt =====
-- internal/vramguard/vramguard.go: New, a reading by the chosen reader, and the goroutine of Start
-- with Stop as steps.
pub mod Lifecycle
use distri_inference_sidecar.Prelude.{
  ℕ, ◌+◌, ◌≡◌, Bool, true, false, Option, none, some, List, [], ◌∷◌, map, Bytes, codes,
  if◌then◌else◌,
}
use distri_inference_sidecar.Prelude.Int.{ℤ}
use distri_inference_sidecar.Errors.{GoError, Fallible, ok, err, wrapped}
use distri_inference_sidecar.Metrics.{Metrics, set_label}
use distri_inference_sidecar.Float.{Float64}
use distri_inference_sidecar.Strings.{trim_space}
use distri_inference_sidecar.VramGuard.{Config, Guard, new_with_reader, start_ticker, poll_once}
use distri_inference_sidecar.VramGuard.Readers.{
  Reader, nvml_reader, smi_reader, Nvml, new_vram_reader, parse_smi_output, nvml_read,
}

-- Name.
abbrev pub name : Reader → Bytes
name (nvml_reader ds) = codes "nvml"
name smi_reader = codes "nvidia-smi"

-- Close: whether the NVML library is initialised behind it.
abbrev pub close : Reader → Bool → Bool
close (nvml_reader ds) initialised = false
close smi_reader initialised = initialised

-- How a run of nvidia-smi ends: with its output, or with an error before or after the timeout.
pub data SmiRun : Type 0 where
  printed : Bytes → SmiRun
  failed timed_out : GoError → SmiRun

-- What can be read at one moment: the memory of a device by its index, and a run of nvidia-smi.
pub record Gpus : Type 0 where
  pub memory : ℕ → Option (ℕ × ℕ)
  pub smi : SmiRun

-- Where the goroutine of Start stands.
pub data Polling : Type 0 where
  entered polling returned panicked : Polling

module _ (fl : Float64) where
  open fl use {F}

  -- queryVRAMViaSMI.
  unfoldable pub query_smi : (Bytes → Bytes) → SmiRun → Fallible (F × F)
  query_smi quote (printed out) = parse_smi_output fl quote (trim_space out)
  query_smi quote (timed_out e) = err (wrapped (codes "nvidia-smi timed out after 5s: ") e [])
  query_smi quote (failed e) = err (wrapped (codes "nvidia-smi failed: ") e [])

  -- ReadUsageMB of either reader.
  unfoldable pub read_usage : (Bytes → Bytes) → Gpus → Reader → Fallible (F × F)
  unfolding query_smi
  read_usage quote gpus (nvml_reader ds) = nvml_read fl (map gpus.memory ds)
  read_usage quote gpus smi_reader = query_smi quote gpus.smi

-- The guard with its reader, whether the NVML library is initialised, how often the reader was
-- closed, whether stopCh is closed, and the goroutine of Start.
pub record Watch (F : Type 0) : Type 0 where
  pub guard : Guard F
  pub reader : Reader
  pub initialised : Bool
  pub closes : ℕ
  pub stop_closed : Bool
  pub loop : Polling

abbrev pub set_mode : Bytes → List (Bytes × ℕ) → List (Bytes × ℕ)
unfolding set_label
set_mode mode ls =
    set_label mode 1 (set_label (codes "nvidia-smi") 0 (set_label (codes "nvml") 0 ls))

-- The gauge that Start sets, if there are metrics.
unfoldable pub report_mode : Bytes → Option Metrics → Option Metrics
unfolding set_mode
report_mode mode none = none
report_mode mode (some m) = some (record m { vram_reader_mode = set_mode mode m.vram_reader_mode })

module _ (fl : Float64) where
  open fl use {F}

  -- New, and Start called.
  unfoldable pub new : Nvml → Config F → Option Metrics → Watch F
  unfolding new_with_reader new_vram_reader
  new api cfg m = record {
    guard = new_with_reader fl cfg m;
    reader = (new_vram_reader api cfg.reader_mode).0;
    initialised = (new_vram_reader api cfg.reader_mode).1;
    closes = 0;
    stop_closed = false;
    loop = entered;
  }

  -- The deferred Close, with which Start ends.
  abbrev pub close_reader : Polling → Watch F → Watch F
  close_reader end w = record w {
    initialised = close w.reader w.initialised;
    closes = w.closes + 1;
    loop = end;
  }

  abbrev after_ticker : Option ℤ → Watch F → Watch F
  after_ticker none w = close_reader panicked w
  after_ticker (some period) w = record w { loop = polling }

  -- Start up to its loop: the gauge, and the ticker, whose panic runs the deferred Close.
  unfoldable pub enter : Watch F → Watch F
  unfolding report_mode start_ticker
  enter w = after_ticker (start_ticker fl w.guard.cfg) (record w {
    guard = record w.guard { metrics = report_mode (name w.reader) w.guard.metrics };
  })

  -- One tick: a poll of so many microseconds.
  unfoldable pub tick : (Bytes → Bytes) → ℕ → Gpus → Watch F → Watch F
  unfolding poll_once read_usage
  tick quote us gpus w = record w {
    guard = poll_once fl (us, read_usage fl quote gpus w.reader) w.guard;
  }

  -- Stop closes stopCh at its first call.
  abbrev pub stop : Watch F → Watch F
  stop w = record w { stop_closed = true }

-- The steps of the goroutine of Start.
pub data Step (fl : Float64) (quote : Bytes → Bytes) (w : Watch fl.F) : Watch fl.F → Type 0 where
  enters : w.loop ≡ entered → Step fl quote w (enter fl w)
  ticks : (us : ℕ) (gpus : Gpus) → w.loop ≡ polling → Step fl quote w (tick fl quote us gpus w)
  sees_stop : w.loop ≡ polling → w.stop_closed ≡ true → Step fl quote w (close_reader fl returned w)

-- The goroutine with calls of Stop at any moments.
pub data Reach (fl : Float64) (quote : Bytes → Bytes) (v : Watch fl.F) : Watch fl.F → Type 0 where
  here : Reach fl quote v v
  next : {w x : Watch fl.F} → Reach fl quote v w → Step fl quote w x → Reach fl quote v x
  stops : {w : Watch fl.F} → Reach fl quote v w → Reach fl quote v (stop fl w)
