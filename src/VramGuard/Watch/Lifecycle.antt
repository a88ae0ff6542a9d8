-- ===== src/VramGuard/Watch/Lifecycle.antt =====
-- What holds of a guard in every state between New and the end of Start.
use distri_inference_sidecar.Prelude.{
  ℕ, ◌≡◌, ◌≢◌, refl, ap, Bool, true, false, Option, none, some, List, [], ◌∷◌, Bytes, codes, arith,
  bytes_eq,
}
use distri_inference_sidecar.Prelude.Int.{ℤ}
use distri_inference_sidecar.Errors.{Fallible, ok, err}
use distri_inference_sidecar.Metrics
use distri_inference_sidecar.Metrics.{Metrics, set_label}
use distri_inference_sidecar.Float.{Float64}
use distri_inference_sidecar.VramGuard.{Config, Guard, poll_once, start_ticker}
use distri_inference_sidecar.VramGuard.Readers.{
  Reader, nvml_reader, smi_reader, Nvml, new_vram_reader,
}
use distri_inference_sidecar.VramGuard.Readers.Choice.{IsSound, new_vram_reader-IsSound}
use distri_inference_sidecar.VramGuard.Watch.{
  name, Polling, entered, polling, returned, panicked, read_usage, Watch, report_mode, set_mode,
  new, enter, tick, Step, enters, ticks, sees_stop, Reach, here, next, stops,
}

-- How often the reader is closed at a position of Start.
abbrev pub closed_by : Polling → ℕ
closed_by entered = 0
closed_by polling = 0
closed_by returned = 1
closed_by panicked = 1

-- Whether the NVML library is initialised at a position of Start: for its own reader, up to the end.
abbrev pub initialised_at : Polling → Reader → Bool
initialised_at entered (nvml_reader ds) = true
initialised_at polling (nvml_reader ds) = true
initialised_at _ _ = false

-- The gauge of the two modes: one for the reader's own and zero for the other one, and nothing
-- before Start.
abbrev pub reader_modes : Reader → List (Bytes × ℕ)
reader_modes (nvml_reader ds) = (codes "nvml", 1) ∷ (codes "nvidia-smi", 0) ∷ []
reader_modes smi_reader = (codes "nvml", 0) ∷ (codes "nvidia-smi", 1) ∷ []

abbrev pub modes : Polling → Reader → List (Bytes × ℕ)
modes entered r = []
modes polling r = reader_modes r
modes returned r = reader_modes r
modes panicked r = reader_modes r

abbrev pub mode_gauge : Option Metrics → Option (List (Bytes × ℕ))
mode_gauge none = none
mode_gauge (some m) = some m.vram_reader_mode

-- What stopCh has to do with the position of Start, and the ticker with both.
abbrev pub PositionFits : Polling → Bool → Option ℤ → Type 0
PositionFits entered stopped period = Unit
PositionFits polling stopped period = period ≢ none
PositionFits returned stopped period = (period ≢ none) × (stopped ≡ true)
PositionFits panicked stopped period = period ≡ none

pub record IsWatched (fl : Float64) (api : Nvml) (cfg : Config fl.F) (w : Watch fl.F) : Type 0 where
  pub config : w.guard.cfg ≡ cfg
  pub reader : w.reader ≡ (new_vram_reader api cfg.reader_mode).0
  pub library : w.initialised ≡ initialised_at w.loop w.reader
  pub closed : w.closes ≡ closed_by w.loop
  pub gauge : mode_gauge w.guard.metrics ≡ some (modes w.loop w.reader)
  pub position : PositionFits w.loop w.stop_closed (start_ticker fl cfg)

cfg-poll_once :
    (fl : Float64) (p : ℕ × Fallible (fl.F × fl.F)) (g : Guard fl.F)
    → ((poll_once fl p g).cfg ≡ g.cfg)
      × (mode_gauge (poll_once fl p g).metrics ≡ mode_gauge g.metrics)
unfolding poll_once
cfg-poll_once fl (us, err e) g = ground arith
cfg-poll_once fl (us, ok (used, total)) g = ground arith

set_mode-fresh : (r : Reader) → set_mode (name r) [] ≡ reader_modes r
unfolding set_label bytes_eq
set_mode-fresh (nvml_reader ds) = refl
set_mode-fresh smi_reader = refl

report_mode-modes :
    (r : Reader) (m : Option Metrics)
    → mode_gauge m ≡ some []
    → mode_gauge (report_mode (name r) m) ≡ some (reader_modes r)
unfolding report_mode
report_mode-modes r none h = ground arith
report_mode-modes r (some m) h =
    let fresh : m.vram_reader_mode ≡ [] = ground arith in rw fresh (ap some (set_mode-fresh r))

-- What New finds.
initialised-choice :
    (api : Nvml) (mode : Bytes) (c : Reader × Bool)
    → IsSound api mode c
    → c.1 ≡ initialised_at entered c.0
initialised-choice api mode (nvml_reader ds, up) h = h.2
initialised-choice api mode (smi_reader, up) h = h.0

module _ (fl : Float64) (quote : Bytes → Bytes) (api : Nvml) (cfg : Config fl.F) where
  Step-IsWatched :
      {w x : Watch fl.F} → Step fl quote w x → IsWatched fl api cfg w → IsWatched fl api cfg x
  unfolding tick enter
  Step-IsWatched {w} (enters e) h = ground (arith, report_mode-modes w.reader w.guard.metrics)
  Step-IsWatched {w} (ticks us gpus e) h =
      ground (arith, cfg-poll_once fl (us, read_usage fl quote gpus w.reader) w.guard)
  Step-IsWatched {w} (sees_stop e c) h = ground arith

  Reach-IsWatched :
      {v w : Watch fl.F} → IsWatched fl api cfg v → Reach fl quote v w → IsWatched fl api cfg w
  Reach-IsWatched h here = h
  Reach-IsWatched h (next r st) = Step-IsWatched st (Reach-IsWatched h r)
  Reach-IsWatched h (stops r) = let k = Reach-IsWatched h r in ground arith

  -- In every state between New with fresh metrics and the end of Start, by any polls and any calls
  -- of Stop: the configuration and the reader are the ones chosen at first; the reader is closed
  -- once if Start has returned or panicked, and not before; the NVML library is initialised exactly
  -- with its own reader and before that close; the gauge shows the reader's mode as soon as Start
  -- has begun, and no other mode; Start has returned only if stopCh is closed, polls only if the
  -- ticker can be made, and has panicked only if it cannot.
  pub new-IsWatched :
      {w : Watch fl.F}
      → Reach fl quote (new fl api cfg (some Metrics.new)) w
      → IsWatched fl api cfg w
  unfolding new
  new-IsWatched reach =
      Reach-IsWatched {v = new fl api cfg (some Metrics.new)}
        (record {
          config = refl;
          reader = refl;
          library =
              initialised-choice api cfg.reader_mode (new_vram_reader api cfg.reader_mode)
                (new_vram_reader-IsSound api cfg.reader_mode);
          closed = refl;
          gauge = refl;
          position = tt;
        })
        reach
