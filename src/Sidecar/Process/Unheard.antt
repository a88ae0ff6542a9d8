-- ===== src/Sidecar/Process/Unheard.antt =====
-- A call of Serve that cannot listen.
use distri_inference_sidecar.Prelude.{◌≡◌, Bool, true, false, if◌then◌else◌}
use distri_inference_sidecar.Metrics.{Metrics}
use distri_inference_sidecar.Sidecar.Process.{
  Stage, serving, Process, World, Step, is_signalled, Reach, here, next,
}

abbrev signals_by : {w : World} {p q : Process w.fl.F} → Step w p q → Bool
signals_by (is_signalled d) = true
signals_by _ = false

-- Whether main has got its signal in a run.
abbrev pub signalled : {w : World} {p q : Process w.fl.F} → Reach w p q → Bool
signalled here = false
signalled (next r st) = if signals_by st then true else signalled r

-- Where main stands at the moment: in its wait exactly until the signal.
abbrev Waits : Stage → Bool → Type 0
Waits serving s = s ≡ false
Waits _ s = s ≡ true
