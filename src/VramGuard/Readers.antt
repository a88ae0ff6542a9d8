-- ===== src/VramGuard/Readers.antt =====
-- internal/vramguard/vramguard.go: the two readers, over what nvidia-smi prints and what the NVML
-- library reports, and the choice between them. `quote` is the verb %q of package fmt.
pub mod Format
pub mod Hottest
pub mod Choice
use distri_inference_sidecar.Prelude.{
  ℕ, suc, zero, ◌+◌, ◌*◌, Bool, true, false, ◌||◌, Option, none, some, List, [], ◌∷◌, ◌++◌, Bytes,
  codes, bytes_eq, ◌==◌, if◌then◌else◌,
}
use distri_inference_sidecar.Errors.{GoError, Fallible, ok, err, plain, wrapped, ◌>>=◌}
use distri_inference_sidecar.Float.{Float64}
use distri_inference_sidecar.Strings.{trim_space, to_lower, split_byte, split_pair}

abbrev pub no_readings : (Bytes → Bytes) → Bytes → GoError
no_readings quote output =
    plain (codes "nvidia-smi produced no valid GPU readings: " ++ quote output)

abbrev pub no_devices : GoError
no_devices = plain (codes "nvml: no GPU produced a valid memory reading")

module _ (fl : Float64) where
  open fl use {F, le, lt, div, of_ℕ, parse_float}

  -- `if !found || u/t > used/total { used, total = u, t; found = true }`
  unfoldable pub keep_hotter : Option (F × F) → F × F → Option (F × F)
  keep_hotter none r = some r
  keep_hotter (some (used, total)) (u, t) =
      if lt (div used total) (div u t) then some (u, t) else some (used, total)

  abbrev pub context {ℓ} : {A : Type ℓ} → Bytes → Fallible A → Fallible A
  context text (ok a) = ok a
  context text (err e) = err (wrapped text e [])

  -- The two columns of a line.
  abbrev pub parse_parts : Bytes → (Bytes → Bytes) → List Bytes → Fallible (F × F)
  parse_parts line quote (used ∷ total ∷ []) = do
    u ← context (codes "parse memory.used: ") (parse_float (trim_space used))
    t ← context (codes "parse memory.total: ") (parse_float (trim_space total))
    ok (u, t)
  parse_parts line quote _ = err (plain (codes "unexpected nvidia-smi output line: " ++ quote line))

  unfoldable pub parse_smi_line : (Bytes → Bytes) → Bytes → Fallible (F × F)
  unfolding trim_space split_pair
  parse_smi_line quote line = parse_parts line quote (split_pair 44 32 line)

  abbrev is_blank : Bytes → Bool
  is_blank [] = true
  is_blank (_ ∷ _) = false

  -- A reading counts if its total is positive.
  abbrev pub keep_valid : Option (F × F) → F × F → Option (F × F)
  keep_valid best (u, t) = if le t (of_ℕ 0) then best else keep_hotter best (u, t)

  -- The loop over the lines.
  unfoldable pub smi_loop :
      (Bytes → Bytes) → List Bytes → Option (F × F) → Fallible (Option (F × F))
  unfolding parse_smi_line keep_hotter
  smi_loop quote [] best = ok best
  smi_loop quote (l ∷ ls) best = elim (is_blank (trim_space l)) [
    | true ↦ smi_loop quote ls best
    | false ↦ parse_smi_line quote (trim_space l) >>= λ r. smi_loop quote ls (keep_valid best r)
  ]

  abbrev pub found_or : GoError → Option (F × F) → Fallible (F × F)
  found_or e none = err e
  found_or e (some r) = ok r

  unfoldable pub parse_smi_output : (Bytes → Bytes) → Bytes → Fallible (F × F)
  unfolding smi_loop split_byte
  parse_smi_output quote output =
      smi_loop quote (split_byte 10 output) none >>= found_or (no_readings quote output)

  abbrev pub mib : F
  mib = of_ℕ 1048576

  -- The loop over the devices: the used and total bytes of each, `none` where the library fails.
  unfoldable pub nvml_loop : List (Option (ℕ × ℕ)) → Option (F × F) → Option (F × F)
  unfolding keep_hotter
  nvml_loop [] best = best
  nvml_loop (none ∷ ms) best = nvml_loop ms best
  nvml_loop (some (used, total) ∷ ms) best =
      nvml_loop ms
        (if total == 0 then best else keep_hotter best (div (of_ℕ used) mib, div (of_ℕ total) mib))

  unfoldable pub nvml_read : List (Option (ℕ × ℕ)) → Fallible (F × F)
  unfolding nvml_loop
  nvml_read ms = found_or no_devices (nvml_loop ms none)

-- The reader that is chosen; an NVML reader has the indices of its devices.
pub data Reader : Type 0 where
  nvml_reader : List ℕ → Reader
  smi_reader : Reader

-- What the NVML library answers at start-up: Init, DeviceGetCount (`none` if it fails), and for
-- which indices DeviceGetHandleByIndex succeeds.
pub record Nvml : Type 0 where
  pub init_ok : Bool
  pub device_count : Option ℕ
  pub has_handle : ℕ → Bool

-- The handles of the devices `i`, `i + 1`, … of which `n` are left.
unfoldable pub handles : (ℕ → Bool) → ℕ → ℕ → List ℕ
handles has i zero = []
handles has i (suc n) = let rest = handles has (i + 1) n in if has i then i ∷ rest else rest

abbrev reader_of : List ℕ → Option (List ℕ) × Bool
reader_of [] = (none, false)
reader_of (d ∷ ds) = (some (d ∷ ds), true)

abbrev counted : (ℕ → Bool) → Option ℕ → Option (List ℕ) × Bool
counted has none = (none, false)
counted has (some n) = if n == 0 then (none, false) else reader_of (handles has 0 n)

-- The devices, if there is a reader, and whether the library is left initialised: each failure
-- after Init shuts it down.
unfoldable pub new_nvml_reader : Nvml → Option (List ℕ) × Bool
unfolding handles
new_nvml_reader api = if api.init_ok then counted api.has_handle api.device_count else (none, false)

abbrev or_smi : Option (List ℕ) × Bool → Reader × Bool
or_smi (some ds, initialised) = (nvml_reader ds, initialised)
or_smi (none, initialised) = (smi_reader, initialised)

-- The modes that force the reader that runs nvidia-smi.
abbrev pub forces_smi : Bytes → Bool
forces_smi mode = bytes_eq mode (codes "smi") || bytes_eq mode (codes "nvidia-smi")

-- The modes "nvml", "auto", none and any other one take the same branches but for the log.
unfoldable pub new_vram_reader : Nvml → Bytes → Reader × Bool
unfolding new_nvml_reader to_lower trim_space
new_vram_reader api mode =
    if forces_smi (to_lower (trim_space mode))
    then (smi_reader, false)
    else or_smi (new_nvml_reader api)
