-- ===== src/Tests/Readers.antt =====
-- The VRAM readers at concrete outputs, on the small float64.
use distri_inference_sidecar.Prelude.{
  ℕ, ◌≡◌, refl, true, false, Option, none, some, List, [], ◌∷◌, ◌++◌, Bytes, codes, bytes_eq, ◌==◌,
}
use distri_inference_sidecar.Errors.{ok}
use distri_inference_sidecar.Float.Approx.{Approx, approx, approx-IsIeee}
use distri_inference_sidecar.VramGuard.Readers.{
  nvml_reader, smi_reader, Nvml, parse_smi_output, nvml_read, new_vram_reader,
}
use distri_inference_sidecar.VramGuard.Readers.Hottest.{
  readings, IsHottest, parse_smi_output-IsHottest,
}
use distri_inference_sidecar.Strings.{is_space, trim_space, split_byte}
use distri_inference_sidecar.Tests.Guards.{mb}

abbrev quote : Bytes → Bytes
quote s = s

-- Two GPUs, a blank line, and one that reports no memory.
abbrev smi_text : Bytes
smi_text = (codes "10, 100") ++ 10 ∷ codes "90, 100" ++ 10 ∷ 32 ∷ 10 ∷ codes "5, 0" ++ 10 ∷ []

smi_text_read : parse_smi_output approx quote smi_text ≡ ok (mb 90, mb 100)
unfolding parse_smi_output
smi_text_read = refl

parse_smi_output-IsHottest_example :
    (rs : List (Approx × Approx)) × (readings approx quote (split_byte 10 smi_text) ≡ ok rs)
    × IsHottest approx (mb 90, mb 100) rs
parse_smi_output-IsHottest_example =
    parse_smi_output-IsHottest approx approx-IsIeee quote smi_text (mb 90, mb 100) smi_text_read

abbrev devices : List (Option (ℕ × ℕ))
devices = some (10485760, 104857600) ∷ none ∷ some (94371840, 104857600) ∷ []

devices_read : nvml_read approx devices ≡ ok (mb 90, mb 100)
unfolding nvml_read
devices_read = refl

abbrev pub two_devices : Nvml
two_devices = record { init_ok = true; device_count = some 2; has_handle = λ i. i == 1 }

second_only : new_vram_reader two_devices (codes " Auto ") ≡ (nvml_reader (1 ∷ []), true)
unfolding new_vram_reader bytes_eq
second_only = refl

forced : new_vram_reader two_devices (codes "SMI") ≡ (smi_reader, false)
unfolding new_vram_reader bytes_eq
forced = refl

used_parsed : approx.parse_float (trim_space (codes " 10 ")) ≡ ok (mb 10)
unfolding trim_space is_space
used_parsed = refl
