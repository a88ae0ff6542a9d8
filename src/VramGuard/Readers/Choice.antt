-- ===== src/VramGuard/Readers/Choice.antt =====
-- Which reader is chosen, and that the NVML library is not left initialised without a reader.
use distri_inference_sidecar.Prelude.{
  ℕ, zero, suc, ◌+◌, ◌≤◌, ◌<◌, ◌≡◌, ◌≢◌, Bool, true, false, ◌⊎◌, Option, none, some, List, [], ◌∷◌,
  Bytes, arith,
}
use distri_inference_sidecar.Strings.{trim_space, to_lower}
use distri_inference_sidecar.VramGuard.Readers.{
  Reader, nvml_reader, smi_reader, Nvml, handles, forces_smi, new_vram_reader,
}

-- Devices with a handle and an index below the count.
abbrev pub Usable : (ℕ → Bool) → ℕ → List ℕ → Type 0
Usable has count [] = Unit
Usable has count (d ∷ ds) = (has d ≡ true) × (d < count) × Usable has count ds

handles-Usable :
    (has : ℕ → Bool) (i n count : ℕ) → i + n ≤ count → Usable has count (handles has i n)
unfolding handles
handles-Usable has i zero count h = tt
handles-Usable has i (suc n) count h =
    ground (arith, handles-Usable has (i + 1) n count (omega arith))

handles-empty :
    (has : ℕ → Bool) (i n d : ℕ) → handles has i n ≡ [] → i ≤ d → d < i + n → has d ≡ false
unfolding handles
handles-empty has i zero d h low high = ground arith
handles-empty has i (suc n) d h low high = ground (arith, handles-empty has (i + 1) n d)

-- The library counts its devices, and none of them has a handle; or it cannot count them.
abbrev pub NoHandle : (ℕ → Bool) → Option ℕ → Type 0
NoHandle has none = Unit
NoHandle has (some n) = (d : ℕ) → d < n → has d ≡ false

abbrev pub UsableOf : (ℕ → Bool) → Option ℕ → List ℕ → Type 0
UsableOf has none ds = ⊥
UsableOf has (some n) ds = Usable has n ds

-- What may be said of a choice: with the NVML reader the mode does not force nvidia-smi, the
-- library is initialised, and the reader has devices, each of which is one of the library's and
-- has a handle; with the other one the library is not left initialised, and the mode forces the
-- choice or the library has no device to offer.
abbrev pub IsSound : Nvml → Bytes → Reader × Bool → Type 0
IsSound api mode (nvml_reader ds, initialised) =
    (forces_smi (to_lower (trim_space mode)) ≡ false)
    × (api.init_ok ≡ true)
    × (initialised ≡ true)
    × (ds ≢ [])
    × UsableOf api.has_handle api.device_count ds
IsSound api mode (smi_reader, initialised) =
    (initialised ≡ false)
    × ((forces_smi (to_lower (trim_space mode)) ≡ true)
        ⊎ (api.init_ok ≡ false)
        ⊎ NoHandle api.has_handle api.device_count)

choice :
    (has : ℕ → Bool) (count : Option ℕ) (init_ok : Bool) (mode : Bytes)
    → let api : Nvml = record { init_ok = init_ok; device_count = count; has_handle = has } in
      IsSound api mode (new_vram_reader api mode)
unfolding new_vram_reader
choice has none init_ok mode = ground arith
choice has (some n) init_ok mode =
    let empty : handles has 0 n ≡ [] → NoHandle has (some n) =
      λ h d high. handles-empty has 0 n d h (omega arith) (omega arith) in
    ground (arith, empty, handles-Usable has 0 n n (omega arith))

-- Every choice of a reader is sound.
pub new_vram_reader-IsSound :
    (api : Nvml) (mode : Bytes) → IsSound api mode (new_vram_reader api mode)
new_vram_reader-IsSound api mode = choice api.has_handle api.device_count api.init_ok mode
