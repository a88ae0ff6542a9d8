-- ===== src/VramGuard/Readers/Hottest.antt =====
-- Which reading the two readers return: one that no other valid reading exceeds.
use mathlib.Core.List.{Memᴰ, append-nil, append_assoc}
use distri_inference_sidecar.Prelude.{
  ℕ, ◌≡◌, refl, subst, ◌∙◌, true, false, inl, inr, Option, none, some, List, [], ◌∷◌, ◌++◌, Bytes,
  ◌==◌, if◌then◌else◌, arith, Bool-cases,
}
use distri_inference_sidecar.Errors.{GoError, Fallible, ok, err, ◌>>=◌}
use distri_inference_sidecar.Float.{Float64, IsIeee}
use distri_inference_sidecar.Strings.{trim_space, split_byte}
use distri_inference_sidecar.VramGuard.Readers.{
  no_readings, no_devices, keep_hotter, keep_valid, parse_smi_line, is_blank, smi_loop, found_or,
  parse_smi_output, mib, nvml_loop, nvml_read,
}

module _ (fl : Float64) where
  open fl use {F, le, lt, div, of_ℕ, parse_float}

  -- One reading in front of those that the rest yields, if its total is positive.
  abbrev add_valid : F × F → Fallible (List (F × F)) → Fallible (List (F × F))
  add_valid (u, t) (err e) = err e
  add_valid (u, t) (ok rs) = ok (if le t (of_ℕ 0) then rs else (u, t) ∷ rs)

  -- The readings with a positive total of all lines that are not blank, or the first line's error.
  unfoldable pub readings : (Bytes → Bytes) → List Bytes → Fallible (List (F × F))
  readings quote [] = ok []
  readings quote (l ∷ ls) = elim (is_blank fl (trim_space l)) [
    | true ↦ readings quote ls
    | false ↦ parse_smi_line fl quote (trim_space l) >>= λ r. add_valid r (readings quote ls)
  ]

  -- The valid readings of the devices.
  unfoldable pub device_readings : List (Option (ℕ × ℕ)) → List (F × F)
  device_readings [] = []
  device_readings (none ∷ ms) = device_readings ms
  device_readings (some (used, total) ∷ ms) =
      let rest = device_readings ms in
      if total == 0 then rest else (div (of_ℕ used) (mib fl), div (of_ℕ total) (mib fl)) ∷ rest

  hottest : Option (F × F) → List (F × F) → Option (F × F)
  hottest best [] = best
  hottest best (r ∷ rs) = hottest (keep_hotter fl best r) rs

  -- No reading of the list has a greater share of its memory in use.
  abbrev pub NoneHotter : F × F → List (F × F) → Type 0
  NoneHotter r [] = Unit
  NoneHotter (u, t) ((v, w) ∷ rs) = (lt (div u t) (div v w) ≡ false) × NoneHotter (u, t) rs

  -- The reading is among those of the list, and none of them is hotter.
  abbrev pub IsHottest : F × F → List (F × F) → Type 0
  IsHottest r rs = Memᴰ r rs × NoneHotter r rs

  hottest-add_valid :
      (best : Option (F × F)) (r : F × F) (x : Fallible (List (F × F)))
      → (x >>= λ rs. ok (hottest (keep_valid fl best r) rs))
        ≡ (add_valid r x >>= λ rs. ok (hottest best rs))
  unfolding hottest
  hottest-add_valid best (u, t) (err e) = refl
  hottest-add_valid best (u, t) (ok rs) = elim (Bool-cases (le t (of_ℕ 0))) [
    | inl e ↦ rw e
    | inr e ↦ rw e
  ]

  hottest-parsed :
      (quote : Bytes → Bytes) (ls : List Bytes) (best : Option (F × F)) (p : Fallible (F × F))
      → ((b : Option (F × F))
          → smi_loop fl quote ls b ≡ (readings quote ls >>= λ rs. ok (hottest b rs)))
      → (p >>= λ r. smi_loop fl quote ls (keep_valid fl best r))
        ≡ ((p >>= λ r. add_valid r (readings quote ls)) >>= λ rs. ok (hottest best rs))
  hottest-parsed quote ls best (err e) ih = refl
  hottest-parsed quote ls best (ok r) ih =
      ih (keep_valid fl best r) ∙ hottest-add_valid best r (readings quote ls)

  smi_loop-hottest :
      (quote : Bytes → Bytes) (ls : List Bytes) (best : Option (F × F))
      → smi_loop fl quote ls best ≡ (readings quote ls >>= λ rs. ok (hottest best rs))
  unfolding smi_loop readings hottest
  smi_loop-hottest quote [] best = refl
  smi_loop-hottest quote (l ∷ ls) best = elim (Bool-cases (is_blank fl (trim_space l))) [
    | inl e ↦ rw (e, smi_loop, readings) (smi_loop-hottest quote ls best)
    | inr e ↦
        rw (e, smi_loop, readings)
          (hottest-parsed quote ls best (parse_smi_line fl quote (trim_space l))
            (smi_loop-hottest quote ls))
  ]

  nvml_loop-hottest :
      (ms : List (Option (ℕ × ℕ))) (best : Option (F × F))
      → nvml_loop fl ms best ≡ hottest best (device_readings ms)
  unfolding nvml_loop device_readings hottest
  nvml_loop-hottest [] best = refl
  nvml_loop-hottest (none ∷ ms) best = nvml_loop-hottest ms best
  nvml_loop-hottest (some (used, total) ∷ ms) best = elim (Bool-cases (total == 0)) [
    | inl e ↦ rw e (nvml_loop-hottest ms best)
    | inr e ↦ rw e (nvml_loop-hottest ms _)
  ]

module _ (fl : Float64) (ieee : IsIeee fl) where
  open fl use {F, le, lt, div, of_ℕ}

  lt_trans : (a b c : F) → lt a b ≡ true → lt b c ≡ true → lt a c ≡ true
  lt_trans a b c p q = ground (
    arith,
    ieee.lt_iff a b,
    ieee.lt_iff b c,
    ieee.lt_iff a c,
    ieee.le_trans a b c,
    ieee.le_trans b c a,
  )

  not_lt_self : (a : F) → lt a a ≡ false
  not_lt_self a = ground (arith, ieee.lt_iff a a)

  -- What is not hotter than a reading is not hotter than a hotter one.
  NoneHotter-mono :
      (u t v w : F) (rs : List (F × F))
      → lt (div u t) (div v w) ≡ true
      → NoneHotter fl (u, t) rs
      → NoneHotter fl (v, w) rs
  NoneHotter-mono u t v w [] h n = tt
  NoneHotter-mono u t v w ((x, y) ∷ rs) h (n, ns) =
      (ground (arith, lt_trans (div u t) (div v w) (div x y)), NoneHotter-mono u t v w rs h ns)

  NoneHotter-concat :
      (r : F × F) (rs : List (F × F)) (q : F × F)
      → NoneHotter fl r rs
      → lt (div r.0 r.1) (div q.0 q.1) ≡ false
      → NoneHotter fl r (rs ++ q ∷ [])
  NoneHotter-concat r [] q n h = (h, tt)
  NoneHotter-concat r (x ∷ rs) q (n, ns) h = (n, NoneHotter-concat r rs q ns h)

  mem-concat_left : (q : F × F) {r : F × F} {rs : List (F × F)} → Memᴰ r rs → Memᴰ r (rs ++ q ∷ [])
  mem-concat_left q (Memᴰ.head e) = Memᴰ.head e
  mem-concat_left q (Memᴰ.tail m) = Memᴰ.tail (mem-concat_left q m)

  mem-concat_self : (q : F × F) (rs : List (F × F)) → Memᴰ q (rs ++ q ∷ [])
  mem-concat_self q [] = Memᴰ.head refl
  mem-concat_self q (x ∷ rs) = Memᴰ.tail (mem-concat_self q rs)

  -- The best of what is seen so far.
  BestSoFar : Option (F × F) → List (F × F) → Type 0
  BestSoFar none seen = seen ≡ []
  BestSoFar (some r) seen = IsHottest fl r seen

  BestSoFar-keep :
      (best : Option (F × F)) (seen : List (F × F)) (q : F × F)
      → BestSoFar best seen
      → BestSoFar (keep_hotter fl best q) (seen ++ q ∷ [])
  unfolding BestSoFar keep_hotter
  BestSoFar-keep none seen (v, w) h = rw h (Memᴰ.head refl, (not_lt_self (div v w), tt))
  BestSoFar-keep (some (u, t)) seen (v, w) (m, n) = elim (Bool-cases (lt (div u t) (div v w))) [
    | inl e ↦ rw e (
      mem-concat_self (v, w) seen,
      NoneHotter-concat (v, w) seen (v, w) (NoneHotter-mono u t v w seen e n)
          (not_lt_self (div v w)),
    )
    | inr e ↦ rw e (mem-concat_left (v, w) m, NoneHotter-concat (u, t) seen (v, w) n e)
  ]

  hottest-BestSoFar :
      (best : Option (F × F)) (seen rs : List (F × F))
      → BestSoFar best seen
      → BestSoFar (hottest fl best rs) (seen ++ rs)
  unfolding hottest
  hottest-BestSoFar best seen [] h = rw append-nil h
  hottest-BestSoFar best seen (r ∷ rs) h =
      subst (BestSoFar _) (append_assoc seen (r ∷ []) rs) (
        hottest-BestSoFar (keep_hotter fl best r) (seen ++ r ∷ []) rs
          (BestSoFar-keep best seen r h))

  found_best :
      (e : GoError) (best : Option (F × F)) (rs : List (F × F)) (r : F × F)
      → BestSoFar best rs
      → found_or fl e best ≡ ok r
      → IsHottest fl r rs
  unfolding BestSoFar
  found_best e none rs r b h = cc
  found_best e (some q) rs r b h = let same : q ≡ r = cc in subst (λ x. IsHottest fl x rs) same b

  found_hottest :
      (e : GoError) (x : Fallible (List (F × F))) (r : F × F)
      → ((x >>= λ rs. ok (hottest fl none rs)) >>= found_or fl e) ≡ ok r
      → (rs : List (F × F)) × (x ≡ ok rs) × IsHottest fl r rs
  unfolding BestSoFar
  found_hottest e (err y) r h = cc
  found_hottest e (ok rs) r h =
      (rs, refl, found_best e (hottest fl none rs) rs r (hottest-BestSoFar none [] rs refl) h)

  -- If the output of nvidia-smi yields a reading, then each of its lines that is not blank parses,
  -- the reading is one of those with a positive total, and none of those is hotter.
  pub parse_smi_output-IsHottest :
      (quote : Bytes → Bytes) (output : Bytes) (r : F × F)
      → parse_smi_output fl quote output ≡ ok r
      → (rs : List (F × F)) × (readings fl quote (split_byte 10 output) ≡ ok rs) × IsHottest fl r rs
  unfolding parse_smi_output
  parse_smi_output-IsHottest quote output r h =
      found_hottest (no_readings quote output) (readings fl quote (split_byte 10 output)) r
        (rw (← smi_loop-hottest fl quote (split_byte 10 output) none) h)

  -- The reading of the NVML reader is that of a device with a positive total, and no device is
  -- hotter.
  nvml_read-IsHottest :
      (ms : List (Option (ℕ × ℕ))) (r : F × F)
      → nvml_read fl ms ≡ ok r
      → IsHottest fl r (device_readings fl ms)
  unfolding nvml_read BestSoFar
  nvml_read-IsHottest ms r h =
      found_best no_devices (hottest fl none (device_readings fl ms)) (device_readings fl ms) r
        (hottest-BestSoFar none [] (device_readings fl ms) refl)
        (rw (← nvml_loop-hottest fl ms none) h)
