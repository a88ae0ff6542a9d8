-- ===== src/VramGuard/Readers/Format.antt =====
-- What parseSMILine makes of a line in the format of nvidia-smi, and of one that is not.
use distri_inference_sidecar.Prelude.{
  ℕ, ◌≡◌, ◌≢◌, refl, ap, ◌∙◌, false, ◌&&◌, [], ◌∷◌, ◌++◌, Bytes, ◌==◌, arith,
}
use distri_inference_sidecar.Errors.{ok}
use distri_inference_sidecar.Float.{Float64}
use distri_inference_sidecar.Strings.{trim_space, split_pair, prepend}
use distri_inference_sidecar.VramGuard.Readers.{parse_smi_line, parse_parts}

abbrev pub HasNoComma : Bytes → Type 0
HasNoComma [] = Unit
HasNoComma (c ∷ cs) = (c ≢ 44) × HasNoComma cs

split_pair-one : (t : Bytes) → HasNoComma t → split_pair 44 32 t ≡ t ∷ []
unfolding split_pair
split_pair-one [] h = refl
split_pair-one (x ∷ []) h = refl
split_pair-one (x ∷ y ∷ cs) h = ground (arith, split_pair-one (y ∷ cs) h.1)

split_pair-skip :
    (x y : ℕ) (cs : Bytes)
    → (x == 44 && y == 32) ≡ false
    → split_pair 44 32 (x ∷ y ∷ cs) ≡ prepend x (split_pair 44 32 (y ∷ cs))
unfolding split_pair
split_pair-skip x y cs h = ground arith

split_pair-two :
    (u t : Bytes) → HasNoComma u → HasNoComma t → split_pair 44 32 (u ++ 44 ∷ 32 ∷ t) ≡ u ∷ t ∷ []
unfolding split_pair
split_pair-two [] t h k = ap (λ r. [] ∷ r) (split_pair-one t k)
split_pair-two (x ∷ []) t h k =
    split_pair-skip x 44 (32 ∷ t) (ground arith) ∙ ap (prepend x) (split_pair-two [] t tt k)
split_pair-two (x ∷ y ∷ cs) t h k =
    split_pair-skip x y (cs ++ 44 ∷ 32 ∷ t) (ground arith)
    ∙ ap (prepend x) (split_pair-two (y ∷ cs) t h.1 k)

module _ (fl : Float64) where
  open fl use {F, parse_float}

  -- A line of two columns without commas of their own, with a comma and a space between them,
  -- parses to the numbers of the two columns.
  parse_smi_line-columns :
      (quote : Bytes → Bytes) (used total : Bytes) (x y : F)
      → HasNoComma used
      → HasNoComma total
      → parse_float (trim_space used) ≡ ok x
      → parse_float (trim_space total) ≡ ok y
      → parse_smi_line fl quote (used ++ 44 ∷ 32 ∷ total) ≡ ok (x, y)
  unfolding parse_smi_line
  parse_smi_line-columns quote used total x y h k p q =
      ap (parse_parts fl (used ++ 44 ∷ 32 ∷ total) quote) (split_pair-two used total h k)
      ∙ ground (arith, p, q)
