-- ===== src/Float.antt =====
-- Go's float64, which the language's numbers do not have: a parameter of the model. The laws are
-- those of IEEE 754 comparison; a NaN is a value that is not `<=` itself.
pub mod Approx
use distri_inference_sidecar.Prelude.{ℕ, ◌≡◌, Bool, true, false, not, ◌&&◌, ◌⊎◌, Bytes}
use distri_inference_sidecar.Errors.{Fallible}

pub record Float64 : Type 1 where
  pub F : Type 0
  -- `<=` and `<`.
  pub le : F → F → Bool
  pub lt : F → F → Bool
  pub sub : F → F → F
  pub mul : F → F → F
  pub div : F → F → F
  -- A number, converted with rounding.
  pub of_ℕ : ℕ → F
  -- `strconv.ParseFloat(s, 64)`.
  pub parse_float : Bytes → Fallible F

pub record IsIeee (fl : Float64) : Type 0 where
  pub le_trans : (a b c : fl.F) → fl.le a b ≡ true → fl.le b c ≡ true → fl.le a c ≡ true
  pub le_self_left : (a b : fl.F) → fl.le a b ≡ true → fl.le a a ≡ true
  pub le_self_right : (a b : fl.F) → fl.le a b ≡ true → fl.le b b ≡ true
  pub le_total :
      (a b : fl.F) → fl.le a a ≡ true → fl.le b b ≡ true → (fl.le a b ≡ true) ⊎ (fl.le b a ≡ true)
  pub lt_iff : (a b : fl.F) → fl.lt a b ≡ (fl.le a b && not (fl.le b a))
