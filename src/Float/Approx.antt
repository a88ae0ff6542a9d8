-- ===== src/Float/Approx.antt =====
-- A small instance of `Float64`, which shows that the laws can hold together and on which the
-- program's code can be run: thousandths, cut off, and a NaN.
use distri_inference_sidecar.Prelude.{
  codes, ℕ, ◌+◌, ◌-◌, ◌*◌, ◌/◌, ◌≡◌, ◌⊎◌, Bool, true, false, not, ◌&&◌, Option, none, some, [], ◌∷◌,
  Bytes, leb, ◌==◌, if◌then◌else◌, arith,
}
use distri_inference_sidecar.Prelude.Int.{ℤ, pos, negsuc, leb_ℤ, ltb_ℤ}
use distri_inference_sidecar.Errors.{Fallible, ok, err, plain}
use distri_inference_sidecar.Float.{Float64, IsIeee}

pub data Approx : Type 0 where
  nan : Approx
  thousandths : ℤ → Approx

abbrev approx_le : Approx → Approx → Bool
approx_le (thousandths a) (thousandths b) = leb_ℤ a b
approx_le nan _ = false
approx_le (thousandths a) nan = false

abbrev approx_lt : Approx → Approx → Bool
approx_lt (thousandths a) (thousandths b) = ltb_ℤ a b
approx_lt nan _ = false
approx_lt (thousandths a) nan = false

abbrev approx_sub : Approx → Approx → Approx
approx_sub (thousandths (pos a)) (thousandths (pos b)) =
    thousandths (if leb b a then pos (a - b) else negsuc (b - a - 1))
approx_sub _ _ = nan

abbrev approx_mul : Approx → Approx → Approx
approx_mul (thousandths (pos a)) (thousandths (pos b)) = thousandths (pos (a * b / 1000))
approx_mul _ _ = nan

abbrev approx_div : Approx → Approx → Approx
approx_div (thousandths (pos a)) (thousandths (pos b)) =
    if b == 0 then nan else thousandths (pos (a * 1000 / b))
approx_div _ _ = nan

abbrev approx_of : ℕ → Approx
approx_of n = thousandths (pos (n * 1000))

-- Whole numbers, and `nan`.
abbrev approx_digits : ℕ → Bytes → Option ℕ
approx_digits n [] = some n
approx_digits n (c ∷ cs) =
    let rest = approx_digits (n * 10 + (c - 48)) cs in if leb 48 c && leb c 57 then rest else none

abbrev approx_number : Option ℕ → Fallible Approx
approx_number none = err (plain (codes "invalid syntax"))
approx_number (some n) = ok (approx_of n)

abbrev approx_parse : Bytes → Fallible Approx
approx_parse [] = err (plain (codes "invalid syntax"))
approx_parse (c ∷ cs) = if c == 110 then ok nan else approx_number (approx_digits 0 (c ∷ cs))

abbrev pub approx : Float64
approx = record {
  F = Approx;
  le = approx_le;
  lt = approx_lt;
  sub = approx_sub;
  mul = approx_mul;
  div = approx_div;
  of_ℕ = approx_of;
  parse_float = approx_parse;
}

approx_trans : (a b c : Approx) → approx_le a b ≡ true → approx_le b c ≡ true → approx_le a c ≡ true
approx_trans a b c p q = ground arith

approx_total :
    (a b : Approx)
    → approx_le a a ≡ true
    → approx_le b b ≡ true
    → (approx_le a b ≡ true) ⊎ (approx_le b a ≡ true)
approx_total a b p q = ground arith

approx_lt_iff : (a b : Approx) → approx_lt a b ≡ (approx_le a b && not (approx_le b a))
approx_lt_iff a b = ground arith

approx_left : (a b : Approx) → approx_le a b ≡ true → approx_le a a ≡ true
approx_left a b h = ground arith

approx_right : (a b : Approx) → approx_le a b ≡ true → approx_le b b ≡ true
approx_right a b h = ground arith

pub approx-IsIeee : IsIeee approx
approx-IsIeee = record {
  le_trans = approx_trans;
  le_self_left = approx_left;
  le_self_right = approx_right;
  le_total = approx_total;
  lt_iff = approx_lt_iff;
}
