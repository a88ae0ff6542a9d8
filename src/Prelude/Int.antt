-- ===== src/Prelude/Int.antt =====
-- Go's `int` and `int64`: integers with the wrap-around to 64 bits written out.
use Prim.Native.Nat.{ℕ, zero, suc, ◌+◌, ◌-◌, ◌*◌, ◌/◌, ◌%◌, ◌≤◌, ◌<◌}
use mathlib.Core.List.{List, [], ◌∷◌}
use mathlib.Core.Bool.{Bool}
use distri_inference_sidecar.Prelude.Tests.{ltb, leb, if◌then◌else◌}

-- `negsuc n` is -(n + 1).
pub data ℤ : Type 0 where
  pos : ℕ → ℤ
  negsuc : ℕ → ℤ

abbrev pub pos_part : ℤ → ℕ
pos_part (pos n) = n
pos_part (negsuc n) = 0

abbrev pub neg_part : ℤ → ℕ
neg_part (pos n) = 0
neg_part (negsuc n) = suc n

infix 50 ◌≤ℤ◌ ◌<ℤ◌
abbrev pub ◌≤ℤ◌ : ℤ → ℤ → Type 0
a ≤ℤ b = pos_part a + neg_part b ≤ pos_part b + neg_part a

abbrev pub ◌<ℤ◌ : ℤ → ℤ → Type 0
a <ℤ b = pos_part a + neg_part b < pos_part b + neg_part a

abbrev pub ltb_ℤ : ℤ → ℤ → Bool
ltb_ℤ a b = ltb (pos_part a + neg_part b) (pos_part b + neg_part a)

abbrev pub leb_ℤ : ℤ → ℤ → Bool
leb_ℤ a b = leb (pos_part a + neg_part b) (pos_part b + neg_part a)

infixl 65 ◌+ℤ◌
abbrev pub ◌+ℤ◌ : ℤ → ℤ → ℤ
pos m +ℤ pos n = pos (m + n)
pos m +ℤ negsuc n = if ltb n m then pos (m - suc n) else negsuc (n - m)
negsuc m +ℤ pos n = if ltb m n then pos (n - suc m) else negsuc (m - n)
negsuc m +ℤ negsuc n = negsuc (suc (m + n))

-- The int64 with the value of an integer modulo 2 ^ 64.
unfoldable pub wrap64 : ℤ → ℤ
wrap64 (pos n) =
    let m = n % 18446744073709551616 in
    if ltb m 9223372036854775808 then pos m else negsuc (18446744073709551615 - m)
wrap64 (negsuc n) =
    let m = n % 18446744073709551616 in
    if ltb m 9223372036854775808 then negsuc m else pos (18446744073709551615 - m)

-- The exact product with a positive number.
unfoldable pub scale : ℤ → ℕ → ℤ
scale (pos n) k = pos (n * k)
scale (negsuc n) k = negsuc (n * k + k - 1)

abbrev pub neg : ℕ → ℤ
neg zero = pos 0
neg (suc n) = negsuc n

-- Go's `/` by a positive number, which truncates toward zero.
unfoldable pub quot : ℤ → ℕ → ℤ
quot (pos n) d = pos (n / d)
quot (negsuc n) d = neg (suc n / d)

-- The decimal digits of a number, most significant first, in front of a text. Each round drops a
-- digit, so as many rounds as the number are enough.
digits_onto : ℕ → ℕ → List ℕ → List ℕ
digits_onto zero n rest = rest
digits_onto (suc fuel) n rest =
    let digit = 48 + n % 10 in
    let more = digits_onto fuel (n / 10) (digit ∷ rest) in if ltb n 10 then digit ∷ rest else more

-- The verb `%d`.
unfoldable pub format_int : ℤ → List ℕ
unfolding digits_onto
format_int (pos n) = digits_onto (suc n) n []
format_int (negsuc n) = 45 ∷ digits_onto (suc (suc n)) (suc n) []
