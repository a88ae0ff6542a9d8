-- ===== src/Tokenizer.antt =====
-- internal/tokenizer/tokenizer.go: CountTokens and Validate over the C functions of rust_ops,
-- which get a C string: the bytes before the first NUL.
pub mod Admission
pub mod Init
use distri_inference_sidecar.Prelude.{
  ℕ, ◌+◌, Bool, true, false, Option, none, some, List, [], ◌∷◌, ◌++◌, Bytes, codes, ◌==◌,
  if◌then◌else◌,
}
use distri_inference_sidecar.Prelude.Int.{ℤ, pos, ltb_ℤ, format_int}
use distri_inference_sidecar.Errors.{GoError, sentinel, plain, wrapped, err_tokenizer_failure}

abbrev pub max_input_tokens : ℤ
max_input_tokens = pos 512

-- What a callee reads of the buffer that C.CString makes.
unfoldable pub c_string : Bytes → Bytes
c_string [] = []
c_string (c ∷ cs) = let rest = c_string cs in if c == 0 then [] else c ∷ rest

-- `bpe_count` is bpe_count_tokens of rust_ops on a C string.
unfoldable pub count_tokens : (Bytes → ℤ) → Bytes → ℤ
unfolding c_string
count_tokens bpe_count input = bpe_count (c_string input)

abbrev pub too_long : ℤ → GoError
too_long n = plain (
    codes "input too long: "
    ++ (format_int n ++ (codes " tokens (max " ++ (format_int max_input_tokens ++ codes ")"))))

-- The error for a count, if any.
unfoldable pub check_count : ℤ → Option GoError
check_count n =
    if ltb_ℤ n (pos 0)
    then some (wrapped [] (sentinel err_tokenizer_failure) (codes ": token count unavailable"))
    else if ltb_ℤ max_input_tokens n
    then some (too_long n)
    else none

unfoldable pub validate : (Bytes → ℤ) → Bytes → Option GoError
unfolding count_tokens check_count
validate bpe_count input = check_count (count_tokens bpe_count input)
