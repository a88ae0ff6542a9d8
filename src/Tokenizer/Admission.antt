-- ===== src/Tokenizer/Admission.antt =====
-- Which prompts Validate admits.
use distri_inference_sidecar.Prelude.{
  ◌≡◌, ◌≢◌, refl, sym, ◌∙◌, ap, true, false, Option, none, some, [], ◌∷◌, ◌++◌, Bytes, arith, ◌⊎◌,
}
use distri_inference_sidecar.Prelude.Int.{ℤ, pos, ◌≤ℤ◌, ◌<ℤ◌}
use distri_inference_sidecar.Errors.{GoError, errors_is, err_tokenizer_failure}
use distri_inference_sidecar.Tokenizer.{
  max_input_tokens, c_string, count_tokens, check_count, validate,
}

-- The three outcomes: no error for a count from 0 to 512, an error that is not a tokenizer failure
-- above, and a tokenizer failure for a negative count.
abbrev pub Admitted : ℤ → Option GoError → Type 0
Admitted n none = (pos 0 ≤ℤ n) × (n ≤ℤ max_input_tokens)
Admitted n (some e) =
    ((max_input_tokens <ℤ n) × (errors_is e err_tokenizer_failure ≡ false))
    ⊎ ((n <ℤ pos 0) × (errors_is e err_tokenizer_failure ≡ true))

-- Validate ends in one of the three ways that `Admitted` lists, by the count of its input.
validate-Admitted :
    (bpe_count : Bytes → ℤ) (input : Bytes)
    → Admitted (count_tokens bpe_count input) (validate bpe_count input)
unfolding validate
validate-Admitted bpe_count input = ground arith

abbrev pub HasNoNul : Bytes → Type 0
HasNoNul [] = Unit
HasNoNul (c ∷ cs) = (c ≢ 0) × HasNoNul cs

pub c_string_self : (s : Bytes) → HasNoNul s → c_string s ≡ s
unfolding c_string
c_string_self [] h = refl
c_string_self (c ∷ cs) h = ground (arith, c_string_self cs)

c_string_nul : (s rest : Bytes) → HasNoNul s → c_string (s ++ 0 ∷ rest) ≡ s
unfolding c_string
c_string_nul [] rest h = refl
c_string_nul (c ∷ cs) rest h = ground (arith, c_string_nul cs rest)

-- What follows a NUL byte is not counted: a prompt is judged as the part before it would be.
pub validate-nul :
    (bpe_count : Bytes → ℤ) (s rest : Bytes)
    → HasNoNul s
    → validate bpe_count (s ++ 0 ∷ rest) ≡ validate bpe_count s
unfolding validate
validate-nul bpe_count s rest h =
    ap (λ t. check_count (bpe_count t)) (c_string_nul s rest h ∙ sym (c_string_self s h))
