-- ===== src/Tests/Tokens.antt =====
-- The tokenizer at a concrete vocabulary: "a b" and "ab c" are its merges.
use distri_inference_sidecar.Prelude.{
  ℕ, ◌≡◌, refl, false, Option, none, some, List, [], ◌∷◌, ◌++◌, length, Bytes, codes, bytes_eq, leb,
  zero, suc, if◌then◌else◌, arith,
}
use distri_inference_sidecar.Prelude.Int.{pos}
use distri_inference_sidecar.Errors.{GoError, errors_is, err_tokenizer_failure}
use distri_inference_sidecar.RustOps.{
  Text, BpeTokenizer, is_whitespace, split_whitespace, encode, bpe_count_tokens,
}
use distri_inference_sidecar.RustOps.Counting.{
  validate-short, validate-long, validate-not_utf8, count_ink,
}
use distri_inference_sidecar.RustOps.Batches.{tokenize_len_batch, bpe_encode_len_batch}
use distri_inference_sidecar.Tokenizer.{c_string, validate}

abbrev pub tok : BpeTokenizer
tok = record {
  vocab = (codes "abc", 4) ∷ (codes "ab", 3) ∷ (codes "b", 1) ∷ (codes "a", 0) ∷ [];
  merges = ((codes "ab", codes "c"), codes "abc") ∷ ((codes "a", codes "b"), codes "ab") ∷ [];
  merge_order = (codes "a", codes "b") ∷ (codes "ab", codes "c") ∷ [];
}

-- ASCII, which is decoded to itself.
abbrev ascii_onto : ℕ → Option Text → Option Text
ascii_onto b none = none
ascii_onto b (some t) = if leb b 127 then some (b ∷ t) else none

abbrev pub decode : Bytes → Option Text
decode [] = some []
decode (b ∷ bs) = ascii_onto b (decode bs)

-- So many words of one letter.
abbrev many : ℕ → Bytes
many zero = []
many (suc n) = 97 ∷ 32 ∷ many n

abbrev pub phrase : Bytes
phrase = codes " abcab  ba "

encoded : encode tok phrase ≡ 4 ∷ 3 ∷ 1 ∷ 0 ∷ []
unfolding encode bytes_eq is_whitespace
encoded = refl

phrase_decoded : decode (c_string phrase) ≡ some phrase
unfolding c_string
phrase_decoded = refl

validate-short_example : validate (bpe_count_tokens decode (some tok)) phrase ≡ none
unfolding count_ink is_whitespace
validate-short_example = validate-short decode tok phrase phrase phrase_decoded (omega arith)

many_decoded : decode (c_string (many 513)) ≡ some (many 513)
unfolding c_string
many_decoded = refl

length-many : length (split_whitespace (many 513)) ≡ 513
unfolding split_whitespace is_whitespace
length-many = refl

count_ink-many : count_ink (many 513) ≡ 513
unfolding count_ink is_whitespace
count_ink-many = refl

validate-long_example :
    (e : GoError) × (validate (bpe_count_tokens decode (some tok)) (many 513) ≡ some e)
    × (errors_is e err_tokenizer_failure ≡ false)
validate-long_example =
    validate-long decode tok (many 513) (many 513) many_decoded (rw length-many (omega arith))
      (rw count_ink-many (omega arith))

not_utf8 : decode (c_string (many 513 ++ 255 ∷ [])) ≡ none
unfolding c_string
not_utf8 = refl

validate-not_utf8_example :
    validate (bpe_count_tokens decode (some tok)) (many 513 ++ 255 ∷ []) ≡ none
validate-not_utf8_example = validate-not_utf8 decode tok (many 513 ++ 255 ∷ []) not_utf8

-- An array with a null element.
abbrev pointers : List (Option Bytes)
pointers = some phrase ∷ none ∷ some (codes "ab") ∷ []

counted :
    (bpe_encode_len_batch decode (some tok) (some pointers) ≡ pos 5)
    × (tokenize_len_batch decode (some pointers) ≡ pos 3)
unfolding bpe_encode_len_batch tokenize_len_batch bytes_eq is_whitespace
counted = (refl, refl)
