-- ===== src/RustOps/Counting.antt =====
-- Bounds on the counts of bpe_count_tokens, and what they mean for admission.
use distri_inference_sidecar.Prelude.{
  ℕ, suc, ◌+◌, ◌≤◌, ◌<◌, ◌≡◌, refl, ap, ◌∙◌, false, Option, none, some, List, [], ◌∷◌, ◌++◌, map,
  length, length-append, Bytes, if◌then◌else◌, arith,
}
use distri_inference_sidecar.Prelude.Int.{pos}
use distri_inference_sidecar.Errors.{GoError, errors_is, err_tokenizer_failure}
use distri_inference_sidecar.RustOps.{
  Text, BpeTokenizer, is_whitespace, end_word, words_from, split_whitespace, word_tokens, token_id,
  encode_words, encode, as_i32, or_empty, bpe_count_tokens,
}
use distri_inference_sidecar.RustOps.Merging.{length-word_tokens}
use distri_inference_sidecar.Tokenizer.{c_string, count_tokens, check_count, too_long, validate}

-- The number of characters of a text that are not whitespace.
unfoldable pub count_ink : Text → ℕ
count_ink [] = 0
count_ink (c ∷ cs) = let rest = count_ink cs in if is_whitespace c then rest else 1 + rest

total : List Text → ℕ
total [] = 0
total (w ∷ ws) = length w + total ws

-- No word is empty.
abbrev Words : List Text → Type 0
Words [] = Unit
Words (w ∷ ws) = (1 ≤ length w) × Words ws

end_word-Words :
    (w : Text) (ws : List Text)
    → Words ws
    → Words (end_word w ws) × (total (end_word w ws) ≡ length w + total ws)
unfolding total
end_word-Words [] ws h = ground arith
end_word-Words (c ∷ cs) ws h = ground arith

words_from-Words :
    (w text : Text)
    → Words (words_from w text) × (total (words_from w text) ≡ length w + count_ink text)
unfolding words_from total count_ink
words_from-Words w [] = ground (arith, end_word-Words w [] tt)
words_from-Words w (c ∷ cs) =
    let rest = words_from-Words [] cs in
    ground (
      arith,
      rest,
      end_word-Words w (words_from [] cs) rest.0,
      words_from-Words (w ++ c ∷ []) cs,
      length-append w (c ∷ []),
    )

length-map_id :
    (vocab : List (Text × ℕ)) (ts : List Text) → length (map (token_id vocab) ts) ≡ length ts
length-map_id vocab [] = refl
length-map_id vocab (t ∷ ts) = ap suc (length-map_id vocab ts)

length-encode_words :
    (tok : BpeTokenizer) (ws : List Text)
    → Words ws
    → (length ws ≤ length (encode_words tok ws)) × (length (encode_words tok ws) ≤ total ws)
unfolding encode_words total
length-encode_words tok [] h = ground arith
length-encode_words tok ([] ∷ ws) h = ground arith
length-encode_words tok ((c ∷ cs) ∷ ws) h = ground (
  arith,
  length-append (map (token_id tok.vocab) (word_tokens tok (c ∷ cs))) (encode_words tok ws),
  length-map_id tok.vocab (word_tokens tok (c ∷ cs)),
  length-word_tokens tok c cs,
  length-encode_words tok ws h.1,
)

-- A text has at least as many tokens as words, and at most as many as characters in them.
pub length-encode :
    (tok : BpeTokenizer) (text : Text)
    → (length (split_whitespace text) ≤ length (encode tok text))
      × (length (encode tok text) ≤ count_ink text)
unfolding encode split_whitespace
length-encode tok text =
    let words = words_from-Words [] text in
    ground (arith, words, length-encode_words tok (words_from [] text) words.0)

pub as_i32-small : (n : ℕ) → n < 2147483648 → as_i32 n ≡ pos n
unfolding as_i32
as_i32-small n h = ground arith

check_count-long :
    (n : ℕ)
    → 512 < n
    → (e : GoError) × (check_count (pos n) ≡ some e) × (errors_is e err_tokenizer_failure ≡ false)
unfolding check_count
check_count-long n h = (too_long (pos n), ground arith, refl)

module _ (decode : Bytes → Option Text) (tok : BpeTokenizer) (input : Bytes) where
  -- The count of a prompt that is UTF-8.
  count_tokens-utf8 :
      (text : Text)
      → decode (c_string input) ≡ some text
      → count_ink text < 2147483648
      → count_tokens (bpe_count_tokens decode (some tok)) input ≡ pos (length (encode tok text))
  unfolding count_tokens bpe_count_tokens
  count_tokens-utf8 text h bounded =
      ap (λ t. as_i32 (length (encode tok (or_empty t)))) h
      ∙ as_i32-small (length (encode tok text)) (ground (arith, bounded, length-encode tok text))

  -- With a published tokenizer, a prompt is admitted if its bytes before the first NUL are decoded
  -- to a text with at most 512 characters besides whitespace.
  pub validate-short :
      (text : Text)
      → decode (c_string input) ≡ some text
      → count_ink text ≤ 512
      → validate (bpe_count_tokens decode (some tok)) input ≡ none
  unfolding validate
  validate-short text h short =
      ground (arith, count_tokens-utf8 text h (omega arith), length-encode tok text)

  -- With a published tokenizer, a prompt is refused, with an error that is not a tokenizer failure,
  -- if its bytes before the first NUL are decoded to a text with more than 512 words and with fewer
  -- than 2147483648 characters besides whitespace.
  pub validate-long :
      (text : Text)
      → decode (c_string input) ≡ some text
      → 512 < length (split_whitespace text)
      → count_ink text < 2147483648
      → (e : GoError) × (validate (bpe_count_tokens decode (some tok)) input ≡ some e)
        × (errors_is e err_tokenizer_failure ≡ false)
  unfolding validate
  validate-long text h long bounded =
      let (e, refused, other) =
        check_count-long (length (encode tok text)) (omega (arith, length-encode tok text, long)) in
      (e, ap check_count (count_tokens-utf8 text h bounded) ∙ refused, other)

  -- With a published tokenizer, a prompt is admitted, whatever its length, if its bytes before the
  -- first NUL are not UTF-8.
  pub validate-not_utf8 :
      decode (c_string input) ≡ none → validate (bpe_count_tokens decode (some tok)) input ≡ none
  unfolding validate bpe_count_tokens encode split_whitespace
  validate-not_utf8 h = ap (λ t. check_count (as_i32 (length (encode tok (or_empty t))))) h
