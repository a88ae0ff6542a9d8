-- ===== src/RustOps.antt =====
-- rust_ops: the tokenizer of src/bpe_token.rs after its training, and bpe_count_tokens of src/lib.rs.
-- A text is a list of code points. A HashMap is a list of entries, of which the first with a key
-- counts. `decode` is CStr::to_str, `none` for bytes that are not UTF-8.
pub mod Merging
pub mod Counting
pub mod Training
pub mod Publishing
pub mod Batches
use distri_inference_sidecar.Prelude.{
  ℕ, ◌+◌, ◌-◌, ◌*◌, ◌%◌, Bool, true, false, ◌&&◌, ◌||◌, Option, none, some, List, [], ◌∷◌, ◌++◌,
  map, length, Bytes, bytes_eq, ◌==◌, ltb, leb, if◌then◌else◌,
}
use distri_inference_sidecar.Prelude.Int.{ℤ, pos, negsuc}

abbrev pub Text : Type 0
Text = List ℕ

-- BPETokenizer.
pub record BpeTokenizer : Type 0 where
  pub vocab : List (Text × ℕ)
  pub merges : List ((Text × Text) × Text)
  pub merge_order : List (Text × Text)

-- char::is_whitespace.
unfoldable pub is_whitespace : ℕ → Bool
is_whitespace c =
    (leb 9 c && leb c 13)
    || c == 32
    || c == 133
    || c == 160
    || c == 5760
    || (leb 8192 c && leb c 8202)
    || c == 8232
    || c == 8233
    || c == 8239
    || c == 8287
    || c == 12288

abbrev pub end_word : Text → List Text → List Text
end_word [] ws = ws
end_word (c ∷ cs) ws = (c ∷ cs) ∷ ws

-- The words behind a word that has begun.
unfoldable pub words_from : Text → Text → List Text
words_from w [] = end_word w []
words_from w (c ∷ cs) = elim (is_whitespace c) [
  | true ↦ end_word w (words_from [] cs)
  | false ↦ words_from (w ++ c ∷ []) cs
]

-- str::split_whitespace.
unfoldable pub split_whitespace : Text → List Text
unfolding words_from
split_whitespace = words_from []

-- The loop over a word for one pair: the merged token stays the current one.
unfoldable pub merge_from : Text → Text → Text → Text → List Text → List Text
merge_from left right merged t [] = t ∷ []
merge_from left right merged t (u ∷ ts) = elim (bytes_eq t left && bytes_eq u right) [
  | true ↦ merge_from left right merged merged ts
  | false ↦ t ∷ merge_from left right merged u ts
]

unfoldable pub merge_pair : Text → Text → Text → List Text → List Text
unfolding merge_from
merge_pair left right merged [] = []
merge_pair left right merged (t ∷ ts) = merge_from left right merged t ts

-- `self.merges.get(&(left, right))`
unfoldable pub get_merge : List ((Text × Text) × Text) → Text → Text → Option Text
get_merge [] left right = none
get_merge (((l, r), m) ∷ ms) left right =
    let rest = get_merge ms left right in
    if bytes_eq l left && bytes_eq r right then some m else rest

abbrev pub merge_with : Option Text → Text → Text → List Text → List Text
unfolding merge_pair
merge_with none left right tokens = tokens
merge_with (some merged) left right tokens = merge_pair left right merged tokens

-- The merges in their order of training.
unfoldable pub merge_all : List ((Text × Text) × Text) → List (Text × Text) → List Text → List Text
unfolding merge_pair get_merge
merge_all ms [] tokens = tokens
merge_all ms ((left, right) ∷ order) tokens =
    merge_all ms order (merge_with (get_merge ms left right) left right tokens)

-- `vocab.get(t).unwrap_or(&0)`
unfoldable pub token_id : List (Text × ℕ) → Text → ℕ
token_id [] t = 0
token_id ((w, id) ∷ vocab) t = let rest = token_id vocab t in if bytes_eq w t then id else rest

-- The tokens of one word: its characters, merged.
unfoldable pub word_tokens : BpeTokenizer → Text → List Text
unfolding merge_all
word_tokens tok word = merge_all tok.merges tok.merge_order (map (λ c. c ∷ []) word)

unfoldable pub encode_words : BpeTokenizer → List Text → List ℕ
unfolding word_tokens token_id
encode_words tok [] = []
encode_words tok (w ∷ ws) = map (token_id tok.vocab) (word_tokens tok w) ++ encode_words tok ws

-- BPETokenizer::encode.
unfoldable pub encode : BpeTokenizer → Text → List ℕ
unfolding encode_words split_whitespace
encode tok text = encode_words tok (split_whitespace text)

-- `as i32`
unfoldable pub as_i32 : ℕ → ℤ
as_i32 n = let m = n % 4294967296 in if ltb m 2147483648 then pos m else negsuc (4294967295 - m)

-- `to_str().unwrap_or("")`
abbrev pub or_empty : Option Text → Text
or_empty none = []
or_empty (some t) = t

abbrev count_in : Option BpeTokenizer → Text → ℤ
unfolding encode as_i32 split_whitespace
count_in (some tok) text = as_i32 (length (encode tok text))
count_in none text = as_i32 (length (split_whitespace text))

-- bpe_count_tokens: `published` is what TOKENIZER holds.
unfoldable pub bpe_count_tokens : (Bytes → Option Text) → Option BpeTokenizer → Bytes → ℤ
unfolding encode split_whitespace as_i32
bpe_count_tokens decode published input = count_in published (or_empty (decode input))

abbrev encode_len_in : Option BpeTokenizer → Text → ℤ
unfolding encode as_i32
encode_len_in none text = negsuc 0
encode_len_in (some tok) text = as_i32 (length (encode tok text))

-- bpe_encode_len.
unfoldable pub bpe_encode_len : (Bytes → Option Text) → Option BpeTokenizer → Bytes → ℤ
unfolding encode as_i32
bpe_encode_len decode published input = encode_len_in published (or_empty (decode input))
