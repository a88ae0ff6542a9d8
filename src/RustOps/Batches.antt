-- ===== src/RustOps/Batches.antt =====
-- rust_ops, src/lib.rs: tokenize_len, and the functions that count over an array of C strings. A
-- pointer is `none` if it is null. Overflow wraps around, as in a release build.
pub mod Sums
use distri_inference_sidecar.Prelude.{ℕ, Option, none, some, List, [], ◌∷◌, length, Bytes}
use distri_inference_sidecar.Prelude.Int.{ℤ, pos, negsuc, ◌+ℤ◌, wrap64}
use distri_inference_sidecar.RustOps.{
  Text, BpeTokenizer, split_whitespace, encode, as_i32, or_empty,
}

-- A function of a C string at a pointer.
abbrev pub at_pointer : (Bytes → ℤ) → Option Bytes → ℤ
at_pointer f none = negsuc 0
at_pointer f (some s) = f s

abbrev count_words : Text → ℕ
count_words text = length (split_whitespace text)

abbrev count_ids : BpeTokenizer → Text → ℕ
count_ids tok text = length (encode tok text)

-- The loop over the array, with its total.
unfoldable pub add_counts : (Text → ℕ) → (Bytes → Option Text) → ℤ → List (Option Bytes) → ℤ
unfolding wrap64
add_counts count decode total [] = total
add_counts count decode total (none ∷ ptrs) = add_counts count decode total ptrs
add_counts count decode total (some s ∷ ptrs) =
    add_counts count decode (wrap64 (total +ℤ wrap64 (pos (count (or_empty (decode s)))))) ptrs

unfoldable pub tokenize_len : (Bytes → Option Text) → Option Bytes → ℤ
unfolding as_i32 split_whitespace
tokenize_len decode input = at_pointer (λ s. as_i32 (count_words (or_empty (decode s)))) input

-- tokenize_len_batch: the array of pointers is `none` if it is null.
unfoldable pub tokenize_len_batch : (Bytes → Option Text) → Option (List (Option Bytes)) → ℤ
unfolding add_counts split_whitespace
tokenize_len_batch decode none = negsuc 0
tokenize_len_batch decode (some ptrs) = add_counts count_words decode (pos 0) ptrs

unfoldable pub bpe_encode_len_batch :
    (Bytes → Option Text) → Option BpeTokenizer → Option (List (Option Bytes)) → ℤ
unfolding add_counts encode
bpe_encode_len_batch decode none inputs = negsuc 0
bpe_encode_len_batch decode (some tok) none = negsuc 0
bpe_encode_len_batch decode (some tok) (some ptrs) = add_counts (count_ids tok) decode (pos 0) ptrs
