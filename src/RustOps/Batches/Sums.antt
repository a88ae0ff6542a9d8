-- ===== src/RustOps/Batches/Sums.antt =====
-- The count over an array against the counts of its elements.
use distri_inference_sidecar.Prelude.{
  ℕ, ◌+◌, ◌≤◌, ◌<◌, ◌≡◌, refl, ap, sym, ◌∙◌, Option, none, some, List, [], ◌∷◌, map, Bytes, arith,
}
use distri_inference_sidecar.Prelude.Int.{ℤ, pos, ◌+ℤ◌, wrap64}
use distri_inference_sidecar.RustOps.{Text, BpeTokenizer, as_i32, or_empty, bpe_encode_len}
use distri_inference_sidecar.RustOps.Counting.{count_ink, length-encode, as_i32-small}
use distri_inference_sidecar.RustOps.Batches.{
  at_pointer, count_words, count_ids, add_counts, tokenize_len, tokenize_len_batch,
  bpe_encode_len_batch,
}

-- The pointers that are not null.
abbrev pub non_null : List (Option Bytes) → List (Option Bytes)
non_null [] = []
non_null (none ∷ ptrs) = non_null ptrs
non_null (some s ∷ ptrs) = some s ∷ non_null ptrs

abbrev pub sum_ℤ : List ℤ → ℤ
sum_ℤ [] = pos 0
sum_ℤ (n ∷ ns) = n +ℤ sum_ℤ ns

module _ (decode : Bytes → Option Text) where
  -- The characters besides whitespace in all the texts.
  abbrev pub ink : List (Option Bytes) → ℕ
  ink [] = 0
  ink (none ∷ ptrs) = ink ptrs
  ink (some s ∷ ptrs) = count_ink (or_empty (decode s)) + ink ptrs

  module _ (count : Text → ℕ) (bounded : (text : Text) → count text ≤ count_ink text) where
    abbrev total : List (Option Bytes) → ℕ
    total [] = 0
    total (none ∷ ptrs) = total ptrs
    total (some s ∷ ptrs) = count (or_empty (decode s)) + total ptrs

    add_counts-total :
        (n : ℕ) (ptrs : List (Option Bytes))
        → n + ink ptrs < 2147483648
        → add_counts count decode (pos n) ptrs ≡ pos (n + total ptrs)
    unfolding add_counts wrap64
    add_counts-total n [] small = ap pos (omega arith)
    add_counts-total n (none ∷ ptrs) small = add_counts-total n ptrs small
    add_counts-total n (some s ∷ ptrs) small =
        let k = count (or_empty (decode s)) in
        ground (arith, bounded (or_empty (decode s)), add_counts-total (n + k) ptrs)

    sum-total :
        (ptrs : List (Option Bytes))
        → ink ptrs < 2147483648
        → sum_ℤ (map (at_pointer (λ s. as_i32 (count (or_empty (decode s))))) (non_null ptrs))
          ≡ pos (total ptrs)
    sum-total [] small = refl
    sum-total (none ∷ ptrs) small = sum-total ptrs small
    sum-total (some s ∷ ptrs) small =
        let text = or_empty (decode s) in
        rw
          (
            as_i32-small (count text) (omega (arith, bounded text, small)),
            sum-total ptrs (omega arith),
          )
          refl

    add_counts-sum :
        (ptrs : List (Option Bytes))
        → ink ptrs < 2147483648
        → add_counts count decode (pos 0) ptrs
          ≡ sum_ℤ (map (at_pointer (λ s. as_i32 (count (or_empty (decode s))))) (non_null ptrs))
    add_counts-sum ptrs small =
        add_counts-total 0 ptrs (omega arith) ∙ ap pos (omega arith) ∙ sym (sum-total ptrs small)

  -- With a published tokenizer, the functions over an array return the sums of what bpe_encode_len
  -- and tokenize_len return for the elements that are not null, if these have fewer than 2147483648
  -- characters besides whitespace.
  batches-sum :
      (tok : BpeTokenizer) (ptrs : List (Option Bytes))
      → ink ptrs < 2147483648
      → (bpe_encode_len_batch decode (some tok) (some ptrs)
          ≡ sum_ℤ (map (at_pointer (bpe_encode_len decode (some tok))) (non_null ptrs)))
        × (tokenize_len_batch decode (some ptrs)
            ≡ sum_ℤ (map (tokenize_len decode) (non_null ptrs)))
  unfolding bpe_encode_len_batch tokenize_len_batch bpe_encode_len tokenize_len
  batches-sum tok ptrs small =
      let ids : (text : Text) → count_ids tok text ≤ count_ink text =
        λ text. (length-encode tok text).1 in
      let words : (text : Text) → count_words text ≤ count_ink text =
        λ text. omega (arith, length-encode tok text) in
      (add_counts-sum (count_ids tok) ids ptrs small, add_counts-sum count_words words ptrs small)
