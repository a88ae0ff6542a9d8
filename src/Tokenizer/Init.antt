-- ===== src/Tokenizer/Init.antt =====
-- internal/tokenizer/tokenizer.go: Init, which trains the tokenizer of rust_ops and publishes it.
use distri_inference_sidecar.Prelude.{
  ℕ, ◌≡◌, ap, ◌∙◌, Bool, true, false, Option, none, some, [], ◌∷◌, length, Bytes, codes,
  if◌then◌else◌, arith,
}
use distri_inference_sidecar.Prelude.Int.{ℤ, pos, ltb_ℤ}
use distri_inference_sidecar.Errors.{GoError, plain}
use distri_inference_sidecar.Strings.{trim_space}
use distri_inference_sidecar.RustOps.{
  Text, BpeTokenizer, is_whitespace, encode, as_i32, or_empty, bpe_encode_len,
}
use distri_inference_sidecar.RustOps.Training.{Freq, train, new}
use distri_inference_sidecar.RustOps.Publishing.{publish, bpe_train}
use distri_inference_sidecar.RustOps.Counting.{count_ink, length-encode, as_i32-small}
use distri_inference_sidecar.Tokenizer.{c_string}

unfoldable pub is_blank : Bytes → Bool
unfolding trim_space
is_blank s = elim (trim_space s) [ [] ↦ true | c ∷ cs ↦ false ]

abbrev pub probe : Bytes
probe = codes "tokenizer init self-check"

-- What the self-check returns.
abbrev pub check_probe : ℤ → Option GoError
check_probe n =
    if ltb_ℤ n (pos 0)
    then some (plain (codes "tokenizer: BPE training did not initialise a vocabulary"))
    else none

check_probe-pos : (n : ℕ) → check_probe (pos n) ≡ none
check_probe-pos n = ground arith

module _ (decode : Bytes → Option Text) (ranged : Freq → Freq) where
  -- The error, if any, and what is published then.
  unfoldable pub init : Option BpeTokenizer → Bytes → Option GoError × Option BpeTokenizer
  unfolding bpe_train bpe_encode_len c_string trim_space
  init published corpus =
      let trained = bpe_train decode ranged 500 published (c_string corpus) in
      if is_blank corpus
      then (some (plain (codes "tokenizer: training corpus is empty")), published)
      else (check_probe (bpe_encode_len decode trained (c_string probe)), trained)

  probe_ok :
      (tok : BpeTokenizer)
      → decode probe ≡ some probe
      → check_probe (as_i32 (length (encode tok (or_empty (decode probe))))) ≡ none
  unfolding count_ink is_whitespace
  probe_ok tok h =
      ap (λ t. check_probe (as_i32 (length (encode tok (or_empty t))))) h
      ∙ ap check_probe
          (as_i32-small (length (encode tok probe)) (omega (arith, length-encode tok probe)))
      ∙ check_probe-pos (length (encode tok probe))

  -- Init succeeds for every corpus that is not blank, if the text of the self-check is decoded to
  -- itself, and a tokenizer that is published already stays; else the one is published that is
  -- trained on what is decoded of the bytes before the first NUL, the empty text if they are not
  -- UTF-8.
  pub init-publishes :
      (published : Option BpeTokenizer) (corpus : Bytes)
      → decode probe ≡ some probe
      → is_blank corpus ≡ false
      → init published corpus
        ≡ (none, publish published (train ranged (or_empty (decode (c_string corpus))) 500 new))
  unfolding init
  init-publishes none corpus h full =
      ground (arith, full, probe_ok (train ranged (or_empty (decode (c_string corpus))) 500 new) h)
  init-publishes (some tok) corpus h full = ground (arith, full, probe_ok tok h)
