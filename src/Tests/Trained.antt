-- ===== src/Tests/Trained.antt =====
-- Training on a small corpus.
use mathlib.Core.List.{flatten}
use mathlib.Core.List.Perm
use distri_inference_sidecar.Prelude.{
  ◌≡◌, ◌≤◌, ◌⊎◌, refl, false, none, some, [], ◌∷◌, length, Bytes, codes, bytes_eq, Perm,
}
use distri_inference_sidecar.Errors.{Fallible, err, plain}
use distri_inference_sidecar.RustOps.{Text, or_empty, is_whitespace, word_tokens}
use distri_inference_sidecar.RustOps.Training.{Freq, Pair, run, train, new}
use distri_inference_sidecar.RustOps.Training.Ending.{occurs, run-ends}
use distri_inference_sidecar.RustOps.Training.Joins.{flatten-trained}
use distri_inference_sidecar.Strings.{is_space, trim_space}
use distri_inference_sidecar.Tokenizer.{c_string}
use distri_inference_sidecar.Tokenizer.Init.{is_blank}
use distri_inference_sidecar.Sidecar.{Getenv}
use distri_inference_sidecar.Sidecar.Corpus.{
  load_tokenizer_corpus, start_tokenizer, start_tokenizer-publishes,
}
use distri_inference_sidecar.Tests.Tokens.{decode, phrase}

abbrev in_order : Freq → Freq
in_order fs = fs

in_order_perm : (fs : Freq) → Perm (in_order fs) fs
in_order_perm fs = Perm.rfl

abbrev corpus : Text
corpus = codes "ab abc ab"

-- Three characters and two merges.
trained_run : train in_order corpus 10 new ≡ record {
  vocab =
      (codes "c", 2) ∷ (codes "b", 1) ∷ (codes "a", 0) ∷ (codes "ab", 3) ∷ (codes "abc", 4) ∷ [];
  merges = ((codes "a", codes "b"), codes "ab") ∷ ((codes "ab", codes "c"), codes "abc") ∷ [];
  merge_order = (codes "a", codes "b") ∷ (codes "ab", codes "c") ∷ [];
}
unfolding run bytes_eq is_whitespace
trained_run = refl

run-ends_example :
    (10 ≤ length (run in_order corpus 10 new).tok.vocab)
    ⊎ ((p : Pair) → occurs p (run in_order corpus 10 new).words ≡ false)
run-ends_example = run-ends in_order in_order_perm 10 corpus new

flatten-trained_example :
    flatten (word_tokens (train in_order corpus 10 new) (codes "abcab")) ≡ codes "abcab"
flatten-trained_example = flatten-trained in_order 10 corpus (codes "abcab")

corpus_full : is_blank phrase ≡ false
unfolding trim_space is_space is_blank
corpus_full = refl

abbrev no_variables : Getenv
no_variables key = []

abbrev no_file : Bytes → Fallible Bytes
no_file path = err (plain (codes "open: no such file"))

start_tokenizer-publishes_example :
    ((load_tokenizer_corpus no_variables no_file ≡ none)
      × (start_tokenizer decode in_order no_variables no_file ≡ none))
    ⊎ ((text : Bytes) × (load_tokenizer_corpus no_variables no_file ≡ some text)
        × (start_tokenizer decode in_order no_variables no_file
            ≡ some (some (train in_order (or_empty (decode (c_string text))) 500 new))))
start_tokenizer-publishes_example =
    start_tokenizer-publishes decode in_order no_variables no_file refl
