-- ===== src/RustOps/Publishing.antt =====
-- rust_ops/src/lib.rs: bpe_train, which publishes the tokenizer once.
use distri_inference_sidecar.Prelude.{ℕ, Option, none, some, Bytes}
use distri_inference_sidecar.RustOps.{Text, BpeTokenizer, or_empty}
use distri_inference_sidecar.RustOps.Training.{Freq, run, train, new}

-- OnceLock::set: the first tokenizer stays.
abbrev pub publish : Option BpeTokenizer → BpeTokenizer → Option BpeTokenizer
publish none tok = some tok
publish (some first) tok = some first

-- bpe_train: what TOKENIZER holds before and after.
unfoldable pub bpe_train :
    (Bytes → Option Text) → (Freq → Freq) → ℕ → Option BpeTokenizer → Bytes → Option BpeTokenizer
unfolding run
bpe_train decode ranged vocab_size published text =
    publish published (train ranged (or_empty (decode text)) vocab_size new)
