-- ===== src/Sidecar/Corpus.antt =====
-- cmd/sidecar/main.go: loadTokenizerCorpus, and what main does with the corpus.
use distri_inference_sidecar.Prelude.{
  ℕ, zero, suc, ◌≡◌, ◌≢◌, refl, false, ◌⊎◌, inl, inr, Option, none, some, [], ◌∷◌, ◌++◌, Bytes,
  codes, Option-cases, if◌then◌else◌, arith,
}
use distri_inference_sidecar.Errors.{GoError, Fallible, ok, err}
use distri_inference_sidecar.Strings.{is_space, trim_space, trim_byte, trim_right}
use distri_inference_sidecar.RustOps.{Text, BpeTokenizer, or_empty}
use distri_inference_sidecar.RustOps.Training.{Freq, train, new}
use distri_inference_sidecar.Tokenizer.{c_string}
use distri_inference_sidecar.Tokenizer.Init.{is_blank, probe, init, init-publishes}
use distri_inference_sidecar.Sidecar.{Getenv}

-- strings.Repeat.
abbrev repeat : ℕ → Bytes → Bytes
repeat zero s = []
repeat (suc n) s = s ++ repeat n s

unfoldable pub built_in : Bytes
built_in = repeat 200 (codes "hello world foo bar the quick brown fox ")

-- The corpus in the file: an exit if it cannot be read or is blank.
abbrev pub file_corpus : Fallible Bytes → Option Bytes
file_corpus (err e) = none
file_corpus (ok corpus) = if is_blank corpus then none else some corpus

-- `none` is the exit of the process; `read_file` is os.ReadFile.
unfoldable pub load_tokenizer_corpus : Getenv → (Bytes → Fallible Bytes) → Option Bytes
unfolding trim_space built_in
load_tokenizer_corpus getenv read_file =
    let path = trim_space (getenv (codes "TOKENIZER_CORPUS_PATH")) in
    if is_blank path then some built_in else file_corpus (read_file path)

-- main exits if Init has an error.
abbrev pub unless_error : Option GoError × Option BpeTokenizer → Option (Option BpeTokenizer)
unless_error (none, published) = some published
unless_error (some e, published) = none

abbrev init_with :
    (Bytes → Option Text) → (Freq → Freq) → Option Bytes → Option (Option BpeTokenizer)
init_with decode ranged none = none
init_with decode ranged (some corpus) = unless_error (init decode ranged none corpus)

-- The first lines of main behind the configuration: what is published, or an exit.
unfoldable pub start_tokenizer :
    (Bytes → Option Text)
    → (Freq → Freq)
    → Getenv
    → (Bytes → Fallible Bytes)
    → Option (Option BpeTokenizer)
unfolding load_tokenizer_corpus init
start_tokenizer decode ranged getenv read_file =
    init_with decode ranged (load_tokenizer_corpus getenv read_file)

trim_byte-ink : (c : ℕ) (t : Bytes) → is_space c ≡ false → trim_byte c t ≢ []
trim_byte-ink c [] h e = ground arith
trim_byte-ink c (k ∷ ks) h e = ground arith

is_blank-ink : (c : ℕ) (cs : Bytes) → is_space c ≡ false → is_blank (c ∷ cs) ≡ false
unfolding is_blank
is_blank-ink c cs h = ground (arith, h, trim_byte-ink c (trim_right cs) h)

built_in-ink : is_blank built_in ≡ false
unfolding built_in is_space
built_in-ink = is_blank-ink 104 _ refl

file_corpus-ink :
    (f : Fallible Bytes) (corpus : Bytes) → file_corpus f ≡ some corpus → is_blank corpus ≡ false
file_corpus-ink (err e) corpus h = ground arith
file_corpus-ink (ok text) corpus h = ground arith

-- A corpus that is loaded is not blank.
load_tokenizer_corpus-ink :
    (getenv : Getenv) (read_file : Bytes → Fallible Bytes) (corpus : Bytes)
    → load_tokenizer_corpus getenv read_file ≡ some corpus
    → is_blank corpus ≡ false
unfolding load_tokenizer_corpus
load_tokenizer_corpus-ink getenv read_file corpus h = ground (
  arith,
  h,
  built_in-ink,
  file_corpus-ink (read_file (trim_space (getenv (codes "TOKENIZER_CORPUS_PATH")))) corpus,
)

-- With the tokenizer's self-check decoded to itself, main goes on behind the tokenizer exactly with
-- a corpus that is loaded, and then a tokenizer is published that is trained, to 500 entries, on
-- what the callee reads of that corpus: the text of its bytes before the first NUL, or the empty
-- text if those are not UTF-8.
pub start_tokenizer-publishes :
    (decode : Bytes → Option Text) (ranged : Freq → Freq) (getenv : Getenv)
    (read_file : Bytes → Fallible Bytes)
    → decode probe ≡ some probe
    → ((load_tokenizer_corpus getenv read_file ≡ none)
        × (start_tokenizer decode ranged getenv read_file ≡ none))
      ⊎ ((corpus : Bytes) × (load_tokenizer_corpus getenv read_file ≡ some corpus)
          × (start_tokenizer decode ranged getenv read_file
              ≡ some (some (train ranged (or_empty (decode (c_string corpus))) 500 new))))
unfolding start_tokenizer
start_tokenizer-publishes decode ranged getenv read_file h =
    elim (Option-cases (load_tokenizer_corpus getenv read_file)) [
      | inl e ↦ inl (e, rw e)
      | inr (corpus, e) ↦ inr (
        corpus,
        e,
        rw (
          e,
          init-publishes decode ranged none corpus h
              (load_tokenizer_corpus-ink getenv read_file corpus e),
        ),
      )
    ]
