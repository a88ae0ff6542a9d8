-- ===== src/RustOps/Training.antt =====
-- rust_ops/src/bpe_token.rs: BPETokenizer::new and BPETokenizer::train. `ranged` is the order in
-- which the entries of the map of pairs are visited.
pub mod Ending
pub mod Joins
use distri_inference_sidecar.Prelude.{
  ℕ, zero, suc, ◌+◌, Bool, true, false, ◌&&◌, ◌||◌, Option, none, some, List, [], ◌∷◌, ◌++◌, map,
  length, bytes_eq, ltb, leb, if◌then◌else◌,
}
use distri_inference_sidecar.RustOps.{Text, BpeTokenizer, merge_pair, split_whitespace}

abbrev pub Pair : Type 0
Pair = Text × Text

-- HashMap<(String, String), usize>.
abbrev pub Freq : Type 0
Freq = List (Pair × ℕ)

-- BPETokenizer::new.
abbrev pub new : BpeTokenizer
new = record { vocab = []; merges = []; merge_order = [] }

-- `self.vocab.contains_key(t)`
unfoldable pub has_key : List (Text × ℕ) → Text → Bool
has_key [] t = false
has_key ((u, id) ∷ vocab) t = bytes_eq u t || has_key vocab t

-- The characters of a word that have no entry in the map.
abbrev new_chars : List (Text × ℕ) → List Text → List Text
new_chars vocab [] = []
new_chars vocab (ch ∷ word) =
    let rest = new_chars vocab word in if has_key vocab ch then rest else ch ∷ rest

unfoldable pub all_chars : List (Text × ℕ) → List (List Text) → List Text
unfolding has_key
all_chars vocab [] = []
all_chars vocab (word ∷ words) = new_chars vocab word ++ all_chars vocab words

-- `self.vocab.entry(ch).or_insert(self.vocab.len())` for each.
unfoldable pub add_chars : List Text → List (Text × ℕ) → List (Text × ℕ)
unfolding has_key
add_chars [] vocab = vocab
add_chars (ch ∷ chars) vocab =
    add_chars chars (if has_key vocab ch then vocab else (ch, length vocab) ∷ vocab)

-- `word.windows(2)`
unfoldable pub windows : List Text → List Pair
windows [] = []
windows (t ∷ []) = []
windows (t ∷ u ∷ ts) = (t, u) ∷ windows (u ∷ ts)

abbrev pub pair_eq : Pair → Pair → Bool
pair_eq (t, u) (left, right) = bytes_eq t left && bytes_eq u right

-- `*pair_freq.entry(pair).or_insert(0) += 1`
unfoldable pub count_pair : Pair → Freq → Freq
count_pair p [] = (p, 1) ∷ []
count_pair p ((q, n) ∷ fs) =
    let rest = count_pair p fs in if pair_eq q p then (q, n + 1) ∷ fs else (q, n) ∷ rest

unfoldable pub count_pairs : List Pair → Freq → Freq
unfolding count_pair
count_pairs [] fs = fs
count_pairs (p ∷ ps) fs = count_pairs ps (count_pair p fs)

unfoldable pub pair_freq : List (List Text) → Freq → Freq
unfolding count_pairs windows
pair_freq [] fs = fs
pair_freq (word ∷ words) fs = pair_freq words (count_pairs (windows word) fs)

-- `max_by_key`: the last of the greatest.
abbrev pub max_from : Pair × ℕ → Freq → Pair
max_from (p, n) [] = p
max_from (p, n) ((q, k) ∷ fs) = elim (leb n k) [
  | true ↦ max_from (q, k) fs
  | false ↦ max_from (p, n) fs
]

unfoldable pub best_pair : Freq → Option Pair
best_pair [] = none
best_pair (f ∷ fs) = some (max_from f fs)

-- `insert` of the two maps, which replaces the value of a key that is there.
unfoldable pub insert_merge : List (Pair × Text) → Pair → Text → List (Pair × Text)
insert_merge [] p m = (p, m) ∷ []
insert_merge ((q, n) ∷ ms) p m =
    let rest = insert_merge ms p m in if pair_eq q p then (q, m) ∷ ms else (q, n) ∷ rest

unfoldable pub insert_id : List (Text × ℕ) → Text → ℕ → List (Text × ℕ)
insert_id [] t id = (t, id) ∷ []
insert_id ((u, i) ∷ vocab) t id =
    let rest = insert_id vocab t id in if bytes_eq u t then (u, id) ∷ vocab else (u, i) ∷ rest

-- The tokenizer and the corpus as it is merged so far.
pub record Training : Type 0 where
  pub tok : BpeTokenizer
  pub words : List (List Text)

-- One round for the pair that was chosen.
unfoldable pub learn : Pair → Training → Training
unfolding insert_merge insert_id merge_pair
learn (left, right) tr =
    let merged = left ++ right in
    record {
      tok = record {
        vocab = insert_id tr.tok.vocab merged (length tr.tok.vocab);
        merges = insert_merge tr.tok.merges (left, right) merged;
        merge_order = tr.tok.merge_order ++ (left, right) ∷ [];
      };
      words = map (merge_pair left right merged) tr.words;
    }

module _ (ranged : Freq → Freq) (vocab_size : ℕ) where
  -- The pair of the next round: none behind the last one.
  unfoldable pub next_pair : Training → Option Pair
  unfolding pair_freq best_pair
  next_pair tr =
      if ltb (length tr.tok.vocab) vocab_size
      then best_pair (ranged (pair_freq tr.words []))
      else none

  -- The loop, on the number of rounds at most.
  unfoldable pub train_loop : ℕ → Training → Training
  unfolding next_pair learn
  train_loop zero tr = tr
  train_loop (suc fuel) tr = elim (next_pair tr) [
    | none ↦ tr
    | some p ↦ train_loop fuel (learn p tr)
  ]

abbrev pub count_corpus : List (List Text) → ℕ
count_corpus [] = 0
count_corpus (word ∷ words) = length word + count_corpus words

-- The state before the first round.
unfoldable pub begin : Text → BpeTokenizer → Training
unfolding add_chars all_chars split_whitespace
begin text tok =
    let words = map (map (λ c. c ∷ [])) (split_whitespace text) in
    record {
      tok = record tok { vocab = add_chars (all_chars tok.vocab words) tok.vocab };
      words = words;
    }

-- A round leaves fewer tokens, so one round more than there are tokens is enough.
unfoldable pub run : (Freq → Freq) → Text → ℕ → BpeTokenizer → Training
unfolding train_loop begin
run ranged text vocab_size tok =
    let tr = begin text tok in train_loop ranged vocab_size (suc (count_corpus tr.words)) tr

-- BPETokenizer::train.
abbrev pub train : (Freq → Freq) → Text → ℕ → BpeTokenizer → BpeTokenizer
train ranged text vocab_size tok = (run ranged text vocab_size tok).tok
