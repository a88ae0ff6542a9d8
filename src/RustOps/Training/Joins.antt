-- ===== src/RustOps/Training/Joins.antt =====
-- What training learns: each merge joins its two tokens, and each token that a merge makes has an
-- entry in the vocabulary.
use mathlib.Core.List.{flatten}
use distri_inference_sidecar.Prelude.{
  ℕ, zero, suc, ◌≡◌, refl, true, ◌&&◌, ◌||◌, inl, inr, Option, none, some, List, [], ◌∷◌, ◌++◌, map,
  length, bytes_eq, bytes_eq_refl, bytes_eq_iff, Bool-cases, Option-cases, arith,
}
use distri_inference_sidecar.RustOps.{
  Text, BpeTokenizer, word_tokens, merge_all, merge_with, merge_pair, merge_from, get_merge,
}
use distri_inference_sidecar.RustOps.Merging.{AreJoins, flatten-word_tokens}
use distri_inference_sidecar.RustOps.Training.{
  Pair, Freq, Training, pair_eq, has_key, insert_merge, insert_id, next_pair, learn, train_loop,
  begin, run, train, new, count_corpus,
}

insert_merge-AreJoins :
    (ms : List (Pair × Text)) (left right : Text)
    → AreJoins ms
    → AreJoins (insert_merge ms (left, right) (left ++ right))
unfolding insert_merge
insert_merge-AreJoins [] left right h = (refl, tt)
insert_merge-AreJoins (((l, r), m) ∷ ms) left right h =
    elim (Bool-cases (pair_eq (l, r) (left, right))) [
      | inl e ↦
          rw (e, insert_merge) (ground (arith, e, bytes_eq_iff l left, bytes_eq_iff r right), h.1)
      | inr e ↦ rw (e, insert_merge) (h.0, insert_merge-AreJoins ms left right h.1)
    ]

-- Each merged token has an entry.
abbrev AreKnown : List (Pair × Text) → List (Text × ℕ) → Type 0
AreKnown [] vocab = Unit
AreKnown ((p, m) ∷ ms) vocab = (has_key vocab m ≡ true) × AreKnown ms vocab

has_key-insert_id :
    (vocab : List (Text × ℕ)) (t u : Text) (id : ℕ)
    → has_key (insert_id vocab t id) u ≡ (bytes_eq t u || has_key vocab u)
unfolding has_key insert_id
has_key-insert_id [] t u id = refl
has_key-insert_id ((v, i) ∷ vocab) t u id =
    ground (arith, bytes_eq_iff v t, has_key-insert_id vocab t u id)

insert_id-AreKnown :
    (ms : List (Pair × Text)) (vocab : List (Text × ℕ)) (t : Text) (id : ℕ)
    → AreKnown ms vocab
    → AreKnown ms (insert_id vocab t id)
insert_id-AreKnown [] vocab t id h = tt
insert_id-AreKnown ((p, m) ∷ ms) vocab t id h =
    (ground (arith, h.0, has_key-insert_id vocab t m id), insert_id-AreKnown ms vocab t id h.1)

insert_merge-AreKnown :
    (ms : List (Pair × Text)) (vocab : List (Text × ℕ)) (p : Pair) (m : Text)
    → has_key vocab m ≡ true
    → AreKnown ms vocab
    → AreKnown (insert_merge ms p m) vocab
unfolding insert_merge
insert_merge-AreKnown [] vocab p m k h = (k, tt)
insert_merge-AreKnown ((q, n) ∷ ms) vocab p m k h = elim (Bool-cases (pair_eq q p)) [
  | inl e ↦ rw (e, insert_merge) (k, h.1)
  | inr e ↦ rw (e, insert_merge) (h.0, insert_merge-AreKnown ms vocab p m k h.1)
]

record IsLearned (tok : BpeTokenizer) : Type 0 where
  joins : AreJoins tok.merges
  known : AreKnown tok.merges tok.vocab

learn-IsLearned : (p : Pair) (tr : Training) → IsLearned tr.tok → IsLearned (learn p tr).tok
unfolding learn
learn-IsLearned (left, right) tr h = record {
  joins = insert_merge-AreJoins tr.tok.merges left right h.joins;
  known =
      insert_merge-AreKnown tr.tok.merges _ (left, right) (left ++ right)
        (ground (
          arith,
          bytes_eq_refl (left ++ right),
          has_key-insert_id tr.tok.vocab (left ++ right) (left ++ right) (length tr.tok.vocab),
        ))
        (insert_id-AreKnown tr.tok.merges tr.tok.vocab (left ++ right) (length tr.tok.vocab)
          h.known);
}

module _ (ranged : Freq → Freq) (size : ℕ) where
  train_loop-IsLearned :
      (fuel : ℕ) (tr : Training) → IsLearned tr.tok → IsLearned (train_loop ranged size fuel tr).tok
  unfolding train_loop
  train_loop-IsLearned zero tr h = h
  train_loop-IsLearned (suc fuel) tr h = elim (Option-cases (next_pair ranged size tr)) [
    | inl e ↦ rw (e, train_loop) h
    | inr (p, e) ↦
        rw (e, train_loop) (train_loop-IsLearned fuel (learn p tr) (learn-IsLearned p tr h))
  ]

  train-IsLearned : (text : Text) → IsLearned (train ranged text size new)
  unfolding run begin
  train-IsLearned text =
      let tr = begin text new in
      train_loop-IsLearned (suc (count_corpus tr.words)) tr (record { joins = tt; known = tt })

get_merge-known :
    (ms : List (Pair × Text)) (vocab : List (Text × ℕ)) (left right m : Text)
    → AreKnown ms vocab
    → get_merge ms left right ≡ some m
    → has_key vocab m ≡ true
unfolding get_merge
get_merge-known [] vocab left right m h e = ground arith
get_merge-known (((l, r), n) ∷ ms) vocab left right m h e =
    ground (arith, get_merge-known ms vocab left right m h.1)

-- Each token has an entry.
abbrev AllKnown : List (Text × ℕ) → List Text → Type 0
AllKnown vocab [] = Unit
AllKnown vocab (t ∷ ts) = (has_key vocab t ≡ true) × AllKnown vocab ts

module _ (vocab : List (Text × ℕ)) where
  merge_from-AllKnown :
      (left right merged t : Text) (ts : List Text)
      → has_key vocab merged ≡ true
      → AllKnown vocab (t ∷ ts)
      → AllKnown vocab (merge_from left right merged t ts)
  unfolding merge_from
  merge_from-AllKnown left right merged t [] k h = h
  merge_from-AllKnown left right merged t (u ∷ ts) k h =
      elim (Bool-cases (bytes_eq t left && bytes_eq u right)) [
        | inl e ↦ rw (e, merge_from) (merge_from-AllKnown left right merged merged ts k (k, h.1.1))
        | inr e ↦ rw (e, merge_from) (h.0, merge_from-AllKnown left right merged u ts k h.1)
      ]

  merge_with-AllKnown :
      (found : Option Text) (left right : Text) (ts : List Text)
      → ((m : Text) → found ≡ some m → has_key vocab m ≡ true)
      → AllKnown vocab ts
      → AllKnown vocab (merge_with found left right ts)
  unfolding merge_pair
  merge_with-AllKnown none left right ts k h = h
  merge_with-AllKnown (some m) left right [] k h = h
  merge_with-AllKnown (some m) left right (t ∷ ts) k h =
      merge_from-AllKnown left right m t ts (k m refl) h

  merge_all-AllKnown :
      (ms : List (Pair × Text)) (order : List Pair) (ts : List Text)
      → AreKnown ms vocab
      → AllKnown vocab ts
      → AllKnown vocab (merge_all ms order ts)
  unfolding merge_all
  merge_all-AllKnown ms [] ts k h = h
  merge_all-AllKnown ms ((left, right) ∷ order) ts k h = merge_all-AllKnown ms order _ k (
      merge_with-AllKnown (get_merge ms left right) left right ts
        (λ m. get_merge-known ms vocab left right m k) h)

module _ (ranged : Freq → Freq) (size : ℕ) where
  -- With a tokenizer trained from nothing, in whatever order, the tokens of a word join to the word.
  pub flatten-trained :
      (text word : Text) → flatten (word_tokens (train ranged text size new) word) ≡ word
  flatten-trained text word =
      flatten-word_tokens (train ranged text size new) word (train-IsLearned ranged size text).joins

  -- With a tokenizer trained from nothing, in whatever order, each token of a word has an entry in
  -- the vocabulary if each of its characters has one.
  trained-AllKnown :
      (text word : Text)
      → AllKnown (train ranged text size new).vocab (map (λ c. c ∷ []) word)
      → AllKnown (train ranged text size new).vocab (word_tokens (train ranged text size new) word)
  unfolding word_tokens
  trained-AllKnown text word h =
      let tok = train ranged text size new in
      merge_all-AllKnown tok.vocab tok.merges tok.merge_order (map (λ c. c ∷ []) word)
        (train-IsLearned ranged size text).known h
