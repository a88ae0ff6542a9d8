-- ===== src/RustOps/Merging.antt =====
-- What merging does to the tokens of a word.
use mathlib.Core.List.{flatten}
use distri_inference_sidecar.Prelude.{
  ℕ, suc, ◌+◌, ◌≤◌, ◌≡◌, refl, ap, ◌∙◌, Option, none, some, List, [], ◌∷◌, ◌++◌, map, length,
  bytes_eq_iff, arith,
}
use distri_inference_sidecar.RustOps.{
  Text, BpeTokenizer, merge_from, merge_pair, get_merge, merge_with, merge_all, word_tokens,
}

-- A merge makes a word's tokens no more, and leaves one.
pub length-merge_from :
    (left right merged t : Text) (ts : List Text)
    → (1 ≤ length (merge_from left right merged t ts))
      × (length (merge_from left right merged t ts) ≤ 1 + length ts)
unfolding merge_from
length-merge_from left right merged t [] = ground arith
length-merge_from left right merged t (u ∷ ts) =
    ground (
      arith,
      length-merge_from left right merged merged ts,
      length-merge_from left right merged u ts,
    )

length-merge_with :
    (m : Option Text) (left right : Text) (ts : List Text)
    → (length (merge_with m left right ts) ≤ length ts)
      × (1 ≤ length ts → 1 ≤ length (merge_with m left right ts))
unfolding merge_pair
length-merge_with none left right ts = ground arith
length-merge_with (some m) left right [] = ground arith
length-merge_with (some m) left right (t ∷ ts) =
    let bounds = length-merge_from left right m t ts in (ground (arith, bounds), λ _. bounds.0)

length-merge_all :
    (ms : List ((Text × Text) × Text)) (order : List (Text × Text)) (ts : List Text)
    → (length (merge_all ms order ts) ≤ length ts)
      × (1 ≤ length ts → 1 ≤ length (merge_all ms order ts))
unfolding merge_all
length-merge_all ms [] ts = ground arith
length-merge_all ms ((left, right) ∷ order) ts =
    let (less, some_left) = length-merge_with (get_merge ms left right) left right ts in
    let (less', some_left') =
      length-merge_all ms order (merge_with (get_merge ms left right) left right ts) in
    (omega arith, λ h. some_left' (some_left h))

length-map : (w : Text) → length (map (λ c. c ∷ []) w) ≡ length w
length-map [] = refl
length-map (c ∷ cs) = ap suc (length-map cs)

-- The number of tokens of a word that is not empty is from one to the number of its characters.
pub length-word_tokens :
    (tok : BpeTokenizer) (c : ℕ) (cs : Text)
    → (1 ≤ length (word_tokens tok (c ∷ cs))) × (length (word_tokens tok (c ∷ cs)) ≤ 1 + length cs)
unfolding word_tokens
length-word_tokens tok c cs =
    let (less, some_left) =
      length-merge_all tok.merges tok.merge_order ((c ∷ []) ∷ map (λ c. c ∷ []) cs) in
    (some_left (omega arith), ground (arith, less, length-map cs))

-- Each merge that training has learned joins its two tokens.
abbrev pub AreJoins : List ((Text × Text) × Text) → Type 0
AreJoins [] = Unit
AreJoins (((l, r), m) ∷ ms) = (m ≡ l ++ r) × AreJoins ms

append_assoc : (a b c : Text) → (a ++ b) ++ c ≡ a ++ (b ++ c)
append_assoc [] b c = refl
append_assoc (x ∷ a) b c = ap (λ r. x ∷ r) (append_assoc a b c)

flatten-merge_from :
    (left right merged t : Text) (ts : List Text)
    → merged ≡ left ++ right
    → flatten (merge_from left right merged t ts) ≡ t ++ flatten ts
unfolding merge_from flatten
flatten-merge_from left right merged t [] e = refl
flatten-merge_from left right merged t (u ∷ ts) e = ground (
  arith,
  e,
  bytes_eq_iff t left,
  bytes_eq_iff u right,
  append_assoc left right (flatten ts),
  flatten-merge_from left right merged merged ts e,
  flatten-merge_from left right merged u ts e,
)

get_merge-join :
    (ms : List ((Text × Text) × Text)) (left right m : Text)
    → AreJoins ms
    → get_merge ms left right ≡ some m
    → m ≡ left ++ right
unfolding get_merge
get_merge-join [] left right m joins h = ground arith
get_merge-join (((l, r), n) ∷ ms) left right m joins h =
    ground
      (arith, bytes_eq_iff l left, bytes_eq_iff r right, get_merge-join ms left right m joins.1)

flatten-merge_with :
    (found : Option Text) (left right : Text) (ts : List Text)
    → ((m : Text) → found ≡ some m → m ≡ left ++ right)
    → flatten (merge_with found left right ts) ≡ flatten ts
unfolding merge_pair flatten
flatten-merge_with none left right ts h = refl
flatten-merge_with (some m) left right [] h = refl
flatten-merge_with (some m) left right (t ∷ ts) h = flatten-merge_from left right m t ts (h m refl)

flatten-merge_all :
    (ms : List ((Text × Text) × Text)) (order : List (Text × Text)) (ts : List Text)
    → AreJoins ms
    → flatten (merge_all ms order ts) ≡ flatten ts
unfolding merge_all
flatten-merge_all ms [] ts joins = refl
flatten-merge_all ms ((left, right) ∷ order) ts joins =
    flatten-merge_all ms order (merge_with (get_merge ms left right) left right ts) joins
    ∙ flatten-merge_with (get_merge ms left right) left right ts
        (λ m. get_merge-join ms left right m joins)

flatten-singles : (w : Text) → flatten (map (λ c. c ∷ []) w) ≡ w
unfolding flatten
flatten-singles [] = refl
flatten-singles (c ∷ cs) = ap (λ r. c ∷ r) (flatten-singles cs)

-- The tokens of a word join to the word, if each learned merge joins its two tokens.
pub flatten-word_tokens :
    (tok : BpeTokenizer) (word : Text) → AreJoins tok.merges → flatten (word_tokens tok word) ≡ word
unfolding word_tokens
flatten-word_tokens tok word joins =
    flatten-merge_all tok.merges tok.merge_order (map (λ c. c ∷ []) word) joins
    ∙ flatten-singles word
