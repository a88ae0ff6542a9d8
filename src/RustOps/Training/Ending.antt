-- ===== src/RustOps/Training/Ending.antt =====
-- Training ends: each round merges at least one pair of the corpus.
use mathlib.Core.Bool.{Bool-set}
use mathlib.Core.List.{Mem, Mem-prop, mem-cons, mem-cons_self, not-mem-nil}
use mathlib.Core.List.Perm
use mathlib.Core.Logic.Or
use mathlib.Core.List.{mem-cons_of_mem}
use distri_inference_sidecar.Prelude.{
  ℕ, zero, suc, ◌+◌, ◌≤◌, ◌<◌, ◌≡◌, ◌≢◌, refl, ap, Bool, true, false, ◌||◌, ◌⊎◌, inl, inr, none,
  some, List, [], ◌∷◌, ◌++◌, map, length, Perm, bytes_eq_refl, Bool-cases, Option-cases, ltb, leb,
  arith,
}
use distri_inference_sidecar.RustOps.{Text, BpeTokenizer, merge_from, merge_pair}
use distri_inference_sidecar.RustOps.Merging.{length-merge_from}
use distri_inference_sidecar.RustOps.Training.{
  Pair, Freq, Training, pair_eq, windows, count_pair, count_pairs, pair_freq, max_from, best_pair,
  next_pair, learn, train_loop, count_corpus, begin, run,
}

-- A pair is one of the list, and of the windows of the words.
unfoldable pub is_among : Pair → List Pair → Bool
is_among p [] = false
is_among p (q ∷ qs) = pair_eq q p || is_among p qs

unfoldable pub occurs : Pair → List (List Text) → Bool
unfolding is_among windows
occurs p [] = false
occurs p (word ∷ words) = is_among p (windows word) || occurs p words

pair_eq_refl : (p : Pair) → pair_eq p p ≡ true
pair_eq_refl (t, u) = ground (arith, bytes_eq_refl t, bytes_eq_refl u)

-- Each pair that is counted passes the test.
abbrev AllPass : (Pair → Bool) → Freq → Type 0
AllPass test [] = Unit
AllPass test ((p, n) ∷ fs) = (test p ≡ true) × AllPass test fs

module _ (test : Pair → Bool) where
  count_pair-AllPass :
      (p : Pair) (fs : Freq) → test p ≡ true → AllPass test fs → AllPass test (count_pair p fs)
  unfolding count_pair
  count_pair-AllPass p [] h k = (h, tt)
  count_pair-AllPass p ((q, n) ∷ fs) h k = elim (Bool-cases (pair_eq q p)) [
    | inl e ↦ rw (e, count_pair) k
    | inr e ↦ rw (e, count_pair) (k.0, count_pair-AllPass p fs h k.1)
  ]

  count_pairs-AllPass :
      (ps : List Pair) (fs : Freq)
      → ((p : Pair) → is_among p ps ≡ true → test p ≡ true)
      → AllPass test fs
      → AllPass test (count_pairs ps fs)
  unfolding count_pairs is_among
  count_pairs-AllPass [] fs h k = k
  count_pairs-AllPass (p ∷ ps) fs h k =
      count_pairs-AllPass ps (count_pair p fs) (λ q e. h q (ground (arith, e)))
        (count_pair-AllPass p fs (h p (ground (arith, pair_eq_refl p))) k)

  pair_freq-AllPass :
      (words : List (List Text)) (fs : Freq)
      → ((p : Pair) → occurs p words ≡ true → test p ≡ true)
      → AllPass test fs
      → AllPass test (pair_freq words fs)
  unfolding pair_freq occurs
  pair_freq-AllPass [] fs h k = k
  pair_freq-AllPass (word ∷ words) fs h k =
      pair_freq-AllPass words (count_pairs (windows word) fs) (λ q e. h q (ground (arith, e)))
        (count_pairs-AllPass (windows word) fs (λ q e. h q (ground (arith, e))) k)

  AllPass-mem : (p : Pair) (n : ℕ) (fs : Freq) → AllPass test fs → Mem (p, n) fs → test p ≡ true
  AllPass-mem p n [] k m = absurd (not-mem-nil m)
  AllPass-mem p n ((q, i) ∷ fs) k m =
      Or.elim (Bool-set _ _) (mem-cons.0 m) (λ e. rw (ap (λ (x : Pair × ℕ). x.0) e) k.0)
        (AllPass-mem p n fs k.1)

mem_skip : {f g : Pair × ℕ} {x : Pair × ℕ} {fs : Freq} → Mem x (f ∷ fs) → Mem x (f ∷ g ∷ fs)
mem_skip {f} {g} m =
    Or.elim Mem-prop (mem-cons.0 m) (λ e. rw e mem-cons_self)
      (λ k. mem-cons_of_mem f (mem-cons_of_mem g k))

-- The pair that is chosen is one of those counted.
max_from-mem : (f : Pair × ℕ) (fs : Freq) → (n : ℕ) × Mem (max_from f fs, n) (f ∷ fs)
max_from-mem (p, n) [] = (n, mem-cons_self)
max_from-mem (p, n) ((q, k) ∷ fs) = elim (Bool-cases (leb n k)) [
  | inl e ↦ let (i, m) = max_from-mem (q, k) fs in (i, rw (e, max_from) (mem-cons_of_mem (p, n) m))
  | inr e ↦ let (i, m) = max_from-mem (p, n) fs in (i, rw (e, max_from) (mem_skip m))
]

best_pair-mem : (fs : Freq) (p : Pair) → best_pair fs ≡ some p → (n : ℕ) × Mem (p, n) fs
unfolding best_pair
best_pair-mem [] p h = ground arith
best_pair-mem (f ∷ fs) p h =
    let (n, m) = max_from-mem f fs in let same : max_from f fs ≡ p = cc in (n, rw same at m)

-- The pair of a round occurs in the corpus.
next_pair-occurs :
    (ranged : Freq → Freq) (size : ℕ) (tr : Training) (p : Pair)
    → ((fs : Freq) → Perm (ranged fs) fs)
    → next_pair ranged size tr ≡ some p
    → occurs p tr.words ≡ true
unfolding next_pair
next_pair-occurs ranged size tr p perm h =
    let counted = pair_freq tr.words [] in
    let best : best_pair (ranged counted) ≡ some p = ground arith in
    let (n, m) = best_pair-mem (ranged counted) p best in
    AllPass-mem (λ q. occurs q tr.words) p n counted
      (pair_freq-AllPass (λ q. occurs q tr.words) tr.words [] (λ q e. e) tt)
      ((Perm.mem_iff (perm counted)).0 m)

-- Merging a pair that occurs in a word makes the word shorter.
merge_from-shrinks :
    (left right merged t : Text) (ts : List Text)
    → is_among (left, right) (windows (t ∷ ts)) ≡ true
    → length (merge_from left right merged t ts) < 1 + length ts
unfolding merge_from is_among windows
merge_from-shrinks left right merged t [] h = ground arith
merge_from-shrinks left right merged t (u ∷ ts) h = ground (
  arith,
  length-merge_from left right merged merged ts,
  merge_from-shrinks left right merged u ts,
)

merge_pair-shrinks :
    (left right merged : Text) (word : List Text)
    → (length (merge_pair left right merged word) ≤ length word)
      × (is_among (left, right) (windows word) ≡ true
          → length (merge_pair left right merged word) < length word)
unfolding merge_pair is_among windows
merge_pair-shrinks left right merged [] = ground arith
merge_pair-shrinks left right merged (t ∷ ts) = (
  ground (arith, length-merge_from left right merged t ts),
  λ h. ground (arith, merge_from-shrinks left right merged t ts h),
)

count_corpus-shrinks :
    (left right merged : Text) (words : List (List Text))
    → (count_corpus (map (merge_pair left right merged) words) ≤ count_corpus words)
      × (occurs (left, right) words ≡ true
          → count_corpus (map (merge_pair left right merged) words) < count_corpus words)
unfolding occurs
count_corpus-shrinks left right merged [] = ground arith
count_corpus-shrinks left right merged (word ∷ words) =
    let one = merge_pair-shrinks left right merged word in
    let rest = count_corpus-shrinks left right merged words in
    (omega (arith, one.0, rest.0), λ h. ground (arith, one, rest, h))

count_pair-cons : (p : Pair) (fs : Freq) → count_pair p fs ≢ []
unfolding count_pair
count_pair-cons p [] h = ground arith
count_pair-cons p ((q, n) ∷ fs) h = ground arith

count_pairs-nil : (ps : List Pair) (fs : Freq) → count_pairs ps fs ≡ [] → (ps ≡ []) × (fs ≡ [])
unfolding count_pairs
count_pairs-nil [] fs h = (refl, h)
count_pairs-nil (p ∷ ps) fs h =
    absurd (count_pair-cons p fs (count_pairs-nil ps (count_pair p fs) h).1)

-- If nothing is counted, no pair occurs.
pair_freq-nil :
    (words : List (List Text)) (fs : Freq)
    → pair_freq words fs ≡ []
    → (fs ≡ []) × ((p : Pair) → occurs p words ≡ false)
unfolding pair_freq occurs is_among
pair_freq-nil [] fs h = (h, λ p. refl)
pair_freq-nil (word ∷ words) fs h =
    let (counted, others) = pair_freq-nil words (count_pairs (windows word) fs) h in
    let (none_here, start) = count_pairs-nil (windows word) fs counted in
    (start, λ p. rw none_here (others p))

best_pair-none : (fs : Freq) → best_pair fs ≡ none → fs ≡ []
unfolding best_pair
best_pair-none [] h = refl
best_pair-none (f ∷ fs) h = ground arith

perm_nil : {gs fs : Freq} → Perm gs fs → gs ≡ [] → fs ≡ []
perm_nil p e = Perm.eq-nil (Perm.symm (rw e at p))

module _ (ranged : Freq → Freq) (perm : (fs : Freq) → Perm (ranged fs) fs) (size : ℕ) where
  learn-shrinks :
      (p : Pair) (tr : Training)
      → next_pair ranged size tr ≡ some p
      → count_corpus (learn p tr).words < count_corpus tr.words
  unfolding learn
  learn-shrinks (left, right) tr h =
      (count_corpus-shrinks left right (left ++ right) tr.words).1
        (next_pair-occurs ranged size tr (left, right) perm h)

  next_pair-none :
      (tr : Training)
      → next_pair ranged size tr ≡ none
      → (size ≤ length tr.tok.vocab) ⊎ ((p : Pair) → occurs p tr.words ≡ false)
  unfolding next_pair
  next_pair-none tr h = elim (Bool-cases (ltb (length tr.tok.vocab) size)) [
    | inl e ↦ inr (
        (pair_freq-nil tr.words []
          (perm_nil (perm (pair_freq tr.words [])) (best_pair-none _ (ground (arith, h, e))))).1)
    | inr e ↦ inl (ground arith)
  ]

  train_loop-ends :
      (fuel : ℕ) (tr : Training)
      → count_corpus tr.words < fuel
      → next_pair ranged size (train_loop ranged size fuel tr) ≡ none
  unfolding train_loop
  train_loop-ends zero tr h = absurd (omega arith)
  train_loop-ends (suc fuel) tr h = elim (Option-cases (next_pair ranged size tr)) [
    | inl e ↦ rw (e, train_loop) e
    | inr (p, e) ↦
        rw (e, train_loop) (train_loop-ends fuel (learn p tr) (omega (arith, learn-shrinks p tr e)))
  ]

  -- Whatever order the pairs are visited in, training a tokenizer on a text ends by itself: the
  -- vocabulary has reached its size, or no pair is left in the corpus.
  pub run-ends :
      (text : Text) (tok : BpeTokenizer)
      → let tr = run ranged text size tok in
        (size ≤ length tr.tok.vocab) ⊎ ((p : Pair) → occurs p tr.words ≡ false)
  unfolding run
  run-ends text tok =
      let tr = begin text tok in
      next_pair-none (train_loop ranged size (suc (count_corpus tr.words)) tr)
        (train_loop-ends (suc (count_corpus tr.words)) tr (omega arith))
