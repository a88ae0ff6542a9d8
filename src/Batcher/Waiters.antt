-- ===== src/Batcher/Waiters.antt =====
-- The map of waiters that flushBatch builds stands for the list of requests that still wait: filing
-- a request adds it at the list's end, and popping an ID's entry removes its first waiter.
use mathlib.Core.List.{map-append, append_assoc, append-nil, perm_middle, perm-cons}
use mathlib.Core.List.{perm_append_singleton, Permᴰ, Perm-prop}
use mathlib.Core.List.Perm
use mathlib.Core.Logic.{∥∥₁_elim}
use distri_inference_sidecar.Prelude.{
  ◌≡◌, refl, sym, ap, subst, ◌∙◌, List, [], ◌∷◌, ◌++◌, map, Perm, Bytes, bytes_eq, bytes_eq_iff,
  Bool-cases, inl, inr, if◌then◌else◌, arith, swap_blocks,
}
use distri_inference_sidecar.Batcher.Types.{Request}
use distri_inference_sidecar.Batcher.ReqMap.{ReqMap, get, put, group, group_from}

-- The waiters for an ID, in the batch's order.
unfoldable pub with_id : Bytes → List Request → List Request
with_id k [] = []
with_id k (r ∷ rs) = let rest = with_id k rs in if bytes_eq r.id k then r ∷ rest else rest

-- The requests without the first one that has an ID.
unfoldable pub without : Bytes → List Request → List Request
without k [] = []
without k (r ∷ rs) = let rest = without k rs in if bytes_eq r.id k then rs else r ∷ rest

-- The waiters of all entries, each under its entry's key.
unfoldable pub waiting : ReqMap → List (Bytes × Request)
waiting [] = []
waiting ((k, rs) ∷ m) = map (λ r. (k, r)) rs ++ waiting m

abbrev pub keyed : List Request → List (Bytes × Request)
keyed = map (λ r. (r.id, r))

-- The map `m` stands for the requests `rs`: an ID's entry lists its waiters in the batch's order,
-- and the entries together hold each request once, under its ID.
pub record Represents (m : ReqMap) (rs : List Request) : Type 0 where
  pub queues : (k : Bytes) → get k m ≡ with_id k rs
  pub all : Perm (waiting m) (keyed rs)

get-put :
    (k j : Bytes) (v : List Request) (m : ReqMap)
    → get j (put k v m) ≡ (if bytes_eq k j then v else get j m)
unfolding get put
get-put k j v [] = refl
get-put k j v ((i, w) ∷ m) =
    ground (arith, bytes_eq_iff k j, bytes_eq_iff i k, bytes_eq_iff i j, get-put k j v m)

waiting-pop :
    (k : Bytes) (r : Request) (rs : List Request) (m : ReqMap)
    → get k m ≡ r ∷ rs
    → Perm (waiting m) ((k, r) ∷ waiting (put k rs m))
unfolding get put waiting
waiting-pop k r rs [] h = cc
waiting-pop k r rs ((j, w) ∷ m) h = elim (Bool-cases (bytes_eq j k)) [
  | inl hit ↦
      let e : w ≡ r ∷ rs = ground arith in
      let same : j ≡ k = (bytes_eq_iff j k).0 hit in
      rw (hit, e) (Perm.cons' (ap (λ i. (i, r)) same) Perm.rfl)
  | inr miss ↦
      rw miss
        (Perm.trans (Perm.append_left _ (waiting-pop k r rs m (ground arith))) (perm_middle _ _))
]

waiting-push :
    (k : Bytes) (r : Request) (m : ReqMap) (rs : List Request)
    → get k m ≡ rs
    → Perm (waiting (put k (rs ++ r ∷ []) m)) ((k, r) ∷ waiting m)
unfolding get put waiting
waiting-push k r [] rs h = rw (← h) Perm.rfl
waiting-push k r ((j, w) ∷ m) rs h = elim (Bool-cases (bytes_eq j k)) [
  | inl hit ↦
      let e : w ≡ rs = ground arith in
      let same : j ≡ k = (bytes_eq_iff j k).0 hit in
      rw (hit, ← e, same, map-append)
        (Perm.append_right (waiting m) (perm_append_singleton (k, r) (map (λ q. (k, q)) w)))
  | inr miss ↦
      rw miss
        (Perm.trans (Perm.append_left _ (waiting-push k r m rs (ground arith))) (perm_middle _ _))
]

with_id-append :
    (k : Bytes) (rs : List Request) (r : Request)
    → with_id k (rs ++ r ∷ []) ≡ (if bytes_eq r.id k then with_id k rs ++ r ∷ [] else with_id k rs)
unfolding with_id
with_id-append k [] r = refl
with_id-append k (q ∷ rs) r = ground (arith, with_id-append k rs r)

push-Represents :
    (m : ReqMap) (rs : List Request) (r : Request)
    → Represents m rs
    → Represents (put r.id (get r.id m ++ r ∷ []) m) (rs ++ r ∷ [])
push-Represents m rs r h = record {
  queues = λ k.
      get-put r.id k (get r.id m ++ r ∷ []) m
      ∙ ground (arith, bytes_eq_iff r.id k, h.queues r.id, h.queues k, with_id-append k rs r);
  all = Perm.trans (waiting-push r.id r m _ refl) (
      Perm.trans (Perm.cons (r.id, r) h.all)
        (rw map-append (Perm.symm (perm_append_singleton (r.id, r) (keyed rs)))));
}

group_from-Represents :
    (m : ReqMap) (before rs : List Request)
    → Represents m before
    → Represents (group_from m rs) (before ++ rs)
unfolding group_from
group_from-Represents m before [] h = rw append-nil h
group_from-Represents m before (r ∷ rs) h = subst (Represents _) (append_assoc before (r ∷ []) rs) (
    group_from-Represents (put r.id (get r.id m ++ r ∷ []) m) (before ++ r ∷ []) rs
      (push-Represents m before r h))

pub group-Represents : (rs : List Request) → Represents (group rs) rs
unfolding group get with_id waiting
group-Represents rs = group_from-Represents [] [] rs (record { queues = λ k. refl; all = Perm.nil })

pub with_id-without :
    (k j : Bytes) (rs : List Request) (r : Request) (more : List Request)
    → with_id k rs ≡ r ∷ more
    → with_id j (without k rs) ≡ (if bytes_eq k j then more else with_id j rs)
unfolding with_id without
with_id-without k j [] r more h = cc
with_id-without k j (q ∷ rs) r more h = ground (
  arith,
  bytes_eq_iff q.id k,
  bytes_eq_iff q.id j,
  bytes_eq_iff k j,
  with_id-without k j rs r more,
)

pub without-perm :
    (k : Bytes) (rs : List Request) (r : Request) (more : List Request)
    → with_id k rs ≡ r ∷ more
    → Perm rs (r ∷ without k rs)
unfolding with_id without
without-perm k [] r more h = cc
without-perm k (q ∷ rs) r more h = elim (Bool-cases (bytes_eq q.id k)) [
  | inl hit ↦ rw hit (Perm.cons' (ground arith) Perm.rfl)
  | inr miss ↦
      rw miss (Perm.trans (Perm.cons q (without-perm k rs r more (ground arith))) (Perm.swap r q _))
]

pub with_id-id :
    (k : Bytes) (rs : List Request) (r : Request) (more : List Request)
    → with_id k rs ≡ r ∷ more
    → k ≡ r.id
unfolding with_id
with_id-id k [] r more h = cc
with_id-id k (q ∷ rs) r more h = ground (arith, bytes_eq_iff q.id k, with_id-id k rs r more)

pub pop-Represents :
    (k : Bytes) (m : ReqMap) (rs : List Request) (r : Request) (more : List Request)
    → Represents m rs
    → get k m ≡ r ∷ more
    → Represents (put k more m) (without k rs)
pop-Represents k m rs r more h e =
    let first : with_id k rs ≡ r ∷ more = sym (h.queues k) ∙ e in
    record {
      queues =
          λ j. get-put k j more m ∙ ground (arith, h.queues j, with_id-without k j rs r more first);
      all = (perm-cons (r.id, r)).0 (
          Perm.trans
            (subst (λ j. Perm ((j, r) ∷ waiting (put k more m)) (waiting m))
              (with_id-id k rs r more first) (Perm.symm (waiting-pop k r more m e)))
            (Perm.trans h.all (Perm.map _ (without-perm k rs r more first))));
    }

-- The order of a map's entries does not change who waits.
waiting-permᴰ : {m n : ReqMap} → Permᴰ m n → Perm (waiting m) (waiting n)
unfolding waiting
waiting-permᴰ Permᴰ.nil = Perm.nil
waiting-permᴰ (Permᴰ.cons e p) = rw e (Perm.append_left _ (waiting-permᴰ p))
waiting-permᴰ (Permᴰ.swap {a = x} {b = y} {a' = x'} {b' = y'} {l = l} e f) =
    rw (← e, ← f) (swap_blocks (map (λ r. (x.0, r)) x.1) (map (λ r. (y.0, r)) y.1) (waiting l))
waiting-permᴰ (Permᴰ.trans p q) = Perm.trans (waiting-permᴰ p) (waiting-permᴰ q)

pub waiting-perm : {m n : ReqMap} → Perm m n → Perm (waiting m) (waiting n)
waiting-perm p = ∥∥₁_elim p Perm-prop waiting-permᴰ
