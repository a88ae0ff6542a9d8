-- ===== src/VramGuard/Stores/Loads.antt =====
-- What loads get while the guard polls.
use distri_inference_sidecar.Prelude.{
  ℕ, zero, suc, ◌+◌, ◌≤◌, ◌≡◌, refl, sym, ap, subst, ◌∙◌, false, ◌⊎◌, inl, inr, Bool-cases, arith,
}
use distri_inference_sidecar.Errors.{GoError, Fallible, ok, err}
use distri_inference_sidecar.Float.{Float64}
use distri_inference_sidecar.VramGuard.{
  Guard, observe_poll, percent, judge, apply_reading, poll_once,
}
use distri_inference_sidecar.VramGuard.Stores.{
  Storing, between, stored_used, stored_total, Memory, after_polls, Step, fails, skips, stores_used,
  stores_total, judges, Reach, here, next, at_start,
}

-- Of how many polls a load gets the value: of those that are over, and of the one in progress if
-- its store is made.
abbrev pub used_index : {F : Type 0} → Memory F → ℕ
used_index m = elim m.storing [
  | between ↦ m.over
  | stored_used us used total ↦ suc m.over
  | stored_total us used total ↦ suc m.over
]

abbrev pub total_index : {F : Type 0} → Memory F → ℕ
total_index m = elim m.storing [
  | between ↦ m.over
  | stored_used us used total ↦ m.over
  | stored_total us used total ↦ suc m.over
]

module _ (fl : Float64) (ps : ℕ → ℕ × Fallible (fl.F × fl.F)) (g₀ : Guard fl.F) where
  open fl use {F, le, of_ℕ}

  reading_cases :
      (p : ℕ × Fallible (F × F))
      → ((us : ℕ) × (x : GoError) × (p ≡ (us, err x)))
        ⊎ ((us : ℕ) × (used : F) × (total : F) × (p ≡ (us, ok (used, total))))
  reading_cases (us, err x) = inl (us, x, refl)
  reading_cases (us, ok (used, total)) = inr (us, used, total, refl)

  abbrev upto : ℕ → Guard F
  upto n = after_polls fl ps g₀ n

  -- The memory against the polls in one piece.
  abbrev Fits : ℕ → Storing F → Guard F → Type 0
  Fits n between g = g ≡ upto n
  Fits n (stored_used us used total) g =
      (ps n ≡ (us, ok (used, total)))
      × (le total (of_ℕ 0) ≡ false)
      × (g ≡ record (upto n) { metrics = observe_poll fl us (upto n).metrics; used_mb = used })
  Fits n (stored_total us used total) g =
      (ps n ≡ (us, ok (used, total)))
      × (le total (of_ℕ 0) ≡ false)
      × (g ≡ record (upto n) {
        metrics = observe_poll fl us (upto n).metrics;
        used_mb = used;
        total_mb = total;
      })

  abbrev IsFit : Memory F → Type 0
  IsFit m = Fits m.over m.storing m.guard

  poll_read :
      (n us : ℕ) (used total : F)
      → ps n ≡ (us, ok (used, total))
      → le total (of_ℕ 0) ≡ false
      → upto (suc n)
        ≡ judge fl (percent fl used total) (record (upto n) {
          metrics = observe_poll fl us (upto n).metrics;
          used_mb = used;
          total_mb = total;
        })
  unfolding after_polls poll_once apply_reading
  poll_read n us used total e h = rw e (rw h refl)

  Step-IsFit : {m q : Memory F} → Step fl ps m q → IsFit m → IsFit q
  unfolding after_polls poll_once apply_reading
  Step-IsFit {m} (fails us e a b) h =
      let same : m.guard ≡ upto m.over = subst (λ s. Fits m.over s m.guard) a h in
      subst (λ s. Fits (suc m.over) s (poll_once fl (us, err e) m.guard)) (sym a)
        (rw b (ap (poll_once fl (us, err e)) same))
  Step-IsFit {m} (skips us used total a b z) h =
      let same : m.guard ≡ upto m.over = subst (λ s. Fits m.over s m.guard) a h in
      subst
        (λ s. Fits (suc m.over) s (record m.guard { metrics = observe_poll fl us m.guard.metrics }))
        (sym a)
        (rw b (
          rw z (
            ap {A = Guard F} {B = Guard F}
              (λ g. record g { metrics = observe_poll fl us g.metrics }) same)))
  Step-IsFit {m} (stores_used us used total a b z) h =
      let same : m.guard ≡ upto m.over = subst (λ s. Fits m.over s m.guard) a h in
      (
        b,
        z,
        ap {A = Guard F} {B = Guard F}
            (λ g. record g { metrics = observe_poll fl us g.metrics; used_mb = used }) same,
      )
  Step-IsFit {m} (stores_total us used total a) h =
      let (b, z, same) = subst (λ s. Fits m.over s m.guard) a h in
      (b, z, ap {A = Guard F} {B = Guard F} (λ g. record g { total_mb = total }) same)
  Step-IsFit {m} (judges us used total a) h =
      let (b, z, same) = subst (λ s. Fits m.over s m.guard) a h in
      ap (judge fl (percent fl used total)) same ∙ sym (poll_read m.over us used total b z)

  Reach-IsFit : {m q : Memory F} → Reach fl ps m q → IsFit m → IsFit q
  Reach-IsFit here h = h
  Reach-IsFit (next r st) h = Step-IsFit st (Reach-IsFit r h)

  judge-readings :
      (pct : F) (g : Guard F)
      → ((judge fl pct g).used_mb ≡ g.used_mb) × ((judge fl pct g).total_mb ≡ g.total_mb)
  unfolding judge
  judge-readings pct g = (ground arith, ground arith)

  -- What each load gets, by the position of the poll in progress.
  used-load :
      (n : ℕ) (s : Storing F) (g : Guard F)
      → Fits n s g
      → g.used_mb ≡ (upto (used_index (record { guard = g; over = n; storing = s }))).used_mb
  used-load n between g h = ap (λ k. k.used_mb) h
  used-load n (stored_used us used total) g (b, z, same) =
      ap (λ k. k.used_mb) same
      ∙ sym (
          ap (λ k. k.used_mb) (poll_read n us used total b z)
          ∙ (judge-readings (percent fl used total) _).0)
  used-load n (stored_total us used total) g (b, z, same) =
      ap (λ k. k.used_mb) same
      ∙ sym (
          ap (λ k. k.used_mb) (poll_read n us used total b z)
          ∙ (judge-readings (percent fl used total) _).0)

  total-load :
      (n : ℕ) (s : Storing F) (g : Guard F)
      → Fits n s g
      → g.total_mb ≡ (upto (total_index (record { guard = g; over = n; storing = s }))).total_mb
  total-load n between g h = ap (λ k. k.total_mb) h
  total-load n (stored_used us used total) g (b, z, same) = ap (λ k. k.total_mb) same
  total-load n (stored_total us used total) g (b, z, same) =
      ap (λ k. k.total_mb) same
      ∙ sym (
          ap (λ k. k.total_mb) (poll_read n us used total b z)
          ∙ (judge-readings (percent fl used total) _).1)

  open-load :
      (n : ℕ) (s : Storing F) (g : Guard F) → Fits n s g → g.circuit_open ≡ (upto n).circuit_open
  open-load n between g h = ap (λ k. k.circuit_open) h
  open-load n (stored_used us used total) g (b, z, same) = ap (λ k. k.circuit_open) same
  open-load n (stored_total us used total) g (b, z, same) = ap (λ k. k.circuit_open) same

  over-Step : {m q : Memory F} → Step fl ps m q → m.over ≤ q.over
  over-Step (fails us e a b) = omega arith
  over-Step (skips us used total a b z) = omega arith
  over-Step (stores_used us used total a b z) = omega arith
  over-Step (stores_total us used total a) = omega arith
  over-Step (judges us used total a) = omega arith

  over-Reach : {m q : Memory F} → Reach fl ps m q → m.over ≤ q.over
  over-Reach here = omega arith
  over-Reach (next r st) = omega (arith, over-Reach r, over-Step st)

  index-bounds :
      (m : Memory F)
      → (m.over ≤ used_index m)
        × (used_index m ≤ m.over + 1)
        × (m.over ≤ total_index m)
        × (total_index m ≤ m.over + 1)
  index-bounds m = (ground arith, ground arith, ground arith, ground arith)

  -- What three loads get that are made one after the other while the guard polls: the values of the
  -- guard after some numbers of polls, of which each is at least that of the polls over at the load,
  -- and less than the one before by at most one.
  pub loads :
      {k m q : Memory F}
      → Reach fl ps (at_start g₀) k
      → Reach fl ps k m
      → Reach fl ps m q
      → (a b c : ℕ) × (k.guard.used_mb ≡ (upto a).used_mb)
        × (m.guard.total_mb ≡ (upto b).total_mb)
        × (q.guard.circuit_open ≡ (upto c).circuit_open)
        × ((k.over ≤ a) × (a ≤ b + 1))
        × ((m.over ≤ b) × (b ≤ c + 1))
        × (q.over ≤ c)
  unfolding after_polls
  loads {k} {m} {q} r s t =
      let at_k = Reach-IsFit r refl in
      let at_m = Reach-IsFit s at_k in
      let at_q = Reach-IsFit t at_m in
      let bounds_k = index-bounds k in
      let bounds_m = index-bounds m in
      (
        used_index k,
        total_index m,
        q.over,
        used-load k.over k.storing k.guard at_k,
        total-load m.over m.storing m.guard at_m,
        open-load q.over q.storing q.guard at_q,
        (bounds_k.0, omega (arith, over-Reach s)),
        (bounds_m.2, omega (arith, over-Reach t)),
        omega arith,
      )

  -- The polls that are over can be any number of them.
  pub whole_polls :
      (n : ℕ) → Reach fl ps (at_start g₀) (record { guard = upto n; over = n; storing = between })
  unfolding after_polls poll_once apply_reading
  whole_polls zero = here
  whole_polls (suc n) =
      let before = whole_polls n in
      elim (reading_cases (ps n)) [
        | inl (us, x, e) ↦ rw e (next before (fails us x refl e))
        | inr (us, used, total, e) ↦ elim (Bool-cases (le total (of_ℕ 0))) [
          | inl z ↦ rw (e, z) (next before (skips us used total refl e z))
          | inr z ↦
              rw (e, z)
                (next
                  (next (next before (stores_used us used total refl e z))
                    (stores_total us used total refl))
                  (judges us used total refl))
        ]
      ]
