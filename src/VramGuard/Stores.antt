-- ===== src/VramGuard/Stores.antt =====
-- internal/vramguard/vramguard.go: pollOnce as its stores to the atomic fields, which GetUsage and
-- IsOpen load at any moments.
pub mod Loads
use distri_inference_sidecar.Prelude.{
  ℕ, zero, suc, ◌+◌, ◌≤◌, ◌≡◌, refl, sym, ap, subst, ◌∙◌, Bool, true, false, Bool-cases, inl, inr,
  arith,
}
use distri_inference_sidecar.Errors.{GoError, Fallible, ok, err}
use distri_inference_sidecar.Float.{Float64}
use distri_inference_sidecar.VramGuard.{
  Guard, observe_poll, percent, judge, apply_reading, poll_once,
}

-- Where pollOnce stands: between two polls, or behind its first or second store.
pub data Storing (F : Type 0) : Type 0 where
  between : Storing F
  stored_used stored_total : ℕ → F → F → Storing F

-- The guard with the number of polls that are over.
pub record Memory (F : Type 0) : Type 0 where
  pub guard : Guard F
  pub over : ℕ
  pub storing : Storing F

module _ (fl : Float64) where
  open fl use {F, le, of_ℕ}

  -- The polls, by what the reader returns in each.
  abbrev pub Polls : Type 0
  Polls = ℕ → ℕ × Fallible (F × F)

  -- The guard after so many polls, each in one piece.
  unfoldable pub after_polls : Polls → Guard F → ℕ → Guard F
  unfolding poll_once
  after_polls ps g zero = g
  after_polls ps g (suc n) = poll_once fl (ps n) (after_polls ps g n)

pub data Step (fl : Float64) (ps : ℕ → ℕ × Fallible (fl.F × fl.F)) (m : Memory fl.F)
    : Memory fl.F → Type 0 where
  fails :
      (us : ℕ) (e : GoError)
      → m.storing ≡ between
      → ps m.over ≡ (us, err e)
      → Step fl ps m (record m { guard = poll_once fl (us, err e) m.guard; over = suc m.over })
  skips :
      (us : ℕ) (used total : fl.F)
      → m.storing ≡ between
      → ps m.over ≡ (us, ok (used, total))
      → fl.le total (fl.of_ℕ 0) ≡ true
      → Step fl ps m (record m {
        guard = record m.guard { metrics = observe_poll fl us m.guard.metrics };
        over = suc m.over;
      })
  stores_used :
      (us : ℕ) (used total : fl.F)
      → m.storing ≡ between
      → ps m.over ≡ (us, ok (used, total))
      → fl.le total (fl.of_ℕ 0) ≡ false
      → Step fl ps m (record m {
        guard = record m.guard { metrics = observe_poll fl us m.guard.metrics; used_mb = used };
        storing = stored_used us used total;
      })
  stores_total :
      (us : ℕ) (used total : fl.F)
      → m.storing ≡ stored_used us used total
      → Step fl ps m (record m {
        guard = record m.guard { total_mb = total };
        storing = stored_total us used total;
      })
  judges :
      (us : ℕ) (used total : fl.F)
      → m.storing ≡ stored_total us used total
      → Step fl ps m (record m {
        guard = judge fl (percent fl used total) m.guard;
        over = suc m.over;
        storing = between;
      })

pub data Reach (fl : Float64) (ps : ℕ → ℕ × Fallible (fl.F × fl.F)) (m : Memory fl.F)
    : Memory fl.F → Type 0 where
  here : Reach fl ps m m
  next : {p q : Memory fl.F} → Reach fl ps m p → Step fl ps p q → Reach fl ps m q

abbrev pub at_start : {F : Type 0} → Guard F → Memory F
at_start g = record { guard = g; over = 0; storing = between }
