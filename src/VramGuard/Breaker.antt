-- ===== src/VramGuard/Breaker.antt =====
-- The circuit breaker: what one poll does to it, and what a run of polls can and cannot do.
use distri_inference_sidecar.Prelude.{
  ℕ, ◌≡◌, refl, Bool, true, false, not, ◌&&◌, ◌||◌, List, [], ◌∷◌, ◌⊎◌, arith, if◌then◌else◌, inl,
  inr, Bool-cases,
}
use distri_inference_sidecar.Errors.{Fallible, ok, err}
use distri_inference_sidecar.Float.{Float64, IsIeee}
use distri_inference_sidecar.VramGuard.{Config, Guard, percent, close_threshold, poll_once, polls}

module _ (fl : Float64) where
  open fl use {F, le, lt, sub, mul, div, of_ℕ}

  -- The threshold for closing, as the configuration is meant: the configured one if it is positive,
  -- and else the upper one less 5 points, or 0 if that is negative.
  abbrev pub ClosesAt : Config F → F → Type 0
  ClosesAt cfg t =
      ((le cfg.close_threshold_pct (of_ℕ 0) ≡ false) × (t ≡ cfg.close_threshold_pct))
      ⊎ ((le cfg.close_threshold_pct (of_ℕ 0) ≡ true)
          × (lt (sub cfg.oom_threshold_pct (of_ℕ 5)) (of_ℕ 0) ≡ false)
          × (t ≡ sub cfg.oom_threshold_pct (of_ℕ 5)))
      ⊎ ((le cfg.close_threshold_pct (of_ℕ 0) ≡ true)
          × (lt (sub cfg.oom_threshold_pct (of_ℕ 5)) (of_ℕ 0) ≡ true)
          × (t ≡ of_ℕ 0))

  -- What a poll leaves behind, on each of its branches: a failed reading, or one whose total is not
  -- positive, changes no field but the metrics. Any other one is stored, and the circuit is open
  -- afterwards exactly if the usage in percent has reached the upper threshold, or if the circuit
  -- was open and the usage is not at or below the closing threshold.
  abbrev pub Polled : Fallible (F × F) → Guard F → Guard F → Type 0
  Polled (err e) g g' =
      (g'.circuit_open ≡ g.circuit_open) × (g'.used_mb ≡ g.used_mb) × (g'.total_mb ≡ g.total_mb)
  Polled (ok (used, total)) g g' =
      ((le total (of_ℕ 0) ≡ true)
        × (g'.circuit_open ≡ g.circuit_open)
        × (g'.used_mb ≡ g.used_mb)
        × (g'.total_mb ≡ g.total_mb))
      ⊎ ((le total (of_ℕ 0) ≡ false)
          × ((t : F) × ClosesAt g.cfg t
              × (g'.circuit_open ≡ (
                  le g.cfg.oom_threshold_pct (mul (div used total) (of_ℕ 100))
                  || g.circuit_open && not (le (mul (div used total) (of_ℕ 100)) t))))
          × (g'.used_mb ≡ used)
          × (g'.total_mb ≡ total))

  circuit-judged :
      (us : ℕ) (used total : F) (g : Guard F)
      → le total (of_ℕ 0) ≡ false
      → (poll_once fl (us, ok (used, total)) g).circuit_open ≡ (
          le g.cfg.oom_threshold_pct (percent fl used total)
          || g.circuit_open && not (le (percent fl used total) (close_threshold fl g.cfg)))
  unfolding poll_once
  circuit-judged us used total g z = ground arith

  kept-poll_once :
      (us : ℕ) (used total : F) (g : Guard F)
      → le total (of_ℕ 0) ≡ true
      → ((poll_once fl (us, ok (used, total)) g).circuit_open ≡ g.circuit_open)
        × ((poll_once fl (us, ok (used, total)) g).used_mb ≡ g.used_mb)
        × ((poll_once fl (us, ok (used, total)) g).total_mb ≡ g.total_mb)
  unfolding poll_once
  kept-poll_once us used total g z = ground arith

  stored-poll_once :
      (us : ℕ) (used total : F) (g : Guard F)
      → le total (of_ℕ 0) ≡ false
      → ((poll_once fl (us, ok (used, total)) g).used_mb ≡ used)
        × ((poll_once fl (us, ok (used, total)) g).total_mb ≡ total)
  unfolding poll_once
  stored-poll_once us used total g z = ground arith

  -- A reading that reaches the upper threshold, and one that does not and is low enough to close.
  abbrev pub is_hot : Config F → Fallible (F × F) → Bool
  is_hot cfg (err e) = false
  is_hot cfg (ok (used, total)) =
      if le total (of_ℕ 0) then false else le cfg.oom_threshold_pct (percent fl used total)

  abbrev pub is_cool : Config F → Fallible (F × F) → Bool
  is_cool cfg (err e) = false
  is_cool cfg (ok (used, total)) =
      if le total (of_ℕ 0) || le cfg.oom_threshold_pct (percent fl used total)
      then false
      else le (percent fl used total) (close_threshold fl cfg)

  abbrev pub None : (Fallible (F × F) → Bool) → List (ℕ × Fallible (F × F)) → Type 0
  None p [] = Unit
  None p ((us, reading) ∷ ps) = (p reading ≡ false) × None p ps

  cfg-poll_once : (p : ℕ × Fallible (F × F)) (g : Guard F) → (poll_once fl p g).cfg ≡ g.cfg
  unfolding poll_once
  cfg-poll_once (us, err e) g = refl
  cfg-poll_once (us, ok (used, total)) g = ground arith

  pub circuit-poll_once :
      (us : ℕ) (reading : Fallible (F × F)) (g : Guard F)
      → (poll_once fl (us, reading) g).circuit_open
        ≡ (is_hot g.cfg reading || g.circuit_open && not (is_cool g.cfg reading))
  unfolding poll_once
  circuit-poll_once us (err e) g = ground arith
  circuit-poll_once us (ok (used, total)) g = ground arith

  -- A closed circuit stays closed over any polls of which none reaches the upper threshold.
  polls-stays_closed :
      (ps : List (ℕ × Fallible (F × F))) (g : Guard F)
      → g.circuit_open ≡ false
      → None (is_hot g.cfg) ps
      → (polls fl ps g).circuit_open ≡ false
  unfolding polls
  polls-stays_closed [] g c h = c
  polls-stays_closed ((us, reading) ∷ ps) g c (h, hs) =
      polls-stays_closed ps (poll_once fl (us, reading) g)
        (ground (arith, circuit-poll_once us reading g)) (rw (cfg-poll_once (us, reading) g) hs)

  -- An open circuit stays open over any polls of which none is low enough to close it: failed
  -- readings and readings between the two thresholds do not.
  polls-stays_open :
      (ps : List (ℕ × Fallible (F × F))) (g : Guard F)
      → g.circuit_open ≡ true
      → None (is_cool g.cfg) ps
      → (polls fl ps g).circuit_open ≡ true
  unfolding polls
  polls-stays_open [] g c h = c
  polls-stays_open ((us, reading) ∷ ps) g c (h, hs) =
      polls-stays_open ps (poll_once fl (us, reading) g)
        (ground (arith, circuit-poll_once us reading g)) (rw (cfg-poll_once (us, reading) g) hs)

module _ (fl : Float64) (ieee : IsIeee fl) where
  open fl use {F, le, lt, of_ℕ}

  -- A closing threshold that is not at or below zero is used as it is.
  pub close_threshold-configured :
      (cfg : Config F)
      → le cfg.close_threshold_pct (of_ℕ 0) ≡ false
      → close_threshold fl cfg ≡ cfg.close_threshold_pct
  unfolding close_threshold
  close_threshold-configured cfg h = ground (arith, ieee.lt_iff cfg.close_threshold_pct (of_ℕ 0))

  -- The closing threshold in use is never negative, whatever is configured.
  close_threshold-nonneg : (cfg : Config F) → lt (close_threshold fl cfg) (of_ℕ 0) ≡ false
  unfolding close_threshold
  close_threshold-nonneg cfg = ground (arith, ieee.lt_iff (of_ℕ 0) (of_ℕ 0))

  close_threshold-ClosesAt : (cfg : Config F) → ClosesAt fl cfg (close_threshold fl cfg)
  unfolding close_threshold
  close_threshold-ClosesAt cfg = ground (arith, ieee.lt_iff cfg.close_threshold_pct (of_ℕ 0))

  -- Every poll ends in one of the ways that `Polled` lists: a failed reading, or one whose total is
  -- not positive, changes no field but the metrics; any other one is stored, and then the circuit
  -- is open exactly if the usage in percent is at or above the upper threshold, or if the circuit
  -- was open and the usage is not at or below the closing one, which is the configured one if that
  -- is positive, and else 5 points below the upper one, or 0 if that is negative. The comparisons
  -- are taken to be those of IEEE 754.
  pub poll_once-Polled :
      (us : ℕ) (reading : Fallible (F × F)) (g : Guard F)
      → Polled fl reading g (poll_once fl (us, reading) g)
  unfolding poll_once
  poll_once-Polled us (err e) g = ground arith
  poll_once-Polled us (ok (used, total)) g = elim (Bool-cases (le total (of_ℕ 0))) [
    | inl z ↦ let same = kept-poll_once fl us used total g z in inl (z, same.0, same.1, same.2)
    | inr z ↦
        let read = stored-poll_once fl us used total g z in
        inr (
          z,
          (
            close_threshold fl g.cfg,
            close_threshold-ClosesAt g.cfg,
            circuit-judged fl us used total g z,
          ),
          read.0,
          read.1,
        )
  ]

  -- With the thresholds in order, a poll that closes the circuit has read a usage at or below the
  -- configured closing threshold and below the upper one, which no poll that opens it has read.
  polls-band :
      (us : ℕ) (used total : F) (g : Guard F)
      → le g.cfg.close_threshold_pct (of_ℕ 0) ≡ false
      → g.circuit_open ≡ true
      → (poll_once fl (us, ok (used, total)) g).circuit_open ≡ false
      → (le (percent fl used total) g.cfg.close_threshold_pct ≡ true)
        × (le g.cfg.oom_threshold_pct (percent fl used total) ≡ false)
  polls-band us used total g p c h =
      ground (arith, circuit-poll_once fl us (ok (used, total)) g, close_threshold-configured g.cfg)

  pub nan_le : (a x : F) → le a a ≡ false → le a x ≡ false
  nan_le a x h = ground (arith, ieee.le_self_left a x)

  nan_not_hot :
      (cfg : Config F) (ps : List (ℕ × Fallible (F × F)))
      → le cfg.oom_threshold_pct cfg.oom_threshold_pct ≡ false
      → None fl (is_hot fl cfg) ps
  nan_not_hot cfg [] h = tt
  nan_not_hot cfg ((us, err e) ∷ ps) h = (refl, nan_not_hot cfg ps h)
  nan_not_hot cfg ((us, ok (used, total)) ∷ ps) h =
      (ground (arith, nan_le cfg.oom_threshold_pct (percent fl used total)), nan_not_hot cfg ps h)

  -- If the upper threshold is a NaN, the circuit of a new guard never opens, whatever is read.
  pub polls-nan :
      (ps : List (ℕ × Fallible (F × F))) (g : Guard F)
      → g.circuit_open ≡ false
      → le g.cfg.oom_threshold_pct g.cfg.oom_threshold_pct ≡ false
      → (polls fl ps g).circuit_open ≡ false
  polls-nan ps g c h = polls-stays_closed fl ps g c (nan_not_hot g.cfg ps h)
