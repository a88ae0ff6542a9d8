-- ===== src/GrpcServer/Health.antt =====
-- internal/grpcserver/server.go: HealthCheck as its three loads, between which the guard may poll.
use distri_inference_sidecar.Prelude.{ℕ, ◌+◌, ◌≤◌, ◌≡◌, refl, false, not}
use distri_inference_sidecar.Errors.{Fallible, ok}
use distri_inference_sidecar.Float.{Float64}
use distri_inference_sidecar.VramGuard.{Guard, get_usage, is_open}
use distri_inference_sidecar.VramGuard.Stores.{
  Memory, after_polls, Reach, here, next, at_start, stores_used, stores_total,
}
use distri_inference_sidecar.VramGuard.Stores.Loads.{loads, whole_polls}
use distri_inference_sidecar.GrpcServer.{HealthResponse}

-- The guard as GetUsage loads the used memory and then the total, and as IsOpen loads the circuit.
unfoldable pub health_loads :
    (fl : Float64) → (fl.F → fl.F) → Guard fl.F → Guard fl.F → Guard fl.F → HealthResponse fl.F
health_loads fl float32 at_used at_total at_open = record {
  healthy = not (is_open fl at_open);
  vram_used_mb = float32 (get_usage fl at_used).0;
  vram_total_mb = float32 (get_usage fl at_total).1;
}

-- While the guard polls, HealthCheck reports values of the guard after some whole polls, of which
-- each is at least as late as the last poll that was over at its load; the total lags behind the
-- used memory by at most one poll, and the circuit behind the total by at most one.
pub health_loads-polls :
    (fl : Float64) (float32 : fl.F → fl.F) (ps : ℕ → ℕ × Fallible (fl.F × fl.F)) (g : Guard fl.F)
    {k m q : Memory fl.F}
    → Reach fl ps (at_start g) k
    → Reach fl ps k m
    → Reach fl ps m q
    → (a b c : ℕ) × (health_loads fl float32 k.guard m.guard q.guard
        ≡ health_loads fl float32
            (after_polls fl ps g a)
            (after_polls fl ps g b)
            (after_polls fl ps g c))
      × ((k.over ≤ a) × (a ≤ b + 1))
      × ((m.over ≤ b) × (b ≤ c + 1))
      × (q.over ≤ c)
unfolding health_loads
health_loads-polls fl float32 ps g r s t =
    let (a, b, c, used, total, circuit, first, second, third) = loads fl ps g r s t in
    (a, b, c, rw (used, total, circuit), first, second, third)

-- HealthCheck can mix two polls: for every poll that gets a reading with a positive total, there is
-- a moment behind the polls before it at which HealthCheck reports the used memory of that reading
-- with the total and the circuit from before it; and one, a store later, at which it reports the
-- used memory and the total of that reading with the circuit from before it.
pub health_loads-mixed :
    (fl : Float64) (float32 : fl.F → fl.F) (ps : ℕ → ℕ × Fallible (fl.F × fl.F)) (g : Guard fl.F)
    (n us : ℕ) (used total : fl.F)
    → ps n ≡ (us, ok (used, total))
    → fl.le total (fl.of_ℕ 0) ≡ false
    → (m q : Memory fl.F) × Reach fl ps (at_start g) m
      × Reach fl ps m q
      × (health_loads fl float32 m.guard m.guard m.guard ≡ record {
        healthy = not (after_polls fl ps g n).circuit_open;
        vram_used_mb = float32 used;
        vram_total_mb = float32 (after_polls fl ps g n).total_mb;
      })
      × (health_loads fl float32 q.guard q.guard q.guard ≡ record {
        healthy = not (after_polls fl ps g n).circuit_open;
        vram_used_mb = float32 used;
        vram_total_mb = float32 total;
      })
unfolding health_loads
health_loads-mixed fl float32 ps g n us used total e z = (
  _,
  _,
  next (whole_polls fl ps g n) (stores_used us used total refl e z),
  next here (stores_total us used total refl),
  refl,
  refl,
)
