-- ===== src/Tests/Loads.antt =====
-- HealthCheck between the stores of a poll: the used memory is new and the total is not.
use distri_inference_sidecar.Prelude.{ℕ, ◌+◌, ◌≤◌, ◌≡◌, refl, not}
use distri_inference_sidecar.Errors.{Fallible, ok}
use distri_inference_sidecar.Float.Approx.{Approx, approx}
use distri_inference_sidecar.VramGuard.Stores.{
  Memory, stored_used, after_polls, stores_used, Reach, here, next, at_start,
}
use distri_inference_sidecar.GrpcServer.Health.{
  health_loads, health_loads-polls, health_loads-mixed,
}
use distri_inference_sidecar.Tests.Guards.{mb, guard, reading}

abbrev same_reading : ℕ → ℕ × Fallible (Approx × Approx)
same_reading n = reading 50

-- Behind the first store of the first poll.
abbrev torn : Memory Approx
torn = record {
  guard = record guard { used_mb = mb 50 };
  over = 0;
  storing = stored_used 3 (mb 50) (mb 100);
}

to_torn : Reach approx same_reading (at_start guard) torn
to_torn = next here (stores_used 3 (mb 50) (mb 100) refl refl refl)

health_loads-polls_example :
    (a b c : ℕ) × (health_loads approx (λ x. x) torn.guard torn.guard torn.guard
      ≡ health_loads approx
          (λ x. x)
          (after_polls approx same_reading guard a)
          (after_polls approx same_reading guard b)
          (after_polls approx same_reading guard c))
    × ((torn.over ≤ a) × (a ≤ b + 1))
    × ((torn.over ≤ b) × (b ≤ c + 1))
    × (torn.over ≤ c)
health_loads-polls_example = health_loads-polls approx (λ x. x) same_reading guard to_torn here here

-- Each reading is of another GPU.
abbrev varied : ℕ → ℕ × Fallible (Approx × Approx)
varied n = (3, ok (mb (50 + n), mb (100 + n)))

health_loads-mixed_example :
    (m q : Memory Approx) × Reach approx varied (at_start guard) m
    × Reach approx varied m q
    × (health_loads approx (λ x. x) m.guard m.guard m.guard ≡ record {
      healthy = not (after_polls approx varied guard 1).circuit_open;
      vram_used_mb = mb 51;
      vram_total_mb = (after_polls approx varied guard 1).total_mb;
    })
    × (health_loads approx (λ x. x) q.guard q.guard q.guard ≡ record {
      healthy = not (after_polls approx varied guard 1).circuit_open;
      vram_used_mb = mb 51;
      vram_total_mb = mb 101;
    })
health_loads-mixed_example =
    health_loads-mixed approx (λ x. x) varied guard 1 3 (mb 51) (mb 101) refl refl
