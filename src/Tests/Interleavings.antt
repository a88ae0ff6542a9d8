-- ===== src/Tests/Interleavings.antt =====
-- The writes of two flushes in turn.
use mathlib.Core.List.{flatten}
use distri_inference_sidecar.Prelude.{refl, List, [], ◌∷◌}
use distri_inference_sidecar.Batcher.Types.{Request}
use distri_inference_sidecar.Batcher.Flush.{Env}
use distri_inference_sidecar.Batcher.Writes.{Write, apply_all, flush_writes}
use distri_inference_sidecar.Batcher.Writes.Interleaving.{Interleaving, finished, writes}
use distri_inference_sidecar.Batcher.Counters.{IsCounted}
use distri_inference_sidecar.Batcher.Writes.Together.{Flushed, Interleaving-Flushed}
use distri_inference_sidecar.Tests.Samples.{
  config, env_ranged, first, second, third, env, down, empty,
}

abbrev alternate : List Write → List Write → List Write
alternate [] [] = []
alternate [] (v ∷ vs) = v ∷ alternate [] vs
alternate (w ∷ ws) [] = w ∷ alternate ws []
alternate (w ∷ ws) (v ∷ vs) = w ∷ v ∷ alternate ws vs

in_turns : (ws vs : List Write) → Interleaving (ws ∷ vs ∷ []) (alternate ws vs)
unfolding flatten
in_turns [] [] = finished _ refl
in_turns [] (v ∷ vs) = writes _ ([] ∷ []) [] v vs _ refl (in_turns [] vs)
in_turns (w ∷ ws) [] = writes _ [] ([] ∷ []) w ws _ refl (in_turns ws [])
in_turns (w ∷ ws) (v ∷ vs) =
    writes _ [] ((v ∷ vs) ∷ []) w ws _ refl (writes _ (ws ∷ []) [] v vs _ refl (in_turns ws vs))

-- One flush is answered, and the other does not reach the backend.
abbrev flushes : List (Env × List Request)
flushes = (env, first ∷ second ∷ []) ∷ (down, third ∷ []) ∷ []

empty-IsCounted : IsCounted empty
empty-IsCounted = record { success = refl; errors = refl }

Interleaving-Flushed_example : Flushed config flushes empty (
    apply_all
      (alternate
        (flush_writes env config (first ∷ second ∷ []))
        (flush_writes down config (third ∷ [])))
      empty)
Interleaving-Flushed_example =
    Interleaving-Flushed config flushes _ empty (env_ranged, (env_ranged, tt)) empty-IsCounted
      (in_turns (flush_writes env config (first ∷ second ∷ []))
        (flush_writes down config (third ∷ [])))
