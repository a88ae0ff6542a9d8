-- ===== src/Batcher/Collect.antt =====
-- internal/batcher/batcher.go: collectBatch, on the branches that its select takes one after the
-- other.
use distri_inference_sidecar.Prelude.{List, [], ◌∷◌, ◌++◌, if◌then◌else◌}
use distri_inference_sidecar.Batcher.Types.{Config, Request}
use distri_inference_sidecar.Batcher.Queue.{is_full}

pub data Choice : Type 0 where
  taken : Request → Choice
  deadline stop_seen : Choice

-- In the select with this batch, or behind the return with this one.
pub data Progress : Type 0 where
  waiting returned : List Request → Progress

unfoldable pub collect_batch : Config → List Request → List Choice → Progress
unfolding is_full
collect_batch cfg batch [] = waiting batch
collect_batch cfg batch (taken r ∷ cs) =
    let rest = collect_batch cfg (batch ++ r ∷ []) cs in
    if is_full cfg (batch ++ r ∷ []) then returned (batch ++ r ∷ []) else rest
collect_batch cfg batch (deadline ∷ cs) = returned batch
collect_batch cfg batch (stop_seen ∷ cs) = returned batch
