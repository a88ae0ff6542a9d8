-- ===== src/Batcher/ReqMap.antt =====
-- `map[string][]*Request` of flushBatch, as an association list: a missing key reads as the nil
-- slice, and a write replaces the key's entry or adds one.
use distri_inference_sidecar.Prelude.{List, [], ◌∷◌, ◌++◌, Bytes, bytes_eq, if◌then◌else◌}
use distri_inference_sidecar.Batcher.Types.{Request}

abbrev pub ReqMap : Type 0
ReqMap = List (Bytes × List Request)

unfoldable pub get : Bytes → ReqMap → List Request
get k [] = []
get k ((j, rs) ∷ m) = if bytes_eq j k then rs else get k m

unfoldable pub put : Bytes → List Request → ReqMap → ReqMap
put k v [] = (k, v) ∷ []
put k v ((j, rs) ∷ m) = if bytes_eq j k then (j, v) ∷ m else (j, rs) ∷ put k v m

-- The loop `reqMap[r.ID] = append(reqMap[r.ID], r)`.
unfoldable pub group_from : ReqMap → List Request → ReqMap
group_from m [] = m
group_from m (r ∷ rs) = group_from (put r.id (get r.id m ++ r ∷ []) m) rs

unfoldable pub group : List Request → ReqMap
unfolding group_from
group rs = group_from [] rs
