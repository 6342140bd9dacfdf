-- ===== src/Lab/Repository/Stored.antt =====
-- The request that a stored operation was made with, as `findCacheAction` and `findTopologyAction` of
-- services/platform-api/internal/lab read it back from the payload column: the JSON decoder of Go
-- leaves the zero value where the payload has no request, and the tag `omitempty` writes an empty
-- slice of weights as no slice.
use website_go_based.Base.{none, some, Option, List, [], ◌∷◌}
use website_go_based.Lab.Action.{other, ActionInput, InstanceWeight}
use website_go_based.Store.{Payload, cache_payload, topology_payload, adaptive_payload}

unfoldable pub omit_empty : Option (List InstanceWeight) → Option (List InstanceWeight)
omit_empty none = none
omit_empty (some []) = none
omit_empty (some (w ∷ ws)) = some (w ∷ ws)

-- `json.Unmarshal` of `json.Marshal` of an input.
unfoldable pub decoded : ActionInput → ActionInput
unfolding omit_empty
decoded i = record i { weights = omit_empty i.weights }

abbrev pub no_input : ActionInput
no_input = record {
  operation_id = "";
  action_type = other "";
  target_instance_id = none;
  performance_percent = none;
  weights = none;
  balancing_mode = none;
}

unfoldable pub stored_request : Payload → ActionInput
unfolding decoded
stored_request (topology_payload p) = decoded p.request
stored_request (cache_payload template i) = decoded i
stored_request (adaptive_payload fingerprint servers ws) = record no_input { weights = some ws }
stored_request _ = no_input
