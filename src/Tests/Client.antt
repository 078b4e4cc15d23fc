-- ===== src/Tests/Client.antt =====
-- A Core request that meets a busy node, and a choice of targets.
use neuromem.Prelude.{
  ◌+◌, ◌*◌, ◌≤◌, length, arith, String, true, false, ◌≡◌, ◌≢◌, refl, some, none, List, [], ◌∷◌,
  includes, Distinct, unique, without,
}
use neuromem.CoreClient.{CoreError, missing, Fetch, response, request}
use neuromem.CoreClient.Retry.{Transient, request-retryable}
use neuromem.Json.{empty}
use neuromem.Router.Bounded.{Parameters, bound_federated_result, bound_federated_result-bounded}
use neuromem.Router.Targets.{
  CoreNodeConfig, node_ids, chosen, select_targets, select_targets-accepted,
}

abbrev busy_node : Fetch
busy_node = response (record { status = 503; is_json = false; body = missing; cancel_error = none })

abbrev unavailable : CoreError
unavailable = record { code = "http_503"; retryable = true; http_status = some 503 }

request-retryable_example : Transient busy_node unavailable
unfolding request
request-retryable_example =
    request-retryable (λ n. "http_503") true 100 busy_node unavailable refl refl

abbrev node : String → CoreNodeConfig
node id = record { id = id; token = none; scope_map = [] }

abbrev nodes : List CoreNodeConfig
nodes = node "a" ∷ node "b" ∷ []

abbrev asked : List String
asked = "b" ∷ "a" ∷ "b" ∷ []

abbrev picked : List String
picked = "b" ∷ "a" ∷ []

select_targets-accepted_example :
    (picked ≢ [])
    × Distinct picked
    × ((t : String) → includes picked t ≡ true → includes (node_ids nodes) t ≡ true)
    × ((t : String) → includes picked t ≡ includes (chosen (some asked) []) t)
unfolding select_targets unique includes without
select_targets-accepted_example = select_targets-accepted nodes (some asked) [] picked refl

abbrev measures : Parameters
measures = record {
  bytes = λ x. 600000;
  result_bytes = λ rs ss. 100 + length rs * 500000 + length ss;
  truncate = λ s n. s;
}

bound_federated_result-bounded_example :
    let b = bound_federated_result measures (empty ∷ empty ∷ []) (empty ∷ []) in
    (measures.result_bytes b.results b.snippets ≤ 959744)
    × (length b.results + b.omitted_results ≡ 2)
    × (length b.snippets + b.omitted_snippets ≡ 1)
bound_federated_result-bounded_example =
    bound_federated_result-bounded measures (empty ∷ empty ∷ []) (empty ∷ []) (omega arith)
