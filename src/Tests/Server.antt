-- ===== src/Tests/Server.antt =====
-- JSON-RPC and the HTTP server on concrete inputs (apps/mcp/src/rpc.ts, apps/mcp/src/http.ts).
use neuromem.Prelude.{
  ℕ, ◌+◌, ◌≤◌, ◌≡◌, String, true, refl, Option, none, some, List, [], ◌∷◌, length, arith, str_eq,
  str_eq_iff, includes, if◌then◌else◌,
}
use neuromem.Json.{Json, JsonObject, Number, string, null, empty, field}
use neuromem.Rpc.{
  JsonRpcRequest, ToolResult, bound_batch_replies, replies_bytes, dispatch_rpc, rpc_envelope,
}
use neuromem.Rpc.Batch.{bound_batch_replies-bounded}
use neuromem.Rpc.Envelope.{IsReply, rpc_envelope-IsReply, dispatch_rpc-listed}
use neuromem.Http.{
  Session, Sessions, Limits, Server, Credential, Method, Incoming, RpcOutcome, required,
  require_session, prune_sessions, find_session, check_session, same_text_option,
}
use neuromem.Http.Capacity.{Event, Within, server_run, server_run-Within}
use neuromem.Http.Pinning.{HasSession, require_session-Pinned}

abbrev number_bytes : Number → ℕ
number_bytes n = 6

abbrev two_replies : List JsonObject
two_replies = empty ∷ field "id" (string "a") empty ∷ []

bound_batch_replies-bounded_example :
    (length (bound_batch_replies number_bytes two_replies) ≡ 2)
    × (replies_bytes number_bytes (bound_batch_replies number_bytes two_replies) ≤ 1048576)
bound_batch_replies-bounded_example =
    bound_batch_replies-bounded number_bytes two_replies (omega arith) (omega arith)

abbrev call_recall : JsonRpcRequest
call_recall = record {
  jsonrpc = some (string "2.0");
  id = some (string "a");
  method = some (string "tools/call");
  params = some (neuromem.Json.object (field "name" (string "recall") empty));
}

abbrev one_tool : String → Option Json → ToolResult
one_tool name given = ToolResult.returned (string name)

abbrev same_tool : String → Option Json → ToolResult
same_tool name given =
    if str_eq name "recall"
    then ToolResult.returned (string name)
    else ToolResult.thrown "no such tool"

rpc_envelope-IsReply_example :
    IsReply
      (some "tools/call")
      (some (string "a"))
      (rpc_envelope ("recall" ∷ []) null one_tool (λ v. "") call_recall)
rpc_envelope-IsReply_example =
    rpc_envelope-IsReply ("recall" ∷ []) null one_tool (λ v. "") call_recall

listed_alike :
    (name : String) (given : Option Json)
    → includes ("recall" ∷ []) name ≡ true
    → one_tool name given ≡ same_tool name given
unfolding includes
listed_alike name given m = ground (arith, str_eq_iff "recall" name, str_eq_iff name "recall")

dispatch_rpc-listed_example :
    dispatch_rpc ("recall" ∷ []) null one_tool (λ v. "") call_recall
    ≡ dispatch_rpc ("recall" ∷ []) null same_tool (λ v. "") call_recall
dispatch_rpc-listed_example =
    dispatch_rpc-listed ("recall" ∷ []) null one_tool same_tool (λ v. "") call_recall listed_alike

abbrev limits : Limits
limits = record { session_ttl_ms = 1000; max_sessions = 1; max_in_flight = 2 }

abbrev alice : Credential
alice = record { credential_id = some "alice"; auth_identity = some "x" }

abbrev idle : Server
idle = record { sessions = []; active_requests = 0 }

abbrev events : List Event
events =
    Event.arrive
    ∷ Event.received 5 "s" Method.post_method none (some alice)
        (Incoming.single true true (RpcOutcome.returned true))
    ∷ Event.received 6 "t" Method.post_method none (some alice)
        (Incoming.single true true (RpcOutcome.returned true))
    ∷ Event.depart
    ∷ []

server_run-Within_example : Within limits (server_run limits events idle)
server_run-Within_example = server_run-Within limits events idle (omega arith, omega arith)

abbrev table : Sessions
table =
    ("s", record { last_seen_at = 5; credential_id = some "alice"; auth_identity = some "x" }) ∷ []

abbrev header : Option String
header = some "s"

alice_passes : (require_session 1000 9 (some "s") alice table).0 ≡ required "s"
unfolding require_session prune_sessions find_session check_session same_text_option
alice_passes = refl

require_session-Pinned_example :
    (header ≡ some "s")
    × (x : Session) × HasSession "s" x table
    × (9 ≤ x.last_seen_at + 1000)
    × (x.credential_id ≡ some "alice")
    × (x.auth_identity ≡ some "x")
require_session-Pinned_example =
    require_session-Pinned 1000 9 (some "s") alice table "s" alice_passes
