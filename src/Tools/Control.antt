-- ===== src/Tools/Control.antt =====
-- `#callControl` and `#callControlGateway` (apps/mcp/src/tools.ts): each tool's call of the gateway.
use Prim.Native.String
use neuromem.Prelude.{
  ℕ, String, Bool, true, false, not, ◌&&◌, ◌||◌, Option, none, some, List, [], ◌∷◌, includes, all,
  length, codes, leb, ◌==◌, str_eq, if◌then◌else◌, get_or_else,
}
use neuromem.Json.{
  Json, JsonObject, JsonList, Number, boolean, number, string, array, object, null, nil, cons,
  empty, field, get, put,
}
use neuromem.Tools.{
  AuthContext, TextLibrary, Checked, fine, refused, unknown_tool, unsupported_tool, bad_argument,
  no_gateway, other_peer, ◌>>=◌, ◌>>◌, check, has_capability, require_capability, reject_unknown,
  required_string, optional_string, optional_date_time, required_uuid, required_uuid7,
  optional_uuid, optional_uuid7, query_of, long_text, optional_boolean, integer_value,
  optional_limit,
}

-- gateway.record with the session, the batch and the idempotency key, or gateway.request with the
-- path and the members of the query or the body.
pub data GatewayCall : Type 0 where
  record_batch : String → JsonObject → String → GatewayCall
  get_request post_request : String → JsonObject → GatewayCall

-- The scope of the credential, in front of the other members.
abbrev pub scoped : AuthContext → JsonObject → JsonObject
scoped c rest =
    field "workspace_id" (string c.workspace_id) (field "project_id" (string c.project_id) rest)

abbrev pub text3 : String → String → String → String
text3 a b c = String.◌++◌ a (String.◌++◌ b c)

abbrev opt : String → Option Json → JsonObject → JsonObject
opt key none rest = rest
opt key (some v) rest = field key v rest

abbrev of_nat : ℕ → Json
of_nat n = number (Number.nat n)

-- `value ?? fallback`
abbrev or_value : Option Json → Json → Json
or_value none fallback = fallback
or_value (some null) fallback = fallback
or_value (some v) fallback = v

one_of : TextLibrary → List String → Json → Checked Json
one_of lib names v = if includes names (lib.print v) then fine v else refused bad_argument

kind_value : TextLibrary → Option Json → Json
kind_value lib none = string "message"
kind_value lib (some v) = string (lib.print v)

-- `/^[0-9a-f]{64}$/`
is_digest : String → Bool
unfolding all
is_digest s =
    length (codes s) == 64
    && all (λ c. (leb b'0' c && leb c b'9') || (leb b'a' c && leb c b'f')) (codes s)

-- The peer that speaks.
unfoldable pub speaker_peer : AuthContext → String → Checked String
speaker_peer c speaker =
    if str_eq speaker "human"
    then fine c.human_peer_id
    else if not (str_eq speaker "agent")
    then refused bad_argument
    else elim c.agent_peer_id [
      | none ↦ refused bad_argument
      | some p ↦ if str_eq p "" then refused bad_argument else fine p
    ]

-- `metadata` is absent or an object.
metadata_of : Option Json → Checked Json
metadata_of none = fine (object empty)
metadata_of (some (object fs)) = fine (object fs)
metadata_of (some _) = refused bad_argument

abbrev pub same_peer : String → Option String → Bool
same_peer p none = false
same_peer p (some q) = str_eq p q

module _ (lib : TextLibrary) (c : AuthContext) where
  -- The case `memory_record`; `fresh` is what uuid7() returns.
  unfoldable pub record_call : String → JsonObject → Checked GatewayCall
  unfolding speaker_peer one_of kind_value metadata_of required_string required_uuid7 optional_uuid7
      long_text
  record_call fresh input = do
    speaker ← required_string lib input "speaker"
    peer ← speaker_peer c speaker
    session ← required_uuid7 lib input "session_id"
    given ← optional_uuid7 lib input "record_id"
    let id = get_or_else given fresh
    content ← long_text lib input "content"
    occurred ← optional_date_time lib input "occurred_at"
    metadata ← metadata_of (get "metadata" input)
    kind ←
        one_of lib ("message" ∷ "file" ∷ "commit" ∷ "tool_result" ∷ "correction" ∷ "note" ∷ [])
          (kind_value lib (get "kind" input))
    key ← optional_string lib input "idempotency_key" 512
    fine (
        record_batch session
          (scoped c (
            field "session_id" (string session) (
              field "records"
                (array (
                  cons
                    (object (
                      field "id" (string id) (
                        field "author_key" (string peer) (
                          field "author_name" (string peer) (
                            field "author_kind" (string speaker) (
                              field "kind" kind (
                                field "content" (string content) (
                                  field "source_app" (string (get_or_else c.client "neuromem-mcp"))
                                    (field "metadata" metadata
                                      (opt "occurred_at" (get "occurred_at" input) empty))))))))))
                    nil))
                empty)))
          (get_or_else key (
            lib.sha256
              (text3 c.credential_id ":" (text3 c.project_id ":" (text3 session ":" id))))))

  -- `#gatewayRecall`
  unfoldable pub gateway_recall : JsonObject → JsonList → Checked JsonObject
  unfolding optional_uuid7 query_of optional_limit
  gateway_recall input include = do
    session ← optional_uuid7 lib input "session_id"
    after ← optional_date_time lib input "after"
    before ← optional_date_time lib input "before"
    query ← query_of lib input
    limit ← optional_limit input
    general ← optional_boolean input "include_general" true
    federated ← optional_boolean input "include_federated" false
    fine (
        scoped c (
          field "query" (string query) (
            field "include" (array include) (
              field "limit" (of_nat (get_or_else limit 10)) (
                field "include_general" (boolean general) (
                  field "include_federated" (boolean federated) (
                    opt "session_id" (get "session_id" input) (
                      opt "after" (get "after" input)
                        (opt "before" (get "before" input) empty)))))))))

  unfoldable pub recall_call : JsonObject → JsonList → Checked GatewayCall
  unfolding gateway_recall
  recall_call input include = do
    body ← gateway_recall input include
    fine (post_request "/api/v1/recall" body)

  unfoldable pub readable : String → Checked String
  unfolding has_capability
  readable requested =
      check
        (str_eq requested c.human_peer_id
          || same_peer requested c.agent_peer_id
          || has_capability c "peer:read:any")
        other_peer
      >> fine requested

  -- `#readablePeer`
  unfoldable pub readable_peer : JsonObject → Checked String
  unfolding optional_uuid readable
  readable_peer input = do
    requested ← optional_uuid lib input "peer_id"
    readable (get_or_else requested c.human_peer_id)

  -- The cases `representation_read` and `peer_card_read`.
  unfoldable pub peer_call : String → JsonObject → Checked GatewayCall
  unfolding readable_peer
  peer_call part input = do
    peer ← readable_peer input
    general ← optional_boolean input "include_general" true
    fine (
        get_request (text3 "/api/v1/peers/" (lib.encode peer) part)
          (scoped c (field "include_general" (boolean general) empty)))

  unfoldable pub session_call : JsonObject → Checked GatewayCall
  unfolding required_uuid7
  session_call input = do
    session ← required_uuid7 lib input "session_id"
    general ← optional_boolean input "include_general" true
    fine (
        get_request (text3 "/api/v1/sessions/" (lib.encode session) "/context")
          (scoped c (field "include_general" (boolean general) empty)))

  -- The cases `dynamic_context` and `dialectic_chat`, from the query on.
  unfoldable pub query_call : String → String → Option Json → JsonObject → Checked GatewayCall
  unfolding query_of
  query_call path key extra input = do
    query ← query_of lib input
    general ← optional_boolean input "include_general" true
    federated ← optional_boolean input "include_federated" false
    fine (
        post_request path (
          scoped c (
            field "query" (string query) (
              opt key extra (
                field "include_general" (boolean general)
                  (field "include_federated" (boolean federated) empty))))))

  unfoldable pub context_call : JsonObject → Checked GatewayCall
  unfolding query_call integer_value
  context_call input = do
    budget ← integer_value 256 128000 (get "token_budget" input)
    query_call "/api/v1/context" "token_budget" (get "token_budget" input) input

  unfoldable pub chat_call : JsonObject → Checked GatewayCall
  unfolding query_call one_of
  chat_call input = do
    level ←
        one_of lib ("minimal" ∷ "low" ∷ "medium" ∷ "high" ∷ [])
          (or_value (get "reasoning_level" input) (string "low"))
    query_call "/api/v1/chat" "reasoning_level" (some level) input

  unfoldable pub dream_call : JsonObject → Checked GatewayCall
  unfolding one_of
  dream_call input = do
    strategy ←
        one_of lib ("omni" ∷ "deduction" ∷ "induction" ∷ "surprisal" ∷ [])
          (or_value (get "strategy" input) (string "omni"))
    force ← optional_boolean input "force" false
    fine (
        post_request "/api/v1/dreams"
          (scoped c (field "strategy" strategy (field "force" (boolean force) empty))))

  -- The case `transfer_request`: the source is the scope of the credential.
  unfoldable pub transfer_call : JsonObject → Checked GatewayCall
  unfolding required_string long_text required_uuid is_digest
  transfer_call input = do
    digest ← required_string lib input "source_content_hash"
    check (is_digest digest) bad_argument
    snapshot ← long_text lib input "source_snapshot"
    workspace ← required_uuid lib input "target_workspace_id"
    project ← required_uuid lib input "target_project_id"
    id ← required_uuid lib input "record_id"
    reason ← required_string lib input "reason"
    fine (
        post_request "/api/v1/transfer-requests" (
          field "source_workspace_id" (string c.workspace_id) (
            field "source_project_id" (string c.project_id) (
              field "target_workspace_id" (string workspace) (
                field "target_project_id" (string project) (
                  field "source_record_id" (string id) (
                    field "source_content_hash" (string digest) (
                      field "source_snapshot" (string snapshot) (
                        field "provenance" (object (field "reason" (string reason) empty))
                          empty)))))))))

  abbrev pub records_and_claims : JsonList
  records_and_claims = cons (string "records") (cons (string "claims") nil)

  -- `#callControlGateway`.
  unfoldable pub call_gateway : String → String → JsonObject → Checked GatewayCall
  unfolding record_call recall_call peer_call session_call context_call chat_call dream_call
      transfer_call
  call_gateway fresh name input =
      if str_eq name "memory_record"
      then record_call fresh input
      else if str_eq name "search_records"
      then recall_call input (cons (string "records") nil)
      else if str_eq name "search_claims"
      then recall_call input (cons (string "claims") nil)
      else if str_eq name "recall"
      then recall_call input records_and_claims
      else if str_eq name "wiki_read"
      then fine (get_request (text3 "/api/v1/projects/" (lib.encode c.project_id) "/wiki") empty)
      else if str_eq name "representation_read"
      then peer_call "/representation" input
      else if str_eq name "peer_card_read"
      then peer_call "/card" input
      else if str_eq name "session_context"
      then session_call input
      else if str_eq name "dynamic_context"
      then context_call input
      else if str_eq name "dialectic_chat"
      then chat_call input
      else if str_eq name "schedule_dream"
      then dream_call input
      else if str_eq name "federated_search"
      then recall_call (put "include_federated" (boolean true) input) records_and_claims
      else if str_eq name "transfer_request"
      then transfer_call input
      else if includes ("get_record_context" ∷ "get_claim_evidence" ∷ "graph_read" ∷ []) name
      then refused unsupported_tool
      else refused unknown_tool

  -- `#callControl`, for a dispatcher with a gateway and a bearer, or without.
  unfoldable pub call_control :
      (String → Option (List String)) → Bool → String → String → JsonObject → Checked GatewayCall
  unfolding reject_unknown require_capability call_gateway
  call_control allowed has_gateway fresh name input = do
    reject_unknown (allowed name) input
    require_capability c name
    check has_gateway no_gateway
    call_gateway fresh name input
