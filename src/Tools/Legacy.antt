-- ===== src/Tools/Legacy.antt =====
-- callTool and `#callLegacy` (apps/mcp/src/tools.ts): the tools that go to the memory router, for a
-- credential in the hybrid mode. What the router is called with is a value; `targets_for` is
-- targetsFor of the router.
use neuromem.Prelude.{
  ℕ, String, Bool, true, false, ◌&&◌, ◌||◌, Option, none, some, List, [], ◌∷◌, includes, all,
  length, codes, leb, ◌==◌, str_eq, if◌then◌else◌,
}
use neuromem.Json.{Json, JsonObject, JsonList, string, object, nil, cons, get, put}
use neuromem.Tools.{
  AuthContext, TextLibrary, Checked, fine, refused, unknown_tool, bad_argument, scope_mismatch,
  author_mismatch, ◌>>=◌, ◌>>◌, check, require_capability, reject_unknown, required_string,
  optional_string, optional_date_time, required_uuid, required_uuid7, optional_uuid7, query_of,
  long_text, optional_limit,
}

-- router.memoryRecord, router.recall, and the reads with the id that they are given.
pub data RouterCall : Type 0 where
  record_memory : JsonObject → Option (List String) → RouterCall
  recall_memory : JsonObject → Option (List String) → Option ℕ → JsonList → RouterCall
  read_memory : String → String → String → Option String → Option (List String) → RouterCall

-- ALLOWED_KEYS
unfoldable pub allowed_keys : String → Option (List String)
allowed_keys name =
    if str_eq name "memory_record"
    then some (
        "workspace_id" ∷ "project_id" ∷ "session_id" ∷ "record_id" ∷ "idempotency_key"
        ∷ "author_key" ∷ "author_name" ∷ "author_kind" ∷ "kind" ∷ "content" ∷ "occurred_at"
        ∷ "source_app" ∷ "metadata" ∷ "target" ∷ [])
    else if includes ("search_records" ∷ "search_claims" ∷ "recall" ∷ []) name
    then some (
        "workspace_id" ∷ "project_id" ∷ "query" ∷ "session_id" ∷ "after" ∷ "before" ∷ "limit"
        ∷ "target" ∷ [])
    else if str_eq name "get_record_context"
    then some ("workspace_id" ∷ "project_id" ∷ "record_id" ∷ "target" ∷ [])
    else if str_eq name "get_claim_evidence"
    then some ("workspace_id" ∷ "project_id" ∷ "claim_id" ∷ "target" ∷ [])
    else if includes ("wiki_read" ∷ "graph_read" ∷ []) name
    then some ("workspace_id" ∷ "project_id" ∷ "target" ∷ [])
    else none

abbrev records_and_claims : JsonList
records_and_claims = cons (string "records") (cons (string "claims") nil)

is_word : ℕ → Bool
is_word x = (leb b'a' x && leb x b'z') || (leb b'A' x && leb x b'Z') || (leb b'0' x && leb x b'9')

-- `/^[a-z0-9][a-z0-9_-]{0,63}$/i`
is_target : List ℕ → Bool
unfolding is_word all
is_target [] = false
is_target (x ∷ xs) =
    is_word x && all (λ y. is_word y || y == b'_' || y == b'-') xs && leb (length xs) 63

-- targetValue
unfoldable pub target_value : TextLibrary → Option Json → Checked (Option String)
unfolding is_target
target_value lib none = fine none
target_value lib (some (string s)) =
    if is_target (codes s) then fine (some (lib.lower s)) else refused bad_argument
target_value lib (some _) = refused bad_argument

abbrev is_text_of : List String → Option Json → Bool
is_text_of names (some (string s)) = includes names s
is_text_of names _ = false

abbrev is_kind : TextLibrary → Option Json → Bool
is_kind lib none = true
is_kind lib (some v) =
    includes ("message" ∷ "file" ∷ "commit" ∷ "tool_result" ∷ "correction" ∷ "note" ∷ [])
      (lib.print v)

abbrev is_metadata : Option Json → Bool
is_metadata none = true
is_metadata (some (object fs)) = true
is_metadata (some _) = false

module _ (lib : TextLibrary) where
  -- `validateMemoryRecord`
  unfoldable pub validate_memory_record : JsonObject → Checked (Unit {0})
  unfolding long_text required_string optional_string optional_date_time includes
  validate_memory_record input = do
    content ← long_text lib input "content"
    author ← required_string lib input "author_key"
    check (leb (lib.size author) 256) bad_argument
    name ← optional_string lib input "author_name" 256
    app ← optional_string lib input "source_app" 64
    time ← optional_date_time lib input "occurred_at"
    key ← optional_string lib input "idempotency_key" 512
    check (is_metadata (get "metadata" input)) bad_argument
    check (is_text_of ("human" ∷ "agent" ∷ "automation" ∷ "service" ∷ []) (get "author_kind" input))
        bad_argument
    check (is_kind lib (get "kind" input)) bad_argument

  unfoldable pub put_record_id : Option String → JsonObject → JsonObject
  put_record_id none input = input
  put_record_id (some id) input = put "record_id" (string id) input

  unfoldable pub record_in :
      String → String → JsonObject → Option (List String) → Checked RouterCall
  unfolding required_uuid7 optional_uuid7 put_record_id
  record_in workspace project input targets = do
    session ← required_uuid7 lib input "session_id"
    id ← optional_uuid7 lib input "record_id"
    author ← required_string lib input "author_key"
    content ← required_string lib input "content"
    fine (
        record_memory
          (put "workspace_id" (string workspace) (
            put "project_id" (string project)
              (put "session_id" (string session) (put_record_id id input))))
          targets)

  -- The case `memory_record`, after the validation.
  unfoldable pub memory_record : JsonObject → Option (List String) → Checked RouterCall
  unfolding required_uuid record_in
  memory_record input targets = do
    workspace ← required_uuid lib input "workspace_id"
    project ← required_uuid lib input "project_id"
    record_in workspace project input targets

  unfoldable pub optional_session : Option Json → JsonObject → Checked (Unit {0})
  unfolding required_uuid7
  optional_session none input = fine tt
  optional_session (some v) input = do session ← required_uuid7 lib input "session_id"; fine tt

  unfoldable pub recall_in :
      String → JsonObject → Option (List String) → JsonList → Checked RouterCall
  unfolding required_uuid optional_limit
  recall_in query input targets include = do
    workspace ← required_uuid lib input "workspace_id"
    project ← required_uuid lib input "project_id"
    limit ← optional_limit input
    fine (
        recall_memory
          (put "workspace_id" (string workspace)
            (put "project_id" (string project) (put "query" (string query) input)))
          targets limit include)

  -- `recallInput` and router.recall
  unfoldable pub recall_memories : JsonObject → Option (List String) → JsonList → Checked RouterCall
  unfolding query_of optional_session optional_date_time recall_in
  recall_memories input targets include = do
    query ← query_of lib input
    optional_session (get "session_id" input) input
    after ← optional_date_time lib input "after"
    before ← optional_date_time lib input "before"
    recall_in query input targets include

  unfoldable pub read_id : String → JsonObject → Checked (Option String)
  unfolding required_uuid
  read_id key input =
      if str_eq key "" then fine none else do id ← required_uuid lib input key; fine (some id)

  -- The reads of the scope, or of one record or claim in it.
  unfoldable pub read_memories :
      String → String → JsonObject → Option (List String) → Checked RouterCall
  unfolding required_uuid read_id
  read_memories name key input targets = do
    workspace ← required_uuid lib input "workspace_id"
    project ← required_uuid lib input "project_id"
    id ← read_id key input
    fine (read_memory name workspace project id targets)

  unfoldable pub dispatch_legacy : String → JsonObject → Option (List String) → Checked RouterCall
  unfolding validate_memory_record memory_record recall_memories read_memories
  dispatch_legacy name input targets =
      if str_eq name "memory_record"
      then validate_memory_record input >> memory_record input targets
      else if str_eq name "search_records"
      then recall_memories input targets (cons (string "records") nil)
      else if str_eq name "search_claims"
      then recall_memories input targets (cons (string "claims") nil)
      else if str_eq name "recall"
      then recall_memories input targets records_and_claims
      else if str_eq name "get_record_context"
      then read_memories name "record_id" input targets
      else if str_eq name "get_claim_evidence"
      then read_memories name "claim_id" input targets
      else if includes ("wiki_read" ∷ "graph_read" ∷ []) name
      then read_memories name "" input targets
      else refused unknown_tool

  -- `#callLegacy`
  unfoldable pub call_legacy :
      (Option String → Checked (Option (List String))) → String → JsonObject → Checked RouterCall
  unfolding reject_unknown allowed_keys target_value dispatch_legacy
  call_legacy targets_for name input = do
    reject_unknown (allowed_keys name) input
    target ← target_value lib (get "target" input)
    targets ← targets_for target
    dispatch_legacy name input targets

  expected_peer : AuthContext → String → Option String
  expected_peer c kind =
      if str_eq kind "human"
      then some c.human_peer_id
      else if str_eq kind "agent"
      then c.agent_peer_id
      else none

  unfoldable pub check_author : JsonObject → Option String → Checked (Unit {0})
  unfolding required_string
  check_author input none = refused author_mismatch
  check_author input (some p) = if str_eq p "" then refused author_mismatch else do
    author ← required_string lib input "author_key"
    check (str_eq author p) author_mismatch

  unfoldable pub assert_author : AuthContext → JsonObject → Checked (Unit {0})
  unfolding required_string expected_peer check_author
  assert_author c input = do
    kind ← required_string lib input "author_kind"
    check_author input (expected_peer c kind)

  -- `#assertLegacyScopeAndPeer`
  unfoldable pub assert_scope : AuthContext → String → JsonObject → Checked (Unit {0})
  unfolding required_uuid assert_author
  assert_scope c name input = do
    workspace ← required_uuid lib input "workspace_id"
    project ← required_uuid lib input "project_id"
    check (str_eq workspace c.workspace_id && str_eq project c.project_id) scope_mismatch
    if str_eq name "memory_record" then assert_author c input else fine tt

  -- callTool in the hybrid mode, with a context.
  unfoldable pub call_hybrid :
      (Option String → Checked (Option (List String)))
      → AuthContext
      → String
      → JsonObject
      → Checked RouterCall
  unfolding require_capability assert_scope call_legacy
  call_hybrid targets_for c name input = do
    require_capability c name
    assert_scope c name input
    call_legacy targets_for name input
