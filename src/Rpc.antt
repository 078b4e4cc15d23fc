-- ===== src/Rpc.antt =====
-- JSON-RPC of the MCP server: dispatchRpc (apps/mcp/src/rpc.ts), rpcEnvelope and boundBatchReplies
-- (apps/mcp/src/http.ts). A member of a request is `none` where it is absent. What a tool does is a
-- parameter, as is the text that sums its value up. A number of a request is finite.
pub mod Batch
pub mod Envelope
use neuromem.Prelude.{
  ℕ, ◌+◌, ◌*◌, ◌-◌, String, Bool, true, false, not, ◌&&◌, ◌||◌, Option, none, some, List, [], ◌∷◌,
  ◌++◌, length, any, includes, str_eq, leb, ltb, ◌==◌, codes, if◌then◌else◌, get_or_else, is_some,
}
use neuromem.Json.{
  Json, JsonObject, JsonList, Number, null, boolean, number, string, array, object, nil, cons,
  empty, field, get, as_string, as_object,
}

pub record JsonRpcRequest : Type 0 where
  pub jsonrpc : Option Json
  pub id : Option Json
  pub method : Option Json
  pub params : Option Json

pub data RpcFailure : Type 0 where
  invalid_request invalid_params method_not_found : RpcFailure

-- What dispatchRpc returns, undefined being `none`, or the RpcError that it throws.
pub data Dispatched : Type 0 where
  answered : Option Json → Dispatched
  rpc_error : RpcFailure → String → Dispatched

pub data ToolResult : Type 0 where
  returned : Json → ToolResult
  thrown : String → ToolResult

-- validJsonRpcId
unfoldable pub valid_json_rpc_id : Option Json → Bool
valid_json_rpc_id none = true
valid_json_rpc_id (some (string s)) = true
valid_json_rpc_id (some (number n)) = true
valid_json_rpc_id (some null) = false
valid_json_rpc_id (some (boolean b)) = false
valid_json_rpc_id (some (array vs)) = false
valid_json_rpc_id (some (object fs)) = false

-- The test of the initialize parameters.
unfoldable pub valid_initialize : Option Json → Bool
valid_initialize params =
    let fields = get_or_else (as_object params) empty in
    let client = get_or_else (as_object (get "clientInfo" fields)) empty in
    is_some (as_string (get "protocolVersion" fields))
    && is_some (as_object (get "capabilities" fields))
    && is_some (as_string (get "name" client))
    && is_some (as_string (get "version" client))

initialized : Json
initialized = object (
    field "protocolVersion" (string "2025-03-26") (
      field "capabilities"
        (object (field "tools" (object (field "listChanged" (boolean false) empty)) empty))
        (field "serverInfo"
          (object (field "name" (string "neuromem-mcp") (field "version" (string "0.1.0") empty)))
          empty)))

text_content : String → Json
text_content text =
    array (cons (object (field "type" (string "text") (field "text" (string text) empty))) nil)

-- The answer of `tools/call`; what a tool throws is an answer as well.
unfoldable pub tool_answer : (Json → String) → ToolResult → Json
unfolding text_content
tool_answer summary (returned v) = object (
    field "content" (text_content (summary v))
      (field "structuredContent" v (field "isError" (boolean false) empty)))
tool_answer summary (thrown message) =
    object (field "content" (text_content message) (field "isError" (boolean true) empty))

-- Whether `arguments` is given and no object.
abbrev bad_arguments : Option Json → Bool
bad_arguments none = false
bad_arguments (some v) = not (is_some (as_object (some v)))

-- The codes -32600, -32602 and -32601; `minus n` is -(n + 1).
code_of : RpcFailure → Json
code_of invalid_request = number (Number.minus 32599)
code_of invalid_params = number (Number.minus 32601)
code_of method_not_found = number (Number.minus 32600)

-- The reply with an error.
unfoldable pub error_reply : Json → RpcFailure → String → JsonObject
unfolding code_of
error_reply id code message = field "jsonrpc" (string "2.0") (
    field "id" id (
      field "error" (object (field "code" (code_of code) (field "message" (string message) empty)))
        empty))

unfoldable pub result_reply : Json → Option Json → JsonObject
result_reply id none = field "jsonrpc" (string "2.0") (field "id" id empty)
result_reply id (some v) = field "jsonrpc" (string "2.0") (field "id" id (field "result" v empty))

unfoldable pub reply_with : Json → Dispatched → JsonObject
unfolding error_reply result_reply valid_json_rpc_id
reply_with id (answered v) = result_reply id v
reply_with id (rpc_error code message) =
    error_reply (if valid_json_rpc_id (some id) then id else null) code message

unfoldable pub envelope_for : Option Json → Dispatched → Option JsonObject
unfolding reply_with
envelope_for none d = none
envelope_for (some id) d = some (reply_with id d)

abbrev is_version : Option String → Bool
is_version none = false
is_version (some v) = str_eq v "2.0"

-- `tools` are the names of the tools that listTools gives, and `listing` is its value.
module _ (tools : List String) (listing : Json) (call : String → Option Json → ToolResult)
    (summary : Json → String) where
  -- The case `tools/call`.
  unfoldable pub call_tool : JsonObject → Dispatched
  unfolding tool_answer
  call_tool params =
      let name = get_or_else (as_string (get "name" params)) "" in
      let given = get "arguments" params in
      if str_eq name "" || not (includes tools name)
      then rpc_error invalid_params "Unknown tool"
      else if bad_arguments given
      then rpc_error invalid_params "Tool arguments must be an object"
      else answered (some (tool_answer summary (call name given)))

  unfoldable pub dispatch_method : String → Option Json → Dispatched
  unfolding call_tool valid_initialize initialized
  dispatch_method method params =
      if str_eq method "initialize"
      then (if valid_initialize params
          then answered (some initialized)
          else rpc_error invalid_params "Invalid initialize parameters")
      else if str_eq method "notifications/initialized"
      then answered none
      else if str_eq method "ping"
      then answered (some (object empty))
      else if str_eq method "tools/list"
      then answered (some (object (field "tools" listing empty)))
      else if str_eq method "tools/call"
      then call_tool (get_or_else (as_object params) empty)
      else rpc_error method_not_found "Method not found"

  unfoldable pub dispatch_valid : Option String → Option Json → Dispatched
  unfolding dispatch_method
  dispatch_valid none params = rpc_error invalid_request "Invalid Request"
  dispatch_valid (some method) params = dispatch_method method params

  -- dispatchRpc
  unfoldable pub dispatch_rpc : JsonRpcRequest → Dispatched
  unfolding dispatch_valid valid_json_rpc_id
  dispatch_rpc r =
      if is_version (as_string r.jsonrpc) && valid_json_rpc_id r.id
      then dispatch_valid (as_string r.method) r.params
      else rpc_error invalid_request "Invalid Request"

  -- rpcEnvelope: a request with no id gets no reply.
  unfoldable pub rpc_envelope : JsonRpcRequest → Option JsonObject
  unfolding dispatch_rpc envelope_for
  rpc_envelope r = envelope_for r.id (dispatch_rpc r)

-- The bytes in UTF-8 of a code point in a serialised text. One between 0xd800 and 0xdfff is escaped.
unfoldable pub code_bytes : ℕ → ℕ
code_bytes c =
    if c == 34 || c == 92 || c == 8 || c == 9 || c == 10 || c == 12 || c == 13
    then 2
    else if ltb c 32
    then 6
    else if ltb c 128
    then 1
    else if ltb c 2048
    then 2
    else if leb 55296 c && leb c 57343
    then 6
    else if ltb c 65536
    then 3
    else 4

unfoldable pub codes_bytes : List ℕ → ℕ
unfolding code_bytes
codes_bytes [] = 0
codes_bytes (c ∷ cs) = code_bytes c + codes_bytes cs

unfoldable pub text_bytes : String → ℕ
unfolding codes_bytes
text_bytes s = 2 + codes_bytes (codes s)

-- `Buffer.byteLength(JSON.stringify(value), "utf8")`; `number_bytes` is the length of the text of a
-- number. In a list or an object every member has a comma but the last.
module _ (number_bytes : Number → ℕ) where
  unfoldable mutual
    unfolding text_bytes

    pub json_bytes : Json → ℕ
    json_bytes null = 4
    json_bytes (boolean b) = if b then 4 else 5
    json_bytes (number n) = number_bytes n
    json_bytes (string s) = text_bytes s
    json_bytes (array vs) = 2 + (members_bytes vs - 1)
    json_bytes (object fs) = 2 + (fields_bytes fs - 1)

    pub members_bytes : JsonList → ℕ
    members_bytes nil = 0
    members_bytes (cons v vs) = json_bytes v + 1 + members_bytes vs

    pub fields_bytes : JsonObject → ℕ
    fields_bytes empty = 0
    fields_bytes (field k v fs) = text_bytes k + 1 + json_bytes v + 1 + fields_bytes fs

  -- The serialised list of replies.
  unfoldable pub replies_sum : List JsonObject → ℕ
  unfolding json_bytes
  replies_sum [] = 0
  replies_sum (r ∷ rs) = json_bytes (object r) + 1 + replies_sum rs

  unfoldable pub replies_bytes : List JsonObject → ℕ
  unfolding replies_sum
  replies_bytes rs = 2 + (replies_sum rs - 1)

-- boundBatchReplies, for what is left of the replies.
module _ (number_bytes : Number → ℕ) where
  abbrev id_of : Option Json → Json
  id_of none = null
  id_of (some v) = v

  unfoldable pub replacement : JsonObject → JsonObject
  unfolding json_bytes
  replacement reply =
      let id = id_of (get "id" reply) in
      field "jsonrpc" (string "2.0") (
        field "id" (if leb (json_bytes number_bytes id) 1024 then id else null) (
          field "error"
            (object (
              field "code" (number (Number.minus 32000))
                (field "message" (string "Response omitted by batch size limit") empty)))
            empty))

  unfoldable pub bound_from : List JsonObject → List JsonObject → List JsonObject
  unfolding replacement replies_bytes
  bound_from bounded [] = bounded
  bound_from bounded (reply ∷ replies) =
      bound_from
        (if leb (replies_bytes number_bytes (bounded ++ reply ∷ []))
            (1048576 - length replies * 2048)
          then bounded ++ reply ∷ []
          else bounded ++ replacement reply ∷ [])
        replies

  unfoldable pub bound_batch_replies : List JsonObject → List JsonObject
  unfolding bound_from
  bound_batch_replies replies = bound_from [] replies
