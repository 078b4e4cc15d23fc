-- ===== src/Rpc/Envelope.antt =====
-- What the reply to one request is (apps/mcp/src/http.ts), and which tools a request reaches
-- (apps/mcp/src/rpc.ts).
use neuromem.Prelude.{
  String, Bool, true, false, str_eq, str_eq_iff, ◌≡◌, refl, ◌⊎◌, inl, inr, Option, none, some, List,
  arith, includes, if◌then◌else◌, get_or_else,
}
use neuromem.Json.{Json, JsonObject, null, get, as_string, as_object, empty}
use neuromem.Rpc.{
  JsonRpcRequest, RpcFailure, ToolResult, Dispatched, answered, rpc_error, valid_json_rpc_id,
  call_tool, dispatch_method, dispatch_valid, dispatch_rpc, reply_with, result_reply, error_reply,
  envelope_for, rpc_envelope,
}

-- What a reply has besides its id, for the id `id`: a result and no error; neither, for the method
-- `notifications/initialized`; or an error and no result, for null in place of what is no id.
abbrev pub HasOutcome : Option String → Json → JsonObject → Type 0
HasOutcome method id fs =
    ((get "id" fs ≡ some id) × (get "error" fs ≡ none) × (v : Json) × (get "result" fs ≡ some v))
    ⊎ ((get "id" fs ≡ some id)
        × (get "error" fs ≡ none)
        × (get "result" fs ≡ none)
        × (method ≡ some "notifications/initialized"))
    ⊎ ((get "id" fs ≡ some (if valid_json_rpc_id (some id) then id else null))
        × (get "result" fs ≡ none)
        × (e : Json) × (get "error" fs ≡ some e))

abbrev pub IsReply : Option String → Option Json → Option JsonObject → Type 0
IsReply method none reply = reply ≡ none
IsReply method (some id) reply = (fs : JsonObject) × (reply ≡ some fs) × HasOutcome method id fs

-- A dispatch that returns undefined.
unfoldable Silent : Option String → Dispatched → Type 0
Silent method (answered none) = method ≡ some "notifications/initialized"
Silent method (answered (some v)) = Unit
Silent method (rpc_error code message) = Unit

reply_with-IsReply :
    (method : Option String) (id : Json) (d : Dispatched)
    → Silent method d
    → IsReply method (some id) (some (reply_with id d))
unfolding reply_with result_reply error_reply get Silent
reply_with-IsReply method id (answered none) h = (_, refl, inr (inl (refl, refl, refl, h)))
reply_with-IsReply method id (answered (some v)) h = (_, refl, inl (refl, refl, v, refl))
reply_with-IsReply method id (rpc_error code message) h = (_, refl, inr (inr (refl, refl, _, refl)))

envelope_for-IsReply :
    (method : Option String) (id : Option Json) (d : Dispatched)
    → Silent method d
    → IsReply method id (envelope_for id d)
unfolding envelope_for
envelope_for-IsReply method none d h = refl
envelope_for-IsReply method (some id) d h = reply_with-IsReply method id d h

Silent-if :
    (method : Option String) (b : Bool) (d d' : Dispatched)
    → (b ≡ true → Silent method d)
    → Silent method d'
    → Silent method (if b then d else d')
Silent-if method true d d' h h' = h refl
Silent-if method false d d' h h' = h'

Silent-value : (method : Option String) (v : Json) → Silent method (answered (some v))
unfolding Silent
Silent-value method v = tt

Silent-error :
    (method : Option String) (code : RpcFailure) (message : String)
    → Silent method (rpc_error code message)
unfolding Silent
Silent-error method code message = tt

Silent-initialized :
    (m : String) → str_eq m "notifications/initialized" ≡ true → Silent (some m) (answered none)
unfolding Silent
Silent-initialized m h = rw ((str_eq_iff m "notifications/initialized").0 h) refl

module _ (tools : List String) (listing : Json) (call : String → Option Json → ToolResult)
    (summary : Json → String) where
  call_tool-Silent :
      (method : Option String) (params : JsonObject)
      → Silent method (call_tool tools listing call summary params)
  unfolding call_tool
  call_tool-Silent method params = search (Silent-if, Silent-value, Silent-error)

  dispatch_valid-Silent :
      (method : Option String) (params : Option Json)
      → Silent method (dispatch_valid tools listing call summary method params)
  unfolding dispatch_valid dispatch_method
  dispatch_valid-Silent none params = search (Silent-error)
  dispatch_valid-Silent (some m) params =
      search (Silent-if, Silent-value, Silent-error, Silent-initialized, call_tool-Silent) depth 20

  dispatch_rpc-Silent :
      (r : JsonRpcRequest) → Silent (as_string r.method) (dispatch_rpc tools listing call summary r)
  unfolding dispatch_rpc
  dispatch_rpc-Silent r = search (Silent-if, dispatch_valid-Silent, Silent-error)

-- A request without an id gets no reply; any other gets one. The reply is for its id with a result
-- and no error, or for its id, or for null where that is no id, with an error and no result; only for
-- the method notifications/initialized can it have neither.
pub rpc_envelope-IsReply :
    (tools : List String) (listing : Json) (call : String → Option Json → ToolResult)
    (summary : Json → String) (r : JsonRpcRequest)
    → IsReply (as_string r.method) r.id (rpc_envelope tools listing call summary r)
unfolding rpc_envelope
rpc_envelope-IsReply tools listing call summary r =
    envelope_for-IsReply (as_string r.method) r.id _
      (dispatch_rpc-Silent tools listing call summary r)

module _ (tools : List String) (listing : Json) (call call' : String → Option Json → ToolResult)
    (summary : Json → String)
    (same : (name : String) (given : Option Json)
      → includes tools name ≡ true
      → call name given ≡ call' name given) where
  call_tool-listed :
      (params : JsonObject)
      → call_tool tools listing call summary params ≡ call_tool tools listing call' summary params
  unfolding call_tool
  call_tool-listed params =
      ground (arith, same (get_or_else (as_string (get "name" params)) "") (get "arguments" params))

  dispatch_valid-listed :
      (method : Option String) (params : Option Json)
      → dispatch_valid tools listing call summary method params
        ≡ dispatch_valid tools listing call' summary method params
  unfolding dispatch_valid dispatch_method
  dispatch_valid-listed none params = refl
  dispatch_valid-listed (some method) params =
      rw (call_tool-listed (get_or_else (as_object params) empty)) refl

-- A request reaches only tools that are listed: two tool sets that agree on those answer it alike.
pub dispatch_rpc-listed :
    (tools : List String) (listing : Json) (call call' : String → Option Json → ToolResult)
    (summary : Json → String) (r : JsonRpcRequest)
    → ((name : String) (given : Option Json)
        → includes tools name ≡ true
        → call name given ≡ call' name given)
    → dispatch_rpc tools listing call summary r ≡ dispatch_rpc tools listing call' summary r
unfolding dispatch_rpc
dispatch_rpc-listed tools listing call call' summary r same =
    rw (dispatch_valid-listed tools listing call call' summary same (as_string r.method) r.params)
      refl
