-- ===== src/Tools/Scope.antt =====
-- Which scope a call of the gateway has (apps/mcp/src/tools.ts).
use neuromem.Prelude.{
  String, Bool, true, false, ◌≡◌, refl, ◌⊎◌, inl, inr, Option, none, some, List, arith,
  if◌then◌else◌, subst,
}
use neuromem.Json.{JsonObject, JsonList, Json, string, field, get}
use neuromem.Tools.{
  AuthContext, TextLibrary, Checked, fine, refused, ◌>>=◌, has_capability, tool_capability,
  require_known, require_capability, ToolError, check, reject_unknown, no_gateway,
}
use neuromem.Tools.Control.{
  GatewayCall, record_batch, get_request, post_request, record_call, gateway_recall, recall_call,
  peer_call, session_call, query_call, context_call, chat_call, dream_call, transfer_call,
  call_gateway, call_control, scoped, text3,
}

-- What is returned, if anything is, has the property.
unfoldable pub Always {ℓ} : {A : Type 0} → (A → Type ℓ) → Checked A → Type ℓ
Always P (fine a) = P a
Always P (refused e) = Unit

pub Always-bind :
    {A B : Type 0} (P : B → Type 0) (m : Checked A) (f : A → Checked B)
    → ((a : A) → Always P (f a))
    → Always P (m >>= f)
unfolding Always
Always-bind P (fine a) f h = h a
Always-bind P (refused e) f h = tt

-- The members that name the scope are those of the credential.
abbrev pub HasScope : AuthContext → JsonObject → Type 0
HasScope c fs =
    (get "workspace_id" fs ≡ some (string c.workspace_id))
    × (get "project_id" fs ≡ some (string c.project_id))

-- The call is made in the scope of the credential: by its members, by those that name the source of
-- a transfer, or by the path of the project's wiki.
abbrev pub InScope : TextLibrary → AuthContext → GatewayCall → Type 0
InScope lib c (record_batch session body key) = HasScope c body
InScope lib c (get_request path query) =
    HasScope c query ⊎ (path ≡ text3 "/api/v1/projects/" (lib.encode c.project_id) "/wiki")
InScope lib c (post_request path body) =
    HasScope c body
    ⊎ ((get "source_workspace_id" body ≡ some (string c.workspace_id))
        × (get "source_project_id" body ≡ some (string c.project_id)))

module _ (lib : TextLibrary) (c : AuthContext) where
  fields-HasScope : (rest : JsonObject) → Always (HasScope c) (fine (scoped c rest))
  unfolding Always get
  fields-HasScope rest = (refl, refl)

  get-InScope :
      (path : String) (rest : JsonObject)
      → Always (InScope lib c) (fine (get_request path (scoped c rest)))
  unfolding Always get
  get-InScope path rest = inl (refl, refl)

  post-InScope :
      (path : String) (rest : JsonObject)
      → Always (InScope lib c) (fine (post_request path (scoped c rest)))
  unfolding Always get
  post-InScope path rest = inl (refl, refl)

  batch-InScope :
      (session key : String) (rest : JsonObject)
      → Always (InScope lib c) (fine (record_batch session (scoped c rest) key))
  unfolding Always get
  batch-InScope session key rest = (refl, refl)

  transferred-InScope :
      (path : String) (rest : JsonObject)
      → Always (InScope lib c) (
          fine (
            post_request path (
              field "source_workspace_id"
                (string c.workspace_id)
                (field "source_project_id" (string c.project_id) rest))))
  unfolding Always get
  transferred-InScope path rest = inr (refl, refl)

  recall-HasScope :
      (input : JsonObject) (include : JsonList)
      → Always (HasScope c) (gateway_recall lib c input include)
  unfolding gateway_recall
  recall-HasScope input include = search (Always-bind, fields-HasScope) depth 20

  record-InScope :
      (fresh : String) (input : JsonObject) → Always (InScope lib c) (record_call lib c fresh input)
  unfolding record_call
  record-InScope fresh input = search (Always-bind, batch-InScope) depth 20

  transfer-InScope : (input : JsonObject) → Always (InScope lib c) (transfer_call lib c input)
  unfolding transfer_call
  transfer-InScope input = search (Always-bind, transferred-InScope) depth 20

  peer-InScope :
      (part : String) (input : JsonObject) → Always (InScope lib c) (peer_call lib c part input)
  unfolding peer_call
  peer-InScope part input = search (Always-bind, get-InScope)

  session-InScope : (input : JsonObject) → Always (InScope lib c) (session_call lib c input)
  unfolding session_call
  session-InScope input = search (Always-bind, get-InScope)

  query-InScope :
      (path key : String) (extra : Option Json) (input : JsonObject)
      → Always (InScope lib c) (query_call lib c path key extra input)
  unfolding query_call
  query-InScope path key extra input = search (Always-bind, post-InScope) depth 7

  context-InScope : (input : JsonObject) → Always (InScope lib c) (context_call lib c input)
  unfolding context_call
  context-InScope input = search (Always-bind, query-InScope)

  chat-InScope : (input : JsonObject) → Always (InScope lib c) (chat_call lib c input)
  unfolding chat_call
  chat-InScope input = search (Always-bind, query-InScope)

  dream-InScope : (input : JsonObject) → Always (InScope lib c) (dream_call lib c input)
  unfolding dream_call
  dream-InScope input = search (Always-bind, post-InScope)

  posted-InScope :
      (m : Checked JsonObject)
      → Always (HasScope c) m
      → Always (InScope lib c) (m >>= λ body. fine (post_request "/api/v1/recall" body))
  unfolding Always
  posted-InScope (fine body) h = inl h
  posted-InScope (refused e) h = tt

  recall-InScope :
      (input : JsonObject) (include : JsonList)
      → Always (InScope lib c) (recall_call lib c input include)
  unfolding recall_call
  recall-InScope input include =
      posted-InScope (gateway_recall lib c input include) (recall-HasScope input include)

  Always-if :
      (b : Bool) (m n : Checked GatewayCall)
      → Always (InScope lib c) m
      → Always (InScope lib c) n
      → Always (InScope lib c) (if b then m else n)
  Always-if true m n x y = x
  Always-if false m n x y = y

  wiki-InScope :
      (fs : JsonObject)
      → Always
          (InScope lib c)
          (fine (get_request (text3 "/api/v1/projects/" (lib.encode c.project_id) "/wiki") fs))
  unfolding Always
  wiki-InScope fs = inr refl

  Always-refused : (e : ToolError) → Always (InScope lib c) (refused e)
  unfolding Always
  Always-refused e = tt

  gateway-InScope :
      (fresh name : String) (input : JsonObject)
      → Always (InScope lib c) (call_gateway lib c fresh name input)
  unfolding call_gateway
  gateway-InScope fresh name input =
      search
        (
          Always-if, record-InScope, recall-InScope, wiki-InScope, peer-InScope, session-InScope,
          context-InScope, chat-InScope, dream-InScope, transfer-InScope, Always-refused,
        )
        depth 20

pub Always-after :
    {B : Type 0} (P : B → Type 0) (m : Checked (Unit {0})) (n : Checked B)
    → (m ≡ fine tt → Always P n)
    → Always P (m >>= λ _. n)
unfolding Always
Always-after P (fine a) n h = h refl
Always-after P (refused e) n h = tt

pub Always-and :
    {B : Type 0} (Q : Type 0) (P : B → Type 0) (m : Checked B)
    → Q
    → Always P m
    → Always (λ b. Q × P b) m
unfolding Always
Always-and Q P (fine b) q h = (q, h)
Always-and Q P (refused e) q h = tt

pub Always-of_fine :
    {A : Type 0} (P : A → Type 0) (m : Checked A) (a : A) → m ≡ fine a → Always P m → P a
unfolding Always
Always-of_fine P m a e p = subst (Always P) e p

-- The credential holds the capability of the tool.
abbrev pub Allowed : AuthContext → String → Type 0
Allowed c name =
    (capability : String) × (tool_capability name ≡ some capability)
    × (has_capability c capability ≡ true)

pub require_known-Allowed :
    (c : AuthContext) (known : Option String)
    → require_known c known ≡ fine tt
    → (capability : String) × (known ≡ some capability) × (has_capability c capability ≡ true)
unfolding require_known
require_known-Allowed c none h = ground arith
require_known-Allowed c (some capability) h = (capability, refl, ground arith)

control-Allowed :
    (lib : TextLibrary) (c : AuthContext) (allowed : String → Option (List String))
    (has_gateway : Bool) (fresh name : String) (input : JsonObject)
    → Always
        (λ call. Allowed c name × InScope lib c call)
        (call_control lib c allowed has_gateway fresh name input)
unfolding call_control require_capability
control-Allowed lib c allowed has_gateway fresh name input =
    let P : GatewayCall → Type 0 = λ call. Allowed c name × InScope lib c call in
    Always-after P (reject_unknown (allowed name) input) _ (λ known.
      Always-after P (require_known c (tool_capability name)) _ (λ held.
        Always-after P (check has_gateway no_gateway) _ (λ there.
          Always-and (Allowed c name) (InScope lib c) (call_gateway lib c fresh name input)
            (require_known-Allowed c (tool_capability name) held)
            (gateway-InScope lib c fresh name input))))

-- Whatever arguments a tool is called with, a call that reaches the gateway is one that the
-- credential's capabilities allow, and it is made in the credential's own Workspace and Project.
pub call_control-InScope :
    (lib : TextLibrary) (c : AuthContext) (allowed : String → Option (List String))
    (has_gateway : Bool) (fresh name : String) (input : JsonObject) (call : GatewayCall)
    → call_control lib c allowed has_gateway fresh name input ≡ fine call
    → Allowed c name × InScope lib c call
call_control-InScope lib c allowed has_gateway fresh name input call e =
    Always-of_fine (λ x. Allowed c name × InScope lib c x)
      (call_control lib c allowed has_gateway fresh name input) call e
      (control-Allowed lib c allowed has_gateway fresh name input)
