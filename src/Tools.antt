-- ===== src/Tools.antt =====
-- The memory tools for a credential (apps/mcp/src/tools.ts): the checks of the arguments and the
-- calls of the Control Gateway that MemoryToolDispatcher makes. What the language gives on texts is
-- a parameter (TextLibrary), and so is the table of the keys that a tool's schema has
-- (CONTROL_ALLOWED_KEYS). A call of the gateway is a value that says what is passed.
pub mod Control
pub mod Scope
pub mod Legacy
pub mod Router
use neuromem.Prelude.{
  ℕ, String, Bool, true, false, not, ◌&&◌, ◌||◌, Option, none, some, List, [], ◌∷◌, any, all,
  includes, str_eq, leb, ltb, ◌==◌, if◌then◌else◌, codes,
}
use neuromem.Json.{
  Json, JsonObject, Number, null, boolean, number, string, array, object, empty, field, get, spread,
}
use neuromem.Uuid.{is_uuid, is_uuid7}

pub record AuthContext : Type 0 where
  pub credential_id : String
  pub workspace_id : String
  pub project_id : String
  pub human_peer_id : String
  pub agent_peer_id : Option String
  pub capabilities : List String
  pub client : Option String

-- `trim() === ""`, the test for an RFC 3339 date, `length`, toLowerCase, encodeURIComponent, SHA-256
-- in hexadecimal, and `String(value)`.
pub record TextLibrary : Type 0 where
  pub is_blank : String → Bool
  pub is_date_time : String → Bool
  pub size : String → ℕ
  pub lower : String → String
  pub encode : String → String
  pub sha256 : String → String
  pub print : Json → String

pub data ToolError : Type 0 where
  unknown_tool unsupported_tool unknown_argument bad_argument no_capability no_gateway other_peer :
      ToolError
  scope_mismatch author_mismatch : ToolError

pub data Checked {ℓ} (A : Type ℓ) : Type ℓ where
  fine : A → Checked A
  refused : ToolError → Checked A

infixl 5 ◌>>=◌ ◌>>◌
abbrev pub ◌>>=◌ : {A B : Type 0} → Checked A → (A → Checked B) → Checked B
fine a >>= f = f a
refused e >>= f = refused e

abbrev pub ◌>>◌ : {B : Type 0} → Checked (Unit {0}) → Checked B → Checked B
m >> k = m >>= λ _. k

abbrev pub check : Bool → ToolError → Checked (Unit {0})
check b e = if b then fine tt else refused e

-- TOOL_CAPABILITY
unfoldable pub tool_capability : String → Option String
tool_capability name =
    if includes ("memory_record" ∷ "schedule_dream" ∷ []) name
    then some "project.write"
    else if includes
        ("search_records" ∷ "search_claims" ∷ "recall" ∷ "get_record_context" ∷ "get_claim_evidence"
          ∷ "graph_read" ∷ "representation_read" ∷ "peer_card_read" ∷ "session_context"
          ∷ "dynamic_context" ∷ "dialectic_chat" ∷ "federated_search" ∷ [])
        name
    then some "project.read"
    else if str_eq name "wiki_read"
    then some "wiki.read"
    else if str_eq name "transfer_request"
    then some "transfer.request"
    else none

-- `#hasCapability`, for a dispatcher with a context.
unfoldable pub has_capability : AuthContext → String → Bool
unfolding includes
has_capability c capability =
    includes c.capabilities "*"
    || includes c.capabilities capability
    || (str_eq capability "transfer.request" && includes c.capabilities "transfer.manage")

unfoldable pub require_known : AuthContext → Option String → Checked (Unit {0})
unfolding has_capability
require_known c none = refused unknown_tool
require_known c (some capability) = check (has_capability c capability) no_capability

-- `#requireCapability`
unfoldable pub require_capability : AuthContext → String → Checked (Unit {0})
unfolding require_known tool_capability
require_capability c name = require_known c (tool_capability name)

keys_of : JsonObject → List String
keys_of empty = []
keys_of (field k v fs) = k ∷ keys_of fs

-- `rejectUnknown` and `rejectUnknownControl`
unfoldable pub reject_unknown : Option (List String) → JsonObject → Checked (Unit {0})
unfolding keys_of all
reject_unknown none input = refused unknown_tool
reject_unknown (some allowed) input =
    check (all (λ k. includes allowed k) (keys_of input)) unknown_argument

module _ (lib : TextLibrary) where
  unfoldable pub string_value : Option Json → Checked String
  string_value (some (string s)) = if lib.is_blank s then refused bad_argument else fine s
  string_value _ = refused bad_argument

  -- requiredString
  unfoldable pub required_string : JsonObject → String → Checked String
  unfolding string_value
  required_string input key = string_value (get key input)

  unfoldable pub bounded_value : ℕ → Option Json → Checked (Option String)
  bounded_value maximum none = fine none
  bounded_value maximum (some (string s)) =
      if leb 1 (lib.size s) && leb (lib.size s) maximum then fine (some s) else refused bad_argument
  bounded_value maximum (some _) = refused bad_argument

  -- optionalString
  unfoldable pub optional_string : JsonObject → String → ℕ → Checked (Option String)
  unfolding bounded_value
  optional_string input key maximum = bounded_value maximum (get key input)

  unfoldable pub date_value : Option String → Checked (Option String)
  date_value none = fine none
  date_value (some s) = if lib.is_date_time s then fine (some s) else refused bad_argument

  -- optionalDateTime
  unfoldable pub optional_date_time : JsonObject → String → Checked (Option String)
  unfolding date_value optional_string
  optional_date_time input key = optional_string input key 64 >>= date_value

  -- requiredUuid
  unfoldable pub required_uuid : JsonObject → String → Checked String
  unfolding required_string
  required_uuid input key = do
    value ← required_string input key
    if is_uuid value then fine (lib.lower value) else refused bad_argument

  -- requiredUuid7: the version's digit of a UUID is `7`.
  unfoldable pub required_uuid7 : JsonObject → String → Checked String
  unfolding required_uuid
  required_uuid7 input key = do
    value ← required_uuid input key
    if is_uuid7 value then fine (lib.lower value) else refused bad_argument

  unfoldable pub present : Option Json → Checked String → Checked (Option String)
  present none value = fine none
  present (some v) value = value >>= λ s. fine (some s)

  -- optionalUuid and optionalUuid7
  unfoldable pub optional_uuid : JsonObject → String → Checked (Option String)
  unfolding present required_uuid
  optional_uuid input key = present (get key input) (required_uuid input key)

  unfoldable pub optional_uuid7 : JsonObject → String → Checked (Option String)
  unfolding present required_uuid7
  optional_uuid7 input key = present (get key input) (required_uuid7 input key)

  -- `#query`
  unfoldable pub query_of : JsonObject → Checked String
  unfolding required_string
  query_of input = do
    query ← required_string input "query"
    if leb (lib.size query) 10000 then fine query else refused bad_argument

  -- The test of a long text: `length > 1_000_000 || includes("\0")`.
  unfoldable pub long_text : JsonObject → String → Checked String
  unfolding required_string any
  long_text input key = do
    text ← required_string input key
    if leb (lib.size text) 1000000 && not (any (λ c. c == 0) (codes text))
        then fine text
        else refused bad_argument

unfoldable pub boolean_value : Bool → Option Json → Checked Bool
boolean_value fallback none = fine fallback
boolean_value fallback (some (boolean b)) = fine b
boolean_value fallback (some _) = refused bad_argument

-- optionalBoolean
unfoldable pub optional_boolean : JsonObject → String → Bool → Checked Bool
unfolding boolean_value
optional_boolean input key fallback = boolean_value fallback (get key input)

unfoldable pub integer_value : ℕ → ℕ → Option Json → Checked (Option ℕ)
integer_value low high none = fine none
integer_value low high (some (number (Number.nat n))) =
    if leb low n && leb n high then fine (some n) else refused bad_argument
integer_value low high (some _) = refused bad_argument

-- optionalLimit
unfoldable pub optional_limit : JsonObject → Checked (Option ℕ)
unfolding integer_value
optional_limit input = integer_value 1 50 (get "limit" input)
