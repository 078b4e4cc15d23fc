-- ===== src/Http.antt =====
-- The HTTP server of the MCP (apps/mcp/src/http.ts): the session table, the count of requests in
-- flight, and the handler of createMcpHttpServer from the count on. What the request's body decodes
-- to, the outcome of `authenticate` and of dispatchRpc are arguments. A refusal is the
-- HttpInputError with its status.
pub mod Pinning
pub mod Capacity
use neuromem.Prelude.{
  ℕ, ◌+◌, ◌-◌, String, Bool, true, false, not, ◌&&◌, ◌||◌, Option, none, some, List, [], ◌∷◌,
  length, keep, str_eq, leb, ltb, if◌then◌else◌,
}

pub record Session : Type 0 where
  pub last_seen_at : ℕ
  pub credential_id : Option String
  pub auth_identity : Option String

abbrev pub Sessions : Type 0
Sessions = List (String × Session)

pub record Limits : Type 0 where
  pub session_ttl_ms : ℕ
  pub max_sessions : ℕ
  pub max_in_flight : ℕ

pub record Server : Type 0 where
  pub sessions : Sessions
  pub active_requests : ℕ

-- What `authenticate` gives besides the dispatcher.
pub record Credential : Type 0 where
  pub credential_id : Option String
  pub auth_identity : Option String

unfoldable pub same_text_option : Option String → Option String → Bool
same_text_option none none = true
same_text_option (some a) (some b) = str_eq a b
same_text_option _ _ = false

unfoldable pub find_session : String → Sessions → Option Session
find_session id [] = none
find_session id ((i, x) ∷ xs) = if str_eq i id then some x else find_session id xs

unfoldable pub delete_session : String → Sessions → Sessions
delete_session id xs = keep (λ f. not (str_eq f.0 id)) xs

-- `sessions.set(id, session)`
unfoldable pub set_session : String → Session → Sessions → Sessions
set_session id x [] = (id, x) ∷ []
set_session id x ((i, y) ∷ ys) =
    let rest = set_session id x ys in if str_eq i id then (i, x) ∷ ys else (i, y) ∷ rest

-- `pruneSessions`
unfoldable pub prune_sessions : ℕ → ℕ → Sessions → Sessions
unfolding keep
prune_sessions ttl now xs = keep (λ f. leb (now - (f.1).last_seen_at) ttl) xs

pub data Required : Type 0 where
  required : String → Required
  refused : ℕ → Required

-- The checks of `requireSession` on what the table has for the id.
unfoldable pub check_session : String → Credential → Option Session → Required
unfolding same_text_option
check_session id c none = refused 404
check_session id c (some x) =
    if not (same_text_option x.credential_id c.credential_id)
    then refused 401
    else if not (same_text_option x.auth_identity c.auth_identity)
    then refused 401
    else required id

-- `session.lastSeenAt = Date.now()`
unfoldable pub touch_session : String → ℕ → Sessions → Sessions
touch_session id now [] = []
touch_session id now ((i, x) ∷ xs) =
    let rest = touch_session id now xs in
    if str_eq i id then (i, record x { last_seen_at = now }) ∷ xs else (i, x) ∷ rest

unfoldable pub touch_required : Required → ℕ → Sessions → Sessions
unfolding touch_session
touch_required (refused status) now xs = xs
touch_required (required id) now xs = touch_session id now xs

-- `requireSession`, by the Mcp-Session-Id header.
unfoldable pub require_session : ℕ → ℕ → Option String → Credential → Sessions → Required × Sessions
unfolding prune_sessions check_session touch_required find_session
require_session ttl now none c xs = (refused 400, prune_sessions ttl now xs)
require_session ttl now (some id) c xs =
    let live = prune_sessions ttl now xs in
    if str_eq id ""
    then (refused 400, live)
    else let r = check_session id c (find_session id live) in (r, touch_required r now live)

pub data Method : Type 0 where
  get_method delete_method post_method other_method : Method

-- What dispatchRpc gives for a single request, by whether the serialised reply has at most one MiB.
pub data RpcOutcome : Type 0 where
  returned thrown : Bool → RpcOutcome

-- The body of a POST: a batch, by whether one of it is `initialize` and how many replies it has, or
-- a single request, by whether it is `initialize` and has an id; or `readJson` throws.
pub data Incoming : Type 0 where
  unreadable : ℕ → Incoming
  batch : Bool → ℕ → Incoming
  single : Bool → Bool → RpcOutcome → Incoming

pub record HttpReply : Type 0 where
  pub status : ℕ
  pub session_header : Option String

abbrev pub plain : ℕ → HttpReply
plain status = record { status = status; session_header = none }

abbrev pub with_session : ℕ → String → HttpReply
with_session status id = record { status = status; session_header = some id }

unfoldable pub after_get : Required → HttpReply
after_get (refused status) = plain status
after_get (required id) = plain 405

unfoldable pub after_delete : Required × Sessions → HttpReply × Sessions
unfolding delete_session
after_delete (refused status, xs) = (plain status, xs)
after_delete (required id, xs) = (plain 204, delete_session id xs)

unfoldable pub after_batch : ℕ → Required → HttpReply
after_batch replies (refused status) = plain status
after_batch replies (required id) = with_session (if leb 1 replies then 200 else 202) id

-- The status that `writeJson` writes for a reply.
unfoldable pub reply_status : Bool → ℕ
reply_status fits = if fits then 200 else 500

-- The end of a single request that is not `initialize`.
unfoldable pub after_call : Bool → RpcOutcome → Required → HttpReply
unfolding reply_status
after_call has_id outcome (refused status) = plain status
after_call has_id (returned fits) (required id) =
    with_session (if has_id then reply_status fits else 202) id
after_call has_id (thrown fits) (required id) =
    if has_id then with_session (reply_status fits) id else plain 202

abbrev pub session_of : ℕ → Credential → Session
session_of now c = record {
  last_seen_at = now;
  credential_id = c.credential_id;
  auth_identity = c.auth_identity;
}

-- The end of `initialize`: the session is deleted again if the call throws.
unfoldable pub after_open : String → Sessions → RpcOutcome → HttpReply × Sessions
unfolding delete_session reply_status
after_open fresh opened (returned fits) = (with_session (reply_status fits) fresh, opened)
after_open fresh opened (thrown fits) = (plain (reply_status fits), delete_session fresh opened)

-- `initialize`, on the sessions that are not expired.
unfoldable pub open_session :
    Limits → ℕ → String → Credential → Sessions → RpcOutcome → HttpReply × Sessions
unfolding set_session after_open
open_session l now fresh c live outcome =
    if leb l.max_sessions (length live)
    then (plain 503, live)
    else after_open fresh (set_session fresh (session_of now c) live) outcome

abbrev has_header : Option String → Bool
has_header none = false
has_header (some id) = not (str_eq id "")

-- The POST, from the decoded body on; `fresh` is what uuid7() returns.
unfoldable pub handle_post :
    Limits → ℕ → String → Option String → Credential → Incoming → Sessions → HttpReply × Sessions
unfolding require_session after_batch after_call open_session prune_sessions
handle_post l now fresh header c (unreadable status) xs = (plain status, xs)
handle_post l now fresh header c (batch initializing replies) xs =
    let r = require_session l.session_ttl_ms now header c xs in
    if initializing then (plain 400, xs) else (after_batch replies r.0, r.1)
handle_post l now fresh header c (single initializing has_id outcome) xs =
    let r = require_session l.session_ttl_ms now header c xs in
    if not initializing
    then (after_call has_id outcome r.0, r.1)
    else if not has_id
    then (plain 400, xs)
    else if has_header header
    then (plain 400, xs)
    else open_session l now fresh c (prune_sessions l.session_ttl_ms now xs) outcome

-- The handler from `authenticate` on; `none` is a request that it refuses.
unfoldable pub handle :
    Limits
    → ℕ
    → String
    → Method
    → Option String
    → Option Credential
    → Incoming
    → Sessions
    → HttpReply × Sessions
unfolding require_session after_get after_delete handle_post
handle l now fresh method header none incoming xs = (plain 401, xs)
handle l now fresh get_method header (some c) incoming xs =
    let r = require_session l.session_ttl_ms now header c xs in (after_get r.0, r.1)
handle l now fresh delete_method header (some c) incoming xs =
    after_delete (require_session l.session_ttl_ms now header c xs)
handle l now fresh other_method header (some c) incoming xs = (plain 405, xs)
handle l now fresh post_method header (some c) incoming xs =
    handle_post l now fresh header c incoming xs

-- The count at the start of a request: `none` is the refusal with 503.
unfoldable pub enter : Limits → Server → Option Server
enter l s =
    if leb l.max_in_flight s.active_requests
    then none
    else some (record s { active_requests = s.active_requests + 1 })

-- `finally`, for a request that was counted.
unfoldable pub leave : Server → Server
leave s = record s { active_requests = s.active_requests - 1 }
