-- ===== src/Http/Capacity.antt =====
-- The bounds of the HTTP server (apps/mcp/src/http.ts): sessions and requests in flight.
use neuromem.Prelude.{
  ℕ, ◌+◌, ◌-◌, ◌≤◌, ◌≡◌, String, not, refl, Option, none, some, List, [], ◌∷◌, length,
  length-keep-le, str_eq, leb, arith, Bool-cases, inl, inr,
}
use neuromem.Http.{
  Session, Sessions, Limits, Server, Credential, Method, Incoming, RpcOutcome, Required, required,
  refused, delete_session, set_session, prune_sessions, find_session, check_session, session_of,
  after_open, touch_session, touch_required, require_session, after_delete, open_session,
  handle_post, handle, enter, leave, unreadable, batch, single, get_method, delete_method,
  post_method, other_method, returned, thrown,
}

length-set_session-le :
    (id : String) (x : Session) (xs : Sessions) → length (set_session id x xs) ≤ length xs + 1
unfolding set_session
length-set_session-le id x [] = omega arith
length-set_session-le id x (y ∷ ys) = ground (arith, length-set_session-le id x ys)

length-touch_session :
    (id : String) (now : ℕ) (xs : Sessions) → length (touch_session id now xs) ≡ length xs
unfolding touch_session
length-touch_session id now [] = refl
length-touch_session id now (x ∷ xs) = ground (arith, length-touch_session id now xs)

length-touch_required :
    (r : Required) (now : ℕ) (xs : Sessions) → length (touch_required r now xs) ≡ length xs
unfolding touch_required
length-touch_required (refused status) now xs = refl
length-touch_required (required id) now xs = length-touch_session id now xs

length-prune_sessions-le :
    (ttl now : ℕ) (xs : Sessions) → length (prune_sessions ttl now xs) ≤ length xs
unfolding prune_sessions
length-prune_sessions-le ttl now xs = length-keep-le (λ f. leb (now - (f.1).last_seen_at) ttl) xs

length-require_session-le :
    (ttl now : ℕ) (header : Option String) (c : Credential) (xs : Sessions)
    → length (require_session ttl now header c xs).1 ≤ length xs
unfolding require_session
length-require_session-le ttl now none c xs = length-prune_sessions-le ttl now xs
length-require_session-le ttl now (some id) c xs = ground (
  arith,
  length-prune_sessions-le ttl now xs,
  length-touch_required (check_session id c (find_session id (prune_sessions ttl now xs))) now
      (prune_sessions ttl now xs),
)

length-delete_session-le : (id : String) (xs : Sessions) → length (delete_session id xs) ≤ length xs
unfolding delete_session
length-delete_session-le id xs = length-keep-le (λ f. not (str_eq f.0 id)) xs

length-after_delete-le :
    (r : Required) (xs : Sessions) → length (after_delete (r, xs)).1 ≤ length xs
unfolding after_delete
length-after_delete-le (refused status) xs = omega arith
length-after_delete-le (required id) xs = length-delete_session-le id xs

length-opened-le :
    (fresh : String) (opened : Sessions) (outcome : RpcOutcome) (bound : ℕ)
    → length opened ≤ bound
    → length (after_open fresh opened outcome).1 ≤ bound
unfolding after_open
length-opened-le fresh opened (returned fits) bound h = h
length-opened-le fresh opened (thrown fits) bound h =
    omega (arith, h, length-delete_session-le fresh opened)

length-open_session-le :
    (l : Limits) (now : ℕ) (fresh : String) (c : Credential) (live : Sessions)
    (outcome : RpcOutcome)
    → length live ≤ l.max_sessions
    → length (open_session l now fresh c live outcome).1 ≤ l.max_sessions
unfolding open_session
length-open_session-le l now fresh c live outcome h =
    let opened = set_session fresh (session_of now c) live in
    elim (Bool-cases (leb l.max_sessions (length live))) [
      | inl full ↦ rw full h
      | inr room ↦ rw room (
          length-opened-le fresh opened outcome l.max_sessions
            (ground (arith, room, length-set_session-le fresh (session_of now c) live)))
    ]

length-handle_post-le :
    (l : Limits) (now : ℕ) (fresh : String) (header : Option String) (c : Credential)
    (incoming : Incoming) (xs : Sessions)
    → length xs ≤ l.max_sessions
    → length (handle_post l now fresh header c incoming xs).1 ≤ l.max_sessions
unfolding handle_post
length-handle_post-le l now fresh header c (unreadable status) xs h = h
length-handle_post-le l now fresh header c (batch initializing replies) xs h =
    ground (arith, length-require_session-le l.session_ttl_ms now header c xs)
length-handle_post-le l now fresh header c (single initializing has_id outcome) xs h =
    let live = prune_sessions l.session_ttl_ms now xs in
    ground (
      arith,
      length-require_session-le l.session_ttl_ms now header c xs,
      length-prune_sessions-le l.session_ttl_ms now xs,
      length-open_session-le l now fresh c live outcome,
    )

length-handle-le :
    (l : Limits) (now : ℕ) (fresh : String) (method : Method) (header : Option String)
    (c : Option Credential) (incoming : Incoming) (xs : Sessions)
    → length xs ≤ l.max_sessions
    → length (handle l now fresh method header c incoming xs).1 ≤ l.max_sessions
unfolding handle
length-handle-le l now fresh method header none incoming xs h = h
length-handle-le l now fresh get_method header (some c) incoming xs h =
    omega (arith, length-require_session-le l.session_ttl_ms now header c xs)
length-handle-le l now fresh delete_method header (some c) incoming xs h =
    let r = require_session l.session_ttl_ms now header c xs in
    omega (
      arith,
      length-require_session-le l.session_ttl_ms now header c xs,
      length-after_delete-le r.0 r.1,
    )
length-handle-le l now fresh other_method header (some c) incoming xs h = h
length-handle-le l now fresh post_method header (some c) incoming xs h =
    length-handle_post-le l now fresh header c incoming xs h

-- What happens at the server: a request arrives and is counted, one is handled, one is over.
pub data Event : Type 0 where
  arrive depart : Event
  received : ℕ → String → Method → Option String → Option Credential → Incoming → Event

abbrev entered : Server → Option Server → Server
entered s none = s
entered s (some s') = s'

unfoldable pub server_step : Limits → Event → Server → Server
unfolding handle enter leave
server_step l arrive s = entered s (enter l s)
server_step l depart s = leave s
server_step l (received now fresh method header c incoming) s = record s {
  sessions = (handle l now fresh method header c incoming s.sessions).1;
}

unfoldable pub server_run : Limits → List Event → Server → Server
unfolding server_step
server_run l [] s = s
server_run l (e ∷ es) s = server_run l es (server_step l e s)

abbrev pub Within : Limits → Server → Type 0
Within l s = (length s.sessions ≤ l.max_sessions) × (s.active_requests ≤ l.max_in_flight)

server_step-Within :
    (l : Limits) (e : Event) (s : Server) → Within l s → Within l (server_step l e s)
unfolding server_step enter leave
server_step-Within l arrive s h = ground arith
server_step-Within l depart s h = (h.0, omega (arith, h.1))
server_step-Within l (received now fresh method header c incoming) s h =
    (length-handle-le l now fresh method header c incoming s.sessions h.0, h.1)

-- From a state within the limits, whatever requests come, in whatever order they arrive, run and
-- end, the server never has more sessions than maxSessions and never counts more requests than
-- maxInFlight.
pub server_run-Within :
    (l : Limits) (es : List Event) (s : Server) → Within l s → Within l (server_run l es s)
unfolding server_run
server_run-Within l [] s h = h
server_run-Within l (e ∷ es) s h =
    server_run-Within l es (server_step l e s) (server_step-Within l e s h)
