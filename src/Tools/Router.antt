-- ===== src/Tools/Router.antt =====
-- Which scope a call of the memory router has in the hybrid mode (apps/mcp/src/tools.ts).
use neuromem.Prelude.{
  ℕ, String, Bool, true, false, ◌&&◌, ◌≡◌, refl, ap, ◌∙◌, Option, some, List, arith, str_eq,
  str_eq_iff, if◌then◌else◌,
}
use neuromem.Json.{JsonObject, JsonList, string, get, put, get-put}
use neuromem.Tools.{
  AuthContext, TextLibrary, ToolError, Checked, fine, refused, scope_mismatch, ◌>>=◌, check,
  require_known, require_capability, tool_capability, required_uuid, optional_limit,
}
use neuromem.Tools.Scope.{
  Always, Always-bind, Always-after, Always-and, Always-of_fine, Allowed, require_known-Allowed,
}
use neuromem.Tools.Legacy.{
  RouterCall, record_memory, recall_memory, read_memory, record_in, memory_record, recall_in,
  recall_memories, read_id, read_memories, dispatch_legacy, call_legacy, assert_scope, call_hybrid,
}

-- The call names the Workspace and the Project.
abbrev pub InProject : String → String → RouterCall → Type 0
InProject w p (record_memory input targets) =
    (get "workspace_id" input ≡ some (string w)) × (get "project_id" input ≡ some (string p))
InProject w p (recall_memory input targets limit include) =
    (get "workspace_id" input ≡ some (string w)) × (get "project_id" input ≡ some (string p))
InProject w p (read_memory name workspace project id targets) = (workspace ≡ w) × (project ≡ p)

record-leaf :
    (input : JsonObject) (w p : String) (s : String) (targets : Option (List String))
    → Always (InProject w p) (
        fine (
          record_memory
            (put "workspace_id"
              (string w)
              (put "project_id" (string p) (put "session_id" (string s) input)))
            targets))
unfolding Always
record-leaf input w p s targets =
    let more = put "session_id" (string s) input in
    let less = put "project_id" (string p) more in
    (
      get-put "workspace_id" "workspace_id" (string w) less,
      get-put "workspace_id" "project_id" (string w) less
          ∙ get-put "project_id" "project_id" (string p) more,
    )

recall-leaf :
    (input : JsonObject) (w p : String) (q : String) (targets : Option (List String))
    (limit : Option ℕ) (include : JsonList)
    → Always (InProject w p) (
        fine (
          recall_memory
            (put "workspace_id"
              (string w)
              (put "project_id" (string p) (put "query" (string q) input)))
            targets
            limit
            include))
unfolding Always
recall-leaf input w p q targets limit include =
    let more = put "query" (string q) input in
    let less = put "project_id" (string p) more in
    (
      get-put "workspace_id" "workspace_id" (string w) less,
      get-put "workspace_id" "project_id" (string w) less
          ∙ get-put "project_id" "project_id" (string p) more,
    )

read-leaf :
    (w p : String) (name : String) (id : Option String) (targets : Option (List String))
    → Always (InProject w p) (fine (read_memory name w p id targets))
unfolding Always
read-leaf w p name id targets = (refl, refl)

if-InProject :
    (w p : String) (b : Bool) (m n : Checked RouterCall)
    → Always (InProject w p) m
    → Always (InProject w p) n
    → Always (InProject w p) (if b then m else n)
if-InProject w p true m n x y = x
if-InProject w p false m n x y = y

refused-InProject : (w p : String) (e : ToolError) → Always (InProject w p) (refused e)
unfolding Always
refused-InProject w p e = tt

record_in-InProject :
    (lib : TextLibrary) (input : JsonObject) (w p : String) (targets : Option (List String))
    → Always (InProject w p) (record_in lib w p input targets)
unfolding record_in
record_in-InProject lib input w p targets = search (Always-bind, record-leaf) depth 12

module _ (lib : TextLibrary) (input : JsonObject) (w p : String)
    (hw : required_uuid lib input "workspace_id" ≡ fine w)
    (hp : required_uuid lib input "project_id" ≡ fine p) where
  memory_record-InProject :
      (targets : Option (List String)) → Always (InProject w p) (memory_record lib input targets)
  unfolding memory_record
  memory_record-InProject targets = rw (hw, hp) (record_in-InProject lib input w p targets)

  recall_in-InProject :
      (query : String) (targets : Option (List String)) (include : JsonList)
      → Always (InProject w p) (recall_in lib query input targets include)
  unfolding recall_in
  recall_in-InProject query targets include =
      rw (hw, hp)
        (Always-bind (InProject w p) (optional_limit input)
          (λ limit. fine (
            recall_memory
              (put "workspace_id" (string w)
                (put "project_id" (string p) (put "query" (string query) input)))
              targets limit include))
          (λ limit. recall-leaf input w p query targets limit include))

  recall_memories-InProject :
      (targets : Option (List String)) (include : JsonList)
      → Always (InProject w p) (recall_memories lib input targets include)
  unfolding recall_memories
  recall_memories-InProject targets include = search (Always-bind, recall_in-InProject) depth 9

  read_memories-InProject :
      (name key : String) (targets : Option (List String))
      → Always (InProject w p) (read_memories lib name key input targets)
  unfolding read_memories
  read_memories-InProject name key targets =
      rw (hw, hp)
        (Always-bind (InProject w p) (read_id lib key input)
          (λ id. fine (read_memory name w p id targets)) (λ id. read-leaf w p name id targets))

  dispatch_legacy-InProject :
      (name : String) (targets : Option (List String))
      → Always (InProject w p) (dispatch_legacy lib name input targets)
  unfolding dispatch_legacy
  dispatch_legacy-InProject name targets =
      search
        (
          if-InProject, Always-bind, memory_record-InProject, recall_memories-InProject,
          read_memories-InProject, refused-InProject,
        )
        depth 14

  call_legacy-InProject :
      (targets_for : Option String → Checked (Option (List String))) (name : String)
      → Always (InProject w p) (call_legacy lib targets_for name input)
  unfolding call_legacy
  call_legacy-InProject targets_for name = search (Always-bind, dispatch_legacy-InProject) depth 7

Always-bind_eq :
    {A B : Type 0} (P : B → Type 0) (m : Checked A) (f : A → Checked B)
    → ((a : A) → m ≡ fine a → Always P (f a))
    → Always P (m >>= f)
unfolding Always
Always-bind_eq P (fine a) f h = h a refl
Always-bind_eq P (refused e) f h = tt

-- The scope that the arguments name, where it is the credential's.
abbrev Names : TextLibrary → AuthContext → JsonObject → Type 0
Names lib c input =
    (required_uuid lib input "workspace_id" ≡ fine c.workspace_id)
    × (required_uuid lib input "project_id" ≡ fine c.project_id)

check_both :
    (c : AuthContext) (w p : String)
    → check (str_eq w c.workspace_id && str_eq p c.project_id) scope_mismatch ≡ fine tt
    → (w ≡ c.workspace_id) × (p ≡ c.project_id)
check_both c w p h =
    (ground (arith, str_eq_iff w c.workspace_id), ground (arith, str_eq_iff p c.project_id))

constantly_Always : {A : Type 0} {Q : Type 0} (m : Checked A) → Q → Always (λ a. Q) m
unfolding Always
constantly_Always (fine a) q = q
constantly_Always (refused e) q = tt

-- `#assertLegacyScopeAndPeer` passes only arguments that name the credential's scope.
assert_scope-Names :
    (lib : TextLibrary) (c : AuthContext) (name : String) (input : JsonObject)
    → Always (λ u. Names lib c input) (assert_scope lib c name input)
unfolding assert_scope
assert_scope-Names lib c name input =
    let P : Unit {0} → Type 0 = λ u. Names lib c input in
    Always-bind_eq P (required_uuid lib input "workspace_id") _ (λ w ew.
      Always-bind_eq P (required_uuid lib input "project_id") _ (λ p ep.
        Always-after P (check (str_eq w c.workspace_id && str_eq p c.project_id) scope_mismatch) _
          (λ passed.
            let (sw, sp) = check_both c w p passed in
            constantly_Always _ (ew ∙ ap fine sw, ep ∙ ap fine sp))))

hybrid-InProject :
    (lib : TextLibrary) (targets_for : Option String → Checked (Option (List String)))
    (c : AuthContext) (name : String) (input : JsonObject)
    → Always
        (λ call. Allowed c name × InProject c.workspace_id c.project_id call)
        (call_hybrid lib targets_for c name input)
unfolding call_hybrid require_capability
hybrid-InProject lib targets_for c name input =
    let P : RouterCall → Type 0 =
      λ call. Allowed c name × InProject c.workspace_id c.project_id call in
    Always-after P (require_known c (tool_capability name)) _ (λ held.
      Always-after P (assert_scope lib c name input) _ (λ passed.
        let (hw, hp) =
          Always-of_fine (λ u. Names lib c input) (assert_scope lib c name input) tt passed
            (assert_scope-Names lib c name input) in
        Always-and (Allowed c name) (InProject c.workspace_id c.project_id)
          (call_legacy lib targets_for name input)
          (require_known-Allowed c (tool_capability name) held)
          (call_legacy-InProject lib input c.workspace_id c.project_id hw hp targets_for name)))

-- With a credential in the hybrid mode, a call that reaches the memory router is one that the
-- credential's capabilities allow, and it names the credential's own Workspace and Project.
pub call_hybrid-InProject :
    (lib : TextLibrary) (targets_for : Option String → Checked (Option (List String)))
    (c : AuthContext) (name : String) (input : JsonObject) (call : RouterCall)
    → call_hybrid lib targets_for c name input ≡ fine call
    → Allowed c name × InProject c.workspace_id c.project_id call
call_hybrid-InProject lib targets_for c name input call e =
    Always-of_fine (λ x. Allowed c name × InProject c.workspace_id c.project_id x)
      (call_hybrid lib targets_for c name input) call e
      (hybrid-InProject lib targets_for c name input)
