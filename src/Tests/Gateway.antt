-- ===== src/Tests/Gateway.antt =====
-- The tools for a credential on concrete inputs (apps/mcp/src/tools.ts).
use neuromem.Prelude.{
  String, true, false, ◌≡◌, refl, Option, none, some, List, [], ◌∷◌, str_eq, includes,
}
use neuromem.Json.{JsonObject, empty, field, get, string}
use neuromem.Tools.{AuthContext, TextLibrary, fine, has_capability, Checked}
use neuromem.Tools.Control.{GatewayCall, get_request, call_control}
use neuromem.Uuid.{is_uuid}
use neuromem.Tools.Legacy.{RouterCall, read_memory, call_hybrid}
use neuromem.Tools.Router.{InProject, call_hybrid-InProject}
use neuromem.Tools.Scope.{Allowed, InScope, call_control-InScope}

-- Texts that are short, not blank and in lower case.
abbrev texts : TextLibrary
texts = record {
  is_blank = λ s. str_eq s "";
  is_date_time = λ s. false;
  size = λ s. 1;
  lower = λ s. s;
  encode = λ s. s;
  sha256 = λ s. s;
  print = λ v. "";
}

abbrev reader : AuthContext
reader = record {
  credential_id = "credential";
  workspace_id = "w";
  project_id = "p";
  human_peer_id = "h";
  agent_peer_id = none;
  capabilities = "project.read" ∷ "wiki.read" ∷ [];
  client = none;
}

abbrev no_keys : String → Option (List String)
no_keys name = some []

abbrev wiki_call : GatewayCall
wiki_call = get_request "/api/v1/projects/p/wiki" empty

wiki_called : call_control texts reader no_keys true "id" "wiki_read" empty ≡ fine wiki_call
unfolding call_control
wiki_called = refl

call_control-InScope_example : Allowed reader "wiki_read" × InScope texts reader wiki_call
call_control-InScope_example =
    call_control-InScope texts reader no_keys true "id" "wiki_read" empty wiki_call wiki_called

abbrev zero_id : String
zero_id = "00000000-0000-1000-8000-000000000000"

abbrev member : AuthContext
member = record reader { workspace_id = zero_id; project_id = zero_id }

abbrev in_scope : JsonObject
in_scope = field "workspace_id" (string zero_id) (field "project_id" (string zero_id) empty)

abbrev no_target : Option String → Checked (Option (List String))
no_target target = fine none

abbrev wiki_read_call : RouterCall
wiki_read_call = read_memory "wiki_read" zero_id zero_id none none

wiki_routed : call_hybrid texts no_target member "wiki_read" in_scope ≡ fine wiki_read_call
unfolding call_hybrid get includes is_uuid has_capability
wiki_routed = refl

call_hybrid-InProject_example :
    Allowed member "wiki_read" × InProject zero_id zero_id wiki_read_call
call_hybrid-InProject_example =
    call_hybrid-InProject texts no_target member "wiki_read" in_scope wiki_read_call wiki_routed
