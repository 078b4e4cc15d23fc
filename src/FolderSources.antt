-- ===== src/FolderSources.antt =====
-- FolderSourceManager (apps/manager/src/folder-sources.ts): the folders that are connected to
-- projects. What the picker, `realpath` and the libraries give are arguments; writes run one at a
-- time. What is no plain file, or holds no JSON
-- object of version 1 with a list of objects with texts, is `unreadable`; a decoded file comes with its
-- size, and `size` is that of the file that `save` writes.
pub mod Loadable
pub mod Attached
use neuromem.Prelude.{
  ℕ, zero, suc, ◌+◌, String, Bool, true, false, not, ◌&&◌, ◌||◌, Option, none, some, List, [], ◌∷◌,
  codes, str_eq, includes, ltb, leb, ◌==◌, length, if◌then◌else◌,
}

pub record ProjectFolderContext : Type 0 where
  pub principal_id : String
  pub workspace_id : String
  pub project_id : String

pub record StoredFolderSource : Type 0 where
  pub context : ProjectFolderContext
  pub source_id : String
  pub path : String
  pub display_name : String
  pub created_at : String
  pub updated_at : String

pub data FolderSourceErrorCode : Type 0 where
  unsupported_platform picker_busy picker_failed invalid_selection blocked_selection :
      FolderSourceErrorCode
  source_conflict source_not_found invalid_store : FolderSourceErrorCode

pub data Outcome {ℓ} (A : Type ℓ) : Type ℓ where
  done : A → Outcome A
  refused : FolderSourceErrorCode → Outcome A

pub data SourceFile : Type 0 where
  missing unreadable : SourceFile
  decoded : ℕ → List StoredFolderSource → SourceFile

-- The length of a text in UTF-16 units.
unfoldable pub units : List ℕ → ℕ
units [] = 0
units (c ∷ cs) = (if ltb c 65536 then 1 else 2) + units cs

unfoldable pub has_control : List ℕ → Bool
has_control [] = false
has_control (c ∷ cs) = c == 0 || c == 13 || c == 10 || has_control cs

unfoldable pub is_text : ℕ → String → Bool
unfolding units has_control
is_text limit s =
    leb 1 (units (codes s)) && leb (units (codes s)) limit && not (has_control (codes s))

-- `validateContext` does not throw.
unfoldable pub valid_context : ProjectFolderContext → Bool
unfolding is_text
valid_context c =
    is_text 256 c.principal_id && is_text 256 c.workspace_id && is_text 256 c.project_id

unfoldable pub is_absolute : List ℕ → Bool
is_absolute [] = false
is_absolute (c ∷ cs) = c == b'/'

unfoldable pub is_hex_digit : ℕ → Bool
is_hex_digit c = leb b'0' c && leb c b'9' || leb b'a' c && leb c b'f' || leb b'A' c && leb c b'F'

-- So many hexadecimal digits, or digits and dashes, up to the end.
unfoldable pub hex_and_dashes : ℕ → List ℕ → Bool
unfolding is_hex_digit
hex_and_dashes zero [] = true
hex_and_dashes zero (c ∷ cs) = false
hex_and_dashes (suc n) [] = false
hex_and_dashes (suc n) (c ∷ cs) = (is_hex_digit c || c == b'-') && hex_and_dashes n cs

unfoldable pub hex_then_dash : ℕ → List ℕ → Bool
unfolding is_hex_digit hex_and_dashes
hex_then_dash n [] = false
hex_then_dash zero (c ∷ cs) = c == b'-' && hex_and_dashes 27 cs
hex_then_dash (suc n) (c ∷ cs) = is_hex_digit c && hex_then_dash n cs

-- `/^[0-9a-f]{8}-[0-9a-f-]{27}$/i`
unfoldable pub is_source_id : String → Bool
unfolding hex_then_dash
is_source_id s = hex_then_dash 8 (codes s)

-- `validateStoredSource` does not throw.
unfoldable pub valid_source : StoredFolderSource → Bool
unfolding is_text valid_context is_absolute is_source_id
valid_source s =
    is_text 4096 s.source_id
    && is_text 4096 s.path
    && is_text 4096 s.display_name
    && is_text 4096 s.created_at
    && is_text 4096 s.updated_at
    && is_absolute (codes s.path)
    && is_source_id s.source_id
    && valid_context s.context

unfoldable pub all_valid : List StoredFolderSource → Bool
unfolding valid_source
all_valid [] = true
all_valid (s ∷ ss) = valid_source s && all_valid ss

unfoldable pub same_context : ProjectFolderContext → ProjectFolderContext → Bool
same_context a b =
    str_eq a.principal_id b.principal_id
    && str_eq a.workspace_id b.workspace_id
    && str_eq a.project_id b.project_id

unfoldable pub has_context : ProjectFolderContext → List StoredFolderSource → Bool
unfolding same_context
has_context c [] = false
has_context c (s ∷ ss) = same_context s.context c || has_context c ss

unfoldable pub has_path : String → List StoredFolderSource → Bool
has_path p [] = false
has_path p (s ∷ ss) = str_eq s.path p || has_path p ss

-- No context and no path occurs twice; the keys of the source are joined by a NUL, which no valid
-- context holds.
unfoldable pub all_apart : List StoredFolderSource → Bool
unfolding has_context has_path
all_apart [] = true
all_apart (s ∷ ss) = not (has_context s.context ss) && not (has_path s.path ss) && all_apart ss

unfoldable pub loadable : List StoredFolderSource → Bool
unfolding all_valid all_apart
loadable ss = leb (length ss) 10000 && all_valid ss && all_apart ss

-- `load`
unfoldable pub load : SourceFile → Outcome (List StoredFolderSource)
unfolding loadable
load missing = done []
load unreadable = refused invalid_store
load (decoded bytes ss) =
    if leb bytes 5242880 && loadable ss then done ss else refused invalid_store

unfoldable pub has_conflict : ProjectFolderContext → String → List StoredFolderSource → Bool
unfolding same_context
has_conflict c p [] = false
has_conflict c p (s ∷ ss) = str_eq s.path p && not (same_context s.context c) || has_conflict c p ss

unfoldable pub find_source :
    ProjectFolderContext → List StoredFolderSource → Option StoredFolderSource
unfolding same_context
find_source c [] = none
find_source c (s ∷ ss) =
    let rest = find_source c ss in if same_context s.context c then some s else rest

-- The source takes the place of the one with its context, or the place at the end.
unfoldable pub put_source : StoredFolderSource → List StoredFolderSource → List StoredFolderSource
unfolding same_context
put_source new [] = new ∷ []
put_source new (s ∷ ss) =
    let rest = put_source new ss in
    if same_context s.context new.context then new ∷ ss else s ∷ rest

unfoldable pub created : String → Option StoredFolderSource → String
created now none = now
created now (some s) = if str_eq s.created_at "" then now else s.created_at

unfoldable pub has_this_path : String → Option StoredFolderSource → Bool
has_this_path p none = false
has_this_path p (some s) = str_eq s.path p

unfoldable pub new_source :
    (String → String)
    → ProjectFolderContext
    → String
    → String
    → String
    → Option StoredFolderSource
    → StoredFolderSource
unfolding created
new_source basename c p id now existing = record {
  context = c;
  source_id = id;
  path = p;
  display_name = basename p;
  created_at = created now existing;
  updated_at = now;
}

unfoldable pub attach_to :
    (List StoredFolderSource → ℕ)
    → (String → String)
    → ProjectFolderContext
    → String
    → String
    → String
    → List StoredFolderSource
    → SourceFile
    → Outcome (Unit {0}) × SourceFile
unfolding has_conflict find_source has_this_path put_source new_source
attach_to size basename c p id now ss file =
    let existing = find_source c ss in
    let after = put_source (new_source basename c p id now existing) ss in
    if has_conflict c p ss
    then (refused source_conflict, file)
    else if has_this_path p existing
    then (done tt, file)
    else (done tt, decoded (size after) after)

unfoldable pub with_sources :
    Outcome (List StoredFolderSource)
    → SourceFile
    → (List StoredFolderSource → SourceFile → Outcome (Unit {0}) × SourceFile)
    → Outcome (Unit {0}) × SourceFile
with_sources (done ss) file f = f ss file
with_sources (refused e) file f = (refused e, file)

-- `attach`; `id` is what randomUUID gives.
unfoldable pub attach :
    (List StoredFolderSource → ℕ)
    → (String → String)
    → ProjectFolderContext
    → String
    → String
    → String
    → SourceFile
    → Outcome (Unit {0}) × SourceFile
unfolding load with_sources attach_to
attach size basename c p id now file =
    with_sources (load file) file (attach_to size basename c p id now)

unfoldable pub is_source : String → Option StoredFolderSource → Bool
is_source id none = false
is_source id (some s) = str_eq s.source_id id

unfoldable pub drop_source :
    ProjectFolderContext → List StoredFolderSource → List StoredFolderSource
unfolding same_context
drop_source c [] = []
drop_source c (s ∷ ss) =
    let rest = drop_source c ss in if same_context s.context c then ss else s ∷ rest

unfoldable pub detach_from :
    (List StoredFolderSource → ℕ)
    → ProjectFolderContext
    → String
    → List StoredFolderSource
    → SourceFile
    → Outcome (Unit {0}) × SourceFile
unfolding find_source is_source drop_source
detach_from size c id ss file =
    if is_source id (find_source c ss)
    then (done tt, decoded (size (drop_source c ss)) (drop_source c ss))
    else (refused source_not_found, file)

-- `detach`
unfoldable pub detach :
    (List StoredFolderSource → ℕ)
    → ProjectFolderContext
    → String
    → SourceFile
    → Outcome (Unit {0}) × SourceFile
unfolding valid_context is_source_id load with_sources detach_from
detach size c id file =
    if not (valid_context c)
    then (refused invalid_selection, file)
    else if not (is_source_id id)
    then (refused source_not_found, file)
    else with_sources (load file) file (detach_from size c id)
