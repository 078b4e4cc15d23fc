-- ===== src/Tests/Folders.antt =====
-- Folder sources on a concrete store (apps/manager/src/folder-sources.ts).
use neuromem.Prelude.{ℕ, ◌+◌, ◌*◌, length, String, true, ◌≡◌, refl, ◌⊎◌, List, [], ◌∷◌, arith}
use neuromem.FolderSources.{
  ProjectFolderContext, StoredFolderSource, decoded, done, refused, source_conflict, load, loadable,
  all_apart, all_valid, valid_source, valid_context, is_source_id, is_text, is_absolute,
  find_source, has_conflict, has_context, has_path, put_source, new_source, attach,
}
use neuromem.FolderSources.Attached.{Connected, attach-Connected}

abbrev notes : ProjectFolderContext
notes = record { principal_id = "me"; workspace_id = "home"; project_id = "notes" }

abbrev drafts : ProjectFolderContext
drafts = record { principal_id = "me"; workspace_id = "home"; project_id = "drafts" }

abbrev base : String → String
base p = "folder"

abbrev one_source : List StoredFolderSource
one_source =
    record {
      context = notes;
      source_id = "01234567-89ab-cdef-0123-456789abcdef";
      path = "/Users/me/notes";
      display_name = "notes";
      created_at = "2026-01-01";
      updated_at = "2026-01-01";
    }
    ∷ []

abbrev file_size : List StoredFolderSource → ℕ
file_size ss = 100 + length ss * 300

abbrev new_id : String
new_id = "11234567-89ab-cdef-0123-456789abcdef"

attach-Connected_example :
    ((has_conflict drafts "/Users/me/drafts" one_source ≡ true)
      × (attach file_size base drafts "/Users/me/drafts" new_id "2026-01-02"
            (decoded 400 one_source)
          ≡ (refused source_conflict, decoded 400 one_source)))
    ⊎ (((attach file_size base drafts "/Users/me/drafts" new_id "2026-01-02"
            (decoded 400 one_source)).0
          ≡ done tt)
        × Connected drafts "/Users/me/drafts" one_source
            (attach file_size base drafts "/Users/me/drafts" new_id "2026-01-02"
              (decoded 400 one_source)).1)
unfolding load loadable all_apart all_valid valid_source is_source_id is_text is_absolute
    find_source has_context has_path put_source new_source valid_context
attach-Connected_example =
    attach-Connected file_size base drafts "/Users/me/drafts" new_id "2026-01-02" one_source
      (decoded 400 one_source) refl (omega arith) refl (omega arith)
