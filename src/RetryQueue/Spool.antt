-- ===== src/RetryQueue/Spool.antt =====
-- The records directory as a map: which targets of a record are still pending, and when the
-- directory is well formed.
use neuromem.Prelude.{
  String, Bool, true, false, ◌≡◌, refl, Option, none, some, [], ◌∷◌, arith, includes, Distinct,
  str_eq, str_eq_iff, str_eq_self, if◌then◌else◌,
}
use neuromem.Uuid.{is_record_id}
use neuromem.RetryQueue.Store.{SpoolEnvelope, Records, read_file, delete_file, write_file}
use neuromem.RetryQueue.Writes.{record_id_of}

abbrev pub pending_in : String → Option SpoolEnvelope → Bool
pending_in target none = false
pending_in target (some e) = includes e.pending_targets target

-- The spool says that the record still has to reach the target.
unfoldable pub spooled : String → String → Records → Bool
spooled id target files = pending_in target (read_file id files)

unfoldable pub has_file : String → Records → Bool
has_file id [] = false
has_file id ((name, e) ∷ files) = if str_eq name id then true else has_file id files

-- A file's name is the id of the record in it, and is a UUID; no name occurs twice, and no target
-- within a file.
abbrev pub IsSpool : Records → Type 0
IsSpool [] = Unit
IsSpool ((name, e) ∷ files) =
    (is_record_id name ≡ true)
    × (record_id_of e.record_object ≡ name)
    × Distinct e.pending_targets
    × (has_file name files ≡ false)
    × IsSpool files

pub read_file-delete_file :
    (id j : String) (files : Records)
    → read_file j (delete_file id files) ≡ (if str_eq id j then none else read_file j files)
unfolding read_file delete_file
read_file-delete_file id j [] = ground arith
read_file-delete_file id j ((name, e) ∷ files) = ground (
  arith,
  read_file-delete_file id j files,
  str_eq_iff id j,
  str_eq_iff name id,
  str_eq_iff name j,
)

pub read_file-write_file :
    (id j : String) (e : SpoolEnvelope) (files : Records)
    → read_file j (write_file id e files) ≡ (if str_eq id j then some e else read_file j files)
unfolding read_file write_file
read_file-write_file id j e files = ground (arith, read_file-delete_file id j files)

has_file-delete_file :
    (id j : String) (files : Records)
    → has_file j (delete_file id files) ≡ (if str_eq id j then false else has_file j files)
unfolding has_file delete_file
has_file-delete_file id j [] = ground arith
has_file-delete_file id j ((name, e) ∷ files) =
    ground (
      arith,
      has_file-delete_file id j files,
      str_eq_iff id j,
      str_eq_iff name id,
      str_eq_iff name j,
    )

pub delete_file-IsSpool :
    (id : String) (files : Records) → IsSpool files → IsSpool (delete_file id files)
unfolding delete_file
delete_file-IsSpool id [] h = tt
delete_file-IsSpool id ((name, e) ∷ files) h =
    ground (arith, delete_file-IsSpool id files, has_file-delete_file id name files)

pub write_file-IsSpool :
    (id : String) (e : SpoolEnvelope) (files : Records)
    → is_record_id id ≡ true
    → record_id_of e.record_object ≡ id
    → Distinct e.pending_targets
    → IsSpool files
    → IsSpool (write_file id e files)
unfolding write_file
write_file-IsSpool id e files valid named d h = (
  valid,
  named,
  d,
  ground (arith, has_file-delete_file id id files, str_eq_self id),
  delete_file-IsSpool id files h,
)

pub spooled-write_file :
    (id : String) (e : SpoolEnvelope) (files : Records) (j target : String)
    → spooled j target (write_file id e files)
      ≡ (if str_eq id j then includes e.pending_targets target else spooled j target files)
unfolding spooled
spooled-write_file id e files j target = ground (arith, read_file-write_file id j e files)

pub spooled-delete_file :
    (id : String) (files : Records) (j target : String)
    → spooled j target (delete_file id files)
      ≡ (if str_eq id j then false else spooled j target files)
unfolding spooled
spooled-delete_file id files j target = ground (arith, read_file-delete_file id j files)

pub read_file_named :
    (id : String) (files : Records) {e : SpoolEnvelope}
    → IsSpool files
    → read_file id files ≡ some e
    → (is_record_id id ≡ true) × (record_id_of e.record_object ≡ id) × Distinct e.pending_targets
unfolding read_file
read_file_named id [] h r = ground arith
read_file_named id ((name, x) ∷ files) {e} h r =
    ground (arith, read_file_named id files {e = e}, str_eq_iff name id)

pub read_file_of_has_file :
    (id : String) (files : Records) → has_file id files ≡ false → read_file id files ≡ none
unfolding has_file read_file
read_file_of_has_file id [] h = refl
read_file_of_has_file id ((name, e) ∷ files) h = ground (arith, read_file_of_has_file id files)
