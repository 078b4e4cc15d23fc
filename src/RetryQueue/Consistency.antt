-- ===== src/RetryQueue/Consistency.antt =====
-- The queue's file and the records directory say the same: a pair of a record and a target has an
-- entry exactly if the spooled envelope lists the target.
use neuromem.Prelude.{
  String, Bool, true, false, ◌&&◌, ◌||◌, ◌≡◌, refl, ◌∙◌, ◌⊎◌, inl, inr, none, some, List, ◌∷◌, ◌++◌,
  arith, length, includes, unique, Distinct, includes-unique, includes-append, Distinct-unique,
  length-le_of_subset, str_eq, str_eq_iff, if◌then◌else◌, Bool-cases, Option-cases,
}
use neuromem.Json.{JsonObject, get-put}
use neuromem.Uuid.{is_record_id}
use neuromem.RetryQueue.Store.{
  RetryEntry, SpoolEnvelope, Records, Store, entries, Result, ok, err, Error, has_entry, read_file,
  write_file,
}
use neuromem.RetryQueue.Writes.{
  record_id_of, same_immutable, merge_envelope, spool_changed, spool_into, enqueue_spool,
}
use neuromem.RetryQueue.Spool.{
  spooled, IsSpool, read_file_named, write_file-IsSpool, spooled-write_file,
}
use neuromem.RetryQueue.Entries.{KeysDistinct}

pub record IsConsistent (s : Store) : Type 0 where
  pub held : List RetryEntry
  pub file : s.queue ≡ entries held
  pub spool : IsSpool s.records
  pub distinct : KeysDistinct held
  pub agrees : (id target : String) → has_entry id target held ≡ spooled id target s.records

-- What a write to the records directory leaves: the queue's file as it was, a well-formed
-- directory, and exactly the pairs of `also` pending besides those that were.
pub record Extends (s s' : Store) (also : String → String → Bool) : Type 0 where
  pub queue : s'.queue ≡ s.queue
  pub spool : IsSpool s'.records
  pub pending : (j t : String) → spooled j t s'.records ≡ (spooled j t s.records || also j t)

abbrev pub added : String → List String → String → String → Bool
added id targets j t = str_eq id j && includes targets t

merge_envelope-record_id_of :
    (e : SpoolEnvelope) (r : JsonObject) (ts : List String)
    → record_id_of (merge_envelope e r ts).record_object ≡ record_id_of e.record_object
unfolding merge_envelope record_id_of
merge_envelope-record_id_of e r ts = simp get-put

-- If the union is no longer than the old targets, it holds nothing new.
includes_of_unchanged :
    (ps ts : List String) (t : String)
    → Distinct ps
    → length (unique (ps ++ ts)) ≡ length ps
    → includes ts t ≡ true
    → includes ps t ≡ true
unfolding includes
includes_of_unchanged ps ts t d l h = elim (Bool-cases (includes ps t)) [
  | inl old ↦ old
  | inr new ↦ absurd (
      omega (
        arith,
        length-le_of_subset (t ∷ ps) (unique (ps ++ ts)) (new, d)
            (λ y m.
              ground
                (arith, includes-unique (ps ++ ts) y, includes-append ps ts y, str_eq_iff t y)),
      ))
]

abbrev pub Spooled : Store → String → List String → Result JsonObject × Store → Type 0
Spooled s id targets r =
    ((e : Error) × (r ≡ (err e, s)))
    ⊎ ((p : JsonObject) × (r.0 ≡ ok p) × Extends s r.1 (added id targets))

spool_into-none :
    (id : String) (requested : JsonObject) (targets : List String) (s : Store)
    → is_record_id id ≡ true
    → record_id_of requested ≡ id
    → Distinct targets
    → IsSpool s.records
    → read_file id s.records ≡ none
    → Spooled s id targets (spool_into id requested targets none s)
unfolding spool_into spooled
spool_into-none id requested targets s valid named d h missing = inr (
  requested,
  refl,
  record {
    queue = refl;
    spool = write_file-IsSpool id _ s.records valid named d h;
    pending = λ j t. ground (
      arith,
      spooled-write_file id (record { record_object = requested; pending_targets = targets })
          s.records j t,
      missing,
      str_eq_iff id j,
    );
  },
)

merged_written :
    (id : String) (requested : JsonObject) (targets : List String) (e : SpoolEnvelope)
    (files : Records) (j t : String)
    → read_file id files ≡ some e
    → spooled j t (write_file id (merge_envelope e requested targets) files)
      ≡ (spooled j t files || added id targets j t)
unfolding spooled merge_envelope
merged_written id requested targets e files j t found = ground (
  arith,
  spooled-write_file id (merge_envelope e requested targets) files j t,
  found,
  includes-unique (e.pending_targets ++ targets) t,
  includes-append e.pending_targets targets t,
  str_eq_iff id j,
)

merged_unwritten :
    (id : String) (requested : JsonObject) (targets : List String) (e : SpoolEnvelope)
    (files : Records) (j t : String)
    → Distinct e.pending_targets
    → read_file id files ≡ some e
    → spool_changed e (merge_envelope e requested targets) ≡ false
    → spooled j t files ≡ (spooled j t files || added id targets j t)
unfolding spooled merge_envelope spool_changed
merged_unwritten id requested targets e files j t d found same =
    ground (arith, found, includes_of_unchanged e.pending_targets targets t d, str_eq_iff id j)

merged-Extends :
    (id : String) (requested : JsonObject) (targets : List String) (e : SpoolEnvelope) (s : Store)
    → IsSpool s.records
    → read_file id s.records ≡ some e
    → let m = merge_envelope e requested targets in
      Extends s
        (if spool_changed e m then record s { records = write_file id m s.records } else s)
        (added id targets)
merged-Extends id requested targets e s h found =
    let m = merge_envelope e requested targets in
    let (valid, named, d) = read_file_named id s.records h found in
    elim (Bool-cases (spool_changed e m)) [
      | inl changed ↦ rw changed (record {
        queue = refl;
        spool =
            write_file-IsSpool id m s.records valid
              (merge_envelope-record_id_of e requested targets ∙ named)
              (unfold merge_envelope in (Distinct-unique (e.pending_targets ++ targets))) h;
        pending = λ j t. merged_written id requested targets e s.records j t found;
      })
      | inr same ↦ rw same (record {
        queue = refl;
        spool = h;
        pending = λ j t. merged_unwritten id requested targets e s.records j t d found same;
      })
    ]

spool_into-some :
    (id : String) (requested : JsonObject) (targets : List String) (e : SpoolEnvelope) (s : Store)
    → IsSpool s.records
    → read_file id s.records ≡ some e
    → Spooled s id targets (spool_into id requested targets (some e) s)
unfolding spool_into
spool_into-some id requested targets e s h found =
    let m = merge_envelope e requested targets in
    elim (Bool-cases (same_immutable e.record_object requested)) [
      | inl same ↦
          rw same (inr (m.record_object, refl, merged-Extends id requested targets e s h found))
      | inr other ↦ rw other (inl (_, refl))
    ]

-- The write to the spool either throws and changes nothing, or makes the targets pending too.
pub enqueue_spool-Spooled :
    (id : String) (requested : JsonObject) (targets : List String) (s : Store)
    → is_record_id id ≡ true
    → record_id_of requested ≡ id
    → Distinct targets
    → IsSpool s.records
    → Spooled s id targets (enqueue_spool id requested targets s)
unfolding enqueue_spool
enqueue_spool-Spooled id requested targets s valid named d h =
    elim (Option-cases (read_file id s.records)) [
      | inl e ↦ rw e (spool_into-none id requested targets s valid named d h e)
      | inr (x, e) ↦ rw e (spool_into-some id requested targets x s h e)
    ]
