-- ===== src/RetryQueue/Resolution.antt =====
-- resolve and markPending keep the queue's file and the records directory consistent.
use neuromem.Prelude.{
  ℕ, String, Bool, true, false, ◌&&◌, ◌≡◌, refl, sym, ◌∙◌, ◌⊎◌, inl, inr, Option, none, some, List,
  [], ◌∷◌, arith, includes, without, includes-without, Distinct-without, str_eq, str_eq_iff,
  if◌then◌else◌, Bool-cases,
}
use neuromem.Uuid.{is_record_id}
use neuromem.RetryQueue.Store.{
  RetryEntry, SpoolEnvelope, Records, Store, entries, retry_entry_disappeared, Result, ok, err,
  invalid_record_id, has_entry, read_file, read_queue, assert_record_id,
}
use neuromem.RetryQueue.Writes.{
  mark_first, mark_pending, is_nil, resolve_spool, resolved_files, resolve_entries, resolve,
  drop_entry,
}
use neuromem.RetryQueue.Spool.{
  spooled, IsSpool, read_file_named, write_file-IsSpool, delete_file-IsSpool, spooled-write_file,
  spooled-delete_file,
}
use neuromem.RetryQueue.Entries.{
  has_entry-mark_first, has_entry-drop_entry, mark_first-KeysDistinct, drop_entry-KeysDistinct,
}
use neuromem.RetryQueue.Consistency.{IsConsistent}

resolve_entries_lem :
    (id target : String) (s : Store) (es : List RetryEntry)
    → s.queue ≡ entries es
    → resolve_entries id target s ≡ (ok tt, record s { queue = entries (drop_entry id target es) })
unfolding resolve_entries read_queue
resolve_entries_lem id target s es q = rw (q, read_queue)

includes_of_is_nil : (xs : List String) (t : String) → is_nil xs ≡ true → includes xs t ≡ false
unfolding is_nil includes
includes_of_is_nil [] t h = refl
includes_of_is_nil (x ∷ xs) t h = ground arith

abbrev pub without_pair : String → String → String → String → Bool → Bool
without_pair id target j t old = if str_eq id j && str_eq target t then false else old

spooled-resolved_files :
    (id target : String) (o : Option SpoolEnvelope) (files : Records) (j t : String)
    → read_file id files ≡ o
    → spooled j t (resolved_files id target o files)
      ≡ without_pair id target j t (spooled j t files)
unfolding resolved_files spooled
spooled-resolved_files id target none files j t found = ground (arith, found, str_eq_iff id j)
spooled-resolved_files id target (some e) files j t found =
    let pending = without target e.pending_targets in
    ground (
      arith,
      found,
      spooled-write_file id (record e { pending_targets = pending }) files j t,
      spooled-delete_file id files j t,
      includes-without target t e.pending_targets,
      includes_of_is_nil pending t,
      str_eq_iff id j,
    )

resolved_files-IsSpool :
    (id target : String) (o : Option SpoolEnvelope) (files : Records)
    → IsSpool files
    → read_file id files ≡ o
    → IsSpool (resolved_files id target o files)
unfolding resolved_files
resolved_files-IsSpool id target none files h found = h
resolved_files-IsSpool id target (some e) files h found =
    let pending = without target e.pending_targets in
    let (valid, named, d) = read_file_named id files h found in
    elim (Bool-cases (is_nil pending)) [
      | inl gone ↦ rw gone (delete_file-IsSpool id files h)
      | inr left ↦ rw left (
          write_file-IsSpool id (record e { pending_targets = pending }) files valid named
            (Distinct-without target e.pending_targets d) h)
    ]

-- The first half of `resolve` takes exactly the pair out of the spool.
pub resolve_spool-Resolved :
    (id target : String) (s : Store)
    → IsSpool s.records
    → IsSpool (resolve_spool id target s).1.records
      × ((j t : String)
          → spooled j t (resolve_spool id target s).1.records
            ≡ without_pair id target j t (spooled j t s.records))
unfolding resolve_spool
resolve_spool-Resolved id target s h = (
  resolved_files-IsSpool id target _ s.records h refl,
  λ j t. spooled-resolved_files id target _ s.records j t refl,
)

abbrev pub Resolved : Store → String → String → Result (Unit {0}) × Store → Type 0
Resolved s id target r =
    ((is_record_id id ≡ false) × (r ≡ (err invalid_record_id, s)))
    ⊎ ((r.0 ≡ ok tt)
        × IsConsistent r.1
        × ((j t : String)
            → spooled j t r.1.records ≡ without_pair id target j t (spooled j t s.records)))

-- On consistent files `resolve` takes exactly the given pair out of the spool and the queue, and
-- keeps them consistent; it throws for an invalid record id, and then changes nothing.
pub resolve-Resolved :
    (id target : String) (s : Store) → IsConsistent s → Resolved s id target (resolve id target s)
unfolding resolve assert_record_id
resolve-Resolved id target s c = elim (Bool-cases (is_record_id id)) [
  | inl valid ↦
      let (spool, pending) = resolve_spool-Resolved id target s c.spool in
      rw (valid, assert_record_id)
        (rw (resolve_entries_lem id target (resolve_spool id target s).1 c.held c.file) (
          inr (
            refl,
            record {
              held = drop_entry id target c.held;
              file = refl;
              spool = spool;
              distinct = drop_entry-KeysDistinct id target c.held c.distinct;
              agrees = λ j t.
                  ground
                    (arith, has_entry-drop_entry id target j t c.held, pending j t, c.agrees j t);
            },
            pending,
          )))
  | inr invalid ↦ rw (invalid, assert_record_id) (inl (refl, refl))
]

pub mark_pending_lem :
    (id target code : String) (now : ℕ) (s : Store) (es : List RetryEntry)
    → s.queue ≡ entries es
    → mark_pending id target code now s ≡ (
        if has_entry id target es
        then (ok tt, record s { queue = entries (mark_first id target code now es) })
        else (err retry_entry_disappeared, s))
unfolding mark_pending read_queue
mark_pending_lem id target code now s es q = ground arith

abbrev pub Marked : Store → String → String → Result (Unit {0}) × Store → Type 0
Marked s id target r =
    ((spooled id target s.records ≡ false) × (r ≡ (err retry_entry_disappeared, s)))
    ⊎ ((spooled id target s.records ≡ true)
        × (r.0 ≡ ok tt)
        × IsConsistent r.1
        × (r.1.records ≡ s.records))

-- On consistent files `markPending` changes no record and keeps them consistent; it throws if the
-- pair is not pending, and then changes nothing.
pub mark_pending-Marked :
    (id target code : String) (now : ℕ) (s : Store)
    → IsConsistent s
    → Marked s id target (mark_pending id target code now s)
mark_pending-Marked id target code now s c =
    rw (mark_pending_lem id target code now s c.held c.file)
      (elim (Bool-cases (has_entry id target c.held)) [
        | inl found ↦ rw found (
            inr (
              sym (c.agrees id target) ∙ found,
              refl,
              record {
                held = mark_first id target code now c.held;
                file = refl;
                spool = c.spool;
                distinct = mark_first-KeysDistinct id target code now c.held c.distinct;
                agrees = λ j t. has_entry-mark_first id target code now j t c.held ∙ c.agrees j t;
              },
              refl,
            ))
        | inr missing ↦ rw missing (inl (sym (c.agrees id target) ∙ missing, refl))
      ])
