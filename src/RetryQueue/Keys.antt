-- ===== src/RetryQueue/Keys.antt =====
-- Idempotency keys: a key that was answered gives the same record id again, and the pruning of the
-- registry spares every key whose record is still spooled.
use neuromem.Prelude.{
  ℕ, ◌-◌, String, Bool, true, not, ◌||◌, ◌≡◌, refl, ◌∙◌, none, some, List, [], ◌∷◌, arith, length,
  keep, all, all-take, all-keep, unique, str_eq, str_eq_iff, if◌then◌else◌,
}
use neuromem.RetryQueue.Store.{IdempotencyEntry, Records, Registry}
use neuromem.RetryQueue.Idempotency.{
  idempotency_max_entries_per_namespace, read_key, delete_key, write_key, is_active, is_live,
  in_namespace, insert_by_age, sort_by_age, is_removable, excess_files, remove_files, namespaces,
  trim_namespaces, survives, prune_registry,
}

read_key-delete_key :
    (p q : String) (reg : Registry)
    → read_key q (delete_key p reg) ≡ (if str_eq p q then none else read_key q reg)
unfolding read_key delete_key
read_key-delete_key p q [] = ground arith
read_key-delete_key p q ((r, e) ∷ reg) =
    ground (arith, read_key-delete_key p q reg, str_eq_iff p q, str_eq_iff r p, str_eq_iff r q)

pub read_key-write_key :
    (p q : String) (e : IdempotencyEntry) (reg : Registry)
    → read_key q (write_key p e reg) ≡ (if str_eq p q then some e else read_key q reg)
unfolding read_key write_key
read_key-write_key p q e reg = ground (arith, read_key-delete_key p q reg)

abbrev is_path : String → String × IdempotencyEntry → Bool
is_path path f = str_eq (f.0) path

-- The file is another one, or the record of its key is spooled.
abbrev spares : Records → String → String × IdempotencyEntry → Bool
spares records path f = not (is_path path f) || is_active records (f.1).record_id

-- No file name occurs twice.
abbrev pub DistinctPaths : Registry → Type 0
DistinctPaths [] = Unit
DistinctPaths ((p, e) ∷ reg) = (read_key p reg ≡ none) × DistinctPaths reg

all-spares_absent :
    (records : Records) (path : String) (reg : Registry)
    → read_key path reg ≡ none
    → all (spares records path) reg ≡ true
unfolding all read_key
all-spares_absent records path [] h = refl
all-spares_absent records path ((p, e) ∷ reg) h = ground (arith, all-spares_absent records path reg)

all-spares :
    (records : Records) (path : String) (reg : Registry) (e : IdempotencyEntry)
    → DistinctPaths reg
    → read_key path reg ≡ some e
    → is_active records e.record_id ≡ true
    → all (spares records path) reg ≡ true
unfolding all read_key
all-spares records path [] e d h a = refl
all-spares records path ((p, x) ∷ reg) e d h a =
    ground
      (arith, all-spares records path reg e, all-spares_absent records path reg, str_eq_iff p path)

all-keep_removable :
    (records : Records) (path : String) (reg : Registry)
    → all (spares records path) reg ≡ true
    → all (λ f. not (is_path path f)) (keep (is_removable records) reg) ≡ true
unfolding all keep is_removable
all-keep_removable records path [] h = refl
all-keep_removable records path (f ∷ reg) h = ground (arith, all-keep_removable records path reg)

all-insert_by_age :
    (p : String × IdempotencyEntry → Bool) (f : String × IdempotencyEntry) (reg : Registry)
    → p f ≡ true
    → all p reg ≡ true
    → all p (insert_by_age f reg) ≡ true
unfolding all insert_by_age
all-insert_by_age p f [] a h = ground arith
all-insert_by_age p f (g ∷ gs) a h = ground (arith, all-insert_by_age p f gs)

all-sort_by_age :
    (p : String × IdempotencyEntry → Bool) (reg : Registry)
    → all p reg ≡ true
    → all p (sort_by_age reg) ≡ true
unfolding all sort_by_age
all-sort_by_age p [] h = refl
all-sort_by_age p (f ∷ fs) h =
    ground (arith, all-sort_by_age p fs, all-insert_by_age p f (sort_by_age fs))

read_key-remove_files :
    (path : String) (fs reg : Registry)
    → all (λ f. not (is_path path f)) fs ≡ true
    → read_key path (remove_files fs reg) ≡ read_key path reg
unfolding all remove_files
read_key-remove_files path [] reg h = refl
read_key-remove_files path ((p, e) ∷ fs) reg h =
    ground (arith, read_key-remove_files path fs (delete_key p reg), read_key-delete_key p path reg)

read_key-trim :
    (path : String) (records : Records) (whole : Registry) (nss : List String) (reg : Registry)
    → all (spares records path) whole ≡ true
    → read_key path (trim_namespaces records whole nss reg) ≡ read_key path reg
unfolding trim_namespaces excess_files
read_key-trim path records whole [] reg h = refl
read_key-trim path records whole (ns ∷ nss) reg h =
    let grouped = keep (in_namespace ns) whole in
    let n = length grouped - idempotency_max_entries_per_namespace in
    let other =
      all-keep_removable records path grouped
        (all-keep (spares records path) (in_namespace ns) whole h) in
    read_key-trim path records whole nss (remove_files (excess_files records grouped) reg) h
    ∙ read_key-remove_files path (excess_files records grouped) reg (
        all-take (λ f. not (is_path path f)) n (sort_by_age (keep (is_removable records) grouped))
          (all-sort_by_age (λ f. not (is_path path f)) (keep (is_removable records) grouped) other))

read_key-keep_survivors :
    (path : String) (now : ℕ) (records : Records) (reg : Registry) (e : IdempotencyEntry)
    → read_key path reg ≡ some e
    → is_active records e.record_id ≡ true
    → read_key path (keep (survives now records) reg) ≡ some e
unfolding read_key keep is_live
read_key-keep_survivors path now records [] e h a = h
read_key-keep_survivors path now records ((p, x) ∷ reg) e h a =
    ground (arith, read_key-keep_survivors path now records reg e)

-- In a registry with one entry for a file, pruning keeps the key of every record that is still
-- spooled, however old the key is and however many keys its namespace has.
pub prune_registry-keeps_active :
    (path : String) (now : ℕ) (records : Records) (reg : Registry) (e : IdempotencyEntry)
    → DistinctPaths reg
    → read_key path reg ≡ some e
    → is_active records e.record_id ≡ true
    → read_key path (prune_registry now records reg) ≡ some e
unfolding prune_registry
prune_registry-keeps_active path now records reg e d h a =
    let kept = keep (survives now records) reg in
    read_key-trim path records kept (unique (namespaces kept)) kept (
      all-keep (spares records path) (survives now records) reg
        (all-spares records path reg e d h a))
    ∙ read_key-keep_survivors path now records reg e h a
