-- ===== src/RetryQueue/Rebuild.antt =====
-- The queue that `#reconcileSpool` builds, from the map of the old entries to the final filter.
use neuromem.Prelude.{
  ℕ, String, false, ◌&&◌, ◌||◌, ◌≡◌, refl, List, [], ◌∷◌, ◌++◌, arith, keep, includes, str_eq,
  str_eq_iff, ◌∙◌, Bool-cases, inl, inr,
}
use mathlib.Core.List.{append-nil, append_assoc}
use neuromem.RetryQueue.Store.{RetryEntry, Records, ok, is_for, has_entry}
use neuromem.RetryQueue.Reconcile.{
  upsert, by_key, recovered_entry, recover_targets, Keys, has_pair, keys_of, recover_files,
  is_valid,
}
use neuromem.RetryQueue.Spool.{IsSpool, spooled, read_file_of_has_file}
use neuromem.RetryQueue.Store.{read_file}
use neuromem.RetryQueue.Entries.{
  KeysDistinct, has_entry-cons, has_entry-nil, has_entry-append, concat-KeysDistinct,
}

has_entry-upsert :
    (i t : String) (e : RetryEntry) (es : List RetryEntry)
    → has_entry i t (upsert e es)
      ≡ (has_entry i t es || (str_eq e.record_id i && str_eq e.target_node t))
unfolding has_entry upsert
has_entry-upsert i t e [] = ground arith
has_entry-upsert i t e (x ∷ xs) = ground (
  arith,
  has_entry-upsert i t e xs,
  str_eq_iff x.record_id e.record_id,
  str_eq_iff x.target_node e.target_node,
)

upsert-KeysDistinct :
    (e : RetryEntry) (es : List RetryEntry) → KeysDistinct es → KeysDistinct (upsert e es)
unfolding upsert is_for
upsert-KeysDistinct e [] h = (has_entry-nil _ _, tt)
upsert-KeysDistinct e (x ∷ xs) h = ground (
  arith,
  upsert-KeysDistinct e xs,
  has_entry-upsert x.record_id x.target_node e xs,
  str_eq_iff x.record_id e.record_id,
  str_eq_iff x.target_node e.target_node,
  str_eq_iff e.record_id x.record_id,
  str_eq_iff e.target_node x.target_node,
)

by_key-KeysDistinct : (acc es : List RetryEntry) → KeysDistinct acc → KeysDistinct (by_key acc es)
unfolding by_key
by_key-KeysDistinct acc [] h = h
by_key-KeysDistinct acc (e ∷ es) h =
    by_key-KeysDistinct (upsert e acc) es (upsert-KeysDistinct e acc h)

upsert_absent :
    (e : RetryEntry) (es : List RetryEntry)
    → has_entry e.record_id e.target_node es ≡ false
    → upsert e es ≡ es ++ e ∷ []
unfolding upsert has_entry
upsert_absent e [] h = refl
upsert_absent e (x ∷ xs) h = ground (arith, upsert_absent e xs)

-- `es` has no key of `acc`, and no key twice.
abbrev Apart : List RetryEntry → List RetryEntry → Type 0
Apart acc [] = Unit
Apart acc (e ∷ es) = (has_entry e.record_id e.target_node acc ≡ false) × Apart acc es

Apart-concat :
    (acc es : List RetryEntry) (x : RetryEntry)
    → has_entry x.record_id x.target_node es ≡ false
    → Apart acc es
    → Apart (acc ++ x ∷ []) es
Apart-concat acc [] x n h = tt
Apart-concat acc (e ∷ es) x n h = ground (
  arith,
  Apart-concat acc es x,
  has_entry-append e.record_id e.target_node acc (x ∷ []),
  has_entry-cons e.record_id e.target_node x [],
  has_entry-nil e.record_id e.target_node,
  has_entry-cons x.record_id x.target_node e es,
  str_eq_iff x.record_id e.record_id,
  str_eq_iff x.target_node e.target_node,
  str_eq_iff e.record_id x.record_id,
  str_eq_iff e.target_node x.target_node,
)

by_key-append :
    (acc es : List RetryEntry) → Apart acc es → KeysDistinct es → by_key acc es ≡ acc ++ es
unfolding by_key
by_key-append acc [] a h = ground (arith, append-nil acc)
by_key-append acc (e ∷ es) a h = rw (upsert_absent e acc a.0) (
    by_key-append (acc ++ e ∷ []) es (Apart-concat acc es e h.0 a.1) h.1
    ∙ append_assoc acc (e ∷ []) es)

Apart-nil : (es : List RetryEntry) → Apart [] es
Apart-nil [] = tt
Apart-nil (e ∷ es) = (has_entry-nil _ _, Apart-nil es)

-- A queue without duplicates is its own map.
pub by_key_of_KeysDistinct : (es : List RetryEntry) → KeysDistinct es → by_key [] es ≡ es
by_key_of_KeysDistinct es h = by_key-append [] es (Apart-nil es) h

has_entry-recover_targets :
    (id : String) (now : ℕ) (i t : String) (ts : List String) (es : List RetryEntry)
    → has_entry i t (recover_targets id now ts es)
      ≡ (has_entry i t es || (str_eq id i && includes ts t))
unfolding recover_targets includes
has_entry-recover_targets id now i t [] es = ground arith
has_entry-recover_targets id now i t (u ∷ ts) es =
    let e = recovered_entry id now u in
    ground (
      arith,
      has_entry-recover_targets id now i t ts es,
      has_entry-recover_targets id now i t ts (es ++ e ∷ []),
      has_entry-append i t es (e ∷ []),
      has_entry-cons i t e [],
      has_entry-nil i t,
      str_eq_iff u t,
      str_eq_iff id i,
    )

recover_targets-KeysDistinct :
    (id : String) (now : ℕ) (ts : List String) (es : List RetryEntry)
    → KeysDistinct es
    → KeysDistinct (recover_targets id now ts es)
unfolding recover_targets
recover_targets-KeysDistinct id now [] es h = h
recover_targets-KeysDistinct id now (t ∷ ts) es h = elim (Bool-cases (has_entry id t es)) [
  | inl old ↦ rw old (recover_targets-KeysDistinct id now ts es h)
  | inr new ↦ rw new (
      recover_targets-KeysDistinct id now ts (es ++ recovered_entry id now t ∷ [])
        (concat-KeysDistinct es (recovered_entry id now t) h new))
]

has_pair-append :
    (i t : String) (xs ys : Keys) → has_pair i t (xs ++ ys) ≡ (has_pair i t xs || has_pair i t ys)
unfolding has_pair
has_pair-append i t [] ys = refl
has_pair-append i t ((j, u) ∷ xs) ys = ground (arith, has_pair-append i t xs ys)

has_pair-keys_of :
    (id : String) (ts : List String) (i t : String)
    → has_pair i t (keys_of id ts) ≡ (str_eq id i && includes ts t)
unfolding has_pair keys_of includes
has_pair-keys_of id [] i t = ground arith
has_pair-keys_of id (u ∷ ts) i t = ground (arith, has_pair-keys_of id ts i t)

-- What the two loops over the directory leave, with the checks left out.
abbrev pub recovered : Records → ℕ → List RetryEntry → List RetryEntry
recovered [] now es = es
recovered ((name, e) ∷ files) now es =
    recovered files now (recover_targets name now e.pending_targets es)

abbrev pub all_keys : Records → Keys → Keys
all_keys [] valid = valid
all_keys ((name, e) ∷ files) valid = all_keys files (valid ++ keys_of name e.pending_targets)

-- In a well-formed directory no check fails.
pub recover_files_lem :
    (files : Records) (now : ℕ) (es : List RetryEntry) (valid : Keys)
    → IsSpool files
    → recover_files files now es valid ≡ ok (recovered files now es, all_keys files valid)
unfolding recover_files
recover_files_lem [] now es valid h = refl
recover_files_lem ((name, e) ∷ files) now es valid (v, n, u, d, h) = ground (
  arith,
  recover_files_lem files now (recover_targets name now e.pending_targets es)
      (valid ++ keys_of name e.pending_targets) h,
  v,
  n,
  str_eq_iff name name,
)

has_entry-recovered :
    (i t : String) (files : Records) (now : ℕ) (es : List RetryEntry)
    → IsSpool files
    → has_entry i t (recovered files now es) ≡ (has_entry i t es || spooled i t files)
unfolding spooled read_file
has_entry-recovered i t [] now es h = ground arith
has_entry-recovered i t ((name, e) ∷ files) now es (v, n, u, d, h) = ground (
  arith,
  has_entry-recovered i t files now (recover_targets name now e.pending_targets es) h,
  has_entry-recover_targets name now i t e.pending_targets es,
  read_file_of_has_file name files d,
  str_eq_iff name i,
)

has_pair-all_keys :
    (i t : String) (files : Records) (valid : Keys)
    → IsSpool files
    → has_pair i t (all_keys files valid) ≡ (has_pair i t valid || spooled i t files)
unfolding spooled read_file
has_pair-all_keys i t [] valid h = ground arith
has_pair-all_keys i t ((name, e) ∷ files) valid (v, n, u, d, h) = ground (
  arith,
  has_pair-all_keys i t files (valid ++ keys_of name e.pending_targets) h,
  has_pair-append i t valid (keys_of name e.pending_targets),
  has_pair-keys_of name e.pending_targets i t,
  read_file_of_has_file name files d,
  str_eq_iff name i,
)

recovered-KeysDistinct :
    (files : Records) (now : ℕ) (es : List RetryEntry)
    → KeysDistinct es
    → KeysDistinct (recovered files now es)
recovered-KeysDistinct [] now es h = h
recovered-KeysDistinct ((name, e) ∷ files) now es h =
    recovered-KeysDistinct files now (recover_targets name now e.pending_targets es)
      (recover_targets-KeysDistinct name now e.pending_targets es h)

has_entry-keep_valid :
    (valid : Keys) (i t : String) (es : List RetryEntry)
    → has_entry i t (keep (is_valid valid) es) ≡ (has_entry i t es && has_pair i t valid)
unfolding has_entry keep
has_entry-keep_valid valid i t [] = refl
has_entry-keep_valid valid i t (e ∷ es) =
    ground (
      arith,
      has_entry-keep_valid valid i t es,
      str_eq_iff e.record_id i,
      str_eq_iff e.target_node t,
    )

keep_valid-KeysDistinct :
    (valid : Keys) (es : List RetryEntry)
    → KeysDistinct es
    → KeysDistinct (keep (is_valid valid) es)
unfolding keep
keep_valid-KeysDistinct valid [] h = tt
keep_valid-KeysDistinct valid (e ∷ es) h = ground (
  arith,
  keep_valid-KeysDistinct valid es,
  has_entry-keep_valid valid e.record_id e.target_node es,
)

abbrev pub rebuilt : Records → ℕ → List RetryEntry → List RetryEntry
rebuilt files now es = keep (is_valid (all_keys files [])) (recovered files now (by_key [] es))

pub rebuilt-KeysDistinct :
    (files : Records) (now : ℕ) (es : List RetryEntry) → KeysDistinct (rebuilt files now es)
rebuilt-KeysDistinct files now es =
    keep_valid-KeysDistinct (all_keys files []) _
      (recovered-KeysDistinct files now (by_key [] es) (by_key-KeysDistinct [] es tt))

-- The rebuilt queue has an entry exactly where the spool has a pending target.
pub has_entry-rebuilt :
    (i t : String) (files : Records) (now : ℕ) (es : List RetryEntry)
    → IsSpool files
    → has_entry i t (rebuilt files now es) ≡ spooled i t files
unfolding has_pair
has_entry-rebuilt i t files now es h = ground (
  arith,
  has_entry-keep_valid (all_keys files []) i t (recovered files now (by_key [] es)),
  has_entry-recovered i t files now (by_key [] es) h,
  has_pair-all_keys i t files [] h,
)
