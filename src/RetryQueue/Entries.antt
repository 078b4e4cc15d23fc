-- ===== src/RetryQueue/Entries.antt =====
-- Which pairs of a record and a target have an entry in the queue, after each operation on it.
use neuromem.Prelude.{
  ℕ, String, false, not, ◌&&◌, ◌||◌, ◌≡◌, refl, List, [], ◌∷◌, ◌++◌, arith, keep, any-append,
  includes, Distinct, Bool-cases, inl, inr, str_eq, str_eq_iff, if◌then◌else◌,
}
use neuromem.RetryQueue.Store.{RetryEntry, is_for, has_entry}
use neuromem.RetryQueue.Writes.{fresh_entry, push_missing, mark_first, drop_entry}

abbrev pub KeysDistinct : List RetryEntry → Type 0
KeysDistinct [] = Unit
KeysDistinct (e ∷ es) = (has_entry e.record_id e.target_node es ≡ false) × KeysDistinct es

pub has_entry-cons :
    (i t : String) (e : RetryEntry) (es : List RetryEntry)
    → has_entry i t (e ∷ es)
      ≡ ((str_eq e.record_id i && str_eq e.target_node t) || has_entry i t es)
unfolding has_entry
has_entry-cons i t e es = refl

pub has_entry-nil : (i t : String) → has_entry i t [] ≡ false
unfolding has_entry
has_entry-nil i t = refl

pub has_entry-append :
    (i t : String) (xs ys : List RetryEntry)
    → has_entry i t (xs ++ ys) ≡ (has_entry i t xs || has_entry i t ys)
unfolding has_entry
has_entry-append i t xs ys = any-append (is_for i t) xs ys

pub has_entry-drop_entry :
    (id target i t : String) (es : List RetryEntry)
    → has_entry i t (drop_entry id target es)
      ≡ (if str_eq id i && str_eq target t then false else has_entry i t es)
unfolding has_entry drop_entry keep
has_entry-drop_entry id target i t [] = ground arith
has_entry-drop_entry id target i t (e ∷ es) = ground (
  arith,
  has_entry-drop_entry id target i t es,
  str_eq_iff id i,
  str_eq_iff target t,
  str_eq_iff e.record_id id,
  str_eq_iff e.target_node target,
  str_eq_iff e.record_id i,
  str_eq_iff e.target_node t,
)

pub has_entry-push_missing :
    (id : String) (now : ℕ) (known : List RetryEntry) (i t : String) (ts : List String)
    (es : List RetryEntry)
    → has_entry i t (push_missing id now known ts es)
      ≡ (has_entry i t es || (str_eq id i && includes ts t && not (has_entry id t known)))
unfolding push_missing includes
has_entry-push_missing id now known i t [] es = ground arith
has_entry-push_missing id now known i t (u ∷ ts) es =
    let e = fresh_entry id now u in
    ground (
      arith,
      has_entry-push_missing id now known i t ts es,
      has_entry-push_missing id now known i t ts (es ++ e ∷ []),
      has_entry-append i t es (e ∷ []),
      has_entry-cons i t e [],
      has_entry-nil i t,
      str_eq_iff u t,
    )

pub has_entry-mark_first :
    (id target code : String) (now : ℕ) (i t : String) (es : List RetryEntry)
    → has_entry i t (mark_first id target code now es) ≡ has_entry i t es
unfolding has_entry mark_first
has_entry-mark_first id target code now i t [] = refl
has_entry-mark_first id target code now i t (e ∷ es) =
    ground (arith, has_entry-mark_first id target code now i t es)

pub drop_entry-KeysDistinct :
    (id target : String) (es : List RetryEntry)
    → KeysDistinct es
    → KeysDistinct (drop_entry id target es)
unfolding drop_entry keep
drop_entry-KeysDistinct id target [] h = tt
drop_entry-KeysDistinct id target (e ∷ es) h = ground (
  arith,
  drop_entry-KeysDistinct id target es,
  has_entry-drop_entry id target e.record_id e.target_node es,
)

pub mark_first-KeysDistinct :
    (id target code : String) (now : ℕ) (es : List RetryEntry)
    → KeysDistinct es
    → KeysDistinct (mark_first id target code now es)
unfolding mark_first
mark_first-KeysDistinct id target code now [] h = tt
mark_first-KeysDistinct id target code now (e ∷ es) h = ground (
  arith,
  mark_first-KeysDistinct id target code now es,
  has_entry-mark_first id target code now e.record_id e.target_node es,
)

pub concat-KeysDistinct :
    (es : List RetryEntry) (e : RetryEntry)
    → KeysDistinct es
    → has_entry e.record_id e.target_node es ≡ false
    → KeysDistinct (es ++ e ∷ [])
concat-KeysDistinct [] e h n = (has_entry-nil _ _, tt)
concat-KeysDistinct (x ∷ es) e h n = ground (
  arith,
  concat-KeysDistinct es e,
  has_entry-append x.record_id x.target_node es (e ∷ []),
  has_entry-cons x.record_id x.target_node e [],
  has_entry-cons e.record_id e.target_node x es,
  has_entry-nil x.record_id x.target_node,
  str_eq_iff e.record_id x.record_id,
  str_eq_iff e.target_node x.target_node,
  str_eq_iff x.record_id e.record_id,
  str_eq_iff x.target_node e.target_node,
)

-- Every target still to come is missing from the entries made so far, unless it was known.
abbrev Fresh : String → List RetryEntry → List RetryEntry → List String → Type 0
Fresh id known es [] = Unit
Fresh id known es (t ∷ ts) =
    (has_entry id t known ≡ false → has_entry id t es ≡ false) × Fresh id known es ts

Fresh-concat :
    (id : String) (now : ℕ) (known es : List RetryEntry) (u : String) (ts : List String)
    → includes ts u ≡ false
    → Fresh id known es ts
    → Fresh id known (es ++ fresh_entry id now u ∷ []) ts
unfolding includes fresh_entry
Fresh-concat id now known es u [] d h = tt
Fresh-concat id now known es u (t ∷ ts) d h = (
  (λ a. ground (
    arith,
    h.0 a,
    has_entry-append id t es (fresh_entry id now u ∷ []),
    has_entry-cons id t (fresh_entry id now u) [],
    has_entry-nil id t,
    str_eq_iff u t,
    str_eq_iff t u,
  )),
  Fresh-concat id now known es u ts (ground arith) h.1,
)

push_missing-Fresh :
    (id : String) (now : ℕ) (known : List RetryEntry) (ts : List String) (es : List RetryEntry)
    → Distinct ts
    → Fresh id known es ts
    → KeysDistinct es
    → KeysDistinct (push_missing id now known ts es)
unfolding push_missing
push_missing-Fresh id now known [] es d f h = h
push_missing-Fresh id now known (t ∷ ts) es d f h = elim (Bool-cases (has_entry id t known)) [
  | inl old ↦ rw old (push_missing-Fresh id now known ts es d.1 f.1 h)
  | inr new ↦ rw new (
      push_missing-Fresh id now known ts (es ++ fresh_entry id now t ∷ []) d.1
        (Fresh-concat id now known es t ts d.0 f.1)
        (concat-KeysDistinct es (fresh_entry id now t) h (unfold fresh_entry in (f.0 new))))
]

Fresh-self : (id : String) (es : List RetryEntry) (ts : List String) → Fresh id es es ts
Fresh-self id es [] = tt
Fresh-self id es (t ∷ ts) = ((λ a. a), Fresh-self id es ts)

pub push_missing-KeysDistinct :
    (id : String) (now : ℕ) (ts : List String) (es : List RetryEntry)
    → Distinct ts
    → KeysDistinct es
    → KeysDistinct (push_missing id now es ts es)
push_missing-KeysDistinct id now ts es d h =
    push_missing-Fresh id now es ts es d (Fresh-self id es ts) h
