-- ===== src/RetryQueue/Listing.antt =====
-- What `list` returns: the due entries of the wanted targets, the earliest first, cut off.
use mathlib.Core.List.{Perm}
use mathlib.Core.List.Perm
use neuromem.Prelude.{
  ℕ, ◌≤◌, String, Bool, ◌≡◌, Option, List, [], ◌∷◌, arith, take, keep, leb, leb→le, Bool-cases, inl,
  inr,
}
use neuromem.RetryQueue.Store.{RetryEntry, Store, entries, ok, read_queue}
use neuromem.RetryQueue.Reads.{insert_entry, sort_entries, is_selected, is_due, due_entries, list}

-- No entry is later than one after it.
abbrev NotAfter : RetryEntry → List RetryEntry → Type 0
NotAfter e [] = Unit
NotAfter e (x ∷ xs) = (e.next_attempt_at ≤ x.next_attempt_at) × NotAfter e xs

abbrev pub IsSorted : List RetryEntry → Type 0
IsSorted [] = Unit
IsSorted (e ∷ es) = NotAfter e es × IsSorted es

NotAfter-insert_entry :
    (e x : RetryEntry) (xs : List RetryEntry)
    → e.next_attempt_at ≤ x.next_attempt_at
    → NotAfter e xs
    → NotAfter e (insert_entry x xs)
unfolding insert_entry
NotAfter-insert_entry e x [] h n = (h, tt)
NotAfter-insert_entry e x (y ∷ ys) h n = ground (arith, NotAfter-insert_entry e x ys h)

NotAfter-trans :
    (e x : RetryEntry) (xs : List RetryEntry)
    → e.next_attempt_at ≤ x.next_attempt_at
    → NotAfter x xs
    → NotAfter e xs
NotAfter-trans e x [] h n = tt
NotAfter-trans e x (y ∷ ys) h n = (omega arith, NotAfter-trans e x ys h n.1)

insert_entry-IsSorted :
    (e : RetryEntry) (es : List RetryEntry) → IsSorted es → IsSorted (insert_entry e es)
unfolding insert_entry
insert_entry-IsSorted e [] h = (tt, tt)
insert_entry-IsSorted e (x ∷ xs) (n, h) =
    elim (Bool-cases (leb e.next_attempt_at x.next_attempt_at)) [
      | inl le ↦
          let before = leb→le e.next_attempt_at x.next_attempt_at le in
          rw le ((before, NotAfter-trans e x xs before n), (n, h))
      | inr gt ↦ rw gt (NotAfter-insert_entry x e xs (ground arith) n, insert_entry-IsSorted e xs h)
    ]

sort_entries-IsSorted : (es : List RetryEntry) → IsSorted (sort_entries es)
unfolding sort_entries
sort_entries-IsSorted [] = tt
sort_entries-IsSorted (e ∷ es) =
    insert_entry-IsSorted e (sort_entries es) (sort_entries-IsSorted es)

insert_entry-perm : (e : RetryEntry) (es : List RetryEntry) → Perm (insert_entry e es) (e ∷ es)
unfolding insert_entry
insert_entry-perm e [] = Perm.refl (e ∷ [])
insert_entry-perm e (x ∷ xs) = elim (Bool-cases (leb e.next_attempt_at x.next_attempt_at)) [
  | inl le ↦ rw le (Perm.refl (e ∷ x ∷ xs))
  | inr gt ↦ rw gt (Perm.trans (Perm.cons x (insert_entry-perm e xs)) (Perm.swap e x xs))
]

sort_entries-perm : (es : List RetryEntry) → Perm (sort_entries es) es
unfolding sort_entries
sort_entries-perm [] = Perm.refl []
sort_entries-perm (e ∷ es) =
    Perm.trans (insert_entry-perm e (sort_entries es)) (Perm.cons e (sort_entries-perm es))

-- `list` cuts at `limit` a sorted arrangement of exactly the entries that are wanted and due.
pub list-Sorted :
    (targets : Option (List String)) (limit : ℕ) (force : Bool) (now : ℕ) (s : Store)
    (es : List RetryEntry)
    → s.queue ≡ entries es
    → (sorted : List RetryEntry) × IsSorted sorted
      × Perm sorted (keep (is_due force now) (keep (is_selected targets) es))
      × (list targets limit force now s ≡ (ok (take limit sorted), s))
unfolding list read_queue due_entries
list-Sorted targets limit force now s es q =
    let wanted = keep (is_due force now) (keep (is_selected targets) es) in
    (sort_entries wanted, sort_entries-IsSorted wanted, sort_entries-perm wanted, ground arith)
