-- ===== src/FolderSources/Attached.antt =====
-- What attach and detach do to the folder sources (apps/manager/src/folder-sources.ts).
use neuromem.Prelude.{
  ℕ, ◌+◌, ◌≤◌, ◌<◌, String, Bool, true, false, ◌&&◌, ◌≡◌, refl, ap, ◌∙◌, subst, ◌⊎◌, inl, inr,
  Option, some, List, [], ◌∷◌, length, str_eq, str_eq_self, leb, Bool-cases, if◌then◌else◌, arith,
}
use neuromem.FolderSources.{
  ProjectFolderContext, StoredFolderSource, Outcome, done, refused, SourceFile, missing, unreadable,
  decoded, valid_source, all_valid, same_context, all_apart, loadable, load, has_conflict,
  find_source, put_source, has_this_path, new_source, attach_to, with_sources, attach,
  source_conflict, invalid_store,
}
use neuromem.FolderSources.Loadable.{
  same_context_iff, same_context-sym, both, join, all_valid-put_source, length-put_source-le,
  all_apart-put_source,
}

same_context_self : (c : ProjectFolderContext) → same_context c c ≡ true
same_context_self c = (same_context_iff c c).1 refl

if_again :
    (b : Bool) (new s : StoredFolderSource) (o : Option StoredFolderSource)
    → (if b then some new else o) ≡ (if b then some new else (if b then some s else o))
if_again true new s o = refl
if_again false new s o = refl

if_swap :
    (a b : Bool) (new s : StoredFolderSource) (o : Option StoredFolderSource)
    → (a ≡ true → b ≡ false)
    → (if a then some s else (if b then some new else o))
      ≡ (if b then some new else (if a then some s else o))
if_swap true b new s o h = rw (h refl) refl
if_swap false b new s o h = refl

find_source-put_source :
    (d : ProjectFolderContext) (new : StoredFolderSource) (ss : List StoredFolderSource)
    → find_source d (put_source new ss)
      ≡ (if same_context new.context d then some new else find_source d ss)
unfolding find_source put_source
find_source-put_source d new [] = refl
find_source-put_source d new (s ∷ ss) = elim (Bool-cases (same_context s.context new.context)) [
  | inl e ↦
      let same : same_context s.context d ≡ same_context new.context d =
        ap (λ c. same_context c d) ((same_context_iff s.context new.context).0 e) in
      rw (e, same) (if_again (same_context new.context d) new s (find_source d ss))
  | inr e ↦
      let other : same_context s.context d ≡ true → same_context new.context d ≡ false = λ h.
        subst (λ c. same_context new.context c ≡ false) ((same_context_iff s.context d).0 h)
          (same_context-sym new.context s.context ∙ e) in
      rw (e, find_source-put_source d new ss)
        (if_swap (same_context s.context d) (same_context new.context d) new s (find_source d ss)
          other)
]

sources_of : Outcome (List StoredFolderSource) → List StoredFolderSource
sources_of (done ss) = ss
sources_of (refused e) = []

done_injective : (l ss : List StoredFolderSource) → done l ≡ done ss → l ≡ ss
unfolding sources_of
done_injective l ss e = ap sources_of e

nothing_loadable : loadable [] ≡ true
unfolding loadable all_valid all_apart
nothing_loadable = refl

loaded_decoded :
    (b : Bool) (l ss : List StoredFolderSource)
    → b ≡ true
    → (if b then done l else refused invalid_store) ≡ done ss
    → done l ≡ done ss
loaded_decoded b l ss h e = subst (λ b. (if b then done l else refused invalid_store) ≡ done ss) h e

not_loaded :
    (b : Bool) (l ss : List StoredFolderSource)
    → b ≡ false
    → (if b then done l else refused invalid_store) ≡ done ss
    → loadable ss ≡ true
not_loaded b l ss h e =
    let bad : refused invalid_store ≡ done ss =
      subst (λ b. (if b then done l else refused invalid_store) ≡ done ss) h e in
    ground arith

loaded :
    (file : SourceFile) (ss : List StoredFolderSource) → load file ≡ done ss → loadable ss ≡ true
unfolding load
loaded missing ss e = subst (λ l. loadable l ≡ true) (done_injective [] ss e) nothing_loadable
loaded unreadable ss e = ground arith
loaded (decoded bytes l) ss e =
    let fine = leb bytes 5242880 && loadable l in
    elim (Bool-cases fine) [
      | inl h ↦
          subst (λ l. loadable l ≡ true) (done_injective l ss (loaded_decoded fine l ss h e))
            (both (leb bytes 5242880) (loadable l) h).1
      | inr h ↦ not_loaded fine l ss h e
    ]

small_enough : (m n : ℕ) → m ≤ n + 1 → n < 10000 → leb m 10000 ≡ true
small_enough m n h k = ground arith

this_path :
    (new : StoredFolderSource) (p : String) → new.path ≡ p → has_this_path p (some new) ≡ true
unfolding has_this_path
this_path new p f = subst (λ q. str_eq new.path q ≡ true) f (str_eq_self new.path)

put_source-loadable :
    (new : StoredFolderSource) (ss : List StoredFolderSource)
    → loadable ss ≡ true
    → length ss < 10000
    → valid_source new ≡ true
    → has_conflict new.context new.path ss ≡ false
    → loadable (put_source new ss) ≡ true
unfolding loadable
put_source-loadable new ss h room v n =
    let (before, apart) = both (leb (length ss) 10000 && all_valid ss) (all_apart ss) h in
    let (short, valid) = both (leb (length ss) 10000) (all_valid ss) before in
    let after = put_source new ss in
    join (leb (length after) 10000 && all_valid after) (all_apart after)
      (join (leb (length after) 10000) (all_valid after)
        (small_enough (length after) (length ss) (length-put_source-le new ss) room)
        (all_valid-put_source new ss v valid))
      (all_apart-put_source new ss n apart)

-- The file can be loaded again, with this path for this context, and the other contexts as they were.
abbrev pub Connected : ProjectFolderContext → String → List StoredFolderSource → SourceFile → Type 0
Connected c p ss file =
    (ss' : List StoredFolderSource) × (load file ≡ done ss')
    × (has_this_path p (find_source c ss') ≡ true)
    × ((d : ProjectFolderContext) → same_context c d ≡ false → find_source d ss' ≡ find_source d ss)

connected :
    (size : List StoredFolderSource → ℕ) (c : ProjectFolderContext) (p : String)
    (new : StoredFolderSource) (ss : List StoredFolderSource)
    → loadable (put_source new ss) ≡ true
    → new.context ≡ c
    → new.path ≡ p
    → leb (size (put_source new ss)) 5242880 ≡ true
    → Connected c p ss (decoded (size (put_source new ss)) (put_source new ss))
unfolding load
connected size c p new ss h e f z = (
  put_source new ss,
  rw (z, h) refl,
  rw (find_source-put_source c new ss)
      (rw (ap (λ x. same_context x c) e ∙ same_context_self c) (this_path new p f)),
  λ d n. rw (find_source-put_source d new ss) (rw (ap (λ x. same_context x d) e ∙ n) refl),
)

-- On a store that can be loaded and has less than 10,000 sources, attach with a source that is valid
-- refuses a folder that another project has and changes nothing. Otherwise it succeeds: the store can
-- be loaded again and has the folder for the project, and the other projects keep theirs, as long as
-- the file with the new source has at most 5 MiB.
pub attach-Connected :
    (size : List StoredFolderSource → ℕ) (basename : String → String) (c : ProjectFolderContext)
    (p id now : String) (ss : List StoredFolderSource) (file : SourceFile)
    → load file ≡ done ss
    → length ss < 10000
    → valid_source (new_source basename c p id now (find_source c ss)) ≡ true
    → size (put_source (new_source basename c p id now (find_source c ss)) ss) ≤ 5242880
    → ((has_conflict c p ss ≡ true)
        × (attach size basename c p id now file ≡ (refused source_conflict, file)))
      ⊎ (((attach size basename c p id now file).0 ≡ done tt)
          × Connected c p ss (attach size basename c p id now file).1)
unfolding attach with_sources attach_to new_source
attach-Connected size basename c p id now ss file e room v small =
    elim (Bool-cases (has_conflict c p ss)) [
      | inl conflict ↦ inl (conflict, rw (e, conflict) refl)
      | inr free ↦ elim (Bool-cases (has_this_path p (find_source c ss))) [
        | inl held ↦ rw (e, free, held) (inr (refl, (ss, e, held, λ d n. refl)))
        | inr moved ↦
            rw (e, free, moved)
              (inr (
                refl,
                connected size c p (new_source basename c p id now (find_source c ss)) ss
                    (put_source-loadable (new_source basename c p id now (find_source c ss)) ss
                      (loaded file ss e) room v free)
                    refl refl (ground (arith, small)),
              ))
      ]
    ]
