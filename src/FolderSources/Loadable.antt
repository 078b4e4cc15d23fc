-- ===== src/FolderSources/Loadable.antt =====
-- attach and detach keep the store of folder sources loadable (apps/manager/src/folder-sources.ts).
use neuromem.Prelude.{
  ◌+◌, ◌≤◌, String, Bool, true, false, ◌&&◌, ◌||◌, ◌≡◌, refl, ap, ◌∙◌, subst, inl, inr, List, [],
  ◌∷◌, length, str_eq, str_eq_iff, str_eq-sym, Bool-cases, arith,
}
use neuromem.FolderSources.{
  ProjectFolderContext, StoredFolderSource, valid_source, all_valid, same_context, has_context,
  has_path, all_apart, has_conflict, put_source,
}

pub same_context_iff :
    (a b : ProjectFolderContext)
    → (same_context a b ≡ true → a ≡ b) × (a ≡ b → same_context a b ≡ true)
unfolding same_context
same_context_iff a b = (
  λ h. λ i. record {
    principal_id = (str_eq_iff a.principal_id b.principal_id).0 (ground arith) i;
    workspace_id = (str_eq_iff a.workspace_id b.workspace_id).0 (ground arith) i;
    project_id = (str_eq_iff a.project_id b.project_id).0 (ground arith) i;
  },
  λ e. ground (
    arith,
    (str_eq_iff a.principal_id b.principal_id).1 (ap (λ c. c.principal_id) e),
    (str_eq_iff a.workspace_id b.workspace_id).1 (ap (λ c. c.workspace_id) e),
    (str_eq_iff a.project_id b.project_id).1 (ap (λ c. c.project_id) e),
  ),
)

pub same_context-sym : (a b : ProjectFolderContext) → same_context a b ≡ same_context b a
unfolding same_context
same_context-sym a b = λ i.
    str_eq-sym a.principal_id b.principal_id i
    && str_eq-sym a.workspace_id b.workspace_id i
    && str_eq-sym a.project_id b.project_id i

pub both : (a b : Bool) → (a && b) ≡ true → (a ≡ true) × (b ≡ true)
both true b h = (refl, h)
both false b h = ground arith

pub join : (a b : Bool) → a ≡ true → b ≡ true → (a && b) ≡ true
join a b h k = rw (h, k) refl

or_again : (a b : Bool) → (a || b) ≡ ((a || b) || a)
or_again true b = refl
or_again false true = refl
or_again false false = refl

or_assoc : (a b c : Bool) → (a || (b || c)) ≡ ((a || b) || c)
or_assoc true b c = refl
or_assoc false b c = refl

has_context-put_source :
    (c : ProjectFolderContext) (new : StoredFolderSource) (ss : List StoredFolderSource)
    → has_context c (put_source new ss) ≡ (has_context c ss || same_context new.context c)
unfolding has_context put_source
has_context-put_source c new [] = ground arith
has_context-put_source c new (s ∷ ss) = elim (Bool-cases (same_context s.context new.context)) [
  | inl e ↦
      let same : same_context s.context c ≡ same_context new.context c =
        ap (λ d. same_context d c) ((same_context_iff s.context new.context).0 e) in
      rw (e, same) (or_again (same_context new.context c) (has_context c ss))
  | inr e ↦
      rw (e, has_context-put_source c new ss)
        (or_assoc (same_context s.context c) (has_context c ss) (same_context new.context c))
]

has_path-put_source :
    (q : String) (new : StoredFolderSource) (ss : List StoredFolderSource)
    → str_eq new.path q ≡ false
    → has_path q ss ≡ false
    → has_path q (put_source new ss) ≡ false
unfolding has_path put_source
has_path-put_source q new [] n h = ground arith
has_path-put_source q new (s ∷ ss) n h = ground (arith, has_path-put_source q new ss)

pub all_valid-put_source :
    (new : StoredFolderSource) (ss : List StoredFolderSource)
    → valid_source new ≡ true
    → all_valid ss ≡ true
    → all_valid (put_source new ss) ≡ true
unfolding all_valid put_source
all_valid-put_source new [] v h = join (valid_source new) true v refl
all_valid-put_source new (s ∷ ss) v h =
    let (here, rest) = both (valid_source s) (all_valid ss) h in
    elim (Bool-cases (same_context s.context new.context)) [
      | inl e ↦ rw e (join (valid_source new) (all_valid ss) v rest)
      | inr e ↦ rw e (
          join (valid_source s) (all_valid (put_source new ss)) here
            (all_valid-put_source new ss v rest))
    ]

pub length-put_source-le :
    (new : StoredFolderSource) (ss : List StoredFolderSource)
    → length (put_source new ss) ≤ length ss + 1
unfolding put_source
length-put_source-le new [] = omega arith
length-put_source-le new (s ∷ ss) = elim (Bool-cases (same_context s.context new.context)) [
  | inl e ↦ rw e (omega arith)
  | inr e ↦ rw e (omega (arith, length-put_source-le new ss))
]

-- Without a conflict, only the source of the context can have the path.
path_of_context :
    (c : ProjectFolderContext) (p : String) (ss : List StoredFolderSource)
    → has_conflict c p ss ≡ false
    → has_context c ss ≡ false
    → has_path p ss ≡ false
unfolding has_conflict has_context has_path
path_of_context c p [] n h = refl
path_of_context c p (s ∷ ss) n h = ground (arith, path_of_context c p ss)

pub all_apart-put_source :
    (new : StoredFolderSource) (ss : List StoredFolderSource)
    → has_conflict new.context new.path ss ≡ false
    → all_apart ss ≡ true
    → all_apart (put_source new ss) ≡ true
unfolding all_apart put_source has_conflict has_context has_path
all_apart-put_source new [] n h = refl
all_apart-put_source new (s ∷ ss) n h = elim (Bool-cases (same_context s.context new.context)) [
  | inl e ↦
      let here : s.context ≡ new.context = (same_context_iff s.context new.context).0 e in
      let alone : has_context new.context ss ≡ false =
        subst (λ c. has_context c ss ≡ false) here (ground arith) in
      let fresh : has_path new.path ss ≡ false =
        path_of_context new.context new.path ss (ground arith) alone in
      rw e (ground (arith, alone, fresh))
  | inr e ↦
      let other : same_context new.context s.context ≡ false =
        same_context-sym new.context s.context ∙ e in
      rw e (
        ground (
          arith,
          other,
          str_eq_iff s.path new.path,
          str_eq_iff new.path s.path,
          has_context-put_source s.context new ss,
          has_path-put_source s.path new ss,
          all_apart-put_source new ss,
        ))
]
