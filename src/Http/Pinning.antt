-- ===== src/Http/Pinning.antt =====
-- A session belongs to one credential and one identity (apps/mcp/src/http.ts).
use neuromem.Prelude.{
  ℕ, ◌+◌, ◌-◌, ◌≤◌, ◌≡◌, ◌⊎◌, String, true, refl, ap, Option, none, some, [], ◌∷◌, keep, leb,
  leb→le, str_eq, str_eq_iff, arith, Bool-cases, inl, inr, subst,
}
use neuromem.Http.{
  Session, Sessions, Credential, required, same_text_option, find_session, prune_sessions,
  check_session, require_session,
}

session_or : Session → Option Session → Session
session_or x none = x
session_or x (some y) = y

some_injective : (x y : Session) → some x ≡ some y → x ≡ y
unfolding session_or
some_injective x y e = ap (session_or x) e

same_text_option_sound : (a b : Option String) → same_text_option a b ≡ true → a ≡ b
unfolding same_text_option
same_text_option_sound none none h = refl
same_text_option_sound none (some b) h = ground arith
same_text_option_sound (some a) none h = ground arith
same_text_option_sound (some a) (some b) h = rw ((str_eq_iff a b).0 h) refl

-- The session for an id, that of the credential.
abbrev Pinned : String → Credential → Option Session → Type 0
Pinned id c found =
    (x : Session) × (found ≡ some x)
    × (x.credential_id ≡ c.credential_id)
    × (x.auth_identity ≡ c.auth_identity)

check_session-Pinned :
    (id id' : String) (c : Credential) (found : Option Session)
    → check_session id c found ≡ required id'
    → (id ≡ id') × Pinned id c found
unfolding check_session
check_session-Pinned id id' c none h = ground arith
check_session-Pinned id id' c (some x) h = (
  ground arith,
  (
    x,
    refl,
    ground (arith, same_text_option_sound x.credential_id c.credential_id),
    ground (arith, same_text_option_sound x.auth_identity c.auth_identity),
  ),
)

-- The table has the session under the id.
unfoldable pub HasSession : String → Session → Sessions → Type 0
HasSession id x [] = ⊥
HasSession id x (f ∷ fs) = ((f.0 ≡ id) × (f.1 ≡ x)) ⊎ HasSession id x fs

found_live :
    (ttl now : ℕ) (id : String) (xs : Sessions) (x : Session)
    → find_session id (prune_sessions ttl now xs) ≡ some x
    → HasSession id x xs × (now ≤ x.last_seen_at + ttl)
unfolding find_session prune_sessions keep HasSession
found_live ttl now id [] x h = ground arith
found_live ttl now id (f ∷ fs) x h =
    let rest = found_live ttl now id fs x in
    elim (Bool-cases (leb (now - (f.1).last_seen_at) ttl)) [
      | inl live ↦
          let h' = rw live at h in
          elim (Bool-cases (str_eq f.0 id)) [
            | inl e ↦
                let same : f.1 ≡ x = some_injective f.1 x (rw e at h') in
                (
                  inl ((str_eq_iff f.0 id).0 e, same),
                  subst (λ y. now ≤ y.last_seen_at + ttl) same
                      (omega (arith, leb→le (now - (f.1).last_seen_at) ttl live)),
                )
            | inr n ↦ let (there, young) = rest (rw n at h') in (inr there, young)
          ]
      | inr dead ↦ let (there, young) = rest (rw dead at h) in (inr there, young)
    ]

-- A request that `requireSession` lets pass names its session in the header, and the table has the
-- session, seen at most the session's lifetime ago, opened by the same credential with the same
-- identity.
pub require_session-Pinned :
    (ttl now : ℕ) (header : Option String) (c : Credential) (xs : Sessions) (id : String)
    → (require_session ttl now header c xs).0 ≡ required id
    → (header ≡ some id)
      × (x : Session) × HasSession id x xs
      × (now ≤ x.last_seen_at + ttl)
      × (x.credential_id ≡ c.credential_id)
      × (x.auth_identity ≡ c.auth_identity)
unfolding require_session
require_session-Pinned ttl now none c xs id h = ground arith
require_session-Pinned ttl now (some i) c xs id h =
    let live = prune_sessions ttl now xs in
    elim (Bool-cases (str_eq i "")) [
      | inl e ↦ absurd (ground (arith, e, h))
      | inr n ↦
          let (same, pinned) =
            check_session-Pinned i id c (find_session i live) (ground (arith, n, h)) in
          let (x, found, credential, identity) =
            subst (λ j. Pinned j c (find_session j live)) same pinned in
          let (there, young) = found_live ttl now id xs x found in
          (rw same refl, x, there, young, credential, identity)
    ]
