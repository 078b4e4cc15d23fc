-- ===== src/Router/Settled.antt =====
-- A delivery settles its pair of a record and a target, whatever the Core node answers.
use neuromem.Prelude.{
  ℕ, String, true, false, ◌≡◌, ◌≢◌, ◌⊎◌, inl, inr, refl, sym, ◌∙◌, List, includes, if◌then◌else◌,
  Bool-cases,
}
use neuromem.Json.{JsonObject}
use neuromem.Uuid.{is_record_id}
use neuromem.CoreClient.{Reply, replied, refused}
use neuromem.RetryQueue.Store.{Store, Result, ok, ◌>>◌, return, bind_result}
use neuromem.RetryQueue.Writes.{record_id_of, mark_pending, resolve}
use neuromem.RetryQueue.Spool.{spooled}
use neuromem.RetryQueue.Consistency.{IsConsistent}
use neuromem.RetryQueue.Resolution.{resolve-Resolved, mark_pending-Marked, without_pair}
use neuromem.Router.Delivery.{
  stored, pending, failed, stored_status, DeliveryStatus, Core, Failure, core, other, Attempt,
  delivered, broken, batch_request, session_request, post_and_resolve, caught,
  finish_delivery_error, Creation, created, refused_session, creation_error, create_missing_session,
  is_not_found, settle, after_creation, after_first, deliver,
}

true-ne-false : true ≢ false
true-ne-false = cc

-- The pair is out of the spool, and all other pairs are as they were.
abbrev pub Removed : Store → String → String → Store → Type 0
Removed s id t s' =
    (j u : String) → spooled j u s'.records ≡ without_pair id t j u (spooled j u s.records)

-- The call returns. Either it reports `pending` and the spool is as it was, or it reports `stored`
-- or `failed` and exactly the pair is out of it. The queue's two files agree.
abbrev pub Settled : Store → String → String → Result DeliveryStatus × Store → Type 0
Settled s id t r =
    (st : DeliveryStatus) × (r.0 ≡ ok st)
    × IsConsistent r.1
    × (((st.status ≡ pending) × (r.1.records ≡ s.records))
        ⊎ ((st.status ≢ pending) × Removed s id t r.1))

-- The pair is pending, and the files agree.
abbrev pub Ready : Store → String → String → Type 0
Ready s id t = IsConsistent s × (is_record_id id ≡ true) × (spooled id t s.records ≡ true)

module _ (s : Store) (id t : String) (h : Ready s id t) where
  mark_then-Settled :
      (code : String) (now : ℕ) (st : DeliveryStatus)
      → st.status ≡ pending
      → Settled s id t ((mark_pending id t code now >> return st) s)
  mark_then-Settled code now st p = elim (mark_pending-Marked id t code now s h.0) [
    | inl (gone, e) ↦ absurd (true-ne-false (sym h.2 ∙ gone))
    | inr (there, done, c, same) ↦ rw (done, bind_result) (st, refl, c, inl (p, same))
  ]

  resolve_ok :
      ((resolve id t s).0 ≡ ok tt)
      × IsConsistent (resolve id t s).1
      × Removed s id t (resolve id t s).1
  resolve_ok = elim (resolve-Resolved id t s h.0) [
    | inl (invalid, e) ↦ absurd (true-ne-false (sym h.1 ∙ invalid))
    | inr r ↦ r
  ]

  resolve_then-Settled :
      (st : DeliveryStatus) → st.status ≢ pending → Settled s id t ((resolve id t >> return st) s)
  resolve_then-Settled st n =
      let (done, c, removed) = resolve_ok in rw (done, bind_result) (st, refl, c, inr (n, removed))

failed-ne-pending : failed ≢ pending
failed-ne-pending = cc

stored-ne-pending : stored ≢ pending
stored-ne-pending = cc

module _ (s : Store) (write : JsonObject) (t : String) (h : Ready s (record_id_of write) t) where
  finish-Settled :
      (now : ℕ) (f : Failure)
      → Settled s (record_id_of write) t (finish_delivery_error write t now f s)
  unfolding finish_delivery_error
  finish-Settled now other = mark_then-Settled s (record_id_of write) t h _ now _ refl
  finish-Settled now (core e) = elim (Bool-cases e.retryable) [
    | inl again ↦ rw again (mark_then-Settled s (record_id_of write) t h _ now _ refl)
    | inr final ↦ rw final (resolve_then-Settled s (record_id_of write) t h _ failed-ne-pending)
  ]

  -- One attempt: the pair is out of the spool, or nothing changed.
  abbrev Posted : Attempt × Store → Type 0
  Posted r =
      ((r.0 ≡ delivered) × IsConsistent r.1 × Removed s (record_id_of write) t r.1)
      ⊎ ((f : Failure) × (r ≡ (broken f, s)))

  post-Posted : (reply : Reply) → Posted (post_and_resolve reply write t s)
  unfolding post_and_resolve
  post-Posted (refused e) = inr (core e, refl)
  post-Posted (replied v) =
      let (done, c, removed) = resolve_ok s (record_id_of write) t h in
      inl (rw (done, caught) (refl, c, removed))

  settle-delivered :
      (now : ℕ) (r : Attempt × Store)
      → r.0 ≡ delivered
      → settle write t now r ≡ (ok stored_status, r.1)
  unfolding settle
  settle-delivered now (delivered, s') e = refl
  settle-delivered now (broken f, s') e = cc

  settle-Settled :
      (now : ℕ) (r : Attempt × Store)
      → Posted r
      → Settled s (record_id_of write) t (settle write t now r)
  unfolding settle
  settle-Settled now r (inl (e, c, removed)) =
      rw (settle-delivered now r e) (_, refl, c, inr (stored-ne-pending, removed))
  settle-Settled now r (inr (f, e)) = rw e (finish-Settled now f)

  after_creation-Settled :
      (made : Creation) (second : Reply) (now : ℕ) (f : Failure)
      → Settled s (record_id_of write) t (after_creation made second write t now f s)
  unfolding after_creation
  after_creation-Settled created second now f =
      settle-Settled now (post_and_resolve second write t s) (post-Posted second)
  after_creation-Settled refused_session second now f = finish-Settled now f
  after_creation-Settled (creation_error e) second now f =
      finish-Settled now (if e.retryable then core e else f)

  after_first-broken :
      (node : Core) (scope : JsonObject) (now : ℕ) (f : Failure)
      → Settled s (record_id_of write) t (after_first node write t scope now (broken f, s))
  unfolding after_first
  after_first-broken node scope now f = elim (Bool-cases (is_not_found f)) [
    | inl missing ↦ rw missing (
        after_creation-Settled
          (create_missing_session (node t (session_request write t scope) 1) write)
          (node t (batch_request write t scope) 2) now f)
    | inr there ↦ rw there (finish-Settled now f)
  ]

  after_first-delivered :
      (node : Core) (scope : JsonObject) (now : ℕ) (r : Attempt × Store)
      → r.0 ≡ delivered
      → after_first node write t scope now r ≡ (ok stored_status, r.1)
  unfolding after_first
  after_first-delivered node scope now (delivered, s') e = refl
  after_first-delivered node scope now (broken f, s') e = cc

  after_first-Settled :
      (node : Core) (scope : JsonObject) (now : ℕ) (r : Attempt × Store)
      → Posted r
      → Settled s (record_id_of write) t (after_first node write t scope now r)
  after_first-Settled node scope now r (inl (e, c, removed)) =
      rw (after_first-delivered node scope now r e) (_, refl, c, inr (stored-ne-pending, removed))
  after_first-Settled node scope now r (inr (f, e)) = rw e (after_first-broken node scope now f)

-- Whatever a configured node answers to the posts and to the creation of the session, the delivery
-- of a pending pair returns; the pair stays pending exactly if the report says so, and no other
-- pair changes.
pub deliver-Settled :
    (node : Core) (clients : List String) (write : JsonObject) (t : String) (scope : JsonObject)
    (now : ℕ) (s : Store)
    → includes clients t ≡ true
    → Ready s (record_id_of write) t
    → Settled s (record_id_of write) t (deliver node clients write t scope now s)
unfolding deliver
deliver-Settled node clients write t scope now s known h = rw known (
    after_first-Settled s write t h node scope now
      (post_and_resolve (node t (batch_request write t scope) 0) write t s)
      (post-Posted s write t h (node t (batch_request write t scope) 0)))
