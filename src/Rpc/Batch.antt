-- ===== src/Rpc/Batch.antt =====
-- The bound on the replies to a batch (apps/mcp/src/http.ts).
use neuromem.Prelude.{
  ℕ, ◌+◌, ◌*◌, ◌-◌, ◌≤◌, ◌≡◌, List, [], ◌∷◌, ◌++◌, length, length-append, leb, leb→le,
  if◌then◌else◌, Bool-cases, inl, inr, arith,
}
use neuromem.Json.{Json, null, object, Number, JsonObject, get}
use neuromem.Rpc.{
  code_bytes, codes_bytes, text_bytes, json_bytes, replies_sum, replies_bytes, id_of, replacement,
  bound_from, bound_batch_replies,
}

module _ (number_bytes : Number → ℕ) where
  replies_sum-append :
      (xs : List JsonObject) (r : JsonObject)
      → replies_sum number_bytes (xs ++ r ∷ [])
        ≡ replies_sum number_bytes xs + (json_bytes number_bytes (object r) + 1)
  unfolding replies_sum
  replies_sum-append [] r = omega arith
  replies_sum-append (x ∷ xs) r = omega (arith, replies_sum-append xs r)

  -- An id of a replacement takes at most 1024 bytes.
  safe_id-le :
      (id : Json)
      → json_bytes number_bytes (if leb (json_bytes number_bytes id) 1024 then id else null) ≤ 1024
  unfolding json_bytes
  safe_id-le id = elim (Bool-cases (leb (json_bytes number_bytes id) 1024)) [
    | inl e ↦ rw e (leb→le (json_bytes number_bytes id) 1024 e)
    | inr e ↦ rw e (omega arith)
  ]

  replacement-le :
      (reply : JsonObject)
      → number_bytes (Number.minus 32000) ≤ 6
      → json_bytes number_bytes (object (replacement number_bytes reply)) ≤ 2000
  unfolding replacement json_bytes text_bytes codes_bytes code_bytes
  replacement-le reply h = omega (arith, safe_id-le (id_of number_bytes (get "id" reply)))

  replaced-le :
      (xs : List JsonObject) (r : JsonObject)
      → number_bytes (Number.minus 32000) ≤ 6
      → replies_bytes number_bytes (xs ++ replacement number_bytes r ∷ [])
        ≤ replies_bytes number_bytes xs + 2048
  unfolding replies_bytes
  replaced-le xs r h =
      omega (arith, replies_sum-append xs (replacement number_bytes r), replacement-le r h)

  bound_from-length :
      (bounded replies : List JsonObject)
      → length (bound_from number_bytes bounded replies) ≡ length bounded + length replies
  unfolding bound_from
  bound_from-length bounded [] = omega arith
  bound_from-length bounded (r ∷ rs) = ground (
    arith,
    bound_from-length (bounded ++ r ∷ []) rs,
    bound_from-length (bounded ++ replacement number_bytes r ∷ []) rs,
    length-append bounded (r ∷ []),
    length-append bounded (replacement number_bytes r ∷ []),
  )

  bound_from-bytes :
      (bounded replies : List JsonObject)
      → number_bytes (Number.minus 32000) ≤ 6
      → length replies * 2048 ≤ 1048576
      → replies_bytes number_bytes bounded + length replies * 2048 ≤ 1048576
      → replies_bytes number_bytes (bound_from number_bytes bounded replies) ≤ 1048576
  unfolding bound_from
  bound_from-bytes bounded [] small room h = omega arith
  bound_from-bytes bounded (r ∷ rs) small room h =
      let limit : ℕ = 1048576 - length rs * 2048 in
      elim (Bool-cases (leb (replies_bytes number_bytes (bounded ++ r ∷ [])) limit)) [
        | inl fits ↦ rw fits (
            bound_from-bytes (bounded ++ r ∷ []) rs small (omega arith)
              (omega (arith, leb→le _ _ fits)))
        | inr over ↦ rw over (
            bound_from-bytes (bounded ++ replacement number_bytes r ∷ []) rs small (omega arith)
              (omega (arith, replaced-le bounded r small)))
      ]

-- The replies to a batch of at most 32 requests are as many as before, and serialised they take at
-- most one MiB, whatever the replies and their ids are, as long as the text of the code -32001 takes
-- at most six bytes.
pub bound_batch_replies-bounded :
    (number_bytes : Number → ℕ) (replies : List JsonObject)
    → number_bytes (Number.minus 32000) ≤ 6
    → length replies ≤ 32
    → (length (bound_batch_replies number_bytes replies) ≡ length replies)
      × (replies_bytes number_bytes (bound_batch_replies number_bytes replies) ≤ 1048576)
unfolding bound_batch_replies replies_bytes replies_sum
bound_batch_replies-bounded number_bytes replies small few = (
  omega (arith, bound_from-length number_bytes [] replies),
  bound_from-bytes number_bytes [] replies small (omega arith) (omega arith),
)
