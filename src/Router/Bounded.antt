-- ===== src/Router/Bounded.antt =====
-- `#boundFederatedResult` and compactItem (apps/mcp/src/router.ts). The sizes of serialised values
-- and the cut of a text are parameters: `bytes` is the size of an item, `result_bytes` that of the
-- result with the given results and snippets.
use neuromem.Prelude.{
  ℕ, ◌+◌, ◌≤◌, ◌≡◌, String, Bool, true, false, ◌||◌, none, some, List, [], ◌∷◌, ◌++◌, length,
  length-append, any, leb, ltb, arith, if◌then◌else◌, Bool-cases, inl, inr,
}
use neuromem.Json.{JsonObject, Number, boolean, number, string, empty, field, get, as_string}

pub record Parameters : Type 0 where
  pub bytes : JsonObject → ℕ
  pub result_bytes : List JsonObject → List JsonObject → ℕ
  pub truncate : String → ℕ → String

abbrev picked : List String → JsonObject → JsonObject → JsonObject
picked [] item rest = rest
picked (k ∷ ks) item rest = elim (get k item) [
  | none ↦ picked ks item rest
  | some v ↦ field k v (picked ks item rest)
]

abbrev shortened : Parameters → String → ℕ → JsonObject → JsonObject → JsonObject
shortened p key maximum item rest = elim (as_string (get key item)) [
  | none ↦ rest
  | some s ↦ field key (string (p.truncate s maximum)) rest
]

-- compactItem
unfoldable pub compact_item : Parameters → JsonObject → JsonObject
compact_item p item =
    picked
      ("origin_node" ∷ "origin_nodes" ∷ "origin_scope" ∷ "logical_scope" ∷ "memory_kind"
        ∷ "record_id" ∷ "claim_id" ∷ "snippet_ref" ∷ "result_id" ∷ "session_id"
        ∷ "matched_record_ids" ∷ "content_hash" ∷ "status" ∷ "derivation_method" ∷ "rank"
        ∷ "rrf_score" ∷ "created_at" ∷ [])
      item
      (shortened p "content" 65536 item (
        shortened p "matched_content" 32768 item (
          field "truncated" (boolean true)
            (field "original_bytes" (number (Number.nat (p.bytes item))) empty))))

-- MAX_SERIALIZED_ITEM_BYTES
unfoldable pub candidate : Parameters → JsonObject → JsonObject
unfolding compact_item
candidate p raw = if leb (p.bytes raw) 524288 then raw else compact_item p raw

-- One of the two loops: what is kept and how many are left out; `size` is that of the result.
unfoldable pub bound_items :
    Parameters → (List JsonObject → ℕ) → List JsonObject → ℕ → List JsonObject → List JsonObject × ℕ
unfolding candidate
bound_items p size bounded omitted [] = (bounded, omitted)
bound_items p size bounded omitted (raw ∷ raws) =
    let next = bounded ++ candidate p raw ∷ [] in
    if ltb 959744 (size next)
    then bound_items p size bounded (omitted + 1) raws
    else bound_items p size next omitted raws

pub record Bounded : Type 0 where
  pub results : List JsonObject
  pub snippets : List JsonObject
  pub omitted_results : ℕ
  pub omitted_snippets : ℕ
  pub truncated : Bool

is_compact : JsonObject → Bool
is_compact item = elim (get "truncated" item) [ some (boolean true) ↦ true | _ ↦ false ]

-- `#boundFederatedResult`
unfoldable pub bound_federated_result : Parameters → List JsonObject → List JsonObject → Bounded
unfolding bound_items is_compact any
bound_federated_result p results snippets =
    let r = bound_items p (λ xs. p.result_bytes xs []) [] 0 results in
    let s = bound_items p (p.result_bytes r.0) [] 0 snippets in
    record {
      results = r.0;
      snippets = s.0;
      omitted_results = r.1;
      omitted_snippets = s.1;
      truncated =
          leb 1 r.1
          || leb 1 s.1
          || any (λ x. ltb 524288 (p.bytes x)) snippets
          || any is_compact r.0;
    }

bound_items-bounded :
    (p : Parameters) (size : List JsonObject → ℕ) (bounded : List JsonObject) (omitted : ℕ)
    (raws : List JsonObject)
    → size bounded ≤ 959744
    → (size (bound_items p size bounded omitted raws).0 ≤ 959744)
      × (length (bound_items p size bounded omitted raws).0
            + (bound_items p size bounded omitted raws).1
          ≡ length bounded + omitted + length raws)
unfolding bound_items
bound_items-bounded p size bounded omitted [] h = (h, omega arith)
bound_items-bounded p size bounded omitted (raw ∷ raws) h =
    let next = bounded ++ candidate p raw ∷ [] in
    elim (Bool-cases (ltb 959744 (size next))) [
      | inl over ↦ rw over (
          let (small, count) = bound_items-bounded p size bounded (omitted + 1) raws h in
          (small, omega (arith, count)))
      | inr fits ↦ rw fits (
          let (small, count) =
            bound_items-bounded p size next omitted raws (ground (arith, fits)) in
          (small, omega (arith, count, length-append bounded (candidate p raw ∷ []))))
    ]

-- A result that fits without items stays below the limit with the results and snippets that are
-- kept, and each result and snippet that is not kept is counted as omitted.
pub bound_federated_result-bounded :
    (p : Parameters) (results snippets : List JsonObject)
    → p.result_bytes [] [] ≤ 959744
    → let b = bound_federated_result p results snippets in
      (p.result_bytes b.results b.snippets ≤ 959744)
      × (length b.results + b.omitted_results ≡ length results)
      × (length b.snippets + b.omitted_snippets ≡ length snippets)
unfolding bound_federated_result
bound_federated_result-bounded p results snippets h =
    let r = bound_items p (λ xs. p.result_bytes xs []) [] 0 results in
    let (small, count) = bound_items-bounded p (λ xs. p.result_bytes xs []) [] 0 results h in
    let (small', count') = bound_items-bounded p (p.result_bytes r.0) [] 0 snippets small in
    (small', omega (arith, count), omega (arith, count'))
