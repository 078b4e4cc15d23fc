-- ===== src/Json/Canonical.antt =====
-- canonicalJson (apps/mcp/src/router.ts and, the same text, apps/mcp/src/retry-queue.ts), as the
-- list of code points of its text. `Object.keys(object).sort()` orders keys by code point here.
use Prim.Native.Nat.{Ordering}
use Prim.Native.String.{compare}
use neuromem.Prelude.{
  ℕ, zero, suc, ◌+◌, ◌-◌, ◌/◌, ◌%◌, String, Bool, true, false, List, [], ◌∷◌, ◌++◌, ltb, ◌==◌,
  if◌then◌else◌, codes,
}
use neuromem.Json.{
  Json, JsonList, JsonObject, Number, null, boolean, number, string, array, object, nil, cons,
  empty, field,
}

-- The decimal digits of a number; `n + 1` rounds are enough.
decimal_from : ℕ → ℕ → List ℕ → List ℕ
decimal_from zero n acc = acc
decimal_from (suc f) n acc =
    let digit = b'0' + n % 10 in
    let rest = decimal_from f (n / 10) (digit ∷ acc) in if ltb n 10 then digit ∷ acc else rest

decimal : ℕ → List ℕ
unfolding decimal_from
decimal n = decimal_from (suc n) n []

hex_digit : ℕ → ℕ
hex_digit d = if ltb d 10 then b'0' + d else b'a' + (d - 10)

-- One character of `JSON.stringify` on a string.
escape : ℕ → List ℕ
unfolding hex_digit
escape c =
    if c == b'"'
    then b'\\' ∷ b'"' ∷ []
    else if c == b'\\'
    then b'\\' ∷ b'\\' ∷ []
    else if c == 8
    then b'\\' ∷ b'b' ∷ []
    else if c == 9
    then b'\\' ∷ b't' ∷ []
    else if c == 10
    then b'\\' ∷ b'n' ∷ []
    else if c == 12
    then b'\\' ∷ b'f' ∷ []
    else if c == 13
    then b'\\' ∷ b'r' ∷ []
    else if ltb c 32
    then b'\\' ∷ b'u' ∷ b'0' ∷ b'0' ∷ hex_digit (c / 16) ∷ hex_digit (c % 16) ∷ []
    else c ∷ []

escape_all : List ℕ → List ℕ
unfolding escape
escape_all [] = []
escape_all (c ∷ cs) = escape c ++ escape_all cs

quote : String → List ℕ
unfolding escape_all
quote s = b'"' ∷ (escape_all (codes s) ++ b'"' ∷ [])

number_text : Number → List ℕ
unfolding decimal
number_text (Number.nat n) = decimal n
number_text (Number.minus n) = b'-' ∷ decimal (n + 1)
number_text (Number.fraction s) = codes s

-- `parts.join(",")`
join : List (List ℕ) → List ℕ
join [] = []
join (p ∷ []) = p
join (p ∷ q ∷ ps) = p ++ (b',' ∷ join (q ∷ ps))

abbrev Fields : Type 0
Fields = List (String × List ℕ)

abbrev key_le : String → String → Bool
key_le a b = elim (compare a b) [ Ordering.gt ↦ false | _ ↦ true ]

insert_field : String → List ℕ → Fields → Fields
insert_field k v [] = (k, v) ∷ []
insert_field k v ((j, w) ∷ fs) =
    if key_le k j then (k, v) ∷ (j, w) ∷ fs else (j, w) ∷ insert_field k v fs

sort_fields : Fields → Fields
unfolding insert_field
sort_fields [] = []
sort_fields ((k, v) ∷ fs) = insert_field k v (sort_fields fs)

render_fields : Fields → List (List ℕ)
unfolding quote
render_fields [] = []
render_fields ((k, v) ∷ fs) = (quote k ++ (b':' ∷ v)) ∷ render_fields fs

unfoldable mutual
  unfolding quote number_text join sort_fields render_fields

  pub canonical_json : Json → List ℕ
  canonical_json null = codes "null"
  canonical_json (boolean true) = codes "true"
  canonical_json (boolean false) = codes "false"
  canonical_json (number n) = number_text n
  canonical_json (string s) = quote s
  canonical_json (array vs) = b'[' ∷ (join (canonical_items vs) ++ b']' ∷ [])
  canonical_json (object fs) =
      b'{' ∷ (join (render_fields (sort_fields (canonical_fields fs))) ++ b'}' ∷ [])

  pub canonical_items : JsonList → List (List ℕ)
  canonical_items nil = []
  canonical_items (cons v vs) = canonical_json v ∷ canonical_items vs

  pub canonical_fields : JsonObject → Fields
  canonical_fields empty = []
  canonical_fields (field k v fs) = (k, canonical_json v) ∷ canonical_fields fs

-- Whether two texts, as code points, are the same.
unfoldable pub same_text : List ℕ → List ℕ → Bool
same_text [] [] = true
same_text (a ∷ as') (b ∷ bs) = if a == b then same_text as' bs else false
same_text _ _ = false
