-- ===== src/Json.antt =====
-- JSON values as the source handles them: `unknown` that came from `JSON.parse`, and
-- `JsonObject = Record<string, unknown>` (apps/mcp/src/types.ts). A missing key reads as `none`,
-- where the source reads `undefined`.
pub mod Canonical
use neuromem.Prelude.{
  ℕ, String, Bool, true, false, ◌&&◌, ◌≡◌, refl, Option, none, some, List, [], ◌∷◌, arith, str_eq,
  str_eq_iff, if◌then◌else◌, ◌==◌,
}

-- A number is an integer, or any other double by its printed text. `minus n` is -(n + 1).
pub data Number : Type 0 where
  nat : ℕ → Number
  minus : ℕ → Number
  fraction : String → Number

mutual
  pub data Json : Type 0 where
    null : Json
    boolean : Bool → Json
    number : Number → Json
    string : String → Json
    array : JsonList → Json
    object : JsonObject → Json

  pub data JsonList : Type 0 where
    nil : JsonList
    cons : Json → JsonList → JsonList

  pub data JsonObject : Type 0 where
    empty : JsonObject
    field : String → Json → JsonObject → JsonObject

-- `object[key]`
unfoldable pub get : String → JsonObject → Option Json
get k empty = none
get k (field j v fs) = if str_eq j k then some v else get k fs

-- `{ ...object, [key]: value }`: a key that is there keeps its place.
unfoldable pub put : String → Json → JsonObject → JsonObject
put k v empty = field k v empty
put k v (field j w fs) = if str_eq j k then field j v fs else field j w (put k v fs)

-- `const { [key]: _, ...rest } = object`
unfoldable pub remove : String → JsonObject → JsonObject
remove k empty = empty
remove k (field j v fs) = let rest = remove k fs in if str_eq j k then rest else field j v rest

-- `{ ...a, ...b }`
unfoldable pub spread : JsonObject → JsonObject → JsonObject
spread a empty = a
spread a (field k v b) = spread (put k v a) b

unfoldable pub has_key : String → JsonObject → Bool
has_key k empty = false
has_key k (field j v fs) = if str_eq j k then true else has_key k fs

-- The keys of a JavaScript object are distinct.
abbrev pub DistinctKeys : JsonObject → Type 0
DistinctKeys empty = Unit
DistinctKeys (field k v fs) = (has_key k fs ≡ false) × DistinctKeys fs

-- `typeof value === "string" ? value : undefined`
abbrev pub as_string : Option Json → Option String
as_string (some (string s)) = some s
as_string _ = none

-- `asObject(value)`, `objectValue(value)`
abbrev pub as_object : Option Json → Option JsonObject
as_object (some (object o)) = some o
as_object _ = none

abbrev pub to_list : JsonList → List Json
to_list nil = []
to_list (cons v vs) = v ∷ to_list vs

abbrev pub of_list : List Json → JsonList
of_list [] = nil
of_list (v ∷ vs) = cons v (of_list vs)

-- `Array.isArray(value) ? value : undefined`
abbrev pub as_array : Option Json → Option (List Json)
as_array (some (array vs)) = some (to_list vs)
as_array _ = none

pub get-put :
    (k j : String) (v : Json) (o : JsonObject)
    → get j (put k v o) ≡ (if str_eq k j then some v else get j o)
unfolding get put
get-put k j v empty = refl
get-put k j v (field i w fs) =
    ground (arith, get-put k j v fs, str_eq_iff k j, str_eq_iff i k, str_eq_iff i j)

pub get-remove :
    (k j : String) (o : JsonObject) → get j (remove k o) ≡ (if str_eq k j then none else get j o)
unfolding get remove
get-remove k j empty = ground arith
get-remove k j (field i w fs) =
    ground (arith, get-remove k j fs, str_eq_iff k j, str_eq_iff i k, str_eq_iff i j)

get_of_has_key : (k : String) (o : JsonObject) → has_key k o ≡ false → get k o ≡ none
unfolding get has_key
get_of_has_key k empty h = refl
get_of_has_key k (field j v fs) h = ground (arith, get_of_has_key k fs)

-- `??` on an optional field.
abbrev pub or_else {ℓ} : {A : Type ℓ} → Option A → Option A → Option A
or_else none d = d
or_else (some a) d = some a

-- The right operand of a spread wins.
pub get-spread :
    (k : String) (a b : JsonObject)
    → DistinctKeys b
    → get k (spread a b) ≡ or_else (get k b) (get k a)
unfolding get spread
get-spread k a empty h = refl
get-spread k a (field j v b) h = ground (
  arith,
  get-spread k (put j v a) b (h.1),
  get-put j k v a,
  get_of_has_key j b (h.0),
  str_eq_iff j k,
)

-- `JSON.stringify(a) === JSON.stringify(b)`: equality of the values, the order of keys included.
mutual
  pub json_eq : Json → Json → Bool
  json_eq null null = true
  json_eq (boolean true) (boolean true) = true
  json_eq (boolean false) (boolean false) = true
  json_eq (number (nat a)) (number (nat b)) = a == b
  json_eq (number (minus a)) (number (minus b)) = a == b
  json_eq (number (fraction a)) (number (fraction b)) = str_eq a b
  json_eq (string a) (string b) = str_eq a b
  json_eq (array a) (array b) = list_eq a b
  json_eq (object a) (object b) = object_eq a b
  json_eq _ _ = false

  pub list_eq : JsonList → JsonList → Bool
  list_eq nil nil = true
  list_eq (cons a as') (cons b bs) = json_eq a b && list_eq as' bs
  list_eq _ _ = false

  pub object_eq : JsonObject → JsonObject → Bool
  object_eq empty empty = true
  object_eq (field j v a) (field k w b) = str_eq j k && (json_eq v w && object_eq a b)
  object_eq _ _ = false
