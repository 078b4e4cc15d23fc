-- ===== src/Prelude/Texts.antt =====
-- Texts: equality, membership in a list, and `[...new Set(xs)]`.
use Prim.Native.Nat.{ℕ, ◌≤◌, ◌<◌}
use Prim.Native.Char.{code}
use Prim.Native.String.{String}
use mathlib.Core.Path.{◌≡◌, refl}
use mathlib.Core.Logic.{inl, inr}
use mathlib.Core.Bool.{Bool, true, false, ◌||◌}
use mathlib.Core.List.{List, [], ◌∷◌, ◌++◌}
use native.Mathlib.Omega.{arith}
use text.Mathlib.Text.{◌==◌}
use text.Mathlib.TextEquality.{eq_iff}
use neuromem.Prelude.Tests.{if◌then◌else◌, Bool-cases}
use neuromem.Prelude.Lists.{length}

-- The source's `===` on strings.
abbrev pub str_eq : String → String → Bool
str_eq a b = a == b

pub str_eq_iff : (s t : String) → (str_eq s t ≡ true → s ≡ t) × (s ≡ t → str_eq s t ≡ true)
str_eq_iff s t = ((eq_iff s t).0, (eq_iff s t).1)

pub str_eq_self : (s : String) → str_eq s s ≡ true
str_eq_self s = (eq_iff s s).1 refl

pub str_eq-sym : (s t : String) → str_eq s t ≡ str_eq t s
str_eq-sym s t = ground (arith, eq_iff s t, eq_iff t s)

-- The code points of a text.
abbrev pub codes : String → List ℕ
codes String.[] = []
codes (String.◌∷◌ c s) = code c ∷ codes s

-- `xs.includes(x)`, `new Set(xs).has(x)`
unfoldable pub includes : List String → String → Bool
includes [] y = false
includes (x ∷ xs) y = str_eq x y || includes xs y

-- `xs.filter((y) => y !== x)`
unfoldable pub without : String → List String → List String
without x [] = []
without x (y ∷ ys) = let rest = without x ys in if str_eq y x then rest else y ∷ rest

-- `[...new Set(xs)]`: first occurrences, in order.
unfoldable pub unique : List String → List String
unique [] = []
unique (x ∷ xs) = x ∷ without x (unique xs)

abbrev pub Distinct : List String → Type 0
Distinct [] = Unit
Distinct (x ∷ xs) = (includes xs x ≡ false) × Distinct xs

pub includes-without :
    (x y : String) (xs : List String)
    → includes (without x xs) y ≡ (if str_eq x y then false else includes xs y)
unfolding includes without
includes-without x y [] = ground arith
includes-without x y (z ∷ zs) =
    ground (arith, includes-without x y zs, eq_iff z x, eq_iff z y, eq_iff x y)

pub includes-unique : (xs : List String) (y : String) → includes (unique xs) y ≡ includes xs y
unfolding includes unique
includes-unique [] y = refl
includes-unique (x ∷ xs) y = ground (arith, includes-unique xs y, includes-without x y (unique xs))

pub includes-append :
    (xs ys : List String) (y : String) → includes (xs ++ ys) y ≡ (includes xs y || includes ys y)
unfolding includes
includes-append [] ys y = refl
includes-append (x ∷ xs) ys y = ground (arith, includes-append xs ys y)

pub Distinct-without : (x : String) (xs : List String) → Distinct xs → Distinct (without x xs)
unfolding without
Distinct-without x [] h = tt
Distinct-without x (y ∷ ys) h =
    ground (arith, Distinct-without x ys, includes-without x y ys, eq_iff y x, eq_iff x y)

pub Distinct-unique : (xs : List String) → Distinct (unique xs)
unfolding unique
Distinct-unique [] = tt
Distinct-unique (x ∷ xs) = (
  ground (arith, includes-without x x (unique xs), str_eq_self x),
  Distinct-without x (unique xs) (Distinct-unique xs),
)

pub without_absent : (x : String) (xs : List String) → includes xs x ≡ false → without x xs ≡ xs
unfolding without includes
without_absent x [] h = refl
without_absent x (y ∷ ys) h = ground (arith, without_absent x ys)

pub unique_of_Distinct : (xs : List String) → Distinct xs → unique xs ≡ xs
unfolding unique
unique_of_Distinct [] h = refl
unique_of_Distinct (x ∷ xs) h = ground (arith, unique_of_Distinct xs, without_absent x xs)

pub length-without-le : (x : String) (xs : List String) → length (without x xs) ≤ length xs
unfolding without
length-without-le x [] = omega arith
length-without-le x (y ∷ ys) = ground (arith, length-without-le x ys)

pub length-unique-le : (xs : List String) → length (unique xs) ≤ length xs
unfolding unique
length-unique-le [] = omega arith
length-unique-le (x ∷ xs) = omega (arith, length-unique-le xs, length-without-le x (unique xs))

length-without_mem :
    (x : String) (xs : List String) → includes xs x ≡ true → length (without x xs) < length xs
unfolding without includes
length-without_mem x [] h = ground arith
length-without_mem x (y ∷ ys) h = elim (Bool-cases (str_eq y x)) [
  | inl e ↦ rw e (omega (arith, length-without-le x ys))
  | inr e ↦ rw e (omega (arith, length-without_mem x ys (ground arith)))
]

-- A list without repetitions is no longer than one that holds its members.
pub length-le_of_subset :
    (xs us : List String)
    → Distinct xs
    → ((y : String) → includes xs y ≡ true → includes us y ≡ true)
    → length xs ≤ length us
unfolding includes
length-le_of_subset [] us d sub = omega arith
length-le_of_subset (x ∷ xs) us d sub =
    let shorter : length xs ≤ length (without x us) =
      length-le_of_subset xs (without x us) d.1
        (λ y h. ground (arith, sub y, includes-without x y us, eq_iff x y, d.0)) in
    omega (arith, shorter, length-without_mem x us (ground (arith, sub x, eq_iff x x)))
