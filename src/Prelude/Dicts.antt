-- ===== src/Prelude/Dicts.antt =====
-- Python's `dict` and `OrderedDict` with text keys, as an association list in insertion order: an
-- assignment to a key that is there keeps its place, and a new key goes to the end.
use Prim.Native.String.{String}
use mathlib.Core.Path.{◌≡◌, refl}
use mathlib.Core.Logic.{◌≢◌}
use mathlib.Core.Bool.{Bool, true, false}
use mathlib.Core.Option.{Option, none, some}
use mathlib.Core.List.{List, [], ◌∷◌}
use native.Mathlib.Omega.{arith}
use text.Mathlib.Text.{◌==◌}
use text.Mathlib.TextEquality.{eq_iff}
use resilient_python_api.Prelude.Tests.{if◌then◌else◌}

abbrev pub Assoc {ℓ} : Type ℓ → Type ℓ
Assoc V = List (String × V)

module _ {ℓ} {V : Type ℓ} where
  -- d.get(k)
  unfoldable pub lookup : String → Assoc V → Option V
  lookup k [] = none
  lookup k ((other, held) ∷ rest) = if other == k then some held else lookup k rest

  -- k in d
  unfoldable pub has_key : String → Assoc V → Bool
  has_key k [] = false
  has_key k ((j, v) ∷ m) = if j == k then true else has_key k m

  -- d[k] = v
  unfoldable pub insert : String → V → Assoc V → Assoc V
  insert key value [] = (key, value) ∷ []
  insert key value ((other, held) ∷ rest) =
      if other == key then (other, value) ∷ rest else (other, held) ∷ insert key value rest

  -- del d[k]
  unfoldable pub delete : String → Assoc V → Assoc V
  delete k [] = []
  delete k ((j, v) ∷ m) = if j == k then m else (j, v) ∷ delete k m

  abbrev pub keys : Assoc V → List String
  keys [] = []
  keys ((j, v) ∷ m) = j ∷ keys m

  abbrev pub values : Assoc V → List V
  values [] = []
  values ((j, v) ∷ m) = v ∷ values m

  -- No key twice.
  abbrev pub IsUnique : Assoc V → Type 0
  IsUnique [] = Unit {0}
  IsUnique ((j, v) ∷ m) = (has_key j m ≡ false) × IsUnique m

  -- What `d[k]` reads after an assignment to `d[key]`.
  pub lookup-insert :
      (key k : String) (value : V) (d : Assoc V)
      → lookup k (insert key value d) ≡ (if key == k then some value else lookup k d)
  unfolding insert lookup
  lookup-insert key k value [] = refl
  lookup-insert key k value ((other, held) ∷ rest) =
      ground (arith, lookup-insert key k value rest, eq_iff other key, eq_iff other k, eq_iff key k)

  pub lookup-insert_self : (k : String) (v : V) (m : Assoc V) → lookup k (insert k v m) ≡ some v
  lookup-insert_self k v m = ground (arith, lookup-insert k k v m, eq_iff k k)

  pub lookup-insert_ne :
      (k j : String) (v : V) (m : Assoc V) → k ≢ j → lookup j (insert k v m) ≡ lookup j m
  lookup-insert_ne k j v m h = ground (arith, lookup-insert k j v m, eq_iff k j)

  pub has_key-insert :
      (k j : String) (v : V) (m : Assoc V)
      → has_key j (insert k v m) ≡ (if k == j then true else has_key j m)
  unfolding has_key insert
  has_key-insert k j v [] = refl
  has_key-insert k j v ((i, w) ∷ m) =
      ground (arith, eq_iff k j, eq_iff i k, eq_iff i j, has_key-insert k j v m)

  pub has_key-lookup :
      (k : String) (m : Assoc V) → has_key k m ≡ elim (lookup k m) [ none ↦ false | some _ ↦ true ]
  unfolding lookup has_key
  has_key-lookup k [] = refl
  has_key-lookup k ((j, v) ∷ m) = ground (arith, has_key-lookup k m)

  pub insert-IsUnique : (k : String) (v : V) (m : Assoc V) → IsUnique m → IsUnique (insert k v m)
  unfolding insert has_key
  insert-IsUnique k v [] u = (refl, tt)
  insert-IsUnique k v ((j, w) ∷ m) u =
      ground (arith, insert-IsUnique k v m u.1, has_key-insert k j v m, eq_iff k j, eq_iff j k)

  pub has_key-delete :
      (k j : String) (m : Assoc V)
      → IsUnique m
      → has_key j (delete k m) ≡ (if k == j then false else has_key j m)
  unfolding has_key delete
  has_key-delete k j [] u = ground arith
  has_key-delete k j ((i, w) ∷ m) u =
      ground (arith, eq_iff k j, eq_iff i k, eq_iff i j, has_key-delete k j m u.1)

  pub lookup-delete :
      (k j : String) (m : Assoc V)
      → IsUnique m
      → lookup j (delete k m) ≡ (if k == j then none else lookup j m)
  unfolding lookup delete has_key
  lookup-delete k j [] u = ground arith
  lookup-delete k j ((i, w) ∷ m) u =
      ground
        (arith, eq_iff k j, eq_iff i k, eq_iff i j, lookup-delete k j m u.1, has_key-lookup j m)

  pub delete-IsUnique : (k : String) (m : Assoc V) → IsUnique m → IsUnique (delete k m)
  unfolding delete has_key
  delete-IsUnique k [] u = tt
  delete-IsUnique k ((j, w) ∷ m) u =
      ground (arith, delete-IsUnique k m u.1, has_key-delete k j m u.1)
