-- ===== src/Prelude/Dict.antt =====
-- Python's `dict` with text keys: an association list in insertion order.
use mathlib.Core.Path.{◌≡◌, refl}
use mathlib.Core.Bool.{Bool, true, false}
use mathlib.Core.Logic.{◌≢◌}
use mathlib.Core.Option.{Option, none, some}
use mathlib.Core.List.{List, [], ◌∷◌}
use native.Mathlib.Omega.{arith}
use Prim.Native.String.{String}
use text.Mathlib.Text.{◌==◌ as str_eq}
use text.Mathlib.TextEquality.{eq_iff}
use claudecode_lite_main.Prelude.Tests.{if◌then◌else◌}

module _ {ℓ} {V : Type ℓ} where
  -- `d.get(k)`.
  unfoldable pub lookup : String → List (String × V) → Option V
  lookup k [] = none
  lookup k ((j, v) ∷ m) = if str_eq j k then some v else lookup k m

  -- `d[k] = v`: a key that is there keeps its place.
  unfoldable pub insert : String → V → List (String × V) → List (String × V)
  insert k v [] = (k, v) ∷ []
  insert k v ((j, w) ∷ m) = if str_eq j k then (k, v) ∷ m else (j, w) ∷ insert k v m

  -- `d.pop(k, None)`.
  unfoldable pub remove : String → List (String × V) → List (String × V)
  remove k [] = []
  remove k ((j, w) ∷ m) = let rest = remove k m in if str_eq j k then rest else (j, w) ∷ rest

  -- `k in d`.
  abbrev pub has : String → List (String × V) → Bool
  has k m = elim (lookup k m) [ none ↦ false | some _ ↦ true ]

  pub lookup-insert :
      (key other : String) (value : V) (entries : List (String × V))
      → lookup other (insert key value entries)
        ≡ (if str_eq key other then some value else lookup other entries)
  unfolding lookup insert
  lookup-insert key other value [] = refl
  lookup-insert key other value ((head, _) ∷ entries) =
      let rest = lookup-insert key other value entries in
      ground (arith, rest, eq_iff head key, eq_iff head other, eq_iff key other)

  pub lookup-remove :
      (key other : String) (entries : List (String × V))
      → lookup other (remove key entries)
        ≡ (if str_eq key other then none else lookup other entries)
  unfolding lookup remove
  lookup-remove key other [] = ground arith
  lookup-remove key other ((head, _) ∷ entries) =
      let rest = lookup-remove key other entries in
      ground (arith, rest, eq_iff head key, eq_iff head other, eq_iff key other)

-- Membership of a text in a list or a set of texts.
unfoldable pub mem : String → List String → Bool
mem k [] = false
mem k (j ∷ js) = if str_eq j k then true else mem k js

pub str_eq_comm : (a b : String) → str_eq a b ≡ str_eq b a
str_eq_comm a b = ground (arith, eq_iff a b, eq_iff b a)

module _ {ℓ} {V : Type ℓ} where
  -- No key stands twice, as in every `dict`.
  abbrev pub IsDict : List (String × V) → Type ℓ
  IsDict [] = Unit
  IsDict ((k, v) ∷ m) = (lookup k m ≡ none) × IsDict m

  pub insert-IsDict :
      (k : String) (v : V) (m : List (String × V)) → IsDict m → IsDict (insert k v m)
  unfolding lookup insert
  insert-IsDict k v [] h = (refl, tt)
  insert-IsDict k v ((j, w) ∷ m) h =
      ground (arith, eq_iff j k, eq_iff k j, lookup-insert k j v m, insert-IsDict k v m h.1)

  pub remove-IsDict : (k : String) (m : List (String × V)) → IsDict m → IsDict (remove k m)
  unfolding lookup remove
  remove-IsDict k [] h = tt
  remove-IsDict k ((j, w) ∷ m) h =
      ground (arith, eq_iff j k, eq_iff k j, lookup-remove k j m, remove-IsDict k m h.1)

  -- The keys of the entries that pass a test.
  unfoldable pub keys_where : (V → Bool) → List (String × V) → List String
  keys_where test [] = []
  keys_where test ((k, v) ∷ m) = let rest = keys_where test m in if test v then k ∷ rest else rest

  abbrev pub passes : (V → Bool) → Option V → Bool
  passes test none = false
  passes test (some v) = test v

  pub mem-keys_where :
      (test : V → Bool) (k : String) (m : List (String × V))
      → IsDict m
      → mem k (keys_where test m) ≡ passes test (lookup k m)
  unfolding lookup mem keys_where
  mem-keys_where test k [] h = refl
  mem-keys_where test k ((j, v) ∷ m) h = ground (arith, eq_iff j k, mem-keys_where test k m h.1)

-- Two texts that the test tells apart are different.
pub ne_of_str_eq : (a b : String) → str_eq a b ≡ false → a ≢ b
ne_of_str_eq a b h e = ground (arith, eq_iff a b)
