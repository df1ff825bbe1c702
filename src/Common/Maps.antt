-- ===== src/Common/Maps.antt =====
-- A `HashMap<String, V>` as an association list, with the laws that its users need.
use Prim.Native.String.{String}
use mathlib.Core.Path.{◌≡◌, refl}
use mathlib.Core.List.{List, [], ◌∷◌}
use mathlib.Core.Option.{Option, none, some}
use native.Mathlib.Omega.{arith}
use text.Mathlib.Text.{◌==◌}
use text.Mathlib.TextEquality.{eq_iff}
use text.Mathlib.TextPositions.{eq_refl}
use mathlib.Core.Logic.{◌⊎◌, inl, inr}
use mathlib.Core.Bool.{false}
use Prim.Native.Nat.{ℕ, zero, suc, ◌≤◌, ◌<◌}
use mathlib.Core.Option.{some-injective}
use himadri.Common.Lists.{length, get_elem?}
use himadri.Common.Tests.{if◌then◌else◌, Bool-cases}

-- Two texts are the same, or the test says that they are not.
pub text-cases : (a b : String) → (a ≡ b) ⊎ ((a == b) ≡ false)
text-cases a b = elim (Bool-cases (a == b)) [ inl h ↦ inl ((eq_iff a b).0 h) | inr h ↦ inr h ]

module _ {ℓ} {V : Type ℓ} where
  unfoldable pub lookup : String → List (String × V) → Option V
  lookup key [] = none
  lookup key ((name, value) ∷ rest) = if name == key then some value else lookup key rest

  unfoldable pub remove : String → List (String × V) → List (String × V)
  remove key [] = []
  remove key ((name, value) ∷ rest) =
      let others = remove key rest in if name == key then others else (name, value) ∷ others

  -- `entry`: the entry of the key, if there is one, takes the new value in its place.
  unfoldable pub insert : String → V → List (String × V) → List (String × V)
  insert key value [] = (key, value) ∷ []
  insert key value ((name, old) ∷ rest) =
      let later = insert key value rest in
      if name == key then (key, value) ∷ rest else (name, old) ∷ later

  pub lookup-remove :
      (key name : String) (entries : List (String × V))
      → lookup name (remove key entries) ≡ (if key == name then none else lookup name entries)
  unfolding remove lookup
  lookup-remove key name [] = ground arith
  lookup-remove key name ((other, value) ∷ rest) =
      ground
        (arith, lookup-remove key name rest, eq_iff other key, eq_iff other name, eq_iff key name)

  pub lookup-insert :
      (key name : String) (value : V) (entries : List (String × V))
      → lookup name (insert key value entries)
        ≡ (if key == name then some value else lookup name entries)
  unfolding insert lookup
  lookup-insert key name value [] = refl
  lookup-insert key name value ((other, old) ∷ rest) = ground (
    arith,
    lookup-insert key name value rest,
    eq_iff other key,
    eq_iff other name,
    eq_iff key name,
  )

  pub lookup-insert_self :
      (key : String) (value : V) (entries : List (String × V))
      → lookup key (insert key value entries) ≡ some value
  lookup-insert_self key value entries = rw (lookup-insert key key value entries, eq_refl key) refl

  pub lookup-insert_other :
      (key name : String) (value : V) (entries : List (String × V))
      → (key == name) ≡ false
      → lookup name (insert key value entries) ≡ lookup name entries
  lookup-insert_other key name value entries h = rw (lookup-insert key name value entries, h) refl

  pub lookup-remove_self :
      (key : String) (entries : List (String × V)) → lookup key (remove key entries) ≡ none
  lookup-remove_self key entries = rw (lookup-remove key key entries, eq_refl key) refl

  pub lookup-remove_other :
      (key name : String) (entries : List (String × V))
      → (key == name) ≡ false
      → lookup name (remove key entries) ≡ lookup name entries
  lookup-remove_other key name entries h = rw (lookup-remove key name entries, h) refl

  pub length-insert_new :
      (k : String) (v : V) (m : List (String × V)) → length (insert k v m) ≤ suc (length m)
  unfolding insert
  length-insert_new k v [] = omega arith
  length-insert_new k v ((j, w) ∷ m) = ground (arith, length-insert_new k v m)

  pub length-insert_old :
      (k : String) (v : V) (m : List (String × V)) {w : V}
      → lookup k m ≡ some w
      → length (insert k v m) ≡ length m
  unfolding insert lookup
  length-insert_old k v [] h = cc
  length-insert_old k v ((j, w) ∷ m) {w = u} h = ground (arith, length-insert_old k v m {w = u})

  pub length-remove-le : (k : String) (m : List (String × V)) → length (remove k m) ≤ length m
  unfolding remove
  length-remove-le k [] = omega arith
  length-remove-le k ((j, v) ∷ m) = ground (arith, length-remove-le k m)

  -- Removing a key that the map lists makes it shorter.
  pub length-remove-lt :
      (m : List (String × V)) (i : ℕ) {k : String} {v : V}
      → get_elem? m i ≡ some (k, v)
      → length (remove k m) < length m
  unfolding remove
  length-remove-lt [] i h = cc
  length-remove-lt ((j, w) ∷ m) zero {k} {v} h =
      ground (arith, eq_iff j k, length-remove-le k m, some-injective (j, w) (k, v) h)
  length-remove-lt ((j, w) ∷ m) (suc i) {k} {v} h =
      ground (arith, length-remove-lt m i h, length-remove-le k m)
