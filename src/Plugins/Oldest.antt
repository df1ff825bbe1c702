-- ===== src/Plugins/Oldest.antt =====
-- crates/himadri-plugins/src/budget.rs, the oldest entry of a spend store.
use text.Mathlib.Text.{◌==◌}
use himadri.Common.{
  ◌≤◌, ◌≡◌, inl, inr, refl, ap, sym, ◌∙◌, String, false, List, [], ◌∷◌, Option, none, some, arith,
  Bool-cases, leb, lookup, insert, remove, text-cases, lookup-insert_other, lookup-remove_self,
  lookup-remove_other, All, eq_refl,
}
use mathlib.Core.Path.{subst}
use himadri.Plugins.Spend.{SpendEntry, older, oldest}

-- No key has two entries.
abbrev pub Distinct : List (String × SpendEntry) → Type 0
Distinct [] = Unit
Distinct ((key, e) ∷ rest) = (lookup key rest ≡ none) × Distinct rest

lookup-none-remove :
    (key name : String) (m : List (String × SpendEntry))
    → lookup name m ≡ none
    → lookup name (remove key m) ≡ none
lookup-none-remove key name m h = elim (text-cases key name) [
  | inl p ↦ rw (sym p) (lookup-remove_self key m)
  | inr o ↦ lookup-remove_other key name m o ∙ h
]

pub remove-Distinct :
    (key : String) (m : List (String × SpendEntry)) → Distinct m → Distinct (remove key m)
unfolding remove
remove-Distinct key [] h = tt
remove-Distinct key ((name, e) ∷ m) h = elim (Bool-cases (name == key)) [
  | inl b ↦ rw b (remove-Distinct key m h.1)
  | inr b ↦ rw b (lookup-none-remove key name m h.0, remove-Distinct key m h.1)
]

same_test : (a b : String) → (a == b) ≡ false → (b == a) ≡ false
same_test a b h = elim (text-cases b a) [
  | inl p ↦ let e = sym h ∙ (ap (λ x. a == x) p ∙ eq_refl a) in cc
  | inr o ↦ o
]

lookup-none-insert :
    (key name : String) (v : SpendEntry) (m : List (String × SpendEntry))
    → (name == key) ≡ false
    → lookup name m ≡ none
    → lookup name (insert key v m) ≡ none
lookup-none-insert key name v m o h = lookup-insert_other key name v m (same_test name key o) ∙ h

pub insert-Distinct :
    (key : String) (v : SpendEntry) (m : List (String × SpendEntry))
    → Distinct m
    → Distinct (insert key v m)
unfolding insert lookup
insert-Distinct key v [] h = (refl, tt)
insert-Distinct key v ((name, e) ∷ m) h = elim (text-cases name key) [
  | inl p ↦ rw (p, eq_refl key) (subst (λ x. lookup x m ≡ none) p h.0, h.1)
  | inr o ↦ rw o (lookup-none-insert key name v m o h.0, insert-Distinct key v m h.1)
]

abbrev pub NoOlder : SpendEntry → List (String × SpendEntry) → Type 0
NoOlder e m = All (λ x. e.last_update ≤ x.1.last_update) m

-- The entry is in the map, and none there is older.
abbrev pub IsOldest : Option (String × SpendEntry) → List (String × SpendEntry) → Type 0
IsOldest none m = m ≡ []
IsOldest (some o) m = (lookup o.0 m ≡ some o.1) × NoOlder o.1 m

NoOlder-trans :
    (e f : SpendEntry) (m : List (String × SpendEntry))
    → e.last_update ≤ f.last_update
    → NoOlder f m
    → NoOlder e m
NoOlder-trans e f [] h k = tt
NoOlder-trans e f (x ∷ m) h k = (omega (arith, h, k.0), NoOlder-trans e f m h k.1)

lookup_later :
    (x f : String × SpendEntry) (m : List (String × SpendEntry))
    → lookup x.0 m ≡ none
    → lookup f.0 m ≡ some f.1
    → lookup f.0 (x ∷ m) ≡ some f.1
unfolding lookup
lookup_later x f m new at = elim (text-cases x.0 f.0) [ inl p ↦ absurd (cc) | inr o ↦ rw o at ]

older-IsOldest :
    (x : String × SpendEntry) (o : Option (String × SpendEntry)) (m : List (String × SpendEntry))
    → lookup x.0 m ≡ none
    → IsOldest o m
    → IsOldest (older x o) (x ∷ m)
unfolding lookup
older-IsOldest x none m new h = rw (h, eq_refl x.0) (refl, (omega arith, tt))
older-IsOldest x (some f) m new (at, least) =
    elim (Bool-cases (leb x.1.last_update f.1.last_update)) [
      | inl b ↦
          let le : x.1.last_update ≤ f.1.last_update = ground arith in
          rw (b, eq_refl x.0) (refl, (omega arith, NoOlder-trans x.1 f.1 m le least))
      | inr b ↦
          let le : f.1.last_update ≤ x.1.last_update = ground arith in
          rw b (lookup_later x f m new at, (le, least))
    ]

pub oldest-IsOldest : (m : List (String × SpendEntry)) → Distinct m → IsOldest (oldest m) m
unfolding oldest
oldest-IsOldest [] d = refl
oldest-IsOldest ((name, e) ∷ m) d =
    older-IsOldest (name, e) (oldest m) m d.0 (oldest-IsOldest m d.1)
