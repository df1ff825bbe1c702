-- ===== src/Plugins/Eviction.antt =====
-- crates/himadri-plugins/src/budget.rs, `SpendStore::add`: the size of the store, and whom it forgets.
use text.Mathlib.Text.{◌==◌}
use himadri.Common.{
  ℕ, ◌≤◌, ◌<◌, ◌≡◌, ◌⊎◌, inl, inr, refl, ap, sym, ◌∙◌, String, true, false, List, [], ◌∷◌, Option,
  none, some, is_some, arith, Bool-cases, Option-cases, if◌then◌else◌, leb, ltb, not, ◌&&◌, length,
  lookup, insert, remove, text-cases, lookup-insert_other, lookup-remove_other, length-insert_new,
  length-insert_old, length-remove-le,
}
use mathlib.Core.Path.{subst}
use mathlib.Core.Option.{some-injective}
use himadri.Plugins.Oldest.{
  Distinct, NoOlder, IsOldest, remove-Distinct, insert-Distinct, oldest-IsOldest,
}
use himadri.Plugins.Spending.{Charge, add_all}
use himadri.Plugins.Spend.{
  new_store, SpendEntry, SpendStore, oldest, remove_entry, must_evict, make_room, add,
}

-- The store keeps one entry for a key, and no more entries than it may.
unfoldable pub Bounded : SpendStore → Type 0
Bounded s = Distinct s.spend × ((s.max_keys ≡ 0) ⊎ (length s.spend ≤ s.max_keys))

length-remove_found :
    (key : String) (m : List (String × SpendEntry)) (e : SpendEntry)
    → lookup key m ≡ some e
    → length (remove key m) < length m
unfolding lookup remove
length-remove_found key [] e h = cc
length-remove_found key ((name, f) ∷ m) e h = elim (Bool-cases (name == key)) [
  | inl b ↦ rw b (omega (arith, length-remove-le key m))
  | inr b ↦
      let rest : lookup key m ≡ some e =
        subst (λ t. (if t then some f else lookup key m) ≡ some e) b h in
      rw b (omega (arith, length-remove_found key m e rest))
]

-- What the guard of an eviction says, by the entry of the key.
guard-true :
    (o : Option SpendEntry) (max_keys n : ℕ)
    → (not (is_some o) && (ltb 0 max_keys && leb max_keys n)) ≡ true
    → (o ≡ none) × (1 ≤ max_keys) × (max_keys ≤ n)
guard-true none max_keys n h = (refl, ground arith, ground arith)
guard-true (some e) max_keys n h = cc

guard-false :
    (o : Option SpendEntry) (max_keys n : ℕ)
    → (not (is_some o) && (ltb 0 max_keys && leb max_keys n)) ≡ false
    → o ≡ none
    → (max_keys ≡ 0) ⊎ (n < max_keys)
guard-false none max_keys n h e = ground arith
guard-false (some x) max_keys n h e = cc

must_evict-true :
    (key : String) (s : SpendStore)
    → must_evict key s ≡ true
    → (lookup key s.spend ≡ none) × (1 ≤ s.max_keys) × (s.max_keys ≤ length s.spend)
must_evict-true key s h = guard-true (lookup key s.spend) s.max_keys (length s.spend) h

must_evict-false :
    (key : String) (s : SpendStore)
    → must_evict key s ≡ false
    → lookup key s.spend ≡ none
    → (s.max_keys ≡ 0) ⊎ (length s.spend < s.max_keys)
must_evict-false key s h e = guard-false (lookup key s.spend) s.max_keys (length s.spend) h e

-- The size after the entry of a key is written.
insert-size :
    (key : String) (v : SpendEntry) (m : List (String × SpendEntry)) (max_keys : ℕ)
    → ((max_keys ≡ 0) ⊎ (length m ≤ max_keys))
    → (lookup key m ≡ none → (max_keys ≡ 0) ⊎ (length m < max_keys))
    → (max_keys ≡ 0) ⊎ (length (insert key v m) ≤ max_keys)
insert-size key v m max_keys fits room = elim (Option-cases (lookup key m)) [
  | inl e ↦ elim (room e) [
    | inl z ↦ inl z
    | inr r ↦ inr (omega (arith, r, length-insert_new key v m))
  ]
  | inr (old, e) ↦ elim fits [
    | inl z ↦ inl z
    | inr r ↦ inr (omega (arith, r, length-insert_old key v m {w = old} e))
  ]
]

evicted-size :
    (o : Option (String × SpendEntry)) (m : List (String × SpendEntry)) (max_keys : ℕ)
    → IsOldest o m
    → 1 ≤ max_keys
    → max_keys ≤ length m
    → length m ≤ max_keys
    → length (remove_entry o m) < max_keys
evicted-size none m max_keys h positive full fits = let empty = ap (λ l. length l) h in omega arith
evicted-size (some o) m max_keys h positive full fits =
    omega (arith, fits, length-remove_found o.0 m o.1 h.0)

entry-remove_entry :
    (o : Option (String × SpendEntry)) (m : List (String × SpendEntry))
    → Distinct m
    → Distinct (remove_entry o m)
entry-remove_entry none m d = d
entry-remove_entry (some o) m d = remove-Distinct o.0 m d

-- Whatever is charged at whatever time, a store keeps one entry for a key and no more than `max_keys`
-- of them, unless that is 0.
pub add-Bounded :
    (now : ℕ) (key : String) (amount : ℕ) (s : SpendStore)
    → Bounded s
    → Bounded (add now key amount s)
unfolding Bounded add make_room
add-Bounded now key amount s (d, fits) = elim (Bool-cases (must_evict key s)) [
  | inr b ↦ rw b (
    insert-Distinct key _ s.spend d,
    insert-size key _ s.spend s.max_keys fits (must_evict-false key s b),
  )
  | inl b ↦
      let (new, positive, full) = must_evict-true key s b in
      let rest = remove_entry (oldest s.spend) s.spend in
      let room : length rest < s.max_keys =
        let le : length s.spend ≤ s.max_keys = ground arith in
        evicted-size (oldest s.spend) s.spend s.max_keys (oldest-IsOldest s.spend d) positive full
          le in
      rw b (
        insert-Distinct key _ rest (entry-remove_entry (oldest s.spend) s.spend d),
        insert-size key _ rest s.max_keys (inr (omega arith)) (λ _. inr room),
      )
]

kept :
    (o : Option (String × SpendEntry)) (m : List (String × SpendEntry)) (name : String)
    → (e : SpendEntry) → IsOldest o m
    → lookup name m ≡ some e
    → (lookup name (remove_entry o m) ≡ some e) ⊎ NoOlder e m
kept none m name e h at = inl at
kept (some o) m name e (found, least) at = elim (text-cases o.0 name) [
  | inl p ↦
      let same = some-injective o.1 e (sym found ∙ ap (λ x. lookup x m) p ∙ at) in
      inr (subst (λ x. NoOlder x m) same least)
  | inr other ↦ inl (lookup-remove_other o.0 name m other ∙ at)
]

-- A charge keeps what every other principal has spent, unless the key is new, the store is full and no
-- entry is older than that principal's.
pub add-keeps :
    (now : ℕ) (key name : String) (amount : ℕ) (s : SpendStore) (e : SpendEntry)
    → Bounded s
    → (key == name) ≡ false
    → lookup name s.spend ≡ some e
    → (lookup name (add now key amount s).spend ≡ some e)
      ⊎ ((lookup key s.spend ≡ none) × (s.max_keys ≤ length s.spend) × NoOlder e s.spend)
unfolding Bounded add make_room
add-keeps now key name amount s e (d, fits) other at = elim (Bool-cases (must_evict key s)) [
  | inr b ↦ rw b (inl (lookup-insert_other key name _ s.spend other ∙ at))
  | inl b ↦
      let (new, positive, full) = must_evict-true key s b in
      elim (kept (oldest s.spend) s.spend name e (oldest-IsOldest s.spend d) at) [
        | inl stays ↦ rw b (inl (lookup-insert_other key name _ _ other ∙ stays))
        | inr least ↦ inr (new, full, least)
      ]
]

add_all-Bounded : (cs : List Charge) (s : SpendStore) → Bounded s → Bounded (add_all cs s)
unfolding add_all
add_all-Bounded [] s h = h
add_all-Bounded (c ∷ cs) s h = add_all-Bounded cs _ (add-Bounded c.now c.key c.amount s h)

new_store-Bounded : (max_keys : ℕ) → Bounded (new_store max_keys)
unfolding Bounded
new_store-Bounded max_keys = (tt, inr (omega arith))

-- Whatever is charged to a new store, it keeps one entry for a key, and with a positive `max_keys` it
-- never has more entries than that.
pub add_all-new_store :
    (cs : List Charge) (max_keys : ℕ) → Bounded (add_all cs (new_store max_keys))
add_all-new_store cs max_keys = add_all-Bounded cs (new_store max_keys) (new_store-Bounded max_keys)
