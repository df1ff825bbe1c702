-- ===== src/Plugins/Spending.antt =====
-- crates/himadri-plugins/src/budget.rs, `SpendStore`: the ledger of the principals, and its size.
use text.Mathlib.Text.{◌==◌}
use himadri.Common.{
  ℕ, suc, ◌+◌, ◌≤◌, ◌≡◌, ◌⊎◌, inl, inr, refl, sym, ◌∙◌, String, false, List, [], ◌∷◌, is_some,
  arith, Bool-cases, if◌then◌else◌, length, lookup, text-cases, lookup-insert_self,
  lookup-insert_other, length-insert_new, length-insert_old, Option-cases, map, true,
  saturating_add, u64_max, min, eq_refl,
}
use himadri.Types.{contains}
use himadri.Plugins.Spend.{SpendStore, SpendEntry, must_evict, make_room, add, get_micro}

-- A charge to a principal at a time.
pub record Charge : Type 0 where
  pub now : ℕ
  pub key : String
  pub amount : ℕ

unfoldable pub add_all : List Charge → SpendStore → SpendStore
add_all [] s = s
add_all (c ∷ cs) s = add_all cs (add c.now c.key c.amount s)

-- What the charges to one principal come to.
unfoldable pub total_of : String → List Charge → ℕ
total_of key [] = 0
total_of key (c ∷ cs) = (if c.key == key then c.amount else 0) + total_of key cs

-- How many principals are charged that are not among those that are known.
unfoldable pub newcomers : List String → List Charge → ℕ
newcomers known [] = 0
newcomers known (c ∷ cs) =
    let later = newcomers (c.key ∷ known) cs in
    if contains c.key known then newcomers known cs else suc later

-- The principals that a store has entries of.
abbrev pub principals : List (String × SpendEntry) → List String
principals entries = map (λ e. e.0) entries

-- The store is not bounded, or has room for so many new principals.
abbrev pub Roomy : ℕ → SpendStore → Type 0
Roomy n s = (s.max_keys ≡ 0) ⊎ (length s.spend + n ≤ s.max_keys)

-- The names are those that the store has entries of.
abbrev Knows : List String → SpendStore → Type 0
Knows known s = (k : String) → contains k known ≡ is_some (lookup k s.spend)

contains-principals :
    (k : String) (entries : List (String × SpendEntry))
    → contains k (principals entries) ≡ is_some (lookup k entries)
unfolding contains lookup
contains-principals k [] = refl
contains-principals k ((name, e) ∷ entries) = ground (arith, contains-principals k entries)

-- No charge needs an eviction: the key has an entry, or there is room.
abbrev Fits : String → SpendStore → Type 0
Fits key s = (is_some (lookup key s.spend) ≡ true) ⊎ Roomy 1 s

must_evict-Fits : (key : String) (s : SpendStore) → Fits key s → must_evict key s ≡ false
must_evict-Fits key s h = elim (Bool-cases (is_some (lookup key s.spend))) [
  | inl b ↦ rw b refl
  | inr b ↦ rw b (ground arith)
]

make_room-Fits : (key : String) (s : SpendStore) → Fits key s → make_room key s ≡ s.spend
unfolding make_room
make_room-Fits key s h = rw (must_evict-Fits key s h) refl

add-Knows :
    (known : List String) (now : ℕ) (key : String) (amount : ℕ) (s : SpendStore)
    → Fits key s
    → Knows known s
    → (k : String)
    → is_some (lookup k (add now key amount s).spend)
      ≡ (if key == k then true else contains k known)
unfolding add
add-Knows known now key amount s h knows k = rw (make_room-Fits key s h) (elim (text-cases key k) [
  | inl p ↦ rw (sym p, lookup-insert_self key _ s.spend, eq_refl key) refl
  | inr o ↦ rw (o, lookup-insert_other key k _ s.spend o, knows k) refl
])

get_micro-add :
    (now : ℕ) (key name : String) (amount : ℕ) (s : SpendStore)
    → Fits key s
    → get_micro name (add now key amount s)
      ≡ (if key == name then saturating_add (get_micro name s) amount else get_micro name s)
unfolding add get_micro
get_micro-add now key name amount s h = rw (make_room-Fits key s h) (elim (text-cases key name) [
  | inl p ↦ rw (sym p, lookup-insert_self key _ s.spend, eq_refl key) refl
  | inr o ↦ rw (o, lookup-insert_other key name _ s.spend o) refl
])

length-add_old :
    (now : ℕ) (key : String) (amount : ℕ) (s : SpendStore)
    → is_some (lookup key s.spend) ≡ true
    → length (add now key amount s).spend ≡ length s.spend
unfolding add
length-add_old now key amount s h =
    rw (make_room-Fits key s (inl h)) (elim (Option-cases (lookup key s.spend)) [
      | inl e ↦ absurd (cc (e, h))
      | inr (entry, e) ↦ length-insert_old key _ s.spend e
    ])

length-add_new :
    (now : ℕ) (key : String) (amount : ℕ) (s : SpendStore)
    → Fits key s
    → length (add now key amount s).spend ≤ suc (length s.spend)
unfolding add
length-add_new now key amount s h = rw (make_room-Fits key s h) (length-insert_new key _ s.spend)

Knows-known :
    (known : List String) (now : ℕ) (key : String) (amount : ℕ) (s : SpendStore)
    → contains key known ≡ true
    → Knows known s
    → Knows known (add now key amount s)
Knows-known known now key amount s old knows k =
    let e = add-Knows known now key amount s (inl (sym (knows key) ∙ old)) knows k in
    sym (
      e
      ∙ (elim (text-cases key k) [ inl p ↦ rw (sym p, eq_refl key) (sym old) | inr o ↦ rw o refl ]))

Knows-new :
    (known : List String) (now : ℕ) (key : String) (amount : ℕ) (s : SpendStore)
    → Fits key s
    → Knows known s
    → Knows (key ∷ known) (add now key amount s)
unfolding contains
Knows-new known now key amount s fits knows k = sym (add-Knows known now key amount s fits knows k)

add_all-step :
    (c : Charge) (cs : List Charge) (name : String) (s : SpendStore)
    → Fits c.key s
    → get_micro name s ≤ u64_max
    → (get_micro name (add c.now c.key c.amount s) ≤ u64_max
        → get_micro name (add_all cs (add c.now c.key c.amount s))
          ≡ min (get_micro name (add c.now c.key c.amount s) + total_of name cs) u64_max)
    → get_micro name (add_all (c ∷ cs) s) ≡ min (get_micro name s + total_of name (c ∷ cs)) u64_max
unfolding add_all total_of saturating_add
add_all-step c cs name s fits h later =
    let e = get_micro-add c.now c.key name c.amount s fits in
    let bound : get_micro name (add c.now c.key c.amount s) ≤ u64_max = ground (arith, e, h) in
    ground (arith, e, later bound)

Roomy-known :
    (n now : ℕ) (key : String) (amount : ℕ) (s : SpendStore)
    → is_some (lookup key s.spend) ≡ true
    → Roomy n s
    → Roomy n (add now key amount s)
unfolding add
Roomy-known n now key amount s old (inl free) = inl free
Roomy-known n now key amount s old (inr fits) =
    inr (omega (arith, fits, length-add_old now key amount s old))

Roomy-new :
    (n now : ℕ) (key : String) (amount : ℕ) (s : SpendStore)
    → Roomy (suc n) s
    → Fits key s × Roomy n (add now key amount s)
unfolding add
Roomy-new n now key amount s (inl free) = (inr (inl free), inl free)
Roomy-new n now key amount s (inr fits) =
    let room : Fits key s = inr (inr (omega (arith, fits))) in
    (room, inr (omega (arith, fits, length-add_new now key amount s room)))

get_micro-from :
    (cs : List Charge) (known : List String) (name : String) (s : SpendStore)
    → Knows known s
    → Roomy (newcomers known cs) s
    → get_micro name s ≤ u64_max
    → get_micro name (add_all cs s) ≡ min (get_micro name s + total_of name cs) u64_max
unfolding add_all total_of newcomers
get_micro-from [] known name s knows room h = ground arith
get_micro-from (c ∷ cs) known name s knows room h =
    let next = add c.now c.key c.amount s in
    elim (Bool-cases (contains c.key known)) [
      | inl old ↦
          let room2 : Roomy (newcomers known cs) s = rw old at room in
          let found = sym (knows c.key) ∙ old in
          add_all-step c cs name s (inl found) h (
            get_micro-from cs known name next (Knows-known known c.now c.key c.amount s old knows)
              (Roomy-known (newcomers known cs) c.now c.key c.amount s found room2))
      | inr fresh ↦
          let room2 : Roomy (suc (newcomers (c.key ∷ known) cs)) s = rw fresh at room in
          let (fits, left) =
            Roomy-new (newcomers (c.key ∷ known) cs) c.now c.key c.amount s room2 in
          add_all-step c cs name s fits h (
            get_micro-from cs (c.key ∷ known) name next
              (Knows-new known c.now c.key c.amount s fits knows) left)
    ]

-- As long as the store is not bounded, or has room for the principals among those of the charges that it has
-- no entries of yet, each counted once, and what a principal had spent before fits `u64`, what it is said
-- to have spent is what it had spent before and its own charges, up to the largest number that fits; the
-- charges of others make no difference.
pub get_micro-add_all :
    (cs : List Charge) (name : String) (s : SpendStore)
    → Roomy (newcomers (principals s.spend) cs) s
    → get_micro name s ≤ u64_max
    → get_micro name (add_all cs s) ≡ min (get_micro name s + total_of name cs) u64_max
get_micro-add_all cs name s room h =
    get_micro-from cs (principals s.spend) name s (λ k. contains-principals k s.spend) room h
