-- ===== src/Plugins/Spend.antt =====
-- crates/himadri-plugins/src/budget.rs, `SpendStore`: what each principal has spent, in millionths of a
-- dollar, for a bounded number of principals. The clock reading is an argument; the map's order of
-- iteration is the list's.
use himadri.Common.{
  ℕ, String, Bool, ◌&&◌, not, List, [], ◌∷◌, Option, none, some, if◌then◌else◌, ltb, leb, length,
  lookup, insert, remove, is_some, saturating_add,
}

pub record SpendEntry : Type 0 where
  pub micro_usd : ℕ
  pub last_update : ℕ

pub record SpendStore : Type 0 where
  pub spend : List (String × SpendEntry)
  pub max_keys : ℕ

abbrev pub new_store : ℕ → SpendStore
new_store max_keys = record { spend = []; max_keys = max_keys }

-- `min_by_key`: the first of the entries that were updated longest ago.
abbrev pub older : String × SpendEntry → Option (String × SpendEntry) → Option (String × SpendEntry)
older e none = some e
older e (some f) = if leb e.1.last_update f.1.last_update then some e else some f

unfoldable pub oldest : List (String × SpendEntry) → Option (String × SpendEntry)
oldest [] = none
oldest (e ∷ entries) = older e (oldest entries)

abbrev pub remove_entry :
    Option (String × SpendEntry) → List (String × SpendEntry) → List (String × SpendEntry)
remove_entry none entries = entries
remove_entry (some (lru_key, entry)) entries = remove lru_key entries

-- A new key finds the store full.
abbrev pub must_evict : String → SpendStore → Bool
must_evict key s =
    not (is_some (lookup key s.spend)) && (ltb 0 s.max_keys && leb s.max_keys (length s.spend))

-- The entries after the eviction that a new key may need.
unfoldable pub make_room : String → SpendStore → List (String × SpendEntry)
unfolding oldest
make_room key s = if must_evict key s then remove_entry (oldest s.spend) s.spend else s.spend

abbrev pub micro_of : Option SpendEntry → ℕ
micro_of none = 0
micro_of (some e) = e.micro_usd

-- The entry after another amount.
abbrev pub charged : ℕ → ℕ → Option SpendEntry → SpendEntry
charged now amount e = record { micro_usd = saturating_add (micro_of e) amount; last_update = now }

-- The amount is in millionths already.
unfoldable pub add : ℕ → String → ℕ → SpendStore → SpendStore
unfolding make_room
add now key amount s =
    let entries = make_room key s in
    record s { spend = insert key (charged now amount (lookup key entries)) entries }

unfoldable pub get_micro : String → SpendStore → ℕ
get_micro key s = micro_of (lookup key s.spend)

unfoldable pub reset : String → SpendStore → SpendStore
reset key s = record s { spend = remove key s.spend }

unfoldable pub reset_all : SpendStore → SpendStore
reset_all s = record s { spend = [] }
