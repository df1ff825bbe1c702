-- ===== src/Plugins/Registry.antt =====
-- crates/himadri-plugin/src/registry.rs: the stores by their ids. An `Arc` to a store is its id: a store
-- that is registered stays registered.
use himadri.Common.{String, List, Option, none, some, lookup, insert, ◌>>=◌}

abbrev pub StoreRegistry : Type 0 → Type 0
StoreRegistry T = List (String × T)

module _ {T : Type 0} where
  abbrev pub register_new : String → T → StoreRegistry T → Option T → StoreRegistry T
  register_new id created stores (some store) = stores
  register_new id created stores none = insert id created stores

  unfoldable pub get_or_create : String → T → StoreRegistry T → StoreRegistry T
  get_or_create id created stores = register_new id created stores (lookup id stores)

  -- A read of the store, if there is one.
  unfoldable pub with : {R : Type 0} → String → (T → R) → StoreRegistry T → Option R
  with id f stores = lookup id stores >>= λ store. some (f store)

  -- A write to the store, if there is one: the stores guard their contents by locks of their own.
  unfoldable pub with_mut : String → (T → T) → StoreRegistry T → StoreRegistry T
  with_mut id f stores = elim (lookup id stores) [
    | none ↦ stores
    | some store ↦ insert id (f store) stores
  ]
