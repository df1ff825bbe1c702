-- ===== src/Roles/Names.antt =====
-- crates/himadri-core/src/roles.rs: the names of the roles and of the tiers, and the vendors' names.
use text.Mathlib.Text.{◌==◌}
use himadri.Common.{
  String, ◌≡◌, ◌⊎◌, inl, inr, refl, List, [], ◌∷◌, All, All-map, Bool-cases, if◌then◌else◌, lookup,
  insert, lookup-insert, arith,
}
use himadri.Roles.{
  StandardRole, custom, from_string, as_str, tier_from_string, tier_as_str, VendorRoleMapping,
  map_role, insert_role, zitadel, auth0, keycloak, entra, okta, ping_identity,
}

-- A role keeps its meaning when it is written and read again, also one that is read from a name of the
-- organisation's own.
pub from_string-as_str : (s : String) → from_string (as_str (from_string s)) ≡ from_string s
unfolding from_string as_str
from_string-as_str s = elim (Bool-cases (s == "user")) [
  | inl h ↦ rw h refl
  | inr h1 ↦ elim (Bool-cases (s == "power-user")) [
    | inl h ↦ rw (h1, h) refl
    | inr h2 ↦ elim (Bool-cases (s == "poweruser")) [
      | inl h ↦ rw (h1, h2, h) refl
      | inr h3 ↦ elim (Bool-cases (s == "analyst")) [
        | inl h ↦ rw (h1, h2, h3, h) refl
        | inr h4 ↦ elim (Bool-cases (s == "admin")) [
          | inl h ↦ rw (h1, h2, h3, h4, h) refl
          | inr h5 ↦ rw (h1, h2, h3, h4, h5) (rw (h1, h2, h3, h4, h5) refl)
        ]
      ]
    ]
  ]
]

-- A billing tier keeps its meaning when it is written and read again.
pub tier_from_string-as_str :
    (s : String) → tier_from_string (tier_as_str (tier_from_string s)) ≡ tier_from_string s
unfolding tier_from_string tier_as_str
tier_from_string-as_str s = elim (Bool-cases (s == "free")) [
  | inl h ↦ rw h refl
  | inr h1 ↦ elim (Bool-cases (s == "pro")) [
    | inl h ↦ rw (h1, h) refl
    | inr h2 ↦ elim (Bool-cases (s == "enterprise")) [
      | inl h ↦ rw (h1, h2, h) refl
      | inr h3 ↦ rw (h1, h2, h3) (rw (h1, h2, h3) refl)
    ]
  ]
]

-- The roles of the catalogue that are not an organisation's own.
abbrev pub IsStandard : StandardRole → Type 0
IsStandard (custom name) = ⊥
IsStandard _ = Unit

pub vendors : List VendorRoleMapping
vendors = zitadel ∷ auth0 ∷ keycloak ∷ entra ∷ okta ∷ ping_identity ∷ []

map_role-IsStandard :
    (mapping : VendorRoleMapping) (role : String)
    → All (λ e. IsStandard (from_string e.1)) mapping
    → (map_role mapping role ≡ role) ⊎ IsStandard (from_string (map_role mapping role))
unfolding map_role lookup
map_role-IsStandard [] role h = inl refl
map_role-IsStandard ((name, standard) ∷ rest) role h = elim (Bool-cases (name == role)) [
  | inl same ↦ rw same (inr h.0)
  | inr other ↦ rw other (map_role-IsStandard rest role h.1)
]

vendors-IsStandard : All (λ m. All (λ e. IsStandard (from_string e.1)) m) vendors
unfolding vendors zitadel auth0 keycloak entra okta ping_identity insert from_string
vendors-IsStandard = ground arith

-- Under the mapping of every vendor, a role either keeps its name or becomes a role of the catalogue.
pub map_role-vendors :
    All
      (λ mapping.
        (role : String)
        → (map_role mapping role ≡ role) ⊎ IsStandard (from_string (map_role mapping role)))
      vendors
map_role-vendors = All-map vendors (λ m h role. map_role-IsStandard m role h) vendors-IsStandard

-- A role that is mapped anew becomes what it is mapped to, and every other role what it became before.
pub map_role-insert_role :
    (vendor_role standard_role role : String) (mapping : VendorRoleMapping)
    → map_role (insert_role vendor_role standard_role mapping) role
      ≡ (if vendor_role == role then standard_role else map_role mapping role)
unfolding map_role insert_role
map_role-insert_role vendor_role standard_role role mapping =
    rw (lookup-insert vendor_role role standard_role mapping)
      (elim (Bool-cases (vendor_role == role)) [ inl h ↦ rw h refl | inr h ↦ rw h refl ])
