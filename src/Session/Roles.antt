-- ===== src/Session/Roles.antt =====
-- The roles and regions of AuthContext.tsx, and the maps between them and the texts of the
-- backend. A lookup of a property name that `Object.prototype` has is not modelled.
use distributed_traffic_serv.Base.{
  ◌≡◌, refl, ◌↔◌, String, Bool, true, false, Option, some, List, [], ◌∷◌, Comparable, nullish,
  lookup, arith,
}

pub data UserRole : Type 0 where
  driver enforcement admin : UserRole

pub data Region : Type 0 where
  ie gb fr : Region

unfoldable pub role_beq : UserRole → UserRole → Bool
role_beq driver driver = true
role_beq enforcement enforcement = true
role_beq admin admin = true
role_beq _ _ = false

pub role_beq_iff : (a b : UserRole) → (role_beq a b ≡ true) ↔ (a ≡ b)
unfolding role_beq
role_beq_iff a b = ground arith

-- `REGION_MAP`.
abbrev pub region_map : List (String × Region)
region_map =
    ("EU_WEST_IRELAND", ie)
    ∷ ("EU_WEST_UK", gb)
    ∷ ("EU_WEST_FRANCE", fr)
    ∷ ("IE", ie)
    ∷ ("GB", gb)
    ∷ ("FR", fr)
    ∷ []

-- `ROLE_MAP`.
abbrev pub role_map : List (String × UserRole)
role_map = ("driver", driver) ∷ ("enforcement_agent", enforcement) ∷ ("admin", admin) ∷ []

-- `REGION_TO_BACKEND`.
unfoldable pub region_to_backend : Region → String
region_to_backend ie = "EU_WEST_IRELAND"
region_to_backend gb = "EU_WEST_UK"
region_to_backend fr = "EU_WEST_FRANCE"

-- `role === 'enforcement' ? 'enforcement_agent' : role`, of `signUp`.
unfoldable pub role_to_backend : UserRole → String
role_to_backend driver = "driver"
role_to_backend enforcement = "enforcement_agent"
role_to_backend admin = "admin"

-- `ROLE_MAP[role] ?? 'driver'`, of `signIn`.
unfoldable pub role_from_backend : String → UserRole
unfolding lookup
role_from_backend role = nullish (lookup role role_map) driver

-- `REGION_MAP[region ?? ''] ?? 'IE'`, of `signIn`.
unfoldable pub region_from_backend : Option String → Region
unfolding lookup
region_from_backend region = nullish (lookup (nullish region "") region_map) ie

pub record User : Type 0 where
  pub id : String
  pub email : String
  pub role : UserRole
  pub region : Region
  pub plate_number : Option String

pub role_from-to_backend : (r : UserRole) → role_from_backend (role_to_backend r) ≡ r
unfolding role_from_backend role_to_backend
role_from-to_backend driver = refl
role_from-to_backend enforcement = refl
role_from-to_backend admin = refl

pub region_from-to_backend : (r : Region) → region_from_backend (some (region_to_backend r)) ≡ r
unfolding region_from_backend region_to_backend
region_from-to_backend ie = refl
region_from-to_backend gb = refl
region_from-to_backend fr = refl

instance abbrev pub role_eq : Comparable UserRole
role_eq = record { same = role_beq; same_iff = role_beq_iff }
