-- ===== src/Registry.antt =====
-- registry/registry.go: the processors of the voucher types. A processor is any value; the map is a
-- list of its pairs, in which a key stands once.
pub mod Registered
use go_data_transfer.Base.{
  Bool, List, [], ◌∷◌, Option, none, some, str_eq, str_append, if◌then◌else◌,
}
use go_data_transfer.Types.{TypeIdentifier}
use go_data_transfer.Errors.{Err, other}

abbrev pub Registry {ℓ} : Type ℓ → Type ℓ
Registry P = List (TypeIdentifier × P)

abbrev pub new_registry {ℓ} : {P : Type ℓ} → Registry P
new_registry = []

unfoldable pub processor {ℓ} : {P : Type ℓ} → Registry P → TypeIdentifier → Option P
processor [] identifier = none
processor ((i, p) ∷ r) identifier = if str_eq i identifier then some p else processor r identifier

unfoldable pub register {ℓ} :
    {P : Type ℓ} → Registry P → TypeIdentifier → P → Registry P × Option Err
register r identifier p = elim (processor r identifier) [
  | some q ↦ (r, some (other (str_append "identifier already registered: " identifier)))
  | none ↦ ((identifier, p) ∷ r, none)
]

-- `Each` in the order of the list: the first error stops it. Go's order is any order.
unfoldable pub each {ℓ} : {P : Type ℓ} → Registry P → (TypeIdentifier → P → Option Err) → Option Err
each [] process = none
each ((i, p) ∷ r) process =
    let rest = each r process in elim (process i p) [ some e ↦ some e | none ↦ rest ]
