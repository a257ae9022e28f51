-- ===== src/Backend/Parents/Tests.antt =====
-- The issuer of an org is the parent of a new issuer of its project 3.
use text.Mathlib.Text.{◌==◌ as str_eq}
use trustyca.Base.{ℕ, ◌≡◌, refl, some, none, Option, true, Bool, String, if◌then◌else◌}
use trustyca.Base.Status.{ok}
use trustyca.Ca.Store.{get_issuer}
use trustyca.Ca.Tests.{issuer_1}
use trustyca.Ca.Registry.{Resolution, State}
use trustyca.Ca.Registry.Coherent.{Coherent}
use trustyca.Ca.Registry.Tests.{
  authority, authority-laws, rows, rows-DistinctIds, empty, empty-Coherent,
}
use trustyca.Backend.Scope.{parse_id_val}
use trustyca.Backend.Parents.{parent_issuer, parent_row, visible_parent}
use trustyca.Backend.Parents.Visible.{OfParent, parent_issuer-OfParent}

abbrev parse_1 : String → Option ℕ
parse_1 t = if str_eq t "1" then some 1 else none

abbrev every_ca : String → Bool
every_ca p = true

abbrev alone : State authority → State authority
alone r = r

parent_1 : parent_row parse_1 every_ca authority rows alone 7 3 "1" "tls" ≡ ok issuer_1
unfolding parent_row parse_id_val get_issuer visible_parent
parent_1 = refl

parent_issuer-OfParent_example :
    Coherent authority rows
      (parent_issuer parse_1 every_ca authority rows alone 7 3 "1" "tls" empty).1
    × ((res : Resolution String)
        → (parent_issuer parse_1 every_ca authority rows alone 7 3 "1" "tls" empty).0 ≡ ok res
        → OfParent parse_1 every_ca authority rows 7 3 "tls" res)
parent_issuer-OfParent_example =
    parent_issuer-OfParent parse_1 every_ca authority rows authority-laws alone (λ r h. h) 7 3 "1"
      "tls" empty rows-DistinctIds empty-Coherent
