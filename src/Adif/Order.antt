-- ===== src/Adif/Order.antt =====
-- `sortFields` of pkg/adif/writer.go: the canonical order of the fields of an exported record.
-- `sort.SliceStable` is the stable insertion sort here.
pub mod Laws
pub mod Found
use mathlib.Core.Option
use radioledger.Base.{
  ℕ, zero, suc, ◌+◌, Bool, true, false, not, ◌&&◌, List, [], ◌∷◌, Option, none, some, Bytes, ltb,
  equal, less, take, if◌then◌else◌,
}
use radioledger.Base.Text.{codes}
use radioledger.Adif.Fields.{canonical_field_order}
use radioledger.Adif.Record.{Field}

-- `posMap[name]`.
unfoldable pub position : Bytes → List Bytes → Option ℕ
unfolding equal
position name [] = none
position name (n ∷ ns) = elim (equal n name) [
  | true ↦ some 0
  | false ↦ Option.map suc (position name ns)
]

unfoldable pub is_app : Field → Bool
unfolding equal
is_app f = equal (take 4 f.name) (codes "APP_")

-- The last two tests of the comparison: both known, or one.
unfoldable pub known_less : Option ℕ → Option ℕ → Bytes → Bytes → Bool
known_less (some i) (some j) a b = ltb i j
known_less (some i) none a b = true
known_less none (some j) a b = false
known_less none none a b = less a b

-- The comparison of `sortFields`.
unfoldable pub field_less : Field → Field → Bool
unfolding known_less
field_less a b =
    if is_app a
    then (if is_app b then less a.name b.name else false)
    else if is_app b
    then true
    else known_less (position a.name canonical_field_order) (position b.name canonical_field_order)
        a.name b.name

unfoldable pub insert : Field → List Field → List Field
insert f [] = f ∷ []
insert f (g ∷ gs) = elim (field_less g f) [ true ↦ g ∷ insert f gs | false ↦ f ∷ g ∷ gs ]

unfoldable pub sort_fields : List Field → List Field
unfolding insert
sort_fields [] = []
sort_fields (f ∷ fs) = insert f (sort_fields fs)
