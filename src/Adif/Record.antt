-- ===== src/Adif/Record.antt =====
-- pkg/adif/record.go: a record is a list of fields in source order; names are found without
-- regard to case. A method that changes the record returns the new one: `Delete` filters the
-- slice in place and `Clone` copies it, which is the same value here.
pub mod Laws
use radioledger.Base.{
  ℕ, suc, Bool, true, false, List, [], ◌∷◌, ◌++◌, Option, none, some, equal, Bytes, if◌then◌else◌,
}
use radioledger.Base.Text.{codes, to_upper}

pub record Field : Type 0 where
  pub name : Bytes
  pub value : Bytes
  pub type : Bytes

pub record Record : Type 0 where
  pub fields : List Field

pub record Header : Type 0 where
  pub fields : List Field

-- The loop of the getters, at a name already in upper case.
unfoldable pub find : Bytes → List Field → Option Field
find name [] = none
find name (f ∷ fs) = elim (equal f.name name) [ true ↦ some f | false ↦ find name fs ]

abbrev pub value_or_empty : Option Field → Bytes
value_or_empty none = []
value_or_empty (some f) = f.value

abbrev is_found : Option Field → Bool
is_found none = false
is_found (some _) = true

abbrev empty_field : Field
empty_field = record { name = []; value = []; type = [] }

abbrev with_ok : Option Field → Field × Bool
with_ok none = (empty_field, false)
with_ok (some f) = (f, true)

unfoldable pub get : Record → Bytes → Bytes
get r name = value_or_empty (find (to_upper name) r.fields)

unfoldable pub get_field : Record → Bytes → Field × Bool
get_field r name = with_ok (find (to_upper name) r.fields)

unfoldable pub has : Record → Bytes → Bool
has r name = is_found (find (to_upper name) r.fields)

-- The loop of `Set`, and the append behind it.
unfoldable pub set_fields : Bytes → Bytes → List Field → List Field
set_fields name value [] = record { name = name; value = value; type = [] } ∷ []
set_fields name value (f ∷ fs) = elim (equal f.name name) [
  | true ↦ record f { value = value } ∷ fs
  | false ↦ f ∷ set_fields name value fs
]

unfoldable pub set : Record → Bytes → Bytes → Record
unfolding set_fields
set r name value = record { fields = set_fields (to_upper name) value r.fields }

-- The loop of `Delete`: the fields that stay, and the number removed.
unfoldable pub delete_fields : Bytes → List Field → List Field × ℕ
delete_fields name [] = ([], 0)
delete_fields name (f ∷ fs) =
    let (out, removed) = delete_fields name fs in
    if equal f.name name then (out, suc removed) else (f ∷ out, removed)

unfoldable pub delete : Record → Bytes → Record × ℕ
unfolding delete_fields
delete r name =
    let (out, removed) = delete_fields (to_upper name) r.fields in
    (record { fields = out }, removed)

unfoldable pub header_get : Header → Bytes → Bytes
header_get h name = value_or_empty (find (to_upper name) h.fields)

unfoldable pub adif_version : Header → Bytes
unfolding header_get
adif_version h = header_get h (codes "ADIF_VER")

unfoldable pub program_id : Header → Bytes
unfolding header_get
program_id h = header_get h (codes "PROGRAMID")

unfoldable pub program_version : Header → Bytes
unfolding header_get
program_version h = header_get h (codes "PROGRAMVERSION")
