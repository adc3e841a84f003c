-- ===== src/Adif/Record/Laws.antt =====
-- Laws of the record's operations (pkg/adif/record.go).
use radioledger.Base.{
  ◌+◌, ◌≡◌, refl, true, false, List, [], ◌∷◌, none, some, inl, inr, Option-cases, equal, equal_iff,
  Bytes, if◌then◌else◌, length, arith,
}
use radioledger.Base.Text.{to_upper}
use radioledger.Adif.Record.{Field, Record, find, get, has, set_fields, set, delete_fields, delete}

-- `Set` rewrites the value of the first field of the name, or appends one.
find-set_fields :
    (n v m : Bytes) (fs : List Field)
    → find m (set_fields n v fs) ≡ (
        if equal n m
        then some (elim (find n fs) [
          | none ↦ record { name = n; value = v; type = [] }
          | some f ↦ record f { value = v }
        ])
        else find m fs)
unfolding find set_fields
find-set_fields n v m [] = ground arith
find-set_fields n v m (f ∷ fs) =
    ground (arith, equal_iff f.name n, equal_iff f.name m, equal_iff n m, find-set_fields n v m fs)

-- A read after `Set` gives the new value for the name set, in any case, and what was there for
-- every other name.
pub get-set :
    (r : Record) (n v m : Bytes)
    → get (set r n v) m ≡ (if equal (to_upper n) (to_upper m) then v else get r m)
unfolding get set
get-set r n v m = ground (arith, find-set_fields (to_upper n) v (to_upper m) r.fields)

-- After `Set` the name set is there, in any case, and every other name as before.
pub has-set :
    (r : Record) (n v m : Bytes)
    → has (set r n v) m ≡ (if equal (to_upper n) (to_upper m) then true else has r m)
unfolding has set
has-set r n v m = ground (
  arith,
  find-set_fields (to_upper n) v (to_upper m) r.fields,
  equal_iff (to_upper n) (to_upper m),
)

find-delete_fields :
    (n m : Bytes) (fs : List Field)
    → find m (delete_fields n fs).0 ≡ (if equal n m then none else find m fs)
unfolding find delete_fields
find-delete_fields n m [] = ground arith
find-delete_fields n m (f ∷ fs) =
    ground (arith, equal_iff f.name n, equal_iff f.name m, equal_iff n m, find-delete_fields n m fs)

length-delete_fields :
    (n : Bytes) (fs : List Field)
    → length (delete_fields n fs).0 + (delete_fields n fs).1 ≡ length fs
unfolding delete_fields
length-delete_fields n [] = omega arith
length-delete_fields n (f ∷ fs) = ground (arith, length-delete_fields n fs)

-- After `Delete` no field of the name is left, in any case, every other name reads as before, and
-- the number returned is that of the fields removed.
pub delete_lem :
    (r : Record) (n m : Bytes)
    → (get (delete r n).0 m ≡ (if equal (to_upper n) (to_upper m) then [] else get r m))
      × (has (delete r n).0 m ≡ (if equal (to_upper n) (to_upper m) then false else has r m))
      × (length (delete r n).0.fields + (delete r n).1 ≡ length r.fields)
unfolding get has delete
delete_lem r n m = (
  ground (arith, find-delete_fields (to_upper n) (to_upper m) r.fields),
  ground (arith, find-delete_fields (to_upper n) (to_upper m) r.fields),
  length-delete_fields (to_upper n) r.fields,
)

set_fields_same :
    (n : Bytes) (fs : List Field) (f : Field) → find n fs ≡ some f → set_fields n f.value fs ≡ fs
unfolding find set_fields
set_fields_same n [] f h = ground arith
set_fields_same n (g ∷ fs) f h = ground (arith, set_fields_same n fs f)

delete_fields_absent :
    (n : Bytes) (fs : List Field) → find n fs ≡ none → delete_fields n fs ≡ (fs, 0)
unfolding find delete_fields
delete_fields_absent n [] h = refl
delete_fields_absent n (g ∷ fs) h = ground (arith, delete_fields_absent n fs)

-- Setting a field that is there to the value that it has changes nothing.
pub set_same : (r : Record) (n : Bytes) → has r n ≡ true → set r n (get r n) ≡ r
unfolding has set get
set_same r n h = elim (Option-cases (find (to_upper n) r.fields)) [
  | inl absent ↦ ground (arith, absent)
  | inr (f, found) ↦ ground (arith, found, set_fields_same (to_upper n) r.fields f)
]

pub delete_absent : (r : Record) (n : Bytes) → has r n ≡ false → (delete r n).0 ≡ r
unfolding has delete
delete_absent r n h = ground (arith, delete_fields_absent (to_upper n) r.fields)
