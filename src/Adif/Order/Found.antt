-- ===== src/Adif/Order/Found.antt =====
-- `sortFields` of pkg/adif/writer.go and the getters of record.go: the sort is stable, so that a name
-- is found where it was found before.
use radioledger.Base.{
  ℕ, ◌≡◌, refl, ◌∙◌, false, List, [], ◌∷◌, Option, some, none, Bytes, arith, less, equal_iff, inl,
  inr, Bool-cases,
}
use radioledger.Adif.Fields.{canonical_field_order}
use radioledger.Adif.Record.{Field, find}
use radioledger.Adif.Order.{position, is_app, known_less, field_less, insert, sort_fields}

less_irrefl : (a : Bytes) → less a a ≡ false
unfolding less
less_irrefl [] = refl
less_irrefl (x ∷ a) = ground (arith, less_irrefl a)

known_less_irrefl : (i : Option ℕ) (a : Bytes) → known_less i i a a ≡ false
unfolding known_less
known_less_irrefl none a = less_irrefl a
known_less_irrefl (some i) a = ground arith

-- Fields of one name stay in their order.
field_less_same : (f g : Field) → g.name ≡ f.name → field_less g f ≡ false
unfolding field_less is_app
field_less_same f g e = rw e (
    ground
      (arith, less_irrefl f.name, known_less_irrefl (position f.name canonical_field_order) f.name))

find-insert :
    (name : Bytes) (f : Field) (fs : List Field) → find name (insert f fs) ≡ find name (f ∷ fs)
unfolding insert find
find-insert name f [] = refl
find-insert name f (g ∷ gs) = elim (Bool-cases (field_less g f)) [
  | inl before ↦ ground (
    arith,
    before,
    field_less_same f g,
    equal_iff g.name name,
    equal_iff f.name name,
    find-insert name f gs,
  )
  | inr behind ↦ rw (behind, insert) refl
]

pub find-sort_fields : (name : Bytes) (fs : List Field) → find name (sort_fields fs) ≡ find name fs
unfolding sort_fields find
find-sort_fields name [] = refl
find-sort_fields name (f ∷ fs) =
    find-insert name f (sort_fields fs) ∙ ground (arith, find-sort_fields name fs)
