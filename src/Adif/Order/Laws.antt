-- ===== src/Adif/Order/Laws.antt =====
-- The result of `sortFields` of pkg/adif/writer.go.
use mathlib.Core.List.{Perm}
use mathlib.Core.List.Perm
use radioledger.Base.{
  ℕ, ◌≡◌, refl, true, false, List, [], ◌∷◌, Option, Bytes, arith, All, less, inl, inr, Bool-cases,
}
use radioledger.Adif.Fields.{canonical_field_order}
use radioledger.Adif.Record.{Field}
use radioledger.Adif.Order.{position, known_less, field_less, insert, sort_fields}

-- `f` may stand before `g`: the comparison does not put `g` first.
abbrev pub Before : Field → Field → Type 0
Before f g = field_less g f ≡ false

-- Each field may stand before every later one.
abbrev pub IsOrdered : List Field → Type 0
IsOrdered [] = Unit
IsOrdered (f ∷ fs) = All (Before f) fs × IsOrdered fs

less_asymm : (a b : Bytes) → less a b ≡ true → less b a ≡ false
unfolding less
less_asymm [] [] h = refl
less_asymm [] (y ∷ b) h = refl
less_asymm (x ∷ a) [] h = cc
less_asymm (x ∷ a) (y ∷ b) h = ground (arith, less_asymm a b)

less_trans_not : (a b c : Bytes) → less b a ≡ false → less c b ≡ false → less c a ≡ false
unfolding less
less_trans_not [] b [] h k = refl
less_trans_not [] [] (z ∷ c) h k = refl
less_trans_not [] (y ∷ b) (z ∷ c) h k = refl
less_trans_not (x ∷ a) [] c h k = cc
less_trans_not (x ∷ a) (y ∷ b) [] h k = cc
less_trans_not (x ∷ a) (y ∷ b) (z ∷ c) h k = ground (arith, less_trans_not a b c)

known_less_trans :
    (i j k : Option ℕ) (a b c : Bytes)
    → known_less j i b a ≡ false
    → known_less k j c b ≡ false
    → known_less k i c a ≡ false
unfolding known_less
known_less_trans i j k a b c h l = ground (arith, less_trans_not a b c)

Before-trans : (f g h : Field) → Before f g → Before g h → Before f h
unfolding field_less
Before-trans f g h p q = ground (
  arith,
  less_trans_not f.name g.name h.name,
  known_less_trans (position f.name canonical_field_order) (position g.name canonical_field_order)
      (position h.name canonical_field_order) f.name g.name h.name,
)

known_less_asymm :
    (i j : Option ℕ) (a b : Bytes) → known_less i j a b ≡ true → known_less j i b a ≡ false
unfolding known_less
known_less_asymm i j a b h = ground (arith, less_asymm a b)

Before-of_less : (f g : Field) → field_less f g ≡ true → Before f g
unfolding field_less
Before-of_less f g h = ground (
  arith,
  less_asymm f.name g.name,
  known_less_asymm (position f.name canonical_field_order) (position g.name canonical_field_order)
      f.name g.name,
)

pub All-insert {ℓ} :
    (P : Field → Type ℓ) (f : Field) (gs : List Field) → P f → All P gs → All P (insert f gs)
unfolding insert
All-insert P f [] p h = (p, h)
All-insert P f (g ∷ gs) p h = elim (Bool-cases (field_less g f)) [
  | inl goes_on ↦ rw (goes_on, insert) (h.0, All-insert P f gs p h.1)
  | inr stops ↦ rw (stops, insert) (p, h)
]

pub All-sort_fields {ℓ} : (P : Field → Type ℓ) (fs : List Field) → All P fs → All P (sort_fields fs)
unfolding sort_fields
All-sort_fields P [] h = h
All-sort_fields P (f ∷ fs) h = All-insert P f (sort_fields fs) h.0 (All-sort_fields P fs h.1)

All-Before : (f g : Field) (gs : List Field) → Before f g → All (Before g) gs → All (Before f) gs
All-Before f g [] b h = tt
All-Before f g (k ∷ gs) b h = (Before-trans f g k b h.0, All-Before f g gs b h.1)

insert-IsOrdered : (f : Field) (gs : List Field) → IsOrdered gs → IsOrdered (insert f gs)
unfolding insert
insert-IsOrdered f [] h = (tt, tt)
insert-IsOrdered f (g ∷ gs) h = elim (Bool-cases (field_less g f)) [
  | inl goes_on ↦
      rw (goes_on, insert)
        (All-insert (Before g) f gs (Before-of_less g f goes_on) h.0, insert-IsOrdered f gs h.1)
  | inr stops ↦ rw (stops, insert) ((stops, All-Before f g gs stops h.0), h)
]

sort_fields-IsOrdered : (fs : List Field) → IsOrdered (sort_fields fs)
unfolding sort_fields
sort_fields-IsOrdered [] = tt
sort_fields-IsOrdered (f ∷ fs) = insert-IsOrdered f (sort_fields fs) (sort_fields-IsOrdered fs)

insert-perm : (f : Field) (gs : List Field) → Perm (insert f gs) (f ∷ gs)
unfolding insert
insert-perm f [] = Perm.refl (f ∷ [])
insert-perm f (g ∷ gs) = elim (Bool-cases (field_less g f)) [
  | inl goes_on ↦
      rw (goes_on, insert) (Perm.trans (Perm.cons g (insert-perm f gs)) (Perm.swap f g gs))
  | inr stops ↦ rw (stops, insert) (Perm.refl (f ∷ g ∷ gs))
]

sort_fields-perm : (fs : List Field) → Perm (sort_fields fs) fs
unfolding sort_fields
sort_fields-perm [] = Perm.refl []
sort_fields-perm (f ∷ fs) =
    Perm.trans (insert-perm f (sort_fields fs)) (Perm.cons f (sort_fields-perm fs))

-- Sorting keeps the fields, each as often, and leaves none behind one that the comparison puts
-- after it, at any distance.
pub sort_fields_lem : (fs : List Field) → Perm (sort_fields fs) fs × IsOrdered (sort_fields fs)
sort_fields_lem fs = (sort_fields-perm fs, sort_fields-IsOrdered fs)
