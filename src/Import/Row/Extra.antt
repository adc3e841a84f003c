-- ===== src/Import/Row/Extra.antt =====
-- api/internal/jobs/adif_import.go: what of a record is kept beside the columns.
use mathlib.Core.List.{Memᴰ}
use mathlib.Core.Path.{subst}
use radioledger.Base.{
  ◌≡◌, ◌∙◌, false, not, Bytes, List, [], ◌∷◌, some, put, lookup, lookup-put, lookup-put_other,
  member, equal, equal_iff, arith, Bool-cases, inl, inr, if-ind, equal_refl,
}
use radioledger.Base.Text.{is_empty, trim_space}
use radioledger.Adif.Record.{Field}
use radioledger.Import.Row.{has_app_prefix, add_extra, collect_extra}
use radioledger.Import.Row.Columns.{known_mapped_fields}

-- The table has a row for the name.
abbrev pub HasRow : Bytes → List (Bytes × Bytes) → Type 0
HasRow name rows = (v : Bytes) × (lookup name rows ≡ some v)

put-HasRow :
    (name k v : Bytes) (rows : List (Bytes × Bytes)) → HasRow name rows → HasRow name (put k v rows)
put-HasRow name k v rows (w, h) = elim (Bool-cases (equal name k)) [
  | inl same ↦ rw ((equal_iff name k).0 same) (v, lookup-put k v rows)
  | inr other ↦ (w, lookup-put_other name k v rows (λ e. ground (arith, e, equal_refl name)) ∙ h)
]

add_extra-HasRow :
    (f : Field) (name : Bytes) (rows : List (Bytes × Bytes))
    → HasRow name rows
    → HasRow name (add_extra f rows)
unfolding add_extra
add_extra-HasRow f name rows h =
    let added = put-HasRow name f.name (trim_space f.value) rows h in
    if-ind (HasRow name) (is_empty (trim_space f.value)) _ _ h (
      if-ind (HasRow name) (has_app_prefix f.name) _ _ added
        (if-ind (HasRow name) (not (member f.name known_mapped_fields)) _ _ added h))

-- The loop keeps what is there.
collect_extra-HasRow :
    (fs : List Field) (name : Bytes) (rows : List (Bytes × Bytes))
    → HasRow name rows
    → HasRow name (collect_extra fs rows)
unfolding collect_extra
collect_extra-HasRow [] name rows h = h
collect_extra-HasRow (f ∷ fs) name rows h =
    collect_extra-HasRow fs name (add_extra f rows) (add_extra-HasRow f name rows h)

add_extra-unknown :
    (f : Field) (rows : List (Bytes × Bytes))
    → is_empty (trim_space f.value) ≡ false
    → member f.name known_mapped_fields ≡ false
    → HasRow f.name (add_extra f rows)
unfolding add_extra
add_extra-unknown f rows filled unknown =
    let added = put f.name (trim_space f.value) rows in
    let there : HasRow f.name added =
      (trim_space f.value, lookup-put f.name (trim_space f.value) rows) in
    rw (filled, unknown) (if-ind (HasRow f.name) (has_app_prefix f.name) added added there there)

-- A field that is not empty, and that no column is for, is kept under its name.
pub collect_extra_kept :
    (fs : List Field) (f : Field) (rows : List (Bytes × Bytes))
    → Memᴰ f fs
    → is_empty (trim_space f.value) ≡ false
    → member f.name known_mapped_fields ≡ false
    → HasRow f.name (collect_extra fs rows)
unfolding collect_extra
collect_extra_kept [] f rows m filled unknown = elim m [ ]
collect_extra_kept (g ∷ fs) f rows (Memᴰ.head e) filled unknown =
    subst (λ (x : Field). HasRow f.name (collect_extra fs (add_extra x rows))) e
      (collect_extra-HasRow fs f.name (add_extra f rows) (add_extra-unknown f rows filled unknown))
collect_extra_kept (g ∷ fs) f rows (Memᴰ.tail m) filled unknown =
    collect_extra_kept fs f (add_extra g rows) m filled unknown
