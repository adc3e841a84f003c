-- ===== src/Adif/Writer/Writable.antt =====
-- The fields that `WriteRecord` of pkg/adif/writer.go prints.
use radioledger.Base.{
  ℕ, ◌≤◌, ◌≡◌, ◌≢◌, refl, Bool, true, ◌&&◌, List, [], ◌∷◌, some, Bytes, All, all, ltb, leb, length,
  equal, arith, Option-cases, inl, inr, Bool-cases,
}
use radioledger.Base.Text.{codes, to_upper, lacks, trim_space}
use radioledger.Base.Utf8.{valid_utf8_ascii}
use radioledger.Adif.Record.{Field, Record, find, get, has, set_fields, set, delete_fields, delete}
use radioledger.Adif.Mode.{
  ModeValue, mode_aliases, canonical_adif_modes, canonical_adif_submodes, normalize_mode_pair,
  apply_pair, canonicalize_record_mode, is_empty,
}
use radioledger.Adif.Mode.Canonical.{normalize_mode_pair-table}
use radioledger.Adif.Mode.Rewrite.{has-apply_pair}
use radioledger.Adif.Order.{field_less, insert, sort_fields}
use radioledger.Adif.Order.Laws.{All-sort_fields}
use radioledger.Adif.Scan.Written.{IsWritable}
use radioledger.Adif.Writer.{export_fields}

-- ASCII, and at most 32 bytes.
is_plain : Bytes → Bool
is_plain s = all (λ c. ltb c 0x80) s && leb (length s) 32

plain_pair : ModeValue → Bool
plain_pair v = is_plain v.mode && is_plain v.submode

aliases_plain : all (λ (row : Bytes × ModeValue). plain_pair row.1) mode_aliases ≡ true
unfolding all plain_pair is_plain mode_aliases
aliases_plain = refl

modes_plain :
    all (λ (m : Bytes). plain_pair (record { mode = m; submode = [] })) canonical_adif_modes ≡ true
unfolding all plain_pair is_plain canonical_adif_modes
modes_plain = refl

submodes_plain :
    all
      (λ (row : Bytes × Bytes). plain_pair (record { mode = row.1; submode = row.0 }))
      canonical_adif_submodes
    ≡ true
unfolding all plain_pair is_plain canonical_adif_submodes
submodes_plain = refl

module _ {ℓ} (P : Field → Type ℓ) (n : Bytes) where
  set_fields-All :
      (v : Bytes) (fs : List Field)
      → ((f : Field) → P f → P (record f { value = v }))
      → P (record { name = n; value = v; type = [] })
      → All P fs
      → All P (set_fields n v fs)
  unfolding set_fields
  set_fields-All v [] keep new h = (new, tt)
  set_fields-All v (f ∷ fs) keep new h = elim (Bool-cases (equal f.name n)) [
    | inl same ↦ rw (same, set_fields) (keep f h.0, h.1)
    | inr other ↦ rw (other, set_fields) (h.0, set_fields-All v fs keep new h.1)
  ]

  delete_fields-All : (fs : List Field) → All P fs → All P (delete_fields n fs).0
  unfolding delete_fields
  delete_fields-All [] h = tt
  delete_fields-All (f ∷ fs) h = elim (Bool-cases (equal f.name n)) [
    | inl same ↦ rw (same, delete_fields) (delete_fields-All fs h.1)
    | inr other ↦ rw (other, delete_fields) (h.0, delete_fields-All fs h.1)
  ]

module _ (max_len : ℕ) (room : 32 ≤ max_len) where
  IsWritable-value :
      (v : Bytes)
      → is_plain v ≡ true
      → (f : Field) → IsWritable max_len f
      → IsWritable max_len (record f { value = v })
  unfolding is_plain
  IsWritable-value v p f w = ground (arith, w, valid_utf8_ascii v)

  IsWritable-mode :
      (v : Bytes)
      → is_plain v ≡ true
      → IsWritable max_len (record { name = codes "MODE"; value = v; type = [] })
  unfolding is_plain to_upper lacks trim_space equal
  IsWritable-mode v p = ground (arith, valid_utf8_ascii v)

  IsWritable-submode :
      (v : Bytes)
      → is_plain v ≡ true
      → IsWritable max_len (record { name = codes "SUBMODE"; value = v; type = [] })
  unfolding is_plain to_upper lacks trim_space equal
  IsWritable-submode v p = ground (arith, valid_utf8_ascii v)

  set_plain :
      (r : Record) (n v : Bytes)
      → is_plain v ≡ true
      → IsWritable max_len (record { name = to_upper n; value = v; type = [] })
      → All (IsWritable max_len) r.fields
      → All (IsWritable max_len) (set r n v).fields
  unfolding set
  set_plain r n v p new h =
      set_fields-All (IsWritable max_len) (to_upper n) v r.fields (IsWritable-value v p) new h

  apply_pair-IsWritable :
      (r : Record) (v : ModeValue)
      → plain_pair v ≡ true
      → All (IsWritable max_len) r.fields
      → All (IsWritable max_len) (apply_pair r (some v)).0.fields
  unfolding apply_pair plain_pair
  apply_pair-IsWritable r v p h =
      let mode : Bytes = codes "MODE" in
      let submode : Bytes = codes "SUBMODE" in
      let moded =
        set_plain r mode v.mode (ground arith)
          (unfold to_upper in IsWritable-mode v.mode (ground arith)) h in
      elim (Bool-cases (is_empty v.submode)) [
        | inl gone ↦ rw gone (
            unfold delete in
            delete_fields-All (IsWritable max_len) (to_upper submode) (set r mode v.mode).fields
              moded)
        | inr kept ↦ rw kept (
            set_plain (set r mode v.mode) submode v.submode (ground arith)
              (unfold to_upper in IsWritable-submode v.submode (ground arith)) moded)
      ]

  canonicalize-IsWritable :
      (r : Record)
      → All (IsWritable max_len) r.fields
      → All (IsWritable max_len) (canonicalize_record_mode r).0.fields
  unfolding canonicalize_record_mode
  canonicalize-IsWritable r h =
      elim (Option-cases (normalize_mode_pair (get r (codes "MODE")) (get r (codes "SUBMODE")))) [
        | inl unknown ↦ rw unknown h
        | inr (v, known) ↦ rw known (
            apply_pair-IsWritable r v
              (normalize_mode_pair-table plain_pair aliases_plain modes_plain submodes_plain
                (get r (codes "MODE")) (get r (codes "SUBMODE")) known)
              h)
      ]

  -- Every exported field of a writable record is writable.
  pub export_fields-IsWritable :
      (r : Record) → All (IsWritable max_len) r.fields → All (IsWritable max_len) (export_fields r)
  unfolding export_fields
  export_fields-IsWritable r h =
      All-sort_fields (IsWritable max_len) (canonicalize_record_mode r).0.fields
        (canonicalize-IsWritable r h)

insert-ne-nil : (f : Field) (gs : List Field) → insert f gs ≢ []
unfolding insert
insert-ne-nil f [] = λ e. cc
insert-ne-nil f (g ∷ gs) = elim (Bool-cases (field_less g f)) [
  | inl goes_on ↦ rw (goes_on, insert) (λ e. cc)
  | inr stops ↦ rw (stops, insert) (λ e. cc)
]

sort_fields-ne-nil : (fs : List Field) → fs ≢ [] → sort_fields fs ≢ []
unfolding sort_fields
sort_fields-ne-nil [] h = h
sort_fields-ne-nil (f ∷ fs) h = insert-ne-nil f (sort_fields fs)

ne-nil_of_has : (r : Record) (n : Bytes) → has r n ≡ true → r.fields ≢ []
unfolding has find
ne-nil_of_has r n h = λ e. ground arith

-- A record with fields exports some.
pub export_fields-ne-nil : (r : Record) → r.fields ≢ [] → export_fields r ≢ []
unfolding export_fields canonicalize_record_mode
export_fields-ne-nil r h =
    elim (Option-cases (normalize_mode_pair (get r (codes "MODE")) (get r (codes "SUBMODE")))) [
      | inl unknown ↦ rw unknown (sort_fields-ne-nil r.fields h)
      | inr (v, known) ↦
          let q = (apply_pair r (some v)).0 in
          rw known
            (sort_fields-ne-nil q.fields (ne-nil_of_has q (codes "MODE") (has-apply_pair r v).0))
    ]
