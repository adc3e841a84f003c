-- ===== src/Adif/Mode/Canonical.antt =====
-- What the resolvers of pkg/adif/mode.go return.
use radioledger.Base.{
  ◌≡◌, refl, sym, inl, inr, Bool, true, false, ◌&&◌, [], ◌∷◌, Option, none, some, Bytes, equal,
  equal_iff, lookup, lookup-all, member, member-all, all, arith, Option-cases,
}
use radioledger.Base.Text.{to_upper, trim_space}
use radioledger.Adif.Mode.{
  ModeValue, canonical_adif_modes, canonical_adif_submodes, explicit_aliases, mode_aliases,
  derive_aliases, resolve, resolve_mode, is_submode_of, by_submode, with_submode, normalize,
  normalize_mode_pair, is_known_mode,
}

-- The pair is left as it is by the normalisation.
abbrev is_fixed : ModeValue → Option ModeValue → Bool
is_fixed v none = false
is_fixed v (some w) = equal w.mode v.mode && equal w.submode v.submode

is_stable : ModeValue → Bool
is_stable v =
    member v.mode canonical_adif_modes && is_fixed v (normalize_mode_pair v.mode v.submode)

aliases_stable : all (λ (row : Bytes × ModeValue). is_stable row.1) mode_aliases ≡ true
unfolding all is_stable normalize_mode_pair mode_aliases explicit_aliases canonical_adif_submodes
    canonical_adif_modes lookup member equal resolve_mode to_upper trim_space derive_aliases
    is_submode_of
aliases_stable = refl

modes_stable :
    all (λ (m : Bytes). is_stable (record { mode = m; submode = [] })) canonical_adif_modes ≡ true
unfolding all is_stable normalize_mode_pair mode_aliases explicit_aliases canonical_adif_submodes
    canonical_adif_modes lookup member equal resolve_mode to_upper trim_space derive_aliases
    is_submode_of
modes_stable = refl

submodes_stable :
    all
      (λ (row : Bytes × Bytes). is_stable (record { mode = row.1; submode = row.0 }))
      canonical_adif_submodes
    ≡ true
unfolding all is_stable normalize_mode_pair mode_aliases explicit_aliases canonical_adif_submodes
    canonical_adif_modes lookup member equal resolve_mode to_upper trim_space derive_aliases
    is_submode_of
submodes_stable = refl

-- What holds of every row of the three tables holds of every pair that the resolvers return.
module _ (p : ModeValue → Bool)
    (aliases : all (λ (row : Bytes × ModeValue). p row.1) mode_aliases ≡ true)
    (modes : all (λ (m : Bytes). p (record { mode = m; submode = [] })) canonical_adif_modes ≡ true)
    (submodes : all
        (λ (row : Bytes × Bytes). p (record { mode = row.1; submode = row.0 }))
        canonical_adif_submodes
      ≡ true) where
  resolve-table : (m : Bytes) {v : ModeValue} → resolve m ≡ some v → p v ≡ true
  unfolding resolve
  resolve-table m {v} e = ground (
    arith,
    lookup-all (λ (row : Bytes × ModeValue). p row.1) m mode_aliases {v = v} aliases,
    member-all (λ (x : Bytes). p (record { mode = x; submode = [] })) m canonical_adif_modes modes,
  )

  is_submode_of-table :
      (s m : Bytes) → is_submode_of s m ≡ true → p (record { mode = m; submode = s }) ≡ true
  unfolding is_submode_of
  is_submode_of-table s m h = elim (Option-cases (lookup s canonical_adif_submodes)) [
    | inl absent ↦ ground (arith, absent)
    | inr (x, found) ↦ ground (
      arith,
      equal_iff x m,
      lookup-all (λ (row : Bytes × Bytes). p (record { mode = row.1; submode = row.0 })) s
          canonical_adif_submodes {v = x} submodes found,
    )
  ]

  by_submode-table :
      (m s : Bytes) {v : ModeValue} → by_submode m s (resolve_mode s) ≡ some v → p v ≡ true
  unfolding by_submode resolve_mode
  by_submode-table m s {v} e = elim (Option-cases (resolve_mode s)) [
    | inl absent ↦ ground (arith, absent)
    | inr (x, found) ↦ ground (
      arith,
      found,
      equal_iff x.mode m,
      equal_iff x.submode s,
      resolve-table (to_upper (trim_space s)) {v = x},
    )
  ]

  with_submode-table :
      (m s : Bytes) {v : ModeValue} → with_submode s (resolve_mode m) ≡ some v → p v ≡ true
  unfolding with_submode resolve_mode
  with_submode-table m s {v} e = elim (Option-cases (resolve_mode m)) [
    | inl absent ↦ ground (arith, absent)
    | inr (x, found) ↦ ground (
      arith,
      found,
      equal_iff x.submode s,
      resolve-table (to_upper (trim_space m)) {v = x},
      is_submode_of-table s x.mode,
      by_submode-table x.mode s {v = v},
    )
  ]

  pub normalize-table : (m s : Bytes) {v : ModeValue} → normalize m s ≡ some v → p v ≡ true
  unfolding normalize resolve_mode
  normalize-table m s {v} e =
      ground
        (arith, with_submode-table m s {v = v}, resolve-table (to_upper (trim_space m)) {v = v})

-- The same of `NormalizeModePair`.
pub normalize_mode_pair-table :
    (p : ModeValue → Bool)
    → all (λ (row : Bytes × ModeValue). p row.1) mode_aliases ≡ true
    → all (λ (m : Bytes). p (record { mode = m; submode = [] })) canonical_adif_modes ≡ true
    → all
        (λ (row : Bytes × Bytes). p (record { mode = row.1; submode = row.0 }))
        canonical_adif_submodes
      ≡ true
    → (mode submode : Bytes) {v : ModeValue} → normalize_mode_pair mode submode ≡ some v
    → p v ≡ true
unfolding normalize_mode_pair
normalize_mode_pair-table p a m t mode submode {v} e =
    normalize-table p a m t (to_upper (trim_space mode)) (to_upper (trim_space submode)) e

is_fixed-eq : (v : ModeValue) (o : Option ModeValue) → is_fixed v o ≡ true → o ≡ some v
is_fixed-eq v none h = ground arith
is_fixed-eq v (some w) h = ground (arith, equal_iff w.mode v.mode, equal_iff w.submode v.submode)

-- A pair that `NormalizeModePair` returns has a canonical ADIF mode, and normalising it again
-- gives the same pair: the export form is a fixed point.
pub normalize_mode_pair-stable :
    (mode submode : Bytes) {v : ModeValue}
    → normalize_mode_pair mode submode ≡ some v
    → (member v.mode canonical_adif_modes ≡ true) × (normalize_mode_pair v.mode v.submode ≡ some v)
unfolding is_stable
normalize_mode_pair-stable mode submode {v} e = ground (
  arith,
  normalize_mode_pair-table is_stable aliases_stable modes_stable submodes_stable mode submode
      {v = v} e,
  is_fixed-eq v (normalize_mode_pair v.mode v.submode),
)

abbrev pub succeeds : Option ModeValue → Bool
succeeds none = false
succeeds (some _) = true

no_empty_mode : is_known_mode [] ≡ false
unfolding is_known_mode mode_aliases canonical_adif_modes member lookup
no_empty_mode = refl

resolve-is_known_mode : (m : Bytes) → succeeds (resolve m) ≡ is_known_mode m
resolve-is_known_mode [] = unfold resolve in sym no_empty_mode
resolve-is_known_mode (c ∷ m) = unfold is_known_mode resolve in ground arith

-- `ResolveMode` succeeds exactly for the keys of `KnownModes`, after trimming and upper-casing.
pub resolve_mode-is_known_mode :
    (mode : Bytes) → succeeds (resolve_mode mode) ≡ is_known_mode (to_upper (trim_space mode))
unfolding resolve_mode
resolve_mode-is_known_mode mode = resolve-is_known_mode (to_upper (trim_space mode))
