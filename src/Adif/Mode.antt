-- ===== src/Adif/Mode.antt =====
-- pkg/adif/mode.go: MODE/SUBMODE pairs and their canonical ADIF form. `(value, ok)` is an Option:
-- the value returned with `false` is the zero value.
mod Tables
pub mod Canonical
pub mod Rewrite
unfoldable pub use Tables.*
use radioledger.Base.{
  Bool, true, false, not, ◌&&◌, List, [], ◌∷◌, ◌++◌, Option, none, some, Bytes, equal, lookup,
  member, if◌then◌else◌,
}
use radioledger.Base.Text.{codes, to_upper, trim_space}
use radioledger.Adif.Record.{Record, get, set, delete}

abbrev pub is_empty : Bytes → Bool
is_empty [] = true
is_empty (_ ∷ _) = false

-- The loop of `buildModeAliases`: a submode that is no key yet becomes an alias of its own.
unfoldable pub derive_aliases :
    List (Bytes × ModeValue) → List (Bytes × Bytes) → List (Bytes × ModeValue)
unfolding lookup
derive_aliases aliases [] = aliases
derive_aliases aliases ((submode, mode) ∷ rows) =
    derive_aliases
      (elim (lookup submode aliases) [
        | some _ ↦ aliases
        | none ↦ aliases ++ (submode, record { mode = mode; submode = submode }) ∷ []
      ])
      rows

unfoldable pub mode_aliases : List (Bytes × ModeValue)
unfolding derive_aliases explicit_aliases canonical_adif_submodes
mode_aliases = derive_aliases explicit_aliases canonical_adif_submodes

-- `ResolveMode` at a text already trimmed and in upper case.
unfoldable pub resolve : Bytes → Option ModeValue
resolve mode = if is_empty mode then none else elim (lookup mode mode_aliases) [
  | some canonical ↦ some canonical
  | none ↦
      if member mode canonical_adif_modes then some (record { mode = mode; submode = [] }) else none
]

unfoldable pub resolve_mode : Bytes → Option ModeValue
unfolding resolve
resolve_mode mode = resolve (to_upper (trim_space mode))

-- `expectedMode, ok := CanonicalADIFSubmodes[submode]; ok && expectedMode == canonicalMode`.
unfoldable pub is_submode_of : Bytes → Bytes → Bool
is_submode_of submode mode = elim (lookup submode canonical_adif_submodes) [
  | none ↦ false
  | some m ↦ equal m mode
]

-- The last test of `NormalizeModePair`: the submode resolved as a mode.
unfoldable pub by_submode : Bytes → Bytes → Option ModeValue → Option ModeValue
by_submode canonical_mode submode none = none
by_submode canonical_mode submode (some r) =
    if equal r.mode canonical_mode && equal r.submode submode
    then some (record { mode = canonical_mode; submode = submode })
    else if equal canonical_mode (codes "MFSK") && equal r.mode submode && is_empty r.submode
    then some r
    else none

-- `NormalizeModePair` behind `resolvedMode, ok := ResolveMode(mode)`.
unfoldable pub with_submode : Bytes → Option ModeValue → Option ModeValue
unfolding by_submode
with_submode submode none = none
with_submode submode (some r) =
    if not (is_empty r.submode) && not (equal r.submode submode)
    then none
    else if equal r.submode submode
    then some r
    else if is_submode_of submode r.mode
    then some (record { mode = r.mode; submode = submode })
    else by_submode r.mode submode (resolve_mode submode)

-- The same at a mode and a submode already trimmed and in upper case.
unfoldable pub normalize : Bytes → Bytes → Option ModeValue
unfolding with_submode
normalize mode submode =
    if is_empty mode
    then none
    else if is_empty submode
    then resolve_mode mode
    else with_submode submode (resolve_mode mode)

unfoldable pub normalize_mode_pair : Bytes → Bytes → Option ModeValue
unfolding normalize
normalize_mode_pair mode submode =
    normalize (to_upper (trim_space mode)) (to_upper (trim_space submode))

-- `KnownModes`: the keys of both tables.
unfoldable pub is_known_mode : Bytes → Bool
is_known_mode mode =
    if member mode canonical_adif_modes
    then true
    else elim (lookup mode mode_aliases) [ none ↦ false | some _ ↦ true ]

-- `CanonicalizeRecordMode` on the pair that `NormalizeModePair` gives.
unfoldable pub apply_pair : Record → Option ModeValue → Record × Bool
apply_pair r none = (r, false)
apply_pair r (some v) =
    let moded = set r (codes "MODE") v.mode in
    (
      if is_empty v.submode
          then (delete moded (codes "SUBMODE")).0
          else set moded (codes "SUBMODE") v.submode,
      true,
    )

unfoldable pub canonicalize_record_mode : Record → Record × Bool
unfolding apply_pair
canonicalize_record_mode r =
    apply_pair r (normalize_mode_pair (get r (codes "MODE")) (get r (codes "SUBMODE")))
