-- ===== src/Adif/Writer/Check.antt =====
-- The conditions under which the writer of pkg/adif prints a field that the parser reads back, as a
-- test.
use radioledger.Base.{
  ℕ, ◌≡◌, Bool, true, not, ◌&&◌, List, [], ◌∷◌, all, All, equal, equal_iff, leb, length, arith,
}
use radioledger.Base.Text.{codes, to_upper, trim_space, lacks}
use radioledger.Base.Utf8.{valid_utf8}
use radioledger.Adif.Record.{Field}
use radioledger.Adif.Scan.Written.{IsWritable}

-- `IsWritable` as a test.
unfoldable pub is_writable : ℕ → Field → Bool
is_writable max_len f =
    not (equal f.name [])
    && (equal (to_upper f.name) f.name
        && (equal (trim_space f.name) f.name
            && (lacks b':' f.name
                && (lacks b'>' f.name
                    && (not (equal f.name (codes "EOR"))
                        && (not (equal f.name (codes "EOH"))
                            && (equal (trim_space f.type) f.type
                                && (lacks b'>' f.type
                                    && (valid_utf8 f.value && leb (length f.value) max_len)))))))))

is_writable_lem : (max_len : ℕ) (f : Field) → is_writable max_len f ≡ true → IsWritable max_len f
unfolding is_writable
is_writable_lem max_len f h = record {
  name_ne_nil = ground (arith, equal_iff f.name []);
  name_upper = ground (arith, equal_iff (to_upper f.name) f.name);
  name_trimmed = ground (arith, equal_iff (trim_space f.name) f.name);
  name_colon = ground arith;
  name_close = ground arith;
  name_not_eor = ground arith;
  name_not_eoh = ground arith;
  type_trimmed = ground (arith, equal_iff (trim_space f.type) f.type);
  type_close = ground arith;
  value_valid = ground arith;
  value_fits = ground arith;
}

pub all-IsWritable :
    (max_len : ℕ) (fs : List Field)
    → all (is_writable max_len) fs ≡ true
    → All (IsWritable max_len) fs
unfolding all
all-IsWritable max_len [] h = tt
all-IsWritable max_len (f ∷ fs) h =
    (is_writable_lem max_len f (ground arith), all-IsWritable max_len fs (ground arith))
