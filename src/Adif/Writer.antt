-- ===== src/Adif/Writer.antt =====
-- pkg/adif/writer.go: the ADIF writer on a `strings.Builder`, whose writes never fail. The `error`
-- results are always nil and are left out.
pub mod Text
pub mod Writable
pub mod RoundTrip
pub mod Check
use radioledger.Base.{
  ℕ, Bool, true, false, not, ◌||◌, List, [], ◌∷◌, ◌++◌, Option, none, some, Bytes, length, equal,
  keep, if◌then◌else◌,
}
use radioledger.Base.Text.{codes, to_upper}
use radioledger.Base.Decimal.{decimal}
use radioledger.Adif.Record.{Field, Record, Header}
use radioledger.Adif.Mode.{canonicalize_record_mode, is_empty}
use radioledger.Adif.Order.{sort_fields}

-- `WriterOptions`.
pub record WriterOptions : Type 0 where
  pub program_version : Bytes
  pub fields_per_line : ℕ
  pub include_header : Bool

pub record Writer : Type 0 where
  pub out : Bytes
  pub opts : WriterOptions
  pub header_written : Bool

unfoldable pub new_writer_with_options : WriterOptions → Writer
new_writer_with_options opts = record {
  out = [];
  opts =
      if is_empty opts.program_version
      then record opts { program_version = codes "1.0.0" }
      else opts;
  header_written = false;
}

-- `":" + f.Type`, if there is a type.
abbrev pub type_part : Bytes → Bytes
type_part [] = []
type_part (c ∷ t) = b':' ∷ c ∷ t

-- Between `<` and `>`.
unfoldable pub tag_content : Field → Bytes
tag_content f = f.name ++ (b':' ∷ (decimal (length f.value) ++ type_part f.type))

-- What `writeField` prints.
unfoldable pub field_text : Field → Bytes
unfolding tag_content
field_text f = b'<' ∷ (tag_content f ++ (b'>' ∷ (f.value ++ b'\n' ∷ [])))

unfoldable pub write_field : Writer → Field → Writer
unfolding field_text
write_field w f = record w { out = w.out ++ field_text f }

unfoldable pub write_fields : Writer → List Field → Writer
write_fields w [] = w
write_fields w (f ∷ fs) = write_fields (write_field w f) fs

abbrev pub named : Bytes → Bytes → Field
named name value = record { name = name; value = value; type = [] }

unfoldable pub standard_fields : Bytes → List Field
standard_fields version =
    named (codes "ADIF_VER") (codes "3.1.7")
    ∷ named (codes "PROGRAMID") (codes "RadioLedger")
    ∷ named (codes "PROGRAMVERSION") version
    ∷ []

abbrev pub preamble : Bytes
preamble = codes "RadioLedger ADIF Export\n"

unfoldable pub print : Writer → Bytes → Writer
print w text = record w { out = w.out ++ text }

unfoldable pub write_header : Writer → List Field → Writer
write_header w extra =
    let marked = record w { header_written = true } in
    let begun = print marked preamble in
    let standard = write_fields begun (standard_fields w.opts.program_version) in
    if w.header_written
    then w
    else if not w.opts.include_header
    then marked
    else print (write_fields standard extra) (codes "<EOH>\n\n")

-- The fields that `WriteRecord` writes, in order: those of the canonicalised copy, sorted.
unfoldable pub export_fields : Record → List Field
unfolding sort_fields canonicalize_record_mode
export_fields rec = sort_fields (canonicalize_record_mode rec).0.fields

unfoldable pub write_record : Writer → Record → Writer
write_record w rec =
    let ready = if w.header_written then w else write_header w [] in
    print (write_fields ready (export_fields rec)) (codes "<EOR>\n")

unfoldable pub write_records : Writer → List Record → Writer
write_records w [] = w
write_records w (rec ∷ recs) = write_records (write_record w rec) recs

unfoldable pub format_record : Record → Bytes
unfolding write_record write_header write_fields write_field print export_fields
    new_writer_with_options
format_record rec =
    let opts : WriterOptions = record {
      program_version = [];
      fields_per_line = 0;
      include_header = false;
    } in
    (write_record (new_writer_with_options opts) rec).out

-- The header fields that `FormatAll` adds to its own.
unfoldable pub is_extra : Field → Bool
unfolding to_upper equal
is_extra f =
    let upper = to_upper f.name in
    not (
      equal upper (codes "ADIF_VER")
      || equal upper (codes "PROGRAMID")
      || equal upper (codes "PROGRAMVERSION"))

unfoldable pub extra_fields : Option Header → List Field
unfolding keep is_extra
extra_fields none = []
extra_fields (some h) = keep is_extra h.fields

unfoldable pub format_all : Option Header → List Record → Bytes → Bytes
format_all h recs version =
    let opts : WriterOptions = record {
      program_version = version;
      fields_per_line = 0;
      include_header = true;
    } in
    (write_records (write_header (new_writer_with_options opts) (extra_fields h)) recs).out
