-- ===== src/Adif/Tag.antt =====
-- The lexical part of pkg/adif/parser.go: finding a tag, parsing its content, reading a value and
-- repairing its encoding. The reader is the rest of an input that is held in memory, as
-- `ParseString` and `ParseBytes` have it: its only error is the end of the input.
pub mod Written
use mathlib.Core.Option
use radioledger.Base.{
  ℕ, zero, suc, ◌+◌, Bool, true, false, List, [], ◌∷◌, Option, none, some, ltb, ◌==◌, if◌then◌else◌,
  Bytes, length, take, drop,
}
use radioledger.Base.Text.{trim_space, cut}
use radioledger.Base.Int.{ℤ, pos, negsuc}
use radioledger.Base.Decimal.{parse_int64}
use radioledger.Base.Utf8.{valid_utf8, to_valid_utf8}

-- The content between `<` and `>`, the input behind it, and the offset reached.
pub record Found : Type 0 where
  pub content : Bytes
  pub rest : Bytes
  pub offset : ℕ

-- `ReadString('>')` behind a `<`: without a `>` the content is all the rest.
unfoldable pub read_content : Bytes → ℕ → Found
unfolding cut
read_content s offset = elim (cut b'>' s) [
  | some (content, rest) ↦ record {
    content = content;
    rest = rest;
    offset = offset + (length content + 1);
  }
  | none ↦ record { content = s; rest = []; offset = offset + length s }
]

-- `none` is io.EOF.
unfoldable pub find_next_tag : Bytes → ℕ → Option Found
unfolding read_content
find_next_tag [] offset = none
find_next_tag (b ∷ s) offset =
    if b == b'<' then some (read_content s (offset + 1)) else find_next_tag s (offset + 1)

pub record Tag : Type 0 where
  pub name : Bytes
  pub length : ℕ
  pub type : Bytes

-- The length and the type, of a tag with at least one colon; `none` is an error.
unfoldable pub with_length : Bytes → Bytes → Bytes → Option Tag
unfolding parse_int64
with_length name len type = elim (parse_int64 (trim_space len)) [
  | some (pos n) ↦ some (record { name = name; length = n; type = type })
  | some (negsuc _) ↦ none
  | none ↦ none
]

-- `SplitN(tag, ":", 3)` behind the first colon.
unfoldable pub tag_parts : Bytes → Bytes → Option Tag
unfolding with_length cut
tag_parts [] after = none
tag_parts (c ∷ name) after = elim (cut b':' after) [
  | some (len, type) ↦ with_length (c ∷ name) len (trim_space type)
  | none ↦ with_length (c ∷ name) after []
]

-- `parseTag` at a tag already trimmed. A tag with no colon has length 0.
unfoldable pub parse_trimmed : Bytes → Option Tag
unfolding tag_parts cut
parse_trimmed [] = none
parse_trimmed (c ∷ tag) = elim (cut b':' (c ∷ tag)) [
  | none ↦ some (record { name = c ∷ tag; length = 0; type = [] })
  | some (name, after) ↦ tag_parts (trim_space name) after
]

unfoldable pub parse_tag : Bytes → Option Tag
unfolding parse_trimmed
parse_tag tag = parse_trimmed (trim_space tag)

-- The value, the input behind it, the bytes read, and whether the input ended first (io.EOF).
pub record Value : Type 0 where
  pub value : Bytes
  pub rest : Bytes
  pub read : ℕ
  pub eof : Bool

unfoldable pub read_field_value : ℕ → Bytes → Value
read_field_value n rest =
    if ltb (length rest) n
    then record { value = rest; rest = []; read = length rest; eof = true }
    else record { value = take n rest; rest = drop n rest; read = n; eof = false }

-- `sanitizeEncoding`. The Windows-1252 decoder of golang.org/x/text is a parameter; `none` is its
-- error.
module _ (decode_windows1252 : Bytes → Option Bytes) where
  unfoldable pub sanitize_decoded : Bytes → Option Bytes → Bytes
  sanitize_decoded s none = to_valid_utf8 s
  sanitize_decoded s (some decoded) = if valid_utf8 decoded then decoded else to_valid_utf8 s

  unfoldable pub sanitize_encoding : Bytes → Bytes
  unfolding sanitize_decoded
  sanitize_encoding s = if valid_utf8 s then s else sanitize_decoded s (decode_windows1252 s)
