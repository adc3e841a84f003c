-- ===== src/Adif/Tag/Written.antt =====
-- The lexer of pkg/adif/parser.go on what pkg/adif/writer.go prints for one field.
use radioledger.Base.{
  ℕ, ◌+◌, ◌^◌, ◌<◌, ◌≡◌, refl, ◌≢◌, true, false, [], ◌∷◌, ◌++◌, arith, Bytes, length, some,
  take-append, drop-append, length-append, append-nil, ap, ◌∙◌,
}
use radioledger.Base.Decimal.{
  decimal, parse_int64-decimal, decimal-lacks, decimal-trimmed, decimal-cons, decimal-end,
}
use radioledger.Base.Text.{trim_space, trim_right, lacks, cut, cut-append, cut-lacks}
use radioledger.Base.Text.Trim.{trimmed-head, trimmed-end, trim_right-append, trim_space_fixed}
use radioledger.Adif.Writer.{type_part}
use radioledger.Adif.Tag.{
  find_next_tag, with_length, tag_parts, parse_trimmed, parse_tag, read_field_value,
}

-- A tag is found behind text with no `<`.
pub find_next_tag-written :
    (junk content rest : Bytes) (o : ℕ)
    → lacks b'<' junk ≡ true
    → lacks b'>' content ≡ true
    → (o' : ℕ) × (find_next_tag (junk ++ b'<' ∷ (content ++ b'>' ∷ rest)) o
        ≡ some (record { content = content; rest = rest; offset = o' }))
unfolding find_next_tag lacks
find_next_tag-written [] content rest o j c =
    (o + 1 + (length content + 1), ground (arith, cut-append b'>' content rest c))
find_next_tag-written (x ∷ junk) content rest o j c =
    let (o', e) = find_next_tag-written junk content rest (o + 1) (ground arith) c in
    (o', ground (arith, e))

-- A value of the length announced is read whole.
pub read_field_value-append :
    (v rest : Bytes)
    → read_field_value (length v) (v ++ rest)
      ≡ record { value = v; rest = rest; read = length v; eof = false }
unfolding read_field_value
read_field_value-append v rest =
    ground (arith, length-append v rest, take-append v rest, drop-append v rest)

-- A name and a type that a tag can hold.
pub record IsTagged (name type : Bytes) : Type 0 where
  pub name_ne_nil : name ≢ []
  pub name_trimmed : trim_space name ≡ name
  pub name_colon : lacks b':' name ≡ true
  pub type_trimmed : trim_space type ≡ type

with_length-decimal :
    (name type : Bytes) (n : ℕ)
    → n < 2 ^ 63
    → with_length name (decimal n) type ≡ some (record { name = name; length = n; type = type })
unfolding with_length
with_length-decimal name type n h = rw (decimal-trimmed n, parse_int64-decimal n h, with_length)

tag_parts-written :
    (name type : Bytes) (n : ℕ)
    → n < 2 ^ 63
    → name ≢ []
    → trim_space type ≡ type
    → tag_parts name (decimal n ++ type_part type)
      ≡ some (record { name = name; length = n; type = type })
unfolding tag_parts
tag_parts-written [] type n h ne t = absurd (ne refl)
tag_parts-written (c ∷ name) [] n h ne t = rw append-nil (
    rw (cut-lacks b':' (decimal n) (decimal-lacks n b':' (omega arith)), tag_parts)
      (with_length-decimal (c ∷ name) [] n h))
tag_parts-written (c ∷ name) (d ∷ type) n h ne t =
    rw (cut-append b':' (decimal n) (d ∷ type) (decimal-lacks n b':' (omega arith)), t, tag_parts)
      (with_length-decimal (c ∷ name) (d ∷ type) n h)

tag_end :
    (type : Bytes) (n : ℕ)
    → trim_space type ≡ type
    → trim_right (b':' ∷ (decimal n ++ type_part type)) ≡ b':' ∷ (decimal n ++ type_part type)
tag_end [] n t =
    let (c, s, e, k) = decimal-cons n in
    rw (append-nil, e) (trim_right-append (b':' ∷ []) c s (rw e at (decimal-end n)))
tag_end (d ∷ type) n t =
    trim_right-append (b':' ∷ decimal n) b':' (d ∷ type)
      (trim_right-append (b':' ∷ []) d type (trimmed-end (d ∷ type) t))

parse_trimmed-written :
    (c : ℕ) (name type : Bytes) (n : ℕ)
    → n < 2 ^ 63
    → IsTagged (c ∷ name) type
    → parse_trimmed (c ∷ (name ++ (b':' ∷ (decimal n ++ type_part type))))
      ≡ some (record { name = c ∷ name; length = n; type = type })
unfolding parse_trimmed
parse_trimmed-written c name type n h g =
    let after = decimal n ++ type_part type in
    let e : cut b':' (c ∷ (name ++ b':' ∷ after)) ≡ some (c ∷ name, after) =
      cut-append b':' (c ∷ name) after g.name_colon in
    rw (e, parse_trimmed)
      (rw g.name_trimmed (tag_parts-written (c ∷ name) type n h g.name_ne_nil g.type_trimmed))

-- `parseTag` reads back a printed tag.
pub parse_tag-written :
    (name type : Bytes) (n : ℕ)
    → n < 2 ^ 63
    → IsTagged name type
    → parse_tag (name ++ (b':' ∷ (decimal n ++ type_part type)))
      ≡ some (record { name = name; length = n; type = type })
unfolding parse_tag
parse_tag-written [] type n h g = absurd (g.name_ne_nil refl)
parse_tag-written (c ∷ name) type n h g =
    ap parse_trimmed (
      trim_space_fixed c (name ++ (b':' ∷ (decimal n ++ type_part type)))
        (trimmed-head c name g.name_trimmed)
        (trim_right-append (c ∷ name) b':' (decimal n ++ type_part type)
          (tag_end type n g.type_trimmed)))
    ∙ parse_trimmed-written c name type n h g
