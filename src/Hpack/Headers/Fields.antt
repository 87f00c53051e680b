-- ===== src/Hpack/Headers/Fields.antt =====
-- One header field, encoded and decoded: src/http2/aws-http2-hpack.adb. The tables of both ends stay
-- the same.
use aws.Base.{ℕ, ◌/◌, ◌%◌, ◌^◌, ◌<◌, ◌≡◌, arith}
use aws.Base.{List, [], ◌∷◌, ◌++◌, append_assoc, true, false, ltb, ◌==◌}
use aws.Hpack.Outcome.{Outcome, ok}
use aws.Hpack.Integers.{get_integer}
use aws.Hpack.Integers.RoundTrip.{get_integer-send_integer}
use aws.Hpack.Table.{NameValue, DynamicTable, has_value, get_name, get_name_value, insert}
use aws.Hpack.Headers.{
  get_literal, get_field_name, Decoder, decode_field, indexed_field, indexing_field, encode_found,
}
use aws.Hpack.Headers.Literals.{IsSendable, get_string_literal-send}

-- The bytes of a field are read back as the field, and both ends have the table `d` after it.
abbrev pub ReadsBack :
    ℕ → Decoder → NameValue → List ℕ → DynamicTable → Outcome (DynamicTable × List ℕ) → Type 0
ReadsBack header_table_size s item rest d o =
    (first : ℕ) × (more : List ℕ) × (o ≡ ok (d, first ∷ more))
    × (decode_field header_table_size s first (more ++ rest)
        ≡ ok (record s { table = d; headers = s.headers ++ (item ∷ []); seen = true }, rest))

module _ (header_table_size : ℕ) (s : Decoder) (item : NameValue) (rest : List ℕ) where
  -- Both are in a table.
  pub both_found :
      (index : ℕ)
      → 0 < index
      → index < 2 ^ 31
      → get_name_value s.table index ≡ ok item
      → ReadsBack header_table_size s item rest s.table (encode_found s.max item s.table index true)
  unfolding encode_found decode_field indexed_field
  both_found index pos range found =
      let (first, more, sent, back, prefix) = get_integer-send_integer index 7 1 rest pos range in
      (first, more, rw (not_zero, sent), rw (prefix, back, not_zero, in_range, found))
    where
      not_zero : index == 0 ≡ false
      not_zero = ground arith

      in_range : ltb index (2 ^ 31) ≡ true
      in_range = ground arith

  -- The name is in a table, and the value is sent.
  pub name_found :
      (index : ℕ) (d : DynamicTable)
      → 0 < index
      → index < 2 ^ 31
      → get_name s.table index ≡ ok item.name
      → has_value item.value ≡ true
      → IsSendable item.value
      → insert s.max item.name item.value s.table ≡ ok d
      → ReadsBack header_table_size s item rest d (encode_found s.max item s.table index false)
  unfolding encode_found decode_field indexing_field get_literal get_field_name
  name_found index d pos range found valued sendable inserted =
      let (value, value_sent, value_back) = get_string_literal-send item.value rest sendable in
      let (first, more, sent, back, prefix) =
        get_integer-send_integer index 6 1 (value ++ rest) pos range in
      (
        first,
        more ++ value,
        rw (not_zero, sent, inserted, valued, value_sent),
        rw (
          not_indexed first prefix,
          prefix,
          append_assoc more value rest,
          back,
          not_zero,
          in_range,
          found,
          value_back,
          inserted,
        ),
      )
    where
      not_zero : index == 0 ≡ false
      not_zero = ground arith

      in_range : ltb index (2 ^ 31) ≡ true
      in_range = ground arith

      not_indexed : (x : ℕ) → x / 64 ≡ 1 → x / 128 % 2 ≡ 0
      not_indexed x h = omega arith

  -- Neither is in a table, and the name and the value are sent.
  pub none_found :
      (d : DynamicTable)
      → IsSendable item.name
      → IsSendable item.value
      → insert s.max item.name item.value s.table ≡ ok d
      → ReadsBack header_table_size s item rest d (encode_found s.max item d 0 false)
  unfolding encode_found decode_field indexing_field get_literal get_field_name get_integer
  none_found d name_sendable value_sendable inserted =
      let (value, value_sent, value_back) =
        get_string_literal-send item.value rest value_sendable in
      let (name, name_sent, name_back) =
        get_string_literal-send item.name (value ++ rest) name_sendable in
      (
        64,
        name ++ value,
        rw (name_sent, value_sent),
        rw (append_assoc name value rest, name_back, value_back, inserted),
      )
