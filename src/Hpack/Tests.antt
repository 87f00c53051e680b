-- ===== src/Hpack/Tests.antt =====
-- HPACK on small inputs: src/http2/aws-http2-hpack.adb and its children.
use aws.Base.{ℕ, ◌+◌, ◌*◌, ◌/◌, ◌^◌, ◌≤◌, ◌<◌, ◌≡◌, ◌⊎◌, inl, inr, refl, arith, codes, Bool, true}
use aws.Base.{List, [], ◌∷◌, ◌++◌, length, if◌then◌else◌, text_eq}
use aws.Hpack.Codes.{table}
use aws.Hpack.Outcome.{◌>>=◌, ok, err, compression_error, protocol_error, constraint_error}
use aws.Hpack.Huffman.{encode, decode, bits_of, root}
use aws.Hpack.Huffman.Encoding.{encode_lem, needed, string_bits, code_bits}
use aws.Hpack.Huffman.RoundTrip.{eos_met, decode-encode}
use aws.Hpack.Huffman.Plain.{decode-encode_plain}
use aws.Hpack.Huffman.Total.{decode_total}
use aws.Hpack.Integers.{send_integer, get_integer}
use aws.Hpack.Integers.RoundTrip.{get_integer-send_integer}
use aws.Hpack.Table.{
  DynamicTable, cleared, insert, get_name_value, get_name, get_name_value_index, to_lower, nv_size,
  static_table_size,
}
use aws.Hpack.Table.{element, d_index, find_key, static}
use aws.Hpack.Table.Invariant.{IsTable, Keeps, insert_lem, total}
use aws.Hpack.Table.Items.{HasItem, get_name_value_lem}
use aws.Hpack.Table.Lookup.{Answers, get_name_value_index_lem}
use aws.Hpack.Table.{NameValue}
use aws.Hpack.Headers.{
  indexing_field, get_literal, get_string_literal, Decoder, encode_headers, decode_headers,
}
use aws.Hpack.Headers.Literals.{IsSendable}
use aws.Hpack.Headers.Tables.{IsReady}
use aws.Hpack.Headers.RoundTrip.{IsHeader, decode_headers-encode_headers}

-- "www.e", and what it is encoded to.
abbrev text : List ℕ
text = codes "www.e"

abbrev coded : List ℕ
coded = 0xf1 ∷ 0xe3 ∷ 0xc2 ∷ 0xe5 ∷ []

encode-text : encode text ≡ ok coded
unfolding encode
encode-text = refl

decode-coded : decode coded ≡ ok text
unfolding decode root
decode-coded = refl

-- Four braces take sixty bits, which is more than the buffer has.
encode_braces : encode (codes "{{{{") ≡ err constraint_error
unfolding encode
encode_braces = refl

-- The character 22 and three letters: the check for EOS is met at the fourth byte.
false_eos : (encode (22 ∷ codes "AAA") >>= decode) ≡ err compression_error
unfolding encode decode root
false_eos = refl

needed-text : needed text ≡ 4
unfolding string_bits code_bits table bits_of
needed-text = refl

decode-encode_plain_example : (r : List ℕ) × (encode text ≡ ok r) × (decode r ≡ ok text)
decode-encode_plain_example =
    decode-encode_plain b'w' (codes "ww.e") (omega arith) (omega (arith, needed-text))

decode-encode_example : decode coded ≡ (if eos_met 0 coded then err compression_error else ok text)
decode-encode_example = decode-encode b'w' (codes "ww.e") coded (omega arith) encode-text

encode_lem_example :
    ((needed text ≤ length text + 3)
      × (r : List ℕ) × (encode text ≡ ok r)
      × (length r ≡ needed text))
    ⊎ ((length text + 3 < needed text) × (encode text ≡ err constraint_error))
encode_lem_example = encode_lem text (omega arith)

decode_total_example :
    ((str : List ℕ) × (decode coded ≡ ok str) × (5 * length str ≤ 8 * length coded))
    ⊎ (decode coded ≡ err compression_error)
decode_total_example = decode_total 0xf1 (0xe3 ∷ 0xc2 ∷ 0xe5 ∷ [])

-- The example of RFC 7541, C.1.2.
send_1337 : send_integer 1337 (2 * 2 ^ 5) 5 ≡ ok (95 ∷ 154 ∷ 10 ∷ [])
unfolding send_integer
send_1337 = refl

get_integer-send_integer_example :
    (first : ℕ) × (more : List ℕ) × (send_integer 1337 (2 * 2 ^ 5) 5 ≡ ok (first ∷ more))
    × (get_integer 5 first (more ++ (7 ∷ [])) ≡ ok (1337, 7 ∷ []))
    × (first / 2 ^ 5 ≡ 2)
get_integer-send_integer_example =
    get_integer-send_integer 1337 5 2 (7 ∷ []) (omega arith) (omega arith)

cleared-IsTable : IsTable cleared
unfolding total
cleared-IsTable = record { sized = refl; counted = refl; ranked = omega arith; indexed = tt }

-- A table with one field.
abbrev one_field : DynamicTable
one_field = record {
  t_in = record { name = codes "x-id"; value = codes "7" } ∷ [];
  t_ni = (codes "x-id", 1) ∷ (codes "x-id=7", 1) ∷ [];
  size = 37;
  length = 1;
  rank = 1;
}

insert_x_id : insert 4096 (codes "X-Id") (codes "7") cleared ≡ ok one_field
unfolding insert text_eq
insert_x_id = refl

one_field-IsTable : IsTable one_field
unfolding total element nv_size
one_field-IsTable = record {
  sized = refl;
  counted = refl;
  ranked = omega arith;
  indexed = (
    record {
      item = record { name = codes "x-id"; value = codes "7" };
      after_base = omega arith;
      found = refl;
      is_key = inl refl;
    },
    (
      record {
        item = record { name = codes "x-id"; value = codes "7" };
        after_base = omega arith;
        found = refl;
        is_key = inr refl;
      },
      tt,
    ),
  );
}

insert_lem_example :
    Keeps 64
      (one_field.t_in ++ (record { name = to_lower (codes "Via"); value = [] } ∷ []))
      (insert 64 (codes "Via") [] one_field)
insert_lem_example =
    insert_lem 64 b'V' (codes "ia") [] one_field one_field-IsTable sizes (omega arith)
  where
    sizes : 37 + nv_size (record { name = to_lower (codes "Via"); value = [] }) < 2 ^ 31
    sizes = unfold nv_size to_lower in omega arith

get_name_value_lem_example :
    ((62 ≤ static_table_size + 1) × HasItem one_field 62)
    ⊎ ((static_table_size + 1 < 62)
        × (get_name_value one_field 62 ≡ err protocol_error)
        × (get_name one_field 62 ≡ err protocol_error))
get_name_value_lem_example = get_name_value_lem one_field 62 one_field-IsTable (omega arith)

get_x_id : get_name_value one_field 62 ≡ ok (record { name = codes "x-id"; value = codes "7" })
unfolding get_name_value element d_index
get_x_id = refl

index_x_id :
    get_name_value_index 4096 (codes "X-ID") (codes "7") one_field ≡ ok (one_field, 62, true)
unfolding get_name_value_index find_key static text_eq to_lower
index_x_id = refl

get_name_value_index_lem_example :
    (answer : DynamicTable × ℕ × Bool) × (get_name_value_index 4096
        (codes "X-ID")
        (codes "7")
        one_field
      ≡ ok answer)
    × Answers 4096 (codes "X-ID") (codes "7") one_field answer
    × IsTable answer.0
get_name_value_index_lem_example =
    get_name_value_index_lem 4096 b'X' (codes "-ID") (codes "7") one_field one_field-IsTable
      (omega arith) (unfold to_lower in omega arith) sizes (omega arith)
  where
    sizes : 37 + nv_size (record { name = to_lower (codes "X-ID"); value = codes "7" }) < 2 ^ 31
    sizes = unfold nv_size to_lower in omega arith

one_field-IsReady : IsReady 4096 2 one_field
one_field-IsReady = record {
  table = one_field-IsTable;
  names_free = (omega arith, tt);
  small = omega arith;
  ranks = omega arith;
}

-- One header that is in the table, and one of which the name is in it.
abbrev id_seven : NameValue
id_seven = record { name = codes "x-id"; value = codes "7" }

abbrev id_ten : NameValue
id_ten = record { name = codes "x-id"; value = codes "10" }

needed-x_id : needed (codes "x-id") ≡ 3
unfolding string_bits code_bits table bits_of
needed-x_id = refl

needed_seven : needed (codes "7") ≡ 1
unfolding string_bits code_bits table bits_of
needed_seven = refl

needed_ten : needed (codes "10") ≡ 2
unfolding string_bits code_bits table bits_of
needed_ten = refl

x_id-IsSendable : IsSendable (codes "x-id")
x_id-IsSendable = record {
  plain = omega arith;
  some_text = omega arith;
  in_range = omega arith;
  fits = omega (arith, needed-x_id);
}

id_seven-IsHeader : IsHeader 4096 id_seven
unfolding nv_size to_lower
id_seven-IsHeader = record {
  field = record {
    some_name = omega arith;
    lower = refl;
    name_free = omega arith;
    sized = omega arith;
  };
  name = x_id-IsSendable;
  value = record {
    plain = omega arith;
    some_text = omega arith;
    in_range = omega arith;
    fits = omega (arith, needed_seven);
  };
}

id_ten-IsHeader : IsHeader 4096 id_ten
unfolding nv_size to_lower
id_ten-IsHeader = record {
  field = record {
    some_name = omega arith;
    lower = refl;
    name_free = omega arith;
    sized = omega arith;
  };
  name = x_id-IsSendable;
  value = record {
    plain = omega arith;
    some_text = omega arith;
    in_range = omega arith;
    fits = omega (arith, needed_ten);
  };
}

decode_headers-encode_headers_example :
    (d' : DynamicTable) × (bytes : List ℕ) × (s : Decoder) × (encode_headers 4096
        (id_seven ∷ id_ten ∷ [])
        one_field
      ≡ ok (d', bytes))
    × (decode_headers 4096 4096 one_field bytes ≡ ok s)
    × (s.headers ≡ id_seven ∷ id_ten ∷ [])
    × (s.table ≡ d')
decode_headers-encode_headers_example =
    decode_headers-encode_headers 4096 4096 (id_seven ∷ id_ten ∷ []) one_field
      (id_seven-IsHeader, (id_ten-IsHeader, tt)) one_field-IsReady

-- Of a header that is in the table but for its empty value only the index of the name is sent, and
-- `Decode` misses the value.
empty_value :
    (encode_headers 4096 (record { name = codes "x-id"; value = [] } ∷ []) one_field >>= λ sent.
    decode_headers 4096 4096 one_field sent.1)
    ≡ err protocol_error
unfolding encode_headers decode_headers get_name_value_index find_key static text_eq to_lower
    send_integer insert indexing_field get_integer get_literal get_name element d_index
    get_string_literal
empty_value = refl

-- A new header with an empty value is not encoded.
new_empty_value :
    encode_headers 4096 (record { name = codes "via-x"; value = [] } ∷ []) one_field
    ≡ err constraint_error
unfolding encode_headers get_name_value_index find_key static text_eq to_lower insert encode
    send_integer
new_empty_value = refl
