-- ===== src/Hpack/Headers.antt =====
-- Lists of header fields: `Decode` and `Encode` of src/http2/aws-http2-hpack.adb. The frame is a list
-- of bytes, of which those not yet read are left; a list of headers is what is added to it, in order.
pub mod Literals
pub mod Tables
mod Fields
pub mod RoundTrip
use aws.Base.{
  ℕ, zero, suc, ◌+◌, ◌-◌, ◌*◌, ◌/◌, ◌%◌, ◌^◌, Text, Bool, true, false, ◌||◌, ◌&&◌, List, [], ◌∷◌,
  ◌++◌,
}
use aws.Base.{ltb, ◌==◌, if◌then◌else◌, length}
use aws.Hpack.Outcome.{Outcome, ok, err, stuck, ◌>>=◌, protocol_error, constraint_error}
use aws.Hpack.Huffman as Huffman
use aws.Hpack.Integers.{get_integer, send_integer}
use aws.Hpack.Table.{
  NameValue, DynamicTable, has_value, get_name, get_name_value, get_name_value_index, insert,
}

-- `for K in Str'Range loop Str (K) := Get_Byte_Safe; end loop`.
unfoldable pub get_bytes : ℕ → List ℕ → Outcome (List ℕ × List ℕ)
get_bytes zero bytes = ok ([], bytes)
get_bytes (suc n) [] = err protocol_error
get_bytes (suc n) (b ∷ bytes) = get_bytes n bytes >>= λ r. ok (b ∷ r.0, r.1)

-- `if Bit.B0 = 1 then Huffman.Decode (Str) else Translator.To_String (Str)`.
unfoldable pub literal_text : Bool → List ℕ × List ℕ → Outcome (Text × List ℕ)
literal_text true str = Huffman.decode str.0 >>= λ text. ok (text, str.1)
literal_text false str = ok str

unfoldable pub get_string_literal : List ℕ → Outcome (Text × List ℕ)
unfolding get_bytes literal_text
get_string_literal [] = err protocol_error
get_string_literal (byte ∷ bytes) = get_integer 7 byte bytes >>= λ size.
    get_bytes size.0 size.1 >>= literal_text (byte / 128 % 2 == 1)

-- `Positive (Idx)`.
abbrev pub positive : ℕ → Outcome ℕ
positive idx =
    if idx == 0
    then err constraint_error
    else if ltb idx (2 ^ 31)
    then ok idx
    else err constraint_error

-- `(if Idx = 0 then Get_String_Literal else Get_Indexed_Name (Idx))`.
unfoldable pub get_field_name : DynamicTable → ℕ → List ℕ → Outcome (Text × List ℕ)
get_field_name d idx bytes =
    if idx == 0
    then get_string_literal bytes
    else (positive idx >>= λ i. get_name d i >>= λ name. ok (name, bytes))

-- The variables of `Decode`, with the table and the size limit of the settings.
pub record Decoder : Type 0 where
  pub table : DynamicTable
  pub max : ℕ
  pub headers : List NameValue
  pub seen : Bool

-- A literal field: the name, by the index or as it is, and the value.
unfoldable pub get_literal : DynamicTable → ℕ → List ℕ → Outcome (NameValue × List ℕ)
unfolding get_field_name
get_literal d idx bytes = get_field_name d idx bytes >>= λ name.
    get_string_literal name.1 >>= λ value. ok (record { name = name.0; value = value.0 }, value.1)

-- The four kinds of field, by the first bits of the byte.
unfoldable pub indexed_field : Decoder → ℕ → List ℕ → Outcome (Decoder × List ℕ)
indexed_field s byte bytes = get_integer 7 byte bytes >>= λ idx.
    if idx.0 == 0
    then err protocol_error
    else (positive idx.0 >>= λ i. get_name_value s.table i >>= λ item.
        ok (record s { headers = s.headers ++ (item ∷ []); seen = true }, idx.1))

unfoldable pub indexing_field : Decoder → ℕ → List ℕ → Outcome (Decoder × List ℕ)
indexing_field s byte bytes = get_integer 6 byte bytes >>= λ idx.
    get_literal s.table idx.0 idx.1 >>= λ field.
    insert s.max field.0.name field.0.value s.table >>= λ table.
    ok (record s { table = table; headers = s.headers ++ (field.0 ∷ []); seen = true }, field.1)

unfoldable pub size_update : ℕ → Decoder → ℕ → List ℕ → Outcome (Decoder × List ℕ)
size_update header_table_size s byte bytes = get_integer 5 byte bytes >>= λ idx.
    if ltb idx.0 (2 ^ 31)
    then (if ltb header_table_size idx.0 || s.seen
        then err protocol_error
        else ok (record s { max = idx.0 }, idx.1))
    else err constraint_error

unfoldable pub plain_field : Decoder → ℕ → List ℕ → Outcome (Decoder × List ℕ)
plain_field s byte bytes = get_integer 4 byte bytes >>= λ idx.
    get_literal s.table idx.0 idx.1 >>= λ field.
    ok (record s { headers = s.headers ++ (field.0 ∷ []); seen = true }, field.1)

unfoldable pub decode_field : ℕ → Decoder → ℕ → List ℕ → Outcome (Decoder × List ℕ)
decode_field header_table_size s byte bytes =
    if byte / 128 % 2 == 1
    then indexed_field s byte bytes
    else if byte / 64 % 4 == 1
    then indexing_field s byte bytes
    else if byte / 32 % 8 == 1
    then size_update header_table_size s byte bytes
    else plain_field s byte bytes

-- `while not End_Of_Stream loop`: each round takes a byte at least.
unfoldable pub decode_fields : ℕ → ℕ → Decoder → List ℕ → Outcome Decoder
unfolding decode_field
decode_fields fuel header_table_size s [] = ok s
decode_fields zero header_table_size s (byte ∷ bytes) = stuck
decode_fields (suc fuel) header_table_size s (byte ∷ bytes) =
    decode_field header_table_size s byte bytes >>= λ r.
    decode_fields fuel header_table_size r.0 r.1

unfoldable pub decode_headers : ℕ → ℕ → DynamicTable → List ℕ → Outcome Decoder
unfolding decode_fields
decode_headers header_table_size max d bytes =
    decode_fields (length bytes) header_table_size
      (record { table = d; max = max; headers = []; seen = false }) bytes

-- `Send`.
unfoldable pub send : Text → Outcome (List ℕ)
send str = Huffman.encode str >>= λ he.
    if ltb (length he) (length str)
    then (send_integer (length he) 128 7 >>= λ size. ok (size ++ he))
    else (send_integer (length str) 0 7 >>= λ size. ok (size ++ str))

-- One round of the loop of `Encode`, after the index was asked for.
unfoldable pub encode_found :
    ℕ → NameValue → DynamicTable → ℕ → Bool → Outcome (DynamicTable × List ℕ)
unfolding send
encode_found max item d index both =
    if index == 0
    then (send item.name >>= λ name. send item.value >>= λ value. ok (d, 64 ∷ (name ++ value)))
    else if both
    then (send_integer index 128 7 >>= λ bytes. ok (d, bytes))
    else (send_integer index 64 6 >>= λ bytes. insert max item.name item.value d >>= λ d'.
        if has_value item.value
        then (send item.value >>= λ value. ok (d', bytes ++ value))
        else ok (d', bytes))

unfoldable pub encode_field : ℕ → NameValue → DynamicTable → Outcome (DynamicTable × List ℕ)
unfolding encode_found
encode_field max item d = get_name_value_index max item.name item.value d >>= λ found.
    encode_found max item found.0 found.1 found.2

-- `for K in 1 .. List.Count loop`.
unfoldable pub encode_headers : ℕ → List NameValue → DynamicTable → Outcome (DynamicTable × List ℕ)
unfolding encode_field
encode_headers max [] d = ok (d, [])
encode_headers max (item ∷ items) d = encode_field max item d >>= λ first.
    encode_headers max items first.0 >>= λ others. ok (others.0, first.1 ++ others.1)
