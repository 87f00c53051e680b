-- ===== src/Hpack/Headers/RoundTrip.antt =====
-- Lists of header fields, encoded by one end of a connection and decoded by the other:
-- src/http2/aws-http2-hpack.adb.
use aws.Base.{ℕ, zero, suc, ◌-◌, ◌^◌, ◌≤◌, ◌<◌, ◌≡◌, refl, sym, ap, ◌∙◌, subst, arith}
use aws.Base.{
  Text, List, [], ◌∷◌, ◌++◌, length, length-append, append-nil, All, append_assoc, Bool, true,
  false, inl, inr,
}
use aws.Base.{IsFree}
use aws.Hpack.Outcome.{Outcome, ok}
use aws.Hpack.Table.{NameValue, DynamicTable, has_value, get_name_value_index}
use aws.Hpack.Table.Lookup.{Answers, get_name_value_index_lem}
use aws.Hpack.Headers.{
  Decoder, decode_field, decode_fields, decode_headers, encode_field, encode_found, encode_headers,
}
use aws.Hpack.Headers.Literals.{IsSendable}
use aws.Hpack.Headers.Tables.{IsField, IsReady, insert-IsReady, index_item, nv_size_pos}
use aws.Hpack.Headers.Fields.{ReadsBack, both_found, name_found, none_found}

-- A header field that can be sent and read back: it can go through the table, and its name and its
-- value are strings that can be sent.
pub record IsHeader (max : ℕ) (item : NameValue) : Type 0 where
  pub field : IsField max item
  pub name : IsSendable item.name
  pub value : IsSendable item.value

answer :
    (max left : ℕ) (name value : Text) (d : DynamicTable)
    → IsField max (record { name = name; value = value })
    → IsReady max (suc left) d
    → (found : DynamicTable × ℕ × Bool) × (get_name_value_index max name value d ≡ ok found)
      × Answers max name value d found
answer max left [] value d field ready = absurd (omega (arith, field.some_name))
answer max left (c ∷ name) value d field ready =
    let (found, e, answers, table) =
      get_name_value_index_lem max c name value d ready.table ready.names_free
        (subst (IsFree b'=') (sym field.lower) field.name_free)
        (rw field.lower (omega (arith, ready.small, field.sized))) (omega (arith, ready.ranks)) in
    (found, e, answers)

same_item :
    {item : NameValue} (other : NameValue)
    → other.name ≡ item.name
    → other.value ≡ item.value
    → other ≡ item
same_item other name value = ground (arith, name, value)

valued : (value : Text) → 0 < length value → has_value value ≡ true
valued [] h = absurd (omega arith)
valued (c ∷ value) h = refl

module _ (header_table_size left : ℕ) (s : Decoder) (item : NameValue) (rest : List ℕ)
    (header : IsHeader s.max item) (ready : IsReady s.max (suc left) s.table) where
  -- The field is read back, and the table is ready for the others.
  Sent : Outcome (DynamicTable × List ℕ) → Type 0
  Sent o = (d : DynamicTable) × IsReady s.max left d × ReadsBack header_table_size s item rest d o

  unchanged : IsReady s.max left s.table
  unchanged = record {
    table = ready.table;
    names_free = ready.names_free;
    small = ready.small;
    ranks = omega (arith, ready.ranks);
  }

  limit : s.max < 2 ^ 31 - 32
  limit = omega (arith, header.field.sized, nv_size_pos item)

  by_answer :
      (found : DynamicTable × ℕ × Bool)
      → Answers s.max item.name item.value s.table found
      → Sent (encode_found s.max item found.0 found.1 found.2)
  unfolding Sent
  by_answer (d, index, true) (inl (same, pos, best, (other, at_index, name, inl differ))) =
      absurd (cc)
  by_answer (d, index, true) (inl (same, pos, best, (other, at_index, name, inr value))) =
      let (range, by_name) = index_item s.max (suc left) index s.table ready limit pos at_index in
      subst (λ (t : DynamicTable). Sent (encode_found s.max item t index true)) (sym same)
        (
          s.table,
          unchanged,
          both_found header_table_size s item rest index pos range
              (at_index ∙ ap ok (same_item other (name ∙ header.field.lower) value)),
        )
  by_answer (d, index, false) (inl (same, pos, best, (other, at_index, name, value))) =
      let (range, by_name) = index_item s.max (suc left) index s.table ready limit pos at_index in
      let (d', inserted, ready') =
        insert-IsReady s.max left item.name item.value s.table header.field ready in
      subst (λ (t : DynamicTable). Sent (encode_found s.max item t index false)) (sym same)
        (
          d',
          ready',
          name_found header_table_size s item rest index d' pos range
              (by_name ∙ ap (λ (n : Text). ok n) (name ∙ header.field.lower))
              (valued item.value header.value.some_text) header.value inserted,
        )
  by_answer (d, index, both) (inr (inserted, none, not_both, absent)) =
      let (d', inserted', ready') =
        insert-IsReady s.max left item.name item.value s.table header.field ready in
      let same : d' ≡ d = cc in
      subst (λ (i : ℕ). Sent (encode_found s.max item d i both)) (sym none)
        (subst (λ (b : Bool). Sent (encode_found s.max item d 0 b)) (sym not_both)
          (
            d,
            subst (IsReady s.max left) same ready',
            none_found header_table_size s item rest d header.name header.value inserted,
          ))

  field_lem : Sent (encode_field s.max item s.table)
  unfolding Sent encode_field
  field_lem =
      let (found, e, answers) = answer s.max left item.name item.value s.table header.field ready in
      rw e (by_answer found answers)

-- The bytes of the fields are decoded to the fields, and both ends have the same table after them.
abbrev Transmits : ℕ → List NameValue → Decoder → Type 0
Transmits header_table_size items s =
    (d : DynamicTable) × (bytes : List ℕ) × (seen : Bool) × (encode_headers s.max items s.table
      ≡ ok (d, bytes))
    × ((fuel : ℕ)
        → length bytes ≤ fuel
        → decode_fields fuel header_table_size s bytes
          ≡ ok (record s { table = d; headers = s.headers ++ items; seen = seen }))

-- The first field is decoded, and then the others.
decode_fields_first :
    (header_table_size fuel first : ℕ) (more bytes : List ℕ) (s s' : Decoder) {o : Outcome Decoder}
    → decode_field header_table_size s first (more ++ bytes) ≡ ok (s', bytes)
    → length (first ∷ (more ++ bytes)) ≤ fuel
    → ((n : ℕ) → length bytes ≤ n → decode_fields n header_table_size s' bytes ≡ o)
    → decode_fields fuel header_table_size s (first ∷ (more ++ bytes)) ≡ o
unfolding decode_fields
decode_fields_first header_table_size zero first more bytes s s' read enough others =
    absurd (omega arith)
decode_fields_first header_table_size (suc fuel) first more bytes s s' read enough others =
    rw read (others fuel (omega (arith, length-append more bytes)))

-- The first field is encoded to the table `d`, and the others from there on.
first_and_others :
    (header_table_size : ℕ) (s : Decoder) (item : NameValue) (items : List NameValue)
    (d : DynamicTable) {b : List ℕ}
    → encode_field s.max item s.table ≡ ok (d, b)
    → ((rest : List ℕ)
        → (d' : DynamicTable) × ReadsBack header_table_size s item rest d'
            (encode_field s.max item s.table))
    → Transmits header_table_size items
        (record s { table = d; headers = s.headers ++ (item ∷ []); seen = true })
    → Transmits header_table_size (item ∷ items) s
unfolding encode_headers
first_and_others header_table_size s item items d e back (d', bytes, seen, encoded, decoded) =
    let (d1, (first, more, e1, read)) = back bytes in
    let same : d1 ≡ d = cc in
    (
      d',
      first ∷ (more ++ bytes),
      seen,
      rw (e1, same, encoded),
      λ fuel enough.
          decode_fields_first header_table_size fuel first more bytes s _
            (read
              ∙ ap
                  (λ (t : DynamicTable). ok (
                    record s { table = t; headers = s.headers ++ (item ∷ []); seen = true },
                    bytes,
                  ))
                  same)
            enough decoded
          ∙ ap (λ (l : List NameValue). ok (record s { table = d'; headers = l; seen = seen }))
              (append_assoc s.headers (item ∷ []) items),
    )

every_header :
    (header_table_size : ℕ) (items : List NameValue) (s : Decoder)
    → All (IsHeader s.max) items
    → IsReady s.max (length items) s.table
    → Transmits header_table_size items s
unfolding encode_headers decode_fields Sent
every_header header_table_size [] s h ready = (
  s.table,
  [],
  s.seen,
  refl,
  λ fuel enough.
      ap (λ (l : List NameValue). ok (record s { headers = l })) (sym (append-nil s.headers)),
)
every_header header_table_size (item ∷ items) s h ready =
    let (d, ready', (first, more, e, read)) =
      field_lem header_table_size (length items) s item [] h.0 ready in
    first_and_others header_table_size s item items d e
      (λ rest.
        let (d', ready1, back) = field_lem header_table_size (length items) s item rest h.0 ready in
        (d', back))
      (every_header header_table_size items
        (record s { table = d; headers = s.headers ++ (item ∷ []); seen = true }) h.1 ready')

-- Headers whose names are in lower case, not empty and without '=', and whose names and values are
-- printable strings that are not empty, are encoded; and a decoder that has the same table decodes
-- the bytes to the same headers, in order, and has the same table as the encoder after them. The
-- table has to be well formed, and its limit and its count of insertions within 32 bits; what is
-- said of a string is also that its codes fit the buffer of the coder.
pub decode_headers-encode_headers :
    (header_table_size max : ℕ) (items : List NameValue) (d : DynamicTable)
    → All (IsHeader max) items
    → IsReady max (length items) d
    → (d' : DynamicTable) × (bytes : List ℕ) × (s : Decoder) × (encode_headers max items d
        ≡ ok (d', bytes))
      × (decode_headers header_table_size max d bytes ≡ ok s)
      × (s.headers ≡ items)
      × (s.table ≡ d')
unfolding decode_headers
decode_headers-encode_headers header_table_size max items d headers ready =
    let (d', bytes, seen, encoded, decoded) =
      every_header header_table_size items
        (record { table = d; max = max; headers = []; seen = false }) headers ready in
    (
      d',
      bytes,
      record { table = d'; max = max; headers = items; seen = seen },
      encoded,
      decoded (length bytes) (omega arith),
      refl,
      refl,
    )
