-- ===== src/XosCons/Listing.antt =====
-- config/setup/xoscons.adb: `Parse_Int` and `Parse_Asm_Line`, and the loop that reads the assembly
-- listing. An exception in a line is caught there: what was assigned before it stays.
use aws.Base.{
  ℕ, ◌+◌, ◌-◌, ◌*◌, ◌%◌, ◌^◌, Bool, true, false, ◌&&◌, ◌||◌, Option, none, some, List, [], ◌∷◌,
  ◌++◌, Text, codes, text_eq, cut, decimal, decimal_value, length, ltb, ◌==◌, if◌then◌else◌, ◌>>=◌,
}
use aws.XosCons.{IntValue, Kind, cnd, cnu, cns, c, sub, txt, AsmInfo, Table, kind_value}

-- `Long_Unsigned'Value` of plain digits; Long_Unsigned has 64 bits.
unfoldable pub unsigned_value : Text → Option ℕ
unsigned_value [] = none
unsigned_value (a ∷ s) = do n ← decimal_value 0 (a ∷ s); if ltb n (2 ^ 64) then some n else none

-- The prefix of an immediate operand.
unfoldable pub skip_prefix : Text → Text
skip_prefix [] = []
skip_prefix (a ∷ s) = if a == b'$' || a == b'#' then s else a ∷ s

-- A negative number where an unsigned one is expected: its two's complement, in Size_Of_Unsigned_Int
-- bits of the 64.
unfoldable pub complement : ℕ → ℕ → ℕ
complement size n = (2 ^ 64 - n) % 2 ^ 64 % 2 ^ size

abbrev pub is_unsigned : Kind → Bool
is_unsigned cnu = true
is_unsigned _ = false

unfoldable pub signed_value : Kind → ℕ → Text → Option IntValue
unfolding unsigned_value complement
signed_value kind size [] = none
signed_value kind size (a ∷ s) =
    if a == b'-'
    then (do
      n ← unsigned_value s
      some (
          if is_unsigned kind
          then record { positive = true; abs_value = complement size n }
          else record { positive = false; abs_value = n }))
    else (do n ← unsigned_value (a ∷ s); some (record { positive = true; abs_value = n }))

-- `Parse_Int`; `none` is an exception, which an empty text is, too.
unfoldable pub parse_int : Kind → ℕ → Text → Option IntValue
unfolding skip_prefix signed_value
parse_int kind size s = signed_value kind size (skip_prefix s)

-- The first field: its first character is not looked at.
unfoldable pub cut_first : Text → Text × Text
unfolding cut
cut_first [] = ([], [])
cut_first (a ∷ s) = let (field, rest) = cut b':' s in (a ∷ field, rest)

abbrev pub at_most : ℕ → ℕ → ℕ
at_most m n = if ltb m n then n else m

-- Max_Constant_Name_Len
unfoldable pub see_name : Text → Table → Table
see_name name t = record t { max_name_len = at_most t.max_name_len (length name) }

-- Max_Constant_Type_Len
unfoldable pub see_type : Text → Table → Table
see_type ty t = record t { max_type_len = at_most t.max_type_len (length ty) }

-- Max_Constant_Value_Len, for a constant that has a comment.
unfoldable pub see_value : ℕ → Text → Table → Table
see_value len [] t = t
see_value len (_ ∷ _) t = record t { max_value_len = at_most t.max_value_len len }

abbrev pub append_info : AsmInfo → Table → Table
append_info info t = record t { infos = t.infos ++ (info ∷ []) }

-- The length of a number's text.
unfoldable pub image_length : IntValue → ℕ
image_length v =
    if v.positive then length (decimal v.abs_value) else length (decimal v.abs_value) + 1

-- The size of unsigned int, from the constant of that name: no integer of Ada is above 2 ^ 31 - 1.
unfoldable pub see_size : Text → ℕ → Table → Option Table
see_size name n t =
    if text_eq name (codes "SIZEOF_unsigned_int")
    then (if ltb (8 * n) (2 ^ 31) then some (record t { size_of_unsigned_int = 8 * n }) else none)
    else some t

-- The fields of CND and CNU behind the name.
unfoldable pub parse_number : Kind → ℕ → Text → Text → Table → Table
unfolding parse_int see_size see_value image_length
parse_number kind line name rest t =
    let (value, comment) = cut b':' rest in
    elim (parse_int kind t.size_of_unsigned_int value) [
      | none ↦ t
      | some v ↦ elim (see_size name v.abs_value t) [
        | none ↦ t
        | some u ↦
            append_info
              (record {
                kind = kind;
                line_number = line;
                constant_name = some name;
                constant_type = [];
                value_len = image_length v;
                text_value = [];
                int_value = some v;
                comment = comment;
              })
              (see_value (image_length v) comment u)
      ]
    ]

-- The fields of CNS, SUB and C behind the name and the type. A text constant of the name
-- SIZEOF_unsigned_int has no integer value, which counts as 0.
unfoldable pub parse_text : Kind → ℕ → Text → Text → Text → Table → Table
unfolding see_size see_value
parse_text kind line name ty rest t =
    let (value, comment) = cut b':' rest in
    elim (see_size name 0 t) [
      | none ↦ t
      | some u ↦
          append_info
            (record {
              kind = kind;
              line_number = line;
              constant_name = some name;
              constant_type = ty;
              value_len = length value;
              text_value = value;
              int_value = none;
              comment = comment;
            })
            (see_value (length value) comment u)
    ]

-- The fields behind the line number.
unfoldable pub parse_fields : Kind → ℕ → Text → Table → Table
unfolding see_name see_type parse_number parse_text
parse_fields cnd line rest t =
    let (name, rest1) = cut b':' rest in parse_number cnd line name rest1 (see_name name t)
parse_fields cnu line rest t =
    let (name, rest1) = cut b':' rest in parse_number cnu line name rest1 (see_name name t)
parse_fields cns line rest t =
    let (name, rest1) = cut b':' rest in parse_text cns line name [] rest1 (see_name name t)
parse_fields sub line rest t =
    let (name, rest1) = cut b':' rest in parse_text sub line name [] rest1 t
parse_fields c line rest t =
    let (name, rest1) = cut b':' rest in
    let (ty, rest2) = cut b':' rest1 in
    parse_text c line name ty rest2 (see_type ty (see_name name t))
parse_fields txt line rest t =
    append_info
      (record {
        kind = txt;
        line_number = line;
        constant_name = none;
        constant_type = [];
        value_len = 0;
        text_value = rest;
        int_value = none;
        comment = rest;
      })
      t

-- `Integer (...)`
unfoldable pub to_integer : ℕ → Option ℕ
to_integer n = if ltb n (2 ^ 31) then some n else none

-- `Parse_Asm_Line`, on a line without the `->`.
unfoldable pub parse_asm_line : Text → Table → Table
unfolding cut_first parse_int to_integer parse_fields
parse_asm_line line t =
    let (kind_text, rest) = cut_first line in
    elim (kind_value kind_text) [
      | none ↦ t
      | some kind ↦
          let (number, rest1) = cut b':' rest in
          elim (parse_int cnu t.size_of_unsigned_int number >>= λ v. to_integer v.abs_value) [
            | none ↦ t
            | some n ↦ parse_fields kind n rest1 t
          ]
    ]

-- A line of the listing, as `Get_Line` delivers it: one with a marker has `->` and more.
unfoldable pub parse_line : Text → Table → Table
unfolding parse_asm_line
parse_line (a ∷ b ∷ d ∷ s) t = if a == b'-' && b == b'>' then parse_asm_line (d ∷ s) t else t
parse_line _ t = t

-- The loop over the listing.
unfoldable pub load : List Text → Table → Table
unfolding parse_line
load [] t = t
load (l ∷ ls) t = load ls (parse_line l t)
