-- ===== src/XosCons/RoundTrip.antt =====
-- The markers of config/setup/os_lib-tmplt.c as the assembly listing has them, read by
-- config/setup/xoscons.adb.
use aws.Base.{
  ℕ, ◌+◌, ◌*◌, ◌^◌, ◌<◌, ◌≡◌, ◌≢◌, refl, sym, ap, ◌∙◌, ℤ, pos, negsuc, Bool, true, not, ◌||◌,
  Bool-cases, inl, inr, none, some, List, [], ◌∷◌, ◌++◌, map, append_assoc, append-nil, Text, codes,
  cut, cut-append, IsFree, decimal, decimal-IsDigits, is_digit, text_eq, All, All-weaken, IsInt,
  length, ltb, if◌then◌else◌, arith,
}
use aws.OsLib.Macros.{Marker}
use aws.XosCons.{Kind, AsmInfo, Table, empty_table, kind_value}
use aws.XosCons.Listing.{
  cut_first, see_name, see_type, see_value, see_size, image_length, parse_number, parse_text,
  parse_fields, parse_asm_line, parse_line, load,
}
use aws.XosCons.Numbers.{
  IsOperandPrefix, no_prefix, dollar, hash, operand, int_value_of, parse_int-operand,
  parse_int-line,
}

-- Fields between colons, and the last one behind them.
abbrev field : Text → Text → Text
field f rest = f ++ (b':' ∷ rest)

-- The line of the listing for a marker: the text of the `asm` statement of its macro, with the
-- operands that the compiler puts in.
abbrev pub listing_line : Text → Marker → Text
listing_line prefix (Marker.cnd line name z comment) =
    codes "->CND:"
    ++ field (prefix ++ decimal line)
        (field (codes name) (field (operand prefix z) (codes comment)))
listing_line prefix (Marker.cns line name text comment) =
    codes "->CNS:"
    ++ field (prefix ++ decimal line) (field (codes name) (field (codes text) (codes comment)))
listing_line prefix (Marker.c line name ty text comment) =
    codes "->C:"
    ++ field (prefix ++ decimal line)
        (field (codes name) (field (codes ty) (field (codes text) (codes comment))))
listing_line prefix (Marker.txt line text) =
    codes "->TXT:" ++ field (prefix ++ decimal line) (codes text)

-- The entry of the tool's table for a marker.
abbrev pub info_of : Marker → AsmInfo
info_of (Marker.cnd line name z comment) = record {
  kind = Kind.cnd;
  line_number = line;
  constant_name = some (codes name);
  constant_type = [];
  value_len = length (operand [] z);
  text_value = [];
  int_value = some (int_value_of z);
  comment = codes comment;
}
info_of (Marker.cns line name text comment) = record {
  kind = Kind.cns;
  line_number = line;
  constant_name = some (codes name);
  constant_type = [];
  value_len = length (codes text);
  text_value = codes text;
  int_value = none;
  comment = codes comment;
}
info_of (Marker.c line name ty text comment) = record {
  kind = Kind.c;
  line_number = line;
  constant_name = some (codes name);
  constant_type = codes ty;
  value_len = length (codes text);
  text_value = codes text;
  int_value = none;
  comment = codes comment;
}
info_of (Marker.txt line text) = record {
  kind = Kind.txt;
  line_number = line;
  constant_name = none;
  constant_type = [];
  value_len = 0;
  text_value = codes text;
  int_value = none;
  comment = codes text;
}

-- No colon.
abbrev pub IsField : Text → Type 0
IsField = IsFree b':'

-- The size of unsigned int has to be a number of bits that Integer can hold.
abbrev pub has_small_size : Text → ℤ → Bool
has_small_size name z =
    not (text_eq name (codes "SIZEOF_unsigned_int"))
    || ltb (8 * (int_value_of z).abs_value) (2 ^ 31)

-- The fields before the comment have no colon, and the numbers fit their types.
abbrev pub IsPrintable : Marker → Type 0
IsPrintable (Marker.cnd line name z comment) =
    (line < 2 ^ 31) × IsField (codes name) × IsInt z × (has_small_size (codes name) z ≡ true)
IsPrintable (Marker.cns line name text comment) =
    (line < 2 ^ 31) × IsField (codes name) × IsField (codes text)
IsPrintable (Marker.c line name ty text comment) =
    (line < 2 ^ 31) × IsField (codes name) × IsField (codes ty) × IsField (codes text)
IsPrintable (Marker.txt line text) = line < 2 ^ 31

IsField-append : (s t : Text) → IsField s → IsField t → IsField (s ++ t)
IsField-append [] t hs ht = ht
IsField-append (a ∷ s) t hs ht = (hs.0, IsField-append s t hs.1 ht)

prefix-IsField : {prefix : Text} → IsOperandPrefix prefix → IsField prefix
prefix-IsField no_prefix = tt
prefix-IsField dollar = (omega arith, tt)
prefix-IsField hash = (omega arith, tt)

decimal-IsField : (n : ℕ) → IsField (decimal n)
decimal-IsField n =
    All-weaken (λ a. is_digit a ≡ true) (λ a. a ≢ b':') (decimal n) (λ a h. ground arith)
      (decimal-IsDigits n)

number-IsField : {prefix : Text} (n : ℕ) → IsOperandPrefix prefix → IsField (prefix ++ decimal n)
number-IsField {prefix} n p =
    IsField-append prefix (decimal n) (prefix-IsField p) (decimal-IsField n)

operand-IsField : {prefix : Text} (z : ℤ) → IsOperandPrefix prefix → IsField (operand prefix z)
operand-IsField (pos n) p = number-IsField n p
operand-IsField {prefix} (negsuc n) p =
    IsField-append prefix (b'-' ∷ decimal (n + 1)) (prefix-IsField p)
      (omega arith, decimal-IsField (n + 1))

image_length-operand : (z : ℤ) → image_length (int_value_of z) ≡ length (operand [] z)
unfolding image_length
image_length-operand (pos n) = refl
image_length-operand (negsuc n) = omega arith

-- The table apart from its widths.
infos-see_value : (len : ℕ) (comment : Text) (t : Table) → (see_value len comment t).infos ≡ t.infos
unfolding see_value
infos-see_value len [] t = refl
infos-see_value len (_ ∷ _) t = refl

see_size-small :
    (name : Text) (z : ℤ) (t : Table)
    → has_small_size name z ≡ true
    → (u : Table) × (see_size name (int_value_of z).abs_value t ≡ some u) × (u.infos ≡ t.infos)
unfolding see_size
see_size-small name z t h = elim (Bool-cases (text_eq name (codes "SIZEOF_unsigned_int"))) [
  | inl is_size ↦
      (record t { size_of_unsigned_int = 8 * (int_value_of z).abs_value }, ground arith, refl)
  | inr other ↦ (t, rw (other, if◌then◌else◌), refl)
]

parse_number-infos :
    {prefix : Text} (line : ℕ) (name comment : Text) (z : ℤ) (t : Table)
    → IsOperandPrefix prefix
    → IsInt z
    → has_small_size name z ≡ true
    → (parse_number Kind.cnd line name (field (operand prefix z) comment) t).infos
      ≡ t.infos
        ++ (record {
          kind = Kind.cnd;
          line_number = line;
          constant_name = some name;
          constant_type = [];
          value_len = length (operand [] z);
          text_value = [];
          int_value = some (int_value_of z);
          comment = comment;
        }
            ∷ [])
unfolding parse_number
parse_number-infos {prefix} line name comment z t p int small =
    let (u, size_eq, infos_eq) = see_size-small name z t small in
    let cut_eq = cut-append b':' (operand prefix z) comment (operand-IsField z p) in
    rw (
      parse_number,
      cut_eq,
      parse_int-operand t.size_of_unsigned_int z p int,
      size_eq,
      cut_eq,
      infos-see_value (image_length (int_value_of z)) comment u,
      infos_eq,
      image_length-operand z,
    )

parse_text-infos :
    (kind : Kind) (line : ℕ) (name ty text comment : Text) (t : Table)
    → IsField text
    → (parse_text kind line name ty (field text comment) t).infos
      ≡ t.infos
        ++ (record {
          kind = kind;
          line_number = line;
          constant_name = some name;
          constant_type = ty;
          value_len = length text;
          text_value = text;
          int_value = none;
          comment = comment;
        }
            ∷ [])
unfolding parse_text
parse_text-infos kind line name ty text comment t free =
    let (u, size_eq, infos_eq) =
      see_size-small name (pos 0) t (zero_is_small (text_eq name (codes "SIZEOF_unsigned_int"))) in
    let cut_eq = cut-append b':' text comment free in
    rw (parse_text, size_eq, cut_eq, infos-see_value (length text) comment u, infos_eq)
  where
    zero_is_small : (b : Bool) → (not b || true) ≡ true
    zero_is_small true = refl
    zero_is_small _ = refl

-- The kind and the line number of a line of the listing.
parse_asm_line-start :
    (kind_text : Text) {prefix : Text} (kind : Kind) (line : ℕ) (rest : Text) (t : Table)
    → cut_first (kind_text ++ (b':' ∷ field (prefix ++ decimal line) rest))
      ≡ (kind_text, field (prefix ++ decimal line) rest)
    → kind_value kind_text ≡ some kind
    → IsOperandPrefix prefix
    → line < 2 ^ 31
    → parse_asm_line (kind_text ++ (b':' ∷ field (prefix ++ decimal line) rest)) t
      ≡ parse_fields kind line rest t
unfolding parse_asm_line
parse_asm_line-start kind_text {prefix} kind line rest t first known p h =
    let cut_eq = cut-append b':' (prefix ++ decimal line) rest (number-IsField line p) in
    rw (
      parse_asm_line,
      first,
      known,
      first,
      cut_eq,
      parse_int-line t.size_of_unsigned_int line p h,
      first,
      cut_eq,
    )

parse_fields-cnd :
    (line : ℕ) (name rest : Text) (t : Table)
    → IsField name
    → parse_fields Kind.cnd line (field name rest) t
      ≡ parse_number Kind.cnd line name rest (see_name name t)
unfolding parse_fields
parse_fields-cnd line name rest t free =
    ap (λ q. parse_number Kind.cnd line q.0 q.1 (see_name q.0 t)) (cut-append b':' name rest free)

parse_fields-cns :
    (line : ℕ) (name rest : Text) (t : Table)
    → IsField name
    → parse_fields Kind.cns line (field name rest) t
      ≡ parse_text Kind.cns line name [] rest (see_name name t)
unfolding parse_fields
parse_fields-cns line name rest t free =
    ap (λ q. parse_text Kind.cns line q.0 [] q.1 (see_name q.0 t)) (cut-append b':' name rest free)

parse_fields-c :
    (line : ℕ) (name ty rest : Text) (t : Table)
    → IsField name
    → IsField ty
    → parse_fields Kind.c line (field name (field ty rest)) t
      ≡ parse_text Kind.c line name ty rest (see_type ty (see_name name t))
unfolding parse_fields
parse_fields-c line name ty rest t name_free ty_free =
    ap
      (λ q.
        let r = cut b':' q.1 in parse_text Kind.c line q.0 r.0 r.1 (see_type r.0 (see_name q.0 t)))
      (cut-append b':' name (field ty rest) name_free)
    ∙ ap (λ r. parse_text Kind.c line name r.0 r.1 (see_type r.0 (see_name name t)))
        (cut-append b':' ty rest ty_free)

-- A marker adds its entry to the table.
parse_line-listing_line :
    {prefix : Text} (m : Marker) (t : Table)
    → IsOperandPrefix prefix
    → IsPrintable m
    → (parse_line (listing_line prefix m) t).infos ≡ t.infos ++ (info_of m ∷ [])
unfolding parse_line see_name see_type cut_first cut kind_value text_eq
parse_line-listing_line {prefix} (Marker.cnd line name z comment) t p (h, name_free, int, small) =
    ap (λ u. u.infos)
      (parse_asm_line-start (codes "CND") Kind.cnd line
          (field (codes name) (field (operand prefix z) (codes comment))) t refl refl p h
        ∙ parse_fields-cnd line (codes name) (field (operand prefix z) (codes comment)) t name_free)
    ∙ parse_number-infos line (codes name) (codes comment) z (see_name (codes name) t) p int small
parse_line-listing_line {prefix} (Marker.cns line name text comment) t p (h, name_free, text_free) =
    ap (λ u. u.infos)
      (parse_asm_line-start (codes "CNS") Kind.cns line
          (field (codes name) (field (codes text) (codes comment))) t refl refl p h
        ∙ parse_fields-cns line (codes name) (field (codes text) (codes comment)) t name_free)
    ∙ parse_text-infos Kind.cns line (codes name) [] (codes text) (codes comment)
        (see_name (codes name) t) text_free
parse_line-listing_line {prefix} (Marker.c line name ty text comment) t p
      (h, name_free, ty_free, text_free) =
    ap (λ u. u.infos)
      (parse_asm_line-start (codes "C") Kind.c line
          (field (codes name) (field (codes ty) (field (codes text) (codes comment)))) t refl refl p
          h
        ∙ parse_fields-c line (codes name) (codes ty) (field (codes text) (codes comment)) t
            name_free ty_free)
    ∙ parse_text-infos Kind.c line (codes name) (codes ty) (codes text) (codes comment)
        (see_type (codes ty) (see_name (codes name) t)) text_free
parse_line-listing_line {prefix} (Marker.txt line text) t p h =
    ap (λ u. u.infos)
      (parse_asm_line-start (codes "TXT") Kind.txt line (codes text) t refl refl p h)

load-append_infos :
    {prefix : Text} (ms : List Marker) (t : Table)
    → IsOperandPrefix prefix
    → All IsPrintable ms
    → (load (map (listing_line prefix) ms) t).infos ≡ t.infos ++ map info_of ms
unfolding load
load-append_infos [] t p h = sym (append-nil t.infos)
load-append_infos {prefix} (m ∷ ms) t p h =
    load-append_infos ms (parse_line (listing_line prefix m) t) p h.1
    ∙ rw (parse_line-listing_line m t p h.0)
        (append_assoc t.infos (info_of m ∷ []) (map info_of ms))

-- The listing that the compiler makes of any list of markers, with whatever prefix it gives an
-- operand, is read back as those markers: the table has an entry for each of them, in order, with its
-- kind, line number, name, type, value, length of the value and comment. The names, types and texts must
-- have no colon, the numbers must fit an int, and the size of unsigned int be small.
pub load-listing_line :
    {prefix : Text} (ms : List Marker)
    → IsOperandPrefix prefix
    → All IsPrintable ms
    → (load (map (listing_line prefix) ms) empty_table).infos ≡ map info_of ms
load-listing_line ms p h = load-append_infos ms empty_table p h
