-- ===== src/XosCons/Columns.antt =====
-- config/setup/xoscons.adb: the columns of the package and the header.
use aws.Base.{
  ℕ, ◌+◌, ◌-◌, ◌≤◌, ◌≡◌, subst, Bool, true, false, inl, inr, List, ◌∷◌, ◌++◌, Text, codes, In,
  All-In, length-replicate, length, length-append, if◌then◌else◌, arith,
}
use aws.XosCons.{lang_ada, lang_c, Kind, sub, txt, AsmInfo, Table, empty_table}
use aws.XosCons.Listing.{load}
use aws.XosCons.Output.{spaces, name_of, is_named_number, declaration}
use aws.XosCons.Widths.{Fits, Covers, load-Covers}

empty_table-Covers : Covers empty_table
empty_table-Covers = tt

-- A constant, and not a subtype or a text.
abbrev pub IsConstant : Kind → Type 0
IsConstant sub = ⊥
IsConstant txt = ⊥
IsConstant _ = Unit

length-spaces : (n : ℕ) → length (spaces n) ≡ n
unfolding spaces
length-spaces n = length-replicate n b' '

length-filled :
    (m : ℕ) (s rest : Text)
    → length s ≤ m
    → length (s ++ (spaces (m - length s) ++ rest)) ≡ m + length rest
length-filled m s rest h = omega (
  arith,
  length-append s (spaces (m - length s) ++ rest),
  length-append (spaces (m - length s)) rest,
  length-spaces (m - length s),
)

length-declaration :
    (t : Table) (info : AsmInfo)
    → Fits t info
    → length (name_of info) ≤ t.max_name_len
    → (length (declaration lang_ada t info)
        ≡ t.max_name_len + (if is_named_number info.kind then 18 else t.max_type_len + 19))
      × (length (declaration lang_c t info) ≡ t.max_name_len + 9)
unfolding declaration
length-declaration t info f l = (
  ada (is_named_number info.kind),
  omega (
    arith,
    length-append (name_of info) (b' ' ∷ spaces (t.max_name_len - length (name_of info))),
    length-spaces (t.max_name_len - length (name_of info)),
  ),
)
  where
    ada :
        (b : Bool)
        → length (
            codes "   "
            ++ (name_of info
                ++ (spaces (t.max_name_len - length (name_of info))
                    ++ (if b
                        then codes " : constant := "
                        else codes " : constant "
                          ++ (info.constant_type
                              ++ (spaces (t.max_type_len - length info.constant_type)
                                  ++ codes " := "))))))
          ≡ t.max_name_len + (if b then 18 else t.max_type_len + 19)
    ada true =
        omega (arith, length-filled t.max_name_len (name_of info) (codes " : constant := ") l)
    ada false = omega (
      arith,
      length-filled t.max_name_len (name_of info)
          (codes " : constant "
            ++ (info.constant_type
                ++ (spaces (t.max_type_len - length info.constant_type) ++ codes " := ")))
          l,
      length-filled t.max_type_len info.constant_type (codes " := ") f.type_fits,
    )

-- The columns of the package and of the header, for any listing: what stands before the value of a
-- constant in the Ada package is Max_Constant_Name_Len + 18 characters long for every named number, and
-- Max_Constant_Name_Len + Max_Constant_Type_Len + 19 for every constant object, and in the header
-- Max_Constant_Name_Len + 9 for all of them, so that the values stand in columns.
pub load-columns :
    (ls : List Text) {info : AsmInfo}
    → In info (load ls empty_table).infos
    → IsConstant info.kind
    → (length (declaration lang_ada (load ls empty_table) info)
        ≡ (load ls empty_table).max_name_len
          + (if is_named_number info.kind then 18 else (load ls empty_table).max_type_len + 19))
      × (length (declaration lang_c (load ls empty_table) info)
          ≡ (load ls empty_table).max_name_len + 9)
load-columns ls {info} i k =
    let t = load ls empty_table in
    let f : Fits t info = All-In (Fits t) (load-Covers ls empty_table empty_table-Covers) i in
    elim f.name_fits [
      | inl s ↦ absurd (subst IsConstant s k)
      | inr l ↦ length-declaration t info f l
    ]
