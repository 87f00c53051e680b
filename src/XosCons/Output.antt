-- ===== src/XosCons/Output.antt =====
-- config/setup/xoscons.adb: `Output_Info`, the line that an entry of the table gives in the Ada
-- package and in the C header.
use aws.Base.{
  ℕ, ◌-◌, Bool, true, false, none, some, [], ◌∷◌, ◌++◌, Text, codes, text_eq, decimal, length,
  replicate, if◌then◌else◌,
}
use aws.XosCons.{
  IntValue, Kind, cnd, cnu, cns, c, sub, txt, AsmInfo, Table, Language, lang_ada, lang_c,
}

-- `Spaces`
unfoldable pub spaces : ℕ → Text
spaces count = replicate count b' '

-- A component that the kind has is not null.
abbrev pub name_of : AsmInfo → Text
name_of info = elim info.constant_name [ some name ↦ name | none ↦ [] ]

abbrev pub is_named_number : Kind → Bool
is_named_number cnd = true
is_named_number cnu = true
is_named_number cns = true
is_named_number _ = false

-- What stands before the value.
unfoldable pub declaration : Language → Table → AsmInfo → Text
unfolding spaces
declaration lang_ada t info =
    codes "   "
    ++ (name_of info
        ++ (spaces (t.max_name_len - length (name_of info))
            ++ (if is_named_number info.kind
                then codes " : constant := "
                else codes " : constant "
                  ++ (info.constant_type
                      ++ (spaces (t.max_type_len - length info.constant_type) ++ codes " := ")))))
declaration lang_c t info =
    codes "#define "
    ++ (name_of info ++ (codes " " ++ spaces (t.max_name_len - length (name_of info))))

unfoldable pub int_image : IntValue → Text
int_image v = if v.positive then decimal v.abs_value else codes "-" ++ decimal v.abs_value

abbrev pub is_string : AsmInfo → Bool
is_string info = elim info.kind [ c ↦ text_eq info.constant_type (codes "String") | _ ↦ false ]

-- The value: an integer, or a text, which a String has in quotes.
unfoldable pub value_image : AsmInfo → Text
unfolding int_image
value_image info = elim info.int_value [
  | some v ↦ int_image v
  | none ↦ if is_string info then codes "\"" ++ (info.text_value ++ codes "\"") else info.text_value
]

-- What stands behind the value in Ada.
unfoldable pub ending : Table → AsmInfo → Text
unfolding spaces
ending t info = elim info.comment [
  | [] ↦ codes ";"
  | _ ∷ _ ↦ codes ";" ++ (spaces (t.max_value_len - info.value_len) ++ codes " --  ")
]

unfoldable pub constant_line : Language → Table → AsmInfo → Text
unfolding declaration value_image ending
constant_line lang_ada t info =
    declaration lang_ada t info ++ (value_image info ++ (ending t info ++ info.comment))
constant_line lang_c t info = declaration lang_c t info ++ value_image info

unfoldable pub subtype_line : Language → AsmInfo → Text
subtype_line lang_ada info =
    codes "   subtype "
    ++ (name_of info
        ++ (codes " is Interfaces.C." ++ (info.text_value ++ (codes ";" ++ info.comment))))
subtype_line lang_c info = codes "#define " ++ (name_of info ++ (codes " " ++ info.text_value))

unfoldable pub text_line : Language → AsmInfo → Text
text_line lang_ada info = info.comment
text_line lang_c info = []

-- `Output_Info`, without the end of the line.
unfoldable pub output_info : Language → Table → AsmInfo → Text
unfolding constant_line subtype_line text_line
output_info lang t info = elim info.kind [
  | txt ↦ text_line lang info
  | sub ↦ subtype_line lang info
  | _ ↦ constant_line lang t info
]
