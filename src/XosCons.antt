-- ===== src/XosCons.antt =====
-- config/setup/xoscons.adb: the tool that writes the package AWS.OS_Lib, and a C header, from the
-- preprocessed template and from the markers in its assembly listing.
pub mod Listing
pub mod Output
pub mod Condition
pub mod Template
pub mod Numbers
pub mod RoundTrip
pub mod Branches
pub mod Parts
pub mod Driver
pub mod Comments
pub mod Emitted
pub mod Comparison
pub mod Types
pub mod Widths
pub mod Columns
pub mod Package
pub mod Decisions
pub mod TypesText
mod Tests
use aws.Base.{
  ℕ, ◌-◌, map, leb, Bool, true, false, not, ◌&&◌, ◌||◌, Option, none, some, List, [], ◌∷◌, Text,
  codes, ltb, ◌==◌, text_eq, if◌then◌else◌,
}

-- Int_Value_Type
pub record IntValue : Type 0 where
  pub positive : Bool
  pub abs_value : ℕ

-- `">"`
unfoldable pub int_gt : IntValue → IntValue → Bool
int_gt v w =
    (v.positive && not w.positive)
    || ((v.positive && (w.positive && ltb w.abs_value v.abs_value))
        || (not v.positive && (not w.positive && ltb v.abs_value w.abs_value)))

-- The predefined equality of the record.
unfoldable pub int_same : IntValue → IntValue → Bool
int_same v w = (if v.positive then w.positive else not w.positive) && v.abs_value == w.abs_value

-- `"<"`
unfoldable pub int_lt : IntValue → IntValue → Bool
unfolding int_gt int_same
int_lt v w = not (int_gt v w) && not (int_same v w)

-- Asm_Info_Kind
pub data Kind : Type 0 where
  cnd cnu cns c sub txt : Kind

-- Asm_Info. A component that its kind lacks is null: `none` for the name, which is tested, and no
-- text for the others, which are not read. `int_value` is set for CND and CNU only.
pub record AsmInfo : Type 0 where
  pub kind : Kind
  pub line_number : ℕ
  pub constant_name : Option Text
  pub constant_type : Text
  pub value_len : ℕ
  pub text_value : Text
  pub int_value : Option IntValue
  pub comment : Text

-- Asm_Infos and the variables that go with it.
pub record Table : Type 0 where
  pub infos : List AsmInfo
  pub max_name_len : ℕ
  pub max_value_len : ℕ
  pub max_type_len : ℕ
  pub size_of_unsigned_int : ℕ

abbrev pub empty_table : Table
empty_table = record {
  infos = [];
  max_name_len = 0;
  max_value_len = 0;
  max_type_len = 0;
  size_of_unsigned_int = 0;
}

pub data Language : Type 0 where
  lang_ada lang_c : Language

abbrev pub to_upper : ℕ → ℕ
to_upper a = if leb b'a' a && leb a b'z' then a - 32 else a

unfoldable pub drop_blanks : Text → Text
drop_blanks [] = []
drop_blanks (a ∷ s) = let r = drop_blanks s in if a == b' ' then r else a ∷ s

unfoldable pub drop_last_blanks : Text → Text
drop_last_blanks [] = []
drop_last_blanks (a ∷ s) = elim (drop_last_blanks s) [
  | [] ↦ if a == b' ' then [] else a ∷ []
  | b ∷ r ↦ a ∷ (b ∷ r)
]

unfoldable pub trim : Text → Text
unfolding drop_blanks drop_last_blanks
trim s = drop_last_blanks (drop_blanks s)

-- `Asm_Info_Kind'Value`, in either case of the letters, without the blanks that may stand around.
unfoldable pub kind_value : Text → Option Kind
unfolding trim
kind_value s =
    let name = map to_upper (trim s) in
    if text_eq name (codes "CND")
    then some cnd
    else if text_eq name (codes "CNU")
    then some cnu
    else if text_eq name (codes "CNS")
    then some cns
    else if text_eq name (codes "C")
    then some c
    else if text_eq name (codes "SUB")
    then some sub
    else if text_eq name (codes "TXT")
    then some txt
    else none
