-- ===== src/XosCons/Condition.antt =====
-- config/setup/xoscons.adb: `Parse_Cond`, the conditional parts of the text that is copied.
use aws.Base.{
  ℕ, zero, suc, ◌+◌, Bool, true, false, not, ◌&&◌, Option, none, some, List, [], ◌∷◌, ◌++◌, Text,
  codes, text_eq, is_digit, all, get_elem?, length, ◌==◌, if◌then◌else◌, ◌>>=◌,
}
use aws.XosCons.{IntValue, int_gt, int_lt, int_same, cnd, AsmInfo, Table}
use aws.XosCons.Listing.{parse_int}

-- The first entry of a name; no entry counts as 0. An entry with a text has no integer: `none`.
unfoldable pub find_value : Text → List AsmInfo → Option IntValue
find_value name [] = some (record { positive = true; abs_value = 0 })
find_value name (info ∷ infos) = elim info.constant_name [
  | some m ↦ if text_eq name m then info.int_value else find_value name infos
  | none ↦ find_value name infos
]

-- `Get_Value`
unfoldable pub get_value : Table → Text → Option IntValue
unfolding find_value parse_int
get_value t name =
    if all is_digit name then parse_int cnd t.size_of_unsigned_int name else find_value name t.infos

abbrev pub push_first : ℕ → List Text → List Text
push_first a [] = (a ∷ []) ∷ []
push_first a (w ∷ ws) = (a ∷ w) ∷ ws

-- The slices between single spaces.
unfoldable pub slices : Text → List Text
slices [] = [] ∷ []
slices (a ∷ s) = let ws = slices s in if a == b' ' then [] ∷ ws else push_first a ws

-- The operator of a condition; any other makes it false.
unfoldable pub compare_values : Text → IntValue → IntValue → Bool
unfolding int_gt int_lt int_same
compare_values op v w =
    if text_eq op (codes ">")
    then int_gt v w
    else if text_eq op (codes "<")
    then int_lt v w
    else if text_eq op (codes "=")
    then int_same v w
    else if text_eq op (codes "/=")
    then not (int_same v w)
    else false

-- The condition of an `@IF` line: `none` where a slice or a value is missing.
unfoldable pub condition : Table → Text → Option Bool
unfolding get_value compare_values
condition t line = do
  left ← get_elem? (slices line) 1 >>= get_value t
  right ← get_elem? (slices line) 3 >>= get_value t
  op ← get_elem? (slices line) 2
  some (compare_values op left right)

-- What a line of the copied text is for the tool.
pub data LineKind : Type 0 where
  if_line else_line end_if_line plain_line : LineKind

-- `@IF ` and more
unfoldable pub is_if : Text → Bool
is_if (a ∷ b ∷ d ∷ e ∷ f ∷ s) = a == b'@' && (b == b'I' && (d == b'F' && e == b' '))
is_if _ = false

unfoldable pub line_kind : Text → LineKind
unfolding is_if
line_kind l =
    if text_eq l (codes "@END_IF")
    then end_if_line
    else if is_if l
    then if_line
    else if text_eq l (codes "@ELSE")
    then else_line
    else plain_line

-- What a call leaves: the lines that it wrote to both files, Current_Line, and the lines to come.
pub record Copied : Type 0 where
  pub written : List Text
  pub current_line : ℕ
  pub rest : List Text

abbrev pub write_line : Bool → Text → Copied → Copied
write_line res l r = if res then record r { written = l ∷ r.written } else r

abbrev pub write_lines : List Text → Copied → Copied
write_lines ls r = record r { written = ls ++ r.written }

-- The loop of `Parse_Cond`, from `Cond`, `Res` and Current_Line on. `none` is an exception: the file
-- ends before `@END_IF`, or a condition cannot be read. Each round takes a line, so as many rounds as
-- there are lines are enough.
unfoldable pub cond_loop : ℕ → Table → Bool → Bool → ℕ → List Text → Option Copied
unfolding line_kind condition
cond_loop zero t cond res line ls = none
cond_loop (suc n) t cond res line [] = none
cond_loop (suc n) t cond res line (l ∷ ls) = elim (line_kind l) [
  | end_if_line ↦ some (record { written = []; current_line = line + 1; rest = ls })
  | if_line ↦ do
    inner_cond ← condition t l
    inner ← cond_loop n t res (res && inner_cond) (line + 2) ls
    outer ← cond_loop n t cond res inner.current_line inner.rest
    some (write_lines inner.written outer)
  | else_line ↦ cond_loop n t cond (cond && not res) (line + 1) ls
  | plain_line ↦ do r ← cond_loop n t cond res (line + 1) ls; some (write_line res l r)
]

-- `Parse_Cond`, on its `@IF` line and the lines behind it.
unfoldable pub parse_cond : Table → Text → Bool → ℕ → List Text → Option Copied
unfolding condition cond_loop
parse_cond t if_text cond line ls = do
  b ← condition t if_text
  cond_loop (length ls) t cond (cond && b) (line + 1) ls
