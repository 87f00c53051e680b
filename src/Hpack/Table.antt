-- ===== src/Hpack/Table.antt =====
-- The static and the dynamic table of HPACK: src/http2/aws-http2-hpack-table.adb and its .ads. A
-- vector is a list, whose first element has the index 1, and an ordered map is an association list.
-- The size limit `Settings.Dynamic_Header_Table_Size` is the argument `max`.
mod Fields
mod Keys
pub mod Invariant
mod Static
pub mod Items
mod Reading
pub mod Lookup
use aws.Base.{ℕ, zero, suc, ◌+◌, ◌-◌, ◌^◌, String, Text, codes, text_eq, List, [], ◌∷◌, ◌++◌}
use aws.Base.{
  Option, none, some, Bool, true, false, ◌&&◌, ◌||◌, not, leb, ltb, ◌==◌, map, length, get_elem?,
}
use aws.Base.{if◌then◌else◌}
use aws.Hpack.Outcome.{Outcome, ok, err, ◌>>=◌, protocol_error, constraint_error}
use aws.Hpack.Table.Fields.{static_fields}

-- `Name_Value`.
pub record NameValue : Type 0 where
  pub name : Text
  pub value : Text

-- `Characters.Handling.To_Lower`, on Latin-1.
unfoldable pub lower_character : ℕ → ℕ
lower_character c =
    if (leb 65 c && leb c 90) || (leb 192 c && leb c 222 && not (c == 215)) then c + 32 else c

unfoldable pub to_lower : Text → Text
unfolding lower_character
to_lower s = map lower_character s

-- `Find`, `Include` and `Exclude` of the ordered map `T_NI`.
abbrev pub NvIndex : Type 0
NvIndex = List (Text × ℕ)

unfoldable pub find : Text → NvIndex → Option ℕ
find key [] = none
find key ((k, i) ∷ m) = if text_eq k key then some i else find key m

unfoldable pub include : Text → ℕ → NvIndex → NvIndex
include key i [] = (key, i) ∷ []
include key i ((k, j) ∷ m) = if text_eq k key then (key, i) ∷ m else (k, j) ∷ include key i m

unfoldable pub exclude : Text → NvIndex → NvIndex
exclude key [] = []
exclude key ((k, i) ∷ m) =
    let others = exclude key m in if text_eq k key then others else (k, i) ∷ others

-- `N & '=' & V`.
abbrev pub pair_key : Text → Text → Text
pair_key n v = n ++ (b'=' ∷ v)

-- `V /= ""`.
abbrev pub has_value : Text → Bool
has_value [] = false
has_value (c ∷ v) = true

-- The keys of an item: its name, and its name with its value where it has one.
unfoldable pub include_item : NameValue → ℕ → NvIndex → NvIndex
unfolding include
include_item item i m =
    if has_value item.value
    then include (pair_key item.name item.value) i (include item.name i m)
    else include item.name i m

-- `Static_Table`, and `Dynamic_Table`.
pub record StaticTable : Type 0 where
  pub t_in : List NameValue
  pub t_ni : NvIndex

pub record DynamicTable : Type 0 where
  pub t_in : List NameValue
  pub t_ni : NvIndex
  pub size : ℕ
  pub length : ℕ
  pub rank : ℕ

abbrev pub cleared : DynamicTable
cleared = record { t_in = []; t_ni = []; size = 0; length = 0; rank = 0 }

-- `Insert_Static`, and the table that its calls make.
unfoldable pub insert_static : Text → Text → StaticTable → StaticTable
unfolding include_item
insert_static name value t =
    let item : NameValue = record { name = name; value = value } in
    let t_in = t.t_in ++ (item ∷ []) in
    record { t_in = t_in; t_ni = include_item item (aws.Base.length t_in) t.t_ni }

unfoldable pub insert_fields : List (String × String) → StaticTable → StaticTable
unfolding insert_static
insert_fields [] t = t
insert_fields ((name, value) ∷ fields) t =
    insert_fields fields (insert_static (codes name) (codes value) t)

unfoldable pub static : StaticTable
unfolding insert_fields static_fields
static = insert_fields static_fields (record { t_in = []; t_ni = [] })

abbrev pub static_table_size : ℕ
static_table_size = 61

-- A result of the subtype `Natural`, and the difference of two.
abbrev pub natural : ℕ → Outcome ℕ
natural n = if ltb n (2 ^ 31) then ok n else err constraint_error

abbrev pub minus : ℕ → ℕ → Outcome ℕ
minus a b = if leb b a then ok (a - b) else err constraint_error

unfoldable pub nv_size : NameValue → ℕ
nv_size item = aws.Base.length item.name + aws.Base.length item.value + 32

-- `Self.Dynamic.T_IN (Index)`.
unfoldable pub element : List NameValue → ℕ → Outcome NameValue
element items zero = err constraint_error
element [] (suc i) = err constraint_error
element (item ∷ items) (suc zero) = ok item
element (item ∷ items) (suc (suc i)) = element items (suc i)

-- `D_Index`; its callers have `Index - 61 <= Length`.
unfoldable pub d_index : DynamicTable → ℕ → ℕ
d_index d index = d.length + 62 - index

unfoldable pub get_name_value : DynamicTable → ℕ → Outcome NameValue
get_name_value d index =
    if leb index static_table_size
    then element static.t_in index
    else if leb (index - static_table_size) d.length
    then element d.t_in (d_index d index)
    else err protocol_error

-- `Get_Name` takes the same branches, and only the name.
unfoldable pub get_name : DynamicTable → ℕ → Outcome Text
get_name d index =
    if leb index static_table_size
    then element static.t_in index >>= (λ item. ok item.name)
    else if leb (index - static_table_size) d.length
    then element d.t_in (d_index d index) >>= (λ item. ok item.name)
    else err protocol_error

-- The loop of `Clean_Up`. It ends where the table is empty, since its first element is asked for.
unfoldable pub clean_up : ℕ → List NameValue → NvIndex → ℕ → ℕ → ℕ → Outcome DynamicTable
unfolding exclude nv_size
clean_up max [] t_ni size length rank =
    if ltb max size
    then err constraint_error
    else ok (record { t_in = []; t_ni = t_ni; size = size; length = length; rank = rank })
clean_up max (item ∷ t_in) t_ni size length rank =
    (let more = minus size (nv_size item) >>= λ size'. minus length 1 >>= λ length'.
    clean_up max t_in (exclude (pair_key item.name item.value) (exclude item.name t_ni)) size'
      length' rank in
      if ltb max size
      then more
      else ok
          (record { t_in = item ∷ t_in; t_ni = t_ni; size = size; length = length; rank = rank }))

-- `Insert`. The discriminant `N_Length` is `Positive`, so the name may not be empty.
unfoldable pub insert : ℕ → Text → Text → DynamicTable → Outcome DynamicTable
unfolding clean_up nv_size include_item to_lower
insert max [] value d = err constraint_error
insert max (c ∷ name) value d =
    let item : NameValue = record { name = to_lower (c ∷ name); value = value } in
    natural (d.size + nv_size item) >>= λ size. natural (d.length + 1) >>= λ length.
    natural (d.rank + 1) >>= λ rank.
    clean_up max (d.t_in ++ (item ∷ [])) (include_item item rank d.t_ni) size length rank

-- `for With_Value in reverse False .. Has_Value loop`: the key with the value first, then the name.
-- The answer has the index and `With_Value`.
unfoldable pub find_key : Text → Text → NvIndex → Option (ℕ × Bool)
unfolding find
find_key n value m =
    let by_name : Option (ℕ × Bool) = elim (find n m) [ some i ↦ some (i, false) | none ↦ none ] in
    if has_value value
    then elim (find (pair_key n value) m) [ some i ↦ some (i, true) | none ↦ by_name ]
    else by_name

-- `Get_Name_Value_Index`: the table after it, the index and `Both`.
unfoldable pub get_name_value_index :
    ℕ → Text → Text → DynamicTable → Outcome (DynamicTable × ℕ × Bool)
get_name_value_index max name value d = elim (find_key (to_lower name) value static.t_ni) [
  | some (i, both) ↦ ok (d, i, both)
  | none ↦ elim (find_key (to_lower name) value d.t_ni) [
    | some (r, both) ↦ ok (d, d.rank - r + static_table_size + 1, both)
    | none ↦ insert max name value d >>= λ d'. ok (d', 0, false)
  ]
]
