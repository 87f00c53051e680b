-- ===== src/Hpack/Table/Items.antt =====
-- The items at the indices of both tables: `Get_Name_Value` and `Get_Name` of
-- src/http2/aws-http2-hpack-table.adb.
use aws.Base.{le→leb, lt→leb}
use aws.Base.{ℕ, ◌+◌, ◌-◌, ◌≤◌, ◌<◌, ◌≡◌, ◌⊎◌, inl, inr, arith}
use native.Mathlib.Decide.{dec_le}
use aws.Hpack.Outcome.{ok, err, protocol_error}
use aws.Hpack.Table.{NameValue, DynamicTable, element, static, d_index}
use aws.Hpack.Table.{get_name_value, get_name, static_table_size}
use aws.Hpack.Table.Keys.{element_ok}
use aws.Hpack.Table.Static.{length-static}
use aws.Hpack.Table.Invariant.{IsTable}

past_end :
    (d : DynamicTable) (index : ℕ)
    → static_table_size + d.length < index
    → (get_name_value d index ≡ err protocol_error) × (get_name d index ≡ err protocol_error)
unfolding get_name_value get_name
past_end d index over = (
  rw (
    lt→leb index static_table_size (omega arith),
    lt→leb (index - static_table_size) d.length (omega arith),
  ),
  rw (
    lt→leb index static_table_size (omega arith),
    lt→leb (index - static_table_size) d.length (omega arith),
  ),
)

-- The two places where an item stands.
pub static_item :
    (d : DynamicTable) (index : ℕ) {item : NameValue}
    → index ≤ static_table_size
    → element static.t_in index ≡ ok item
    → (get_name_value d index ≡ ok item) × (get_name d index ≡ ok item.name)
unfolding get_name_value get_name
static_item d index le e =
    (rw (le→leb index static_table_size le) e, rw (le→leb index static_table_size le, e))

pub dynamic_item :
    (d : DynamicTable) (index : ℕ) {item : NameValue}
    → static_table_size < index
    → index ≤ static_table_size + d.length
    → element d.t_in (d.length + 62 - index) ≡ ok item
    → (get_name_value d index ≡ ok item) × (get_name d index ≡ ok item.name)
unfolding get_name_value get_name d_index
dynamic_item d index above le e = (
  rw
      (
        lt→leb index static_table_size above,
        le→leb (index - static_table_size) d.length (omega arith),
      )
      e,
  rw (
    lt→leb index static_table_size above,
    le→leb (index - static_table_size) d.length (omega arith),
    e,
  ),
)

-- The item at an index, and its name.
abbrev pub HasItem : DynamicTable → ℕ → Type 0
HasItem d index =
    (item : NameValue) × (get_name_value d index ≡ ok item) × (get_name d index ≡ ok item.name)

-- An index from 1 to the number of entries in both tables has an item, and `Get_Name` has its name; a
-- larger index is a protocol error.
pub get_name_value_lem :
    (d : DynamicTable) (index : ℕ)
    → IsTable d
    → 0 < index
    → ((index ≤ static_table_size + d.length) × HasItem d index)
      ⊎ ((static_table_size + d.length < index)
          × (get_name_value d index ≡ err protocol_error)
          × (get_name d index ≡ err protocol_error))
get_name_value_lem d index table pos = elim (dec_le index static_table_size) [
  | yes low ↦ inl (omega arith, in_static low)
  | no high ↦ elim (dec_le index (static_table_size + d.length)) [
    | yes within ↦ inl (within, in_dynamic (omega arith) within)
    | no over ↦ inr (beyond (omega arith))
  ]
]
  where
    beyond :
        static_table_size + d.length < index
        → (static_table_size + d.length < index)
          × (get_name_value d index ≡ err protocol_error)
          × (get_name d index ≡ err protocol_error)
    beyond over = let (by_pair, by_name) = past_end d index over in (over, by_pair, by_name)

    in_static : index ≤ static_table_size → HasItem d index
    in_static low =
        let (item, e) = element_ok static.t_in index pos (omega (arith, length-static)) in
        let (by_pair, by_name) = static_item d index low e in (item, by_pair, by_name)

    in_dynamic : static_table_size < index → index ≤ static_table_size + d.length → HasItem d index
    in_dynamic high within =
        let (item, e) =
          element_ok d.t_in (d.length + 62 - index) (omega arith) (omega (arith, table.counted)) in
        let (by_pair, by_name) = dynamic_item d index high within e in (item, by_pair, by_name)
