-- ===== src/Hpack/Table/Lookup.antt =====
-- What the indices of src/http2/aws-http2-hpack-table.adb stand for: `Get_Name_Value_Index` and
-- `Get_Name_Value` agree.
use aws.Base.{ℕ, ◌+◌, ◌-◌, ◌^◌, ◌≤◌, ◌<◌, ◌≡◌, ◌⊎◌, inl, inr, refl, subst, arith}
use aws.Base.{Text, IsFree, ◌∷◌, length, All, Option, none, some}
use aws.Base.{◌≢◌, leb, Option-cases}
use aws.Base.{Bool, true, false, if◌then◌else◌}
use aws.Hpack.Outcome.{Outcome, ok, ◌>>=◌}
use aws.Hpack.Table.{
  NvIndex, find, has_value, NameValue, DynamicTable, pair_key, element, static, find_key,
}
use aws.Hpack.Table.{
  get_name_value, nv_size, get_name_value_index, insert, to_lower, static_table_size,
}
use aws.Hpack.Table.Keys.{IsKey, element_bounds, All-element}
use aws.Hpack.Table.Static.{static_absent, StaticPoint, static_indexed}
use aws.Hpack.Table.Invariant.{IsTable, Points, insert_lem}
use aws.Hpack.Table.Items.{static_item, dynamic_item}
use aws.Hpack.Table.Reading.{find_key_lem, IsKey-name, IsKey-pair}

-- Whether an index is that of an entry with the name, and with the value where `both` is set.
abbrev pub Matches : DynamicTable → Text → Text → ℕ → Bool → Type 0
Matches d n value index both =
    (item : NameValue) × (get_name_value d index ≡ ok item)
    × (item.name ≡ n)
    × ((both ≡ false) ⊎ (item.value ≡ value))

IsKey-Matches :
    (d : DynamicTable) (n value : Text) (index : ℕ) (both : Bool) (item : NameValue)
    → IsFree b'=' n
    → IsFree b'=' item.name
    → get_name_value d index ≡ ok item
    → IsKey (if both then pair_key n value else n) item
    → Matches d n value index both
IsKey-Matches d n value index true item free item_free found key =
    let (same_name, same_value) = IsKey-pair n value item free item_free key in
    (item, found, same_name, inr same_value)
IsKey-Matches d n value index false item free item_free found key =
    (item, found, IsKey-name n item free key, inl refl)

-- The index of the item of rank `r`.
dynamic_found :
    (d : DynamicTable) (p : Text × ℕ)
    → IsTable d
    → (points : Points d.t_in (d.rank - d.length) p)
    → get_name_value d (d.rank - p.1 + static_table_size + 1) ≡ ok points.item
dynamic_found d p table points =
    (dynamic_item d (d.rank - p.1 + static_table_size + 1) (omega arith)
      (omega (arith, points.after_base, table.ranked, bounds.0, bounds.1, table.counted))
      (subst (λ (i : ℕ). element d.t_in i ≡ ok points.item)
        (omega (arith, points.after_base, table.ranked, bounds.1, table.counted)) points.found)).0
  where
    bounds : (0 < p.1 - (d.rank - d.length)) × (p.1 - (d.rank - d.length) ≤ length d.t_in)
    bounds = element_bounds d.t_in (p.1 - (d.rank - d.length)) points.found

-- The map of the table that an index is for.
abbrev pub map_of : DynamicTable → ℕ → NvIndex
map_of d index = if leb index static_table_size then static.t_ni else d.t_ni

-- Where `both` is not set, the name with the value is not in the map.
abbrev pub IsBest : NvIndex → Text → Text → Bool → Type 0
IsBest m n value both = both ≡ false → has_value value ≡ true → find (pair_key n value) m ≡ none

-- No entry of the static table has the name, nor the map of the dynamic table.
abbrev pub IsAbsent : DynamicTable → Text → Type 0
IsAbsent d n = All (λ item. item.name ≢ n) static.t_in × (find n d.t_ni ≡ none)

find_key-IsBest :
    (n value : Text) (m : NvIndex) {i : ℕ} {both : Bool}
    → find_key n value m ≡ some (i, both)
    → IsBest m n value both
unfolding find_key
find_key-IsBest n value m found by_name valued = elim (Option-cases (find (pair_key n value) m)) [
  | inl missing ↦ missing
  | inr (j, there) ↦ absurd (differ (rw (valued, there) at found) by_name)
]
  where
    differ :
        {j i : ℕ} {b : Bool}
        → ◌≡◌ {A = Option (ℕ × Bool)} (some (j, true)) (some (i, b))
        → b ≢ false
    differ e same = cc

find_key-none : (n value : Text) (m : NvIndex) → find_key n value m ≡ none → find n m ≡ none
unfolding find_key
find_key-none n value m missing = elim (Option-cases (find n m)) [
  | inl absent ↦ absent
  | inr (i, there) ↦ ground (arith, missing, there)
]

-- The answer of `Get_Name_Value_Index`: the table as it was, and an index from 1 on, of an entry with
-- the name and, where `both` is set, the value, which the map has not where it is not set; or 0 and the
-- table with the field inserted, whose name neither table has.
abbrev pub Answers : ℕ → Text → Text → DynamicTable → DynamicTable × ℕ × Bool → Type 0
Answers max name value d (d', index, both) =
    ((d' ≡ d)
      × (0 < index)
      × IsBest (map_of d index) (to_lower name) value both
      × Matches d (to_lower name) value index both)
    ⊎ ((insert max name value d ≡ ok d')
        × (index ≡ 0)
        × (both ≡ false)
        × IsAbsent d (to_lower name))

-- The outcome is such an answer, with a table that keeps the invariant.
abbrev Answered : ℕ → Text → Text → DynamicTable → Outcome (DynamicTable × ℕ × Bool) → Type 0
Answered max name value d o =
    (answer : DynamicTable × ℕ × Bool) × (o ≡ ok answer)
    × Answers max name value d answer
    × IsTable answer.0

le_leb : (i : ℕ) → i ≤ static_table_size → leb i static_table_size ≡ true
le_leb i h = ground arith

beyond : (i : ℕ) → leb (i + static_table_size + 1) static_table_size ≡ false
beyond i = ground arith

module _ (max : ℕ) (name value : Text) (d : DynamicTable) (table : IsTable d)
    (items_free : All (λ item. IsFree b'=' item.name) d.t_in)
    (free : IsFree b'=' (to_lower name)) where
  at_static :
      (i : ℕ) (b : Bool)
      → find_key (to_lower name) value static.t_ni ≡ some (i, b)
      → Answers max name value d (d, i, b)
  unfolding StaticPoint
  at_static i b found =
      let (item, at_index, key, item_free, le) =
        find_key_lem StaticPoint (to_lower name) value static.t_ni i b static_indexed found in
      let (pos, within) = element_bounds static.t_in i at_index in
      inl (
        refl,
        pos,
        rw (le_leb i le) (find_key-IsBest (to_lower name) value static.t_ni found),
        IsKey-Matches d (to_lower name) value i b item free item_free
            (static_item d i le at_index).0 key,
      )

  at_dynamic :
      (r : ℕ) (b : Bool)
      → find_key (to_lower name) value d.t_ni ≡ some (r, b)
      → Answers max name value d (d, d.rank - r + static_table_size + 1, b)
  at_dynamic r b found =
      let points =
        find_key_lem (Points d.t_in (d.rank - d.length)) (to_lower name) value d.t_ni r b
          table.indexed found in
      inl (
        refl,
        omega arith,
        rw (beyond (d.rank - r)) (find_key-IsBest (to_lower name) value d.t_ni found),
        IsKey-Matches d (to_lower name) value _ b points.item free
            (All-element (λ item. IsFree b'=' item.name) d.t_in _ items_free points.found)
            (dynamic_found d _ table points) points.is_key,
      )

  by_dynamic :
      {d' : DynamicTable}
      → insert max name value d ≡ ok d'
      → IsTable d'
      → find_key (to_lower name) value static.t_ni ≡ none
      → (o : Option (ℕ × Bool)) → find_key (to_lower name) value d.t_ni ≡ o
      → Answered max name value d (elim o [
        | some (r, both) ↦ ok (d, d.rank - r + static_table_size + 1, both)
        | none ↦ insert max name value d >>= λ t. ok (t, 0, false)
      ])
  by_dynamic {d'} g table' new (some (r, b)) found =
      ((d, d.rank - r + static_table_size + 1, b), refl, at_dynamic r b found, table)
  by_dynamic {d'} g table' new none found = (
    (d', 0, false),
    rw g,
    inr (
      g,
      refl,
      refl,
      (
        static_absent (to_lower name) (find_key-none (to_lower name) value static.t_ni new),
        find_key-none (to_lower name) value d.t_ni found,
      ),
    ),
    table',
  )

  by_static :
      {d' : DynamicTable}
      → insert max name value d ≡ ok d'
      → IsTable d'
      → (o : Option (ℕ × Bool)) → find_key (to_lower name) value static.t_ni ≡ o
      → Answered max name value d (elim o [
        | some (i, both) ↦ ok (d, i, both)
        | none ↦ elim (find_key (to_lower name) value d.t_ni) [
          | some (r, both) ↦ ok (d, d.rank - r + static_table_size + 1, both)
          | none ↦ insert max name value d >>= λ t. ok (t, 0, false)
        ]
      ])
  by_static {d'} g table' (some (i, b)) found = ((d, i, b), refl, at_static i b found, table)
  by_static {d'} g table' none found =
      by_dynamic g table' found (find_key (to_lower name) value d.t_ni) refl

-- Where the table is well-formed, the name is not empty, no name has a '=', and the counters of the
-- table do not overflow, `Get_Name_Value_Index` returns. Either it leaves the table as it is, and
-- the index is that of an entry with the name in lower case, and with the value if `Both` is set;
-- if it is not, the map of the index's table has no such name with that value. Or the index is 0,
-- `Both` is not set, no entry of the static table and no key of the dynamic one is the name, and
-- the field is inserted. The table after it keeps the invariant.
pub get_name_value_index_lem :
    (max c : ℕ) (name value : Text) (d : DynamicTable)
    → IsTable d
    → All (λ item. IsFree b'=' item.name) d.t_in
    → IsFree b'=' (to_lower (c ∷ name))
    → d.size + nv_size (record { name = to_lower (c ∷ name); value = value }) < 2 ^ 31
    → d.rank + 1 < 2 ^ 31
    → (answer : DynamicTable × ℕ × Bool) × (get_name_value_index max (c ∷ name) value d ≡ ok answer)
      × Answers max (c ∷ name) value d answer
      × IsTable answer.0
unfolding get_name_value_index
get_name_value_index_lem max c name value d table items_free free size_range rank_range =
    let (d', g, table', kept, small) = insert_lem max c name value d table size_range rank_range in
    by_static max (c ∷ name) value d table items_free free g table'
      (find_key (to_lower (c ∷ name)) value static.t_ni) refl
