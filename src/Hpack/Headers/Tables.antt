-- ===== src/Hpack/Headers/Tables.antt =====
-- What the table keeps while header fields go through it: src/http2/aws-http2-hpack-table.adb.
use aws.Base.{ℕ, suc, ◌+◌, ◌-◌, ◌^◌, ◌≤◌, ◌<◌, ◌≡◌, sym, ap, ◌∙◌, subst, arith}
use aws.Base.{Text, List, [], ◌∷◌, ◌++◌, length, All, All-append, IsFree, Bool-cases, leb, inl, inr}
use aws.Base.{◌*◌, ◌⊎◌}
use aws.Hpack.Outcome.{protocol_error, ok, err}
use aws.Hpack.Table.{
  NameValue, NvIndex, DynamicTable, clean_up, include_item, insert, to_lower, nv_size, exclude,
  pair_key, static_table_size, get_name_value, get_name,
}
use aws.Hpack.Table.Invariant.{IsTable, insert_lem, fit, total}
use aws.Hpack.Table.Items.{get_name_value_lem, HasItem}

fit-All :
    (P : NameValue → Type 0) (max : ℕ) (items : List NameValue)
    → All P items
    → All P (fit max items)
unfolding fit
fit-All P max [] h = tt
fit-All P max (item ∷ items) h = elim (Bool-cases (leb (total (item ∷ items)) max)) [
  | inl fits ↦ rw fits h
  | inr large ↦ rw large (fit-All P max items h.1)
]

clean_up-rank :
    (max : ℕ) (t_in : List NameValue) (t_ni : NvIndex) (size count rank : ℕ) (d : DynamicTable)
    → clean_up max t_in t_ni size count rank ≡ ok d
    → d.rank ≡ rank
unfolding clean_up
clean_up-rank max [] t_ni size count rank d e = ground (arith, e)
clean_up-rank max (item ∷ t_in) t_ni size count rank d e = ground (
  arith,
  e,
  clean_up-rank max t_in (exclude (pair_key item.name item.value) (exclude item.name t_ni))
      (size - nv_size item) (count - 1) rank d,
)

-- A header field can go through the table: its name is in lower case and has no '='.
pub record IsField (max : ℕ) (item : NameValue) : Type 0 where
  pub some_name : 0 < length item.name
  pub lower : to_lower item.name ≡ item.name
  pub name_free : IsFree b'=' item.name
  pub sized : max + nv_size item < 2 ^ 31

-- The table keeps its invariant, its limit and names without '=', and has room for the ranks of
-- `left` more fields.
pub record IsReady (max left : ℕ) (d : DynamicTable) : Type 0 where
  pub table : IsTable d
  pub names_free : All (λ item. IsFree b'=' item.name) d.t_in
  pub small : d.size ≤ max
  pub ranks : d.rank + left < 2 ^ 31

insert-rank :
    (max c : ℕ) (name value : Text) (d d' : DynamicTable)
    → insert max (c ∷ name) value d ≡ ok d'
    → d'.rank ≡ d.rank + 1
unfolding insert
insert-rank max c name value d d' e = ground (
  arith,
  e,
  clean_up-rank max (d.t_in ++ (record { name = to_lower (c ∷ name); value = value } ∷ []))
      (include_item (record { name = to_lower (c ∷ name); value = value }) (d.rank + 1) d.t_ni)
      (d.size + nv_size (record { name = to_lower (c ∷ name); value = value })) (d.length + 1)
      (d.rank + 1) d',
)

insert-IsReady_named :
    (max left c : ℕ) (name value : Text) (d : DynamicTable)
    → to_lower (c ∷ name) ≡ c ∷ name
    → IsFree b'=' (c ∷ name)
    → max + nv_size (record { name = c ∷ name; value = value }) < 2 ^ 31
    → IsReady max (suc left) d
    → (d' : DynamicTable) × (insert max (c ∷ name) value d ≡ ok d') × IsReady max left d'
insert-IsReady_named max left c name value d lower free sized ready =
    let (d', inserted, table, kept, small) =
      insert_lem max c name value d ready.table (rw lower (omega (arith, ready.small, sized)))
        (omega (arith, ready.ranks)) in
    (
      d',
      inserted,
      record {
        table = table;
        names_free = subst (All (λ item. IsFree b'=' item.name)) (sym kept) (
            fit-All (λ item. IsFree b'=' item.name) max _
              (All-append (λ (item : NameValue). IsFree b'=' item.name) d.t_in _ ready.names_free
                (rw lower (free, tt))));
        small = small;
        ranks = omega (arith, ready.ranks, insert-rank max c name value d d' inserted);
      },
    )

-- A field is inserted, and the table is ready for the fields that are left.
pub insert-IsReady :
    (max left : ℕ) (name value : Text) (d : DynamicTable)
    → IsField max (record { name = name; value = value })
    → IsReady max (suc left) d
    → (d' : DynamicTable) × (insert max name value d ≡ ok d') × IsReady max left d'
insert-IsReady max left [] value d field ready = absurd (omega (arith, field.some_name))
insert-IsReady max left (c ∷ name) value d field ready =
    insert-IsReady_named max left c name value d field.lower field.name_free field.sized ready

total-length : (items : List NameValue) → 32 * length items ≤ total items
unfolding total nv_size
total-length [] = omega arith
total-length (item ∷ items) = omega (arith, total-length items)

-- An index that has an item is a `Positive`, and `Get_Name` has the name of the item.
pub index_item :
    (max left index : ℕ) (d : DynamicTable) {item : NameValue}
    → IsReady max left d
    → max < 2 ^ 31 - 32
    → 0 < index
    → get_name_value d index ≡ ok item
    → (index < 2 ^ 31) × (get_name d index ≡ ok item.name)
index_item max left index d {item} ready limit pos found =
    go (get_name_value_lem d index ready.table pos)
  where
    go :
        ((index ≤ static_table_size + d.length) × HasItem d index)
          ⊎ ((static_table_size + d.length < index)
              × (get_name_value d index ≡ err protocol_error)
              × (get_name d index ≡ err protocol_error))
        → (index < 2 ^ 31) × (get_name d index ≡ ok item.name)
    go (inr (over, by_pair, by_name)) = absurd (cc)
    go (inl (within, (other, by_pair, by_name))) = (
      omega (
        arith,
        within,
        limit,
        ready.small,
        ready.table.sized,
        ready.table.counted,
        total-length d.t_in,
      ),
      by_name ∙ ap (λ (x : NameValue). ok x.name) same,
    )
      where
        same : other ≡ item
        same = cc

-- An item has a size of 32 at least.
pub nv_size_pos : (item : NameValue) → 32 ≤ nv_size item
unfolding nv_size
nv_size_pos item = omega arith
