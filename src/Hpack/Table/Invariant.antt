-- ===== src/Hpack/Table/Invariant.antt =====
-- The dynamic table of src/http2/aws-http2-hpack-table.adb: what `Insert` keeps, and what it evicts.
use aws.Base.{
  ℕ, zero, suc, ◌+◌, ◌-◌, ◌^◌, ◌≤◌, ◌<◌, ◌≡◌, ◌≢◌, inl, inr, refl, ap, ◌∙◌, subst, arith,
}
use aws.Base.{Text, List, [], ◌∷◌, ◌++◌, length, length-append, All, All-weaken}
use aws.Base.{Bool-cases, true, false, ltb, leb, if◌then◌else◌}
use aws.Hpack.Outcome.{Outcome, ok}
use aws.Hpack.Table.{
  NameValue, NvIndex, DynamicTable, exclude, include_item, pair_key, element, nv_size,
}
use aws.Hpack.Table.{natural, minus, clean_up, insert, to_lower}
use aws.Hpack.Table.Keys.{
  IsKey, exclude-All, exclude-ne, include_item-All, element-append, element-last,
}

-- The sum of the sizes of the items.
unfoldable pub total : List NameValue → ℕ
total [] = 0
total (item ∷ items) = nv_size item + total items

-- The key stands for the item of rank `r`, where `base` items were evicted before the first.
pub record Points (items : List NameValue) (base : ℕ) (p : Text × ℕ) : Type 0 where
  pub item : NameValue
  pub after_base : base < p.1
  pub found : element items (p.1 - base) ≡ ok item
  pub is_key : IsKey p.0 item

-- The size and the length are those of the items, and each key of the map stands for an item that
-- is in the table.
pub record IsTable (d : DynamicTable) : Type 0 where
  pub sized : d.size ≡ total d.t_in
  pub counted : d.length ≡ length d.t_in
  pub ranked : d.length ≤ d.rank
  pub indexed : All (Points d.t_in (d.rank - d.length)) d.t_ni

-- What stays of the items where the oldest are evicted until the rest has a size of at most `max`.
unfoldable pub fit : ℕ → List NameValue → List NameValue
fit max [] = []
fit max (item ∷ items) = if leb (total (item ∷ items)) max then item ∷ items else fit max items

Points-next :
    (item : NameValue) (items : List NameValue) (base : ℕ) (p : Text × ℕ)
    → p.0 ≢ item.name
    → p.0 ≢ pair_key item.name item.value
    → Points (item ∷ items) base p
    → Points items (suc base) p
unfolding element
Points-next item items base (k, r) not_name not_pair points = go (r - base) refl points.found
  where
    go :
        (n : ℕ)
        → n ≡ r - base
        → element (item ∷ items) n ≡ ok points.item
        → Points items (suc base) (k, r)
    go zero e found = absurd (omega (arith, points.after_base))
    go (suc zero) e found = elim points.is_key [
      | inl name ↦ absurd (not_name (name ∙ ap (λ (x : NameValue). x.name) same))
      | inr pair ↦ absurd (not_pair (pair ∙ ap (λ (x : NameValue). pair_key x.name x.value) same))
    ]
      where
        same : points.item ≡ item
        same = cc
    go (suc (suc n)) e found =
        let index : suc n ≡ r - suc base = omega arith in
        record {
          item = points.item;
          after_base = omega (arith, e);
          found = subst (λ (i : ℕ). element items i ≡ ok points.item) index found;
          is_key = points.is_key;
        }

Points-append :
    (items more : List NameValue) (base : ℕ) (p : Text × ℕ)
    → Points items base p
    → Points (items ++ more) base p
Points-append items more base p points = record {
  item = points.item;
  after_base = points.after_base;
  found = element-append items more (p.1 - base) points.found;
  is_key = points.is_key;
}

Points-last :
    (items : List NameValue) (item : NameValue) (base : ℕ) (k : Text)
    → IsKey k item
    → Points (items ++ (item ∷ [])) base (k, base + length items + 1)
Points-last items item base k key = record {
  item = item;
  after_base = omega arith;
  found =
      subst (λ (i : ℕ). element (items ++ (item ∷ [])) i ≡ ok item) (omega arith)
        (element-last items item);
  is_key = key;
}

-- Excluding the keys of the first item leaves those of the others.
module _ (item : NameValue) (items : List NameValue) (base : ℕ) where
  others :
      (m : NvIndex)
      → All (Points (item ∷ items) base) m
      → All (λ (p : Text × ℕ). p.0 ≢ item.name) m
      → All (λ (p : Text × ℕ). p.0 ≢ pair_key item.name item.value) m
      → All (Points items (suc base)) m
  others [] points not_name not_pair = tt
  others (p ∷ m) points not_name not_pair = (
    Points-next item items base p not_name.0 not_pair.0 points.0,
    others m points.1 not_name.1 not_pair.1,
  )

  excluded :
      (m : NvIndex)
      → All (Points (item ∷ items) base) m
      → All
          (Points items (suc base))
          (exclude (pair_key item.name item.value) (exclude item.name m))
  excluded m points =
      others _
        (exclude-All (Points (item ∷ items) base) _ _
          (exclude-All (Points (item ∷ items) base) item.name m points))
        (exclude-All (λ (p : Text × ℕ). p.0 ≢ item.name) _ _ (exclude-ne item.name m))
        (exclude-ne (pair_key item.name item.value) (exclude item.name m))

module _ (base : ℕ) (t_in : List NameValue) (t_ni : NvIndex) (size count rank : ℕ) where
  -- The variables of the loop between two rounds.
  record IsRound : Type 0 where
    sized : size ≡ total t_in
    counted : count ≡ length t_in
    ranked : rank ≡ base + count
    indexed : All (Points t_in base) t_ni

  round-IsTable :
      IsRound
      → IsTable (record { t_in = t_in; t_ni = t_ni; size = size; length = count; rank = rank })
  round-IsTable round = record {
    sized = round.sized;
    counted = round.counted;
    ranked = omega (arith, round.ranked);
    indexed =
        subst (λ (b : ℕ). All (Points t_in b) t_ni) (omega (arith, round.ranked)) round.indexed;
  }

-- The outcome is a table with the items that fit.
abbrev pub Keeps : ℕ → List NameValue → Outcome DynamicTable → Type 0
Keeps max items o =
    (d : DynamicTable) × (o ≡ ok d) × IsTable d × (d.t_in ≡ fit max items) × (d.size ≤ max)

minus_ok : (a b : ℕ) → b ≤ a → minus a b ≡ ok (a - b)
minus_ok a b h = ground arith

clean_up_lem :
    (max base : ℕ) (t_in : List NameValue) (t_ni : NvIndex) (size count rank : ℕ)
    → IsRound base t_in t_ni size count rank
    → Keeps max t_in (clean_up max t_in t_ni size count rank)
unfolding clean_up total fit
clean_up_lem max base [] t_ni size count rank round = (
  record { t_in = []; t_ni = t_ni; size = size; length = count; rank = rank },
  ground (arith, round.sized),
  round-IsTable base [] t_ni size count rank round,
  refl,
  omega (arith, round.sized),
)
clean_up_lem max base (item ∷ t_in) t_ni size count rank round = elim (Bool-cases (ltb max size)) [
  | inl large ↦
      rw
        (
          large,
          minus_ok size (nv_size item) (omega (arith, round.sized)),
          minus_ok count 1 (omega (arith, round.counted)),
          too_large large,
        )
        (clean_up_lem max (suc base) t_in
          (exclude (pair_key item.name item.value) (exclude item.name t_ni)) (size - nv_size item)
          (count - 1) rank
          (record {
            sized = omega (arith, round.sized);
            counted = omega (arith, round.counted);
            ranked = omega (arith, round.ranked, round.counted);
            indexed = excluded item t_in base t_ni round.indexed;
          }))
  | inr fits ↦ (
    record { t_in = item ∷ t_in; t_ni = t_ni; size = size; length = count; rank = rank },
    rw fits,
    round-IsTable base (item ∷ t_in) t_ni size count rank round,
    rw (small_enough fits),
    ground arith,
  )
]
  where
    too_large : ltb max size ≡ true → leb (nv_size item + total t_in) max ≡ false
    too_large h = ground (arith, round.sized)

    small_enough : ltb max size ≡ false → leb (nv_size item + total t_in) max ≡ true
    small_enough h = ground (arith, round.sized)

natural_ok : (n : ℕ) → n < 2 ^ 31 → natural n ≡ ok n
natural_ok n h = ground arith

total-append :
    (items : List NameValue) (item : NameValue)
    → total (items ++ (item ∷ [])) ≡ total items + nv_size item
unfolding total
total-append [] item = omega arith
total-append (x ∷ items) item = omega (arith, total-append items item)

-- The variables when the loop begins.
first_round :
    (d : DynamicTable) (item : NameValue)
    → IsTable d
    → IsRound
        (d.rank - d.length)
        (d.t_in ++ (item ∷ []))
        (include_item item (d.rank + 1) d.t_ni)
        (d.size + nv_size item)
        (d.length + 1)
        (d.rank + 1)
first_round d item table = record {
  sized = omega (arith, table.sized, total-append d.t_in item);
  counted = omega (arith, table.counted, length-append d.t_in (item ∷ []));
  ranked = omega (arith, table.ranked);
  indexed =
      include_item-All (Points (d.t_in ++ (item ∷ [])) (d.rank - d.length)) item (d.rank + 1) d.t_ni
        (λ k key.
          subst (λ (r : ℕ). Points (d.t_in ++ (item ∷ [])) (d.rank - d.length) (k, r))
            (omega (arith, table.ranked, table.counted))
            (Points-last d.t_in item (d.rank - d.length) k key))
        (All-weaken (Points d.t_in (d.rank - d.length))
          (Points (d.t_in ++ (item ∷ [])) (d.rank - d.length)) d.t_ni
          (Points-append d.t_in (item ∷ []) (d.rank - d.length)) table.indexed);
}

-- A header field is inserted in lower case, and the oldest items are evicted until the limit is kept:
-- the invariant holds again, and no more is evicted than has to be.
pub insert_lem :
    (max c : ℕ) (name value : Text) (d : DynamicTable)
    → IsTable d
    → d.size + nv_size (record { name = to_lower (c ∷ name); value = value }) < 2 ^ 31
    → d.rank + 1 < 2 ^ 31
    → Keeps max
        (d.t_in ++ (record { name = to_lower (c ∷ name); value = value } ∷ []))
        (insert max (c ∷ name) value d)
unfolding insert
insert_lem max c name value d table size_range rank_range =
    rw (natural_ok _ size_range, natural_ok (d.length + 1) length_range, natural_ok _ rank_range)
      (clean_up_lem max (d.rank - d.length) _ _ _ _ _
        (first_round d (record { name = to_lower (c ∷ name); value = value }) table))
  where
    length_range : d.length + 1 < 2 ^ 31
    length_range = omega (arith, table.ranked)
