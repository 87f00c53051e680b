-- ===== src/Hpack/Table/Keys.antt =====
-- The keys of the maps of src/http2/aws-http2-hpack-table.adb, and the elements of its vectors.
use aws.Base.{ℕ, zero, suc, ◌≤◌, ◌<◌, ◌≡◌, ◌≢◌, ◌⊎◌, inl, inr, refl, subst, arith}
use aws.Base.{Text, text_eq, text_eq_sound, text_eq_refl, List, [], ◌∷◌, ◌++◌, length, All, some}
use aws.Base.{Bool-cases, true}
use aws.Hpack.Outcome.{ok}
use aws.Hpack.Table.{
  NameValue, NvIndex, find, include, exclude, include_item, pair_key, has_value, element,
}

-- A key under which an item stands.
abbrev pub IsKey : Text → NameValue → Type 0
IsKey k item = (k ≡ item.name) ⊎ (k ≡ pair_key item.name item.value)

module _ (P : Text × ℕ → Type 0) where
  pub include-All :
      (key : Text) (i : ℕ) (m : NvIndex) → P (key, i) → All P m → All P (include key i m)
  unfolding include
  include-All key i [] p h = (p, tt)
  include-All key i ((k, j) ∷ m) p h = elim (Bool-cases (text_eq k key)) [
    | inl same ↦ rw same (p, h.1)
    | inr other ↦ rw other (h.0, include-All key i m p h.1)
  ]

  pub exclude-All : (key : Text) (m : NvIndex) → All P m → All P (exclude key m)
  unfolding exclude
  exclude-All key [] h = tt
  exclude-All key ((k, j) ∷ m) h = elim (Bool-cases (text_eq k key)) [
    | inl same ↦ rw same (exclude-All key m h.1)
    | inr other ↦ rw other (h.0, exclude-All key m h.1)
  ]

  pub include_item-All :
      (item : NameValue) (i : ℕ) (m : NvIndex)
      → ((k : Text) → IsKey k item → P (k, i))
      → All P m
      → All P (include_item item i m)
  unfolding include_item
  include_item-All item i m p h = elim (Bool-cases (has_value item.value)) [
    | inl some_value ↦
        rw some_value
          (include-All _ i _ (p _ (inr refl)) (include-All item.name i m (p _ (inl refl)) h))
    | inr no_value ↦ rw no_value (include-All item.name i m (p _ (inl refl)) h)
  ]

  pub All-find : (key : Text) (m : NvIndex) (i : ℕ) → find key m ≡ some i → All P m → P (key, i)
  unfolding find
  All-find key [] i e h = cc
  All-find key ((k, j) ∷ m) i e h = elim (Bool-cases (text_eq k key)) [
    | inl same ↦
        let found : j ≡ i = ground (arith, same, e) in
        subst (λ (x : Text). P (x, i)) (text_eq_sound k key same)
          (subst (λ (n : ℕ). P (k, n)) found h.0)
    | inr other ↦ All-find key m i (ground (arith, other, e)) h.1
  ]

pub exclude-ne : (key : Text) (m : NvIndex) → All (λ (p : Text × ℕ). p.0 ≢ key) (exclude key m)
unfolding exclude
exclude-ne key [] = tt
exclude-ne key ((k, j) ∷ m) = elim (Bool-cases (text_eq k key)) [
  | inl same ↦ rw same (exclude-ne key m)
  | inr other ↦
      rw other
        (λ e. let same : text_eq k key ≡ true = rw e (text_eq_refl key) in cc, exclude-ne key m)
]

pub element-append :
    (items more : List NameValue) (i : ℕ) {item : NameValue}
    → element items i ≡ ok item
    → element (items ++ more) i ≡ ok item
unfolding element
element-append items more zero e = cc
element-append [] more (suc i) e = cc
element-append (x ∷ items) more (suc zero) e = e
element-append (x ∷ items) more (suc (suc i)) e = element-append items more (suc i) e

pub element-last :
    (items : List NameValue) (item : NameValue)
    → element (items ++ (item ∷ [])) (suc (length items)) ≡ ok item
unfolding element
element-last [] item = refl
element-last (x ∷ items) item = element-last items item

-- An index from 1 to the length has an element.
pub element_ok :
    (items : List NameValue) (i : ℕ)
    → 0 < i
    → i ≤ length items
    → (item : NameValue) × (element items i ≡ ok item)
unfolding element
element_ok items zero pos le = absurd (omega arith)
element_ok [] (suc i) pos le = absurd (omega arith)
element_ok (x ∷ items) (suc zero) pos le = (x, refl)
element_ok (x ∷ items) (suc (suc i)) pos le = element_ok items (suc i) (omega arith) (omega arith)

pub element_bounds :
    (items : List NameValue) (i : ℕ) {item : NameValue}
    → element items i ≡ ok item
    → (0 < i) × (i ≤ length items)
unfolding element
element_bounds items zero e = absurd (cc)
element_bounds [] (suc i) e = absurd (cc)
element_bounds (x ∷ items) (suc zero) e = (omega arith, omega arith)
element_bounds (x ∷ items) (suc (suc i)) e =
    let (pos, le) = element_bounds items (suc i) e in (omega arith, omega arith)

pub All-element :
    (P : NameValue → Type 0) (items : List NameValue) (i : ℕ) {item : NameValue}
    → All P items
    → element items i ≡ ok item
    → P item
unfolding element
All-element P items zero h e = cc
All-element P [] (suc i) h e = cc
All-element P (x ∷ items) (suc zero) h e = subst P (cc) h.0
All-element P (x ∷ items) (suc (suc i)) h e = All-element P items (suc i) h.1 e
