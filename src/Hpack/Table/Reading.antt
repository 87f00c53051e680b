-- ===== src/Hpack/Table/Reading.antt =====
-- What a key that is found in a map of src/http2/aws-http2-hpack-table.adb stands for.
use aws.Base.{ℕ, ◌≡◌, inl, inr, refl, sym, ap, ◌∙◌, subst}
use aws.Base.{Text, IsFree, cut, cut-append, [], ◌∷◌, ◌++◌, All, Option, none, some}
use aws.Base.{Bool, Bool-cases, true, false, if◌then◌else◌}
use aws.Hpack.Table.{NameValue, NvIndex, pair_key, has_value, find, find_key}
use aws.Hpack.Table.Keys.{IsKey, All-find}

some_inj {ℓ} : {A : Type ℓ} {a b : A} → some a ≡ some b → a ≡ b
some_inj h = cc

-- The keys of the map are as the index that is found says.
pub find_key_lem :
    (Q : Text × ℕ → Type 0) (n value : Text) (m : NvIndex) (i : ℕ) (both : Bool)
    → All Q m
    → find_key n value m ≡ some (i, both)
    → Q (if both then pair_key n value else n, i)
unfolding find_key
find_key_lem Q n value m i both h e = elim (Bool-cases (has_value value)) [
  | inl valued ↦ pair_first (find (pair_key n value) m) refl (rw valued at e)
  | inr plain ↦ by_name (find n m) refl (rw plain at e)
]
  where
    answer :
        (j : ℕ) (b : Bool)
        → ◌≡◌ {A = Option (ℕ × Bool)} (some (j, b)) (some (i, both))
        → Q (if b then pair_key n value else n, j)
        → Q (if both then pair_key n value else n, i)
    answer j b g q =
        subst (λ (x : ℕ × Bool). Q (if x.1 then pair_key n value else n, x.0)) (some_inj g) q

    by_name :
        (o : Option ℕ)
        → find n m ≡ o
        → ◌≡◌ {A = Option (ℕ × Bool)}
            (elim o [ some j ↦ some (j, false) | none ↦ none ])
            (some (i, both))
        → Q (if both then pair_key n value else n, i)
    by_name none at_name g = cc
    by_name (some j) at_name g = answer j false g (All-find Q n m j at_name h)

    pair_first :
        (o : Option ℕ)
        → find (pair_key n value) m ≡ o
        → ◌≡◌ {A = Option (ℕ × Bool)}
            (elim o [
              | some j ↦ some (j, true)
              | none ↦ elim (find n m) [ some j ↦ some (j, false) | none ↦ none ]
            ])
            (some (i, both))
        → Q (if both then pair_key n value else n, i)
    pair_first none at_pair g = by_name (find n m) refl g
    pair_first (some j) at_pair g = answer j true g (All-find Q (pair_key n value) m j at_pair h)

not-IsFree : (a b : Text) → ¬ IsFree b'=' (a ++ (b'=' ∷ b))
not-IsFree [] b h = h.0 refl
not-IsFree (x ∷ a) b h = not-IsFree a b h.1

-- A name without the separator is no key with a value, and such a key has one reading.
pub IsKey-name : (n : Text) (item : NameValue) → IsFree b'=' n → IsKey n item → item.name ≡ n
IsKey-name n item free (inl name) = sym name
IsKey-name n item free (inr pair) =
    absurd (not-IsFree item.name item.value (subst (IsFree b'=') pair free))

pub IsKey-pair :
    (n value : Text) (item : NameValue)
    → IsFree b'=' n
    → IsFree b'=' item.name
    → IsKey (pair_key n value) item
    → (item.name ≡ n) × (item.value ≡ value)
IsKey-pair n value item free item_free (inl name) =
    absurd (not-IsFree n value (subst (IsFree b'=') (sym name) item_free))
IsKey-pair n value item free item_free (inr pair) =
    (ap (λ (x : Text × Text). x.0) (sym parts), ap (λ (x : Text × Text). x.1) (sym parts))
  where
    parts : ◌≡◌ {A = Text × Text} (n, value) (item.name, item.value)
    parts =
        sym (cut-append b'=' n value free)
        ∙ ap (cut b'=') pair
        ∙ cut-append b'=' item.name item.value item_free
