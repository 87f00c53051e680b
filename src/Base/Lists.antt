-- ===== src/Base/Lists.antt =====
-- Lists over the native numbers, a predicate on all items, and subsequences.
use Prim.Native.Nat.{ℕ, zero, suc, ◌+◌}
use mathlib.Core.Path.{◌≡◌}
use mathlib.Core.Bool.{Bool, true, ◌&&◌}
use mathlib.Core.List.{List, [], ◌∷◌, ◌++◌, map}
use mathlib.Core.Option.{Option, none, some}
use native.Mathlib.Omega.{arith}

module _ {ℓ} {A : Type ℓ} where
  abbrev pub length : List A → ℕ
  length [] = 0
  length (x ∷ xs) = suc (length xs)

  abbrev pub get_elem? : List A → ℕ → Option A
  get_elem? [] i = none
  get_elem? (x ∷ xs) zero = some x
  get_elem? (x ∷ xs) (suc i) = get_elem? xs i

  -- A write out of bounds changes nothing.
  abbrev pub set : List A → ℕ → A → List A
  set [] i v = []
  set (x ∷ xs) zero v = v ∷ xs
  set (x ∷ xs) (suc i) v = x ∷ set xs i v

  pub length-append : (xs ys : List A) → length (xs ++ ys) ≡ length xs + length ys
  length-append [] ys = omega arith
  length-append (x ∷ xs) ys = omega (arith, length-append xs ys)

-- A predicate on all items, by recursion: it computes to tuples.
abbrev pub All {ℓ κ} : {A : Type ℓ} → (A → Type κ) → List A → Type κ
All P [] = Unit
All P (x ∷ xs) = P x × All P xs

-- The first list is the second with some of its items left out, in the same order.
pub data Sub {ℓ} {A : Type ℓ} : List A → List A → Type ℓ where
  done : Sub [] []
  keep : {x : A} {xs ys : List A} → Sub xs ys → Sub (x ∷ xs) (x ∷ ys)
  skip : {y : A} {xs ys : List A} → Sub xs ys → Sub xs (y ∷ ys)

module _ {ℓ} {A : Type ℓ} where
  pub Sub-nil : (ys : List A) → Sub [] ys
  Sub-nil [] = done
  Sub-nil (y ∷ ys) = skip (Sub-nil ys)

  pub Sub-refl : (xs : List A) → Sub xs xs
  Sub-refl [] = done
  Sub-refl (x ∷ xs) = keep (Sub-refl xs)

  pub Sub-append : {xs ys us vs : List A} → Sub xs ys → Sub us vs → Sub (xs ++ us) (ys ++ vs)
  Sub-append done t = t
  Sub-append (keep s) t = keep (Sub-append s t)
  Sub-append (skip s) t = skip (Sub-append s t)

  pub Sub-All {κ} : (P : A → Type κ) {xs ys : List A} → Sub xs ys → All P ys → All P xs
  Sub-All P done h = tt
  Sub-All P (keep s) h = (h.0, Sub-All P s h.1)
  Sub-All P (skip s) h = Sub-All P s h.1

-- A relation between each item and every later one.
abbrev pub AllPairs {ℓ κ} : {A : Type ℓ} → (A → A → Type κ) → List A → Type κ
AllPairs R [] = Unit
AllPairs R (x ∷ xs) = All (R x) xs × AllPairs R xs

module _ {ℓ κ} {A : Type ℓ} where
  pub Sub-AllPairs :
      (R : A → A → Type κ) {xs ys : List A} → Sub xs ys → AllPairs R ys → AllPairs R xs
  Sub-AllPairs R done h = tt
  Sub-AllPairs R (keep s) h = (Sub-All (R _) s h.0, Sub-AllPairs R s h.1)
  Sub-AllPairs R (skip s) h = Sub-AllPairs R s h.1

  pub All-map {ν} :
      {B : Type ν} (P : A → Type κ) (f : B → A) (xs : List B)
      → All P (map f xs)
      → All (λ x. P (f x)) xs
  All-map P f [] h = tt
  All-map P f (x ∷ xs) h = (h.0, All-map P f xs h.1)

  pub AllPairs-map {ν} :
      {B : Type ν} (R : A → A → Type κ) (f : B → A) (xs : List B)
      → AllPairs R (map f xs)
      → AllPairs (λ x y. R (f x) (f y)) xs
  AllPairs-map R f [] h = tt
  AllPairs-map R f (x ∷ xs) h = (All-map (R (f x)) f xs h.0, AllPairs-map R f xs h.1)

-- The same relations as tests, and what a passed test shows.
unfoldable pub all {ℓ} : {A : Type ℓ} → (A → Bool) → List A → Bool
all p [] = true
all p (x ∷ xs) = p x && all p xs

unfoldable pub all_pairs {ℓ} : {A : Type ℓ} → (A → A → Bool) → List A → Bool
unfolding all
all_pairs r [] = true
all_pairs r (x ∷ xs) = all (r x) xs && all_pairs r xs

module _ {ℓ κ} {A : Type ℓ} where
  pub all_sound :
      (P : A → Type κ) (p : A → Bool)
      → ((x : A) → p x ≡ true → P x)
      → (xs : List A) → all p xs ≡ true
      → All P xs
  unfolding all
  all_sound P p h [] e = tt
  all_sound P p h (x ∷ xs) e = (h x (ground arith), all_sound P p h xs (ground arith))

  pub all_pairs_sound :
      (R : A → A → Type κ) (r : A → A → Bool)
      → ((x y : A) → r x y ≡ true → R x y)
      → (xs : List A) → all_pairs r xs ≡ true
      → AllPairs R xs
  unfolding all_pairs
  all_pairs_sound R r h [] e = tt
  all_pairs_sound R r h (x ∷ xs) e =
      (all_sound (R x) (r x) (h x) xs (ground arith), all_pairs_sound R r h xs (ground arith))

-- Membership that keeps the position.
pub data In {ℓ} {A : Type ℓ} (a : A) : List A → Type ℓ where
  here : {xs : List A} → In a (a ∷ xs)
  there : {x : A} {xs : List A} → In a xs → In a (x ∷ xs)

module _ {ℓ} {A : Type ℓ} where
  pub In-append_left : {a : A} {xs : List A} (ys : List A) → In a xs → In a (xs ++ ys)
  In-append_left ys here = here
  In-append_left ys (there m) = there (In-append_left ys m)

  pub In-append_right : {a : A} (xs : List A) {ys : List A} → In a ys → In a (xs ++ ys)
  In-append_right [] m = m
  In-append_right (x ∷ xs) m = there (In-append_right xs m)

  pub All-In {κ} : (P : A → Type κ) {a : A} {xs : List A} → All P xs → In a xs → P a
  All-In P h here = h.0
  All-In P h (there m) = All-In P h.1 m

pub map_All {ℓ κ} :
    {A : Type ℓ} {P : A → Type κ} (xs : List A) → ((x : A) → In x xs → P x) → All P xs
map_All [] f = tt
map_All (x ∷ xs) f = (f x here, map_All xs (λ y i. f y (there i)))
