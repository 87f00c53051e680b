-- ===== src/Base/Edits.antt =====
-- The first items of a list, its writes and its images, in each other's way.
use mathlib.Core.Option
use mathlib.Core.Option.{none}
use Prim.Native.Nat.{ℕ, zero, suc, ◌≤◌, ◌<◌}
use mathlib.Core.Path.{◌≡◌, refl, ap}
use mathlib.Core.List.{List, [], ◌∷◌, ◌++◌, map}
use native.Mathlib.Omega.{arith}
use aws.Base.Lists.{length, get_elem?, set}
use aws.Base.Slices.{take}

module _ {ℓ} {A : Type ℓ} where
  pub take-set : (n i : ℕ) (xs : List A) (y : A) → take n (set xs i y) ≡ set (take n xs) i y
  take-set zero i xs y = refl
  take-set (suc n) i [] y = refl
  take-set (suc n) zero (x ∷ xs) y = refl
  take-set (suc n) (suc i) (x ∷ xs) y = ap (◌∷◌ x) (take-set n i xs y)

  pub take-set_self :
      (n : ℕ) (xs : List A) (y : A)
      → n < length xs
      → take (suc n) (set xs n y) ≡ take n xs ++ (y ∷ [])
  take-set_self n [] y h = absurd (omega arith)
  take-set_self zero (x ∷ xs) y h = refl
  take-set_self (suc n) (x ∷ xs) y h = ap (◌∷◌ x) (take-set_self n xs y (omega arith))

  pub take-take : (m n : ℕ) (xs : List A) → m ≤ n → take m (take n xs) ≡ take m xs
  take-take zero n xs h = refl
  take-take (suc m) zero xs h = absurd (omega arith)
  take-take (suc m) (suc n) [] h = refl
  take-take (suc m) (suc n) (x ∷ xs) h = ap (◌∷◌ x) (take-take m n xs (omega arith))

  pub set-take_out : (n : ℕ) (xs : List A) (y : A) → set (take n xs) n y ≡ take n xs
  set-take_out zero xs y = refl
  set-take_out (suc n) [] y = refl
  set-take_out (suc n) (x ∷ xs) y = ap (◌∷◌ x) (set-take_out n xs y)

  pub get_elem?-take : (n i : ℕ) (xs : List A) → i < n → get_elem? (take n xs) i ≡ get_elem? xs i
  get_elem?-take zero i xs h = absurd (omega arith)
  get_elem?-take (suc n) i [] h = refl
  get_elem?-take (suc n) zero (x ∷ xs) h = refl
  get_elem?-take (suc n) (suc i) (x ∷ xs) h = get_elem?-take n i xs (omega arith)

  pub get_elem?-le : (i : ℕ) (xs : List A) → length xs ≤ i → get_elem? xs i ≡ none
  get_elem?-le i [] h = refl
  get_elem?-le zero (x ∷ xs) h = absurd (omega arith)
  get_elem?-le (suc i) (x ∷ xs) h = get_elem?-le i xs (omega arith)

  module _ {κ} {B : Type κ} (f : A → B) where
    pub map-set : (i : ℕ) (xs : List A) (y : A) → map f (set xs i y) ≡ set (map f xs) i (f y)
    map-set i [] y = refl
    map-set zero (x ∷ xs) y = refl
    map-set (suc i) (x ∷ xs) y = ap (◌∷◌ (f x)) (map-set i xs y)

    pub get_elem?-map :
        (i : ℕ) (xs : List A) → get_elem? (map f xs) i ≡ Option.map f (get_elem? xs i)
    get_elem?-map i [] = refl
    get_elem?-map zero (x ∷ xs) = refl
    get_elem?-map (suc i) (x ∷ xs) = get_elem?-map i xs

    pub take-map : (n : ℕ) (xs : List A) → take n (map f xs) ≡ map f (take n xs)
    take-map zero xs = refl
    take-map (suc n) [] = refl
    take-map (suc n) (x ∷ xs) = ap (◌∷◌ (f x)) (take-map n xs)

    pub length-map : (xs : List A) → length (map f xs) ≡ length xs
    length-map [] = refl
    length-map (x ∷ xs) = ap suc (length-map xs)
