-- ===== src/Base/Slices.antt =====
-- The first items of a list, and predicates on them under a write.
use Prim.Native.Nat.{ℕ, zero, suc, ◌≤◌, ◌<◌}
use mathlib.Core.Path.{◌≡◌, refl, ap, subst}
use mathlib.Core.List.{List, [], ◌∷◌, ◌++◌}
use mathlib.Core.Option.{some}
use native.Mathlib.Omega.{arith}
use aws.Base.Lists.{length, get_elem?, set, All}

module _ {ℓ} {A : Type ℓ} where
  abbrev pub take : ℕ → List A → List A
  take zero xs = []
  take (suc n) [] = []
  take (suc n) (x ∷ xs) = x ∷ take n xs

  abbrev pub drop : ℕ → List A → List A
  drop zero xs = xs
  drop (suc n) [] = []
  drop (suc n) (x ∷ xs) = drop n xs

  abbrev pub replicate : ℕ → A → List A
  replicate zero a = []
  replicate (suc n) a = a ∷ replicate n a

  pub length-set : (xs : List A) (i : ℕ) (v : A) → length (set xs i v) ≡ length xs
  length-set [] i v = refl
  length-set (x ∷ xs) zero v = refl
  length-set (x ∷ xs) (suc i) v = ap suc (length-set xs i v)

  pub length-replicate : (n : ℕ) (a : A) → length (replicate n a) ≡ n
  length-replicate zero a = refl
  length-replicate (suc n) a = ap suc (length-replicate n a)

  pub take-append : (n : ℕ) (xs ys : List A) → n ≤ length xs → take n (xs ++ ys) ≡ take n xs
  take-append zero xs ys h = refl
  take-append (suc n) [] ys h = absurd (omega arith)
  take-append (suc n) (x ∷ xs) ys h = ap (◌∷◌ x) (take-append n xs ys (omega arith))

  pub length-take : (n : ℕ) (xs : List A) → n ≤ length xs → length (take n xs) ≡ n
  length-take zero xs h = refl
  length-take (suc n) [] h = absurd (omega arith)
  length-take (suc n) (x ∷ xs) h = ap suc (length-take n xs (omega arith))

  pub get_elem?-lt : (xs : List A) (i : ℕ) → i < length xs → (a : A) × (get_elem? xs i ≡ some a)
  get_elem?-lt [] i h = absurd (omega arith)
  get_elem?-lt (x ∷ xs) zero h = (x, refl)
  get_elem?-lt (x ∷ xs) (suc i) h = get_elem?-lt xs i (omega arith)

module _ {ℓ κ} {A : Type ℓ} (P : A → Type κ) where
  pub All-take-set :
      (n i : ℕ) (xs : List A) (v : A) → All P (take n xs) → P v → All P (take n (set xs i v))
  All-take-set zero i xs v h p = tt
  All-take-set (suc n) i [] v h p = tt
  All-take-set (suc n) zero (x ∷ xs) v h p = (p, h.1)
  All-take-set (suc n) (suc i) (x ∷ xs) v h p = (h.0, All-take-set n i xs v h.1 p)

  -- A write just behind the first `n` items.
  pub All-take-set_next :
      (n : ℕ) (xs : List A) (v : A) → All P (take n xs) → P v → All P (take (suc n) (set xs n v))
  All-take-set_next zero [] v h p = tt
  All-take-set_next zero (x ∷ xs) v h p = (p, tt)
  All-take-set_next (suc n) [] v h p = tt
  All-take-set_next (suc n) (x ∷ xs) v h p = (h.0, All-take-set_next n xs v h.1 p)

  pub All-take_le : (m n : ℕ) (xs : List A) → m ≤ n → All P (take n xs) → All P (take m xs)
  All-take_le zero n xs le h = tt
  All-take_le (suc m) zero xs le h = absurd (omega arith)
  All-take_le (suc m) (suc n) [] le h = tt
  All-take_le (suc m) (suc n) (x ∷ xs) le h = (h.0, All-take_le m n xs (omega arith) h.1)

  pub All-take_get :
      (n i : ℕ) (xs : List A) {a : A} → i < n → get_elem? xs i ≡ some a → All P (take n xs) → P a
  All-take_get zero i xs lt e h = absurd (omega arith)
  All-take_get (suc n) i [] lt e h = cc
  All-take_get (suc n) zero (x ∷ xs) {a} lt e h = let x_eq : x ≡ a = cc in subst P x_eq h.0
  All-take_get (suc n) (suc i) (x ∷ xs) lt e h = All-take_get n i xs (omega arith) e h.1

  pub All-weaken {ν} : (Q : A → Type ν) (xs : List A) → ((a : A) → P a → Q a) → All P xs → All Q xs
  All-weaken Q [] f h = tt
  All-weaken Q (x ∷ xs) f h = (f x h.0, All-weaken Q xs f h.1)
