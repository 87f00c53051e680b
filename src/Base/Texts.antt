-- ===== src/Base/Texts.antt =====
-- Lines of text as lists of character codes: comparison, a cut at a separator, and decimal numbers.
use Prim.Native.Char.{code}
use Prim.Native.Nat.{ℕ, zero, suc, ◌+◌, ◌-◌, ◌*◌, ◌/◌, ◌%◌, ◌<◌}
use Prim.Native.String.{String}
use mathlib.Core.Bool.{Bool, true, false, ◌&&◌}
use mathlib.Core.List.{List, [], ◌∷◌, ◌++◌}
use mathlib.Core.Logic.{◌≢◌, inl, inr}
use mathlib.Core.Option.{Option, none, some}
use mathlib.Core.Path.{◌≡◌, refl, ap, ◌∙◌, subst}
use native.Mathlib.Omega.{arith}
use aws.Base.Bools.{ltb, leb, ◌==◌, ==_iff, if◌then◌else◌, Bool-cases}
use aws.Base.Lists.{All}

abbrev pub Text : Type 0
Text = List ℕ

abbrev pub codes : String → Text
codes String.[] = []
codes (String.◌∷◌ c s) = code c ∷ codes s

unfoldable pub text_eq : Text → Text → Bool
text_eq [] [] = true
text_eq (a ∷ s) (b ∷ t) = (a == b) && text_eq s t
text_eq _ _ = false

pub text_eq_refl : (s : Text) → text_eq s s ≡ true
unfolding text_eq
text_eq_refl [] = refl
text_eq_refl (a ∷ s) = ground (arith, text_eq_refl s)

pub text_eq_sound : (s t : Text) → text_eq s t ≡ true → s ≡ t
unfolding text_eq
text_eq_sound [] [] h = refl
text_eq_sound [] (b ∷ t) h = cc
text_eq_sound (a ∷ s) [] h = cc
text_eq_sound (a ∷ s) (b ∷ t) h =
    let first : a ≡ b = ground arith in let rest = text_eq_sound s t (ground arith) in cc

-- What stands before the first separator, and what stands behind it: nothing if it is missing.
unfoldable pub cut : ℕ → Text → Text × Text
cut sep [] = ([], [])
cut sep (a ∷ s) = let (field, rest) = cut sep s in if a == sep then ([], s) else (a ∷ field, rest)

abbrev pub IsFree : ℕ → Text → Type 0
IsFree sep = All (λ a. a ≢ sep)

pub cut-append : (sep : ℕ) (s rest : Text) → IsFree sep s → cut sep (s ++ (sep ∷ rest)) ≡ (s, rest)
unfolding cut
cut-append sep [] rest h = ground (arith, (==_iff sep sep).1 refl)
cut-append sep (a ∷ s) rest h = rw (cut-append sep s rest h.1) (ground (arith, (==_iff a sep).0))

-- A number in decimal digits.
unfoldable pub decimal_digits : ℕ → ℕ → Text
decimal_digits zero n = []
decimal_digits (suc f) n = elim (ltb n 10) [
  | true ↦ (48 + n) ∷ []
  | false ↦ decimal_digits f (n / 10) ++ ((48 + n % 10) ∷ [])
]

unfoldable pub decimal : ℕ → Text
decimal n = decimal_digits (suc n) n

abbrev pub is_digit : ℕ → Bool
is_digit a = leb 48 a && leb a 57

unfoldable pub decimal_value : ℕ → Text → Option ℕ
decimal_value n [] = some n
decimal_value n (a ∷ s) = if is_digit a then decimal_value (n * 10 + (a - 48)) s else none

some_eq : {a b : ℕ} → some a ≡ some b → a ≡ b
some_eq e = cc

none_ne : {b : ℕ} → none ≢ some b
none_ne e = cc

decimal_value-append :
    (n : ℕ) (s t : Text) {m : ℕ}
    → decimal_value n s ≡ some m
    → decimal_value n (s ++ t) ≡ decimal_value m t
unfolding decimal_value
decimal_value-append n [] t h = ap (λ k. decimal_value k t) (some_eq h)
decimal_value-append n (a ∷ s) t {m} h = elim (Bool-cases (is_digit a)) [
  | inl digit ↦
      rw (digit, if◌then◌else◌)
        (decimal_value-append (n * 10 + (a - 48)) s t (rw (digit, if◌then◌else◌) at h))
  | inr other ↦ absurd (none_ne (rw (other, if◌then◌else◌) at h))
]

last_digit : (m d : ℕ) → d < 10 → decimal_value m ((48 + d) ∷ []) ≡ some (m * 10 + d)
unfolding decimal_value
last_digit m d h = ground arith

decimal_digits_value : (f n : ℕ) → n < f → decimal_value 0 (decimal_digits f n) ≡ some n
unfolding decimal_digits
decimal_digits_value zero n h = absurd (omega arith)
decimal_digits_value (suc f) n h = elim (Bool-cases (ltb n 10)) [
  | inl one_digit ↦
      rw (decimal_digits, one_digit) (last_digit 0 n (ground arith) ∙ ap some (omega arith))
  | inr more ↦
      rw (decimal_digits, more)
        (decimal_value-append 0 (decimal_digits f (n / 10)) ((48 + n % 10) ∷ [])
            (decimal_digits_value f (n / 10) (ground arith))
          ∙ last_digit (n / 10) (n % 10) (omega arith)
          ∙ ap some (omega arith))
]

pub decimal_value-decimal : (n : ℕ) → decimal_value 0 (decimal n) ≡ some n
unfolding decimal
decimal_value-decimal n = decimal_digits_value (suc n) n (omega arith)

abbrev pub IsDigits : Text → Type 0
IsDigits = All (λ a. is_digit a ≡ true)

pub All-append {ℓ κ} :
    {A : Type ℓ} (P : A → Type κ) (s t : List A) → All P s → All P t → All P (s ++ t)
All-append P [] t hs ht = ht
All-append P (a ∷ s) t hs ht = (hs.0, All-append P s t hs.1 ht)

decimal_digits-IsDigits : (f n : ℕ) → IsDigits (decimal_digits f n)
unfolding decimal_digits
decimal_digits-IsDigits zero n = tt
decimal_digits-IsDigits (suc f) n = elim (Bool-cases (ltb n 10)) [
  | inl one_digit ↦ rw (decimal_digits, one_digit) (ground arith, tt)
  | inr more ↦
      rw (decimal_digits, more)
        (All-append (λ a. is_digit a ≡ true) (decimal_digits f (n / 10)) ((48 + n % 10) ∷ [])
          (decimal_digits-IsDigits f (n / 10)) (ground arith, tt))
]

pub decimal-IsDigits : (n : ℕ) → IsDigits (decimal n)
unfolding decimal
decimal-IsDigits n = decimal_digits-IsDigits (suc n) n

-- A number has a first digit.
pub decimal-cons : (n : ℕ) → (a : ℕ) × (s : Text) × (decimal n ≡ a ∷ s) × (is_digit a ≡ true)
unfolding decimal decimal_digits
decimal-cons n = elim (Bool-cases (ltb n 10)) [
  | inl one_digit ↦ (48 + n, [], rw (decimal, decimal_digits, one_digit), ground arith)
  | inr more ↦
      let rest = decimal_digits n (n / 10) in
      let (a, s, s_eq) = append-cons rest ((48 + n % 10)) in
      let eq : decimal n ≡ a ∷ s = rw (decimal, decimal_digits, more) s_eq in
      (a, s, eq, (subst IsDigits eq (decimal-IsDigits n)).0)
]
  where
    append-cons : (s : Text) (b : ℕ) → (a : ℕ) × (r : Text) × (s ++ (b ∷ []) ≡ a ∷ r)
    append-cons [] b = (b, [], refl)
    append-cons (a ∷ s) b = (a, s ++ (b ∷ []), refl)
