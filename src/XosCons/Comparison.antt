-- ===== src/XosCons/Comparison.antt =====
-- config/setup/xoscons.adb: the conditions of the template, against the constants that they name.
use aws.Base.{
  ℕ, ◌≡◌, refl, ap, ◌∙◌, ℤ, pos, negsuc, int_eq, Bool, true, false, not, Bool-cases, inl, inr,
  Option, none, some, List, [], ◌∷◌, ◌++◌, map, Text, codes, text_eq, IsFree, is_digit, all, All,
  ltb, ◌==◌, if◌then◌else◌, ◌>>=◌, arith,
}
use aws.OsLib.Macros.{Marker}
use aws.XosCons.{cnd, int_gt, int_lt, int_same, empty_table}
use aws.XosCons.Condition.{find_value, get_value, slices, compare_values, condition}
use aws.XosCons.Listing.{load, parse_int, skip_prefix, signed_value, unsigned_value}
use aws.XosCons.Numbers.{IsOperandPrefix, int_value_of}
use aws.XosCons.RoundTrip.{listing_line, info_of, IsPrintable, load-listing_line}

-- Order of the integers.
abbrev pub int_ltb : ℤ → ℤ → Bool
int_ltb (pos m) (pos n) = ltb m n
int_ltb (pos m) (negsuc n) = false
int_ltb (negsuc m) (pos n) = true
int_ltb (negsuc m) (negsuc n) = ltb n m

-- The four operators.
pub data Operator : Type 0 where
  greater less equal unequal : Operator

abbrev pub operator_text : Operator → Text
operator_text greater = codes ">"
operator_text less = codes "<"
operator_text equal = codes "="
operator_text unequal = codes "/="

abbrev pub compare_int : Operator → ℤ → ℤ → Bool
compare_int greater y z = int_ltb z y
compare_int less y z = int_ltb y z
compare_int equal y z = int_eq y z
compare_int unequal y z = not (int_eq y z)

gt_lem : (y z : ℤ) → int_gt (int_value_of y) (int_value_of z) ≡ int_ltb z y
unfolding int_gt
gt_lem (pos m) (pos n) = ground arith
gt_lem (pos m) (negsuc n) = refl
gt_lem (negsuc m) (pos n) = refl
gt_lem (negsuc m) (negsuc n) = ground arith

same_lem : (y z : ℤ) → int_same (int_value_of y) (int_value_of z) ≡ int_eq y z
unfolding int_same int_eq
same_lem (pos m) (pos n) = refl
same_lem (pos m) (negsuc n) = refl
same_lem (negsuc m) (pos n) = refl
same_lem (negsuc m) (negsuc n) = ground arith

lt_lem : (y z : ℤ) → int_lt (int_value_of y) (int_value_of z) ≡ int_ltb y z
unfolding int_lt int_gt int_same
lt_lem (pos m) (pos n) = ground arith
lt_lem (pos m) (negsuc n) = refl
lt_lem (negsuc m) (pos n) = refl
lt_lem (negsuc m) (negsuc n) = ground arith

compare_values-int :
    (op : Operator) (y z : ℤ)
    → compare_values (operator_text op) (int_value_of y) (int_value_of z) ≡ compare_int op y z
unfolding compare_values text_eq
compare_values-int greater y z = gt_lem y z
compare_values-int less y z = lt_lem y z
compare_values-int equal y z = same_lem y z
compare_values-int unequal y z = ap not (same_lem y z)

slices-append : (s rest : Text) → IsFree b' ' s → slices (s ++ (b' ' ∷ rest)) ≡ s ∷ slices rest
unfolding slices
slices-append [] rest h = refl
slices-append (a ∷ s) rest h =
    let other : a == b' ' ≡ false = ground (arith, h.0) in
    rw (other, if◌then◌else◌, slices-append s rest h.1)

slices-one : (s : Text) → IsFree b' ' s → slices s ≡ s ∷ []
unfolding slices
slices-one [] h = refl
slices-one (a ∷ s) h =
    let other : a == b' ' ≡ false = ground (arith, h.0) in
    rw (other, if◌then◌else◌, slices-one s h.1)

-- The number that a name stands for among markers: 0 if none has it, and nothing if it is a text.
abbrev pub marker_value : Text → List Marker → Option ℤ
marker_value name [] = some (pos 0)
marker_value name (Marker.cnd line m z comment ∷ ms) =
    if text_eq name (codes m) then some z else marker_value name ms
marker_value name (Marker.cns line m text comment ∷ ms) =
    if text_eq name (codes m) then none else marker_value name ms
marker_value name (Marker.c line m ty text comment ∷ ms) =
    if text_eq name (codes m) then none else marker_value name ms
marker_value name (Marker.txt line text ∷ ms) = marker_value name ms

find_value-markers :
    (name : Text) (ms : List Marker)
    → find_value name (map info_of ms) ≡ (marker_value name ms >>= λ z. some (int_value_of z))
unfolding find_value
find_value-markers name [] = refl
find_value-markers name (Marker.cnd line m z comment ∷ ms) =
    elim (Bool-cases (text_eq name (codes m))) [
      | inl same ↦ rw (same, if◌then◌else◌)
      | inr other ↦ rw (other, if◌then◌else◌) (find_value-markers name ms)
    ]
find_value-markers name (Marker.cns line m text comment ∷ ms) =
    elim (Bool-cases (text_eq name (codes m))) [
      | inl same ↦ rw (same, if◌then◌else◌)
      | inr other ↦ rw (other, if◌then◌else◌) (find_value-markers name ms)
    ]
find_value-markers name (Marker.c line m ty text comment ∷ ms) =
    elim (Bool-cases (text_eq name (codes m))) [
      | inl same ↦ rw (same, if◌then◌else◌)
      | inr other ↦ rw (other, if◌then◌else◌) (find_value-markers name ms)
    ]
find_value-markers name (Marker.txt line text ∷ ms) = find_value-markers name ms

-- What an operand stands for: a number for itself, a name for the number of its marker.
abbrev pub operand_value : Text → List Marker → Option ℤ
operand_value name ms =
    if all is_digit name then (unsigned_value name >>= λ n. some (pos n)) else marker_value name ms

abbrev pub condition_line : Operator → Text → Text → Text
condition_line op a b = codes "@IF" ++ (b' ' ∷ (a ++ (b' ' ∷ (operator_text op ++ (b' ' ∷ b)))))

operator-IsFree : (op : Operator) → IsFree b' ' (operator_text op)
operator-IsFree greater = (omega arith, tt)
operator-IsFree less = (omega arith, tt)
operator-IsFree equal = (omega arith, tt)
operator-IsFree unequal = (omega arith, (omega arith, tt))

slices-condition_line :
    (op : Operator) (a b : Text)
    → IsFree b' ' a
    → IsFree b' ' b
    → slices (condition_line op a b) ≡ codes "@IF" ∷ a ∷ operator_text op ∷ b ∷ []
slices-condition_line op a b ha hb =
    slices-append (codes "@IF") (a ++ (b' ' ∷ (operator_text op ++ (b' ' ∷ b))))
      (omega arith, (omega arith, (omega arith, tt)))
    ∙ ap (λ ws. codes "@IF" ∷ ws)
        (slices-append a (operator_text op ++ (b' ' ∷ b)) ha
          ∙ ap (λ ws. a ∷ ws)
              (slices-append (operator_text op) b (operator-IsFree op)
                ∙ ap (λ ws. operator_text op ∷ ws) (slices-one b hb)))

parse_int-digits :
    (size : ℕ) (name : Text)
    → all is_digit name ≡ true
    → parse_int cnd size name
      ≡ (unsigned_value name >>= λ n. some (record { positive = true; abs_value = n }))
unfolding parse_int skip_prefix signed_value unsigned_value all
parse_int-digits size [] h = refl
parse_int-digits size (a ∷ s) h =
    let digit : is_digit a ≡ true = ground arith in
    let no_dollar : a == b'$' ≡ false = ground arith in
    let no_hash : a == b'#' ≡ false = ground arith in
    let no_minus : a == b'-' ≡ false = ground arith in
    rw (skip_prefix, no_dollar, no_hash, if◌then◌else◌) (rw (signed_value, no_minus, if◌then◌else◌))

number_or_none :
    (o : Option ℕ)
    → (o >>= λ n. some (record { positive = true; abs_value = n }))
      ≡ ((o >>= λ n. some (pos n)) >>= λ z. some (int_value_of z))
number_or_none none = refl
number_or_none (some n) = refl

get_value-operand_value :
    {prefix : Text} (name : Text) (ms : List Marker)
    → IsOperandPrefix prefix
    → All IsPrintable ms
    → get_value (load (map (listing_line prefix) ms) empty_table) name
      ≡ (operand_value name ms >>= λ z. some (int_value_of z))
unfolding get_value
get_value-operand_value {prefix} name ms p hs = elim (Bool-cases (all is_digit name)) [
  | inl digits ↦
      rw (digits, if◌then◌else◌)
        (parse_int-digits (load (map (listing_line prefix) ms) empty_table).size_of_unsigned_int
            name digits
          ∙ number_or_none (unsigned_value name))
  | inr other ↦ rw (other, if◌then◌else◌, load-listing_line ms p hs) (find_value-markers name ms)
]

compare_both :
    (op : Operator) (y z : Option ℤ)
    → ((y >>= λ i. some (int_value_of i)) >>= λ left.
        (z >>= λ i. some (int_value_of i)) >>= λ right.
        some (compare_values (operator_text op) left right))
      ≡ (y >>= λ i. z >>= λ j. some (compare_int op i j))
compare_both op none z = refl
compare_both op (some i) none = refl
compare_both op (some i) (some j) = ap some (compare_values-int op i j)

-- The condition of an `@IF` line, over the listing of any list of markers: it holds if the integers of
-- its operands compare so. An operand of digits is its own number, and a name that of the first
-- marker which has it, or 0 if none has. The condition cannot be read if that marker has a text and
-- no number, or an operand is empty or has more than 64 bits.
pub condition-compare_int :
    {prefix : Text} (op : Operator) (a b : Text) (ms : List Marker)
    → IsFree b' ' a
    → IsFree b' ' b
    → IsOperandPrefix prefix
    → All IsPrintable ms
    → condition (load (map (listing_line prefix) ms) empty_table) (condition_line op a b)
      ≡ (operand_value a ms >>= λ y. operand_value b ms >>= λ z. some (compare_int op y z))
unfolding condition
condition-compare_int {prefix} op a b ms ha hb p hs =
    let t = load (map (listing_line prefix) ms) empty_table in
    rw (slices-condition_line op a b ha hb) (
      ap
        (λ o. o >>= λ left.
          get_value t b >>= λ right. some (compare_values (operator_text op) left right))
        (get_value-operand_value a ms p hs)
      ∙ ap
          (λ o. (operand_value a ms >>= λ i. some (int_value_of i)) >>= λ left.
            o >>= λ right. some (compare_values (operator_text op) left right))
          (get_value-operand_value b ms p hs)
      ∙ compare_both op (operand_value a ms) (operand_value b ms))
