-- ===== src/XosCons/Numbers.antt =====
-- config/setup/xoscons.adb: the integers that the compiler prints in a listing, as `Parse_Int` reads
-- them.
use aws.Base.{
  ℕ, ◌+◌, ◌^◌, ◌<◌, ◌≡◌, ◌≢◌, refl, ℤ, pos, negsuc, true, false, some, [], ◌∷◌, ◌++◌, Text, decimal,
  decimal_value, decimal_value-decimal, decimal-cons, IsInt, ◌==◌, ==_iff, if◌then◌else◌, ◌>>=◌,
  arith,
}
use aws.XosCons.{IntValue, Kind, cnd, cnu}
use aws.XosCons.Listing.{unsigned_value, skip_prefix, signed_value, parse_int, to_integer}

-- What stands before an immediate operand: nothing, `$` or `#`.
pub data IsOperandPrefix : Text → Type 0 where
  no_prefix : IsOperandPrefix []
  dollar : IsOperandPrefix (b'$' ∷ [])
  hash : IsOperandPrefix (b'#' ∷ [])

-- The operand of an integer, as the compiler prints it.
abbrev pub operand : Text → ℤ → Text
operand prefix (pos n) = prefix ++ decimal n
operand prefix (negsuc n) = prefix ++ (b'-' ∷ decimal (n + 1))

-- What the tool keeps of an integer.
abbrev pub int_value_of : ℤ → IntValue
int_value_of (pos n) = record { positive = true; abs_value = n }
int_value_of (negsuc n) = record { positive = false; abs_value = n + 1 }

unsigned_value-cons :
    (a : ℕ) (s : Text) {n : ℕ}
    → decimal_value 0 (a ∷ s) ≡ some n
    → n < 2 ^ 64
    → unsigned_value (a ∷ s) ≡ some n
unfolding unsigned_value
unsigned_value-cons a s h k = rw h (ground arith)

unsigned_value-decimal : (n : ℕ) → n < 2 ^ 64 → unsigned_value (decimal n) ≡ some n
unsigned_value-decimal n h =
    let (a, s, cons_eq, digit) = decimal-cons n in
    rw cons_eq (unsigned_value-cons a s (rw cons_eq at (decimal_value-decimal n)) h)

skip_prefix-append :
    {prefix : Text} (a : ℕ) (s : Text)
    → IsOperandPrefix prefix
    → a ≢ b'$'
    → a ≢ b'#'
    → skip_prefix (prefix ++ (a ∷ s)) ≡ a ∷ s
unfolding skip_prefix
skip_prefix-append a s no_prefix h k = ground arith
skip_prefix-append a s dollar h k = refl
skip_prefix-append a s hash h k = refl

-- A number of 64 bits without a sign.
parse_int-positive :
    {prefix : Text} (kind : Kind) (size n : ℕ)
    → IsOperandPrefix prefix
    → n < 2 ^ 64
    → parse_int kind size (prefix ++ decimal n) ≡ some (record { positive = true; abs_value = n })
unfolding parse_int signed_value
parse_int-positive {prefix} kind size n p h =
    let (a, s, cons_eq, digit) = decimal-cons n in
    let value = rw cons_eq at (unsigned_value-decimal n h) in
    let unsigned : (a == b'-') ≡ false = ground (arith, ==_iff a b'-') in
    rw (
      cons_eq,
      skip_prefix-append a s p (ground arith) (ground arith),
      unsigned,
      value,
      if◌then◌else◌,
    )

parse_int-negative :
    {prefix : Text} (size n : ℕ)
    → IsOperandPrefix prefix
    → n < 2 ^ 64
    → parse_int cnd size (prefix ++ (b'-' ∷ decimal n))
      ≡ some (record { positive = false; abs_value = n })
unfolding parse_int signed_value
parse_int-negative size n p h =
    rw (
      skip_prefix-append b'-' (decimal n) p (omega arith) (omega arith),
      unsigned_value-decimal n h,
    )

-- An int that the compiler prints is read as its sign and its size.
pub parse_int-operand :
    {prefix : Text} (size : ℕ) (z : ℤ)
    → IsOperandPrefix prefix
    → IsInt z
    → parse_int cnd size (operand prefix z) ≡ some (int_value_of z)
parse_int-operand size (pos n) p h = parse_int-positive cnd size n p (omega arith)
parse_int-operand size (negsuc n) p h = parse_int-negative size (n + 1) p (omega arith)

-- A line number.
pub parse_int-line :
    {prefix : Text} (size n : ℕ)
    → IsOperandPrefix prefix
    → n < 2 ^ 31
    → (parse_int cnu size (prefix ++ decimal n) >>= λ v. to_integer v.abs_value) ≡ some n
unfolding to_integer
parse_int-line size n p h = rw (parse_int-positive cnu size n p (omega arith)) (ground arith)
