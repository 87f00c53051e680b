-- ===== src/Hpack/Integers/RoundTrip.antt =====
-- Reading the integers that were sent: src/http2/aws-http2-hpack.adb.
use Prim.Native.Nat.{bit_or}
use aws.Base.{ℕ, zero, suc, ◌+◌, ◌-◌, ◌*◌, ◌/◌, ◌%◌, ◌^◌, ◌<◌, ◌≡◌, ap, ◌∙◌, arith}
use aws.Base.{List, [], ◌∷◌, ◌++◌, inl, inr, Bool-cases}
use aws.Base.{ltb, ◌==◌, true, false}
use aws.Hpack.Outcome.{Outcome, ok}
use aws.Hpack.Integers.{get_groups, get_integer, send_groups, send_integer}
use aws.Hpack.Huffman.Bits.{bit_or_free, pow_pos}
use native.Mathlib.Numerals.{towards_suc}
use native.Mathlib.Nat.{
  div-add-mod, mul-zero, pow-suc, mod-eq_of_lt, lt_of_le_of_lt, le-mul_of_pos_right,
  mul-add-mod_self_right, mul-add-div_right, div-eq_of_lt, add-zero,
}

shift_seven : (s : ℕ) → 2 ^ (s + 7) ≡ 128 * 2 ^ s
shift_seven s = simp towards_suc (omega arith)

-- The lowest group of `v` and the rest, both shifted by `k`.
split_group : (v k : ℕ) → 2 ^ k * v ≡ 2 ^ k * (v % 128) + 2 ^ (k + 7) * (v / 128)
split_group v k = omega (
  arith,
  ap (λ (t : ℕ). t * 2 ^ k) (div-add-mod v 128),
  ap (λ (t : ℕ). v / 128 * t) (shift_seven k),
)

-- One round of the loop on the group `g`: nothing wraps.
add_group :
    (result power g : ℕ)
    → result + power * g < 2 ^ 32
    → (result + power % 2 ^ 32 * g % 2 ^ 32) % 2 ^ 32 ≡ result + power * g
add_group result power zero h = rw (mul-zero, mul-zero) (omega arith)
add_group result power (suc g) h = rw (mod-eq_of_lt small, mod-eq_of_lt product) (mod-eq_of_lt h)
  where
    product : power * suc g < 2 ^ 32
    product = omega arith

    small : power < 2 ^ 32
    small = lt_of_le_of_lt (le-mul_of_pos_right power (omega arith)) product

last_byte :
    (v result k : ℕ) (rest : List ℕ)
    → v < 128
    → result + 2 ^ k * v < 2 ^ 32
    → get_groups result k (v ∷ rest) ≡ ok (result + 2 ^ k * v, rest)
unfolding get_groups
last_byte v result k rest small fits = rw (mod-eq_of_lt small, add_group result (2 ^ k) v fits, top)
  where
    top : v / 128 % 2 ≡ 0
    top = omega arith

inner_byte :
    (g result k : ℕ) (rest : List ℕ)
    → g < 128
    → result + 2 ^ k * g < 2 ^ 32
    → get_groups result k ((g + 128) ∷ rest) ≡ get_groups (result + 2 ^ k * g) (k + 7) rest
unfolding get_groups
inner_byte g result k rest small fits = rw (group, add_group result (2 ^ k) g fits, top)
  where
    group : (g + 128) % 128 ≡ g
    group = omega arith

    top : (g + 128) / 128 % 2 ≡ 1
    top = omega arith

-- The groups of `v` are sent, and reading them adds `v` from bit `k` on.
abbrev Reads : ℕ → ℕ → ℕ → List ℕ → Outcome (List ℕ) → Type 0
Reads v result k rest sent =
    (groups : List ℕ) × (sent ≡ ok groups)
    × (get_groups result k (groups ++ rest) ≡ ok (result + 2 ^ k * v, rest))

last_group :
    (fuel v result k : ℕ) (rest : List ℕ)
    → v < 128
    → result + 2 ^ k * v < 2 ^ 32
    → Reads v result k rest (send_groups (suc fuel) v)
unfolding send_groups
last_group fuel v result k rest small fits =
    (v ∷ [], ground arith, last_byte v result k rest small fits)

more_groups :
    (fuel v result k : ℕ) (rest : List ℕ)
    → ltb v 128 ≡ false
    → result + 2 ^ k * v < 2 ^ 32
    → Reads (v / 128) (result + 2 ^ k * (v % 128)) (k + 7) rest (send_groups fuel (v / 128))
    → Reads v result k rest (send_groups (suc fuel) v)
unfolding send_groups
more_groups fuel v result k rest large fits (groups, sent, read) = (
  (v % 128 + 128) ∷ groups,
  rw (large, sent),
  inner_byte (v % 128) result k (groups ++ rest) (omega arith) (omega (arith, split_group v k))
      ∙ read
      ∙ ap (λ (x : ℕ). ok (x, rest)) (omega (arith, split_group v k)),
)

get_groups-send_groups :
    (fuel v result k : ℕ) (rest : List ℕ)
    → v < 128 ^ suc fuel
    → result + 2 ^ k * v < 2 ^ 32
    → Reads v result k rest (send_groups (suc fuel) v)
get_groups-send_groups zero v result k rest hv fits =
    last_group 0 v result k rest (omega arith) fits
get_groups-send_groups (suc fuel) v result k rest hv fits = elim (Bool-cases (ltb v 128)) [
  | inl small ↦ last_group (suc fuel) v result k rest (ground arith) fits
  | inr large ↦ more_groups (suc fuel) v result k rest large fits (
      get_groups-send_groups fuel (v / 128) (result + 2 ^ k * (v % 128)) (k + 7) rest
        (omega (arith, pow-suc 128 (suc fuel))) (omega (arith, split_group v k)))
]

-- The first byte: the prefix above the `n` bits of `x`.
first_byte :
    (n prefix x : ℕ)
    → x < 2 ^ n
    → (bit_or (prefix * 2 ^ n) x % 2 ^ n ≡ x) × (bit_or (prefix * 2 ^ n) x / 2 ^ n ≡ prefix)
first_byte n prefix x h = (
  rw (bit_or_free n prefix x h, mul-add-mod_self_right) (mod-eq_of_lt h),
  rw (bit_or_free n prefix x h, mul-add-div_right (pow_pos n), div-eq_of_lt h, add-zero),
)

-- The sent bytes are read back as `i` with `rest` left, and the first keeps the prefix.
abbrev Returns : ℕ → ℕ → ℕ → List ℕ → Outcome (List ℕ) → Type 0
Returns i n prefix rest sent =
    (first : ℕ) × (more : List ℕ) × (sent ≡ ok (first ∷ more))
    × (get_integer n first (more ++ rest) ≡ ok (i, rest))
    × (first / 2 ^ n ≡ prefix)

module _ (i n prefix : ℕ) (rest : List ℕ) (pos : i == 0 ≡ false) where
  one_byte : ltb i (2 ^ n - 1) ≡ true → Returns i n prefix rest (send_integer i (prefix * 2 ^ n) n)
  unfolding send_integer get_integer
  one_byte small = (
    bit_or (prefix * 2 ^ n) i,
    [],
    rw (pos, small),
    rw ((first_byte n prefix i below).0, not_mask),
    (first_byte n prefix i below).1,
  )
    where
      below : i < 2 ^ n
      below = ground arith

      not_mask : i == 2 ^ n - 1 ≡ false
      not_mask = ground arith

  many_bytes :
      i < 2 ^ 31
      → ltb i (2 ^ n - 1) ≡ false
      → Reads (i - (2 ^ n - 1)) (2 ^ n - 1) 0 rest (send_groups 5 (i - (2 ^ n - 1)))
      → Returns i n prefix rest (send_integer i (prefix * 2 ^ n) n)
  unfolding send_integer get_integer
  many_bytes range large (groups, sent, read) = (
    bit_or (prefix * 2 ^ n) (2 ^ n - 1),
    groups,
    rw (pos, large, sent),
    rw ((first_byte n prefix (2 ^ n - 1) below).0, mask)
        (read ∙ ap (λ (x : ℕ). ok (x, rest)) (ground arith)),
    (first_byte n prefix (2 ^ n - 1) below).1,
  )
    where
      below : 2 ^ n - 1 < 2 ^ n
      below = omega (arith, pow_pos n)

      mask : 2 ^ n - 1 == 2 ^ n - 1 ≡ true
      mask = ground arith

-- An integer from 1 to 2 ^ 31 - 1 that is sent above a prefix is read back, with whatever follows it
-- left to read, and the first byte has the prefix above its `n` bits.
pub get_integer-send_integer :
    (i n prefix : ℕ) (rest : List ℕ)
    → 0 < i
    → i < 2 ^ 31
    → (first : ℕ) × (more : List ℕ) × (send_integer i (prefix * 2 ^ n) n ≡ ok (first ∷ more))
      × (get_integer n first (more ++ rest) ≡ ok (i, rest))
      × (first / 2 ^ n ≡ prefix)
get_integer-send_integer i n prefix rest pos range = elim (Bool-cases (ltb i (2 ^ n - 1))) [
  | inl small ↦ one_byte i n prefix rest (ground arith) small
  | inr large ↦
      many_bytes i n prefix rest (ground arith) range large
        (get_groups-send_groups 4 (i - (2 ^ n - 1)) (2 ^ n - 1) 0 rest (omega arith) (ground arith))
]
