-- ===== src/Hpack/Huffman/Bits.antt =====
-- The bits of a number, and a number written into the free low bits of another.
use Prim.Native.Nat.{max, bit_or, bit_or-bitwise}
use aws.Base.{sym}
use aws.Base.{ℕ, zero, suc, ◌+◌, ◌*◌, ◌/◌, ◌%◌, ◌^◌, ◌≤◌, ◌<◌, ◌≡◌, refl, ap, ◌∙◌, arith}
use aws.Base.{List, ◌∷◌, ◌++◌, length}
use aws.Hpack.Huffman.{bits_of}
use aws.Hpack.Huffman.Digits.{digits_step}
use native.Mathlib.Nat.{
  pow-suc, one-le-pow, mul_comm, div-div-eq-div-mul, mul-add-div, mul-add-div_right, div-eq_of_lt,
  add-zero, mul-one, zero-add, suc-add,
}

pub pow_add : (a b : ℕ) → 2 ^ (a + b) ≡ 2 ^ a * 2 ^ b
pow_add zero b = rw zero-add (omega arith)
pow_add (suc a) b = grind (arith, pow_add a b, pow-suc 2 (a + b), pow-suc 2 a)

pub pow_pos : (a : ℕ) → 0 < 2 ^ a
pow_pos a = one-le-pow a 2 (omega arith)

pub pow_suc : (a : ℕ) → 2 ^ suc a ≡ 2 * 2 ^ a
pow_suc a = omega (arith, pow-suc 2 a)

pub length-bits_of : (n v : ℕ) → length (bits_of n v) ≡ n
unfolding bits_of
length-bits_of zero v = refl
length-bits_of (suc n) v = omega (arith, length-bits_of n v)

-- The first bits are those of the quotient.
pub bits_of-add : (a b v : ℕ) → bits_of (a + b) v ≡ bits_of a (v / 2 ^ b) ++ bits_of b v
unfolding bits_of
bits_of-add zero b v = rw zero-add
bits_of-add (suc a) b v = rw (suc-add a b) (
    ◌∙◌ (ap (λ (x : ℕ). (x % 2) ∷ bits_of (a + b) v) head)
      (ap (λ (l : List ℕ). (v / 2 ^ b / 2 ^ a % 2) ∷ l) (bits_of-add a b v)))
  where
    head : v / 2 ^ (a + b) ≡ v / 2 ^ b / 2 ^ a
    head = rw (div-div-eq-div-mul, pow_add, mul_comm (2 ^ a))

-- What stands above the lowest `n` bits does not count.
pub bits_of-above : (n q t : ℕ) → bits_of n (2 ^ n * q + t) ≡ bits_of n t
unfolding bits_of
bits_of-above zero q t = refl
bits_of-above (suc n) q t = ◌∙◌ (ap (λ (x : ℕ). (x / 2 ^ n % 2) ∷ bits_of n x) regroup) (
    ◌∙◌ (ap (λ (x : ℕ). x ∷ bits_of n (2 ^ n * (2 * q) + t)) head)
      (ap (λ (l : List ℕ). (t / 2 ^ n % 2) ∷ l) (bits_of-above n (2 * q) t)))
  where
    regroup : 2 ^ suc n * q + t ≡ 2 ^ n * (2 * q) + t
    regroup = grind (arith, pow_suc n)

    head : (2 ^ n * (2 * q) + t) / 2 ^ n % 2 ≡ t / 2 ^ n % 2
    head = rw (mul-add-div (pow_pos n)) (omega arith)

pub bits_of-join :
    (a n q t : ℕ) → t < 2 ^ n → bits_of (a + n) (q * 2 ^ n + t) ≡ bits_of a q ++ bits_of n t
bits_of-join a n q t h =
    rw (bits_of-add, mul-add-div_right (pow_pos n), div-eq_of_lt h, mul_comm q, bits_of-above n q t)
      (rw add-zero)

pub zero-bit_or : (b : ℕ) → bit_or 0 b ≡ b
zero-bit_or b = bit_or-bitwise 0 b

pub bit_or_step : (a b : ℕ) → bit_or a b ≡ bit_or (a / 2) (b / 2) * 2 + max (a % 2) (b % 2)
bit_or_step a b =
    bit_or-bitwise a b
    ∙ digits_step (λ x. x) max (λ x. omega arith) a b
    ∙ ap (λ (x : ℕ). x * 2 + max (a % 2) (b % 2)) (sym (bit_or-bitwise (a / 2) (b / 2)))

bit_or-zero : (rounds a : ℕ) → a ≤ rounds → bit_or a 0 ≡ a
bit_or-zero zero a h = let none_left : a ≡ 0 = omega arith in rw (none_left, zero-bit_or)
bit_or-zero (suc rounds) a h =
    bit_or_step a 0
    ∙ ap (λ (x : ℕ). x * 2 + max (a % 2) 0) (bit_or-zero rounds (a / 2) (omega arith))
    ∙ omega arith

-- `or` into free bits is a sum.
pub bit_or_free : (b q t : ℕ) → t < 2 ^ b → bit_or (q * 2 ^ b) t ≡ q * 2 ^ b + t
bit_or_free zero q t h =
    let none_left : t ≡ 0 = omega arith in
    rw (none_left, mul-one, bit_or-zero q q (omega arith)) (omega arith)
bit_or_free (suc b) q t h = omega (
  arith,
  bit_or_step (q * 2 ^ suc b) t,
  ap (λ (x : ℕ). bit_or x (t / 2)) half,
  bit_or_free b q (t / 2) (omega (arith, pow_suc b)),
  double,
)
  where
    double : q * 2 ^ suc b ≡ 2 * (q * 2 ^ b)
    double = omega (arith, ap (λ (x : ℕ). q * x) (pow_suc b))

    half : q * 2 ^ suc b / 2 ≡ q * 2 ^ b
    half = omega (arith, double)
