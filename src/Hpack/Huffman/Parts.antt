-- ===== src/Hpack/Huffman/Parts.antt =====
-- What the shifts and masks of `Encode` leave of a code, and where they put it:
-- src/http2/aws-http2-hpack-huffman.adb.
use Prim.Native.Nat.{bit_or, ◌∣◌}
use aws.Base.{ℕ, ◌+◌, ◌-◌, ◌*◌, ◌/◌, ◌%◌, ◌^◌, ◌≤◌, ◌<◌, ◌≡◌, sym, ap, ◌∙◌, subst, arith}
use aws.Base.{List, ◌++◌}
use aws.Hpack.Huffman.{bits_of, low_part, high_part}
use aws.Hpack.Huffman.Bits.{pow_add, pow_pos, bits_of-above}
use aws.Hpack.Huffman.Bits.{bits_of-join, bit_or_free}
use native.Mathlib.Nat.{
  mod-mod_of_dvd, mod-lt, mod-eq_of_lt, mul-add-mod_self_right, div-add-mod, mul-div_cancel,
  dvd-mul_right, mul-lt-mul_of_pos_right, add-sub_cancel_left,
}

-- `Unsigned_32` has room for the bits that the mask keeps.
mod_word : (b x : ℕ) → b ≤ 8 → x % 2 ^ 32 % 2 ^ b ≡ x % 2 ^ b
mod_word b x h = mod-mod_of_dvd (2 ^ b) x (
    subst (λ (w : ℕ). 2 ^ b ∣ w) (sym (pow_add b (32 - b)) ∙ ap (λ (k : ℕ). 2 ^ k) within_word)
      (dvd-mul_right (2 ^ b) (2 ^ (32 - b))))
  where
    within_word : b + (32 - b) ≡ 32
    within_word = omega arith

bits_of-mod : (n x : ℕ) → bits_of n (x % 2 ^ n) ≡ bits_of n x
bits_of-mod n x =
    sym (bits_of-above n (x / 2 ^ n) (x % 2 ^ n)) ∙ ap (bits_of n) (div-add-mod x (2 ^ n))

low_part_lt : (bits n b : ℕ) → low_part bits n b < 2 ^ b
unfolding low_part
low_part_lt bits n b = mod-lt (bits * 2 ^ (b - n) % 2 ^ 32) (pow_pos b)

-- The last bits of the code, above free bits.
low_part_lem : (bits n d : ℕ) → n + d ≤ 8 → low_part bits n (n + d) ≡ bits % 2 ^ n * 2 ^ d
unfolding low_part
low_part_lem bits n d h =
    rw (add-sub_cancel_left, mod_word (n + d) (bits * 2 ^ d) h, split)
      (rw (mul-add-mod_self_right, mod-eq_of_lt small))
  where
    split : bits * 2 ^ d ≡ bits / 2 ^ n * 2 ^ (n + d) + bits % 2 ^ n * 2 ^ d
    split = rw pow_add (omega (arith, ap (λ (x : ℕ). x * 2 ^ d) (div-add-mod bits (2 ^ n))))

    small : bits % 2 ^ n * 2 ^ d < 2 ^ (n + d)
    small = rw pow_add (mul-lt-mul_of_pos_right (mod-lt bits (pow_pos n)) (pow_pos d))

-- The last bits of the code take the first of the free bits.
or_low :
    (high bits n d : ℕ)
    → n + d ≤ 8
    → bit_or (high * 2 ^ (n + d)) (low_part bits n (n + d)) ≡ (high * 2 ^ n + bits % 2 ^ n) * 2 ^ d
or_low high bits n d h =
    rw (bit_or_free (n + d) high (low_part bits n (n + d)) (low_part_lt bits n (n + d)))
      (rw (low_part_lem bits n d h) (omega (arith, ap (λ (x : ℕ). high * x) (pow_add n d))))

pub or_last :
    (bits high v b n d : ℕ)
    → v ≡ high * 2 ^ b
    → b ≡ n + d
    → b ≤ 8
    → bit_or v (low_part bits n b) ≡ (high * 2 ^ n + bits % 2 ^ n) * 2 ^ d
or_last bits high v b n d ev eb h = rw (ev, eb) (or_low high bits n d (omega arith))

-- The free bits `b` split into the `n` that a code takes and the `d` that stay free.
pub last_bits :
    (bits high v b n d : ℕ)
    → v ≡ high * 2 ^ b
    → b ≡ n + d
    → b ≤ 8
    → bits_of (8 - d) (bit_or v (low_part bits n b) / 2 ^ d)
      ≡ bits_of (8 - b) (v / 2 ^ b) ++ bits_of n bits
last_bits bits high v b n d ev eb h =
    rw
      (
        or_last bits high v b n d ev eb h,
        mul-div_cancel _ (pow_pos d),
        ev,
        mul-div_cancel high (pow_pos b),
      )
      (ap (λ (k : ℕ). bits_of k (high * 2 ^ n + bits % 2 ^ n)) same_length
        ∙ bits_of-join (8 - b) n high (bits % 2 ^ n) (mod-lt bits (pow_pos n))
        ∙ ap (λ (l : List ℕ). bits_of (8 - b) high ++ l) (bits_of-mod n bits))
  where
    same_length : 8 - d ≡ 8 - b + n
    same_length = omega arith

-- The first bits of a code take all the free bits.
pub first_bits :
    (bits high v b n : ℕ)
    → v ≡ high * 2 ^ b
    → b ≤ 8
    → bits_of 8 (bit_or v (high_part bits n b))
      ≡ bits_of (8 - b) (v / 2 ^ b) ++ bits_of b (bits / 2 ^ (n - b))
unfolding high_part
first_bits bits high v b n ev h =
    rw (ev, bit_or_free b high (high_part bits n b) high_part_lt, mul-div_cancel high (pow_pos b))
      (ap (λ (k : ℕ). bits_of k (high * 2 ^ b + high_part bits n b)) all_eight
        ∙ bits_of-join (8 - b) b high (high_part bits n b) high_part_lt
        ∙ ap (λ (l : List ℕ). bits_of (8 - b) high ++ l) (bits_of-mod b (bits / 2 ^ (n - b))))
  where
    all_eight : 8 ≡ 8 - b + b
    all_eight = omega arith

    high_part_lt : high_part bits n b < 2 ^ b
    high_part_lt = mod-lt (bits / 2 ^ (n - b)) (pow_pos b)
