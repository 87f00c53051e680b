-- ===== src/Hpack/Huffman/Eos.antt =====
-- The check for EOS in `Decode` of src/http2/aws-http2-hpack-huffman.adb: it wants three bytes of ones
-- before the byte, so it is not met where no run of ones is that long.
use Prim.Native.Nat.{min, bit_and, bit_or, bit_and-bitwise}
use aws.Base.{
  ℕ, zero, suc, ◌+◌, ◌-◌, ◌*◌, ◌/◌, ◌%◌, ◌^◌, ◌≤◌, ◌<◌, ◌≡◌, refl, sym, ap, ◌∙◌, subst, arith,
}
use aws.Base.{List, [], ◌∷◌, ◌++◌, inl, inr, All}
use aws.Base.{ltb, ◌==◌, ◌&&◌, Bool, Bool-cases, true, false, ==_iff}
use aws.Hpack.Huffman.{bits_of, last_four, eos_found}
use aws.Hpack.Huffman.Digits.{digits_step}
use aws.Hpack.Huffman.Bits.{bit_or_free, pow_suc, pow_pos}
use aws.Hpack.Huffman.Packing.{bits_of_bytes}
use aws.Hpack.Huffman.Encoding.{IsByte}
use aws.Hpack.Huffman.RoundTrip.{eos_met}
use native.Mathlib.Nat.{
  div-one, div-div-eq-div-mul, mod-eq_of_lt, mul-add-mod_self_left, div-add-mod,
}

bit_and_step : (a b : ℕ) → bit_and a b ≡ bit_and (a / 2) (b / 2) * 2 + min (a % 2) (b % 2)
bit_and_step a b =
    bit_and-bitwise a b
    ∙ digits_step (λ x. 0) min (λ x. omega arith) a b
    ∙ ap (λ (x : ℕ). x * 2 + min (a % 2) (b % 2)) (sym (bit_and-bitwise (a / 2) (b / 2)))

-- A number has all the bits of a mask.
abbrev Covers : ℕ → ℕ → Type 0
Covers x m = bit_and x m ≡ m

Covers-half : (x m : ℕ) → Covers x m → Covers (x / 2) (m / 2) × (m % 2 ≤ x % 2)
Covers-half x m h = (omega (arith, bit_and_step x m), omega (arith, bit_and_step x m))

-- All the last `k` bits are ones.
Covers-ones : (k x : ℕ) → Covers x (2 ^ k - 1) → x % 2 ^ k ≡ 2 ^ k - 1
Covers-ones zero x h = omega arith
Covers-ones (suc k) x h =
    ap (λ (y : ℕ). y % 2 ^ suc k) (split (Covers-ones k (x / 2) half))
    ∙ mul-add-mod_self_left (2 ^ suc k) (x / 2 / 2 ^ k) (2 ^ suc k - 1)
    ∙ mod-eq_of_lt (omega (arith, pow_pos (suc k)))
  where
    half : Covers (x / 2) (2 ^ k - 1)
    half = subst (Covers (x / 2)) (omega (arith, pow_suc k, pow_pos k)) (Covers-half x _ h).0

    split : x / 2 % 2 ^ k ≡ 2 ^ k - 1 → x ≡ 2 ^ suc k * (x / 2 / 2 ^ k) + (2 ^ suc k - 1)
    split ones_below = omega (
      arith,
      (Covers-half x (2 ^ suc k - 1) h).1,
      pow_suc k,
      pow_pos k,
      ap (λ (y : ℕ). y * (x / 2 / 2 ^ k)) (pow_suc k),
      div-add-mod (x / 2) (2 ^ k),
    )

Covers-high : (k x m : ℕ) → Covers x m → Covers (x / 2 ^ k) (m / 2 ^ k)
Covers-high zero x m h =
    subst (λ (y : ℕ). Covers (x / 1) y) (sym (div-one m))
      (subst (λ (y : ℕ). Covers y m) (sym (div-one x)) h)
Covers-high (suc k) x m h =
    subst (λ (y : ℕ). Covers (x / 2 ^ suc k) y) (halve m)
      (subst (λ (y : ℕ). Covers y (m / 2 ^ k / 2)) (halve x)
        (Covers-half (x / 2 ^ k) (m / 2 ^ k) (Covers-high k x m h)).0)
  where
    halve : (y : ℕ) → y / 2 ^ k / 2 ≡ y / 2 ^ suc k
    halve y = div-div-eq-div-mul y (2 ^ k) 2 ∙ ap (λ (z : ℕ). y / z) (omega (arith, pow_suc k))

-- The three bytes before the last are ones.
eos_ones : (v : ℕ) → Covers v 0xfffffffa → v / 256 % 16777216 ≡ 16777215
eos_ones v h = Covers-ones 24 (v / 256) (Covers-high 8 v 0xfffffffa h)

last_four_lem : (v e : ℕ) → IsByte e → last_four v e ≡ v % 16777216 * 256 + e
unfolding last_four
last_four_lem v e h = ap (λ (x : ℕ). bit_or x e) shifted ∙ bit_or_free 8 (v % 16777216) e h
  where
    shifted : v * 256 % 2 ^ 32 ≡ v % 16777216 * 2 ^ 8
    shifted = omega arith

-- The ones at the end of the bits, with those before them.
unfoldable pub run : ℕ → List ℕ → ℕ
run n [] = n
run n (zero ∷ bits) = run 0 bits
run n (suc b ∷ bits) = run (suc n) bits

-- No run of ones gets to 24.
unfoldable pub short : ℕ → List ℕ → Bool
short n [] = true
short n (zero ∷ bits) = short 0 bits
short n (suc b ∷ bits) = ltb (suc n) 24 && short (suc n) bits

pub short-append :
    (n : ℕ) (xs ys : List ℕ) → short n (xs ++ ys) ≡ (short n xs && short (run n xs) ys)
unfolding short run
short-append n [] ys = refl
short-append n (zero ∷ xs) ys = short-append 0 xs ys
short-append n (suc b ∷ xs) ys = ground (arith, short-append (suc n) xs ys)

pub run-append : (n : ℕ) (xs ys : List ℕ) → run n (xs ++ ys) ≡ run (run n xs) ys
unfolding run
run-append n [] ys = refl
run-append n (zero ∷ xs) ys = run-append 0 xs ys
run-append n (suc b ∷ xs) ys = run-append (suc n) xs ys

run-lt : (n : ℕ) (bits : List ℕ) → n < 24 → short n bits ≡ true → run n bits < 24
unfolding run short
run-lt n [] h e = h
run-lt n (zero ∷ bits) h e = run-lt 0 bits (omega arith) e
run-lt n (suc b ∷ bits) h e = run-lt (suc n) bits (ground arith) (ground arith)

-- Bytes of ones at the end of `v` are ones at the end of the bits.
pub record IsRun (n v : ℕ) : Type 0 where
  pub one : v % 256 ≡ 255 → 8 ≤ n
  pub two : v % 65536 ≡ 65535 → 16 ≤ n
  pub three : v % 16777216 ≡ 16777215 → 24 ≤ n

run_ones : (n : ℕ) → run n (bits_of 8 255) ≡ n + 8
unfolding run bits_of
run_ones n = omega arith

IsRun-byte : (n v e : ℕ) → IsByte e → IsRun n v → IsRun (run n (bits_of 8 e)) (last_four v e)
IsRun-byte n v e h r = record {
  one = λ q. omega (arith, after (omega (arith, last_four_lem v e h)));
  two = λ q. omega (
    arith,
    after (omega (arith, last_four_lem v e h)),
    r.one (omega (arith, last_four_lem v e h)),
  );
  three = λ q. omega (
    arith,
    after (omega (arith, last_four_lem v e h)),
    r.two (omega (arith, last_four_lem v e h)),
  );
}
  where
    after : e ≡ 255 → run n (bits_of 8 e) ≡ n + 8
    after q = ap (λ (x : ℕ). run n (bits_of 8 x)) q ∙ run_ones n

eos_found-run :
    (n v e : ℕ) (rest : List ℕ)
    → IsByte e
    → IsRun n v
    → n < 24
    → eos_found (last_four v e) rest ≡ false
unfolding eos_found
eos_found-run n v e [] h r lt = refl
eos_found-run n v e (x ∷ rest) h r lt =
    elim (Bool-cases (bit_and (last_four v e) 0xfffffffa == 0xfffffffa)) [
      | inl found ↦ absurd (
          omega (
            arith,
            r.three (
                omega (
                  arith,
                  last_four_lem v e h,
                  eos_ones (last_four v e) ((==_iff _ 0xfffffffa).0 found),
                )),
          ))
      | inr other ↦ other
    ]

-- A byte at which the check is met ends a run of at least 24 ones before it.
pub eos_met-short :
    (n v : ℕ) (bytes : List ℕ)
    → IsRun n v
    → n < 24
    → All IsByte bytes
    → short n (bits_of_bytes bytes) ≡ true
    → eos_met v bytes ≡ false
unfolding eos_met
eos_met-short n v [] r lt h e = refl
eos_met-short n v (b ∷ rest) r lt h e = rw (eos_found-run n v b rest h.0 r lt) (
    eos_met-short (run n (bits_of 8 b)) (last_four v b) rest (IsRun-byte n v b h.0 r)
      (run-lt n (bits_of 8 b) lt (ground (arith, parts))) h.1 (ground (arith, parts)))
  where
    parts : (short n (bits_of 8 b) && short (run n (bits_of 8 b)) (bits_of_bytes rest)) ≡ true
    parts = sym (short-append n (bits_of 8 b) (bits_of_bytes rest)) ∙ e
