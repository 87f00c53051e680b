-- ===== src/Hpack/Huffman/Digits.antt =====
-- The native operations on the binary digits of two numbers, one digit at a time.
use Prim.Native.Nat.{digits, bitwise}
use aws.Base.{ℕ, zero, suc, ◌+◌, ◌*◌, ◌/◌, ◌%◌, ◌≤◌, ◌≡◌, refl, sym, ap, ◌∙◌, arith}

module _ (ended : ℕ → ℕ) (digit : ℕ → ℕ → ℕ) where
  -- The operation looks at no more digits than the first number has.
  digits-bitwise :
      (bound rounds x y : ℕ)
      → rounds ≤ bound
      → x ≤ rounds
      → digits ended digit rounds x y ≡ bitwise ended digit x y
  digits-bitwise bound zero zero y below few = refl
  digits-bitwise bound (suc rounds) zero y below few = refl
  digits-bitwise bound zero (suc x) y below few = absurd (omega arith)
  digits-bitwise zero (suc rounds) (suc x) y below few = absurd (omega arith)
  digits-bitwise (suc bound) (suc rounds) (suc x) y below few =
      ap (λ (high : ℕ). high * 2 + digit (suc x % 2) (y % 2))
        (digits-bitwise bound rounds (suc x / 2) (y / 2) (omega arith) (omega arith)
          ∙ sym (digits-bitwise bound x (suc x / 2) (y / 2) (omega arith) (omega arith)))

  -- The lowest digit, and the operation on the others.
  pub digits_step :
      ((y : ℕ) → ended y ≡ ended (y / 2) * 2 + digit 0 (y % 2))
      → (x y : ℕ)
      → bitwise ended digit x y ≡ bitwise ended digit (x / 2) (y / 2) * 2 + digit (x % 2) (y % 2)
  digits_step last zero y = last y
  digits_step last (suc x) y =
      ap (λ (high : ℕ). high * 2 + digit (suc x % 2) (y % 2))
        (digits-bitwise x x (suc x / 2) (y / 2) (omega arith) (omega arith))
