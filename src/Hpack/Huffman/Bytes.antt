-- ===== src/Hpack/Huffman/Bytes.antt =====
-- What `Encode` of src/http2/aws-http2-hpack-huffman.adb returns are bytes.
use Prim.Native.Nat.{bit_or}
use aws.Base.{ℕ, zero, suc, ◌+◌, ◌-◌, ◌*◌, ◌/◌, ◌%◌, ◌^◌, ◌≤◌, ◌<◌, ◌≡◌, ap, subst, arith}
use aws.Base.{List, [], ◌∷◌, length, inl, inr, All, All-append}
use aws.Base.{
  ltb, leb, ◌==◌, Bool, Bool-cases, Option, none, some, get_elem?, true, false, if◌then◌else◌,
}
use aws.Hpack.Codes.{Code, table}
use aws.Hpack.Outcome.{Outcome, ok, err, stuck, ◌>>=◌}
use aws.Hpack.Huffman.{
  Buffer, push_byte, low_part, high_part, store_bits, encode_code, encode_characters, finish, empty,
  encode,
}
use aws.Hpack.Huffman.Bits.{bit_or_step, zero-bit_or, pow_suc, pow_pos}
use aws.Hpack.Huffman.Encoding.{IsByte}
use native.Mathlib.Nat.{mod-lt, lt_of_lt_of_le, pow-le-pow_right}

bit_or_lt : (k a b : ℕ) → a < 2 ^ k → b < 2 ^ k → bit_or a b < 2 ^ k
bit_or_lt zero a b p q = omega (arith, zero-bit_or b, ap (λ (x : ℕ). bit_or x b) none_left)
  where
    none_left : a ≡ 0
    none_left = omega arith
bit_or_lt (suc k) a b p q = omega (
  arith,
  bit_or_step a b,
  bit_or_lt k (a / 2) (b / 2) (omega (arith, pow_suc k)) (omega (arith, pow_suc k)),
  pow_suc k,
)

or_byte : (b v t : ℕ) → b ≤ 8 → v < 256 → t < 2 ^ b → bit_or v t < 256
or_byte b v t h p q = bit_or_lt 8 v t p (lt_of_lt_of_le q (pow-le-pow_right (omega arith) h))

record HasBytes (s : Buffer) : Type 0 where
  free_le : s.b ≤ 8
  v_byte : s.v < 256
  r_bytes : All IsByte s.r

-- A successful outcome is a buffer of bytes.
abbrev Bytes : Outcome Buffer → Type 0
Bytes (ok s) = HasBytes s
Bytes (err e) = Unit
Bytes stuck = Unit

Bytes-bind :
    (o : Outcome Buffer) (f : Buffer → Outcome Buffer)
    → Bytes o
    → ((s : Buffer) → HasBytes s → Bytes (f s))
    → Bytes (o >>= f)
Bytes-bind (ok s) f h next = next s h
Bytes-bind (err e) f h next = tt
Bytes-bind stuck f h next = tt

push_byte-Bytes : (cap : ℕ) (s : Buffer) → HasBytes s → Bytes (push_byte cap s)
unfolding push_byte
push_byte-Bytes cap s h = elim (Bool-cases (ltb (length s.r) cap)) [
  | inl fits ↦ rw fits (record {
    free_le = omega arith;
    v_byte = omega arith;
    r_bytes = All-append IsByte s.r (s.v ∷ []) (h.r_bytes) (h.v_byte, tt);
  })
  | inr full ↦ rw full tt
]

high_part-HasBytes :
    (bits n : ℕ) (s : Buffer)
    → HasBytes s
    → HasBytes (record { r = s.r; v = bit_or s.v (high_part bits n s.b); b = s.b })
unfolding high_part
high_part-HasBytes bits n s h = record {
  free_le = h.free_le;
  v_byte = or_byte s.b s.v _ h.free_le h.v_byte (mod-lt (bits / 2 ^ (n - s.b)) (pow_pos s.b));
  r_bytes = h.r_bytes;
}

low_part-HasBytes :
    (bits n : ℕ) (s : Buffer)
    → HasBytes s
    → HasBytes (record { r = s.r; v = bit_or s.v (low_part bits n s.b); b = s.b - n })
unfolding low_part
low_part-HasBytes bits n s h = record {
  free_le = omega (arith, h.free_le);
  v_byte =
      or_byte s.b s.v _ h.free_le h.v_byte (mod-lt (bits * 2 ^ (s.b - n) % 2 ^ 32) (pow_pos s.b));
  r_bytes = h.r_bytes;
}

store_bits-Bytes :
    (fuel cap bits n : ℕ) (s : Buffer) → HasBytes s → Bytes (store_bits fuel cap bits n s)
unfolding store_bits
store_bits-Bytes zero cap bits n s h = tt
store_bits-Bytes (suc fuel) cap bits n s h = elim (Bool-cases (leb n s.b)) [
  | inl fits ↦ rw fits (last_round (s.b - n == 0))
  | inr more ↦ rw more (
      Bytes-bind _ (store_bits fuel cap bits (n - s.b))
        (push_byte-Bytes cap _ (high_part-HasBytes bits n s h))
        (store_bits-Bytes fuel cap bits (n - s.b)))
]
  where
    last_round :
        (full : Bool)
        → Bytes (
            if full
            then push_byte cap
                (record { r = s.r; v = bit_or s.v (low_part bits n s.b); b = s.b - n })
            else ok (record { r = s.r; v = bit_or s.v (low_part bits n s.b); b = s.b - n }))
    last_round true = push_byte-Bytes cap _ (low_part-HasBytes bits n s h)
    last_round false = low_part-HasBytes bits n s h

encode_characters-Bytes :
    (cap : ℕ) (str : List ℕ) (s : Buffer) → HasBytes s → Bytes (encode_characters cap str s)
unfolding encode_characters
encode_characters-Bytes cap [] s h = h
encode_characters-Bytes cap (c ∷ str) s h =
    Bytes-bind (encode_code cap s (get_elem? table c)) (encode_characters cap str)
      (one_code (get_elem? table c)) (encode_characters-Bytes cap str)
  where
    one_code : (o : Option Code) → Bytes (encode_code cap s o)
    one_code none = unfold encode_code in tt
    one_code (some code) =
        unfold encode_code in store_bits-Bytes code.n_bit cap code.bits code.n_bit s h

finish-Bytes : (cap : ℕ) (s : Buffer) → HasBytes s → Bytes (finish cap s)
unfolding finish
finish-Bytes cap s h = elim (Bool-cases (s.b == 8)) [
  | inl full ↦ rw full h
  | inr part ↦ rw part (
      push_byte-Bytes cap (record { r = s.r; v = bit_or s.v (2 ^ s.b - 1); b = s.b })
        (record {
          free_le = h.free_le;
          v_byte = or_byte s.b s.v (2 ^ s.b - 1) h.free_le h.v_byte (omega (arith, pow_pos s.b));
          r_bytes = h.r_bytes;
        }))
]

-- All that `Encode` returns fits `Stream_Element`.
pub encode-IsByte : (str r : List ℕ) → encode str ≡ ok r → All IsByte r
unfolding encode
encode-IsByte str r e =
    go (encode_characters (length str + 3) str empty >>= finish (length str + 3))
      (Bytes-bind (encode_characters (length str + 3) str empty) (finish (length str + 3))
        (encode_characters-Bytes (length str + 3) str empty
          (record { free_le = omega arith; v_byte = omega arith; r_bytes = tt }))
        (finish-Bytes (length str + 3)))
      e
  where
    go : (o : Outcome Buffer) → Bytes o → (o >>= λ s. ok s.r) ≡ ok r → All IsByte r
    go (ok s) h e' = subst (All IsByte) (cc) h.r_bytes
    go (err x) h e' = cc
    go stuck h e' = cc
