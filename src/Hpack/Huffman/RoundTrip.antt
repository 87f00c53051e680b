-- ===== src/Hpack/Huffman/RoundTrip.antt =====
-- Decoding what was encoded: `Encode`, then `Decode`, of src/http2/aws-http2-hpack-huffman.adb.
use aws.Base.{ℕ, ◌+◌, ◌*◌, ◌≤◌, ◌<◌, ◌≡◌, refl, sym, ap, ◌∙◌, subst, arith}
use aws.Base.{List, [], ◌∷◌, ◌++◌, length, length-append, inl, inr}
use aws.Base.{◌||◌, Bool, some, true, false, if◌then◌else◌, All}
use aws.Hpack.Codes.{Code}
use aws.Hpack.Outcome.{Outcome, ok, err, stuck, ◌>>=◌, compression_error}
use aws.Hpack.Huffman.{bits_of, Walk, decode_bits, decode_bytes, decode, encode, start}
use aws.Hpack.Huffman.{check_padding, last_four, eos_found}
use aws.Hpack.Huffman.Bits.{length-bits_of}
use aws.Hpack.Huffman.Packing.{bits_of_bytes, length-bits_of_bytes}
use aws.Hpack.Huffman.Encoding.{
  code_bits, string_bits, IsByte, ones, Holds, encode-Holds, table_lookup,
}
use aws.Hpack.Huffman.Walking.{decode_bits-append, decode_bits-encoded, padded, at_root}

-- The check for EOS is met at one of the bytes.
unfoldable pub eos_met : ℕ → List ℕ → Bool
eos_met v [] = false
eos_met v (e ∷ rest) = eos_found (last_four v e) rest || eos_met (last_four v e) rest

-- Where the walk over all the bits succeeds, only the check for EOS can stop it.
decode_bytes-bits :
    (cap v : ℕ) (bytes : List ℕ) (w w' : Walk)
    → decode_bits cap (bits_of_bytes bytes) w ≡ ok w'
    → decode_bytes cap v bytes w ≡ (if eos_met v bytes then err compression_error else ok w')
unfolding decode_bytes eos_met
decode_bytes-bits cap v [] w w' h = h
decode_bytes-bits cap v (e ∷ rest) w w' h =
    after_check (eos_found (last_four v e) rest) (eos_met (last_four v e) rest) (
      after_byte (decode_bits cap (bits_of 8 e) w)
        (sym (decode_bits-append cap (bits_of 8 e) (bits_of_bytes rest) w) ∙ h)
        (λ w1. decode_bytes-bits cap (last_four v e) rest w1 w'))
  where
    after_byte :
        (o : Outcome Walk)
        → (o >>= decode_bits cap (bits_of_bytes rest)) ≡ ok w'
        → ((w1 : Walk)
            → decode_bits cap (bits_of_bytes rest) w1 ≡ ok w'
            → decode_bytes cap (last_four v e) rest w1
              ≡ (if eos_met (last_four v e) rest then err compression_error else ok w'))
        → (o >>= decode_bytes cap (last_four v e) rest)
          ≡ (if eos_met (last_four v e) rest then err compression_error else ok w')
    after_byte (ok w1) g ih = ih w1 g
    after_byte (err x) g ih = cc
    after_byte stuck g ih = cc

    after_check :
        (found met : Bool) {o : Outcome Walk}
        → o ≡ (if met then err compression_error else ok w')
        → (if found then err compression_error else o)
          ≡ (if found || met then err compression_error else ok w')
    after_check true met g = refl
    after_check false met g = g

-- Every character takes five bits at least.
length-string_bits : (str : List ℕ) → All IsByte str → 5 * length str ≤ length (string_bits str)
unfolding string_bits code_bits
length-string_bits [] h = omega arith
length-string_bits (c ∷ str) h =
    let (code, found, long) = table_lookup c h.0 in
    rw (length-append, found) (omega (arith, length-string_bits str h.1, length-code code))
  where
    length-code : (h : Code) → length (code_bits (some h)) ≡ h.n_bit
    length-code h = length-bits_of h.n_bit h.bits

-- Bytes that hold the codes of a string and then ones.
decode-holding :
    (k : ℕ) (str r : List ℕ)
    → All IsByte str
    → k < 8
    → 0 < length str
    → bits_of_bytes r ≡ string_bits str ++ ones k
    → decode r ≡ (if eos_met 0 r then err compression_error else ok str)
unfolding decode
decode-holding k str [] h lt some_text held =
    absurd (omega (arith, all_bits, length-string_bits str h))
  where
    all_bits : 0 ≡ length (string_bits str) + k
    all_bits = ap length held ∙ rw (length-append, length-bits_of)
decode-holding k str (b ∷ bs) h lt some_text held =
    ap (λ (o : Outcome Walk). o >>= check_padding)
      (decode_bytes-bits (length (b ∷ bs) * 3) 0 (b ∷ bs) start (padded str k)
        (ap (λ (l : List ℕ). decode_bits (length (b ∷ bs) * 3) l start) held ∙ walked.0))
    ∙ finished (eos_met 0 (b ∷ bs))
  where
    all_bits : 8 * length (b ∷ bs) ≡ length (string_bits str) + k
    all_bits =
        sym (length-bits_of_bytes (b ∷ bs)) ∙ ap length held ∙ rw (length-append, length-bits_of)

    room : length str ≤ length (b ∷ bs) * 3
    room = omega (arith, all_bits, length-string_bits str h)

    walked :
        (decode_bits (length (b ∷ bs) * 3) (string_bits str ++ ones k) (at_root [])
          ≡ ok (padded str k))
        × (check_padding (padded str k) ≡ ok str)
    walked = decode_bits-encoded (length (b ∷ bs) * 3) k str h room lt

    finished :
        (met : Bool)
        → ((if met then err compression_error else ok (padded str k)) >>= check_padding)
          ≡ (if met then err compression_error else ok str)
    finished true = refl
    finished false = walked.1

-- Decoding the bytes that `Encode` made of a non-empty string gives the string back, unless the check
-- for EOS is met at one of them: then it fails with a compression error.
pub decode-encode :
    (c : ℕ) (str r : List ℕ)
    → All IsByte (c ∷ str)
    → encode (c ∷ str) ≡ ok r
    → decode r ≡ (if eos_met 0 r then err compression_error else ok (c ∷ str))
decode-encode c str r h e = let (k, lt, o) = encode-Holds (c ∷ str) h in go k lt o
  where
    go :
        (k : ℕ)
        → k < 8
        → Holds (length (c ∷ str) + 3) (string_bits (c ∷ str) ++ ones k) (encode (c ∷ str))
        → decode r ≡ (if eos_met 0 r then err compression_error else ok (c ∷ str))
    go k lt (inl (r', e', held, room)) =
        decode-holding k (c ∷ str) r h lt (omega arith)
          (subst (λ (l : List ℕ). bits_of_bytes l ≡ string_bits (c ∷ str) ++ ones k) same held)
      where
        same : r' ≡ r
        same = cc
    go k lt (inr (e', short)) = cc
