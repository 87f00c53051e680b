-- ===== src/Hpack/Headers/Literals.antt =====
-- String literals that were sent: `Send` and `Get_String_Literal` of src/http2/aws-http2-hpack.adb.
use aws.Base.{ℕ, ◌+◌, ◌*◌, ◌%◌, ◌^◌, ◌≤◌, ◌<◌, ◌≡◌, refl, arith}
use aws.Base.{
  Text, List, [], ◌∷◌, ◌++◌, length, All, append_assoc, Bool, Bool-cases, true, false, ltb, ◌==◌,
  inl, inr,
}
use aws.Hpack.Outcome.{ok, ◌>>=◌}
use aws.Hpack.Huffman.{decode}
use aws.Hpack.Huffman.Encoding.{needed}
use aws.Hpack.Huffman.Plain.{IsPlain, decode-encode_plain}
use aws.Hpack.Integers.{send_integer}
use aws.Hpack.Integers.RoundTrip.{get_integer-send_integer}
use aws.Hpack.Headers.{get_bytes, literal_text, get_string_literal, send}

get_bytes-append : (str rest : List ℕ) → get_bytes (length str) (str ++ rest) ≡ ok (str, rest)
unfolding get_bytes
get_bytes-append [] rest = refl
get_bytes-append (c ∷ str) rest = rw (get_bytes-append str rest)

-- A string that `Send` can send and that is read back: printable, not empty, not too long, and with
-- codes that fit the buffer of the Huffman coder.
pub record IsSendable (str : Text) : Type 0 where
  pub plain : All IsPlain str
  pub some_text : 0 < length str
  pub in_range : length str < 2 ^ 31
  pub fits : needed str ≤ length str + 3

-- What is read where the length was sent under the flag, and then the bytes.
literal :
    (flag : ℕ) (huffman : Bool) (str text rest : List ℕ)
    → 0 < length str
    → length str < 2 ^ 31
    → flag % 2 == 1 ≡ huffman
    → literal_text huffman (str, rest) ≡ ok (text, rest)
    → (bytes : List ℕ) × ((send_integer (length str) (flag * 2 ^ 7) 7 >>= λ size. ok (size ++ str))
        ≡ ok bytes)
      × (get_string_literal (bytes ++ rest) ≡ ok (text, rest))
unfolding get_string_literal
literal flag huffman str text rest pos range top read =
    let (first, more, sent, back, prefix) =
      get_integer-send_integer (length str) 7 flag (str ++ rest) pos range in
    (
      first ∷ (more ++ str),
      rw sent,
      rw (append_assoc more str rest, back, get_bytes-append str rest, prefix, top) read,
    )

decoded_bytes : (r : List ℕ) {text : Text} → decode r ≡ ok text → 0 < length r
unfolding decode
decoded_bytes [] e = absurd (cc)
decoded_bytes (b ∷ r) e = omega arith

-- A string that was sent is read back, whatever follows it.
pub get_string_literal-send :
    (str rest : Text)
    → IsSendable str
    → (bytes : List ℕ) × (send str ≡ ok bytes)
      × (get_string_literal (bytes ++ rest) ≡ ok (str, rest))
unfolding send literal_text
get_string_literal-send [] rest h = absurd (omega (arith, h.some_text))
get_string_literal-send (c ∷ str) rest h =
    let (r, coded, decoded) = decode-encode_plain c str h.plain h.fits in
    elim (Bool-cases (ltb (length r) (length (c ∷ str)))) [
      | inl shorter ↦
          let (bytes, sent, back) =
            literal 1 true r (c ∷ str) rest (decoded_bytes r decoded) (ground (arith, h.in_range))
              refl (rw decoded) in
          (bytes, rw (coded, shorter) sent, back)
      | inr longer ↦
          let (bytes, sent, back) =
            literal 0 false (c ∷ str) (c ∷ str) rest (omega arith) h.in_range refl refl in
          (bytes, rw (coded, longer) sent, back)
    ]
