-- ===== src/Hpack/Huffman/Plain.antt =====
-- Strings of printable ASCII characters through `Encode` and `Decode` of
-- src/http2/aws-http2-hpack-huffman.adb.
use aws.Base.{ℕ, ◌+◌, ◌≤◌, ◌<◌, ◌≡◌, refl, ap, ◌∙◌, arith}
use aws.Base.{
  List, [], ◌∷◌, ◌++◌, length, ◌⊎◌, inl, inr, All, All-weaken, all_below, all_below_sound,
}
use aws.Base.{ltb, leb, ◌&&◌, ◌||◌, Bool, true, false, if◌then◌else◌, get_elem?}
use aws.Hpack.Codes.{table}
use aws.Hpack.Outcome.{constraint_error, ok, err, compression_error}
use aws.Hpack.Huffman.{bits_of, encode, decode}
use aws.Hpack.Huffman.Packing.{bits_of_bytes}
use aws.Hpack.Huffman.Encoding.{
  IsByte, code_bits, string_bits, ones, needed, encode_lem, encode-Holds, Holds,
}
use aws.Hpack.Huffman.Bytes.{encode-IsByte}
use aws.Hpack.Huffman.RoundTrip.{eos_met, decode-encode}
use aws.Hpack.Huffman.Eos.{run, short, short-append, run-append, eos_met-short, IsRun}

-- A printable ASCII character.
abbrev pub IsPlain : ℕ → Type 0
IsPlain c = (32 ≤ c) × (c < 127)

-- After at most five ones the bits hold no long run, and leave at most five ones.
abbrev calm : List ℕ → ℕ → Bool
calm bits n = short n bits && leb (run n bits) 5

plain_codes :
    all_below 127 (λ c. ltb c 32 || all_below 6 (calm (code_bits (get_elem? table c)))) ≡ true
unfolding all_below short run code_bits table bits_of
plain_codes = refl

code_calm : (c n : ℕ) → IsPlain c → n ≤ 5 → calm (code_bits (get_elem? table c)) n ≡ true
code_calm c n h le =
    all_below_sound 6 (calm (code_bits (get_elem? table c))) n
      (printable (ltb c 32) (ground arith) (
        all_below_sound 127 (λ x. ltb x 32 || all_below 6 (calm (code_bits (get_elem? table x)))) c
          plain_codes h.1))
      (omega arith)
  where
    printable : (low : Bool) {others : Bool} → low ≡ false → low || others ≡ true → others ≡ true
    printable true e both = cc
    printable false e both = both

string_calm : (n : ℕ) (str : List ℕ) → All IsPlain str → n ≤ 5 → calm (string_bits str) n ≡ true
unfolding string_bits short
string_calm n [] h le = unfold run in ground arith
string_calm n (c ∷ str) h le =
    rw (short-append, run-append)
      (together (code_calm c n h.0 le)
        (string_calm (run n (code_bits (get_elem? table c))) str h.1))
  where
    together :
        calm (code_bits (get_elem? table c)) n ≡ true
        → (run n (code_bits (get_elem? table c)) ≤ 5
            → calm (string_bits str) (run n (code_bits (get_elem? table c))) ≡ true)
        → (short n (code_bits (get_elem? table c))
            && short (run n (code_bits (get_elem? table c))) (string_bits str)
            && leb (run (run n (code_bits (get_elem? table c))) (string_bits str)) 5)
          ≡ true
    together first rest = ground (arith, rest)

all_ones_calm : all_below 6 (λ y. all_below 8 (λ x. short y (ones x))) ≡ true
unfolding all_below short bits_of
all_ones_calm = refl

ones_calm : (n k : ℕ) → n ≤ 5 → k < 8 → short n (ones k) ≡ true
ones_calm n k le lt =
    all_below_sound 8 (λ x. short n (ones x)) k
      (all_below_sound 6 (λ y. all_below 8 (λ x. short y (ones x))) n all_ones_calm (omega arith))
      lt

plain_bytes : (str : List ℕ) → All IsPlain str → All IsByte str
plain_bytes str h = All-weaken IsPlain IsByte str (λ c p. omega arith) h

start-IsRun : IsRun 0 0
start-IsRun = record { one = λ q. omega arith; two = λ q. omega arith; three = λ q. omega arith }

no_eos : (str r : List ℕ) → All IsPlain str → encode str ≡ ok r → eos_met 0 r ≡ false
no_eos str r h e = let (k, lt, o) = encode-Holds str (plain_bytes str h) in go k lt o
  where
    calm_end : (k : ℕ) → k < 8 → short 0 (string_bits str ++ ones k) ≡ true
    calm_end k lt =
        rw short-append
          (ground (arith, string_calm 0 str h (omega arith), ones_calm (run 0 (string_bits str)) k))

    go :
        (k : ℕ)
        → k < 8
        → Holds (length str + 3) (string_bits str ++ ones k) (encode str)
        → eos_met 0 r ≡ false
    go k lt (inl (r', e', held, room)) =
        eos_met-short 0 0 r start-IsRun (omega arith) (encode-IsByte str r e)
          (ap (short 0) (ap bits_of_bytes same ∙ held) ∙ calm_end k lt)
      where
        same : r ≡ r'
        same = cc
    go k lt (inr (e', full)) = cc

-- A string of printable ASCII characters whose codes fit the buffer is encoded, and decoding gives it
-- back.
pub decode-encode_plain :
    (c : ℕ) (str : List ℕ)
    → All IsPlain (c ∷ str)
    → needed (c ∷ str) ≤ length (c ∷ str) + 3
    → (r : List ℕ) × (encode (c ∷ str) ≡ ok r) × (decode r ≡ ok (c ∷ str))
decode-encode_plain c str h fits = go (encode_lem (c ∷ str) (plain_bytes (c ∷ str) h))
  where
    go :
        ((needed (c ∷ str) ≤ length (c ∷ str) + 3)
            × (r : List ℕ) × (encode (c ∷ str) ≡ ok r)
            × (length r ≡ needed (c ∷ str)))
          ⊎ ((length (c ∷ str) + 3 < needed (c ∷ str)) × (encode (c ∷ str) ≡ err constraint_error))
        → (r : List ℕ) × (encode (c ∷ str) ≡ ok r) × (decode r ≡ ok (c ∷ str))
    go (inr (long, failed)) = absurd (omega (arith, fits))
    go (inl (room, r, e, sized)) = (
      r,
      e,
      decode-encode c str r (plain_bytes (c ∷ str) h) e
          ∙ ap (λ (met : Bool). if met then err compression_error else ok (c ∷ str))
              (no_eos (c ∷ str) r h e),
    )
