-- ===== src/Hpack/Huffman/Encoding.antt =====
-- The strings that `Encode` of src/http2/aws-http2-hpack-huffman.adb writes, and the length of them.
use Prim.Native.Nat.{bit_or}
use aws.Base.{
  ℕ, zero, suc, ◌+◌, ◌-◌, ◌*◌, ◌/◌, ◌^◌, ◌≤◌, ◌<◌, ◌≡◌, refl, sym, ap, ◌∙◌, subst, arith,
}
use aws.Base.{List, [], ◌∷◌, ◌++◌, length, length-append, append_assoc, append-nil, ◌⊎◌, inl, inr}
use aws.Base.{
  ltb, leb, ◌==◌, Bool-cases, Option, none, some, get_elem?, false, All, all, all_sound, leb→le,
}
use aws.Hpack.Codes.{Code, table}
use aws.Hpack.Outcome.{Outcome, ok, err, ◌>>=◌, constraint_error}
use aws.Hpack.Huffman.{
  bits_of, Buffer, push_byte, encode_code, encode_characters, finish, empty, encode,
}
use aws.Hpack.Huffman.Bits.{length-bits_of, bits_of-join, bit_or_free, pow_pos}
use aws.Hpack.Huffman.Packing.{
  bits_of_bytes, length-bits_of_bytes, bits_of_bytes-append, Ready, written, Reaches, Reaches-bind,
  store_bits-Reaches,
}
use native.Mathlib.Nat.{mul-div_cancel}

-- The bits of the entry of a character, and of a string.
unfoldable pub code_bits : Option Code → List ℕ
code_bits none = []
code_bits (some h) = bits_of h.n_bit h.bits

unfoldable pub string_bits : List ℕ → List ℕ
unfolding code_bits table
string_bits [] = []
string_bits (c ∷ str) = code_bits (get_elem? table c) ++ string_bits str

-- Every code of the table has at least five bits.
pub IsLong : Code → Type 0
IsLong h = 5 ≤ h.n_bit

table-IsLong : All IsLong table
unfolding IsLong table all
table-IsLong = all_sound IsLong (λ h. leb 5 h.n_bit) (λ h e. leb→le 5 h.n_bit e) table refl

length-table : length table ≡ 257
unfolding table
length-table = refl

All-get_elem? :
    {A : Type 0} (P : A → Type 0) (xs : List A) (i : ℕ)
    → All P xs
    → i < length xs
    → (x : A) × (get_elem? xs i ≡ some x) × P x
All-get_elem? P [] i h lt = absurd (omega arith)
All-get_elem? P (x ∷ xs) zero h lt = (x, refl, h.0)
All-get_elem? P (x ∷ xs) (suc i) h lt = All-get_elem? P xs i h.1 (omega arith)

pub table_lookup : (c : ℕ) → c < 256 → (h : Code) × (get_elem? table c ≡ some h) × (5 ≤ h.n_bit)
unfolding IsLong
table_lookup c lt = All-get_elem? IsLong table c table-IsLong (omega (arith, length-table))

encode_code-Reaches :
    (cap c : ℕ) (s : Buffer)
    → c < 256
    → Ready cap s
    → Reaches cap
        (written s ++ code_bits (get_elem? table c))
        (encode_code cap s (get_elem? table c))
unfolding code_bits encode_code
encode_code-Reaches cap c s lt ready =
    let (h, found, long) = table_lookup c lt in
    rw found (store_bits-Reaches h.n_bit cap h.bits h.n_bit s ready (omega arith) (omega arith))

abbrev pub IsByte : ℕ → Type 0
IsByte c = c < 256

encode_characters-Reaches :
    (cap : ℕ) (str : List ℕ) (s : Buffer)
    → All IsByte str
    → Ready cap s
    → Reaches cap (written s ++ string_bits str) (encode_characters cap str s)
unfolding string_bits encode_characters
encode_characters-Reaches cap [] s h ready = inl (s, refl, ready, sym (append-nil (written s)))
encode_characters-Reaches cap (c ∷ str) s h ready =
    subst
      (λ (l : List ℕ).
        Reaches cap l (encode_code cap s (get_elem? table c) >>= encode_characters cap str))
      (append_assoc (written s) (code_bits (get_elem? table c)) (string_bits str))
      (Reaches-bind cap _ (string_bits str) _ (encode_characters cap str)
        (encode_code-Reaches cap c s h.0 ready)
        (λ s' ready' e.
          subst (λ (l : List ℕ). Reaches cap (l ++ string_bits str) (encode_characters cap str s'))
            e (encode_characters-Reaches cap str s' h.1 ready')))

-- The bits set to 1 after the last code, where it does not end a byte.
abbrev pub ones : ℕ → List ℕ
ones k = bits_of k (2 ^ k - 1)

-- The bytes hold `l`, or the buffer has no room for them.
abbrev pub Holds : ℕ → List ℕ → Outcome (List ℕ) → Type 0
Holds cap l o =
    ((r : List ℕ) × (o ≡ ok r) × (bits_of_bytes r ≡ l) × (length r ≤ cap))
    ⊎ ((o ≡ err constraint_error) × (8 * cap + 8 ≤ length l))

finish_full :
    (cap : ℕ) (s : Buffer) {l : List ℕ}
    → written s ≡ l
    → s.b ≡ 8
    → length s.r ≤ cap
    → Holds cap (l ++ ones 0) (finish cap s >>= λ s'. ok s'.r)
unfolding written finish bits_of
finish_full cap s {l} w e room =
    inl (s.r, rw e, sym (append-nil _) ∙ ap (λ (x : List ℕ). x ++ []) (sym shut ∙ w), room)
  where
    shut : written s ≡ bits_of_bytes s.r
    shut = rw e (append-nil _)

ones_fill :
    (high b : ℕ)
    → b ≤ 8
    → bits_of 8 (bit_or (high * 2 ^ b) (2 ^ b - 1)) ≡ bits_of (8 - b) high ++ ones b
ones_fill high b h = rw (bit_or_free b high (2 ^ b - 1) below) (
    ap (λ (k : ℕ). bits_of k (high * 2 ^ b + (2 ^ b - 1))) all_eight
    ∙ bits_of-join (8 - b) b high (2 ^ b - 1) below)
  where
    below : 2 ^ b - 1 < 2 ^ b
    below = omega (arith, pow_pos b)

    all_eight : 8 ≡ 8 - b + b
    all_eight = omega arith

last_byte :
    (cap : ℕ) (s : Buffer)
    → Ready cap s
    → bits_of_bytes (s.r ++ (bit_or s.v (2 ^ s.b - 1) ∷ [])) ≡ written s ++ ones s.b
unfolding written
last_byte cap s ready =
    bits_of_bytes-append s.r _
    ∙ ap (λ (l : List ℕ). bits_of_bytes s.r ++ l)
        (append-nil _
          ∙ rw (ready.free_zero, mul-div_cancel ready.high (pow_pos s.b))
              (ones_fill ready.high s.b ready.free_le))
    ∙ sym (append_assoc (bits_of_bytes s.r) _ (ones s.b))

length-written : (s : Buffer) → length (written s) ≡ 8 * length s.r + (8 - s.b)
unfolding written
length-written s = rw (length-append, length-bits_of_bytes, length-bits_of)

finish_part :
    (cap : ℕ) (s : Buffer) {l : List ℕ}
    → Ready cap s
    → written s ≡ l
    → s.b == 8 ≡ false
    → Holds cap (l ++ ones s.b) (finish cap s >>= λ s'. ok s'.r)
unfolding finish push_byte
finish_part cap s {l} ready w part = elim (Bool-cases (ltb (length s.r) cap)) [
  | inl fits ↦ inl (
    s.r ++ (bit_or s.v (2 ^ s.b - 1) ∷ []),
    rw (part, fits),
    last_byte cap s ready ∙ ap (λ (x : List ℕ). x ++ ones s.b) w,
    rw length-append (ground arith),
  )
  | inr full ↦ inr (
    rw (part, full),
    rw (length-append, length-bits_of) (ground (arith, all_bits, ready.free_le)),
  )
]
  where
    all_bits : length l ≡ 8 * length s.r + (8 - s.b)
    all_bits = sym (ap length w) ∙ length-written s

finish_lem :
    (cap : ℕ) (s : Buffer) {l : List ℕ}
    → Ready cap s
    → written s ≡ l
    → (k : ℕ) × (k < 8) × Holds cap (l ++ ones k) (finish cap s >>= λ s'. ok s'.r)
finish_lem cap s ready w = elim (Bool-cases (s.b == 8)) [
  | inl full ↦ (0, omega arith, finish_full cap s w (ground arith) ready.room)
  | inr part ↦ (s.b, ground (arith, ready.free_le), finish_part cap s ready w part)
]

empty-Ready : (cap : ℕ) → Ready cap empty
empty-Ready cap = record {
  high = 0;
  free_zero = refl;
  free_pos = omega arith;
  free_le = omega arith;
  room = omega arith;
}

encoded-Holds :
    (cap : ℕ) (l : List ℕ) (o : Outcome Buffer)
    → Reaches cap l o
    → (k : ℕ) × (k < 8) × Holds cap (l ++ ones k) (o >>= finish cap >>= λ s. ok s.r)
encoded-Holds cap l o (inl (s, e, ready, w)) = rw e (finish_lem cap s ready w)
encoded-Holds cap l o (inr (e, short)) =
    (0, omega arith, inr (rw e, rw length-append (omega arith)))

written-empty : written empty ≡ []
unfolding written bits_of
written-empty = refl

-- The codes of the characters, then at most seven ones: or there is no room for them.
pub encode-Holds :
    (str : List ℕ)
    → All IsByte str
    → (k : ℕ) × (k < 8) × Holds (length str + 3) (string_bits str ++ ones k) (encode str)
unfolding encode
encode-Holds str h = encoded-Holds (length str + 3) (string_bits str) _ (
    subst
      (λ (l : List ℕ).
        Reaches (length str + 3) (l ++ string_bits str)
          (encode_characters (length str + 3) str empty))
      written-empty
      (encode_characters-Reaches (length str + 3) str empty h (empty-Ready (length str + 3))))

-- The number of bytes that the codes of a string need.
abbrev pub needed : List ℕ → ℕ
needed str = (length (string_bits str) + 7) / 8

-- `Encode` returns as many bytes as the codes of the string need where these are at most three more
-- than the string has characters, and fails otherwise.
pub encode_lem :
    (str : List ℕ)
    → All IsByte str
    → ((needed str ≤ length str + 3) × (r : List ℕ) × (encode str ≡ ok r) × (length r ≡ needed str))
      ⊎ ((length str + 3 < needed str) × (encode str ≡ err constraint_error))
encode_lem str h = let (k, lt, o) = encode-Holds str h in go k lt o
  where
    sized :
        (r : List ℕ) (k : ℕ)
        → bits_of_bytes r ≡ string_bits str ++ ones k
        → 8 * length r ≡ length (string_bits str) + k
    sized r k e = sym (length-bits_of_bytes r) ∙ ap length e ∙ rw (length-append, length-bits_of)

    go :
        (k : ℕ)
        → k < 8
        → Holds (length str + 3) (string_bits str ++ ones k) (encode str)
        → ((needed str ≤ length str + 3)
            × (r : List ℕ) × (encode str ≡ ok r)
            × (length r ≡ needed str))
          ⊎ ((length str + 3 < needed str) × (encode str ≡ err constraint_error))
    go k lt (inl (r, e, held, room)) =
        inl (omega (arith, sized r k held), r, e, omega (arith, sized r k held))
    go k lt (inr (e, short)) = inr (omega (arith, shorter), e)
      where
        shorter : 8 * (length str + 3) + 8 ≤ length (string_bits str) + k
        shorter = rw (length-append, length-bits_of) at short
