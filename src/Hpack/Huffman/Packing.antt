-- ===== src/Hpack/Huffman/Packing.antt =====
-- What `Store_Bits` of src/http2/aws-http2-hpack-huffman.adb puts into the bytes, bit by bit, and
-- when the buffer is too small.
use Prim.Native.Nat.{bit_or}
use aws.Base.{le→leb, lt→leb}
use aws.Base.{
  ℕ, zero, suc, ◌+◌, ◌-◌, ◌*◌, ◌/◌, ◌%◌, ◌^◌, ◌≤◌, ◌<◌, ◌≡◌, refl, sym, ap, ◌∙◌, subst, arith,
}
use aws.Base.{List, [], ◌∷◌, ◌++◌, length, length-append, append_assoc, append-nil, ◌⊎◌, inl, inr}
use aws.Base.{ltb, leb, ◌==◌, Bool-cases}
use aws.Hpack.Outcome.{Outcome, ok, err, ◌>>=◌, constraint_error}
use aws.Hpack.Huffman.{bits_of, Buffer, push_byte, low_part, high_part, store_bits}
use aws.Hpack.Huffman.Bits.{length-bits_of, bits_of-add}
use native.Mathlib.Nat.{div-one}
use aws.Hpack.Huffman.Parts.{or_last, last_bits, first_bits}

-- The bits of a list of bytes.
abbrev pub bits_of_bytes : List ℕ → List ℕ
bits_of_bytes [] = []
bits_of_bytes (e ∷ es) = bits_of 8 e ++ bits_of_bytes es

pub bits_of_bytes-append :
    (xs ys : List ℕ) → bits_of_bytes (xs ++ ys) ≡ bits_of_bytes xs ++ bits_of_bytes ys
bits_of_bytes-append [] ys = refl
bits_of_bytes-append (x ∷ xs) ys =
    ap (λ (l : List ℕ). bits_of 8 x ++ l) (bits_of_bytes-append xs ys)
    ∙ sym (append_assoc (bits_of 8 x) (bits_of_bytes xs) (bits_of_bytes ys))

pub length-bits_of_bytes : (xs : List ℕ) → length (bits_of_bytes xs) ≡ 8 * length xs
length-bits_of_bytes [] = omega arith
length-bits_of_bytes (x ∷ xs) =
    rw (length-append, length-bits_of) (omega (arith, length-bits_of_bytes xs))

-- The first `8 - b` bits of `v` are written, and the others are 0.
pub record Ready (cap : ℕ) (s : Buffer) : Type 0 where
  pub high : ℕ
  pub free_zero : s.v ≡ high * 2 ^ s.b
  pub free_pos : 0 < s.b
  pub free_le : s.b ≤ 8
  pub room : length s.r ≤ cap

unfoldable pub written : Buffer → List ℕ
written s = bits_of_bytes s.r ++ bits_of (8 - s.b) (s.v / 2 ^ s.b)

written_byte :
    (r : List ℕ) (v : ℕ)
    → written (record { r = r ++ (v ∷ []); v = 0; b = 8 }) ≡ bits_of_bytes r ++ bits_of 8 v
unfolding written bits_of
written_byte r v = rw (append-nil, bits_of_bytes-append, append-nil)

-- An outcome with the bits `l` written, or the error that `R` has no room for their bytes.
abbrev pub Reaches : ℕ → List ℕ → Outcome Buffer → Type 0
Reaches cap l o =
    ((s : Buffer) × (o ≡ ok s) × Ready cap s × (written s ≡ l))
    ⊎ ((o ≡ err constraint_error) × (8 * cap + 8 ≤ length l))

pub Reaches-bind :
    (cap : ℕ) (l more : List ℕ) (m : Outcome Buffer) (f : Buffer → Outcome Buffer)
    → Reaches cap l m
    → ((s : Buffer) → Ready cap s → written s ≡ l → Reaches cap (l ++ more) (f s))
    → Reaches cap (l ++ more) (m >>= f)
Reaches-bind cap l more m f (inl (s, e, ready, w)) next = rw e (next s ready w)
Reaches-bind cap l more m f (inr (e, short)) next = inr (rw e, rw length-append (omega arith))

pub push_byte-Reaches :
    (cap : ℕ) (s : Buffer)
    → length s.r ≤ cap
    → Reaches cap (bits_of_bytes s.r ++ bits_of 8 s.v) (push_byte cap s)
unfolding push_byte written
push_byte-Reaches cap s room = elim (Bool-cases (ltb (length s.r) cap)) [
  | inl fits ↦ inl (
    record { r = s.r ++ (s.v ∷ []); v = 0; b = 8 },
    rw fits,
    record {
      high = 0;
      free_zero = refl;
      free_pos = omega arith;
      free_le = omega arith;
      room = rw length-append (ground arith);
    },
    written_byte s.r s.v,
  )
  | inr full ↦
      inr (rw full, rw (length-append, length-bits_of_bytes, length-bits_of) (ground arith))
]

-- The bits of the last byte after those of the bytes before it.
written-append :
    (s : Buffer) (more : List ℕ) {l : List ℕ}
    → l ≡ bits_of (8 - s.b) (s.v / 2 ^ s.b) ++ more
    → bits_of_bytes s.r ++ l ≡ written s ++ more
unfolding written
written-append s more e =
    ap (λ (l : List ℕ). bits_of_bytes s.r ++ l) e
    ∙ sym (append_assoc (bits_of_bytes s.r) (bits_of (8 - s.b) (s.v / 2 ^ s.b)) more)

module _ (cap bits n : ℕ) (s : Buffer) (ready : Ready cap s) where
  -- The value with the last bits of the code.
  last_value : ℕ
  last_value = bit_or s.v (low_part bits n s.b)

  last_written :
      (d : ℕ)
      → s.b ≡ n + d
      → bits_of_bytes s.r ++ bits_of (8 - d) (last_value / 2 ^ d) ≡ written s ++ bits_of n bits
  unfolding last_value
  last_written d e =
      written-append s _ (last_bits bits ready.high s.v s.b n d ready.free_zero e ready.free_le)

  -- A code, or what is left of one, that fills the free bits, and one that leaves some.
  store_full :
      s.b ≡ n
      → Reaches cap
          (written s ++ bits_of n bits)
          (push_byte cap (record { r = s.r; v = last_value; b = s.b - n }))
  store_full e =
      subst
        (λ (l : List ℕ).
          Reaches cap l (push_byte cap (record { r = s.r; v = last_value; b = s.b - n })))
        (ap (λ (x : ℕ). bits_of_bytes s.r ++ bits_of 8 x) (sym (div-one last_value))
          ∙ last_written 0 (omega arith))
        (push_byte-Reaches cap (record { r = s.r; v = last_value; b = s.b - n }) ready.room)

  store_part :
      n < s.b
      → Reaches cap
          (written s ++ bits_of n bits)
          (ok (record { r = s.r; v = last_value; b = s.b - n }))
  unfolding last_value written
  store_part h = inl (
    record { r = s.r; v = last_value; b = s.b - n },
    refl,
    record {
      high = ready.high * 2 ^ n + bits % 2 ^ n;
      free_zero =
          or_last bits ready.high s.v s.b n (s.b - n) ready.free_zero (omega arith) ready.free_le;
      free_pos = omega arith;
      free_le = omega arith;
      room = ready.room;
    },
    last_written (s.b - n) (omega arith),
  )

  store_last :
      (fuel : ℕ)
      → n ≤ s.b
      → Reaches cap (written s ++ bits_of n bits) (store_bits (suc fuel) cap bits n s)
  unfolding store_bits last_value
  store_last fuel fits = elim (Bool-cases (s.b - n == 0)) [
    | inl full ↦ rw (le→leb n s.b fits, full) (store_full (ground arith))
    | inr more ↦ rw (le→leb n s.b fits, more) (store_part (ground arith))
  ]

  -- The first bits of a code that does not fit fill the byte.
  fill_byte :
      Reaches cap
        (written s ++ bits_of s.b (bits / 2 ^ (n - s.b)))
        (push_byte cap (record { r = s.r; v = bit_or s.v (high_part bits n s.b); b = s.b }))
  fill_byte =
      subst
        (λ (l : List ℕ).
          Reaches cap l
            (push_byte cap (record { r = s.r; v = bit_or s.v (high_part bits n s.b); b = s.b })))
        (written-append s _ (first_bits bits ready.high s.v s.b n ready.free_zero ready.free_le))
        (push_byte-Reaches cap (record { r = s.r; v = bit_or s.v (high_part bits n s.b); b = s.b })
          ready.room)

  whole_code :
      s.b ≤ n
      → (written s ++ bits_of s.b (bits / 2 ^ (n - s.b))) ++ bits_of (n - s.b) bits
        ≡ written s ++ bits_of n bits
  whole_code h =
      append_assoc (written s) _ _
      ∙ ap (λ (l : List ℕ). written s ++ l)
          (sym (bits_of-add s.b (n - s.b) bits) ∙ ap (λ (k : ℕ). bits_of k bits) together)
    where
      together : s.b + (n - s.b) ≡ n
      together = omega arith

  store_more :
      (fuel : ℕ)
      → s.b < n
      → ((s' : Buffer)
          → Ready cap s'
          → Reaches cap
              (written s' ++ bits_of (n - s.b) bits)
              (store_bits fuel cap bits (n - s.b) s'))
      → Reaches cap (written s ++ bits_of n bits) (store_bits (suc fuel) cap bits n s)
  unfolding store_bits
  store_more fuel h rest = rw (lt→leb n s.b h) (
      subst
        (λ (l : List ℕ). Reaches cap l (
          push_byte cap (record { r = s.r; v = bit_or s.v (high_part bits n s.b); b = s.b })
          >>= store_bits fuel cap bits (n - s.b)))
        (whole_code (omega arith))
        (Reaches-bind cap _ (bits_of (n - s.b) bits) _ (store_bits fuel cap bits (n - s.b))
          fill_byte
          (λ s' ready' e.
            subst
              (λ (l : List ℕ).
                Reaches cap (l ++ bits_of (n - s.b) bits) (store_bits fuel cap bits (n - s.b) s'))
              e (rest s' ready'))))

pub store_bits-Reaches :
    (fuel cap bits n : ℕ) (s : Buffer)
    → Ready cap s
    → 0 < n
    → n ≤ fuel
    → Reaches cap (written s ++ bits_of n bits) (store_bits fuel cap bits n s)
store_bits-Reaches zero cap bits n s ready pos enough = absurd (omega arith)
store_bits-Reaches (suc fuel) cap bits n s ready pos enough = elim (Bool-cases (leb n s.b)) [
  | inl fits ↦ store_last cap bits n s ready fuel (ground arith)
  | inr more ↦ store_more cap bits n s ready fuel (ground arith) (λ s' ready'.
      store_bits-Reaches fuel cap bits (n - s.b) s' ready' (ground arith)
        (ground (arith, ready.free_pos)))
]
