-- ===== src/Hpack/Huffman.antt =====
-- Huffman coding of strings: src/http2/aws-http2-hpack-huffman.adb. Bytes, bits and characters are
-- numbers; `X and (2 ** B - 1)` is `x % 2 ^ b`, and `Shift_Right (X, K)` is `x / 2 ^ k`.
mod Digits
pub mod Bits
mod Parts
pub mod Packing
pub mod Encoding
mod Walking
mod Bytes
mod Eos
pub mod Total
pub mod RoundTrip
pub mod Plain
use Prim.Native.Nat.{bit_and, bit_or}
use aws.Base.{ℕ, zero, suc, ◌+◌, ◌-◌, ◌*◌, ◌/◌, ◌%◌, ◌^◌}
use aws.Base.{Bool, true, false, ◌&&◌, ◌||◌, not, List, [], ◌∷◌, ◌++◌}
use aws.Base.{Option, none, some, ltb, leb, ◌==◌, if◌then◌else◌, length, get_elem?}
use aws.Hpack.Codes.{Code, table}
use aws.Hpack.Outcome.{Outcome, ok, err, stuck, ◌>>=◌}
use aws.Hpack.Outcome.{constraint_error, compression_error}

-- `for K in reverse 0 .. N - 1 loop ... Shift_Right (V, K) and 1`: the bits, the highest first.
unfoldable pub bits_of : ℕ → ℕ → List ℕ
bits_of zero v = []
bits_of (suc k) v = (v / 2 ^ k % 2) ∷ bits_of k v

-- `Node_Access`: null, or a leaf with its character, or a node with its two children.
pub data Node : Type 0 where
  null : Node
  leaf : ℕ → Node
  node : Node → Node → Node

-- `Insert_Item`: the nodes on the path of the code are created where they are missing.
-- A leaf on the way has no component `LR`.
unfoldable pub insert_item : List ℕ → ℕ → Node → Outcome Node
insert_item [] c n = ok (leaf c)
insert_item (b ∷ bits) c (leaf d) = err constraint_error
insert_item (zero ∷ bits) c null = do l ← insert_item bits c null; ok (node l null)
insert_item (suc b ∷ bits) c null = do r ← insert_item bits c null; ok (node null r)
insert_item (zero ∷ bits) c (node l r) = do l' ← insert_item bits c l; ok (node l' r)
insert_item (suc b ∷ bits) c (node l r) = do r' ← insert_item bits c r; ok (node l r')

-- `for K in Table'Range loop Insert_Item (K)`; the leaf of EOS has the character NUL.
unfoldable pub create_tree : ℕ → List Code → Node → Outcome Node
unfolding insert_item bits_of
create_tree k [] root = ok root
create_tree k (c ∷ codes) root = do
  root' ← insert_item (bits_of c.n_bit c.bits) (if k == 256 then 0 else k) root
  create_tree (k + 1) codes root'

-- `Root`, set when the package is elaborated.
abbrev tree_or_null : Outcome Node → Node
tree_or_null (ok n) = n
tree_or_null (err e) = null
tree_or_null stuck = null

unfoldable pub root : Node
unfolding create_tree table
root = tree_or_null (create_tree 0 table null)

-- The variables of `Decode` over the bits: `iter`, the characters `Result (1 .. I)`, `padding`
-- and `pad_0`.
pub record Walk : Type 0 where
  pub iter : Node
  pub result : List ℕ
  pub padding : ℕ
  pub pad_0 : Bool

-- `Decode_Bit` and what `Decode` does with its answer. `Iter.LR` and `Iter.Leaf` fail where the
-- node is null or has no such component, and `Result (I)` past the end of `Result`.
unfoldable pub at_child : ℕ → ℕ → Walk → Node → Outcome Walk
at_child cap b w null = err constraint_error
at_child cap b w (leaf c) =
    if ltb (length w.result) cap
    then ok (record { iter = root; result = w.result ++ (c ∷ []); padding = 0; pad_0 = false })
    else err constraint_error
at_child cap b w (node l r) = ok (record {
  iter = node l r;
  result = w.result;
  padding = w.padding + 1;
  pad_0 = w.pad_0 || (b == 0);
})

unfoldable pub child : ℕ → Node → Option Node
child b null = none
child b (leaf c) = none
child zero (node l r) = some l
child (suc b) (node l r) = some r

abbrev pub descend : ℕ → ℕ → Walk → Option Node → Outcome Walk
descend cap b w none = err constraint_error
descend cap b w (some n) = at_child cap b w n

unfoldable pub decode_bit : ℕ → Walk → ℕ → Outcome Walk
unfolding child at_child
decode_bit cap w b = descend cap b w (child b w.iter)

unfoldable pub decode_bits : ℕ → List ℕ → Walk → Outcome Walk
unfolding decode_bit
decode_bits cap [] w = ok w
decode_bits cap (b ∷ bits) w = decode_bit cap w b >>= decode_bits cap bits

-- `V := Shift_Left (@, 8) or Unsigned_32 (E)`, the last four bytes.
unfoldable pub last_four : ℕ → ℕ → ℕ
last_four v e = bit_or (v * 256 % 2 ^ 32) e

-- `(V and EOS) = EOS and then K /= Str'Last`, with the bytes that follow.
unfoldable pub eos_found : ℕ → List ℕ → Bool
eos_found v [] = false
eos_found v (e ∷ rest) = bit_and v 0xfffffffa == 0xfffffffa

unfoldable pub decode_bytes : ℕ → ℕ → List ℕ → Walk → Outcome Walk
unfolding last_four eos_found decode_bits bits_of
decode_bytes cap v [] w = ok w
decode_bytes cap v (e ∷ rest) w =
    if eos_found (last_four v e) rest
    then err compression_error
    else decode_bits cap (bits_of 8 e) w >>= decode_bytes cap (last_four v e) rest

unfoldable pub check_padding : Walk → Outcome (List ℕ)
check_padding w =
    if ltb 7 w.padding
    then err compression_error
    else if w.pad_0
    then err compression_error
    else ok w.result

abbrev pub start : Walk
start = record { iter = root; result = []; padding = 0; pad_0 = false }

-- `Positive (Str'Length)` fails for the empty string.
unfoldable pub decode : List ℕ → Outcome (List ℕ)
unfolding decode_bytes check_padding
decode [] = err constraint_error
decode (e ∷ str) = decode_bytes (length (e ∷ str) * 3) 0 (e ∷ str) start >>= check_padding

-- The variables of `Encode`: the bytes `R (1 .. I)`, the value `V` and its free bits `B`.
pub record Buffer : Type 0 where
  pub r : List ℕ
  pub v : ℕ
  pub b : ℕ

-- `Push_Byte`; `cap` is the length of `R`.
unfoldable pub push_byte : ℕ → Buffer → Outcome Buffer
push_byte cap s =
    if ltb (length s.r) cap
    then ok (record { r = s.r ++ (s.v ∷ []); v = 0; b = 8 })
    else err constraint_error

-- `T := Shift_Left (H.Bits, B - N); T := @ and (2 ** B - 1)` where there is room for all the bits,
-- `T := Shift_Right (@, N - B); T := @ and (2 ** B - 1)` where there is not.
unfoldable pub low_part : ℕ → ℕ → ℕ → ℕ
low_part bits n b = bits * 2 ^ (b - n) % 2 ^ 32 % 2 ^ b

unfoldable pub high_part : ℕ → ℕ → ℕ → ℕ
high_part bits n b = bits / 2 ^ (n - b) % 2 ^ b

-- `Store_Bits`: `n` is the number of bits of the code that are left.
unfoldable pub store_bits : ℕ → ℕ → ℕ → ℕ → Buffer → Outcome Buffer
unfolding push_byte low_part high_part
store_bits zero cap bits n s = stuck
store_bits (suc fuel) cap bits n s =
    if leb n s.b
    then (let s' : Buffer = record { r = s.r; v = bit_or s.v (low_part bits n s.b); b = s.b - n } in
        if s'.b == 0 then push_byte cap s' else ok s')
    else push_byte cap (record { r = s.r; v = bit_or s.v (high_part bits n s.b); b = s.b })
      >>= store_bits fuel cap bits (n - s.b)

-- `Encode (C)`: the entry of the table at the character. Each round stores a bit at least.
unfoldable pub encode_code : ℕ → Buffer → Option Code → Outcome Buffer
unfolding store_bits
encode_code cap s none = err constraint_error
encode_code cap s (some h) = store_bits h.n_bit cap h.bits h.n_bit s

unfoldable pub encode_characters : ℕ → List ℕ → Buffer → Outcome Buffer
unfolding encode_code table
encode_characters cap [] s = ok s
encode_characters cap (c ∷ str) s =
    encode_code cap s (get_elem? table c) >>= encode_characters cap str

-- The free bits of the last byte are set to 1.
unfoldable pub finish : ℕ → Buffer → Outcome Buffer
unfolding push_byte
finish cap s =
    if s.b == 8
    then ok s
    else push_byte cap (record { r = s.r; v = bit_or s.v (2 ^ s.b - 1); b = s.b })

abbrev pub empty : Buffer
empty = record { r = []; v = 0; b = 8 }

abbrev bytes : Outcome Buffer → Outcome (List ℕ)
bytes o = o >>= λ s. ok s.r

unfoldable pub encode : List ℕ → Outcome (List ℕ)
unfolding encode_characters finish
encode str = let cap = length str + 3 in bytes (encode_characters cap str empty >>= finish cap)
