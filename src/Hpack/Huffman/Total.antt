-- ===== src/Hpack/Huffman/Total.antt =====
-- `Decode` of src/http2/aws-http2-hpack-huffman.adb on any bytes: the walk stays inside the tree, and
-- the buffer for the result is large enough.
use aws.Base.{ℕ, zero, suc, ◌+◌, ◌-◌, ◌*◌, ◌≤◌, ◌<◌, ◌≡◌, refl, sym, subst, arith}
use aws.Base.{List, [], ◌∷◌, ◌++◌, length, length-append, ◌⊎◌, inl, inr}
use aws.Base.{ltb, ◌==◌, ◌&&◌, ◌||◌, Bool, Bool-cases, true, false, if◌then◌else◌}
use aws.Hpack.Outcome.{Outcome, ok, err, ◌>>=◌, compression_error}
use aws.Hpack.Huffman.{
  bits_of, Node, null, leaf, node, root, Walk, at_child, descend, child, decode_bit, decode_bits,
}
use aws.Hpack.Huffman.{decode_bytes, decode, start, check_padding, last_four, eos_found}
use aws.Hpack.Huffman.Bits.{length-bits_of}
use aws.Hpack.Huffman.Walking.{root-node, left_of, right_of}

-- Below the node every branch ends in a leaf, at `k` steps or more.
deep : ℕ → Node → Bool
deep k null = false
deep k (leaf c) = k == 0
deep k (node l r) = deep (k - 1) l && deep (k - 1) r

-- The walk stands at a node with children, and each character so far took five bits.
record IsInside (seen : ℕ) (w : Walk) : Type 0 where
  left : Node
  right : Node
  at_node : w.iter ≡ node left right
  togo : ℕ
  deep_left : deep (togo - 1) left ≡ true
  deep_right : deep (togo - 1) right ≡ true
  togo_le : togo ≤ 5
  five : 5 * length w.result + 5 ≤ seen + togo

root-deep : (deep 4 (left_of root) ≡ true) × (deep 4 (right_of root) ≡ true)
unfolding deep root left_of right_of
root-deep = (refl, refl)

root-IsInside :
    (seen : ℕ) (result : List ℕ)
    → 5 * length result ≤ seen
    → IsInside seen (record { iter = root; result = result; padding = 0; pad_0 = false })
root-IsInside seen result h = record {
  left = left_of root;
  right = right_of root;
  at_node = root-node;
  togo = 5;
  deep_left = root-deep.0;
  deep_right = root-deep.1;
  togo_le = omega arith;
  five = omega arith;
}

-- The walk goes on inside the tree.
abbrev Continues : ℕ → Outcome Walk → Type 0
Continues seen o = (w : Walk) × (o ≡ ok w) × IsInside seen w

-- A step to a node that every branch leaves after `togo` steps at least.
at_child-IsInside :
    (cap b seen togo : ℕ) (w : Walk) (n : Node)
    → deep (togo - 1) n ≡ true
    → togo ≤ 5
    → 5 * length w.result + 5 ≤ seen + togo
    → seen < 5 * cap
    → Continues (seen + 1) (at_child cap b w n)
unfolding deep at_child
at_child-IsInside cap b seen togo w null h le five room = cc
at_child-IsInside cap b seen togo w (leaf c) h le five room = (
  record { iter = root; result = w.result ++ (c ∷ []); padding = 0; pad_0 = false },
  ground arith,
  root-IsInside (seen + 1) (w.result ++ (c ∷ [])) (rw length-append (ground arith)),
)
at_child-IsInside cap b seen togo w (node l r) h le five room = (
  record {
    iter = node l r;
    result = w.result;
    padding = w.padding + 1;
    pad_0 = w.pad_0 || (b == 0);
  },
  refl,
  record {
    left = l;
    right = r;
    at_node = refl;
    togo = togo - 1;
    deep_left = ground arith;
    deep_right = ground arith;
    togo_le = omega arith;
    five = omega arith;
  },
)

decode_bit-IsInside :
    (cap b seen : ℕ) (w : Walk)
    → IsInside seen w
    → seen < 5 * cap
    → Continues (seen + 1) (decode_bit cap w b)
unfolding decode_bit
decode_bit-IsInside cap zero seen w inside room =
    subst (λ (n : Node). Continues (seen + 1) (descend cap 0 w (child 0 n))) (sym inside.at_node)
      (at_child-IsInside cap 0 seen inside.togo w inside.left inside.deep_left inside.togo_le
        inside.five room)
decode_bit-IsInside cap (suc b) seen w inside room =
    subst (λ (n : Node). Continues (seen + 1) (descend cap (suc b) w (child (suc b) n)))
      (sym inside.at_node)
      (at_child-IsInside cap (suc b) seen inside.togo w inside.right inside.deep_right
        inside.togo_le inside.five room)

decode_bits-IsInside :
    (cap seen all_seen : ℕ) (bits : List ℕ) (w : Walk)
    → IsInside seen w
    → seen + length bits ≡ all_seen
    → all_seen ≤ 5 * cap
    → Continues all_seen (decode_bits cap bits w)
unfolding decode_bits
decode_bits-IsInside cap seen all_seen [] w inside e room =
    (w, refl, subst (λ (k : ℕ). IsInside k w) (omega arith) inside)
decode_bits-IsInside cap seen all_seen (b ∷ bits) w inside e room =
    let (w', stepped, inside') = decode_bit-IsInside cap b seen w inside (omega arith) in
    rw stepped (decode_bits-IsInside cap (seen + 1) all_seen bits w' inside' (omega arith) room)

-- Either all the bits are walked, or the check for EOS stops the walk.
abbrev Walks : ℕ → Outcome Walk → Type 0
Walks seen o = Continues seen o ⊎ (o ≡ err compression_error)

decode_bytes-IsInside :
    (cap seen all_seen v : ℕ) (bytes : List ℕ) (w : Walk)
    → IsInside seen w
    → seen + 8 * length bytes ≡ all_seen
    → all_seen ≤ 5 * cap
    → Walks all_seen (decode_bytes cap v bytes w)
unfolding decode_bytes
decode_bytes-IsInside cap seen all_seen v [] w inside e room =
    inl (w, refl, subst (λ (k : ℕ). IsInside k w) (omega arith) inside)
decode_bytes-IsInside cap seen all_seen v (x ∷ rest) w inside e room =
    let (w', walked, inside') =
      decode_bits-IsInside cap seen (seen + 8) (bits_of 8 x) w inside (rw length-bits_of)
        (omega arith) in
    rw walked (
      after_check (eos_found (last_four v x) rest) (
        decode_bytes-IsInside cap (seen + 8) all_seen (last_four v x) rest w' inside' (omega arith)
          room))
  where
    after_check :
        (found : Bool) {o : Outcome Walk}
        → Walks all_seen o
        → Walks all_seen (if found then err compression_error else o)
    after_check true walks = inr refl
    after_check false walks = walks

check_padding-cases :
    (w : Walk) → (check_padding w ≡ ok w.result) ⊎ (check_padding w ≡ err compression_error)
unfolding check_padding
check_padding-cases w = elim (Bool-cases (ltb 7 w.padding)) [
  | inl long ↦ inr (rw long)
  | inr short ↦ rw short (after_zeros w.pad_0)
]
  where
    after_zeros :
        (zeros : Bool)
        → ((if zeros then err compression_error else ok w.result) ≡ ok w.result)
          ⊎ ((if zeros then err compression_error else ok w.result) ≡ err compression_error)
    after_zeros true = inr refl
    after_zeros false = inl refl

-- On any bytes but none, `Decode` returns a string of at most 8 characters for 5 bytes, or fails with
-- a compression error. So three characters for a byte are room enough, and no null node is met.
pub decode_total :
    (e : ℕ) (bytes : List ℕ)
    → ((str : List ℕ) × (decode (e ∷ bytes) ≡ ok str) × (5 * length str ≤ 8 * length (e ∷ bytes)))
      ⊎ (decode (e ∷ bytes) ≡ err compression_error)
unfolding decode
decode_total e bytes = go (
    decode_bytes-IsInside (length (e ∷ bytes) * 3) 0 (8 * length (e ∷ bytes)) 0 (e ∷ bytes) start
      (root-IsInside 0 [] (omega arith)) (omega arith) (omega arith))
  where
    go :
        {o : Outcome Walk}
        → Walks (8 * length (e ∷ bytes)) o
        → ((str : List ℕ) × ((o >>= check_padding) ≡ ok str)
            × (5 * length str ≤ 8 * length (e ∷ bytes)))
          ⊎ ((o >>= check_padding) ≡ err compression_error)
    go (inr failed) = inr (rw failed)
    go (inl (w, walked, inside)) = rw walked (checked (check_padding-cases w))
      where
        checked :
            (check_padding w ≡ ok w.result) ⊎ (check_padding w ≡ err compression_error)
            → ((str : List ℕ) × (check_padding w ≡ ok str)
                × (5 * length str ≤ 8 * length (e ∷ bytes)))
              ⊎ (check_padding w ≡ err compression_error)
        checked (inl passed) = inl (w.result, passed, omega (arith, inside.five, inside.togo_le))
        checked (inr failed) = inr failed
