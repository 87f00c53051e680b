-- ===== src/Hpack/Huffman/Walking.antt =====
-- The walk of `Decode` of src/http2/aws-http2-hpack-huffman.adb through the tree: over the code of a
-- character, over those of a string, and over the ones after them.
use aws.Base.{lt→ltb}
use aws.Base.{ℕ, zero, suc, ◌+◌, ◌≤◌, ◌<◌, ◌≡◌, refl, sym, ap, ◌∙◌, subst, arith}
use aws.Base.{
  all_below, all_below_sound, List, [], ◌∷◌, ◌++◌, length, length-append, append_assoc, append-nil,
}
use aws.Base.{◌==◌, ◌||◌, Bool, get_elem?, true, false, All}
use aws.Hpack.Codes.{table}
use aws.Hpack.Outcome.{Outcome, ok, err, stuck, ◌>>=◌}
use aws.Hpack.Huffman.{bits_of, Node, null, leaf, node, root, Walk, decode_bit, decode_bits}
use aws.Hpack.Huffman.{check_padding}
use aws.Hpack.Huffman.Encoding.{code_bits, string_bits, IsByte, ones}

pub decode_bits-append :
    (cap : ℕ) (xs ys : List ℕ) (w : Walk)
    → decode_bits cap (xs ++ ys) w ≡ (decode_bits cap xs w >>= decode_bits cap ys)
unfolding decode_bits
decode_bits-append cap [] ys w = refl
decode_bits-append cap (x ∷ xs) ys w = go (decode_bit cap w x) (decode_bits-append cap xs ys)
  where
    go :
        (o : Outcome Walk)
        → ((w' : Walk)
            → decode_bits cap (xs ++ ys) w' ≡ (decode_bits cap xs w' >>= decode_bits cap ys))
        → (o >>= decode_bits cap (xs ++ ys)) ≡ (o >>= decode_bits cap xs >>= decode_bits cap ys)
    go (ok w') ih = ih w'
    go (err e) ih = refl
    go stuck ih = refl

-- The walk has just met a leaf, or not begun.
abbrev pub at_root : List ℕ → Walk
at_root result = record { iter = root; result = result; padding = 0; pad_0 = false }

-- The bits lead from a node to the leaf of the character, and to no leaf before it.
leads : Node → List ℕ → ℕ → Bool
leads null bits c = false
leads (leaf d) [] c = d == c
leads (leaf d) (b ∷ bits) c = false
leads (node l r) [] c = false
leads (node l r) (zero ∷ bits) c = leads l bits c
leads (node l r) (suc b ∷ bits) c = leads r bits c

decode_bits-leads :
    (cap c : ℕ) (l r : Node) (bits result : List ℕ) (padding : ℕ) (pad_0 : Bool)
    → leads (node l r) bits c ≡ true
    → length result < cap
    → decode_bits cap bits
        (record { iter = node l r; result = result; padding = padding; pad_0 = pad_0 })
      ≡ ok (at_root (result ++ (c ∷ [])))
unfolding decode_bits decode_bit leads
decode_bits-leads cap c l r [] result padding pad_0 h room = cc
decode_bits-leads cap c null r (zero ∷ bits) result padding pad_0 h room = cc
decode_bits-leads cap c (leaf d) r (zero ∷ []) result padding pad_0 h room =
    ground (arith, lt→ltb _ _ room)
decode_bits-leads cap c (leaf d) r (zero ∷ b ∷ bits) result padding pad_0 h room = cc
decode_bits-leads cap c (node l1 l2) r (zero ∷ bits) result padding pad_0 h room =
    decode_bits-leads cap c l1 l2 bits result (padding + 1) (pad_0 || true) h room
decode_bits-leads cap c l null (suc a ∷ bits) result padding pad_0 h room = cc
decode_bits-leads cap c l (leaf d) (suc a ∷ []) result padding pad_0 h room =
    ground (arith, lt→ltb _ _ room)
decode_bits-leads cap c l (leaf d) (suc a ∷ b ∷ bits) result padding pad_0 h room = cc
decode_bits-leads cap c l (node r1 r2) (suc a ∷ bits) result padding pad_0 h room =
    decode_bits-leads cap c r1 r2 bits result (padding + 1) (pad_0 || (suc a == 0)) h room

-- The tree has the leaf of each character at the end of its code.
codes_lead : all_below 256 (λ c. leads root (code_bits (get_elem? table c)) c) ≡ true
unfolding all_below leads root code_bits table
codes_lead = refl

unfoldable pub left_of : Node → Node
left_of (node l r) = l
left_of n = null

unfoldable pub right_of : Node → Node
right_of (node l r) = r
right_of n = null

pub root-node : root ≡ node (left_of root) (right_of root)
unfolding root left_of right_of
root-node = refl

decode_bits-code :
    (cap c : ℕ) (result : List ℕ)
    → c < 256
    → length result < cap
    → decode_bits cap (code_bits (get_elem? table c)) (at_root result)
      ≡ ok (at_root (result ++ (c ∷ [])))
decode_bits-code cap c result lt room =
    subst
      (λ (n : Node).
        decode_bits cap (code_bits (get_elem? table c))
          (record { iter = n; result = result; padding = 0; pad_0 = false })
        ≡ ok (at_root (result ++ (c ∷ []))))
      (sym root-node)
      (decode_bits-leads cap c (left_of root) (right_of root) _ result 0 false
        (subst (λ (n : Node). leads n (code_bits (get_elem? table c)) c ≡ true) root-node
          (all_below_sound 256 (λ x. leads root (code_bits (get_elem? table x)) x) c codes_lead lt))
        room)

pub decode_bits-string :
    (cap : ℕ) (str result : List ℕ)
    → All IsByte str
    → length result + length str ≤ cap
    → decode_bits cap (string_bits str) (at_root result) ≡ ok (at_root (result ++ str))
unfolding string_bits decode_bits
decode_bits-string cap [] result h room =
    ap (λ (l : List ℕ). ok (at_root l)) (sym (append-nil result))
decode_bits-string cap (c ∷ str) result h room =
    decode_bits-append cap (code_bits (get_elem? table c)) (string_bits str) (at_root result)
    ∙ ap (λ (o : Outcome Walk). o >>= decode_bits cap (string_bits str))
        (decode_bits-code cap c result h.0 (omega arith))
    ∙ decode_bits-string cap str (result ++ (c ∷ [])) h.1 (rw length-append (omega arith))
    ∙ ap (λ (l : List ℕ). ok (at_root l)) (append_assoc result (c ∷ []) str)

pub below : Node → List ℕ → Node
below n [] = n
below null (b ∷ bits) = null
below (leaf c) (b ∷ bits) = null
below (node l r) (zero ∷ bits) = below l bits
below (node l r) (suc b ∷ bits) = below r bits

abbrev pub padded : List ℕ → ℕ → Walk
padded result k = record { iter = below root (ones k); result = result; padding = k; pad_0 = false }

-- Seven ones at most lead to no leaf.
decode_bits-ones :
    (cap k : ℕ) (result : List ℕ)
    → k < 8
    → decode_bits cap (ones k) (at_root result) ≡ ok (padded result k)
unfolding decode_bits bits_of below root
decode_bits-ones cap zero result h = refl
decode_bits-ones cap (suc zero) result h = refl
decode_bits-ones cap (suc (suc zero)) result h = refl
decode_bits-ones cap (suc (suc (suc zero))) result h = refl
decode_bits-ones cap (suc (suc (suc (suc zero)))) result h = refl
decode_bits-ones cap (suc (suc (suc (suc (suc zero))))) result h = refl
decode_bits-ones cap (suc (suc (suc (suc (suc (suc zero)))))) result h = refl
decode_bits-ones cap (suc (suc (suc (suc (suc (suc (suc zero))))))) result h = refl
decode_bits-ones cap (suc (suc (suc (suc (suc (suc (suc (suc k)))))))) result h =
    absurd (omega arith)

-- The codes of a string and what fills the last byte lead back to the string.
pub decode_bits-encoded :
    (cap k : ℕ) (str : List ℕ)
    → All IsByte str
    → length str ≤ cap
    → k < 8
    → (decode_bits cap (string_bits str ++ ones k) (at_root []) ≡ ok (padded str k))
      × (check_padding (padded str k) ≡ ok str)
unfolding check_padding
decode_bits-encoded cap k str h room lt = (
  decode_bits-append cap (string_bits str) (ones k) (at_root [])
      ∙ ap (λ (o : Outcome Walk). o >>= decode_bits cap (ones k))
          (decode_bits-string cap str [] h (omega arith))
      ∙ decode_bits-ones cap k str lt,
  ground arith,
)
