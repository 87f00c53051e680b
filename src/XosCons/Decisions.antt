-- ===== src/XosCons/Decisions.antt =====
-- config/setup/xoscons.adb on config/setup/os_lib-tmplt.c: how the conditions of the template's text come
-- out on a target.
use aws.Base.{
  ℕ, ◌≡◌, ◌<◌, ◌^◌, refl, ap, ◌∙◌, ◌++◌, ℤ, pos, negsuc, to_int_of_IsInt, Bool, true, false, not,
  ◌&&◌, Option, some, none, List, [], ◌∷◌, map, Text, codes, text_eq, decimal_value, int_eq,
  is_digit, all, All, Sub-All, ltb, ◌==◌, if◌then◌else◌, ◌>>=◌, arith,
}
use aws.OsLib.Macros.{Layout, Platform, Marker, defined, start}
use aws.OsLib.Sites.Sections.{general_sites}
use aws.OsLib.Sites.Offsets.{HoldsSizes, size_markers, addrinfo_value}
use aws.OsLib.Sites.{Site, site}
use aws.XosCons.{Table, empty_table}
use aws.XosCons.Comparison.{
  Operator, marker_value, operand_value, compare_int, condition-compare_int, int_ltb,
}
use aws.XosCons.Condition.{condition}
use aws.XosCons.Listing.{load, unsigned_value}
use aws.XosCons.Numbers.{IsOperandPrefix}
use aws.XosCons.RoundTrip.{listing_line, IsPrintable}

-- The name is not that of a site.
abbrev NotNamed : Text → Site → Type 0
NotNamed name (l, some n) = text_eq name (codes n) ≡ false
NotNamed name (l, none) = Unit

marker_value-append :
    (name : Text) (before ms : List Marker)
    → All (NotNamed name) (map site before)
    → marker_value name (before ++ ms) ≡ marker_value name ms
marker_value-append name [] ms h = refl
marker_value-append name (Marker.cnd l n z k ∷ before) ms h =
    rw (h.0, if◌then◌else◌) (marker_value-append name before ms h.1)
marker_value-append name (Marker.cns l n t k ∷ before) ms h =
    rw (h.0, if◌then◌else◌) (marker_value-append name before ms h.1)
marker_value-append name (Marker.c l n ty t k ∷ before) ms h =
    rw (h.0, if◌then◌else◌) (marker_value-append name before ms h.1)
marker_value-append name (Marker.txt l t ∷ before) ms h = marker_value-append name before ms h.1

abbrev pub has_netdb : Platform → Bool
has_netdb p = defined (start p) "AI_PASSIVE"

-- The offsets fit an int.
pub record HasSmallOffsets (l : Layout) : Type 0 where
  pub sin_family : l.sin_family_offset < 2 ^ 31
  pub ai_family : l.ai_family_offset < 2 ^ 31
  pub ai_canonname : l.ai_canonname_offset < 2 ^ 31
  pub ai_addr : l.ai_addr_offset < 2 ^ 31

-- The integers of the four offsets in a compiled template.
pub record HasOffsets (p : Platform) (out : List Marker) : Type 0 where
  sin_family : operand_value (codes "SIN_FAMILY_OFFSET") out ≡ some (pos p.layout.sin_family_offset)
  ai_family :
      operand_value (codes "AI_FAMILY_OFFSET") out
      ≡ some (if has_netdb p then pos p.layout.ai_family_offset else negsuc 6)
  ai_canonname :
      operand_value (codes "AI_CANONNAME_OFFSET") out
      ≡ some (if has_netdb p then pos p.layout.ai_canonname_offset else negsuc 1)
  ai_addr :
      operand_value (codes "AI_ADDR_OFFSET") out
      ≡ some (if has_netdb p then pos p.layout.ai_addr_offset else negsuc 2)

addrinfo_value-small :
    (netdb : Bool) (n m : ℕ)
    → n < 2 ^ 31
    → m < 2 ^ 31
    → addrinfo_value netdb n (negsuc m) ≡ (if netdb then pos n else negsuc m)
addrinfo_value-small true n m h k = to_int_of_IsInt (pos n) h
addrinfo_value-small false n m h k = to_int_of_IsInt (negsuc m) k

pub HoldsSizes-HasOffsets :
    (p : Platform) {out : List Marker}
    → HoldsSizes p out
    → HasSmallOffsets p.layout
    → HasOffsets p out
unfolding all text_eq
HoldsSizes-HasOffsets p {out} held small = record {
  sin_family =
      find (codes "SIN_FAMILY_OFFSET") (refl) (tt, (tt, (tt, (tt, (tt, (refl, (refl, tt)))))))
      ∙ ap some (to_int_of_IsInt (pos p.layout.sin_family_offset) small.sin_family);
  ai_family =
      find (codes "AI_FAMILY_OFFSET") refl (tt, (tt, (tt, (tt, (tt, (refl, (refl, tt)))))))
      ∙ ap some (
          addrinfo_value-small (has_netdb p) p.layout.ai_family_offset 6 small.ai_family
            (omega arith));
  ai_canonname =
      find (codes "AI_CANONNAME_OFFSET") refl (tt, (tt, (tt, (tt, (tt, (refl, (refl, tt)))))))
      ∙ ap some (
          addrinfo_value-small (has_netdb p) p.layout.ai_canonname_offset 1 small.ai_canonname
            (omega arith));
  ai_addr =
      find (codes "AI_ADDR_OFFSET") refl (tt, (tt, (tt, (tt, (tt, (refl, (refl, tt)))))))
      ∙ ap some (
          addrinfo_value-small (has_netdb p) p.layout.ai_addr_offset 2 small.ai_addr (omega arith));
}
  where
    sizes_after : List Marker
    sizes_after = size_markers p.layout (has_netdb p) held.fd ++ held.after

    find :
        (name : Text)
        → all is_digit name ≡ false
        → All (NotNamed name) general_sites
        → operand_value name out ≡ marker_value name sizes_after
    find name digits other =
        rw (digits, if◌then◌else◌, held.out_eq)
          (marker_value-append name held.before sizes_after
            (Sub-All (NotNamed name) held.head other))

pub record Decides (t : Table) (in6 : Bool) (sin_offset : ℕ) (canonname_first : Bool) : Type 0 where
  pub in6_eq : condition t (codes "@IF AI_FAMILY_OFFSET > 0") ≡ some in6
  pub length_eq : condition t (codes "@IF SIN_FAMILY_OFFSET = 1") ≡ some (sin_offset == 1)
  pub unexpected_eq :
      condition t (codes "@IF SIN_FAMILY_OFFSET /= 0") ≡ some (not (sin_offset == 0))
  pub canonname_eq :
      condition t (codes "@IF AI_CANONNAME_OFFSET < AI_ADDR_OFFSET") ≡ some canonname_first

operand_zero : (out : List Marker) → operand_value (codes "0") out ≡ some (pos 0)
unfolding all unsigned_value decimal_value
operand_zero out = refl

operand_one : (out : List Marker) → operand_value (codes "1") out ≡ some (pos 1)
unfolding all unsigned_value decimal_value
operand_one out = refl

in6_order :
    (netdb : Bool) (n : ℕ)
    → int_ltb (pos 0) (if netdb then pos n else negsuc 6) ≡ (netdb && ltb 0 n)
in6_order true n = refl
in6_order false n = refl

canonname_order :
    (netdb : Bool) (m n : ℕ)
    → int_ltb (if netdb then pos m else negsuc 1) (if netdb then pos n else negsuc 2)
      ≡ (netdb && ltb m n)
canonname_order true m n = refl
canonname_order false m n = refl

pub HasOffsets-Decides :
    (p : Platform) {prefix : Text} {out : List Marker}
    → HasOffsets p out
    → IsOperandPrefix prefix
    → All IsPrintable out
    → Decides
        (load (map (listing_line prefix) out) empty_table)
        (has_netdb p && ltb 0 p.layout.ai_family_offset)
        p.layout.sin_family_offset
        (has_netdb p && ltb p.layout.ai_canonname_offset p.layout.ai_addr_offset)
unfolding int_eq
HasOffsets-Decides p {prefix} {out} o pre hs = record {
  in6_eq =
      condition-compare_int Operator.greater (codes "AI_FAMILY_OFFSET") (codes "0") out
        (omega arith) (omega arith) pre hs
      ∙ values Operator.greater o.ai_family (operand_zero out)
      ∙ ap some (in6_order (has_netdb p) p.layout.ai_family_offset);
  length_eq =
      condition-compare_int Operator.equal (codes "SIN_FAMILY_OFFSET") (codes "1") out (omega arith)
        (omega arith) pre hs
      ∙ values Operator.equal o.sin_family (operand_one out);
  unexpected_eq =
      condition-compare_int Operator.unequal (codes "SIN_FAMILY_OFFSET") (codes "0") out
        (omega arith) (omega arith) pre hs
      ∙ values Operator.unequal o.sin_family (operand_zero out);
  canonname_eq =
      condition-compare_int Operator.less (codes "AI_CANONNAME_OFFSET") (codes "AI_ADDR_OFFSET") out
        (omega arith) (omega arith) pre hs
      ∙ values Operator.less o.ai_canonname o.ai_addr
      ∙ ap some
          (canonname_order (has_netdb p) p.layout.ai_canonname_offset p.layout.ai_addr_offset);
}
  where
    values :
        (op : Operator) {a b : Option ℤ} {y z : ℤ}
        → a ≡ some y
        → b ≡ some z
        → (a >>= λ i. b >>= λ j. some (compare_int op i j)) ≡ some (compare_int op y z)
    values op e f = rw (e, f)
