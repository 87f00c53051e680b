-- ===== src/XosCons/TypesText.antt =====
-- config/setup/xoscons.adb on config/setup/os_lib-tmplt.c: the types that AWS.OS_Lib gets on a target.
use aws.Base.{
  ℕ, ◌≡◌, refl, ap, ◌∙◌, ◌++◌, Bool, true, false, not, ◌&&◌, some, List, [], ◌∷◌, map, Text, codes,
  text_eq, all, all_sound, All, ltb, ◌==◌, if◌then◌else◌, arith,
}
use aws.OsLib.Macros.{Platform, Marker}
use aws.OsLib.Sites.Offsets.{compile-HoldsSizes}
use aws.OsLib.Template.{compile}
use aws.XosCons.{Table, empty_table}
use aws.XosCons.Branches.{Block, finished, branch, IsBlock, evaluate, holds}
use aws.XosCons.Condition.{line_kind, plain_line, is_if}
use aws.XosCons.Listing.{load}
use aws.XosCons.Numbers.{IsOperandPrefix}
use aws.XosCons.RoundTrip.{listing_line, IsPrintable}
use aws.XosCons.Types.{
  general_types, in6_head, in6_length, in6_unexpected, in6_tail, addr_info_head, canonname_field,
  addr_field, addr_info_tail, plain_lines, in6_fields, addr_info_fields, in6_block, addr_info_block,
  types_block,
}
use aws.XosCons.Decisions.{
  has_netdb, HasSmallOffsets, HoldsSizes-HasOffsets, Decides, HasOffsets-Decides,
}

abbrev IsCopied : Text → Type 0
IsCopied l = line_kind l ≡ plain_line

plain_lines-IsBlock :
    (t : Table) (ls : List Text) (b : Block)
    → All IsCopied ls
    → IsBlock t b
    → IsBlock t (plain_lines ls b)
plain_lines-IsBlock t [] b h k = k
plain_lines-IsBlock t (l ∷ ls) b h k = (h.0, plain_lines-IsBlock t ls b h.1 k)

evaluate-plain_lines :
    (t : Table) (ls : List Text) (b : Block) → evaluate t (plain_lines ls b) ≡ ls ++ evaluate t b
evaluate-plain_lines t [] b = refl
evaluate-plain_lines t (l ∷ ls) b = ap (λ r. l ∷ r) (evaluate-plain_lines t ls b)

unfoldable is_copied : Text → Bool
is_copied l = elim (line_kind l) [ plain_line ↦ true | _ ↦ false ]

is_copied_sound : (l : Text) → is_copied l ≡ true → IsCopied l
unfolding is_copied
is_copied_sound l h = ground arith

plain_lines-IsCopied : (ls : List Text) → all is_copied ls ≡ true → All IsCopied ls
plain_lines-IsCopied ls h = all_sound IsCopied is_copied is_copied_sound ls h

-- What the comment becomes: whether there is a type Sockaddr_In6, the offset of the family in it, and
-- whether ai_canonname comes first in Addr_Info.
abbrev pub types_text : Bool → ℕ → Bool → List Text
types_text in6 sin_offset canonname_first =
    map codes general_types
    ++ ((if in6
          then map codes in6_head
            ++ ((if sin_offset == 1
                  then map codes in6_length
                  else if sin_offset == 0
                  then []
                  else map codes in6_unexpected)
                ++ map codes in6_tail)
          else [])
        ++ (map codes addr_info_head
            ++ ((if canonname_first
                  then map codes canonname_field ++ map codes addr_field
                  else map codes addr_field ++ map codes canonname_field)
                ++ map codes addr_info_tail)))

module _ {t : Table} {in6 canonname_first : Bool} {sin_offset : ℕ}
    (d : Decides t in6 sin_offset canonname_first) where
  in6_block-IsBlock : IsBlock t in6_block
  unfolding in6_block all is_copied line_kind text_eq is_if
  in6_block-IsBlock =
      plain_lines-IsBlock t (map codes in6_head) in6_fields
        (plain_lines-IsCopied (map codes in6_head) refl)
        (
          refl,
          (sin_offset == 1, d.length_eq),
          (refl, tt),
          (refl, (not (sin_offset == 0), d.unexpected_eq), (refl, tt), tt),
          plain_lines-IsBlock t (map codes in6_tail) finished
              (plain_lines-IsCopied (map codes in6_tail) refl) tt,
        )

  addr_info_block-IsBlock : IsBlock t addr_info_block
  unfolding addr_info_block all is_copied line_kind text_eq is_if
  addr_info_block-IsBlock =
      plain_lines-IsBlock t (map codes addr_info_head) addr_info_fields
        (plain_lines-IsCopied (map codes addr_info_head) refl)
        (
          refl,
          (canonname_first, d.canonname_eq),
          (refl, (refl, tt)),
          (refl, (refl, tt)),
          plain_lines-IsBlock t (map codes addr_info_tail) finished
              (plain_lines-IsCopied (map codes addr_info_tail) refl) tt,
        )

  types_block-IsBlock : IsBlock t types_block
  unfolding types_block all is_copied line_kind text_eq is_if
  types_block-IsBlock =
      plain_lines-IsBlock t (map codes general_types)
        (branch (codes "@IF AI_FAMILY_OFFSET > 0") in6_block addr_info_block)
        (plain_lines-IsCopied (map codes general_types) refl)
        (refl, (in6, d.in6_eq), in6_block-IsBlock, addr_info_block-IsBlock)

  evaluate-in6_block :
      evaluate t in6_block
      ≡ map codes in6_head
        ++ ((if sin_offset == 1
              then map codes in6_length
              else if sin_offset == 0
              then []
              else map codes in6_unexpected)
            ++ map codes in6_tail)
  unfolding in6_block
  evaluate-in6_block = rw (d_length, d_unexpected) (parts (sin_offset == 1) (sin_offset == 0))
    where
      d_length : holds t (codes "@IF SIN_FAMILY_OFFSET = 1") ≡ (sin_offset == 1)
      d_length = rw (holds, d.length_eq)

      d_unexpected : holds t (codes "@IF SIN_FAMILY_OFFSET /= 0") ≡ not (sin_offset == 0)
      d_unexpected = rw (holds, d.unexpected_eq)

      parts :
          (one zero : Bool)
          → map codes in6_head
              ++ ((if one
                    then map codes in6_length
                    else ((if not zero then map codes in6_unexpected else []) ++ []))
                  ++ map codes in6_tail)
            ≡ map codes in6_head
              ++ ((if one
                    then map codes in6_length
                    else if zero
                    then []
                    else map codes in6_unexpected)
                  ++ map codes in6_tail)
      parts true b = refl
      parts false true = refl
      parts false false = refl

  evaluate-addr_info_block :
      evaluate t addr_info_block
      ≡ map codes addr_info_head
        ++ ((if canonname_first
              then map codes canonname_field ++ map codes addr_field
              else map codes addr_field ++ map codes canonname_field)
            ++ map codes addr_info_tail)
  unfolding addr_info_block
  evaluate-addr_info_block =
      ap
        (λ b.
          map codes addr_info_head
          ++ ((if b
                then map codes canonname_field ++ map codes addr_field
                else map codes addr_field ++ map codes canonname_field)
              ++ map codes addr_info_tail))
        d_canonname
    where
      d_canonname : holds t (codes "@IF AI_CANONNAME_OFFSET < AI_ADDR_OFFSET") ≡ canonname_first
      d_canonname = rw (holds, d.canonname_eq)

  evaluate-types_block : evaluate t types_block ≡ types_text in6 sin_offset canonname_first
  unfolding types_block
  evaluate-types_block =
      evaluate-plain_lines t (map codes general_types)
        (branch (codes "@IF AI_FAMILY_OFFSET > 0") in6_block addr_info_block)
      ∙ rw (d_in6, evaluate-in6_block, evaluate-addr_info_block)
    where
      d_in6 : holds t (codes "@IF AI_FAMILY_OFFSET > 0") ≡ in6
      d_in6 = rw (holds, d.in6_eq)

-- The comment "Some types" of the template, copied with the table that is read from the listing of the
-- template's own markers, on any target on which it compiles, with offsets that fit an int: its
-- conditional parts are well nested and their conditions can be read. The package gets the type
-- Sockaddr_In6 exactly if <netdb.h> is there and ai_family does not have offset 0; it has a
-- component Length before Family if sin_family has offset 1, none if it has offset 0, and for any other
-- offset a line that does not compile. In Addr_Info ai_canonname comes before ai_addr exactly if <netdb.h>
-- is there and has it at a smaller offset. All other lines are copied.
pub evaluate-types_text :
    (p : Platform) {prefix : Text} {out : List Marker}
    → compile p ≡ some out
    → IsOperandPrefix prefix
    → All IsPrintable out
    → HasSmallOffsets p.layout
    → IsBlock (load (map (listing_line prefix) out) empty_table) types_block
      × (evaluate (load (map (listing_line prefix) out) empty_table) types_block
          ≡ types_text
              (has_netdb p && ltb 0 p.layout.ai_family_offset)
              p.layout.sin_family_offset
              (has_netdb p && ltb p.layout.ai_canonname_offset p.layout.ai_addr_offset))
evaluate-types_text p h pre hs small =
    let d = HasOffsets-Decides p (HoldsSizes-HasOffsets p (compile-HoldsSizes p h) small) pre hs in
    (types_block-IsBlock d, evaluate-types_block d)
