-- ===== src/XosCons/Tests.antt =====
-- config/setup/xoscons.adb on small inputs.
use aws.Base.{
  ℕ, zero, suc, ◌<◌, ◌≤◌, AllPairs, All-weaken, Bool-cases, inl, inr, ==_iff, leb, In, here, there,
  length, sym, subst, ◌+◌, not, ltb, ◌&&◌, ◌==◌, all_sound, IsFree, IsInt, int_eq, of_word, to_int,
  to_word, ◌^◌, ◌≡◌, ◌≢◌, refl, ℤ, pos, negsuc, Bool, true, false, some, List, [], ◌∷◌, map, Text,
  codes, All, text_eq, all, cut, decimal, decimal_digits, decimal_value, done, keep, skip, arith,
}
use aws.OsLib.Entries.{run_entry, run_entries}
use aws.OsLib.Headers.{
  headers, define_all, define_from, require_target, vxworks_shutdown, windows_names,
}
use aws.OsLib.General.{general, emit_txt, target_os, version_text, with_clauses}
use aws.OsLib.Sizes.{
  sizes, emit_size, poll_sizes, poll_values, io_constants, define_fionwrite, addrinfo_offsets,
  fionwrite, poll_fallbacks,
}
use aws.OsLib.Errno.{errno_values}
use aws.OsLib.Families.{define_or_have, families, forced_flags, msg_waitall, socket_constants}
use aws.OsLib.Linux.{linux, find_macro, from_some, linux_out, linux-compile}
use aws.OsLib.Secure.{define_numbers, mingw_constants, secure_sockets, socket_is, winsock_codes}
use aws.OsLib.Template.{sections, compile}
use aws.OsLib.Macros.{Marker, undef, start, define, ifndef, emit_cnd, emit_cns, emit_c}
use aws.XosCons.{AsmInfo, lang_ada, lang_c, Table, empty_table, int_gt, int_same, kind_value}
use aws.XosCons.Branches.{IsBlock, Block, either, render_branches, evaluate, parse_cond-evaluate}
use aws.XosCons.Columns.{load-columns}
use aws.XosCons.Output.{declaration}
use aws.XosCons.Comparison.{Operator, condition-compare_int}
use aws.XosCons.Condition.{
  parse_cond, condition, slices, get_value, find_value, compare_values, is_if, line_kind,
}
use aws.XosCons.Emitted.{xoscons-files_of}
use aws.XosCons.Listing.{
  load, parse_line, parse_asm_line, cut_first, unsigned_value, signed_value, skip_prefix, parse_int,
  to_integer, parse_fields, see_name, see_size, see_type, see_value, parse_number, parse_text,
  image_length,
}
use aws.XosCons.Numbers.{dollar}
use aws.XosCons.Package.{line_of, xoscons-compile}
use aws.XosCons.Parts.{
  IsComment, code_numbers, IsParts, IsMore, IsMarker, Parts, nothing, code_part, comment_part,
  marker_part, outside_part, lines_of, files_of, over, outside_line, outside_marker,
}
use aws.XosCons.RoundTrip.{IsPrintable, has_small_size, listing_line, info_of, load-listing_line}
use aws.XosCons.Types.{types_block, addr_info_block}
use aws.XosCons.TypesText.{types_text, evaluate-types_text}
use aws.XosCons.Template.{
  xoscons, line_marker, starts_with, contains_template_name, contains, span_digits,
}

abbrev markers : List Marker
markers =
    Marker.txt 4 " -- Sizes"
    ∷ Marker.cnd 6 "AI_A" (negsuc 2) "first"
    ∷ Marker.cns 7 "Name" "12" ""
    ∷ Marker.c 8 "Target" "String" "linux" "a text"
    ∷ []

markers-IsPrintable : All IsPrintable markers
unfolding text_eq
markers-IsPrintable = (
  omega arith,
  (
    (omega arith, omega arith, omega arith, refl),
    (
      (omega arith, omega arith, omega arith),
      ((omega arith, omega arith, omega arith, omega arith), tt),
    ),
  ),
)

load-listing_line_example :
    (load (map (listing_line (codes "$")) markers) empty_table).infos ≡ map info_of markers
load-listing_line_example =
    load-listing_line {prefix = codes "$"} markers dollar markers-IsPrintable

abbrev table : Table
table = load (map (listing_line (codes "$")) markers) empty_table

abbrev block : Block
block = Block.plain (codes "   Length : Unsigned_8;") Block.finished

abbrev block2 : Block
block2 =
    Block.branch (codes "@IF AI_A /= 3") (Block.plain (codes "   inner") Block.finished)
      Block.finished

parse_cond-evaluate_example :
    parse_cond table
      (codes "@IF AI_A > 0")
      true
      7
      (render_branches (either block block2) (codes "*/" ∷ []))
    ≡ some (record { written = codes "   inner" ∷ []; current_line = 15; rest = codes "*/" ∷ [] })
unfolding condition slices all get_value find_value compare_values int_gt int_same load parse_line
    parse_asm_line cut_first cut unsigned_value signed_value skip_prefix parse_int to_integer
    parse_fields see_name see_size see_type see_value parse_number parse_text image_length
    kind_value text_eq decimal decimal_digits decimal_value line_kind is_if
parse_cond-evaluate_example =
    parse_cond-evaluate table (codes "@IF AI_A > 0") true false 7 (either block block2)
      (codes "*/" ∷ []) refl ((refl, tt), (refl, (true, refl), (refl, tt), tt))

abbrev tmpl_name : Text
tmpl_name = codes "os_lib-tmplt"

abbrev parts : Parts
parts =
    outside_part (codes "# 1 \"stdio.h\"")
      (codes "int puts (const char *);" ∷ codes "# 3 \"types.h\"" ∷ [])
      (codes "# 3 \"os_lib-tmplt.c\"") 3
      (comment_part (Block.plain (codes "package OS_Lib is") block2) (
        marker_part (codes "# 4 \"os_lib-tmplt.c\"") 4 (
          code_part (codes "asm") (
            code_part (codes "") (
              code_part (codes "asm /*NOGEN*/") (
                code_part (codes "asm")
                  (code_part (codes "asm") (code_part (codes "int main") nothing))))))))

xoscons-files_of_example :
    xoscons tmpl_name 0 false
      (codes "a line")
      (map (listing_line (codes "$")) markers)
      (codes "# 1 \"os_lib-tmplt.c\"" ∷ lines_of parts)
    ≡ some (
        files_of table table.infos 1 (over (codes "# 1 \"os_lib-tmplt.c\"") (codes "a line")) parts)
unfolding starts_with line_marker contains_template_name contains span_digits line_kind is_if
    condition slices all get_value find_value compare_values int_gt int_same load parse_line
    parse_asm_line cut_first cut unsigned_value signed_value skip_prefix parse_int to_integer
    parse_fields see_name see_size see_type see_value parse_number parse_text image_length
    kind_value text_eq decimal decimal_digits decimal_value
xoscons-files_of_example =
    xoscons-files_of tmpl_name 0 false (codes "a line") (map (listing_line (codes "$")) markers)
      (codes "# 1 \"os_lib-tmplt.c\"") 1 parts (refl, refl) tt
      (
        (refl, refl),
        (outside_line refl, (outside_marker (refl, refl), tt)),
        (refl, refl),
        tt,
        (
          (refl, (refl, (true, refl), (refl, tt), tt)),
          (refl, refl, tt),
          (
            (refl, refl),
            tt,
            (
              (refl, refl),
              ((refl, refl), ((refl, refl), ((refl, refl), ((refl, refl), ((refl, refl), tt))))),
            ),
          ),
        ),
      )
      (omega arith) (omega arith) (keep (skip (keep (keep (keep (skip done))))))

abbrev listing : List Text
listing = map (listing_line (codes "$")) markers

-- The second entry.
abbrev an_info : AsmInfo
an_info = info_of (Marker.cnd 6 "AI_A" (negsuc 2) "first")

an_info-In : In an_info (load listing empty_table).infos
an_info-In =
    subst (In an_info)
      (sym (load-listing_line {prefix = codes "$"} markers dollar markers-IsPrintable)) (there here)

load-columns_example :
    (length (declaration lang_ada (load listing empty_table) an_info)
      ≡ (load listing empty_table).max_name_len + 18)
    × (length (declaration lang_c (load listing empty_table) an_info)
        ≡ (load listing empty_table).max_name_len + 9)
load-columns_example = load-columns listing {info = an_info} an_info-In tt

condition-compare_int_example :
    condition (load (map (listing_line (codes "$")) markers) empty_table) (codes "@IF AI_A < 5")
    ≡ some true
unfolding all text_eq unsigned_value decimal_value
condition-compare_int_example =
    condition-compare_int {prefix = codes "$"} Operator.less (codes "AI_A") (codes "5") markers
      (omega arith) (omega arith) dollar markers-IsPrintable

is_field : Text → Bool
is_field s = all (λ a. not (a == b':')) s

is_field_sound : (s : Text) → is_field s ≡ true → IsFree b':' s
unfolding is_field
is_field_sound s h = all_sound (λ a. a ≢ b':') (λ a. not (a == b':')) (λ a e. ground arith) s h

is_int : ℤ → Bool
is_int (pos n) = ltb n (2 ^ 31)
is_int (negsuc n) = ltb n (2 ^ 31)

is_int_sound : (z : ℤ) → is_int z ≡ true → IsInt z
unfolding is_int
is_int_sound (pos n) h = ground arith
is_int_sound (negsuc n) h = ground arith

is_printable : Marker → Bool
is_printable (Marker.cnd line name z comment) =
    ltb line (2 ^ 31) && (is_field (codes name) && (is_int z && has_small_size (codes name) z))
is_printable (Marker.cns line name text comment) =
    ltb line (2 ^ 31) && (is_field (codes name) && is_field (codes text))
is_printable (Marker.c line name ty text comment) =
    ltb line (2 ^ 31) && (is_field (codes name) && (is_field (codes ty) && is_field (codes text)))
is_printable (Marker.txt line text) = ltb line (2 ^ 31)

is_printable_sound : (m : Marker) → is_printable m ≡ true → IsPrintable m
unfolding is_printable
is_printable_sound (Marker.cnd line name z comment) h = (
  ground arith,
  is_field_sound (codes name) (ground arith),
  is_int_sound z (ground arith),
  ground arith,
)
is_printable_sound (Marker.cns line name text comment) h = (
  ground arith,
  is_field_sound (codes name) (ground arith),
  is_field_sound (codes text) (ground arith),
)
is_printable_sound (Marker.c line name ty text comment) h = (
  ground arith,
  is_field_sound (codes name) (ground arith),
  is_field_sound (codes ty) (ground arith),
  is_field_sound (codes text) (ground arith),
)
is_printable_sound (Marker.txt line text) h = ground arith

linux_out-is_printable : all is_printable linux_out ≡ true
unfolding is_printable is_field is_int all text_eq from_some compile headers start general
    find_macro emit_c define sizes emit_size emit_cnd poll_sizes poll_values io_constants
    run_entries run_entry ifndef define_fionwrite int_eq of_word to_int to_word errno_values
    define_or_have families forced_flags msg_waitall socket_constants emit_txt target_os
    version_text with_clauses define_all define_from require_target vxworks_shutdown windows_names
    emit_cns undef define_numbers mingw_constants secure_sockets socket_is winsock_codes
    addrinfo_offsets fionwrite poll_fallbacks sections
linux_out-is_printable = refl

evaluate-types_text_example :
    IsBlock (load (map (listing_line (codes "$")) linux_out) empty_table) types_block
    × (evaluate (load (map (listing_line (codes "$")) linux_out) empty_table) types_block
        ≡ types_text true 0 false)
unfolding start find_macro
evaluate-types_text_example =
    evaluate-types_text linux {prefix = codes "$"} {out = linux_out} linux-compile dollar
      (all_sound IsPrintable is_printable is_printable_sound linux_out linux_out-is_printable)
      (record {
        sin_family = omega arith;
        ai_family = omega arith;
        ai_canonname = omega arith;
        ai_addr = omega arith;
      })

-- A template that is preprocessed to empty lines, with the comment that has the types and their
-- conditions behind them.
blank : ℕ → Parts
blank zero = comment_part types_block nothing
blank (suc n) = code_part [] (blank n)

is_comment : Block → Bool
is_comment Block.finished = true
is_comment (Block.plain l b) =
    not (starts_with (codes "# ") l) && not (text_eq l (codes "*/")) && is_comment b
is_comment (Block.branch i y b) = is_comment b
is_comment (Block.branch_else i y n b) = is_comment b

is_comment_sound : (b : Block) → is_comment b ≡ true → IsComment b
unfolding is_comment
is_comment_sound Block.finished h = tt
is_comment_sound (Block.plain l b) h =
    (ground (arith, h), ground (arith, h), is_comment_sound b (ground (arith, h)))
is_comment_sound (Block.branch i y b) h = is_comment_sound b h
is_comment_sound (Block.branch_else i y n b) h = is_comment_sound b h

types_block-is_comment : is_comment types_block ≡ true
unfolding is_comment types_block addr_info_block starts_with text_eq
types_block-is_comment = refl

blank-IsParts : (name : Text) (t : Table) (n : ℕ) → IsBlock t types_block → IsParts name t (blank n)
unfolding blank starts_with text_eq
blank-IsParts name t zero h = (h, is_comment_sound types_block types_block-is_comment, tt)
blank-IsParts name t (suc n) h = ((refl, refl), blank-IsParts name t n h)

above-blank : (j k n : ℕ) → j < k → All (λ z. j < z) (code_numbers k (blank n))
unfolding blank
above-blank j k zero h = tt
above-blank j k (suc n) h = (h, above-blank j (k + 1) n (omega arith))

increasing-blank : (k n : ℕ) → AllPairs ◌<◌ (code_numbers k (blank n))
unfolding blank
increasing-blank k zero = tt
increasing-blank k (suc n) = (above-blank k (k + 1) n (omega arith), increasing-blank (k + 1) n)

In-blank : (x k n : ℕ) → k ≤ x → x < k + n → In x (code_numbers k (blank n))
unfolding blank
In-blank x k zero h l = absurd (omega arith)
In-blank x k (suc n) h l = elim (Bool-cases (x == k)) [
  | inl same ↦ subst (λ q. In x (q ∷ code_numbers (k + 1) (blank n))) ((==_iff x k).0 same) here
  | inr other ↦ there (In-blank x (k + 1) n (ground arith) (omega arith))
]

blank-IsMore : IsMore (blank 1060)
unfolding blank
blank-IsMore = tt

in_range : Marker → Bool
in_range m = leb 233 (line_of m) && ltb (line_of m) 1293

in_range_sound : (m : Marker) → in_range m ≡ true → In (line_of m) (code_numbers 233 (blank 1060))
unfolding in_range
in_range_sound m h = In-blank (line_of m) 233 1060 (ground arith) (ground arith)

linux_out-in_range : all in_range linux_out ≡ true
unfolding in_range all from_some compile headers start general find_macro emit_c define sizes
    emit_size emit_cnd poll_sizes poll_values io_constants run_entries run_entry ifndef
    define_fionwrite int_eq of_word to_int to_word errno_values define_or_have families forced_flags
    msg_waitall socket_constants emit_txt target_os version_text with_clauses define_all define_from
    require_target vxworks_shutdown windows_names emit_cns undef define_numbers mingw_constants
    secure_sockets socket_is winsock_codes addrinfo_offsets fionwrite poll_fallbacks sections
linux_out-in_range = refl

first_line-IsMarker : IsMarker tmpl_name (codes "# 233 \"os_lib-tmplt.c\"") (some 233)
unfolding starts_with line_marker contains_template_name contains span_digits to_integer
    unsigned_value decimal_value
first_line-IsMarker = (refl, refl)

xoscons-compile_example :
    xoscons tmpl_name 0 false []
      (map (listing_line (codes "$")) linux_out)
      (codes "# 233 \"os_lib-tmplt.c\"" ∷ lines_of (blank 1060))
    ≡ some (
        files_of
          (load (map (listing_line (codes "$")) linux_out) empty_table)
          (map info_of linux_out)
          233
          (over (codes "# 233 \"os_lib-tmplt.c\"") [])
          (blank 1060))
xoscons-compile_example =
    xoscons-compile linux {prefix = codes "$"} {out = linux_out} tmpl_name 0 false []
      (codes "# 233 \"os_lib-tmplt.c\"") 233 (blank 1060) linux-compile dollar
      (all_sound IsPrintable is_printable is_printable_sound linux_out linux_out-is_printable)
      first_line-IsMarker blank-IsMore
      (blank-IsParts tmpl_name (load (map (listing_line (codes "$")) linux_out) empty_table) 1060
        evaluate-types_text_example.0)
      (increasing-blank 233 1060)
      (all_sound (λ m. In (line_of m) (code_numbers 233 (blank 1060))) in_range in_range_sound
        linux_out linux_out-in_range)
      (All-weaken (λ z. 0 < z) (λ z. 0 ≢ z) (code_numbers 233 (blank 1060)) (λ z h. omega arith)
        (above-blank 0 233 1060 (omega arith)))
