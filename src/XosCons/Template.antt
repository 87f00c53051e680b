-- ===== src/XosCons/Template.antt =====
-- config/setup/xoscons.adb: the loop over the preprocessed template, and the whole program.
use aws.Base.{
  ℕ, zero, suc, ◌+◌, Bool, true, false, not, ◌&&◌, ◌||◌, Option, none, some, List, [], ◌∷◌, ◌++◌,
  map, Text, codes, text_eq, is_digit, drop, length, leb, ◌==◌, if◌then◌else◌, ◌>>=◌,
}
use aws.XosCons.{AsmInfo, Table, lang_ada, lang_c, empty_table}
use aws.XosCons.Condition.{is_if, parse_cond}
use aws.XosCons.Listing.{load, to_integer, unsigned_value}
use aws.XosCons.Output.{output_info}

unfoldable pub starts_with : Text → Text → Bool
starts_with [] s = true
starts_with (_ ∷ _) [] = false
starts_with (a ∷ p) (b ∷ s) = a == b && starts_with p s

-- `Index (...) > 0`
unfoldable pub contains : Text → Text → Bool
unfolding starts_with
contains p [] = starts_with p []
contains p (a ∷ s) = starts_with p (a ∷ s) || contains p s

-- `To_Lower` on a character of Latin-1: the letters from A to Z, and from 192 to 222 but for the sign of
-- multiplication, 215.
abbrev pub to_lower : ℕ → ℕ
to_lower a =
    if leb b'A' a && leb a b'Z' || leb 192 a && leb a 222 && not (a == 215) then a + 32 else a

-- `Contains_Template_Name`
unfoldable pub contains_template_name : Text → Text → Bool
unfolding contains
contains_template_name tmpl_name s = contains tmpl_name (map to_lower s)

-- The digits at the start of a text, and what stands behind the character after them.
unfoldable pub span_digits : Text → Text × Text
span_digits [] = ([], [])
span_digits (a ∷ s) = let (ds, r) = span_digits s in if is_digit a then (a ∷ ds, r) else ([], s)

-- A line of the preprocessor, `# 12 "name"`, behind the `# `: the line number that it gives if it
-- names the template, and `none` for an exception.
unfoldable pub line_marker : Text → Text → Option (Option ℕ)
unfolding contains_template_name span_digits unsigned_value to_integer
line_marker tmpl_name s =
    let (ds, r) = span_digits s in
    if contains_template_name tmpl_name r
    then (do n ← unsigned_value ds; k ← to_integer n; some (some k))
    else some none

-- The variables of the loop. `infos` is the table from Current_Info on. `buffer` is what the variable
-- Line holds, with what a longer line left in it.
pub record Reader : Type 0 where
  pub current_line : ℕ
  pub infos : List AsmInfo
  pub in_comment : Bool
  pub in_template : Bool
  pub buffer : Text

-- The lines written so far to the two files.
pub record Files : Type 0 where
  pub ada : List Text
  pub header : List Text

abbrev pub both : List Text → Files → Files
both ls f = record { ada = ls ++ f.ada; header = ls ++ f.header }

abbrev pub to_header : Text → Files → Files
to_header l f = record f { header = l ∷ f.header }

unfoldable pub emit_info : Table → AsmInfo → Files → Files
unfolding output_info
emit_info t info f = record {
  ada = output_info lang_ada t info ∷ f.ada;
  header = output_info lang_c t info ∷ f.header;
}

-- What a line is for the loop.
pub data Action : Type 0 where
  marker_line skipped_line end_comment conditional copied_line begin_comment code_line : Action

unfoldable pub action : Reader → Text → Action
unfolding starts_with is_if
action r l =
    if starts_with (codes "# ") l
    then marker_line
    else if not r.in_template
    then skipped_line
    else if r.in_comment
    then (if text_eq l (codes "*/")
        then end_comment
        else if is_if l
        then conditional
        else copied_line)
    else if text_eq l (codes "/*")
    then begin_comment
    else code_line

abbrev pub next_line : Reader → Reader
next_line r = record r { current_line = r.current_line + 1 }

-- `Get_Line` into the variable Line.
abbrev pub get_line : Text → Reader → Reader
get_line l r = record r { buffer = l ++ drop (length l) r.buffer }

abbrev pub written {ℓ} : {A : Type ℓ} → (A → A) → Option A → Option A
written f o = elim o [ none ↦ none | some a ↦ some (f a) ]

-- Code: the entry of the table for this line is written, unless the line has a comment against it.
-- `beyond` is the line number that is found behind the end of the table; what would be written
-- from there is undefined.
unfoldable pub code_step : Table → ℕ → Reader → Option ((Files → Files) × Reader)
unfolding contains emit_info
code_step t beyond r = elim r.infos [
  | [] ↦ if beyond == r.current_line then none else some ((λ f. f), next_line r)
  | info ∷ infos ↦
      if info.line_number == r.current_line
      then some (
        (λ f. if contains (codes "/*NOGEN*/") r.buffer then f else emit_info t info f),
        next_line (record r { infos = infos }),
      )
      else some ((λ f. f), next_line r)
]

module _ (tmpl_name : Text) (t : Table) (beyond : ℕ) where
  -- The loop; `none` is an exception, or undefined. Each round takes a line.
  unfoldable pub main_loop : ℕ → Reader → List Text → Option Files
  unfolding action line_marker parse_cond code_step
  main_loop zero r ls = none
  main_loop (suc n) r [] = some (record { ada = []; header = [] })
  main_loop (suc n) r (l ∷ ls) =
      let r = get_line l r in
      elim (action r l) [
        | marker_line ↦ elim (line_marker tmpl_name (drop 2 l)) [
          | none ↦ none
          | some none ↦ main_loop n (record r { in_template = false }) ls
          | some (some k) ↦ elim ls [
            | [] ↦ none
            | m ∷ ms ↦ main_loop n (record r { current_line = k; in_template = true }) (m ∷ ms)
          ]
        ]
        | skipped_line ↦ main_loop n r ls
        | end_comment ↦
            written (to_header l) (main_loop n (next_line (record r { in_comment = false })) ls)
        | conditional ↦ elim (parse_cond t l true r.current_line ls) [
          | none ↦ none
          | some copied ↦ written (both copied.written) (
              main_loop n (next_line (record r { current_line = copied.current_line })) copied.rest)
        ]
        | copied_line ↦ written (both (l ∷ [])) (main_loop n (next_line r) ls)
        | begin_comment ↦
            written (to_header l) (main_loop n (next_line (record r { in_comment = true })) ls)
        | code_line ↦ elim (code_step t beyond r) [
          | none ↦ none
          | some s ↦ written s.0 (main_loop n s.1 ls)
        ]
      ]

-- The program: the listing and the template to the two files. In_Template and the variable Line are
-- not initialised.
unfoldable pub xoscons : Text → ℕ → Bool → Text → List Text → List Text → Option Files
unfolding load main_loop
xoscons tmpl_name beyond in_template buffer asm_file tmpl_file =
    let t = load asm_file empty_table in
    main_loop tmpl_name t beyond (length tmpl_file + 1)
      (record {
        current_line = 0;
        infos = t.infos;
        in_comment = false;
        in_template = in_template;
        buffer = buffer;
      })
      tmpl_file
