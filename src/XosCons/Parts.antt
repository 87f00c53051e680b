-- ===== src/XosCons/Parts.antt =====
-- config/setup/xoscons.adb: the preprocessed template as the parts that it is made of, and the two
-- files that they stand for.
use aws.Base.{
  ℕ, ◌+◌, ◌≡◌, true, false, Option, none, some, List, [], ◌∷◌, ◌++◌, Text, codes, text_eq, All,
  drop, length, ◌==◌, if◌then◌else◌,
}
use aws.XosCons.{AsmInfo, Table}
use aws.XosCons.Branches.{
  Block, finished, plain, branch, branch_else, render, IsBlock, evaluate, advance,
}
use aws.XosCons.Template.{starts_with, contains, line_marker, Files, both, to_header, emit_info}

-- Code lines of the template, comments, line markers of the template, and excursions into other files:
-- the marker that leaves the template, the lines from elsewhere, and the marker that comes back.
pub data Parts : Type 0 where
  nothing : Parts
  code_part : Text → Parts → Parts
  comment_part : Block → Parts → Parts
  marker_part : Text → ℕ → Parts → Parts
  outside_part : Text → List Text → Text → ℕ → Parts → Parts

abbrev pub lines_of : Parts → List Text
lines_of nothing = []
lines_of (code_part l p) = l ∷ lines_of p
lines_of (comment_part b p) = codes "/*" ∷ render b (codes "*/" ∷ lines_of p)
lines_of (marker_part m k p) = m ∷ lines_of p
lines_of (outside_part l ls m k p) = l ∷ (ls ++ (m ∷ lines_of p))

abbrev pub IsMarker : Text → Text → Option ℕ → Type 0
IsMarker tmpl_name m o =
    (starts_with (codes "# ") m ≡ true) × (line_marker tmpl_name (drop 2 m) ≡ some o)

abbrev pub IsNoMarker : Text → Type 0
IsNoMarker l = starts_with (codes "# ") l ≡ false

-- A line from another file is a marker of another one, or no marker.
pub data IsOutside (tmpl_name : Text) : Text → Type 0 where
  outside_marker : {l : Text} → IsMarker tmpl_name l none → IsOutside tmpl_name l
  outside_line : {l : Text} → IsNoMarker l → IsOutside tmpl_name l

abbrev pub IsCode : Text → Type 0
IsCode l = IsNoMarker l × (text_eq l (codes "/*") ≡ false)

-- The plain lines of a comment, outside of its conditional parts, are no markers and do not end it.
abbrev pub IsComment : Block → Type 0
IsComment finished = Unit
IsComment (plain l b) = IsNoMarker l × (text_eq l (codes "*/") ≡ false) × IsComment b
IsComment (branch i y b) = IsComment b
IsComment (branch_else i y n b) = IsComment b

abbrev pub IsMore : Parts → Type 0
IsMore nothing = ⊥
IsMore _ = Unit

-- A marker of the template is not the last line.
abbrev pub IsParts : Text → Table → Parts → Type 0
IsParts tmpl_name t nothing = Unit
IsParts tmpl_name t (code_part l p) = IsCode l × IsParts tmpl_name t p
IsParts tmpl_name t (comment_part b p) = IsBlock t b × IsComment b × IsParts tmpl_name t p
IsParts tmpl_name t (marker_part m k p) =
    IsMarker tmpl_name m (some k) × IsMore p × IsParts tmpl_name t p
IsParts tmpl_name t (outside_part l ls m k p) =
    IsMarker tmpl_name l none
    × All (IsOutside tmpl_name) ls
    × IsMarker tmpl_name m (some k)
    × IsMore p
    × IsParts tmpl_name t p

-- The numbers that the code lines have, by the markers, if the first line has the number `line`.
abbrev pub code_numbers : ℕ → Parts → List ℕ
code_numbers line nothing = []
code_numbers line (code_part l p) = line ∷ code_numbers (line + 1) p
code_numbers line (comment_part b p) = code_numbers (line + advance b + 2) p
code_numbers line (marker_part m k p) = code_numbers k p
code_numbers line (outside_part l ls m k p) = code_numbers k p

-- The entry of a line.
abbrev pub entry_at : ℕ → List AsmInfo → Option AsmInfo
entry_at line [] = none
entry_at line (info ∷ infos) = if info.line_number == line then some info else entry_at line infos

-- A line over what longer lines before it have left in the buffer.
abbrev pub over : Text → Text → Text
over l buffer = l ++ drop (length l) buffer

abbrev pub over_all : List Text → Text → Text
over_all [] buffer = buffer
over_all (l ∷ ls) buffer = over_all ls (over l buffer)

-- Of a conditional part only the first line goes through the buffer.
abbrev pub over_block : Block → Text → Text
over_block finished buffer = buffer
over_block (plain l b) buffer = over_block b (over l buffer)
over_block (branch i y b) buffer = over_block b (over i buffer)
over_block (branch_else i y n b) buffer = over_block b (over i buffer)

abbrev pub entry_text : Table → Option AsmInfo → Text → Files → Files
entry_text t none buffer f = f
entry_text t (some info) buffer f =
    if contains (codes "/*NOGEN*/") buffer then f else emit_info t info f

-- What the parts stand for: a code line for its entry, a comment for the lines of its block.
abbrev pub files_of : Table → List AsmInfo → ℕ → Text → Parts → Files
files_of t infos line buffer nothing = record { ada = []; header = [] }
files_of t infos line buffer (code_part l p) =
    entry_text t (entry_at line infos) (over l buffer)
      (files_of t infos (line + 1) (over l buffer) p)
files_of t infos line buffer (comment_part b p) = to_header (codes "/*") (
    both (evaluate t b) (
      to_header (codes "*/") (
        files_of t infos (line + advance b + 2)
          (over (codes "*/") (over_block b (over (codes "/*") buffer))) p)))
files_of t infos line buffer (marker_part m k p) = files_of t infos k (over m buffer) p
files_of t infos line buffer (outside_part l ls m k p) =
    files_of t infos k (over m (over_all ls (over l buffer))) p
