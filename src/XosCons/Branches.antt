-- ===== src/XosCons/Branches.antt =====
-- config/setup/xoscons.adb: `Parse_Cond` on text whose conditional parts are well nested.
mod Rounds
use aws.Base.{
  ℕ, zero, suc, ◌+◌, ◌≤◌, ◌≡◌, refl, sym, subst, ap, ◌∙◌, Bool, true, false, not, ◌&&◌, Bool-cases,
  inl, inr, Option, none, some, List, [], ◌∷◌, ◌++◌, append_assoc, append-nil, Text, codes, text_eq,
  length, length-append, if◌then◌else◌, ◌>>=◌, arith,
}
use aws.XosCons.{Table}
use aws.XosCons.Condition.{
  condition, LineKind, if_line, else_line, end_if_line, plain_line, line_kind, is_if, Copied,
  write_line, write_lines, cond_loop, parse_cond,
}
use aws.XosCons.Branches.Rounds.{
  Loops, Loops-end_if, Loops-else, Loops-plain, Loops-if, Loops-eq, Loops-parse_cond,
}

-- Lines, and conditional parts with their `@IF` line and with or without an `@ELSE`.
pub data Block : Type 0 where
  finished : Block
  plain : Text → Block → Block
  branch : Text → Block → Block → Block
  branch_else : Text → Block → Block → Block → Block

-- The lines of a block, in front of others.
abbrev pub render : Block → List Text → List Text
render finished ls = ls
render (plain l b) ls = l ∷ render b ls
render (branch i y b) ls = i ∷ render y (codes "@END_IF" ∷ render b ls)
render (branch_else i y n b) ls =
    i ∷ render y (codes "@ELSE" ∷ render n (codes "@END_IF" ∷ render b ls))

-- Every plain line is none of the tool's, every `@IF` line is one and has a value.
abbrev pub IsBlock : Table → Block → Type 0
IsBlock t finished = Unit
IsBlock t (plain l b) = (line_kind l ≡ plain_line) × IsBlock t b
IsBlock t (branch i y b) =
    (line_kind i ≡ if_line) × ((v : Bool) × (condition t i ≡ some v)) × IsBlock t y × IsBlock t b
IsBlock t (branch_else i y n b) =
    (line_kind i ≡ if_line)
    × ((v : Bool) × (condition t i ≡ some v))
    × IsBlock t y
    × IsBlock t n
    × IsBlock t b

abbrev pub holds : Table → Text → Bool
holds t i = elim (condition t i) [ some v ↦ v | none ↦ false ]

-- The lines that a block stands for.
abbrev pub evaluate : Table → Block → List Text
evaluate t finished = []
evaluate t (plain l b) = l ∷ evaluate t b
evaluate t (branch i y b) = (if holds t i then evaluate t y else []) ++ evaluate t b
evaluate t (branch_else i y n b) =
    (if holds t i then evaluate t y else evaluate t n) ++ evaluate t b

-- By how much Current_Line grows over a block: an `@IF` line counts twice.
abbrev pub advance : Block → ℕ
advance finished = 0
advance (plain l b) = advance b + 1
advance (branch i y b) = advance y + advance b + 3
advance (branch_else i y n b) = advance y + advance n + advance b + 4

abbrev when : Bool → List Text → List Text
when res ls = if res then ls else []

pub length-render : (b : Block) (ls : List Text) → length ls ≤ length (render b ls)
length-render finished ls = omega arith
length-render (plain l b) ls = omega (arith, length-render b ls)
length-render (branch i y b) ls =
    omega (arith, length-render b ls, length-render y (codes "@END_IF" ∷ render b ls))
length-render (branch_else i y n b) ls = omega (
  arith,
  length-render b ls,
  length-render n (codes "@END_IF" ∷ render b ls),
  length-render y (codes "@ELSE" ∷ render n (codes "@END_IF" ∷ render b ls)),
)

plain_written :
    (res : Bool) (l : Text) (ls : List Text) (r : Copied)
    → write_line res l (write_lines (when res ls) r) ≡ write_lines (when res (l ∷ ls)) r
plain_written true l ls r = refl
plain_written false l ls r = refl

-- What the two parts of a conditional write, and what comes behind it.
branch_written :
    (res v : Bool) (ys ns bs : List Text) (r : Copied)
    → write_lines
        (when (res && v) ys ++ (when (res && not (res && v)) ns ++ []))
        (write_lines (when res bs) r)
      ≡ write_lines (when res ((if v then ys else ns) ++ bs)) r
branch_written true true ys ns bs r =
    ap (λ w. record r { written = w }) (rw append-nil (sym (append_assoc ys bs r.written)))
branch_written true false ys ns bs r =
    ap (λ w. record r { written = w }) (rw append-nil (sym (append_assoc ns bs r.written)))
branch_written false v ys ns bs r = refl

holds-eq : (t : Table) (i : Text) {v : Bool} → condition t i ≡ some v → holds t i ≡ v
holds-eq t i h = rw (holds, h)

-- What the lines of a block write, in front of what the lines after it write.
Loops-render :
    (t : Table) (b : Block) (cond res : Bool) (line : ℕ) (ls : List Text) (r : Copied)
    → IsBlock t b
    → Loops t cond res (line + advance b) ls r
    → Loops t cond res line (render b ls) (write_lines (when res (evaluate t b)) r)
Loops-render t finished cond res line ls r h loops = Loops-eq (omega arith) (nothing res) loops
  where
    nothing : (res : Bool) → r ≡ write_lines (when res []) r
    nothing true = refl
    nothing false = refl
Loops-render t (plain l b) cond res line ls r (kind, h) loops =
    Loops-eq refl (plain_written res l (evaluate t b) r) (
      Loops-plain kind
        (Loops-render t b cond res (line + 1) ls r h (Loops-eq (omega arith) refl loops)))
Loops-render t (branch i y b) cond res line ls r (kind, (v, value), hy, h) loops =
    let rest = render b ls in
    let at_end = line + 2 + advance y in
    let inner =
      Loops-render t y res (res && v) (line + 2) (codes "@END_IF" ∷ rest)
        (record { written = []; current_line = at_end + 1; rest = rest }) hy
        (Loops-end_if t res (res && v) at_end rest) in
    let after = Loops-render t b cond res (at_end + 1) ls r h (Loops-eq (omega arith) refl loops) in
    Loops-eq refl (rw (holds-eq t i value) (one_part res v))
      (Loops-if kind value inner (omega (arith, length-render y (codes "@END_IF" ∷ rest))) after)
  where
    one_part :
        (res v : Bool)
        → write_lines
            (when (res && v) (evaluate t y) ++ [])
            (write_lines (when res (evaluate t b)) r)
          ≡ write_lines (when res ((if v then evaluate t y else []) ++ evaluate t b)) r
    one_part true true = branch_written true true (evaluate t y) [] (evaluate t b) r
    one_part true false = refl
    one_part false v = refl
Loops-render t (branch_else i y n b) cond res line ls r (kind, (v, value), hy, hn, h) loops =
    let rest = render b ls in
    let at_else = line + 2 + advance y in
    let at_end = at_else + 1 + advance n in
    let second =
      Loops-render t n res (res && not (res && v)) (at_else + 1) (codes "@END_IF" ∷ rest)
        (record { written = []; current_line = at_end + 1; rest = rest }) hn
        (Loops-end_if t res (res && not (res && v)) at_end rest) in
    let inner =
      Loops-render t y res (res && v) (line + 2) (codes "@ELSE" ∷ render n (codes "@END_IF" ∷ rest))
        _ hy (Loops-else (res && v) second) in
    let after = Loops-render t b cond res (at_end + 1) ls r h (Loops-eq (omega arith) refl loops) in
    Loops-eq refl
      (rw (holds-eq t i value)
        (branch_written res v (evaluate t y) (evaluate t n) (evaluate t b) r))
      (Loops-if kind value inner
        (omega (
          arith,
          length-render n (codes "@END_IF" ∷ rest),
          length-render y (codes "@ELSE" ∷ render n (codes "@END_IF" ∷ rest)),
        ))
        after)

-- A conditional part with an `@ELSE`.
pub parse_cond-branch_else :
    (t : Table) (i : Text) (cond v : Bool) (line : ℕ) (y n : Block) (ls : List Text)
    → condition t i ≡ some v
    → IsBlock t y
    → IsBlock t n
    → parse_cond t i cond line (render y (codes "@ELSE" ∷ render n (codes "@END_IF" ∷ ls)))
      ≡ some (record {
        written = if cond then (if v then evaluate t y else evaluate t n) else [];
        current_line = line + 3 + advance y + advance n;
        rest = ls;
      })
parse_cond-branch_else t i cond v line y n ls value hy hn =
    let at_else = line + 1 + advance y in
    let at_end = at_else + 1 + advance n in
    let second =
      Loops-render t n cond (cond && not (cond && v)) (at_else + 1) (codes "@END_IF" ∷ ls)
        (record { written = []; current_line = at_end + 1; rest = ls }) hn
        (Loops-end_if t cond (cond && not (cond && v)) at_end ls) in
    let loops =
      Loops-render t y cond (cond && v) (line + 1) (codes "@ELSE" ∷ render n (codes "@END_IF" ∷ ls))
        _ hy (Loops-else (cond && v) second) in
    Loops-parse_cond i cond line value loops ∙ ap some (both_parts cond v (omega arith))
  where
    both_parts :
        (cond v : Bool) {k m : ℕ}
        → k ≡ m
        → ◌≡◌ {A = Copied}
            (record {
              written =
                  when (cond && v) (evaluate t y)
                  ++ (when (cond && not (cond && v)) (evaluate t n) ++ []);
              current_line = k;
              rest = ls;
            })
            (record {
              written = if cond then (if v then evaluate t y else evaluate t n) else [];
              current_line = m;
              rest = ls;
            })
    both_parts true true e = rw (e, append-nil)
    both_parts true false e = rw (e, append-nil)
    both_parts false v e = rw e

-- A conditional part without an `@ELSE`.
pub parse_cond-branch :
    (t : Table) (i : Text) (cond v : Bool) (line : ℕ) (y : Block) (ls : List Text)
    → condition t i ≡ some v
    → IsBlock t y
    → parse_cond t i cond line (render y (codes "@END_IF" ∷ ls))
      ≡ some (record {
        written = if cond then (if v then evaluate t y else []) else [];
        current_line = line + 2 + advance y;
        rest = ls;
      })
parse_cond-branch t i cond v line y ls value hy =
    let at_end = line + 1 + advance y in
    let loops =
      Loops-render t y cond (cond && v) (line + 1) (codes "@END_IF" ∷ ls)
        (record { written = []; current_line = at_end + 1; rest = ls }) hy
        (Loops-end_if t cond (cond && v) at_end ls) in
    Loops-parse_cond i cond line value loops ∙ ap some (one_part cond v (omega arith))
  where
    one_part :
        (cond v : Bool) {k m : ℕ}
        → k ≡ m
        → ◌≡◌ {A = Copied}
            (record {
              written = when (cond && v) (evaluate t y) ++ [];
              current_line = k;
              rest = ls;
            })
            (record {
              written = if cond then (if v then evaluate t y else []) else [];
              current_line = m;
              rest = ls;
            })
    one_part true true e = rw (e, append-nil)
    one_part true false e = rw e
    one_part false v e = rw e

-- A conditional part, behind its `@IF`: the block up to the `@ELSE`, if there is one, with the block
-- behind it, or up to the `@END_IF`.
pub data Branches : Type 0 where
  only : Block → Branches
  either : Block → Block → Branches

abbrev pub render_branches : Branches → List Text → List Text
render_branches (only y) ls = render y (codes "@END_IF" ∷ ls)
render_branches (either y n) ls = render y (codes "@ELSE" ∷ render n (codes "@END_IF" ∷ ls))

abbrev pub AreBlocks : Table → Branches → Type 0
AreBlocks t (only y) = IsBlock t y
AreBlocks t (either y n) = IsBlock t y × IsBlock t n

-- The lines that it stands for, where its condition has the value.
abbrev pub select : Table → Bool → Branches → List Text
select t v (only y) = if v then evaluate t y else []
select t v (either y n) = if v then evaluate t y else evaluate t n

abbrev pub advance_branches : Branches → ℕ
advance_branches (only y) = advance y + 2
advance_branches (either y n) = advance y + advance n + 3

same_line :
    {written rest : List Text} {k m : ℕ}
    → k ≡ m
    → ◌≡◌ {A = Option Copied}
        (some (record { written = written; current_line = k; rest = rest }))
        (some (record { written = written; current_line = m; rest = rest }))
same_line e = rw e

-- A well nested conditional part is copied as its conditions have it: of the lines behind an `@IF`
-- whose condition has the value v, up to its `@END_IF`, `Parse_Cond` writes those that the block
-- before the `@ELSE` or the `@END_IF` stands for if v holds, and else those of the block behind the
-- `@ELSE`, or none if there is no `@ELSE`, with the inner conditions evaluated likewise, and nothing if
-- it is called with a false Cond. It stops behind its `@END_IF`, and Current_Line has grown by the
-- number of lines and one more for each inner `@IF`. Every inner `@IF` has a condition with a value.
pub parse_cond-evaluate :
    (t : Table) (i : Text) (cond v : Bool) (line : ℕ) (b : Branches) (ls : List Text)
    → condition t i ≡ some v
    → AreBlocks t b
    → parse_cond t i cond line (render_branches b ls)
      ≡ some (record {
        written = if cond then select t v b else [];
        current_line = line + advance_branches b;
        rest = ls;
      })
parse_cond-evaluate t i cond v line (only y) ls value hy =
    parse_cond-branch t i cond v line y ls value hy ∙ same_line (omega arith)
parse_cond-evaluate t i cond v line (either y n) ls value (hy, hn) =
    parse_cond-branch_else t i cond v line y n ls value hy hn ∙ same_line (omega arith)
