-- ===== src/XosCons/Comments.antt =====
-- config/setup/xoscons.adb: the comments of the template and the lines of other files in it, as the
-- loop takes them.
use aws.Base.{
  ℕ, ◌+◌, ◌≡◌, refl, subst, ◌∙◌, Bool, true, false, List, [], ◌∷◌, ◌++◌, append_assoc, Text, codes,
  text_eq, ==_iff, if◌then◌else◌, arith, All,
}
use aws.XosCons.{AsmInfo, Table}
use aws.XosCons.Branches.{
  Block, finished, plain, branch, branch_else, render, IsBlock, evaluate, advance, holds,
  parse_cond-branch_else, parse_cond-branch, length-render,
}
use aws.XosCons.Condition.{if_line, plain_line, line_kind, is_if}
use aws.XosCons.Driver.{reader, Writes, Writes-leave, Writes-skip, Writes-copy, Writes-conditional}
use aws.XosCons.Parts.{
  IsNoMarker, IsOutside, outside_marker, outside_line, IsComment, over, over_all, over_block,
}
use aws.XosCons.Template.{starts_with, Files, both}

-- An `@IF` line is no marker and no end of a comment.
if_line-IsNoMarker : (l : Text) → is_if l ≡ true → IsNoMarker l × (text_eq l (codes "*/") ≡ false)
unfolding is_if starts_with text_eq
if_line-IsNoMarker (a ∷ b ∷ d ∷ e ∷ f ∷ s) h =
    let at_sign : a ≡ b'@' = (==_iff a b'@').0 (ground arith) in rw at_sign (refl, refl)
if_line-IsNoMarker [] h = cc
if_line-IsNoMarker (a ∷ []) h = cc
if_line-IsNoMarker (a ∷ b ∷ []) h = cc
if_line-IsNoMarker (a ∷ b ∷ d ∷ []) h = cc
if_line-IsNoMarker (a ∷ b ∷ d ∷ e ∷ []) h = cc

line_kind-if : (l : Text) → line_kind l ≡ if_line → is_if l ≡ true
unfolding line_kind
line_kind-if l h = ground arith

line_kind-plain : (l : Text) → line_kind l ≡ plain_line → is_if l ≡ false
unfolding line_kind
line_kind-plain l h = ground arith

both-append : (xs ys : List Text) (f : Files) → both xs (both ys f) ≡ both (xs ++ ys) f
both-append xs ys f = rw (append_assoc xs ys f.ada, append_assoc xs ys f.header)

module _ {tmpl_name : Text} {t : Table} {beyond : ℕ} {infos : List AsmInfo} where
  pub Writes-eq :
      {line line2 : ℕ} {in_comment : Bool} {buffer : Text} {ls : List Text} {f f2 : Files}
      → line ≡ line2
      → f ≡ f2
      → Writes tmpl_name t beyond (reader line infos in_comment true buffer) ls f
      → Writes tmpl_name t beyond (reader line2 infos in_comment true buffer) ls f2
  Writes-eq {line2} {in_comment} {buffer} {ls} {f} line_eq f_eq w =
      subst (λ q. Writes tmpl_name t beyond (reader line2 infos in_comment true buffer) ls q) f_eq
        (subst (λ k. Writes tmpl_name t beyond (reader k infos in_comment true buffer) ls f) line_eq
          w)

  -- A comment is copied, its conditional parts as their conditions have it.
  pub Writes-render :
      (b : Block) (line : ℕ) (buffer : Text) {ls : List Text} {f : Files}
      → IsBlock t b
      → IsComment b
      → Writes tmpl_name t beyond
          (reader (line + advance b) infos true true (over_block b buffer))
          ls
          f
      → Writes tmpl_name t beyond
          (reader line infos true true buffer)
          (render b ls)
          (both (evaluate t b) f)
  Writes-render finished line buffer h c w = Writes-eq (omega arith) refl w
  Writes-render (plain l b) line buffer {f} (kind, h) (no_marker, no_end, c) w =
      Writes-eq refl (both-append (l ∷ []) (evaluate t b) f) (
        Writes-copy line no_marker no_end (line_kind-plain l kind)
          (Writes-render b (line + 1) (over l buffer) h c (Writes-eq (omega arith) refl w)))
  Writes-render (branch i y b) line buffer {ls} {f} (kind, (v, value), hy, h) c w =
      let an_if = line_kind-if i kind in
      let plain_text = if_line-IsNoMarker i an_if in
      let holds_eq : holds t i ≡ v = rw (holds, value) in
      Writes-eq refl (both-append (if v then evaluate t y else []) (evaluate t b) f ∙ rw holds_eq) (
        Writes-conditional line plain_text.0 plain_text.1 an_if
          (parse_cond-branch t i true v line y (render b ls) value hy)
          (omega (arith, length-render y (codes "@END_IF" ∷ render b ls)))
          (Writes-render b (line + 2 + advance y + 1) (over i buffer) h c
            (Writes-eq (omega arith) refl w)))
  Writes-render (branch_else i y n b) line buffer {ls} {f} (kind, (v, value), hy, hn, h) c w =
      let an_if = line_kind-if i kind in
      let plain_text = if_line-IsNoMarker i an_if in
      let holds_eq : holds t i ≡ v = rw (holds, value) in
      Writes-eq refl
        (both-append (if v then evaluate t y else evaluate t n) (evaluate t b) f ∙ rw holds_eq)
        (Writes-conditional line plain_text.0 plain_text.1 an_if
          (parse_cond-branch_else t i true v line y n (render b ls) value hy hn)
          (omega (
            arith,
            length-render n (codes "@END_IF" ∷ render b ls),
            length-render y (codes "@ELSE" ∷ render n (codes "@END_IF" ∷ render b ls)),
          ))
          (Writes-render b (line + 3 + advance y + advance n + 1) (over i buffer) h c
            (Writes-eq (omega arith) refl w)))

  -- The lines of other files are left out.
  pub Writes-outside :
      (us : List Text) (line : ℕ) (buffer : Text) {ls : List Text} {f : Files}
      → All (IsOutside tmpl_name) us
      → Writes tmpl_name t beyond (reader line infos false false (over_all us buffer)) ls f
      → Writes tmpl_name t beyond (reader line infos false false buffer) (us ++ ls) f
  Writes-outside [] line buffer h w = w
  Writes-outside (u ∷ us) line buffer (outside_marker m, h) w =
      Writes-leave m (Writes-outside us line (over u buffer) h w)
  Writes-outside (u ∷ us) line buffer (outside_line no_marker, h) w =
      Writes-skip no_marker (Writes-outside us line (over u buffer) h w)
