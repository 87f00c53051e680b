-- ===== src/XosCons/Emitted.antt =====
-- config/setup/xoscons.adb: what the program writes for a template whose code lines are in step with
-- the table.
use aws.Base.{
  ℕ, ◌+◌, ◌≡◌, ◌≢◌, refl, sym, subst, Bool, true, false, none, some, List, [], ◌∷◌, ◌++◌, map, Text,
  codes, length, ◌==◌, ==_iff, Bool-cases, inl, inr, if◌then◌else◌, arith, All, AllPairs, ◌⊎◌, Sub,
  keep, skip, Sub-All,
}
use aws.XosCons.{AsmInfo, Table, empty_table}
use aws.XosCons.Branches.{render, advance}
use aws.XosCons.Driver.{
  reader, Writes, Writes-nothing, Writes-marker, Writes-leave, Writes-begin, Writes-end,
  Writes-code,
}
use aws.XosCons.Comments.{Writes-eq, Writes-render, Writes-outside}
use aws.XosCons.Listing.{load}
use aws.XosCons.Parts.{
  Parts, nothing, code_part, comment_part, marker_part, outside_part, lines_of, IsMarker, IsCode,
  IsMore, IsParts, code_numbers, entry_at, over, over_all, over_block, entry_text, files_of,
}
use aws.XosCons.Template.{contains, Files, emit_info, code_step, Reader, xoscons}

-- No entry is left at a line that none of the lines ahead is.
entry_at-none :
    (line : ℕ) (infos : List AsmInfo)
    → All (λ n. line ≢ n) (map (λ i. i.line_number) infos)
    → entry_at line infos ≡ none
entry_at-none line [] h = refl
entry_at-none line (info ∷ infos) h =
    let other : info.line_number == line ≡ false = ground (arith, h.0) in
    rw (other, if◌then◌else◌) (entry_at-none line infos h.1)

-- An entry that no code line ahead has is not missed.
files_of-skip :
    (t : Table) (info : AsmInfo) (infos : List AsmInfo) (line : ℕ) (buffer : Text) (p : Parts)
    → All (λ n. info.line_number ≢ n) (code_numbers line p)
    → files_of t (info ∷ infos) line buffer p ≡ files_of t infos line buffer p
files_of-skip t info infos line buffer nothing h = refl
files_of-skip t info infos line buffer (code_part l p) h =
    let other : info.line_number == line ≡ false = ground (arith, h.0) in
    rw (other, if◌then◌else◌, files_of-skip t info infos (line + 1) (over l buffer) p h.1)
files_of-skip t info infos line buffer (comment_part b p) h = rw (
    files_of-skip t info infos (line + advance b + 2)
      (over (codes "*/") (over_block b (over (codes "/*") buffer))) p h)
files_of-skip t info infos line buffer (marker_part m k p) h =
    files_of-skip t info infos k (over m buffer) p h
files_of-skip t info infos line buffer (outside_part l ls m k p) h =
    files_of-skip t info infos k (over m (over_all ls (over l buffer))) p h

more-lines : (p : Parts) → IsMore p → (l : Text) × (ls : List Text) × (lines_of p ≡ l ∷ ls)
more-lines nothing h = elim h [ ]
more-lines (code_part l p) h = (l, lines_of p, refl)
more-lines (comment_part b p) h = (codes "/*", render b (codes "*/" ∷ lines_of p), refl)
more-lines (marker_part m k p) h = (m, lines_of p, refl)
more-lines (outside_part l ls m k p) h = (l, ls ++ (m ∷ lines_of p), refl)

Sub-tail : {n : ℕ} {ns : List ℕ} → Sub [] (n ∷ ns) → Sub [] ns
Sub-tail (skip s) = s

Sub-heads :
    {m n : ℕ} {ms ns : List ℕ} → Sub (m ∷ ms) (n ∷ ns) → ((m ≡ n) × Sub ms ns) ⊎ Sub (m ∷ ms) ns
Sub-heads (keep s) = inl (refl, s)
Sub-heads (skip s) = inr s

module _ {tmpl_name : Text} {t : Table} {beyond : ℕ} where
  -- The step at a code line, in front of lines with other numbers.
  Writes-entry :
      (infos : List AsmInfo) (line : ℕ) (buffer : Text) (l : Text) (p : Parts)
      → IsCode l
      → beyond ≢ line
      → All (λ n. line ≢ n) (code_numbers (line + 1) p)
      → Sub (map (λ i. i.line_number) infos) (line ∷ code_numbers (line + 1) p)
      → ((rest : List AsmInfo)
          → Sub (map (λ i. i.line_number) rest) (code_numbers (line + 1) p)
          → Writes tmpl_name t beyond
              (reader (line + 1) rest false true (over l buffer))
              (lines_of p)
              (files_of t rest (line + 1) (over l buffer) p))
      → Writes tmpl_name t beyond
          (reader line infos false true buffer)
          (l ∷ lines_of p)
          (files_of t infos line buffer (code_part l p))
  unfolding code_step
  Writes-entry [] line buffer l p code behind new s go =
      let none_left : beyond == line ≡ false = ground arith in
      Writes-code line ((λ f. f), reader (line + 1) [] false true (over l buffer)) code
        (rw (code_step, none_left)) (go [] (Sub-tail s))
  Writes-entry (info ∷ infos) line buffer l p code behind new s go =
      elim (Bool-cases (info.line_number == line)) [
        | inl same ↦ elim (Sub-heads s) [
          | inl (_, s1) ↦ Writes-eq refl (written_entry same) (
              Writes-code line
                (
                  entry_text t (some info) (over l buffer),
                  reader (line + 1) infos false true (over l buffer),
                )
                code (rw (code_step, same)) (go infos s1))
          | inr s1 ↦
              absurd
                ((Sub-All (λ n. line ≢ n) s1 new).0 (sym ((==_iff info.line_number line).0 same)))
        ]
        | inr other ↦ elim (Sub-heads s) [
          | inl (e, _) ↦ absurd (ne_of_false other e)
          | inr s1 ↦ Writes-eq refl (no_entry other (Sub-All (λ n. line ≢ n) s1 new).1) (
              Writes-code line
                ((λ f. f), reader (line + 1) (info ∷ infos) false true (over l buffer)) code
                (rw (code_step, other)) (go (info ∷ infos) s1))
        ]
      ]
    where
      rest : Text
      rest = over l buffer

      written_entry :
          (info.line_number == line ≡ true)
          → (if contains (codes "/*NOGEN*/") rest
              then files_of t infos (line + 1) rest p
              else emit_info t info (files_of t infos (line + 1) rest p))
            ≡ files_of t (info ∷ infos) line buffer (code_part l p)
      written_entry same =
          let e : info.line_number ≡ line = (==_iff info.line_number line).0 same in
          rw (same, if◌then◌else◌)
            (rw (
              files_of-skip t info infos (line + 1) rest p
                (subst (λ k. All (λ n. k ≢ n) (code_numbers (line + 1) p)) (sym e) new)))

      ne_of_false : info.line_number == line ≡ false → info.line_number ≢ line
      ne_of_false other e = ground (arith, other, e)

      no_entry :
          info.line_number == line ≡ false
          → All (λ n. line ≢ n) (map (λ i. i.line_number) infos)
          → files_of t (info ∷ infos) (line + 1) rest p
            ≡ files_of t (info ∷ infos) line buffer (code_part l p)
      no_entry other h = rw (other, if◌then◌else◌, entry_at-none line infos h)

  Writes-named :
      (r : Reader) (m : Text) (k : ℕ) (p : Parts) {f : Files}
      → IsMarker tmpl_name m (some k)
      → IsMore p
      → Writes tmpl_name t beyond
          (record r { current_line = k; in_template = true; buffer = over m r.buffer })
          (lines_of p)
          f
      → Writes tmpl_name t beyond r (m ∷ lines_of p) f
  Writes-named r m k p {f} marker more w =
      let (l, ls, e) = more-lines p more in
      let r1 : Reader = record r {
        current_line = k;
        in_template = true;
        buffer = over m r.buffer;
      } in
      subst (λ q. Writes tmpl_name t beyond r (m ∷ q) f) (sym e)
        (Writes-marker marker (subst (λ q. Writes tmpl_name t beyond r1 q f) e w))

  Writes-parts :
      (infos : List AsmInfo) (line : ℕ) (buffer : Text) (p : Parts)
      → IsParts tmpl_name t p
      → All (λ n. beyond ≢ n) (code_numbers line p)
      → AllPairs ◌≢◌ (code_numbers line p)
      → Sub (map (λ i. i.line_number) infos) (code_numbers line p)
      → Writes tmpl_name t beyond
          (reader line infos false true buffer)
          (lines_of p)
          (files_of t infos line buffer p)
  Writes-parts infos line buffer nothing h behind new s =
      Writes-nothing (reader line infos false true buffer)
  Writes-parts infos line buffer (code_part l p) (code, h) (not_behind, behind) (other, new) s =
      Writes-entry infos line buffer l p code not_behind other s
        λ rest s1. Writes-parts rest (line + 1) (over l buffer) p h behind new s1
  Writes-parts infos line buffer (comment_part b p) (block, comment, h) behind new s =
      let buffer1 = over_block b (over (codes "/*") buffer) in
      let after =
        Writes-parts infos (line + advance b + 2) (over (codes "*/") buffer1) p h behind new s in
      Writes-begin line (
        Writes-render b (line + 1) (over (codes "/*") buffer) block comment
          (Writes-end (line + 1 + advance b) (Writes-eq (omega arith) refl after)))
  Writes-parts infos line buffer (marker_part m k p) (marker, more, h) behind new s =
      Writes-named (reader line infos false true buffer) m k p marker more
        (Writes-parts infos k (over m buffer) p h behind new s)
  Writes-parts infos line buffer (outside_part l ls m k p) (leave, outside, marker, more, h) behind
        new s =
      let buffer1 = over_all ls (over l buffer) in
      Writes-leave leave (
        Writes-outside ls line (over l buffer) outside (
          Writes-named (reader line infos false false buffer1) m k p marker more
            (Writes-parts infos k (over m buffer1) p h behind new s)))

-- The program as a whole. The preprocessed template begins with a line marker that names it, and its
-- parts are in order; the table, as it is read from the listing, has its entries at lines that are
-- line numbers of code lines, in the same order, and no two code lines have one number, nor the one
-- found behind the table's end. Then the program ends without an exception, whatever In_Template was
-- at first, and each of the two files has, in the order of the template, the entry of each code line
-- that has one, unless /*NOGEN*/ stands against it, and each comment, of whose conditional parts those
-- lines that their conditions select; the marks of the comments stand in the C file only, and no
-- line of another file in either.
pub xoscons-files_of :
    (tmpl_name : Text) (beyond : ℕ) (in_template : Bool) (buffer : Text) (asm_file : List Text)
    (m : Text) (k : ℕ) (p : Parts)
    → IsMarker tmpl_name m (some k)
    → IsMore p
    → IsParts tmpl_name (load asm_file empty_table) p
    → All (λ n. beyond ≢ n) (code_numbers k p)
    → AllPairs ◌≢◌ (code_numbers k p)
    → Sub (map (λ i. i.line_number) (load asm_file empty_table).infos) (code_numbers k p)
    → xoscons tmpl_name beyond in_template buffer asm_file (m ∷ lines_of p)
      ≡ some (
          files_of
            (load asm_file empty_table)
            (load asm_file empty_table).infos
            k
            (over m buffer)
            p)
unfolding xoscons
xoscons-files_of tmpl_name beyond in_template buffer asm_file m k p marker more h behind new s =
    let t = load asm_file empty_table in
    let w : Writes tmpl_name t beyond (reader 0 t.infos false in_template buffer) (m ∷ lines_of p)
        (files_of t t.infos k (over m buffer) p) =
      Writes-named (reader 0 t.infos false in_template buffer) m k p marker more
        (Writes-parts t.infos k (over m buffer) p h behind new s) in
    w.ends (length (m ∷ lines_of p) + 1) (omega arith)
