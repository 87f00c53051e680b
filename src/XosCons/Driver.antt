-- ===== src/XosCons/Driver.antt =====
-- config/setup/xoscons.adb: the rounds of the loop over the preprocessed template, for each kind of
-- line.
use aws.Base.{
  ℕ, zero, suc, ◌+◌, ◌≤◌, ◌<◌, ◌≡◌, refl, Bool, true, false, none, some, List, [], ◌∷◌, Text, codes,
  text_eq, length, arith,
}
use aws.XosCons.{AsmInfo, Table}
use aws.XosCons.Condition.{Copied, is_if, parse_cond}
use aws.XosCons.Parts.{IsMarker, IsNoMarker, IsCode, over}
use aws.XosCons.Template.{
  starts_with, Reader, Files, both, to_header, action, get_line, code_step, main_loop,
}

abbrev pub reader : ℕ → List AsmInfo → Bool → Bool → Text → Reader
reader line infos in_comment in_template buffer = record {
  current_line = line;
  infos = infos;
  in_comment = in_comment;
  in_template = in_template;
  buffer = buffer;
}

-- With a round for each line and one for the end, the loop writes these files.
pub record Writes (tmpl_name : Text) (t : Table) (beyond : ℕ) (r : Reader) (ls : List Text)
    (f : Files) : Type 0 where
  pub ends : (n : ℕ) → length ls < n → main_loop tmpl_name t beyond n r ls ≡ some f

module _ {tmpl_name : Text} {t : Table} {beyond : ℕ} where
  Writes-cons :
      {r : Reader} {l : Text} {ls : List Text} {f : Files}
      → ((n : ℕ) → length ls < n → main_loop tmpl_name t beyond (suc n) r (l ∷ ls) ≡ some f)
      → Writes tmpl_name t beyond r (l ∷ ls) f
  Writes-cons {r} {l} {ls} {f} one_round = record { ends = go }
    where
      go : (n : ℕ) → suc (length ls) < n → main_loop tmpl_name t beyond n r (l ∷ ls) ≡ some f
      go zero h = absurd (omega arith)
      go (suc n) h = one_round n (omega arith)

  pub Writes-nothing :
      (r : Reader) → Writes tmpl_name t beyond r [] (record { ada = []; header = [] })
  unfolding main_loop
  Writes-nothing r = record { ends = go }
    where
      go :
          (n : ℕ)
          → 0 < n
          → main_loop tmpl_name t beyond n r [] ≡ some (record { ada = []; header = [] })
      go zero h = absurd (omega arith)
      go (suc n) h = refl

  pub Writes-marker :
      {r : Reader} {m : Text} {l : Text} {ls : List Text} {f : Files} {k : ℕ}
      → IsMarker tmpl_name m (some k)
      → Writes tmpl_name t beyond
          (record (get_line m r) { current_line = k; in_template = true })
          (l ∷ ls)
          f
      → Writes tmpl_name t beyond r (m ∷ l ∷ ls) f
  unfolding main_loop action
  Writes-marker (marker, named) w =
      Writes-cons λ n h. rw (main_loop, action, marker, named) (w.ends n h)

  pub Writes-leave :
      {r : Reader} {m : Text} {ls : List Text} {f : Files}
      → IsMarker tmpl_name m none
      → Writes tmpl_name t beyond (record (get_line m r) { in_template = false }) ls f
      → Writes tmpl_name t beyond r (m ∷ ls) f
  unfolding main_loop action
  Writes-leave (marker, named) w =
      Writes-cons λ n h. rw (main_loop, action, marker, named) (w.ends n h)

  pub Writes-skip :
      {line : ℕ} {infos : List AsmInfo} {in_comment : Bool} {buffer : Text} {l : Text}
      {ls : List Text} {f : Files}
      → IsNoMarker l
      → Writes tmpl_name t beyond (reader line infos in_comment false (over l buffer)) ls f
      → Writes tmpl_name t beyond (reader line infos in_comment false buffer) (l ∷ ls) f
  unfolding main_loop action
  Writes-skip plain w = Writes-cons λ n h. rw (main_loop, action, plain) (w.ends n h)

  module _ {infos : List AsmInfo} {buffer : Text} where
    pub Writes-begin :
        (line : ℕ) {ls : List Text} {f : Files}
        → Writes tmpl_name t beyond
            (reader (line + 1) infos true true (over (codes "/*") buffer))
            ls
            f
        → Writes tmpl_name t beyond
            (reader line infos false true buffer)
            (codes "/*" ∷ ls)
            (to_header (codes "/*") f)
    unfolding main_loop action starts_with text_eq
    Writes-begin line w = Writes-cons λ n h. rw (w.ends n h)

    pub Writes-end :
        (line : ℕ) {ls : List Text} {f : Files}
        → Writes tmpl_name t beyond
            (reader (line + 1) infos false true (over (codes "*/") buffer))
            ls
            f
        → Writes tmpl_name t beyond
            (reader line infos true true buffer)
            (codes "*/" ∷ ls)
            (to_header (codes "*/") f)
    unfolding main_loop action starts_with text_eq
    Writes-end line w = Writes-cons λ n h. rw (w.ends n h)

    pub Writes-copy :
        (line : ℕ) {l : Text} {ls : List Text} {f : Files}
        → IsNoMarker l
        → text_eq l (codes "*/") ≡ false
        → is_if l ≡ false
        → Writes tmpl_name t beyond (reader (line + 1) infos true true (over l buffer)) ls f
        → Writes tmpl_name t beyond (reader line infos true true buffer) (l ∷ ls) (both (l ∷ []) f)
    unfolding main_loop action
    Writes-copy line plain no_end no_if w =
        Writes-cons λ n h. rw (main_loop, action, plain, no_end, no_if) (rw (w.ends n h))

    pub Writes-conditional :
        (line : ℕ) {l : Text} {ls : List Text} {f : Files} {copied : Copied}
        → IsNoMarker l
        → text_eq l (codes "*/") ≡ false
        → is_if l ≡ true
        → parse_cond t l true line ls ≡ some copied
        → length copied.rest ≤ length ls
        → Writes tmpl_name t beyond
            (reader (copied.current_line + 1) infos true true (over l buffer))
            copied.rest
            f
        → Writes tmpl_name t beyond
            (reader line infos true true buffer)
            (l ∷ ls)
            (both copied.written f)
    unfolding main_loop action
    Writes-conditional line plain no_end an_if parsed shorter w =
        Writes-cons
          λ n h. rw (main_loop, action, plain, no_end, an_if, parsed) (rw (w.ends n (omega arith)))

    pub Writes-code :
        (line : ℕ) {l : Text} {ls : List Text} {f : Files} (s : (Files → Files) × Reader)
        → IsCode l
        → code_step t beyond (reader line infos false true (over l buffer)) ≡ some s
        → Writes tmpl_name t beyond s.1 ls f
        → Writes tmpl_name t beyond (reader line infos false true buffer) (l ∷ ls) (s.0 f)
    unfolding main_loop action
    Writes-code line s (plain, no_begin) step w =
        Writes-cons λ n h. rw (main_loop, action, plain, no_begin, step) (rw (w.ends n h))
