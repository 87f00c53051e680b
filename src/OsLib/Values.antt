-- ===== src/OsLib/Values.antt =====
-- config/setup/os_lib-tmplt.c: the values of the constants.
use aws.Base.{
  all_pairs, all_pairs_sound, not, true, ◌≡◌, ◌≢◌, refl, sym, subst, ◌∙◌, ap, ℤ, to_int, String,
  false, none, some, List, [], ◌∷◌, ◌++◌, map, All, AllPairs, append_assoc, append-nil, str_eq,
  eq_iff, arith,
}
use aws.OsLib.Entries.{Entry, run_entry, run_entries}
use aws.OsLib.Macros.{
  Body, number, alias, Marker, Pp, cnd, define, ifndef, value, name_value, defined, emit, emit_cnd,
}

-- What the name of an entry stands for when the template comes to a list of entries: an integer of
-- the headers, another name that no entry of the list defines, or nothing.
pub data HasValue (s : Pp) (es : List Entry) (e : Entry) (z : ℤ) : Type 0 where
  given : s.env e.name ≡ some (number z) → HasValue s es e z
  renamed :
      {m : String}
      → s.env e.name ≡ some (alias m)
      → All (λ d. d.name ≢ m) es
      → name_value s.env s.identifiers m ≡ some z
      → HasValue s es e z
  absent : s.env e.name ≡ none → e.fallback ≡ number z → HasValue s es e z

-- The marker of an entry whose value this is.
abbrev pub marker : Entry → ℤ → Marker
marker e z = cnd e.line e.name (to_int z) e.comment

-- What an entry does: its marker, and nothing to other names.
record Marks (e : Entry) (z : ℤ) (s t : Pp) : Type 0 where
  out_eq : t.out ≡ s.out ++ (marker e z ∷ [])
  same : (n : String) → e.name ≢ n → t.env n ≡ s.env n
  identifiers_eq : t.identifiers ≡ s.identifiers

str_eq-ne : {n m : String} → n ≢ m → str_eq n m ≡ false
str_eq-ne {n} {m} h = ground (arith, eq_iff n m)

ifndef_defined : (s : Pp) (n : String) (f : Body) {b : Body} → s.env n ≡ some b → ifndef n f s ≡ s
unfolding ifndef
ifndef_defined s n f h = rw (defined, h)

ifndef_undefined : (s : Pp) (n : String) (f : Body) → s.env n ≡ none → ifndef n f s ≡ define n f s
unfolding ifndef
ifndef_undefined s n f h = rw (defined, h)

emit_cnd_lem :
    (s : Pp) (e : Entry) {z : ℤ}
    → value s e.name ≡ some z
    → emit_cnd e.line e.name e.comment s ≡ some (emit (marker e z) s)
unfolding emit_cnd
emit_cnd_lem s e h = rw h

run_entry_lem :
    (s : Pp) {t : Pp} (e : Entry) {z : ℤ}
    → ifndef e.name e.fallback s ≡ t
    → value t e.name ≡ some z
    → run_entry e s ≡ some (emit (marker e z) t)
unfolding run_entry
run_entry_lem s e h k = rw h (emit_cnd_lem _ e k)

run_entry-Marks :
    (s : Pp) {es : List Entry} {e : Entry} (z : ℤ)
    → HasValue s es e z
    → (t : Pp) × (run_entry e s ≡ some t) × Marks e z s t
unfolding define
run_entry-Marks s {e} z (given h) = (
  emit (marker e z) s,
  run_entry_lem s e (ifndef_defined s e.name e.fallback h) (rw (value, h)),
  record { out_eq = refl; same = λ n k. refl; identifiers_eq = refl },
)
run_entry-Marks s {e} z (renamed h k v) = (
  emit (marker e z) s,
  run_entry_lem s e (ifndef_defined s e.name e.fallback h) (rw (value, h) v),
  record { out_eq = refl; same = λ n k. refl; identifiers_eq = refl },
)
run_entry-Marks s {e} z (absent h k) = (
  emit (marker e z) (define e.name (number z) s),
  run_entry_lem s e (ifndef_undefined s e.name e.fallback h ∙ ap (λ f. define e.name f s) k)
      (rw (value, (eq_iff e.name e.name).1 refl)),
  record { out_eq = refl; same = λ n k. rw (str_eq-ne k); identifiers_eq = refl },
)

-- The value of a later entry, after an entry of another name.
HasValue-Marks :
    {s t : Pp} {e d : Entry} {es : List Entry} {z v : ℤ}
    → Marks e z s t
    → e.name ≢ d.name
    → HasValue s (e ∷ es) d v
    → HasValue t es d v
HasValue-Marks {d} marks ne (given h) = given (marks.same d.name ne ∙ h)
HasValue-Marks {s} {d} {v} marks ne (renamed {m} h k w) = renamed (marks.same d.name ne ∙ h) k.1 (
    rw (name_value, marks.same m k.0)
      (subst (λ ids. name_value s.env ids m ≡ some v) (sym marks.identifiers_eq) w))
HasValue-Marks {d} marks ne (absent h k) = absent (marks.same d.name ne ∙ h) k

-- Each entry has a name of its own.
abbrev pub HasOwnNames : List Entry → Type 0
HasOwnNames = AllPairs (λ e d. e.name ≢ d.name)

names_ne : (e d : Entry) → not (str_eq e.name d.name) ≡ true → e.name ≢ d.name
names_ne e d h = ground (arith, eq_iff e.name d.name)

pub own_names_sound :
    (es : List Entry) → all_pairs (λ e d. not (str_eq e.name d.name)) es ≡ true → HasOwnNames es
own_names_sound =
    all_pairs_sound (λ e d. e.name ≢ d.name) (λ e d. not (str_eq e.name d.name)) names_ne

All-HasValue :
    {s t : Pp} {e : Entry} (es : List Entry) {z : ℤ} (values : Entry → ℤ) (ds : List Entry)
    → Marks e z s t
    → All (λ d. e.name ≢ d.name) ds
    → All (λ d. HasValue s (e ∷ es) d (values d)) ds
    → All (λ d. HasValue t es d (values d)) ds
All-HasValue es values [] marks ne h = tt
All-HasValue es values (d ∷ ds) marks ne h =
    (HasValue-Marks marks ne.0 h.0, All-HasValue es values ds marks ne.1 h.1)

-- A list of entries with names of their own compiles, whatever stands before it, and leaves a marker
-- for each entry in order, with its line, name and comment and its value as an int: the value of
-- the headers, or of the name that the name stands for, or the fallback if it is no macro.
pub run_entries-marker :
    (s : Pp) (es : List Entry) (values : Entry → ℤ)
    → HasOwnNames es
    → All (λ e. HasValue s es e (values e)) es
    → (t : Pp) × (run_entries es s ≡ some t) × (t.out ≡ s.out ++ map (λ e. marker e (values e)) es)
unfolding run_entries
run_entries-marker s [] values own h = (s, refl, rw append-nil)
run_entries-marker s (e ∷ es) values own h =
    let (t, ran, marks) = run_entry-Marks s (values e) h.0 in
    let (u, rest, out_eq) =
      run_entries-marker t es values own.1 (All-HasValue es values es marks own.0 h.1) in
    (u, rw (ran, rest), out_eq ∙ rw marks.out_eq (append_assoc s.out (marker e (values e) ∷ []) _))
