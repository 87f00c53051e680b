-- ===== src/OsLib/Windows.antt =====
-- config/setup/os_lib-tmplt.c: the errno values on Windows.
use mathlib.Core.Option
use aws.Base.{
  int_eq, int_eq_iff, ap, all_pairs, map_All, ◌≡◌, ◌≢◌, refl, ◌∙◌, ℤ, minus_one, String, Bool, true,
  false, not, ◌&&◌, ◌||◌, subst, Bool-cases, Option-cases, inl, inr, Option, none, some, List, [],
  ◌∷◌, ◌++◌, map, All, All-In, In, here, there, all, all_sound, str_eq, eq_iff, if◌then◌else◌,
  arith,
}
use aws.OsLib.Entries.{Entry}
use aws.OsLib.Errno.{errno_entries, errno_values}
use aws.OsLib.Headers.{windows_aliases, define_all, define_from, windows_names}
use aws.OsLib.Macros.{text, Body, number, alias, Pp, defined, define, name_value}
use aws.OsLib.Values.{
  HasOwnNames, HasValue, given, renamed, absent, marker, own_names_sound, run_entries-marker,
}

-- What the last definition of a name among these makes it stand for.
abbrev pub last_alias : List (String × String) → String → Option String
last_alias [] n = none
last_alias ((m, w) ∷ r) n = elim (last_alias r n) [
  | some v ↦ some v
  | none ↦ if str_eq m n then some w else none
]

some_eq : {a b : String} → some a ≡ some b → a ≡ b
some_eq h = cc

none_ne : {b : String} → none ≢ some b
none_ne h = cc

define_from-other :
    (s : Pp) (n m k : String) → str_eq n k ≡ false → (define_from n m s).env k ≡ s.env k
unfolding define_from define
define_from-other s n m k h = elim (Bool-cases (not (defined s n) && defined s m)) [
  | inl set ↦ rw (set, h)
  | inr unset ↦ rw unset
]

-- The names of the shutdown modes do not touch others.
shut_names : Pp → Pp
shut_names s =
    define_from "SHUT_RDWR" "SD_BOTH"
      (define_from "SHUT_WR" "SD_SEND" (define_from "SHUT_RD" "SD_RECEIVE" s))

abbrev is_shut : String → Bool
is_shut k = str_eq "SHUT_RDWR" k || (str_eq "SHUT_WR" k || str_eq "SHUT_RD" k)

shut_names-other : (s : Pp) (k : String) → is_shut k ≡ false → (shut_names s).env k ≡ s.env k
unfolding shut_names
shut_names-other s k h =
    let s1 = define_from "SHUT_RD" "SD_RECEIVE" s in
    define_from-other (define_from "SHUT_WR" "SD_SEND" s1) "SHUT_RDWR" "SD_BOTH" k (ground arith)
    ∙ define_from-other s1 "SHUT_WR" "SD_SEND" k (ground arith)
    ∙ define_from-other s "SHUT_RD" "SD_RECEIVE" k (ground arith)

abbrev aliased : List (String × String) → (String → Option Body) → String → Option Body
aliased ps env k = elim (last_alias ps k) [ some m ↦ some (alias m) | none ↦ env k ]

define_all_env :
    (ps : List (String × String)) (s : Pp) (k : String)
    → (define_all ps s).env k ≡ aliased ps s.env k
unfolding define_all define
define_all_env [] s k = refl
define_all_env ((n, m) ∷ ps) s k =
    define_all_env ps (define n (alias m) s) k ∙ elim (Option-cases (last_alias ps k)) [
      | inl missing ↦ elim (Bool-cases (str_eq n k)) [
        | inl same ↦ rw (aliased, missing, same)
        | inr other ↦ rw (aliased, missing, other)
      ]
      | inr (v, found) ↦ rw (aliased, found)
    ]

last_alias-In :
    (ps : List (String × String)) (k : String) {m : String}
    → last_alias ps k ≡ some m
    → (n : String) × In (n, m) ps
last_alias-In [] k h = cc
last_alias-In ((n, w) ∷ ps) k {m} h = elim (Option-cases (last_alias ps k)) [
  | inl missing ↦ elim (Bool-cases (str_eq n k)) [
    | inl same ↦
        let w_eq : w ≡ m = some_eq (rw (missing, same) at h) in
        (n, subst (λ v. In (n, v) ((n, w) ∷ ps)) w_eq here)
    | inr other ↦ absurd (none_ne (rw (missing, other) at h))
  ]
  | inr (v, found) ↦
      let (l, i) = last_alias-In ps k {m = v} found in
      let v_eq : v ≡ m = some_eq (rw found at h) in
      (l, subst (λ u. In (l, u) ((n, w) ∷ ps)) v_eq (there i))
]

-- The names on the right are Winsock's: no alias, no entry and no shutdown mode has one of them.
is_foreign : String → Bool
is_foreign m = elim (last_alias windows_aliases m) [
  | none ↦ not (is_shut m) && all (λ d. not (str_eq d.name m)) errno_entries
  | some _ ↦ false
]

record IsForeign (m : String) : Type 0 where
  not_alias : last_alias windows_aliases m ≡ none
  not_shut : is_shut m ≡ false
  not_entry : All (λ d. d.name ≢ m) errno_entries

is_foreign_sound : (m : String) → is_foreign m ≡ true → IsForeign m
unfolding is_foreign
is_foreign_sound m h = elim (Option-cases (last_alias windows_aliases m)) [
  | inl missing ↦
      let tests = rw (is_foreign, missing) at h in
      record {
        not_alias = missing;
        not_shut = ground arith;
        not_entry =
            all_sound (λ d. d.name ≢ m) (λ d. not (str_eq d.name m))
              (λ d k. ground (arith, eq_iff d.name m)) errno_entries (ground arith);
      }
  | inr (v, found) ↦ absurd (ground arith)
]

aliases-IsForeign : All (λ p. IsForeign p.1) windows_aliases
unfolding is_foreign all
aliases-IsForeign =
    all_sound (λ p. IsForeign p.1) (λ p. is_foreign p.1) (λ p. is_foreign_sound p.1) windows_aliases
      refl

entries_not_shut : All (λ e. is_shut e.name ≡ false) errno_entries
entries_not_shut =
    all_sound (λ e. is_shut e.name ≡ false) (λ e. not (is_shut e.name)) (λ e h. ground arith)
      errno_entries (unfold all in refl)

is_minus_one : Body → Bool
is_minus_one (number z) = int_eq z minus_one
is_minus_one _ = false

is_minus_one_sound : (b : Body) → is_minus_one b ≡ true → b ≡ number minus_one
unfolding is_minus_one
is_minus_one_sound (number z) h = ap (λ z. number z) ((int_eq_iff z minus_one).0 h)
is_minus_one_sound (alias m) h = cc
is_minus_one_sound (text t) h = cc

fallbacks : All (λ e. e.fallback ≡ number minus_one) errno_entries
fallbacks =
    all_sound (λ e. e.fallback ≡ number minus_one) (λ e. is_minus_one e.fallback)
      (λ e. is_minus_one_sound e.fallback) errno_entries (unfold all is_minus_one int_eq in refl)

-- The value of an errno name: Winsock's for the name that it stands for, else that of the headers,
-- else -1.
abbrev pub windows_value : (String → ℤ) → (String → Option ℤ) → Entry → ℤ
windows_value winsock other e = elim (last_alias windows_aliases e.name) [
  | some w ↦ winsock w
  | none ↦ elim (other e.name) [ some z ↦ z | none ↦ minus_one ]
]

module _ (s : Pp) (winsock : String → ℤ) (other : String → Option ℤ)
    (codes : All (λ p. s.env p.1 ≡ some (number (winsock p.1))) windows_aliases)
    (others : All (λ e. s.env e.name ≡ Option.map number (other e.name)) errno_entries) where
  abbrev renaming : Pp
  renaming = define_all windows_aliases (shut_names s)

  renaming_env : (k : String) → is_shut k ≡ false → renaming.env k ≡ aliased windows_aliases s.env k
  renaming_env k h =
      define_all_env windows_aliases (shut_names s) k
      ∙ elim (Option-cases (last_alias windows_aliases k)) [
        | inl missing ↦ rw (aliased, missing) (shut_names-other s k h)
        | inr (v, found) ↦ rw (aliased, found)
      ]

  entry-HasValue :
      (e : Entry)
      → In e errno_entries
      → HasValue renaming errno_entries e (windows_value winsock other e)
  entry-HasValue e i =
      let env_eq = renaming_env e.name (All-In (λ d. is_shut d.name ≡ false) entries_not_shut i) in
      elim (Option-cases (last_alias windows_aliases e.name)) [
        | inr (m, found) ↦
            let (n, j) = last_alias-In windows_aliases e.name found in
            let foreign = All-In (λ p. IsForeign p.1) aliases-IsForeign j in
            let code : s.env m ≡ some (number (winsock m)) =
              All-In (λ p. s.env p.1 ≡ some (number (winsock p.1))) codes j in
            let m_eq : renaming.env m ≡ some (number (winsock m)) =
              renaming_env m foreign.not_shut ∙ rw (aliased, foreign.not_alias) code in
            rw (windows_value, found)
              (renamed {m = m} (env_eq ∙ rw (aliased, found)) foreign.not_entry
                (rw (name_value, m_eq)))
        | inl missing ↦
            let known = All-In (λ e. s.env e.name ≡ Option.map number (other e.name)) others i in
            elim (Option-cases (other e.name)) [
              | inl unknown ↦
                  rw (windows_value, missing, unknown)
                    (absent (env_eq ∙ rw (aliased, missing, known, unknown))
                      (All-In (λ d. d.fallback ≡ number minus_one) fallbacks i))
              | inr (z, value) ↦
                  rw (windows_value, missing, value)
                    (given (env_eq ∙ rw (aliased, missing, known, value)))
            ]
      ]

errno_entries-HasOwnNames : HasOwnNames errno_entries
errno_entries-HasOwnNames = own_names_sound errno_entries (unfold all_pairs in refl)

windows_names-renaming :
    (s : Pp)
    → defined s "_WIN32" ≡ true
    → windows_names s ≡ define_all windows_aliases (shut_names s)
unfolding windows_names shut_names
windows_names-renaming s h = rw h

-- Under _WIN32, if the headers give each name that an alias of the template stands for a value, the
-- errno section compiles after the aliases and leaves a marker for each errno name in order, with
-- its value as an int: the value of the Winsock name for an aliased one, whatever the headers
-- define it as, and for another name the value of the headers, or -1 if it is no macro.
pub errno_values-windows :
    (s : Pp) (winsock : String → ℤ) (other : String → Option ℤ)
    → defined s "_WIN32" ≡ true
    → All (λ p. s.env p.1 ≡ some (number (winsock p.1))) windows_aliases
    → All (λ e. s.env e.name ≡ Option.map number (other e.name)) errno_entries
    → (t : Pp) × (errno_values (windows_names s) ≡ some t)
      × (t.out
          ≡ (windows_names s).out
            ++ map (λ e. marker e (windows_value winsock other e)) errno_entries)
unfolding errno_values
errno_values-windows s winsock other win codes others = rw (windows_names-renaming s win) (
    run_entries-marker (define_all windows_aliases (shut_names s)) errno_entries
      (windows_value winsock other) errno_entries-HasOwnNames
      (map_All errno_entries (entry-HasValue s winsock other codes others)))
