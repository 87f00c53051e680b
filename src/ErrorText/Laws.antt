-- ===== src/ErrorText/Laws.antt =====
-- src/win32/gai_strerror.c: which text each code gets.
use aws.Base.{
  map_All, int_eq, int_eq_iff, ◌≡◌, ◌≢◌, inl, inr, refl, sym, String, Bool, true, false, Bool-cases,
  Option-cases, subst, str_eq, eq_iff, all_sound, all, ◌++◌, map, Option, none, some, List, [], ◌∷◌,
  In, here, there, All, AllPairs, All-In, if◌then◌else◌, arith,
}
use aws.OsLib.Headers.{errno_aliases}
use aws.ErrorText.{Codes, Cases, switch, gai_cases, gai_strerror, socket_cases, socket_strerror}

-- No two labels of the `switch` have one value: C does not compile it otherwise.
abbrev pub HasDistinctLabels : Codes → Cases → Type 0
HasDistinctLabels codes = AllPairs (λ a b. codes a.0 ≢ codes b.0)

switch-In :
    (codes : Codes) {c : String × String} {cs : Cases}
    → HasDistinctLabels codes cs
    → In c cs
    → switch codes cs (codes c.0) ≡ some c.1
unfolding switch
switch-In codes {c} h here = rw ((int_eq_iff (codes c.0) (codes c.0)).1 refl)
switch-In codes {c} h (there {x} m) = elim (Bool-cases (int_eq (codes x.0) (codes c.0))) [
  | inl same ↦
      absurd
        (All-In (λ b. codes x.0 ≢ codes b.0) h.0 m ((int_eq_iff (codes x.0) (codes c.0)).0 same))
  | inr other ↦ rw other (switch-In codes h.1 m)
]

-- A label is never left to the default branch, even where labels share a value.
switch-ne-none :
    (codes : Codes) {c : String × String} {cs : Cases}
    → In c cs
    → switch codes cs (codes c.0) ≢ none
unfolding switch
switch-ne-none codes {c} here = ground (arith, (int_eq_iff (codes c.0) (codes c.0)).1 refl)
switch-ne-none codes (there m) = ground (arith, switch-ne-none codes m)

-- Where the labels differ, `AWS_gai_strerror` gives each code of a case that case's text.
gai_strerror_cases :
    (mingw64 : Bool) (codes : Codes)
    → HasDistinctLabels codes (gai_cases mingw64)
    → All (λ k. gai_strerror mingw64 codes (codes k.0) ≡ k.1) (gai_cases mingw64)
unfolding gai_strerror
gai_strerror_cases mingw64 codes h =
    map_All (gai_cases mingw64) (λ k i. rw (gai_strerror, switch-In codes h i))

-- Where the runtime gives EAI_NODATA and EAI_NONAME one value, as mingw64 does, the `switch` with
-- both cases has labels that clash; with the case left out the value gets the text of EAI_NODATA.
pub gai_strerror-mingw64 :
    (codes : Codes)
    → codes "EAI_NONAME" ≡ codes "EAI_NODATA"
    → HasDistinctLabels codes (gai_cases true)
    → (gai_strerror true codes (codes "EAI_NONAME") ≡ "No address associated with nodename.")
      × ¬ HasDistinctLabels codes (gai_cases false)
gai_strerror-mingw64 codes same h =
    let texts = gai_strerror_cases true codes h in
    (rw same texts.1.1.1.1.1.0, λ clash. clash.1.1.1.1.1.0.0 (sym same))

-- The text of a label, if the cases have it.
label_text : String → Cases → Option String
label_text n [] = none
label_text n ((m, t) ∷ cs) = if str_eq m n then some t else label_text n cs

has_label : Cases → String → Bool
unfolding label_text
has_label cs n = elim (label_text n cs) [ some t ↦ true | none ↦ false ]

label_text-In : (n : String) (cs : Cases) {t : String} → label_text n cs ≡ some t → In (n, t) cs
unfolding label_text
label_text-In n [] h = cc
label_text-In n ((m, u) ∷ cs) {t} h = elim (Bool-cases (str_eq m n)) [
  | inl same ↦
      let c_eq : ◌≡◌ {A = String × String} (m, u) (n, t) = ground (arith, eq_iff m n) in
      subst (λ c. In c ((m, u) ∷ cs)) c_eq here
  | inr other ↦ there (label_text-In n cs (rw other at h))
]

has_label-In : (cs : Cases) (n : String) → has_label cs n ≡ true → (t : String) × In (n, t) cs
unfolding has_label
has_label-In cs n h = elim (Option-cases (label_text n cs)) [
  | inl missing ↦ ground arith
  | inr (t, found) ↦ (t, label_text-In n cs found)
]

-- The codes by which the template of AWS.OS_Lib replaces errno names, and those that it adds.
abbrev pub reported_codes : List String
reported_codes =
    map (λ p. p.1) errno_aliases
    ++ ("WSASYSNOTREADY" ∷ "WSAVERNOTSUPPORTED" ∷ "WSANOTINITIALISED" ∷ "WSAEDISCON" ∷ [])

-- Whatever values the Windows headers give the constants, `socket_strerror` returns a text, and not
-- the null pointer, for each Winsock code by which the template of AWS.OS_Lib replaces an errno name,
-- and for each of those that the template adds for MinGW.
pub socket_strerror-windows :
    (codes : Codes) → All (λ n. socket_strerror codes (codes n) ≢ none) reported_codes
unfolding socket_strerror all has_label
socket_strerror-windows codes =
    all_sound (λ n. socket_strerror codes (codes n) ≢ none) (has_label socket_cases)
      (λ n h. switch-ne-none codes (has_label-In socket_cases n h).1) reported_codes refl
