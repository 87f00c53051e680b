-- ===== src/ErrorText/Tests.antt =====
-- The texts of src/win32/gai_strerror.c, for codes that are numbered in the order of the cases.
use aws.Base.{
  ℕ, suc, ◌≡◌, ◌≢◌, refl, ℤ, pos, int_eq, int_eq_iff, String, true, false, not, none, List, [], ◌∷◌,
  ◌++◌, map, All, all_pairs, all_pairs_sound, str_eq, if◌then◌else◌, arith,
}
use aws.ErrorText.Laws.{
  HasDistinctLabels, gai_strerror-mingw64, socket_strerror-windows, reported_codes,
}
use aws.ErrorText.{Codes, Cases, gai_cases, socket_cases, gai_strerror, socket_strerror}

position : List String → String → ℕ
position [] n = 0
position (m ∷ r) n = if str_eq m n then 1 else suc (position r n)

abbrev numbering : Codes
numbering n = pos (position (map (λ c. c.0) (socket_cases ++ gai_cases false)) n)

-- As mingw64 has it.
abbrev mingw64_codes : Codes
mingw64_codes n = if str_eq n "EAI_NONAME" then numbering "EAI_NODATA" else numbering n

int_ne : (a b : ℤ) → not (int_eq a b) ≡ true → a ≢ b
int_ne a b h = ground (arith, int_eq_iff a b)

distinct :
    (f : Codes) (cs : Cases)
    → all_pairs (λ a b. not (int_eq (f a.0) (f b.0))) cs ≡ true
    → HasDistinctLabels f cs
distinct f cs h =
    all_pairs_sound (λ a b. f a.0 ≢ f b.0) (λ a b. not (int_eq (f a.0) (f b.0)))
      (λ a b. int_ne (f a.0) (f b.0)) cs h

mingw64_distinct : HasDistinctLabels mingw64_codes (gai_cases true)
unfolding all_pairs int_eq position
mingw64_distinct = distinct mingw64_codes (gai_cases true) refl

gai_strerror-mingw64_example :
    (gai_strerror true mingw64_codes (mingw64_codes "EAI_NONAME")
      ≡ "No address associated with nodename.")
    × ¬ HasDistinctLabels mingw64_codes (gai_cases false)
gai_strerror-mingw64_example = gai_strerror-mingw64 mingw64_codes refl mingw64_distinct

socket_strerror-windows_example :
    All (λ n. socket_strerror numbering (numbering n) ≢ none) reported_codes
socket_strerror-windows_example = socket_strerror-windows numbering
