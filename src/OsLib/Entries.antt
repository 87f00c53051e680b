-- ===== src/OsLib/Entries.antt =====
-- The shape that most of the template has: `#ifndef N`, `# define N -1`, `#endif`, `CND(N, "...")`.
use aws.Base.{ℕ, minus_one, String, Option, some, List, [], ◌∷◌, ◌>>=◌}
use aws.OsLib.Macros.{Body, number, Pp, ifndef, emit_cnd}

pub record Entry : Type 0 where
  pub line : ℕ
  pub name : String
  pub fallback : Body
  pub comment : String

-- An entry whose fallback is -1.
abbrev pub entry : ℕ → String → String → Entry
entry l n c = record { line = l; name = n; fallback = number minus_one; comment = c }

unfoldable pub run_entry : Entry → Pp → Option Pp
run_entry e s = emit_cnd e.line e.name e.comment (ifndef e.name e.fallback s)

unfoldable pub run_entries : List Entry → Pp → Option Pp
run_entries [] s = some s
run_entries (e ∷ es) s = run_entry e s >>= run_entries es
