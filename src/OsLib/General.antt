-- ===== src/OsLib/General.antt =====
-- config/setup/os_lib-tmplt.c: the head of `main`, with the texts that open the package and the
-- constants for the target's system.
use Prim.Native.String
use aws.Base.{ℕ, String, Option, some, ◌>>=◌, if◌then◌else◌}
use aws.OsLib.Macros.{text, alias, Pp, defined, define, txt, emit, emit_c, string_value}

-- `TXT` with a literal.
unfoldable pub emit_txt : ℕ → String → Pp → Pp
emit_txt line t s = emit (txt line t) s

-- `TXT("--  This is the version for " TARGET)`: adjacent literals are joined.
unfoldable pub version_text : Pp → Option Pp
unfolding emit_txt
version_text s = do
  t ← string_value s "TARGET"
  some (emit_txt 245 (String.◌++◌ "--  This is the version for " t) s)

unfoldable pub with_clauses : Pp → Pp
unfolding emit_txt
with_clauses s =
    let both =
      emit_txt 253 "with System;" (emit_txt 252 "with Interfaces.C.Strings;" (emit_txt 246 "" s)) in
    if defined both "_WIN32" then both else emit_txt 255 "with GNAT.OS_Lib;" both

unfoldable pub target_os : Pp → Pp
target_os s =
    define "TARGET_OS"
      (text (
        if defined s "__MINGW32__"
        then "Windows"
        else if defined s "__VMS"
        then "VMS"
        else "Other_OS"))
      s

unfoldable pub general : Pp → Option Pp
unfolding version_text with_clauses target_os
general s = do
  s ← version_text s
  s ← emit_c 284 "Target_OS" "OS_Type" "TARGET_OS" "" (target_os (with_clauses s))
  emit_c 293 "Target_Name" "String" "Target_Name" "" (define "Target_Name" (alias "TARGET") s)
