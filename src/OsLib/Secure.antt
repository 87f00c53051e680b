-- ===== src/OsLib/Secure.antt =====
-- config/setup/os_lib-tmplt.c: the constants for OpenSSL and for MinGW.
use aws.Base.{int_eq, ℕ, pos, String, Bool, Option, some, List, [], ◌∷◌, if◌then◌else◌, ◌>>=◌}
use aws.OsLib.Entries.{Entry, entry, run_entries}
use aws.OsLib.Macros.{number, Pp, defined, define, if_value, emit_cnd}

abbrev pub openssl_numbers : List (String × ℕ)
openssl_numbers =
    ("OPENSSL_VERSION", 0)
    ∷ ("OPENSSL_CFLAGS", 1)
    ∷ ("OPENSSL_BUILT_ON", 2)
    ∷ ("OPENSSL_PLATFORM", 3)
    ∷ ("OPENSSL_DIR", 4)
    ∷ ("OPENSSL_ENGINES_DIR", 5)
    ∷ ("OPENSSL_VERSION_STRING", 6)
    ∷ ("OPENSSL_FULL_VERSION_STRING", 7)
    ∷ ("OPENSSL_MODULES_DIR", 8)
    ∷ ("OPENSSL_CPU_INFO", 9)
    ∷ []

unfoldable pub define_numbers : List (String × ℕ) → Pp → Pp
define_numbers [] s = s
define_numbers ((n, k) ∷ r) s = define_numbers r (define n (number (pos k)) s)

abbrev pub openssl_entries : List Entry
openssl_entries =
    entry 1185 "OPENSSL_VERSION" "OpenSSL version"
    ∷ entry 1190 "OPENSSL_CFLAGS" "OpenSSL CFLAGS"
    ∷ entry 1195 "OPENSSL_BUILT_ON" "OpenSSL built on"
    ∷ entry 1200 "OPENSSL_PLATFORM" "OpenSSL platform"
    ∷ entry 1205 "OPENSSL_DIR" "OpenSSL dir"
    ∷ entry 1210 "OPENSSL_ENGINES_DIR" "OpenSSL engine dir"
    ∷ entry 1215 "OPENSSL_VERSION_STRING" "OpenSSL version string"
    ∷ entry 1220 "OPENSSL_FULL_VERSION_STRING" "OpenSSL full version string"
    ∷ entry 1225 "OPENSSL_MODULES_DIR" "OpenSSL modules dir"
    ∷ entry 1230 "OPENSSL_CPU_INFO" "OpenSSL CPU info"
    ∷ []

-- `#if SOCKET == name`; an operand that is no number does not compile.
unfoldable pub socket_is : String → Pp → Option Bool
socket_is name s = do a ← if_value s "SOCKET"; b ← if_value s name; some (int_eq a b)

-- The branch for gnutls is empty.
unfoldable pub secure_sockets : Pp → Option Pp
unfolding define_numbers socket_is
secure_sockets s = do
  let t = define_numbers openssl_numbers s
  is_openssl ← socket_is "openssl" t
  if is_openssl then run_entries openssl_entries t else socket_is "gnutls" t >>= (λ _. some t)

-- The Winsock codes that only MinGW gets.
unfoldable pub winsock_codes : Pp → Option Pp
winsock_codes s = do
  s ← emit_cnd 1244 "WSASYSNOTREADY" "System not ready" s
  s ← emit_cnd 1245 "WSAVERNOTSUPPORTED" "Version not supported" s
  s ← emit_cnd 1246 "WSANOTINITIALISED" "Winsock not initialized" s
  emit_cnd 1247 "WSAEDISCON" "Disconnected" s

unfoldable pub mingw_constants : Pp → Option Pp
unfolding winsock_codes
mingw_constants s = if defined s "__MINGW32__" then winsock_codes s else some s
