-- ===== src/OsLib/Headers.antt =====
-- config/setup/os_lib-tmplt.c, up to the includes: what the template itself defines before any
-- constant is emitted. The headers' own macros are in the state from the start.
use aws.Base.{String, not, ◌&&◌, Option, none, some, List, [], ◌∷◌, ◌++◌, pos, if◌then◌else◌, ◌>>=◌}
use aws.OsLib.Macros.{number, alias, Pp, defined, define}

-- `#ifndef TARGET`, `# error Please define TARGET`
unfoldable pub require_target : Pp → Option Pp
require_target s = if defined s "TARGET" then some s else none

-- VxWorks
unfoldable pub vxworks_shutdown : Pp → Pp
vxworks_shutdown s =
    if defined s "__vxworks"
    then define "SHUT_RDWR" (number (pos 2))
        (define "SHUT_WR" (number (pos 1)) (define "SHUT_RD" (number (pos 0)) s))
    else s

-- `#if !defined N && defined M`, `#define N M`, `#endif`
unfoldable pub define_from : String → String → Pp → Pp
define_from n m s = if not (defined s n) && defined s m then define n (alias m) s else s

-- Windows: each error name stands for the Winsock one.
abbrev pub errno_aliases : List (String × String)
errno_aliases =
    ("EADDRNOTAVAIL", "WSAEADDRNOTAVAIL")
    ∷ ("ETIMEDOUT", "WSAETIMEDOUT")
    ∷ ("ENOTCONN", "WSAENOTCONN")
    ∷ ("EWOULDBLOCK", "WSAEWOULDBLOCK")
    ∷ ("EINPROGRESS", "WSAEINPROGRESS")
    ∷ ("ENOBUFS", "WSAENOBUFS")
    ∷ ("ESHUTDOWN", "WSAESHUTDOWN")
    ∷ ("ESOCKTNOSUPPORT", "WSAESOCKTNOSUPPORT")
    ∷ ("ETOOMANYREFS", "WSAETOOMANYREFS")
    ∷ ("ECONNRESET", "WSAECONNRESET")
    ∷ ("EADDRINUSE", "WSAEADDRINUSE")
    ∷ ("EAFNOSUPPORT", "WSAEAFNOSUPPORT")
    ∷ ("EALREADY", "WSAEALREADY")
    ∷ ("ECONNABORTED", "WSAECONNABORTED")
    ∷ ("ECONNREFUSED", "WSAECONNREFUSED")
    ∷ ("EDESTADDRREQ", "WSAEDESTADDRREQ")
    ∷ ("EHOSTDOWN", "WSAEHOSTDOWN")
    ∷ ("EHOSTUNREACH", "WSAEHOSTUNREACH")
    ∷ ("EISCONN", "WSAEISCONN")
    ∷ ("ELOOP", "WSAELOOP")
    ∷ ("EMSGSIZE", "WSAEMSGSIZE")
    ∷ ("EPFNOSUPPORT", "WSAEPFNOSUPPORT")
    ∷ ("EPROTONOSUPPORT", "WSAEPROTONOSUPPORT")
    ∷ ("EPROTOTYPE", "WSAEPROTOTYPE")
    ∷ ("ENETDOWN", "WSAENETDOWN")
    ∷ ("ENETRESET", "WSAENETRESET")
    ∷ ("ENETUNREACH", "WSAENETUNREACH")
    ∷ ("ENOPROTOOPT", "WSAENOPROTOOPT")
    ∷ ("ENOTSOCK", "WSAENOTSOCK")
    ∷ ("EOPNOTSUPP", "WSAEOPNOTSUPP")
    ∷ []

abbrev pub windows_aliases : List (String × String)
windows_aliases = errno_aliases ++ ("EAI_SYSTEM", "EAI_AGAIN") ∷ []

unfoldable pub define_all : List (String × String) → Pp → Pp
define_all [] s = s
define_all ((n, m) ∷ r) s = define_all r (define n (alias m) s)

unfoldable pub windows_names : Pp → Pp
unfolding define_from define_all
windows_names s =
    if defined s "_WIN32"
    then define_all windows_aliases (
        define_from "SHUT_RDWR" "SD_BOTH"
          (define_from "SHUT_WR" "SD_SEND" (define_from "SHUT_RD" "SD_RECEIVE" s)))
    else s

unfoldable pub headers : Pp → Option Pp
unfolding require_target vxworks_shutdown windows_names
headers s = do s ← require_target s; some (windows_names (vxworks_shutdown s))
