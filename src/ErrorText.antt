-- ===== src/ErrorText.antt =====
-- src/win32/gai_strerror.c: the texts for the codes of getaddrinfo and of Winsock, which Windows lacks.
-- The codes themselves come from the Windows headers: `codes` gives each constant its value.
pub mod Laws
mod Tests
use aws.Base.{ℤ, int_eq, String, Bool, Option, none, some, List, [], ◌∷◌, ◌++◌, if◌then◌else◌}

abbrev pub Codes : Type 0
Codes = String → ℤ

-- The cases of a `switch`, each a constant with what it returns.
abbrev pub Cases : Type 0
Cases = List (String × String)

-- `switch (ecode)`; `none` is the default branch.
unfoldable pub switch : Codes → Cases → ℤ → Option String
switch codes [] e = none
switch codes ((n, t) ∷ r) e = if int_eq (codes n) e then some t else switch codes r e

abbrev pub gai_first : Cases
gai_first =
    ("EAI_AGAIN", "Temporary failure in name resolution.")
    ∷ ("EAI_BADFLAGS", "Invalid value for ai_flags.")
    ∷ ("EAI_FAIL", "Nonrecoverable failure in name resolution.")
    ∷ ("EAI_FAMILY", "The ai_family member is not supported.")
    ∷ ("EAI_MEMORY", "Memory allocation failure.")
    ∷ ("EAI_NODATA", "No address associated with nodename.")
    ∷ []

abbrev pub gai_noname : Cases
gai_noname = ("EAI_NONAME", "Neither nodename nor servname provided, or not known.") ∷ []

abbrev pub gai_last : Cases
gai_last =
    ("EAI_SERVICE", "The servname parameter is not supported for ai_socktype.")
    ∷ ("EAI_SOCKTYPE", "The ai_socktype member is not supported.")
    ∷ []

-- The case of EAI_NONAME is left out under mingw64.
abbrev pub gai_cases : Bool → Cases
gai_cases mingw64 = if mingw64 then gai_first ++ gai_last else gai_first ++ (gai_noname ++ gai_last)

-- `AWS_gai_strerror`
unfoldable pub gai_strerror : Bool → Codes → ℤ → String
gai_strerror mingw64 codes e = elim (switch codes (gai_cases mingw64) e) [
  | some t ↦ t
  | none ↦ "Unknown error."
]

abbrev pub socket_cases : Cases
socket_cases =
    ("WSAEINTR", "Interrupted system call")
    ∷ ("WSAEBADF", "Bad file number")
    ∷ ("WSAEACCES", "Permission denied")
    ∷ ("WSAEFAULT", "Bad address")
    ∷ ("WSAEINVAL", "Invalid argument")
    ∷ ("WSAEMFILE", "Too many open files")
    ∷ ("WSAEWOULDBLOCK", "Operation would block")
    ∷ ("WSAEINPROGRESS", "Operation now in progress")
    ∷ ("WSAEALREADY", "Operation already in progress")
    ∷ ("WSAENOTSOCK", "Socket operation on nonsocket")
    ∷ ("WSAEDESTADDRREQ", "Destination address required")
    ∷ ("WSAEMSGSIZE", "Message too long")
    ∷ ("WSAEPROTOTYPE", "Protocol wrong type for socket")
    ∷ ("WSAENOPROTOOPT", "Protocol not available")
    ∷ ("WSAEPROTONOSUPPORT", "Protocol not supported")
    ∷ ("WSAESOCKTNOSUPPORT", "Socket type not supported")
    ∷ ("WSAEOPNOTSUPP", "Operation not supported on socket")
    ∷ ("WSAEPFNOSUPPORT", "Protocol family not supported")
    ∷ ("WSAEAFNOSUPPORT", "Address family not supported by protocol family")
    ∷ ("WSAEADDRINUSE", "Address already in use")
    ∷ ("WSAEADDRNOTAVAIL", "Cannot assign requested address")
    ∷ ("WSAENETDOWN", "Network is down")
    ∷ ("WSAENETUNREACH", "Network is unreachable")
    ∷ ("WSAENETRESET", "Network dropped connection on reset")
    ∷ ("WSAECONNABORTED", "Software caused connection abort")
    ∷ ("WSAECONNRESET", "Connection reset by peer")
    ∷ ("WSAENOBUFS", "No buffer space available")
    ∷ ("WSAEISCONN", "Socket is already connected")
    ∷ ("WSAENOTCONN", "Socket is not connected")
    ∷ ("WSAESHUTDOWN", "Cannot send after socket shutdown")
    ∷ ("WSAETOOMANYREFS", "Too many references: cannot splice")
    ∷ ("WSAETIMEDOUT", "Connection timed out")
    ∷ ("WSAECONNREFUSED", "Connection refused")
    ∷ ("WSAELOOP", "Too many levels of symbolic links")
    ∷ ("WSAENAMETOOLONG", "File name too long")
    ∷ ("WSAEHOSTDOWN", "Host is down")
    ∷ ("WSAEHOSTUNREACH", "No route to host")
    ∷ (
      "WSASYSNOTREADY",
      "Returned by WSAStartup(), indicating that the network subsystem is unusable",
    )
    ∷ (
      "WSAVERNOTSUPPORTED",
      "Returned by WSAStartup(), indicating that the Windows Sockets DLL cannot support this application",
    )
    ∷ ("WSANOTINITIALISED", "Winsock not initialized")
    ∷ ("WSAEDISCON", "Disconnected")
    ∷ ("HOST_NOT_FOUND", "Host not found")
    ∷ ("TRY_AGAIN", "Nonauthoritative host not found")
    ∷ ("NO_RECOVERY", "Nonrecoverable error")
    ∷ ("NO_DATA", "Valid name, no data record of requested type")
    ∷ []

-- `socket_strerror`; `none` is the null pointer.
unfoldable pub socket_strerror : Codes → ℤ → Option String
socket_strerror codes e = switch codes socket_cases e
