-- ===== src/OsLib/Linux.antt =====
-- config/setup/os_lib-tmplt.c on a Linux target.
use aws.Base.{
  ℕ, ◌≡◌, refl, ℤ, pos, String, Bool, true, false, Option, none, some, List, [], ◌∷◌, int_eq,
  of_word, to_int, to_word, str_eq, if◌then◌else◌,
}
use aws.OsLib.Entries.{run_entry, run_entries}
use aws.OsLib.Headers.{
  headers, define_all, define_from, require_target, vxworks_shutdown, windows_names,
}
use aws.OsLib.General.{general, emit_txt, target_os, version_text, with_clauses}
use aws.OsLib.Sizes.{
  sizes, emit_size, poll_sizes, poll_values, io_constants, define_fionwrite, addrinfo_offsets,
  fionwrite, poll_fallbacks,
}
use aws.OsLib.Errno.{errno_values}
use aws.OsLib.Families.{define_or_have, families, forced_flags, msg_waitall, socket_constants}
use aws.OsLib.Secure.{define_numbers, mingw_constants, secure_sockets, socket_is, winsock_codes}
use aws.OsLib.Macros.{undef, Platform, Marker, start, define, ifndef, emit_cnd, emit_cns, emit_c}
use aws.OsLib.Template.{sections, compile}

abbrev pub linux_macros : List (String × ℕ)
linux_macros =
    ("FD_SETSIZE", 1024)
    ∷ ("POLLIN", 1)
    ∷ ("POLLPRI", 2)
    ∷ ("POLLOUT", 4)
    ∷ ("POLLERR", 8)
    ∷ ("POLLHUP", 16)
    ∷ ("POLLNVAL", 32)
    ∷ ("EAGAIN", 11)
    ∷ ("EINTR", 4)
    ∷ ("__linux__", 1)
    ∷ ("AF_INET", 2)
    ∷ ("AF_INET6", 10)
    ∷ ("AF_UNSPEC", 0)
    ∷ ("AI_PASSIVE", 1)
    ∷ ("SOL_SOCKET", 1)
    ∷ ("TIOCOUTQ", 21521)
    ∷ ("MSG_WAITALL", 256)
    ∷ []

unfoldable pub find_macro : List (String × ℕ) → String → Option ℤ
find_macro [] n = none
find_macro ((m, k) ∷ r) n = if str_eq m n then some (pos k) else find_macro r n

abbrev pub linux : Platform
linux = record {
  macros = find_macro linux_macros;
  identifiers = λ n. none;
  target = some "x86_64-pc-linux-gnu";
  layout = record {
    unsigned_int = 4;
    fd_set = 128;
    sin_family = 2;
    sin_family_offset = 0;
    ai_family_offset = 4;
    ai_canonname_offset = 32;
    ai_addr_offset = 24;
    int = 4;
    short = 2;
    size_t = 8;
    nfds_t = 8;
    pollfd_events = 2;
    pollfd_fd = 4;
    socket = 4;
    socklen_t = 4;
    tv_sec = 8;
    tv_usec = 8;
  };
}

unfoldable pub is_some : Option (List Marker) → Bool
is_some none = false
is_some (some out) = true

unfoldable pub from_some : Option (List Marker) → List Marker
from_some none = []
from_some (some out) = out

some-from_some : (o : Option (List Marker)) → is_some o ≡ true → o ≡ some (from_some o)
unfolding is_some from_some
some-from_some none h = cc
some-from_some (some out) h = refl

-- What the template leaves there.
abbrev pub linux_out : List Marker
linux_out = from_some (compile linux)

linux-is_some : is_some (compile linux) ≡ true
unfolding compile headers start general find_macro emit_c define sizes emit_size emit_cnd poll_sizes
    poll_values io_constants run_entries run_entry ifndef define_fionwrite int_eq of_word to_int
    to_word errno_values define_or_have families forced_flags msg_waitall socket_constants emit_txt
    target_os version_text with_clauses define_all define_from require_target vxworks_shutdown
    windows_names emit_cns undef define_numbers mingw_constants secure_sockets socket_is
    winsock_codes addrinfo_offsets fionwrite poll_fallbacks sections is_some
linux-is_some = refl

-- The template compiles there.
pub linux-compile : compile linux ≡ some linux_out
linux-compile = some-from_some (compile linux) linux-is_some
