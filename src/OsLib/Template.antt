-- ===== src/OsLib/Template.antt =====
-- config/setup/os_lib-tmplt.c: the whole template, its sections in order.
use aws.Base.{Option, some, List, ◌>>=◌}
use aws.OsLib.Errno.{errno_values}
use aws.OsLib.Families.{socket_constants}
use aws.OsLib.General.{general}
use aws.OsLib.Headers.{headers}
use aws.OsLib.Macros.{Platform, Marker, Pp, start}
use aws.OsLib.Secure.{secure_sockets, mingw_constants}
use aws.OsLib.Sizes.{sizes, poll_sizes, poll_values, io_constants}

-- The sections of `main`.
unfoldable pub sections : Pp → Option Pp
sections s = do
  s ← general s
  s ← sizes s
  s ← poll_sizes s
  s ← poll_values s
  s ← io_constants s
  s ← errno_values s
  s ← socket_constants s
  s ← secure_sockets s
  mingw_constants s

-- The markers that the compiled template holds; `none` where it does not compile.
unfoldable pub compile : Platform → Option (List Marker)
unfolding sections
compile p = do s ← headers (start p); s ← sections s; some s.out
