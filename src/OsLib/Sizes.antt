-- ===== src/OsLib/Sizes.antt =====
-- config/setup/os_lib-tmplt.c: sizes of data types, poll values, fcntl and ioctl operations, and the
-- constants of getaddrinfo.
use aws.Base.{
  ℕ, ℤ, ◌*◌, String, Bool, ◌||◌, Option, List, [], ◌∷◌, pos, negsuc, minus_one, if◌then◌else◌,
  ◌>>=◌,
}
use aws.OsLib.Entries.{Entry, entry, run_entries}
use aws.OsLib.Macros.{number, alias, Pp, defined, define, ifndef, emit_cnd}

-- `#define name value`, then `CND(name, comment)`
unfoldable pub emit_size : ℕ → String → ℤ → String → Pp → Option Pp
emit_size line name z comment s = emit_cnd line name comment (define name (number z) s)

-- `#if defined(_WIN32) || defined(__vxworks)`
abbrev pub has_no_poll : Pp → Bool
has_no_poll s = defined s "_WIN32" || defined s "__vxworks"

-- The offsets of struct addrinfo; without <netdb.h> three numbers in the same order.
unfoldable pub addrinfo_offsets : Pp → Option Pp
addrinfo_offsets s =
    let family = if defined s "AI_PASSIVE" then pos s.layout.ai_family_offset else negsuc 6 in
    let canonname = if defined s "AI_PASSIVE" then pos s.layout.ai_canonname_offset else negsuc 1 in
    let addr = if defined s "AI_PASSIVE" then pos s.layout.ai_addr_offset else negsuc 2 in
    do
      s ← emit_size 355 "AI_FAMILY_OFFSET" family "???" s
      s ← emit_size 356 "AI_CANONNAME_OFFSET" canonname "???" s
      emit_size 357 "AI_ADDR_OFFSET" addr "???" s

unfoldable pub sizes : Pp → Option Pp
unfolding addrinfo_offsets
sizes s = do
  let l = s.layout
  s ← emit_size 322 "SIZEOF_unsigned_int" (pos l.unsigned_int) "Size of unsigned int" s
  s ← emit_size 325 "SIZEOF_fd_set" (pos l.fd_set) "fd_set" s
  s ← emit_cnd 326 "FD_SETSIZE" "Max fd value" s
  s ← emit_size 332 "SIZEOF_sin_family" (pos (l.sin_family * 8)) "Size of sa.sin_family" s
  s ← emit_size 336 "SIN_FAMILY_OFFSET" (pos l.sin_family_offset) "sin_family offset in record" s
  addrinfo_offsets s

unfoldable pub poll_sizes : Pp → Option Pp
poll_sizes s = do
  let l = s.layout
  let old = has_no_poll s
  let events = if old then l.short else l.pollfd_events
  let fd =
      if defined s "_WIN32" then l.socket else if defined s "__vxworks" then l.int else l.pollfd_fd
  s ← emit_size 365 "SIZEOF_nfds_t" (pos ((if old then l.int else l.nfds_t) * 8)) "Size of nfds_t" s
  s ← emit_size 374 "SIZEOF_pollfd_events" (pos (events * 8)) "Size of pollfd.events" s
  s ← emit_size 385 "SIZEOF_fd_type" (pos (fd * 8)) "Size of socket fd" s
  s ←
      emit_size 393 "SIZEOF_socklen_t" (pos ((if old then l.size_t else l.socklen_t) * 8))
        "Size of socklen_t" s
  s ← emit_size 402 "SIZEOF_tv_sec" (pos (l.tv_sec * 8)) "tv_sec" s
  emit_size 404 "SIZEOF_tv_usec" (pos (l.tv_usec * 8)) "tv_usec" s

-- Where there is no poll, each name that the headers leave undefined gets a bit of its own.
unfoldable pub poll_fallbacks : Pp → Pp
poll_fallbacks s =
    if has_no_poll s
    then ifndef "POLLNVAL" (number (pos 32)) (
        ifndef "POLLHUP" (number (pos 16)) (
          ifndef "POLLERR" (number (pos 8)) (
            ifndef "POLLOUT" (number (pos 4))
              (ifndef "POLLPRI" (number (pos 2)) (ifndef "POLLIN" (number (pos 1)) s)))))
    else s

unfoldable pub poll_values : Pp → Option Pp
unfolding poll_fallbacks
poll_values s = do
  s ← emit_cnd 439 "POLLIN" "There is data to read" (poll_fallbacks s)
  s ← emit_cnd 440 "POLLPRI" "Urgent data to read" s
  s ← emit_cnd 441 "POLLOUT" "Writing will not block" s
  s ← emit_cnd 442 "POLLERR" "Error (output only)" s
  s ← emit_cnd 443 "POLLHUP" "Hang up (output only)" s
  emit_cnd 444 "POLLNVAL" "Invalid request" s

abbrev pub fcntl_ioctl : List Entry
fcntl_ioctl =
    entry 457 "FNDELAY" "Nonblocking"
    ∷ entry 470 "FIONBIO" "Set/clear non-blocking io"
    ∷ entry 475 "FIONREAD" "How many bytes to read"
    ∷ []

-- The size of the send queue has two names in the headers.
unfoldable pub define_fionwrite : Pp → Pp
define_fionwrite s =
    if defined s "FIONWRITE"
    then s
    else if defined s "SIOCOUTQ"
    then define "FIONWRITE" (alias "SIOCOUTQ") s
    else if defined s "TIOCOUTQ"
    then define "FIONWRITE" (alias "TIOCOUTQ") s
    else define "FIONWRITE" (number minus_one) s

unfoldable pub fionwrite : Pp → Option Pp
fionwrite s = emit_cnd 486 "FIONWRITE" "How many bytes in the send queue" (define_fionwrite s)

abbrev pub fionspace : Entry
fionspace = entry 491 "FIONSPACE" "Free space in the send queue"

abbrev pub getaddrinfo : List Entry
getaddrinfo =
    entry 504 "AI_PASSIVE" "NULL nodename for accepting"
    ∷ entry 509 "AI_CANONNAME" "Get the host official name"
    ∷ entry 514 "AI_NUMERICSERV" "Service is a numeric string"
    ∷ entry 519 "AI_NUMERICHOST" "Node is a numeric IP address"
    ∷ entry 524 "EAI_SYSTEM" "Check errno for details"
    ∷ entry 529 "EAI_NODATA" "No address associated with nodename"
    ∷ entry 534 "NI_NUMERICHOST" "Numeric form of the hostname"
    ∷ []

unfoldable pub io_constants : Pp → Option Pp
unfolding fionwrite
io_constants s = do
  s ← run_entries fcntl_ioctl s
  s ← fionwrite s
  run_entries (fionspace ∷ getaddrinfo) s
