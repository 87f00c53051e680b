-- ===== src/OsLib/Families.antt =====
-- config/setup/os_lib-tmplt.c: address families, socket modes, host errors, shutdown modes, protocol
-- levels, request flags and socket options.
use aws.Base.{String, pos, minus_one, Option, List, [], ◌∷◌, ◌++◌, if◌then◌else◌, ◌>>=◌}
use aws.OsLib.Entries.{Entry, entry, run_entries}
use aws.OsLib.Macros.{number, text, Pp, defined, define, undef, emit_cnd, emit_cns}

abbrev pub af_inet : Entry
af_inet = entry 774 "AF_INET" "IPv4 address family"

-- `#ifndef n`, `# define n -1`, `#else`, `# define have 1`, `#endif`
unfoldable pub define_or_have : String → String → Pp → Pp
define_or_have n have s =
    if defined s n then define have (number (pos 1)) s else define n (number minus_one) s

-- RTEMS defines AF_INET6 without support for IPv6.
unfoldable pub families : Pp → Option Pp
unfolding define_or_have
families s = do
  s ← run_entries (af_inet ∷ []) s
  s ← emit_cnd 789 "AF_INET6" "IPv6 address family" (
      define_or_have "AF_INET6" "HAVE_AF_INET6"
        (if defined s "__rtems__" then undef "AF_INET6" s else s))
  emit_cnd 796 "AF_UNSPEC" "Unspecified address family"
      (define_or_have "AF_UNSPEC" "HAVE_AF_UNSPEC" s)

abbrev pub modes_and_levels : List Entry
modes_and_levels =
    entry 809 "SOCK_STREAM" "Stream socket"
    ∷ entry 814 "SOCK_DGRAM" "Datagram socket"
    ∷ entry 827 "HOST_NOT_FOUND" "Unknown host"
    ∷ entry 832 "TRY_AGAIN" "Host name lookup failure"
    ∷ entry 837 "NO_DATA" "No data record for name"
    ∷ entry 842 "NO_RECOVERY" "Non recoverable errors"
    ∷ entry 855 "SHUT_RD" "No more recv"
    ∷ entry 860 "SHUT_WR" "No more send"
    ∷ entry 865 "SHUT_RDWR" "No more recv/send"
    ∷ entry 878 "SOL_SOCKET" "Options for socket level"
    ∷ entry 883 "IPPROTO_IP" "Dummy protocol for IP"
    ∷ entry 888 "IPPROTO_IPV6" "IPv6 socket option level"
    ∷ entry 893 "IPPROTO_UDP" "UDP"
    ∷ entry 898 "IPPROTO_TCP" "TCP"
    ∷ []

abbrev pub request_flags : List Entry
request_flags =
    entry 911 "MSG_OOB" "Process out-of-band data"
    ∷ entry 916 "MSG_PEEK" "Peek at incoming data"
    ∷ entry 921 "MSG_EOR" "Send end of record"
    ∷ []

-- The value of MSG_WAITALL where the headers leave it out.
unfoldable pub msg_waitall : Pp → Option Pp
msg_waitall s = emit_cnd 932 "MSG_WAITALL" "Wait for full reception" (
    if defined s "MSG_WAITALL"
    then s
    else if defined s "__MINWGW32__"
    then define "MSG_WAITALL" (number (pos 8)) s
    else define "MSG_WAITALL" (number minus_one) s)

abbrev pub msg_nosignal : Entry
msg_nosignal = entry 937 "MSG_NOSIGNAL" "No SIGPIPE on send"

-- The flags set on each send: the name, not its value, goes to the package.
unfoldable pub forced_flags : Pp → Option Pp
forced_flags s =
    emit_cns 944 "MSG_Forced_Flags" ""
      (define "MSG_Forced_Flags" (text (if defined s "__linux__" then "MSG_NOSIGNAL" else "0")) s)

abbrev pub socket_options : List Entry
socket_options =
    entry 960 "TCP_NODELAY" "Do not coalesce packets"
    ∷ entry 965 "SO_REUSEADDR" "Bind reuse local address"
    ∷ entry 970 "SO_KEEPALIVE" "Enable keep-alive msgs"
    ∷ entry 975 "SO_LINGER" "Defer close to flush data"
    ∷ entry 980 "SO_BROADCAST" "Can send broadcast msgs"
    ∷ entry 985 "SO_SNDBUF" "Set/get send buffer size"
    ∷ entry 990 "SO_RCVBUF" "Set/get recv buffer size"
    ∷ entry 995 "SO_SNDTIMEO" "Emission timeout"
    ∷ entry 1000 "SO_RCVTIMEO" "Reception timeout"
    ∷ entry 1005 "SO_ERROR" "Get/clear error status"
    ∷ entry 1010 "IP_MULTICAST_IF" "Set/get mcast interface"
    ∷ entry 1015 "IP_MULTICAST_TTL" "Set/get multicast TTL"
    ∷ entry 1020 "IP_MULTICAST_LOOP" "Set/get mcast loopback"
    ∷ entry 1025 "IP_ADD_MEMBERSHIP" "Join a multicast group"
    ∷ entry 1030 "IP_DROP_MEMBERSHIP" "Leave a multicast group"
    ∷ entry 1035 "IP_PKTINFO" "Get datagram info"
    ∷ entry 1040 "IPV6_V6ONLY" "Restricted to IPv6 communications only"
    ∷ []

unfoldable pub socket_constants : Pp → Option Pp
unfolding families msg_waitall forced_flags
socket_constants s = do
  s ← families s
  s ← run_entries (modes_and_levels ++ request_flags) s
  s ← msg_waitall s
  s ← run_entries (msg_nosignal ∷ []) s
  s ← forced_flags s
  run_entries socket_options s
