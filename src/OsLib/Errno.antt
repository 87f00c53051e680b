-- ===== src/OsLib/Errno.antt =====
-- config/setup/os_lib-tmplt.c: the errno values.
use aws.Base.{Option, List, [], ◌∷◌, ◌++◌}
use aws.OsLib.Entries.{Entry, entry, run_entries}
use aws.OsLib.Macros.{Pp}

abbrev pub errno_basic : List Entry
errno_basic =
    entry 548 "EAGAIN" "Try again"
    ∷ entry 553 "ENOENT" "File not found"
    ∷ entry 558 "ENOMEM" "Out of memory"
    ∷ []

abbrev pub errno_socket : List Entry
errno_socket =
    entry 571 "EADDRNOTAVAIL" "Cannot assign address"
    ∷ entry 576 "EINPROGRESS" "Operation now in progress"
    ∷ entry 581 "EINTR" "Interrupted system call"
    ∷ entry 586 "EINVAL" "Invalid argument"
    ∷ entry 591 "ENAMETOOLONG" "Name too long"
    ∷ entry 596 "ENOBUFS" "No buffer space available"
    ∷ entry 601 "ENOTCONN" "Socket not connected"
    ∷ entry 606 "ESHUTDOWN" "Cannot send once shutdown"
    ∷ entry 611 "ESOCKTNOSUPPORT" "Socket type not supported"
    ∷ entry 616 "ETIMEDOUT" "Connection timed out"
    ∷ entry 621 "ETOOMANYREFS" "Too many references"
    ∷ entry 626 "EWOULDBLOCK" "Operation would block"
    ∷ entry 631 "ECONNRESET" "Connection reset by peer"
    ∷ entry 636 "EACCES" "Permission denied"
    ∷ entry 641 "EADDRINUSE" "Address already in use"
    ∷ entry 646 "EAFNOSUPPORT" "Addr family not supported"
    ∷ entry 651 "EALREADY" "Operation in progress"
    ∷ entry 656 "EBADF" "Bad file descriptor"
    ∷ entry 661 "ECONNABORTED" "Connection aborted"
    ∷ []

abbrev pub errno_more : List Entry
errno_more =
    entry 666 "ECONNREFUSED" "Connection refused"
    ∷ entry 671 "EDESTADDRREQ" "Destination addr required"
    ∷ entry 676 "EFAULT" "Bad address"
    ∷ entry 681 "EHOSTDOWN" "Host is down"
    ∷ entry 686 "EHOSTUNREACH" "No route to host"
    ∷ entry 691 "EIO" "Input output error"
    ∷ entry 696 "EISCONN" "Socket already connected"
    ∷ entry 701 "ELOOP" "Too many symbolic links"
    ∷ entry 706 "EMFILE" "Too many open files"
    ∷ entry 711 "EMSGSIZE" "Message too long"
    ∷ entry 716 "EPIPE" "Broken pipe"
    ∷ entry 721 "EPFNOSUPPORT" "Unknown protocol family"
    ∷ entry 726 "EPROTONOSUPPORT" "Unknown protocol"
    ∷ entry 731 "EPROTOTYPE" "Unknown protocol type"
    ∷ entry 736 "ENETDOWN" "Network is down"
    ∷ entry 741 "ENETRESET" "Disconn. on network reset"
    ∷ entry 746 "ENETUNREACH" "Network is unreachable"
    ∷ entry 751 "ENOPROTOOPT" "Protocol not available"
    ∷ entry 756 "ENOTSOCK" "Operation on non socket"
    ∷ entry 761 "EOPNOTSUPP" "Operation not supported"
    ∷ []

abbrev pub errno_entries : List Entry
errno_entries = errno_basic ++ (errno_socket ++ errno_more)

unfoldable pub errno_values : Pp → Option Pp
errno_values = run_entries errno_entries
