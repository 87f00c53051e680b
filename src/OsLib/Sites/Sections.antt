-- ===== src/OsLib/Sites/Sections.antt =====
-- config/setup/os_lib-tmplt.c: the sites of each section.
use Prim.Native.String
use aws.Base.{
  ◌>>=◌, refl, ℕ, none, String, Bool, Option, some, List, [], ◌∷◌, ◌++◌, map, ℤ, arith,
  if◌then◌else◌,
}
use aws.OsLib.Entries.{run_entries}
use aws.OsLib.Errno.{errno_entries, errno_values}
use aws.OsLib.Families.{
  af_inet, define_or_have, families, modes_and_levels, request_flags, msg_waitall, msg_nosignal,
  forced_flags, socket_options, socket_constants,
}
use aws.OsLib.General.{emit_txt, version_text, with_clauses, target_os, general}
use aws.OsLib.Headers.{
  require_target, vxworks_shutdown, define_from, define_all, windows_names, windows_aliases,
  headers,
}
use aws.OsLib.Macros.{Pp, define, string_value}
use aws.OsLib.Secure.{
  define_numbers, openssl_numbers, openssl_entries, socket_is, secure_sockets, mingw_constants,
}
use aws.OsLib.Sites.{
  Grows-trans, Grows-if, Grows-skip, emit_txt-Grows, Yields-after, Site, Grows, Grows-of_out,
  Yields, stops, yields, Yields-bind, Yields-from, Yields-if, emit_cnd-Yields, emit_cns-Yields,
  emit_c-Yields, entry_site, Keeps, Keeps-refl, Keeps-trans, Keeps-define, Keeps-undef,
  Keeps-ifndef, Keeps-if, run_entries-Yields,
}
use aws.OsLib.Sizes.{
  emit_size, addrinfo_offsets, sizes, poll_sizes, poll_fallbacks, poll_values, fcntl_ioctl,
  define_fionwrite, fionwrite, fionspace, getaddrinfo, io_constants,
}

abbrev pub general_sites : List Site
general_sites =
    (245, none)
    ∷ (246, none)
    ∷ (252, none)
    ∷ (253, none)
    ∷ (255, none)
    ∷ (284, some "Target_OS")
    ∷ (293, some "Target_Name")
    ∷ []

emit_size-Yields :
    (l : ℕ) (n : String) (z : ℤ) (k : String) (s : Pp)
    → Yields ((l, some n) ∷ []) s (emit_size l n z k s)
unfolding emit_size
emit_size-Yields l n z k s = Yields-from (emit_cnd-Yields l n k _) (Keeps-define n _ s)

abbrev pub sizes_sites : List Site
sizes_sites =
    (322, some "SIZEOF_unsigned_int")
    ∷ (325, some "SIZEOF_fd_set")
    ∷ (326, some "FD_SETSIZE")
    ∷ (332, some "SIZEOF_sin_family")
    ∷ (336, some "SIN_FAMILY_OFFSET")
    ∷ (355, some "AI_FAMILY_OFFSET")
    ∷ (356, some "AI_CANONNAME_OFFSET")
    ∷ (357, some "AI_ADDR_OFFSET")
    ∷ []

pub sizes-Yields : (s : Pp) → Yields sizes_sites s (sizes s)
unfolding sizes addrinfo_offsets
sizes-Yields s = Yields-bind (emit_size-Yields _ _ _ _ s) λ s.
    Yields-bind (emit_size-Yields _ _ _ _ s) λ s. Yields-bind (emit_cnd-Yields _ _ _ s) λ s.
      Yields-bind (emit_size-Yields _ _ _ _ s) λ s. Yields-bind (emit_size-Yields _ _ _ _ s) λ s.
        Yields-bind (emit_size-Yields _ _ _ _ s)
          λ s. Yields-bind (emit_size-Yields _ _ _ _ s) λ s. emit_size-Yields _ _ _ _ s

version_text-Yields : (s : Pp) → Yields ((245, none) ∷ []) s (version_text s)
unfolding version_text
version_text-Yields s = go (string_value s "TARGET")
  where
    go :
        (v : Option String)
        → Yields
            ((245, none) ∷ [])
            s
            (v >>= λ t. some (emit_txt 245 (String.◌++◌ "--  This is the version for " t) s))
    go none = stops
    go (some t) = yields (emit_txt-Grows 245 _ s)

with_clauses-Grows :
    (s : Pp) → Grows ((246, none) ∷ (252, none) ∷ (253, none) ∷ (255, none) ∷ []) s (with_clauses s)
unfolding with_clauses
with_clauses-Grows s =
    let both =
      Grows-trans (emit_txt-Grows 246 "" s)
        (Grows-trans (emit_txt-Grows 252 _ _) (emit_txt-Grows 253 _ _)) in
    Grows-if _ (Grows-skip ((255, none) ∷ []) both) (Grows-trans both (emit_txt-Grows 255 _ _))

pub general-Yields : (s : Pp) → Yields general_sites s (general s)
unfolding general target_os
general-Yields s = Yields-bind (version_text-Yields s) λ s.
    Yields-bind
      (Yields-after (with_clauses-Grows s)
        (Yields-from (emit_c-Yields _ _ _ _ _ _) (Keeps-define _ _ _)))
      λ s. Yields-from (emit_c-Yields _ _ _ _ _ _) (Keeps-define _ _ s)

abbrev pub poll_sites : List Site
poll_sites =
    (365, some "SIZEOF_nfds_t")
    ∷ (374, some "SIZEOF_pollfd_events")
    ∷ (385, some "SIZEOF_fd_type")
    ∷ (393, some "SIZEOF_socklen_t")
    ∷ (402, some "SIZEOF_tv_sec")
    ∷ (404, some "SIZEOF_tv_usec")
    ∷ []

pub poll_sizes-Yields : (s : Pp) → Yields poll_sites s (poll_sizes s)
unfolding poll_sizes
poll_sizes-Yields s = Yields-bind (emit_size-Yields _ _ _ _ s) λ s.
    Yields-bind (emit_size-Yields _ _ _ _ s) λ s. Yields-bind (emit_size-Yields _ _ _ _ s) λ s.
      Yields-bind (emit_size-Yields _ _ _ _ s)
        λ s. Yields-bind (emit_size-Yields _ _ _ _ s) λ s. emit_size-Yields _ _ _ _ s

abbrev pub poll_value_sites : List Site
poll_value_sites =
    (439, some "POLLIN")
    ∷ (440, some "POLLPRI")
    ∷ (441, some "POLLOUT")
    ∷ (442, some "POLLERR")
    ∷ (443, some "POLLHUP")
    ∷ (444, some "POLLNVAL")
    ∷ []

Keeps-poll_fallbacks : (s : Pp) → Keeps s (poll_fallbacks s)
unfolding poll_fallbacks
Keeps-poll_fallbacks s =
    Keeps-if _
      (Keeps-trans (Keeps-ifndef _ _ s) (
        Keeps-trans (Keeps-ifndef _ _ _) (
          Keeps-trans (Keeps-ifndef _ _ _) (
            Keeps-trans (Keeps-ifndef _ _ _)
              (Keeps-trans (Keeps-ifndef _ _ _) (Keeps-ifndef _ _ _))))))
      (Keeps-refl s)

pub poll_values-Yields : (s : Pp) → Yields poll_value_sites s (poll_values s)
unfolding poll_values
poll_values-Yields s =
    Yields-bind (Yields-from (emit_cnd-Yields _ _ _ _) (Keeps-poll_fallbacks s)) λ s.
      Yields-bind (emit_cnd-Yields _ _ _ s) λ s. Yields-bind (emit_cnd-Yields _ _ _ s) λ s.
        Yields-bind (emit_cnd-Yields _ _ _ s)
          λ s. Yields-bind (emit_cnd-Yields _ _ _ s) λ s. emit_cnd-Yields _ _ _ s

abbrev pub io_sites : List Site
io_sites =
    map entry_site fcntl_ioctl
    ++ ((486, some "FIONWRITE") ∷ map entry_site (fionspace ∷ getaddrinfo))

Keeps-define_fionwrite : (s : Pp) → Keeps s (define_fionwrite s)
unfolding define_fionwrite define
Keeps-define_fionwrite s = record { same_out = ground arith }

fionwrite-Yields : (s : Pp) → Yields ((486, some "FIONWRITE") ∷ []) s (fionwrite s)
unfolding fionwrite
fionwrite-Yields s = Yields-from (emit_cnd-Yields _ _ _ _) (Keeps-define_fionwrite s)

pub io_constants-Yields : (s : Pp) → Yields io_sites s (io_constants s)
unfolding io_constants
io_constants-Yields s =
    Yields-bind (run_entries-Yields _ s)
      λ s. Yields-bind (fionwrite-Yields s) (run_entries-Yields _)

pub errno_values-Yields : (s : Pp) → Yields (map entry_site errno_entries) s (errno_values s)
unfolding errno_values
errno_values-Yields = run_entries-Yields errno_entries

abbrev pub family_sites : List Site
family_sites = (774, some "AF_INET") ∷ (789, some "AF_INET6") ∷ (796, some "AF_UNSPEC") ∷ []

Keeps-define_or_have : (n h : String) (s : Pp) → Keeps s (define_or_have n h s)
unfolding define_or_have
Keeps-define_or_have n h s = Keeps-if _ (Keeps-define _ _ s) (Keeps-define _ _ s)

families-Yields : (s : Pp) → Yields family_sites s (families s)
unfolding families
families-Yields s = Yields-bind (run_entries-Yields (af_inet ∷ []) s) λ s.
    Yields-bind
      (Yields-from (emit_cnd-Yields _ _ _ _)
        (Keeps-trans (Keeps-if _ (Keeps-undef _ s) (Keeps-refl s)) (Keeps-define_or_have _ _ _)))
      λ s. Yields-from (emit_cnd-Yields _ _ _ _) (Keeps-define_or_have _ _ s)

abbrev pub socket_sites : List Site
socket_sites =
    family_sites
    ++ (map entry_site (modes_and_levels ++ request_flags)
        ++ ((932, some "MSG_WAITALL")
            ∷ (937, some "MSG_NOSIGNAL")
            ∷ (944, some "MSG_Forced_Flags")
            ∷ map entry_site socket_options))

pub socket_constants-Yields : (s : Pp) → Yields socket_sites s (socket_constants s)
unfolding socket_constants msg_waitall forced_flags
socket_constants-Yields s = Yields-bind (families-Yields s) λ s.
    Yields-bind (run_entries-Yields _ s) λ s.
      Yields-bind
        (Yields-from (emit_cnd-Yields _ _ _ _)
          (Keeps-if _ (Keeps-refl s) (Keeps-if _ (Keeps-define _ _ s) (Keeps-define _ _ s))))
        λ s. Yields-bind (run_entries-Yields (msg_nosignal ∷ []) s) λ s.
          Yields-bind (Yields-from (emit_cns-Yields _ _ _ _) (Keeps-define _ _ s))
            (run_entries-Yields _)

Keeps-define_numbers : (l : List (String × ℕ)) (s : Pp) → Keeps s (define_numbers l s)
unfolding define_numbers
Keeps-define_numbers [] s = Keeps-refl s
Keeps-define_numbers ((n, k) ∷ l) s = Keeps-trans (Keeps-define n _ s) (Keeps-define_numbers l _)

pub secure_sockets-Yields : (s : Pp) → Yields (map entry_site openssl_entries) s (secure_sockets s)
unfolding secure_sockets
secure_sockets-Yields s =
    Yields-from (go (define_numbers openssl_numbers s)) (Keeps-define_numbers openssl_numbers s)
  where
    other :
        (t : Pp) (b : Option Bool) → Yields (map entry_site openssl_entries) t (b >>= λ _. some t)
    other t none = stops
    other t (some b) = yields (Grows-of_out _ t t refl)

    branch :
        (t : Pp) (b : Option Bool)
        → Yields (map entry_site openssl_entries) t (
            b >>= λ is_openssl.
            if is_openssl
            then run_entries openssl_entries t
            else socket_is "gnutls" t >>= (λ _. some t))
    branch t none = stops
    branch t (some b) =
        Yields-if b (run_entries-Yields openssl_entries t) (other t (socket_is "gnutls" t))

    go :
        (t : Pp)
        → Yields (map entry_site openssl_entries) t (
            socket_is "openssl" t >>= λ is_openssl.
            if is_openssl
            then run_entries openssl_entries t
            else socket_is "gnutls" t >>= (λ _. some t))
    go t = branch t (socket_is "openssl" t)

abbrev pub winsock_sites : List Site
winsock_sites =
    (1244, some "WSASYSNOTREADY")
    ∷ (1245, some "WSAVERNOTSUPPORTED")
    ∷ (1246, some "WSANOTINITIALISED")
    ∷ (1247, some "WSAEDISCON")
    ∷ []

pub mingw_constants-Yields : (s : Pp) → Yields winsock_sites s (mingw_constants s)
unfolding mingw_constants
mingw_constants-Yields s =
    Yields-if _
      (Yields-bind (emit_cnd-Yields _ _ _ s) λ s.
        Yields-bind (emit_cnd-Yields _ _ _ s)
          λ s. Yields-bind (emit_cnd-Yields _ _ _ s) λ s. emit_cnd-Yields _ _ _ s)
      (yields (Grows-of_out _ s s refl))

Keeps-define_all : (l : List (String × String)) (s : Pp) → Keeps s (define_all l s)
unfolding define_all
Keeps-define_all [] s = Keeps-refl s
Keeps-define_all ((n, m) ∷ l) s = Keeps-trans (Keeps-define n _ s) (Keeps-define_all l _)

Keeps-define_from : (n m : String) (s : Pp) → Keeps s (define_from n m s)
unfolding define_from
Keeps-define_from n m s = Keeps-if _ (Keeps-define _ _ s) (Keeps-refl s)

Keeps-windows_names : (s : Pp) → Keeps s (windows_names s)
unfolding windows_names
Keeps-windows_names s =
    Keeps-if _
      (Keeps-trans (Keeps-define_from _ _ s) (
        Keeps-trans (Keeps-define_from _ _ _)
          (Keeps-trans (Keeps-define_from _ _ _) (Keeps-define_all windows_aliases _))))
      (Keeps-refl s)

Keeps-vxworks_shutdown : (s : Pp) → Keeps s (vxworks_shutdown s)
unfolding vxworks_shutdown
Keeps-vxworks_shutdown s =
    Keeps-if _
      (Keeps-trans (Keeps-define _ _ s) (Keeps-trans (Keeps-define _ _ _) (Keeps-define _ _ _)))
      (Keeps-refl s)

pub headers-Yields : (s : Pp) → Yields [] s (headers s)
unfolding headers require_target
headers-Yields s = Yields-bind {a = []} (Yields-if _ (yields (Grows-of_out [] s s refl)) stops) λ s.
    yields (
      Grows-of_out [] s _ (Keeps-trans (Keeps-vxworks_shutdown s) (Keeps-windows_names _)).same_out)
