-- ===== src/OsLib/Tests.antt =====
-- The template of config/setup/os_lib-tmplt.c on a Linux target, and its theorems there.
use aws.Base.{
  ◌||◌, suc, arith, ℕ, ◌≡◌, ◌≢◌, refl, ℤ, pos, minus_one, String, Bool, false, Option, none, some,
  List, [], ◌∷◌, AllPairs, length, ◌++◌, map, eq_iff, int_eq, of_word, to_int, to_word, str_eq,
  if◌then◌else◌,
}
use aws.OsLib.Entries.{Entry, entry, run_entry, run_entries}
use aws.OsLib.Headers.{
  windows_aliases, headers, define_all, define_from, require_target, vxworks_shutdown,
  windows_names,
}
use aws.OsLib.General.{general, emit_txt, target_os, version_text, with_clauses}
use aws.OsLib.Sizes.{
  sizes, emit_size, poll_sizes, poll_values, io_constants, define_fionwrite, addrinfo_offsets,
  fionwrite, poll_fallbacks,
}
use aws.OsLib.Errno.{errno_entries, errno_values}
use aws.OsLib.Families.{define_or_have, families, forced_flags, msg_waitall, socket_constants}
use aws.OsLib.Secure.{
  openssl_entries, define_numbers, mingw_constants, secure_sockets, socket_is, winsock_codes,
}
use aws.OsLib.Macros.{
  undef, number, alias, Platform, Pp, start, define, ifndef, emit_cnd, emit_cns, emit_c,
}
use aws.OsLib.Linux.{linux, find_macro, from_some, linux_out, linux-compile}
use aws.OsLib.Sites.Order.{IsBefore, compile-IsBefore}
use aws.OsLib.Sites.{site}
use aws.OsLib.Template.{sections, compile}
use aws.OsLib.Windows.{windows_value, errno_values-windows}
use aws.OsLib.OpenSslValues.{openssl_value, secure_sockets-marker}
use aws.OsLib.Values.{given, renamed, absent, marker, run_entries-marker}

ne : {n m : String} → str_eq n m ≡ false → n ≢ m
ne {n} {m} h = ground (arith, eq_iff n m)

linux_out-length : length linux_out ≡ 131
unfolding compile headers start general find_macro emit_c define sizes emit_size emit_cnd poll_sizes
    poll_values io_constants run_entries run_entry ifndef define_fionwrite int_eq of_word to_int
    to_word errno_values define_or_have families forced_flags msg_waitall socket_constants emit_txt
    target_os version_text with_clauses define_all define_from require_target vxworks_shutdown
    windows_names emit_cns undef define_numbers mingw_constants secure_sockets socket_is
    winsock_codes addrinfo_offsets fionwrite poll_fallbacks sections from_some
linux_out-length = refl

compile-IsBefore_example : AllPairs (λ m n. IsBefore (site m) (site n)) linux_out
compile-IsBefore_example = compile-IsBefore linux {out = linux_out} linux-compile

-- Three entries: one that the headers give, one that stands for another name, and one that they lack.
abbrev some_entries : List Entry
some_entries =
    entry 548 "EAGAIN" "Try again"
    ∷ entry 571 "EADDRNOTAVAIL" "Cannot assign address"
    ∷ entry 611 "ESOCKTNOSUPPORT" "Socket type not supported"
    ∷ []

abbrev some_values : Entry → ℤ
some_values e =
    if str_eq e.name "EAGAIN"
    then pos 11
    else if str_eq e.name "EADDRNOTAVAIL"
    then pos 10049
    else minus_one

abbrev some_start : Pp
some_start =
    define "EADDRNOTAVAIL" (alias "WSAEADDRNOTAVAIL")
      (define "WSAEADDRNOTAVAIL" (number (pos 10049)) (start linux))

run_entries-marker_example :
    (t : Pp) × (run_entries some_entries some_start ≡ some t)
    × (t.out ≡ some_start.out ++ map (λ e. marker e (some_values e)) some_entries)
unfolding start define find_macro
run_entries-marker_example =
    run_entries-marker some_start some_entries some_values
      ((ne refl, (ne refl, tt)), ((ne refl, tt), (tt, tt)))
      (given refl, (renamed refl (ne refl, (ne refl, (ne refl, tt))) refl, (absent refl refl, tt)))

secure_sockets-marker_example :
    (t : Pp) × (secure_sockets (start linux) ≡ some t)
    × (t.out ≡ (start linux).out ++ map (λ e. marker e (openssl_value e)) openssl_entries)
unfolding start find_macro
secure_sockets-marker_example = secure_sockets-marker (start linux) refl refl

-- A Windows target: each name on the right of an alias has its position as value, and EINTR is known.
winsock_position : List (String × String) → String → ℕ
winsock_position [] n = 0
winsock_position ((m, w) ∷ r) n = if str_eq w n then 10000 else suc (winsock_position r n)

find_pair : List (String × String) → String → Bool
find_pair [] n = false
find_pair ((m, w) ∷ r) n = str_eq w n || find_pair r n

abbrev winsock : String → ℤ
winsock n = pos (winsock_position windows_aliases n)

abbrev windows_other : String → Option ℤ
windows_other n = if str_eq n "EINTR" then some (pos 4) else none

abbrev windows : Platform
windows = record linux {
  macros = λ n.
      if str_eq n "_WIN32"
      then some (pos 1)
      else if find_pair windows_aliases n
      then some (winsock n)
      else windows_other n;
}

errno_values-windows_example :
    (t : Pp) × (errno_values (windows_names (start windows)) ≡ some t)
    × (t.out
        ≡ (windows_names (start windows)).out
          ++ map (λ e. marker e (windows_value winsock windows_other e)) errno_entries)
unfolding start find_pair winsock_position
errno_values-windows_example =
    errno_values-windows (start windows) winsock windows_other refl
      (
        refl,
        (
          refl,
          (
            refl,
            (
              refl,
              (
                refl,
                (
                  refl,
                  (
                    refl,
                    (
                      refl,
                      (
                        refl,
                        (
                          refl,
                          (
                            refl,
                            (
                              refl,
                              (
                                refl,
                                (
                                  refl,
                                  (
                                    refl,
                                    (
                                      refl,
                                      (
                                        refl,
                                        (
                                          refl,
                                          (
                                            refl,
                                            (
                                              refl,
                                              (
                                                refl,
                                                (
                                                  refl,
                                                  (
                                                    refl,
                                                    (
                                                      refl,
                                                      (
                                                        refl,
                                                        (
                                                          refl,
                                                          (
                                                            refl,
                                                            (refl, (refl, (refl, (refl, tt)))),
                                                          ),
                                                        ),
                                                      ),
                                                    ),
                                                  ),
                                                ),
                                              ),
                                            ),
                                          ),
                                        ),
                                      ),
                                    ),
                                  ),
                                ),
                              ),
                            ),
                          ),
                        ),
                      ),
                    ),
                  ),
                ),
              ),
            ),
          ),
        ),
      )
      (
        refl,
        (
          refl,
          (
            refl,
            (
              refl,
              (
                refl,
                (
                  refl,
                  (
                    refl,
                    (
                      refl,
                      (
                        refl,
                        (
                          refl,
                          (
                            refl,
                            (
                              refl,
                              (
                                refl,
                                (
                                  refl,
                                  (
                                    refl,
                                    (
                                      refl,
                                      (
                                        refl,
                                        (
                                          refl,
                                          (
                                            refl,
                                            (
                                              refl,
                                              (
                                                refl,
                                                (
                                                  refl,
                                                  (
                                                    refl,
                                                    (
                                                      refl,
                                                      (
                                                        refl,
                                                        (
                                                          refl,
                                                          (
                                                            refl,
                                                            (
                                                            refl,
                                                            (
                                                            refl,
                                                            (
                                                            refl,
                                                            (
                                                            refl,
                                                            (
                                                            refl,
                                                            (
                                                            refl,
                                                            (
                                                            refl,
                                                            (
                                                            refl,
                                                            (
                                                            refl,
                                                            (
                                                            refl,
                                                            (
                                                            refl,
                                                            (refl, (refl, (refl, (refl, tt)))),
                                                            ),
                                                            ),
                                                            ),
                                                            ),
                                                            ),
                                                            ),
                                                            ),
                                                            ),
                                                            ),
                                                            ),
                                                            ),
                                                          ),
                                                        ),
                                                      ),
                                                    ),
                                                  ),
                                                ),
                                              ),
                                            ),
                                          ),
                                        ),
                                      ),
                                    ),
                                  ),
                                ),
                              ),
                            ),
                          ),
                        ),
                      ),
                    ),
                  ),
                ),
              ),
            ),
          ),
        ),
      )
