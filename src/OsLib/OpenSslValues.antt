-- ===== src/OsLib/OpenSslValues.antt =====
-- config/setup/os_lib-tmplt.c: which OpenSSL constants the package gets.
use aws.Base.{
  ◌≡◌, refl, ℤ, pos, String, true, none, some, List, [], ◌∷◌, ◌++◌, map, all_pairs, str_eq, int_eq,
  if◌then◌else◌, ℕ,
}
use aws.OsLib.Entries.{Entry, run_entries}
use aws.OsLib.Macros.{Pp, define, if_value}
use aws.OsLib.Secure.{openssl_numbers, define_numbers, openssl_entries, socket_is, secure_sockets}
use aws.OsLib.Values.{HasOwnNames, given, marker, own_names_sound, run_entries-marker}

-- The number that the template gives a name.
abbrev pub find_number : List (String × ℕ) → String → ℤ
find_number [] n = pos 0
find_number ((m, k) ∷ r) n = if str_eq m n then pos k else find_number r n

abbrev pub openssl_value : Entry → ℤ
openssl_value e = find_number openssl_numbers e.name

openssl_entries-HasOwnNames : HasOwnNames openssl_entries
openssl_entries-HasOwnNames = own_names_sound openssl_entries (unfold all_pairs in refl)

numbered-marker :
    (s : Pp)
    → (t : Pp) × (run_entries openssl_entries (define_numbers openssl_numbers s) ≡ some t)
      × (t.out ≡ s.out ++ map (λ e. marker e (openssl_value e)) openssl_entries)
unfolding define_numbers define
numbered-marker s =
    run_entries-marker (define_numbers openssl_numbers s) openssl_entries openssl_value
      openssl_entries-HasOwnNames
      (
        given refl,
        (
          given refl,
          (
            given refl,
            (
              given refl,
              (
                given refl,
                (given refl, (given refl, (given refl, (given refl, (given refl, tt))))),
              ),
            ),
          ),
        ),
      )

socket_is-undefined :
    (s : Pp)
    → s.env "SOCKET" ≡ none
    → s.env "openssl" ≡ none
    → socket_is "openssl" (define_numbers openssl_numbers s) ≡ some true
unfolding socket_is define_numbers define int_eq
socket_is-undefined s h k = rw (if_value, h, k)

-- Where neither SOCKET nor openssl is a macro, as with a command line that defines SOCKET_openssl
-- or SOCKET_gnutls, the condition `SOCKET == openssl` holds: the ten OpenSSL constants are emitted,
-- with the numbers 0 to 9 of the template itself, whatever the headers define.
pub secure_sockets-marker :
    (s : Pp)
    → s.env "SOCKET" ≡ none
    → s.env "openssl" ≡ none
    → (t : Pp) × (secure_sockets s ≡ some t)
      × (t.out ≡ s.out ++ map (λ e. marker e (openssl_value e)) openssl_entries)
unfolding secure_sockets
secure_sockets-marker s h k =
    let (t, ran, out_eq) = numbered-marker s in (t, rw (socket_is-undefined s h k) ran, out_eq)
