-- ===== src/OpenSsl/Init.antt =====
-- config/ssl/openssl/wrappers.c: initialisation, under both versions of OpenSSL.
use aws.Base.{ℕ, ◌≡◌, ◌≤◌, ◌<◌, pos}
use aws.OpenSsl.{Library}

-- What OpenSSL documents of its initialisation, for the version that is linked. From 1.1.0 on there is
-- OPENSSL_init_ssl, which with its default options and without settings also loads the error
-- strings, and OPENSSL_thread_stop, which leaves the library as it is. Before there is
-- SSL_library_init, which does not load them, but keeps them. Of the functions of the other versions
-- nothing is known.
pub record IsOpenSsl (lib : Library) (number : ℕ) : Type 1 where
  pub IsReady : lib.World → Type 0
  pub HasErrorStrings : lib.World → Type 0
  pub init_ssl :
      0x10100000 ≤ number
      → (w : lib.World) → (lib.openssl_init_ssl lib.openssl_init_ssl_default lib.null w).0 ≡ pos 1
      → IsReady (lib.openssl_init_ssl lib.openssl_init_ssl_default lib.null w).1
        × HasErrorStrings (lib.openssl_init_ssl lib.openssl_init_ssl_default lib.null w).1
  pub load_strings :
      number < 0x10100000 → (w : lib.World) → HasErrorStrings (lib.ssl_load_error_strings w).1
  pub library_init :
      number < 0x10100000
      → (w : lib.World) → (lib.ssl_library_init w).0 ≡ pos 1
      → IsReady (lib.ssl_library_init w).1
  pub library_init_keeps :
      number < 0x10100000
      → (w : lib.World) → HasErrorStrings w
      → HasErrorStrings (lib.ssl_library_init w).1
  pub thread_stop_keeps :
      0x10100000 ≤ number
      → (w : lib.World) → IsReady w × HasErrorStrings w
      → IsReady (lib.openssl_thread_stop w).1 × HasErrorStrings (lib.openssl_thread_stop w).1

abbrev pub IsUp : {lib : Library} {number : ℕ} → IsOpenSsl lib number → lib.World → Type 0
IsUp spec w = spec.IsReady w × spec.HasErrorStrings w
