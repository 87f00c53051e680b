-- ===== src/OpenSsl.antt =====
-- config/ssl/openssl/wrappers.c: functions over the macros of OpenSSL, so that Ada can call them.
-- The library is a parameter: each of its functions takes the state of the library to a result and a
-- new state. OPENSSL_VERSION_NUMBER decides at compile time between two sets of wrappers.
pub mod Init
mod Tests
use aws.Base.{ℕ, ℤ, Bool, true, false, leb, if◌then◌else◌}

abbrev pub M : Type 0 → Type 0 → Type 0
M World A = World → A × World

-- `Ptr` stands for every pointer, to an object, a function or a text.
pub record Library : Type 1 where
  pub World : Type 0
  pub Ptr : Type 0
  pub x509_get_not_before : Ptr → M World Ptr
  pub x509_get_not_after : Ptr → M World Ptr
  pub ssl_session_reused : Ptr → M World ℤ
  pub ssl_ctx_set_options : Ptr → ℤ → M World ℤ
  pub ssl_ctx_get_ex_new_index : ℤ → Ptr → Ptr → Ptr → Ptr → M World ℤ
  pub crypto_set_id_callback : Ptr → M World (Unit {0})
  pub ssl_get_peer_certificate : Ptr → M World Ptr
  pub crypto_set_locking_callback : Ptr → M World (Unit {0})
  pub crypto_set_dynlock_create_callback : Ptr → M World (Unit {0})
  pub crypto_set_dynlock_lock_callback : Ptr → M World (Unit {0})
  pub crypto_set_dynlock_destroy_callback : Ptr → M World (Unit {0})
  pub crypto_num_locks : M World ℤ
  pub ssl_set_tmp_rsa_callback : Ptr → Ptr → M World (Unit {0})
  -- From version 1.1.0 on.
  pub openssl_init_ssl : ℕ → Ptr → M World ℤ
  pub openssl_init_ssl_default : ℕ
  pub null : Ptr
  pub openssl_version_num : M World ℕ
  pub openssl_thread_stop : M World (Unit {0})
  pub openssl_version : ℤ → M World Ptr
  pub tls_method : M World Ptr
  pub tls_server_method : M World Ptr
  pub tls_client_method : M World Ptr
  -- Before version 1.1.0.
  pub ssl_load_error_strings : M World (Unit {0})
  pub ssl_library_init : M World ℤ
  pub ssleay : M World ℕ
  pub ssleay_version : ℤ → M World Ptr
  pub sslv23_method : M World Ptr
  pub sslv23_server_method : M World Ptr
  pub sslv23_client_method : M World Ptr
  -- Any version.
  pub evp_md_ctx_create : M World Ptr
  pub evp_md_ctx_destroy : Ptr → M World (Unit {0})
  pub evp_md_size : Ptr → M World ℤ
  pub evp_pkey_size : Ptr → M World ℤ

module _ (lib : Library) where
  open lib use {World, Ptr}

  -- The callbacks, sizes and certificates: each wrapper is a call of the macro of its name.
  pub record Wrappers : Type 0 where
    pub get_not_before : Ptr → M World Ptr
    pub get_not_after : Ptr → M World Ptr
    pub session_reused : Ptr → M World ℤ
    pub ctx_set_options : Ptr → ℤ → M World ℤ
    pub ctx_get_ex_new_index : ℤ → Ptr → Ptr → Ptr → Ptr → M World ℤ
    pub set_id_callback : Ptr → M World (Unit {0})
    pub get_peer_certificate : Ptr → M World Ptr
    pub set_locking_callback : Ptr → M World (Unit {0})
    pub set_dynlock_create_callback : Ptr → M World (Unit {0})
    pub set_dynlock_lock_callback : Ptr → M World (Unit {0})
    pub set_dynlock_destroy_callback : Ptr → M World (Unit {0})
    pub num_locks : M World ℤ
    pub set_tmp_rsa_callback : Ptr → Ptr → M World (Unit {0})

  unfoldable pub wrappers : Wrappers
  wrappers = record {
    get_not_before = λ cert. lib.x509_get_not_before cert;
    get_not_after = λ cert. lib.x509_get_not_after cert;
    session_reused = λ ssl. lib.ssl_session_reused ssl;
    ctx_set_options = λ ctx options. lib.ssl_ctx_set_options ctx options;
    ctx_get_ex_new_index =
        λ argl argp newf dupf freef. lib.ssl_ctx_get_ex_new_index argl argp newf dupf freef;
    set_id_callback = λ p. lib.crypto_set_id_callback p;
    get_peer_certificate = λ ssl. lib.ssl_get_peer_certificate ssl;
    set_locking_callback = λ p. lib.crypto_set_locking_callback p;
    set_dynlock_create_callback = λ p. lib.crypto_set_dynlock_create_callback p;
    set_dynlock_lock_callback = λ p. lib.crypto_set_dynlock_lock_callback p;
    set_dynlock_destroy_callback = λ p. lib.crypto_set_dynlock_destroy_callback p;
    num_locks = lib.crypto_num_locks;
    set_tmp_rsa_callback = λ ssl callback. lib.ssl_set_tmp_rsa_callback ssl callback;
  }

  -- What the two branches of the version test define.
  pub record Versioned : Type 0 where
    pub library_init : M World ℤ
    pub version_num : M World ℕ
    pub thread_stop : M World (Unit {0})
    pub version : ℤ → M World Ptr
    pub method : M World Ptr
    pub server_method : M World Ptr
    pub client_method : M World Ptr

  unfoldable pub since_1_1_0 : Versioned
  since_1_1_0 = record {
    library_init = lib.openssl_init_ssl lib.openssl_init_ssl_default lib.null;
    version_num = lib.openssl_version_num;
    thread_stop = lib.openssl_thread_stop;
    version = λ t. lib.openssl_version t;
    method = lib.tls_method;
    server_method = lib.tls_server_method;
    client_method = lib.tls_client_method;
  }

  unfoldable pub before_1_1_0 : Versioned
  before_1_1_0 = record {
    library_init =
        λ w. let (_, loaded) = lib.ssl_load_error_strings w in lib.ssl_library_init loaded;
    version_num = lib.ssleay;
    thread_stop = λ w. (tt, w);
    version = λ t. lib.ssleay_version t;
    method = lib.sslv23_method;
    server_method = lib.sslv23_server_method;
    client_method = lib.sslv23_client_method;
  }

  -- `#if (OPENSSL_VERSION_NUMBER >= 0x10100000L)`
  unfoldable pub versioned : ℕ → Versioned
  versioned number = if leb 0x10100000 number then since_1_1_0 else before_1_1_0

  -- The digests: contexts are made and released, whatever the version, by the old names.
  pub record Digests : Type 0 where
    pub md_ctx_new : M World Ptr
    pub md_ctx_free : Ptr → M World (Unit {0})
    pub md_size : Ptr → M World ℤ
    pub pkey_size : Ptr → M World ℤ

  unfoldable pub digests : Digests
  digests = record {
    md_ctx_new = lib.evp_md_ctx_create;
    md_ctx_free = λ ctx. lib.evp_md_ctx_destroy ctx;
    md_size = λ md. lib.evp_md_size md;
    pkey_size = λ pkey. lib.evp_pkey_size pkey;
  }
