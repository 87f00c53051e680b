-- ===== src/OpenSsl/Tests.antt =====
-- The initialisation of config/ssl/openssl/wrappers.c, with a library that records what was loaded.
use aws.Base.{ℕ, ◌≡◌, refl, pos, ◌==◌, Bool, true}
use aws.OpenSsl.Init.{IsOpenSsl}
use aws.OpenSsl.{Library}

-- Whether the library is ready, and whether its error strings are loaded.
abbrev recorder : Library
recorder = record {
  World = Bool × Bool;
  Ptr = ℕ;
  x509_get_not_before = λ p w. (p, w);
  x509_get_not_after = λ p w. (p, w);
  ssl_session_reused = λ p w. (pos 0, w);
  ssl_ctx_set_options = λ p z w. (z, w);
  ssl_ctx_get_ex_new_index = λ z a b c d w. (pos 0, w);
  crypto_set_id_callback = λ p w. (tt, w);
  ssl_get_peer_certificate = λ p w. (p, w);
  crypto_set_locking_callback = λ p w. (tt, w);
  crypto_set_dynlock_create_callback = λ p w. (tt, w);
  crypto_set_dynlock_lock_callback = λ p w. (tt, w);
  crypto_set_dynlock_destroy_callback = λ p w. (tt, w);
  crypto_num_locks = λ w. (pos 1, w);
  ssl_set_tmp_rsa_callback = λ p q w. (tt, w);
  openssl_init_ssl = λ options settings w. (pos 1, (true, options == 1));
  openssl_init_ssl_default = 1;
  null = 0;
  openssl_version_num = λ w. (0x10100000, w);
  openssl_thread_stop = λ w. (tt, w);
  openssl_version = λ z w. (0, w);
  tls_method = λ w. (0, w);
  tls_server_method = λ w. (0, w);
  tls_client_method = λ w. (0, w);
  ssl_load_error_strings = λ w. (tt, (w.0, true));
  ssl_library_init = λ w. (pos 1, (true, w.1));
  ssleay = λ w. (0x10000000, w);
  ssleay_version = λ z w. (0, w);
  sslv23_method = λ w. (0, w);
  sslv23_server_method = λ w. (0, w);
  sslv23_client_method = λ w. (0, w);
  evp_md_ctx_create = λ w. (0, w);
  evp_md_ctx_destroy = λ p w. (tt, w);
  evp_md_size = λ p w. (pos 0, w);
  evp_pkey_size = λ p w. (pos 0, w);
}

abbrev recorder-IsOpenSsl : IsOpenSsl recorder 0x10000000
recorder-IsOpenSsl = record {
  IsReady = λ w. w.0 ≡ true;
  HasErrorStrings = λ w. w.1 ≡ true;
  init_ssl = λ v w h. (refl, refl);
  load_strings = λ v w. refl;
  library_init = λ v w h. refl;
  library_init_keeps = λ v w h. h;
  thread_stop_keeps = λ v w h. h;
}
