-- ===== src/GnuTls/Tests.antt =====
-- The symbols of config/ssl/gnutls/wrappers.c, with some values for the constants.
use aws.Base.{◌≡◌, ℤ, pos, negsuc, String, some, All, str_eq, if◌then◌else◌}
use aws.GnuTls.Imports.{imports, link, meant, imports-exports}
use aws.GnuTls.{exports}

abbrev values : String → ℤ
values n =
    if str_eq n "GNUTLS_SEC_PARAM_INSECURE"
    then negsuc 19
    else if str_eq n "GNUTLS_SEC_PARAM_NORMAL"
    then pos 3
    else pos 0

imports-exports_example : All (λ i. link (exports values) i.1 ≡ some (values (meant i.0))) imports
imports-exports_example = imports-exports values
