-- ===== src/GnuTls/Imports.antt =====
-- config/ssl/gnutls/wrappers.c against config/ssl/ssl-thin__gnutls.ads, which imports the symbols.
use Prim.Native.String
use aws.Base.{ℤ, ◌≡◌, refl, String, Option, none, some, List, [], ◌∷◌, All, str_eq, if◌then◌else◌}
use aws.GnuTls.{exports}

-- The constants of the binding, each with the external name that it imports.
abbrev pub imports : List (String × String)
imports =
    ("UNKNOWN", "_AWS_GNUTLS_SEC_PARAM_UNKNOWN")
    ∷ ("INSECURE", "_AWS_GNUTLS_SEC_PARAM_INSECURE")
    ∷ ("EXPORT", "_AWS_GNUTLS_SEC_PARAM_EXPORT")
    ∷ ("VERY_WEAK", "_AWS_GNUTLS_SEC_PARAM_VERY_WEAK")
    ∷ ("WEAK", "_AWS_GNUTLS_SEC_PARAM_WEAK")
    ∷ ("LOW", "_AWS_GNUTLS_SEC_PARAM_LOW")
    ∷ ("LEGACY", "_AWS_GNUTLS_SEC_PARAM_LEGACY")
    ∷ ("MEDIUM", "_AWS_GNUTLS_SEC_PARAM_NORMAL")
    ∷ ("HIGH", "_AWS_GNUTLS_SEC_PARAM_HIGH")
    ∷ ("ULTRA", "_AWS_GNUTLS_SEC_PARAM_ULTRA")
    ∷ []

-- What the linker finds for an external name.
unfoldable pub link : List (String × ℤ) → String → Option ℤ
link [] n = none
link ((m, v) ∷ r) n = if str_eq m n then some v else link r n

-- The constant of GnuTLS that a constant of the binding stands for: MEDIUM is the newer name of
-- NORMAL, and every other has its own name.
abbrev pub meant : String → String
meant n = String.◌++◌ "GNUTLS_SEC_PARAM_" (if str_eq n "MEDIUM" then "NORMAL" else n)

-- Whatever values GnuTLS gives its constants, each constant of the Ada binding is linked, to the
-- constant of GnuTLS with its name, and MEDIUM to the one with the older name NORMAL.
pub imports-exports :
    (constants : String → ℤ)
    → All (λ i. link (exports constants) i.1 ≡ some (constants (meant i.0))) imports
unfolding exports link
imports-exports constants =
    (refl, (refl, (refl, (refl, (refl, (refl, (refl, (refl, (refl, (refl, tt))))))))))
