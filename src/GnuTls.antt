-- ===== src/GnuTls.antt =====
-- config/ssl/gnutls/wrappers.c: the security levels of GnuTLS as symbols that Ada can import.
pub mod Imports
mod Tests
use Prim.Native.String
use aws.Base.{ℤ, String, List, [], ◌∷◌, map}

-- `AWS_EXPORT(c)`: a symbol for the constant, with the prefix `_AWS_`.
unfoldable pub aws_export : (String → ℤ) → String → String × ℤ
aws_export constants c = (String.◌++◌ "_AWS_" c, constants c)

abbrev pub sec_params : List String
sec_params =
    "GNUTLS_SEC_PARAM_INSECURE" ∷ "GNUTLS_SEC_PARAM_EXPORT" ∷ "GNUTLS_SEC_PARAM_VERY_WEAK"
    ∷ "GNUTLS_SEC_PARAM_WEAK" ∷ "GNUTLS_SEC_PARAM_UNKNOWN" ∷ "GNUTLS_SEC_PARAM_LOW"
    ∷ "GNUTLS_SEC_PARAM_LEGACY" ∷ "GNUTLS_SEC_PARAM_NORMAL" ∷ "GNUTLS_SEC_PARAM_HIGH"
    ∷ "GNUTLS_SEC_PARAM_ULTRA" ∷ []

-- The symbols of the object file, from the values that <gnutls/gnutls.h> gives the constants.
unfoldable pub exports : (String → ℤ) → List (String × ℤ)
unfolding aws_export
exports constants = map (aws_export constants) sec_params
