-- ===== src/Hpack/Table/Fields.antt =====
-- The header fields that `src/http2/aws-http2-hpack-table.adb` puts into the static table when the
-- package is elaborated, in their order.
use aws.Base.{String, List, [], ◌∷◌}

unfoldable pub static_fields : List (String × String)
static_fields =
    (":authority", "")
    ∷ (":method", "GET")
    ∷ (":method", "POST")
    ∷ (":path", "/")
    ∷ (":path", "/index.html")
    ∷ (":scheme", "http")
    ∷ (":scheme", "https")
    ∷ (":status", "200")
    ∷ (":status", "204")
    ∷ (":status", "206")
    ∷ (":status", "304")
    ∷ (":status", "400")
    ∷ (":status", "404")
    ∷ (":status", "500")
    ∷ ("accept-charset", "")
    ∷ ("accept-encoding", "gzip, deflate")
    ∷ ("accept-language", "")
    ∷ ("accept-ranges", "")
    ∷ ("accept", "")
    ∷ ("access-control-allow-origin", "")
    ∷ ("age", "")
    ∷ ("allow", "")
    ∷ ("authorization", "")
    ∷ ("cache-control", "")
    ∷ ("content-disposition", "")
    ∷ ("content-encoding", "")
    ∷ ("content-language", "")
    ∷ ("content-length", "")
    ∷ ("content-location", "")
    ∷ ("content-range", "")
    ∷ ("content-type", "")
    ∷ ("cookie", "")
    ∷ ("date", "")
    ∷ ("etag", "")
    ∷ ("expect", "")
    ∷ ("expires", "")
    ∷ ("from", "")
    ∷ ("host", "")
    ∷ ("if-match", "")
    ∷ ("if-modified-since", "")
    ∷ ("if-none-match", "")
    ∷ ("if-range", "")
    ∷ ("if-unmodified-since", "")
    ∷ ("last-modified", "")
    ∷ ("link", "")
    ∷ ("location", "")
    ∷ ("max-forwards", "")
    ∷ ("proxy-authenticate", "")
    ∷ ("proxy-authorization", "")
    ∷ ("range", "")
    ∷ ("referer", "")
    ∷ ("refresh", "")
    ∷ ("retry-after", "")
    ∷ ("server", "")
    ∷ ("set-cookie", "")
    ∷ ("strict-transport-security", "")
    ∷ ("transfer-encoding", "")
    ∷ ("user-agent", "")
    ∷ ("vary", "")
    ∷ ("via", "")
    ∷ ("www-authenticate", "")
    ∷ []
