-- ===== src/BasicAuth.antt =====
-- `BasicAuthHeader` of http.go.
use juju_utils.Common.{◌≡◌, ap, ◌∙◌, Option, none, some, [], ◌∷◌, ◌++◌, All, All-append, arith}
use juju_utils.Common.Bytes.{Bytes, codes}
use juju_utils.Text.Cut.{cut, Lacks, cut_complete}
use juju_utils.Text.Hex.{IsByte}
use juju_utils.Text.Base64.{encode, decode, decode-encode}

-- The value of the entry `Authorization`.
unfoldable pub basic_auth_header : Bytes → Bytes → Bytes
unfolding encode
basic_auth_header username password = codes "Basic " ++ encode (username ++ b':' ∷ password)

-- What a server reads, as RFC 2617 has it: the text after the scheme, decoded and cut at its first colon.
abbrev pub credentials : Option Bytes → Option (Bytes × Bytes)
credentials none = none
credentials (some text) = cut b':' text

abbrev pub after_scheme : Bytes → Bytes
after_scheme (b ∷ a ∷ s ∷ i ∷ c ∷ space ∷ rest) = rest
after_scheme s = []

-- A server reads the user and the password, unless the user has a colon in it.
pub basic_auth_header_read :
    (username password : Bytes)
    → Lacks b':' username
    → All IsByte username
    → All IsByte password
    → credentials (decode (after_scheme (basic_auth_header username password)))
      ≡ some (username, password)
unfolding basic_auth_header
basic_auth_header_read username password lacks hu hp =
    ap credentials (
      decode-encode (username ++ b':' ∷ password)
        (All-append IsByte username (b':' ∷ password) hu (omega arith, hp)))
    ∙ cut_complete b':' username password lacks
