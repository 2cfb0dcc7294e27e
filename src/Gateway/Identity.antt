-- ===== src/Gateway/Identity.antt =====
-- The check of a bearer token and the identity headers that it sets,
-- api-gateway/internal/middleware/jwt.go, and the reverse proxy that forwards the request,
-- api-gateway/internal/handler/proxy_handler.go.
use fund_kit.Base.{
  String, List, [], ◌∷◌, Option, none, some, ◌≡◌, Bool, true, false, ◌==◌, if◌then◌else◌, Result,
  ok, err, ◌>>=◌, ◌>>◌, fail_if, contains,
}
use fund_kit.Base.Int.{ℤ}
use fund_kit.Base.Text.{fields, equal_fold}
use fund_kit.Http.{Headers, get_header, set_header, del_header}
use fund_kit.Gateway.Auth.{Jwt, Claims, SigningMethod, hmac, other, alg, signing_method_hs256}

abbrev pub user_header : String
user_header = "x-fundkit-user-id"

abbrev pub username_header : String
username_header = "x-fundkit-username"

abbrev pub email_header : String
email_header = "x-fundkit-user-email"

abbrev pub phone_header : String
phone_header = "x-fundkit-user-phone"

abbrev pub name_header : String
name_header = "x-fundkit-user-name"

abbrev pub identity_headers : List String
identity_headers = user_header ∷ username_header ∷ email_header ∷ phone_header ∷ name_header ∷ []

-- What `JWTAuth` sets in the context of the request.
pub record Caller : Type 0 where
  pub user_id : String
  pub username : String
  pub email : String
  pub phone : String
  pub full_name : String

clear_from : List String → Headers → Headers
clear_from [] h = h
clear_from (key ∷ keys) h = clear_from keys (del_header h key)

unfoldable pub clear_identity_headers : Headers → Headers
unfolding clear_from
clear_identity_headers h = clear_from identity_headers h

-- `keyFunc`: the secret, for the HMAC family only.
unfoldable pub key_func : String → SigningMethod → Option String
key_func secret (hmac name) = some secret
key_func secret (other name) = none

-- The token in `Authorization: Bearer <token>`.
unfoldable pub bearer_token : List String → Result String String
bearer_token (scheme ∷ token ∷ []) =
    if equal_fold scheme "bearer" then ok token else err "invalid authorization header format"
bearer_token parts = err "invalid authorization header format"

unfoldable pub caller_of : Claims → Caller
caller_of c = record {
  user_id = c.subject;
  username = c.username;
  email = c.email;
  phone = c.phone;
  full_name = c.full_name;
}

unfoldable pub set_identity_headers : Claims → Headers → Headers
set_identity_headers c h =
    let h₁ = set_header h user_header c.subject in
    let h₂ = set_header h₁ username_header c.username in
    let h₃ = set_header h₂ email_header c.email in
    let h₄ = set_header h₃ phone_header c.phone in set_header h₄ name_header c.full_name

-- `JWTAuth`, at the time `now`: the text of a 401, or what the request goes on with.
unfoldable pub jwt_auth : Jwt → String → ℤ → Headers → Result String (Caller × Headers)
unfolding bearer_token caller_of set_identity_headers
jwt_auth j secret now inbound = do
  let h = clear_identity_headers inbound
  let header = get_header h "authorization"
  fail_if (header == "") "authorization header required"
  token ← bearer_token (fields header)
  claims ← elim (j.parse_with_claims (key_func secret) (alg signing_method_hs256 ∷ []) token now) [
    | none ↦ err "invalid or expired token"
    | some claims ↦ ok claims
  ]
  fail_if (claims.subject == "") "token is missing a subject claim"
  ok (caller_of claims, set_identity_headers claims h)

-- `httputil.ReverseProxy`: the headers of the request that it sends upstream, and whether the
-- Connection header of a request lists a key.
pub record ReverseProxy : Type 0 where
  pub forward : Headers → Headers
  pub connection_lists : Headers → String → Bool

-- The keys that the proxy treats in a way of its own.
abbrev pub proxy_keys : List String
proxy_keys =
    "connection" ∷ "proxy-connection" ∷ "keep-alive" ∷ "proxy-authenticate" ∷ "proxy-authorization"
    ∷ "te" ∷ "trailer" ∷ "transfer-encoding" ∷ "upgrade" ∷ "user-agent" ∷ "x-forwarded-for" ∷ []

-- What its documentation says: a hop-by-hop header, which is also one that Connection lists, is
-- removed; the others are forwarded.
pub record IsLawfulProxy (p : ReverseProxy) : Type 0 where
  pub removed :
      (h : Headers) (key : String)
      → contains key proxy_keys ≡ false
      → p.connection_lists h key ≡ true
      → p.forward h key ≡ []
  pub forwarded :
      (h : Headers) (key : String)
      → contains key proxy_keys ≡ false
      → p.connection_lists h key ≡ false
      → p.forward h key ≡ h key
