-- ===== src/Gateway/Tokens.antt =====
-- A token, from its issue to the check of a later request: api-gateway/internal/service/auth_service.go
-- and api-gateway/internal/middleware/jwt.go.
use fund_kit.Base.{
  arith, ok-injective, String, List, [], ◌∷◌, ◌≡◌, ◌≢◌, refl, sym, ap, ◌∙◌, inl, inr, true, ok,
  Result-cases, text-ne, update,
}
use fund_kit.Base.Int.{ℤ, ltb_ℤ, ◌≤ℤ◌, ◌+ℤ◌}
use fund_kit.Base.Text.{fields, fields-nil, equal_fold}
use fund_kit.Http.{Headers, get_header, del_header}
use fund_kit.Gateway.User.{User}
use fund_kit.Gateway.Auth.{
  Jwt, IsLawfulJwt, AuthConfig, Session, signing_method_hs256, claims_of, issue_token,
}
use fund_kit.Gateway.Identity.{
  Caller, jwt_auth, key_func, bearer_token, caller_of, clear_identity_headers, set_identity_headers,
}

unfoldable pub caller_of_user : User → Caller
caller_of_user u = record {
  user_id = u.id;
  username = u.username;
  email = u.email;
  phone = u.phone;
  full_name = u.full_name;
}

cleared-authorization :
    (h : Headers)
    → get_header (clear_identity_headers h) "authorization" ≡ get_header h "authorization"
unfolding clear_identity_headers del_header update
cleared-authorization h = refl

words-nonempty :
    (header : String) {w : String} {ws : List String} → fields header ≡ w ∷ ws → header ≢ ""
words-nonempty header h empty = cc (h, ap fields empty, fields-nil)

module _ (j : Jwt) (sound : IsLawfulJwt j) (cfg : AuthConfig) where
  signed_by_issue :
      (now : ℤ) (user : User) {s : Session}
      → issue_token j cfg now user ≡ ok s
      → j.signed_string signing_method_hs256 (claims_of j cfg now user) cfg.jwt_secret ≡ ok s.token
  unfolding issue_token
  signed_by_issue now user h =
      elim (Result-cases
        (j.signed_string signing_method_hs256 (claims_of j cfg now user) cfg.jwt_secret)) [
          | inr (e, q) ↦ absurd (cc (h, q))
          | inl (text, q) ↦
              let made : issue_token j cfg now user
                  ≡ ok (record { token = text; expires_at = now +ℤ cfg.token_ttl; user = user }) =
                rw (q, issue_token) refl in
              q ∙ ap (λ x. ok x.token) (ok-injective (sym made ∙ h))
        ]

  -- If `IssueToken` made a token for a user with an id, and it is sent as the bearer token not
  -- before its issue and before the time that its expiry claim names, then `JWTAuth` with the same
  -- secret lets the request pass as that user's. The JWT library behaves as documented.
  pub issue_token-jwt_auth :
      (now later : ℤ) (user : User) {s : Session}
      → issue_token j cfg now user ≡ ok s
      → user.id ≢ ""
      → now ≤ℤ later
      → ltb_ℤ later (j.new_numeric_date (now +ℤ cfg.token_ttl)) ≡ true
      → (inbound : Headers) {scheme : String}
      → fields (get_header inbound "authorization") ≡ scheme ∷ s.token ∷ []
      → equal_fold scheme "bearer" ≡ true
      → (h : Headers) × (jwt_auth j cfg.jwt_secret later inbound ≡ ok (caller_of_user user, h))
  unfolding jwt_auth claims_of caller_of bearer_token caller_of_user key_func
  issue_token-jwt_auth now later user {s} issued named started fresh inbound {scheme} words bearer =
      let claims = claims_of j cfg now user in
      let begun : claims.not_before ≤ℤ later = ground (arith, sound.new_numeric_date_le now) in
      let parsed =
        sound.parse_signed (key_func cfg.jwt_secret) ("HS256" ∷ []) signing_method_hs256 claims
          cfg.jwt_secret later (signed_by_issue now user issued)
          (
            sound.new_numeric_date_idem now,
            sound.new_numeric_date_idem now,
            sound.new_numeric_date_idem (now +ℤ cfg.token_ttl),
          )
          refl refl begun fresh in
      let present =
        text-ne (get_header inbound "authorization") ""
          (words-nonempty (get_header inbound "authorization") words) in
      let someone = text-ne user.id "" named in
      (
        set_identity_headers claims (clear_identity_headers inbound),
        rw (cleared-authorization inbound, present, words, bearer, parsed, someone, jwt_auth) refl,
      )
