-- ===== src/Gateway/Verified.antt =====
-- What the check of the bearer token lets pass, api-gateway/internal/middleware/jwt.go.
use fund_kit.Base.{
  String, [], ◌∷◌, some, ◌≡◌, ◌≢◌, refl, sym, ap, ◌∙◌, subst, inl, inr, true, false, ◌==◌, ok,
  Result-cases, Bool-cases, Option-cases, ok-injective, contains, ==-false, eq_iff, arith, update,
}
use fund_kit.Base.Int.{ℤ, ltb_ℤ}
use fund_kit.Base.Text.{fields}
use fund_kit.Http.{Headers, get_header, set_header, del_header}
use fund_kit.Gateway.Auth.{
  Jwt, IsLawfulJwt, Claims, SigningMethod, hmac, other, alg, signing_method_hs256,
}
use fund_kit.Gateway.Identity.{
  Caller, jwt_auth, key_func, bearer_token, caller_of, clear_identity_headers, set_identity_headers,
  identity_headers,
}

-- The token, the claims and the headers behind a request that the check lets pass.
abbrev IsAdmitted : Jwt → String → ℤ → Headers → Caller → Headers → String → Claims → Type 0
IsAdmitted j secret now inbound caller h token claims =
    (j.parse_with_claims (key_func secret) ("HS256" ∷ []) token now ≡ some claims)
    × (claims.subject ≢ "")
    × (caller ≡ caller_of claims)
    × (h ≡ set_identity_headers claims (clear_identity_headers inbound))

jwt_auth-eq-ok :
    (j : Jwt) (secret : String) (now : ℤ) (inbound : Headers) {caller : Caller} {h : Headers}
    → jwt_auth j secret now inbound ≡ ok (caller, h)
    → (token : String) × (claims : Claims) × IsAdmitted j secret now inbound caller h token claims
unfolding jwt_auth
jwt_auth-eq-ok j secret now inbound {caller} {h} e =
    let cleared = clear_identity_headers inbound in
    let header = get_header cleared "authorization" in
    elim (Bool-cases (header == "")) [
      | inl empty ↦ absurd (cc (e, empty))
      | inr given ↦ elim (Result-cases (bearer_token (fields header))) [
        | inr (text, p) ↦ absurd (cc (e, given, p))
        | inl (token, p) ↦
            elim (Option-cases (j.parse_with_claims (key_func secret) ("HS256" ∷ []) token now)) [
              | inl q ↦ absurd (cc (e, given, p, q))
              | inr (claims, q) ↦ elim (Bool-cases (claims.subject == "")) [
                | inl nobody ↦ absurd (cc (e, given, p, q, nobody))
                | inr named ↦
                    let made : jwt_auth j secret now inbound
                        ≡ ok (caller_of claims, set_identity_headers claims cleared) =
                      rw (given, p, q, named, jwt_auth) refl in
                    let same = ok-injective (sym e ∙ made) in
                    (
                      token,
                      claims,
                      (q, ==-false claims.subject "" named, ap (λ x. x.0) same, ap (λ x. x.1) same),
                    )
              ]
            ]
      ]
    ]

-- A request's identity headers, each with one value.
abbrev pub Carries : Caller → Headers → Type 0
Carries c h =
    (h "x-fundkit-user-id" ≡ c.user_id ∷ [])
    × (h "x-fundkit-username" ≡ c.username ∷ [])
    × (h "x-fundkit-user-email" ≡ c.email ∷ [])
    × (h "x-fundkit-user-phone" ≡ c.phone ∷ [])
    × (h "x-fundkit-user-name" ≡ c.full_name ∷ [])

set_identity_headers-Carries :
    (c : Claims) (h : Headers) → Carries (caller_of c) (set_identity_headers c h)
unfolding set_identity_headers set_header update caller_of
set_identity_headers-Carries c h = (refl, refl, refl, refl, refl)

-- Every other header is the client's.
set_identity_headers-other :
    (c : Claims) (h : Headers) (key : String)
    → contains key identity_headers ≡ false
    → set_identity_headers c (clear_identity_headers h) key ≡ h key
unfolding set_identity_headers set_header update clear_identity_headers del_header
set_identity_headers-other c h key e = ground arith

hs256_only :
    (secret : String) (m : SigningMethod) {key : String}
    → key_func secret m ≡ some key
    → contains (alg m) ("HS256" ∷ []) ≡ true
    → (m ≡ signing_method_hs256) × (key ≡ secret)
unfolding key_func
hs256_only secret (hmac name) h allowed = elim (Bool-cases ("HS256" == name)) [
  | inl same ↦ (ap hmac (sym ((eq_iff "HS256" name).0 same)), cc (h))
  | inr differs ↦ absurd (cc (allowed, differs))
]
hs256_only secret (other name) h allowed = absurd (cc)

pub jwt_auth-Carries :
    (j : Jwt) (secret : String) (now : ℤ) (inbound : Headers) {caller : Caller} {h : Headers}
    → jwt_auth j secret now inbound ≡ ok (caller, h)
    → (caller.user_id ≢ "") × Carries caller h
unfolding caller_of
jwt_auth-Carries j secret now inbound {caller} {h} e =
    let (token, claims, (parsed, named, eq_caller, eq_h)) = jwt_auth-eq-ok j secret now inbound e in
    (
      λ z. named (sym (ap (λ x. x.user_id) eq_caller) ∙ z),
      subst (λ x. Carries x h) (sym eq_caller)
          (subst (λ x. Carries (caller_of claims) x) (sym eq_h)
            (set_identity_headers-Carries claims (clear_identity_headers inbound))),
    )

-- The check touches no header but those of the identity.
pub jwt_auth-other :
    (j : Jwt) (secret : String) (now : ℤ) (inbound : Headers) {caller : Caller} {h : Headers}
    → jwt_auth j secret now inbound ≡ ok (caller, h)
    → (key : String) → contains key identity_headers ≡ false
    → h key ≡ inbound key
jwt_auth-other j secret now inbound e key k =
    let (token, claims, (parsed, named, eq_caller, eq_h)) = jwt_auth-eq-ok j secret now inbound e in
    ap (λ x. x key) eq_h ∙ set_identity_headers-other claims inbound key k

module _ (j : Jwt) (sound : IsLawfulJwt j) where
  -- If `JWTAuth` lets a request pass, and the JWT library behaves as documented, then the request
  -- has a token that is signed by HS256 with the gateway's secret, has not expired and names a
  -- subject. The caller and the identity headers are then the token's, and every other header is as
  -- the client sent it.
  pub jwt_auth-IsVerified :
      (secret : String) (now : ℤ) (inbound : Headers) {caller : Caller} {h : Headers}
      → jwt_auth j secret now inbound ≡ ok (caller, h)
      → ((token : String) × (claims : Claims) × j.IsSigned signing_method_hs256 secret token claims
          × (ltb_ℤ now claims.expires_at ≡ true)
          × (claims.subject ≢ "")
          × (caller ≡ caller_of claims))
        × Carries caller h
        × ((key : String) → contains key identity_headers ≡ false → h key ≡ inbound key)
  jwt_auth-IsVerified secret now inbound {caller} {h} e =
      let (token, claims, (parsed, named, eq_caller, eq_h)) =
        jwt_auth-eq-ok j secret now inbound e in
      let (m, key, keyed, allowed, signed, fresh) =
        sound.parse_verified (key_func secret) ("HS256" ∷ []) token now parsed in
      let (eq_m, eq_key) = hs256_only secret m keyed allowed in
      (
        (
          token,
          claims,
          subst (λ k. j.IsSigned k secret token claims) eq_m
              (subst (λ k. j.IsSigned m k token claims) eq_key signed),
          fresh,
          named,
          eq_caller,
        ),
        (jwt_auth-Carries j secret now inbound e).1,
        jwt_auth-other j secret now inbound e,
      )
