-- ===== src/Examples/Accounts.antt =====
-- A table of accounts, a bcrypt, a JWT library that signs one set of claims, and a reverse proxy, for
-- runs of the gateway.
use Prim.Native.String.{◌++◌}
use fund_kit.Base.{
  ℕ, String, List, [], ◌∷◌, Option, none, some, ◌≡◌, refl, sym, ap, ◌∙◌, subst, inl, inr, Bool,
  true, false, ◌&&◌, ◌||◌, ◌==◌, eq_iff, eq_refl, arith, eqb, Result, ok, err, ok-injective,
  contains, Bool-cases, Option-cases, update, if◌then◌else◌,
}
use fund_kit.Base.Int.{ℤ, pos, ltb_ℤ, ◌≤ℤ◌}
use fund_kit.Gateway.User.{User}
use fund_kit.Gateway.Users.{Failure, UserTable, IsLawful, IsStored}
use fund_kit.Gateway.Auth.{
  Bcrypt, IsLawfulBcrypt, Claims, SigningMethod, hmac, other, alg, signing_method_hs256, Jwt,
  IsLawfulJwt, HasNumericDates, AuthConfig,
}
use fund_kit.Gateway.Identity.{ReverseProxy, IsLawfulProxy, proxy_keys}

unfoldable pub named : String → List User → Option User
named name [] = none
named name (u ∷ us) = let rest = named name us in if u.username == name then some u else rest

unfoldable pub numbered : String → List User → Option User
numbered id [] = none
numbered id (u ∷ us) = let rest = numbered id us in if u.id == id then some u else rest

unfoldable pub insert_user : User → List User → Result Failure (User × List User)
unfolding named
insert_user u us = elim (named u.username us) [
  | none ↦ ok (u, u ∷ us)
  | some taken ↦
      err (record { duplicated_key = true; text = "duplicate key value: idx_users_username" })
]

abbrev pub accounts : UserTable
accounts = record {
  Db = List User;
  by_username = λ us name. named name us;
  by_id = λ us id. numbered id us;
  insert_user = insert_user;
  first_by_username = λ name us. ok (named name us);
  first_by_id = λ id us. ok (numbered id us);
}

insert_user-stores :
    (u : User) (us : List User) {row : User} {us' : List User}
    → insert_user u us ≡ ok (row, us')
    → IsStored accounts u row
      × ((λ name. named name us') ≡ update (λ name. named name us) u.username (some row))
      × ((λ id. numbered id us') ≡ update (λ id. numbered id us) u.id (some row))
unfolding insert_user named numbered update
insert_user-stores u us {row} {us'} h = elim (Option-cases (named u.username us)) [
  | inr (taken, q) ↦ absurd (cc (h, q))
  | inl q ↦
      let made : insert_user u us ≡ ok (u, u ∷ us) = rw (q, insert_user) refl in
      subst
        (λ x.
          IsStored accounts u x.0
          × ((λ name. named name x.1) ≡ update (λ name. named name us) u.username (some x.0))
          × ((λ id. numbered id x.1) ≡ update (λ id. numbered id us) u.id (some x.0)))
        (ok-injective (sym made ∙ h)) ((u.created_at, u.updated_at, refl), refl, refl)
]

pub accounts-IsLawful : IsLawful accounts
accounts-IsLawful = record {
  insert_user_lem = insert_user-stores;
  first_by_username_lem = λ name us h. sym (ok-injective h);
  first_by_id_lem = λ id us h. sym (ok-injective h);
}

abbrev pub bcrypt : Bcrypt
bcrypt = record {
  generate = λ salt password cost. ok ("$" ++ password);
  compare = λ hash password. hash == "$" ++ password;
}

pub bcrypt-IsLawful : IsLawfulBcrypt bcrypt
bcrypt-IsLawful = record {
  compare_generated = λ salt password cost h.
      subst (λ x. (x == "$" ++ password) ≡ true) (ok-injective h) (eq_refl ("$" ++ password));
}

abbrev pub proxy : ReverseProxy
proxy = record {
  forward = λ h key. if contains key (h "connection") || contains key proxy_keys then [] else h key;
  connection_lists = λ h key. contains key (h "connection");
}

pub proxy-IsLawful : IsLawfulProxy proxy
proxy-IsLawful = record {
  removed = λ h key ordinary listed. rw listed refl;
  forwarded = λ h key ordinary kept. rw (kept, ordinary) refl;
}

abbrev pub auth_config : AuthConfig
auth_config = record {
  jwt_secret = "0123456789abcdef";
  token_ttl = pos 3600;
  issuer = "fundkit-api-gateway";
  bcrypt_cost = pos 10;
}

abbrev pub alice : User
alice = record {
  id = "u1";
  username = "alice";
  email = "alice@example.com";
  phone = "+919876543210";
  full_name = "Alice";
  password_hash = "$correct horse";
  created_at = 0;
  updated_at = 0;
}

abbrev pub alice_claims : Claims
alice_claims = record {
  subject = "u1";
  issuer = "fundkit-api-gateway";
  issued_at = pos 100;
  not_before = pos 100;
  expires_at = pos 3700;
  username = "alice";
  email = "alice@example.com";
  phone = "+919876543210";
  full_name = "Alice";
}

abbrev is_time : ℤ → ℕ → Bool
is_time (pos n) k = eqb n k
is_time _ k = false

is_alice : Claims → Bool
is_alice c =
    c.subject == alice_claims.subject
    && c.issuer == alice_claims.issuer
    && is_time c.issued_at 100
    && is_time c.not_before 100
    && is_time c.expires_at 3700
    && c.username == alice_claims.username
    && c.email == alice_claims.email
    && c.phone == alice_claims.phone
    && c.full_name == alice_claims.full_name

is_time-pos : (z : ℤ) (k : ℕ) → is_time z k ≡ true → z ≡ pos k
is_time-pos z k h = ground arith

both : (a b : Bool) → (a && b) ≡ true → (a ≡ true) × (b ≡ true)
both true b h = (refl, h)
both false b h = absurd (cc)

is_alice-claims : (c : Claims) → is_alice c ≡ true → c ≡ alice_claims
unfolding is_alice
is_alice-claims c h =
    let (h₈, e₉) = both _ _ h in
    let (h₇, e₈) = both _ _ h₈ in
    let (h₆, e₇) = both _ _ h₇ in
    let (h₅, e₆) = both _ _ h₆ in
    let (h₄, e₅) = both _ _ h₅ in
    let (h₃, e₄) = both _ _ h₄ in
    let (h₂, e₃) = both _ _ h₃ in
    let (e₁, e₂) = both _ _ h₂ in
    λ i. record {
      subject = (eq_iff c.subject "u1").0 e₁ i;
      issuer = (eq_iff c.issuer "fundkit-api-gateway").0 e₂ i;
      issued_at = is_time-pos c.issued_at 100 e₃ i;
      not_before = is_time-pos c.not_before 100 e₄ i;
      expires_at = is_time-pos c.expires_at 3700 e₅ i;
      username = (eq_iff c.username "alice").0 e₆ i;
      email = (eq_iff c.email "alice@example.com").0 e₇ i;
      phone = (eq_iff c.phone "+919876543210").0 e₈ i;
      full_name = (eq_iff c.full_name "Alice").0 e₉ i;
    }

-- Its tokens are `tok:` and the key; it signs the claims of `alice` only.
unfoldable pub signed_string : SigningMethod → Claims → String → Result String String
unfolding is_alice
signed_string (hmac name) c key =
    if name == "HS256" && is_alice c then ok ("tok:" ++ key) else err "unknown claims"
signed_string (other name) c key = err "key is of invalid type"

unfoldable pub opened : List String → String → ℤ → Option String → Option Claims
opened methods text now none = none
opened methods text now (some key) =
    if text == "tok:" ++ key && contains "HS256" methods && ltb_ℤ now (pos 3700)
    then some alice_claims
    else none

abbrev pub jwt : Jwt
jwt = record {
  IsSigned = λ m key text claims.
      (m ≡ signing_method_hs256) × (text ≡ "tok:" ++ key) × (claims ≡ alice_claims);
  new_numeric_date = λ t. t;
  signed_string = signed_string;
  parse_with_claims =
      λ key_func methods text now. opened methods text now (key_func signing_method_hs256);
}

signed_string-signs :
    (m : SigningMethod) (c : Claims) (key : String) {text : String}
    → signed_string m c key ≡ ok text
    → (m ≡ signing_method_hs256) × (text ≡ "tok:" ++ key) × (c ≡ alice_claims)
unfolding signed_string
signed_string-signs (other name) c key h = absurd (cc)
signed_string-signs (hmac name) c key h = elim (Bool-cases (name == "HS256" && is_alice c)) [
  | inr refused ↦ absurd (cc (h, refused))
  | inl signed ↦
      let (method, claims) = both _ _ signed in
      let made : signed_string (hmac name) c key ≡ ok ("tok:" ++ key) =
        rw (signed, signed_string) refl in
      (
        ap hmac ((eq_iff name "HS256").0 method),
        ok-injective (sym h ∙ made),
        is_alice-claims c claims,
      )
]

opened-taken :
    (methods : List String) (text : String) (now : ℤ) (key : String)
    → (text == "tok:" ++ key && contains "HS256" methods && ltb_ℤ now (pos 3700)) ≡ true
    → opened methods text now (some key) ≡ some alice_claims
unfolding opened
opened-taken methods text now key h = rw h refl

opened-verified :
    (methods : List String) (text : String) (now : ℤ) (key : Option String) {claims : Claims}
    → opened methods text now key ≡ some claims
    → (k : String) × (key ≡ some k)
      × (contains "HS256" methods ≡ true)
      × (text ≡ "tok:" ++ k)
      × (claims ≡ alice_claims)
      × (ltb_ℤ now (pos 3700) ≡ true)
unfolding opened
opened-verified methods text now none h = absurd (cc)
opened-verified methods text now (some key) h =
    elim (Bool-cases (text == "tok:" ++ key && contains "HS256" methods && ltb_ℤ now (pos 3700))) [
      | inr refused ↦ absurd (cc (h, refused))
      | inl taken ↦
          let (rest, fresh) = both _ _ taken in
          let (same, allowed) = both _ _ rest in
          (
            key,
            refl,
            allowed,
            (eq_iff text ("tok:" ++ key)).0 same,
            cc (h, opened-taken methods text now key taken),
            fresh,
          )
    ]

sign-parse :
    (key_func : SigningMethod → Option String) (methods : List String) (m : SigningMethod)
    (claims : Claims) (key : String) (now : ℤ) {text : String}
    → jwt.signed_string m claims key ≡ ok text
    → HasNumericDates jwt claims
    → key_func m ≡ some key
    → contains (alg m) methods ≡ true
    → claims.not_before ≤ℤ now
    → ltb_ℤ now claims.expires_at ≡ true
    → jwt.parse_with_claims key_func methods text now ≡ some claims
sign-parse key_func methods m claims key now {text} h dates keyed allowed begun fresh =
    let (method, same, eq_claims) = signed_string-signs m claims key h in
    let keyed' : key_func signing_method_hs256 ≡ some key = ap key_func (sym method) ∙ keyed in
    let allowed' : contains "HS256" methods ≡ true =
      ap (λ x. contains (alg x) methods) (sym method) ∙ allowed in
    let fresh' : ltb_ℤ now (pos 3700) ≡ true =
      ap (λ x. ltb_ℤ now x.expires_at) (sym eq_claims) ∙ fresh in
    ap (opened methods text now) keyed'
    ∙ opened-taken methods text now key (rw (same, eq_refl ("tok:" ++ key), allowed', fresh') refl)
    ∙ ap some (sym eq_claims)

pub jwt-IsLawful : IsLawfulJwt jwt
unfolding opened
jwt-IsLawful = record {
  new_numeric_date_idem = λ t. refl;
  new_numeric_date_le = λ t. omega arith;
  parse_signed = sign-parse;
  parse_verified = λ key_func methods text now h.
      let (k, keyed, allowed, same, claims, fresh) =
        opened-verified methods text now (key_func signing_method_hs256) h in
      (
        signing_method_hs256,
        k,
        keyed,
        allowed,
        (refl, same, claims),
        ap (λ c. ltb_ℤ now c.expires_at) claims ∙ fresh,
      );
}
