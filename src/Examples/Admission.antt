-- ===== src/Examples/Admission.antt =====
-- Requests through the gateway's whole chain.
use fund_kit.Base.{
  String, List, [], ◌∷◌, Option, none, some, ◌≡◌, refl, ap, Bool-cases, inl, inr, true, ◌==◌,
  update, err, if◌then◌else◌,
}
use fund_kit.Base.Int.{pos}
use fund_kit.Base.Text.{trim_space, fields, equal_fold, to_lower}
use fund_kit.Http.{Headers, set_header, del_header}
use fund_kit.Gateway.Identity.{
  jwt_auth, caller_of, clear_identity_headers, set_identity_headers, key_func,
}
use fund_kit.Gateway.Health.{failed}
use fund_kit.Gateway.Cors.{cors, request_id}
use fund_kit.Gateway.RateLimit.{allow}
use fund_kit.Gateway.Router.{
  Gin, IsLawfulGin, IsListed, Route, routes, Request, Moment, State, forwarded, serve, handle,
}
use fund_kit.Gateway.Admission.{spoofed_address_unlimited}
use fund_kit.Examples.Accounts.{opened, accounts, bcrypt, jwt, auth_config, alice, alice_claims}
use fund_kit.Examples.RateLimit.{bucket}

-- A router that knows exact patterns, and addresses that are not empty.
pub exact : List Route → String → String → Option Route
exact [] method path = none
exact (r ∷ rs) method path =
    let rest = exact rs method path in if r.pattern == path then some r else rest

exact-IsListed :
    (rs : List Route) (method path : String) {r : Route}
    → exact rs method path ≡ some r
    → IsListed r rs
unfolding exact
exact-IsListed [] method path e = absurd (cc)
exact-IsListed (x ∷ rs) method path e = elim (Bool-cases (x.pattern == path)) [
  | inl here ↦ inl (cc (rw here at e))
  | inr later ↦ inr (exact-IsListed rs method path (rw later at e))
]

pub address_of : List String → String → String
address_of [] remote = remote
address_of (ip ∷ ips) remote = ip

abbrev pub gin : Gin
gin = record {
  route_of = exact;
  is_address = λ ip. true;
  client_ip = λ h remote. address_of (h "x-forwarded-for") remote;
}

pub gin-IsLawful : IsLawfulGin gin
unfolding address_of
gin-IsLawful = record {
  matched = λ rs method path e. exact-IsListed rs method path e;
  forwarded_for = λ h remote ip valid named. ap (λ l. address_of l remote) named;
}

abbrev pub inbound : Headers
inbound key =
    if key == "authorization"
    then "bearer tok:0123456789abcdef" ∷ []
    else (if key == "x-forwarded-for" then "10.0.0.9" ∷ [] else [])

abbrev pub request : Request
request = record {
  method = "POST";
  path = "/orders";
  remote = "192.0.2.1";
  headers = inbound;
  registration = err "EOF";
  credentials = err "EOF";
}

abbrev pub moment : Moment
moment = record {
  new_id = "r1";
  uuid = "u1";
  salt = "";
  seen = 1;
  tick = 1;
  now = pos 200;
  missing = "";
  is_email = λ text. true;
  checks = [];
  meets = λ t. failed "refused";
}

abbrev pub gate : State accounts bcrypt jwt auth_config bucket gin ("http://localhost:3000" ∷ []) []
gate = record { db = alice ∷ []; clients = λ ip. none }

abbrev pub admitted : Headers
admitted =
    set_identity_headers alice_claims
      (clear_identity_headers (set_header inbound "x-request-id" "r1"))

abbrev pub reached :
    State accounts bcrypt jwt auth_config bucket gin ("http://localhost:3000" ∷ []) []
reached =
    (serve accounts bcrypt jwt auth_config bucket gin ("http://localhost:3000" ∷ []) [] moment
      request gate).2

pub answered :
    serve accounts bcrypt jwt auth_config bucket gin
      ("http://localhost:3000" ∷ [])
      []
      moment
      request
      gate
    ≡ (
      forwarded (caller_of alice_claims) admitted,
      set_header (λ key. []) "x-request-id" "r1",
      reached,
    )
unfolding serve cors allow bucket exact set_header trim_space routes update request_id jwt_auth
    clear_identity_headers del_header fields equal_fold to_lower opened key_func handle
answered = refl

spoofed_address_unlimited_example :
    (serve accounts bcrypt jwt auth_config bucket gin
      ("http://localhost:3000" ∷ [])
      []
      moment
      request
      gate).0
    ≡ (serve accounts bcrypt jwt auth_config bucket gin
        ("http://localhost:3000" ∷ [])
        []
        moment
        request
        (record gate { clients = λ key. none })).0
spoofed_address_unlimited_example =
    spoofed_address_unlimited accounts bcrypt jwt auth_config bucket gin
      ("http://localhost:3000" ∷ []) [] gin-IsLawful moment request "10.0.0.9" gate refl refl refl
