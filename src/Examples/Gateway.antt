-- ===== src/Examples/Gateway.antt =====
-- Runs of the gateway, and of order-service behind it.
use fund_kit.Orders.Handlers.{
  is_valid_create, resolve_order_user_id, new_order_of, CreateOrderRequest, order, create_order,
}
use fund_kit.Orders.Identity.{identity_from_headers, display_name}
use fund_kit.Orders.Service.{place, State}
use fund_kit.Orders.Reservation.{claim_idempotency}
use fund_kit.Examples.Keys.{set_nx, redis, redis-IsLawfulRedis}
use fund_kit.Orders.Repository.{create_body, create_with_outbox}
use fund_kit.Examples.Tables.{find, transaction, insert_order, postgres, postgres-IsLawful}
use fund_kit.Orders.Domain.{
  new_order_status_changed_outbox, before_create as before_create_order, Order,
}
use fund_kit.Http.{set_header, del_header, Headers}
use fund_kit.Base.{
  update, ℕ, String, List, [], ◌∷◌, some, ◌≡◌, ◌≢◌, ◌⊎◌, refl, arith, true, false, ◌==◌, Result, ok,
  err, contains, if◌then◌else◌,
}
use fund_kit.Gateway.Identity.{
  key_func, jwt_auth, caller_of, identity_headers, set_identity_headers, clear_identity_headers,
}
use fund_kit.Gateway.User.{
  validate, before_create, normalize, User, AuthError, Registration, normalize_username,
}
use fund_kit.Base.Text.{trim_space, fields, equal_fold, to_lower}
use fund_kit.Gateway.Users.{create, Failure}
use fund_kit.Base.Int.{pos, ◌+ℤ◌}
use fund_kit.Gateway.Auth.{register, authenticate, issue_token, Session}
use fund_kit.Gateway.Credentials.{authenticate_outcome, register-authenticate}
use fund_kit.Gateway.Tokens.{issue_token-jwt_auth, caller_of_user}
use fund_kit.Gateway.Forwarding.{forwarded_order-IsCallers, dropped_identity_falls_back}
use fund_kit.Orders.Status.{pending}
use fund_kit.Orders.Pnl.{resolve_pnl_user_id, get_user_pnl, get_user_pnl_outcome, response, error}
use fund_kit.Examples.Accounts.{
  named, insert_user, signed_string, opened, accounts, accounts-IsLawful, bcrypt, bcrypt-IsLawful,
  jwt, jwt-IsLawful, proxy, proxy-IsLawful, auth_config, alice, alice_claims,
}
use fund_kit.Examples.Requests.{minted, empty}

authenticate_outcome_example :
    let name = normalize_username " Alice" in
    let r = authenticate accounts bcrypt auth_config " Alice" "correct horse" (alice ∷ []) in
    ((u : User) × (accounts.by_username (alice ∷ []) name ≡ some u)
      × (bcrypt.compare u.password_hash "correct horse" ≡ true)
      × (r ≡ ok u))
    ⊎ (((u : User)
          → accounts.by_username (alice ∷ []) name ≡ some u
          → bcrypt.compare u.password_hash "correct horse" ≡ false)
        × (r ≡ err AuthError.invalid_credentials))
    ⊎ ((e : Failure) × (accounts.first_by_username name (alice ∷ []) ≡ err e)
        × (r ≡ err (AuthError.infrastructure e.text)))
authenticate_outcome_example =
    authenticate_outcome accounts bcrypt auth_config accounts-IsLawful " Alice" "correct horse"
      (alice ∷ [])

abbrev registration : Registration
registration = record {
  username = " Alice ";
  email = "Alice@Example.com";
  phone = "+919876543210";
  full_name = "Alice";
  password = "correct horse";
}

registered :
    register accounts bcrypt auth_config (λ text. true) "u1" "" registration []
    ≡ (ok alice, alice ∷ [])
unfolding register named insert_user validate normalize normalize_username to_lower trim_space
    create before_create
registered = refl

alice_found : accounts.first_by_username (normalize_username "ALICE") (alice ∷ []) ≡ ok (some alice)
unfolding named normalize_username to_lower trim_space
alice_found = refl

register-authenticate_example :
    authenticate accounts bcrypt auth_config "ALICE" "correct horse" (alice ∷ []) ≡ ok alice
unfolding normalize_username trim_space to_lower
register-authenticate_example =
    register-authenticate accounts bcrypt auth_config accounts-IsLawful bcrypt-IsLawful
      (λ text. true) "u1" "" registration [] registered "ALICE" refl alice_found

abbrev pub headers : String → List String → Headers
headers connection kept key =
    if key == "authorization"
    then "bearer tok:0123456789abcdef" ∷ []
    else (if key == "connection"
        then kept
        else (if key == "x-fundkit-user-id" then connection ∷ [] else []))

abbrev session : Session
session = record { token = "tok:0123456789abcdef"; expires_at = pos 3700; user = alice }

issued : issue_token jwt auth_config (pos 100) alice ≡ ok session
unfolding issue_token signed_string ◌+ℤ◌
issued = refl

issue_token-jwt_auth_example :
    (h : Headers) × (jwt_auth jwt auth_config.jwt_secret (pos 200) (headers "u9" [])
      ≡ ok (caller_of_user alice, h))
unfolding ◌+ℤ◌ fields equal_fold to_lower
issue_token-jwt_auth_example =
    issue_token-jwt_auth jwt jwt-IsLawful auth_config (pos 100) (pos 200) alice issued
      (λ e. absurd (cc)) (omega arith) refl (headers "u9" []) refl refl

-- A client that names another customer in the header and in the body.
abbrev pub admitted : Headers
admitted = set_identity_headers alice_claims (clear_identity_headers (headers "u9" []))

pub passed :
    jwt_auth jwt auth_config.jwt_secret (pos 200) (headers "u9" [])
    ≡ ok (caller_of alice_claims, admitted)
unfolding jwt_auth opened fields equal_fold to_lower clear_identity_headers del_header update
    key_func
passed = refl

abbrev pub request : CreateOrderRequest
request = record {
  user_id = "u9";
  fund_id = "F001";
  amount = pos 50000;
  type = "SIP";
  idempotency_key = "k1";
}

abbrev pub placed_row : Order
placed_row = record {
  id = "o1";
  user_id = "u1";
  user_name = "Alice";
  user_email = "alice@example.com";
  user_phone = "+919876543210";
  fund_id = "F001";
  amount = pos 50000;
  type = "SIP";
  status = pending;
  idempotency_key = "k1";
  created_at = 1;
  updated_at = 1;
}

abbrev after_placing : State postgres redis
after_placing =
    (create_order postgres redis 600 "o1" minted [] (proxy.forward admitted) (ok request) empty).1

created :
    create_order postgres redis 600 "o1" minted [] (proxy.forward admitted) (ok request) empty
    ≡ (record { status = 201; body = order placed_row }, after_placing)
unfolding create_order is_valid_create resolve_order_user_id identity_from_headers place
    claim_idempotency set_nx create_with_outbox transaction create_body insert_order find
    new_order_status_changed_outbox before_create_order new_order_of display_name
    set_identity_headers set_header update clear_identity_headers del_header
created = refl

pub identity_kept :
    (key : String)
    → contains key identity_headers ≡ true
    → contains key (admitted "connection") ≡ false
unfolding set_identity_headers set_header update clear_identity_headers del_header
identity_kept key k = refl

forwarded_order-IsCallers_example :
    (placed_row.user_id ≡ "u1")
    × (placed_row.user_email ≡ "alice@example.com")
    × (placed_row.user_phone ≡ "+919876543210")
unfolding caller_of
forwarded_order-IsCallers_example =
    forwarded_order-IsCallers postgres redis 600 postgres-IsLawful redis-IsLawfulRedis jwt proxy
      proxy-IsLawful auth_config.jwt_secret (pos 200) (headers "u9" []) passed identity_kept "o1"
      minted [] (ok request) empty created

-- The same client, whose Connection header lists the identity.
abbrev stripped : Headers
stripped = headers "u1" ("x-fundkit-user-id" ∷ [])

abbrev stolen_row : Order
stolen_row = record placed_row { user_id = "u9"; user_name = ""; user_email = ""; user_phone = "" }

abbrev after_theft : State postgres redis
after_theft =
    (create_order postgres redis 600 "o1" minted [] (proxy.forward stripped) (ok request) empty).1

stolen :
    create_order postgres redis 600 "o1" minted [] (proxy.forward stripped) (ok request) empty
    ≡ (record { status = 201; body = order stolen_row }, after_theft)
unfolding create_order is_valid_create resolve_order_user_id identity_from_headers place
    claim_idempotency set_nx create_with_outbox transaction create_body insert_order find
    new_order_status_changed_outbox before_create_order new_order_of display_name
stolen = refl

dropped_identity_falls_back_example :
    (stolen_row.user_id ≡ "u9") × (resolve_pnl_user_id (proxy.forward stripped) "u7" ≡ "u7")
dropped_identity_falls_back_example =
    dropped_identity_falls_back postgres redis 600 postgres-IsLawful redis-IsLawfulRedis jwt proxy
      proxy-IsLawful stripped refl "u7" "o1" minted [] request empty stolen

abbrev rpc : String → Result String ℕ
rpc user_id = if user_id == "u1" then ok 42 else err "unknown customer"

get_user_pnl_outcome_example :
    let user_id = resolve_pnl_user_id admitted "u9" in
    let reply = get_user_pnl (some rpc) admitted "u9" in
    ((user_id ≡ "") × (reply ≡ (400, error "userId is required")))
    ⊎ ((user_id ≢ "")
        × ((f : String → Result String ℕ) × (r : ℕ) × (some rpc ≡ some f)
            × (f user_id ≡ ok r)
            × (reply ≡ (200, response r))))
    ⊎ ((user_id ≢ "")
        × ((f : String → Result String ℕ) (r : ℕ) → some rpc ≡ some f → f user_id ≢ ok r)
        × (reply ≡ (503, error "portfolio service unavailable")))
get_user_pnl_outcome_example = get_user_pnl_outcome (some rpc) admitted "u9"
