-- ===== src/Gateway/Forwarding.antt =====
-- The identity of a request, from the gateway to the order that order-service stores:
-- api-gateway/internal/middleware/jwt.go, api-gateway/internal/handler/proxy_handler.go and
-- order-service/internal/handler/{identity,order_handler}.go.
use fund_kit.Base.{
  ℕ, String, List, [], ◌≡◌, refl, sym, ap, ◌∙◌, true, false, Result, ok, ok-injective, contains,
  text-ne,
}
use fund_kit.Base.Int.{ℤ}
use fund_kit.Http.{Headers}
use fund_kit.Orders.Domain.{Order, Minted}
use fund_kit.Orders.Database.{Database, IsLawful}
use fund_kit.Orders.Reservation.{Redis, IsLawfulRedis}
use fund_kit.Orders.Service.{State}
use fund_kit.Orders.Identity.{identity_from_headers}
use fund_kit.Orders.Handlers.{CreateOrderRequest, order, create_order, resolve_order_user_id}
use fund_kit.Orders.Placing.{create_order-IsCreatedFrom}
use fund_kit.Orders.Pnl.{resolve_pnl_user_id}
use fund_kit.Gateway.Auth.{Jwt}
use fund_kit.Gateway.Identity.{
  Caller, jwt_auth, identity_headers, user_header, ReverseProxy, IsLawfulProxy, proxy_keys,
}
use fund_kit.Gateway.Verified.{Carries, jwt_auth-Carries}

-- The request's Connection header lists none of the identity headers.
abbrev pub KeepsIdentity : ReverseProxy → Headers → Type 0
KeepsIdentity p h =
    (key : String) → contains key identity_headers ≡ true → p.connection_lists h key ≡ false

pub forward-identity :
    (p : ReverseProxy)
    → IsLawfulProxy p
    → (caller : Caller) (h : Headers) → Carries caller h
    → KeepsIdentity p h
    → identity_from_headers (p.forward h) ≡ record {
      user_id = caller.user_id;
      username = caller.username;
      email = caller.email;
      phone = caller.phone;
      full_name = caller.full_name;
    }
unfolding identity_from_headers
forward-identity p lawful caller h (u, n, e, f, g) keeps =
    let sent : (key : String)
        → contains key identity_headers ≡ true
        → contains key proxy_keys ≡ false
        → p.forward h key ≡ h key =
      λ key k o. lawful.forwarded h key o (keeps key k) in
    rw
      (
        sent "x-fundkit-user-id" refl refl,
        sent "x-fundkit-username" refl refl,
        sent "x-fundkit-user-email" refl refl,
        sent "x-fundkit-user-phone" refl refl,
        sent "x-fundkit-user-name" refl refl,
        u,
        n,
        e,
        f,
        g,
      )
      refl

module _ (d : Database) (c : Redis) (ttl : ℕ) (lawful : IsLawful d) (redis : IsLawfulRedis c)
    (j : Jwt) (p : ReverseProxy) (proxy : IsLawfulProxy p) where
  -- If the gateway's check of the token lets a request pass, its Connection header lists none of
  -- the identity headers, the proxy, the database and Redis behave as documented, and order-service
  -- answers the forwarded request with a created order, then the order's customer, address and
  -- phone are those of the verified caller, whatever the client's headers and body say.
  pub forwarded_order-IsCallers :
      (secret : String) (now : ℤ) (inbound : Headers) {caller : Caller} {h : Headers}
      → jwt_auth j secret now inbound ≡ ok (caller, h)
      → KeepsIdentity p h
      → (uuid : String) (m : Minted) (invalid : List ℕ) (body : Result (List ℕ) CreateOrderRequest)
        (s : State d c) {row : Order} {s' : State d c}
      → create_order d c ttl uuid m invalid (p.forward h) body s
        ≡ (record { status = 201; body = order row }, s')
      → (row.user_id ≡ caller.user_id)
        × (row.user_email ≡ caller.email)
        × (row.user_phone ≡ caller.phone)
  unfolding resolve_order_user_id
  forwarded_order-IsCallers secret now inbound {caller} {h} e keeps uuid m invalid body s made =
      let (named, carries) = jwt_auth-Carries j secret now inbound e in
      let here = forward-identity p proxy caller h carries keeps in
      let nonempty = text-ne caller.user_id "" named in
      let (request, bound, valid, facts) =
        create_order-IsCreatedFrom d c ttl lawful redis uuid m invalid (p.forward h) body s made in
      (
        facts.0
            ∙ ap (λ x. resolve_order_user_id x request) here
            ∙ rw (nonempty, resolve_order_user_id) refl,
        facts.2 ∙ ap (λ x. x.email) here,
        facts.3 ∙ ap (λ x. x.phone) here,
      )

  -- If the Connection header of a request lists `x-fundkit-user-id`, and the proxy, the database
  -- and Redis behave as documented, then an order that order-service creates for the forwarded
  -- request belongs to the customer whom the body names, and the portfolio that it shows is that of
  -- the customer whom the path names.
  pub dropped_identity_falls_back :
      (h : Headers)
      → p.connection_lists h user_header ≡ true
      → (path uuid : String) (m : Minted) (invalid : List ℕ) (request : CreateOrderRequest)
        (s : State d c) {row : Order} {s' : State d c}
      → create_order d c ttl uuid m invalid (p.forward h) (ok request) s
        ≡ (record { status = 201; body = order row }, s')
      → (row.user_id ≡ request.user_id) × (resolve_pnl_user_id (p.forward h) path ≡ path)
  unfolding resolve_pnl_user_id resolve_order_user_id identity_from_headers
  dropped_identity_falls_back h listed path uuid m invalid request s made =
      let gone : p.forward h "x-fundkit-user-id" ≡ [] = proxy.removed h user_header refl listed in
      let (read, bound, valid, facts) =
        create_order-IsCreatedFrom d c ttl lawful redis uuid m invalid (p.forward h) (ok request) s
          made in
      let same : request ≡ read = ok-injective bound in
      (facts.0 ∙ rw gone (ap (λ r. r.user_id) (sym same)), rw gone refl)
