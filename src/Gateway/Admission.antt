-- ===== src/Gateway/Admission.antt =====
-- Which requests reach order-service, and which of them the rate limiter counts:
-- api-gateway/internal/handler/router.go and api-gateway/internal/middleware/{jwt,ratelimit}.go.
use fund_kit.Base.{
  String, List, [], ◌∷◌, Option, none, some, ◌≡◌, refl, sym, ap, ◌∙◌, inl, inr, true, ◌==◌,
  ==-false, Result-cases, Bool-cases,
}
use fund_kit.Http.{Headers}
use fund_kit.Config.Gateway.{HealthTarget}
use fund_kit.Gateway.Users.{UserTable}
use fund_kit.Gateway.Auth.{Bcrypt, Jwt, AuthConfig}
use fund_kit.Gateway.Identity.{Caller, jwt_auth}
use fund_kit.Gateway.Cors.{cors, request_id}
use fund_kit.Gateway.RateLimit.{Bucket, Clients, allow}
use fund_kit.Gateway.Router.{
  Endpoint, live, readiness, stack_health, register, login, me, proxy, Route, routes, Gin,
  IsLawfulGin, Request, Moment, State, nobody, handle, handle_route, dispatch, limit, serve,
}
use fund_kit.Gateway.Chain.{serve-preflight, serve-other, request_id-other}

module _ (d : UserTable) (p : Bcrypt) (j : Jwt) (cfg : AuthConfig) (b : Bucket) (g : Gin)
    (origins : List String) (targets : List HealthTarget) where
  abbrev Gate : Type 0
  Gate = State d p j cfg b g origins targets

  abbrev with_clients : Clients b → Gate → Gate
  with_clients k s = record s { clients = k }

  -- No handler reads the limiter's map.
  handle-clients :
      (e : Endpoint) (t : Moment) (r : Request) (c : Caller) (h : Headers) (s : Gate)
      (k k' : Clients b)
      → (handle d p j cfg b g origins targets e t r c h (with_clients k s)).0
        ≡ (handle d p j cfg b g origins targets e t r c h (with_clients k' s)).0
  unfolding handle
  handle-clients live t r c h s k k' = refl
  handle-clients readiness t r c h s k k' = refl
  handle-clients stack_health t r c h s k k' = refl
  handle-clients register t r c h s k k' = refl
  handle-clients login t r c h s k k' = refl
  handle-clients me t r c h s k k' = refl
  handle-clients proxy t r c h s k k' = refl

  dispatch-clients :
      (o : Option Route) (t : Moment) (r : Request) (h : Headers) (s : Gate) (k k' : Clients b)
      → (dispatch d p j cfg b g origins targets o t r h (with_clients k s)).0
        ≡ (dispatch d p j cfg b g origins targets o t r h (with_clients k' s)).0
  unfolding dispatch handle_route
  dispatch-clients none t r h s k k' = refl
  dispatch-clients (some route) t r h s k k' = elim (Bool-cases route.guarded) [
    | inr public ↦ rw public (handle-clients route.endpoint t r nobody h s k k')
    | inl guarded ↦ elim (Result-cases (jwt_auth j cfg.jwt_secret t.now h)) [
      | inr (text, q) ↦ rw (guarded, q) refl
      | inl ((c, admitted), q) ↦
          rw (guarded, q) (handle-clients route.endpoint t r c admitted s k k')
    ]
  ]

  limit-fresh :
      (t : Moment) (r : Request) (h out : Headers) (s : Gate)
      → s.clients (g.client_ip h r.remote) ≡ none
      → (limit d p j cfg b g origins targets t r h out s).0
        ≡ (limit d p j cfg b g origins targets t r h out (with_clients (λ key. none) s)).0
  unfolding limit allow
  limit-fresh t r h out s fresh = elim (Bool-cases (b.allow t.tick b.new_limiter).0) [
    | inl within ↦
        rw (fresh, within) (dispatch-clients (g.route_of routes r.method r.path) t r h s _ _)
    | inr over ↦ rw (fresh, over) refl
  ]

  -- If gin takes a client's address from X-Forwarded-For, as documented for an engine without
  -- trusted proxies, and a request names there an address that the limiter has no entry for, then
  -- it gets the answer that it would get from a gateway that has counted no request.
  pub spoofed_address_unlimited :
      IsLawfulGin g
      → (t : Moment) (r : Request) (ip : String) (s : Gate) → g.is_address ip ≡ true
      → r.headers "x-forwarded-for" ≡ ip ∷ []
      → s.clients ip ≡ none
      → (serve d p j cfg b g origins targets t r s).0
        ≡ (serve d p j cfg b g origins targets t r (record s { clients = λ key. none })).0
  spoofed_address_unlimited lawful t r ip s valid named fresh =
      let (h, out) = request_id t.new_id r.headers (λ key. []) in
      let named' : h "x-forwarded-for" ≡ ip ∷ [] =
        request_id-other t.new_id "x-forwarded-for" r.headers _
          (==-false "x-forwarded-for" "x-request-id" refl)
        ∙ named in
      let taken : g.client_ip h r.remote ≡ ip = lawful.forwarded_for h r.remote ip valid named' in
      elim (Bool-cases (r.method == "OPTIONS")) [
        | inl preflight ↦
            serve-preflight d p j cfg b g origins targets t r s preflight
            ∙ sym (
                serve-preflight d p j cfg b g origins targets t r (with_clients (λ key. none) s)
                  preflight)
        | inr other ↦
            ap (λ x. x.0) (serve-other d p j cfg b g origins targets t r s other)
            ∙ limit-fresh t r h (cors origins r.method h out).1 s (ap s.clients taken ∙ fresh)
            ∙ ap (λ x. x.0)
                (sym (
                  serve-other d p j cfg b g origins targets t r (with_clients (λ key. none) s)
                    other))
      ]
