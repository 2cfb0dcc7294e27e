-- ===== src/Gateway/Chain.antt =====
-- The stages of the chain, for a request that is handed on to order-service:
-- api-gateway/internal/handler/router.go.
use fund_kit.Base.{
  String, List, [], Option, none, some, ◌≡◌, ◌≢◌, refl, sym, ap, ◌∙◌, inl, inr, true, false, ◌==◌,
  arith, update_ne, ok, Result-cases, Bool-cases,
}
use fund_kit.Http.{Headers, set_header}
use fund_kit.Config.Gateway.{HealthTarget}
use fund_kit.Gateway.Users.{UserTable}
use fund_kit.Gateway.Auth.{Bcrypt, Jwt, AuthConfig}
use fund_kit.Gateway.Identity.{Caller, jwt_auth}
use fund_kit.Gateway.Cors.{cors, request_id}
use fund_kit.Gateway.RateLimit.{Bucket, allow}
use fund_kit.Gateway.Router.{
  Endpoint, live, readiness, stack_health, register, login, me, proxy, Route, routes, IsListed, Gin,
  IsLawfulGin, Request, Moment, forwarded, refused, State, nobody, handle, handle_route, dispatch,
  limit, serve,
}

-- Every route to the proxy is guarded.
proxied_guarded : (r : Route) → IsListed r routes → r.endpoint ≡ proxy → r.guarded ≡ true
unfolding routes
proxied_guarded r listed proxied = ground arith

-- The middleware sets one header of the request.
pub request_id-other :
    (id key : String) (inbound out : Headers)
    → key ≢ "x-request-id"
    → (request_id id inbound out).0 key ≡ inbound key
unfolding request_id set_header
request_id-other id key inbound out other =
    update_ne inbound "x-request-id" key _ (λ q. other (sym q))

module _ (d : UserTable) (p : Bcrypt) (j : Jwt) (cfg : AuthConfig) (b : Bucket) (g : Gin)
    (origins : List String) (targets : List HealthTarget) where
  abbrev Gate : Type 0
  Gate = State d p j cfg b g origins targets

  handle-forwarded :
      (e : Endpoint) (t : Moment) (r : Request) (c : Caller) (h : Headers) (s : Gate) {c' : Caller}
      {h' : Headers} {s' : Gate}
      → handle d p j cfg b g origins targets e t r c h s ≡ (forwarded c' h', s')
      → (e ≡ proxy) × (c' ≡ c) × (h' ≡ h) × (s' ≡ s)
  unfolding handle
  handle-forwarded live t r c h s e = cc
  handle-forwarded readiness t r c h s e = cc
  handle-forwarded stack_health t r c h s e = cc
  handle-forwarded register t r c h s e = cc
  handle-forwarded login t r c h s e = cc
  handle-forwarded me t r c h s e = cc
  handle-forwarded proxy t r c h s e = (refl, cc, cc, cc)

  dispatch-forwarded :
      (o : Option Route) (t : Moment) (r : Request) (h : Headers) (s : Gate) {c' : Caller}
      {h' : Headers} {s' : Gate}
      → ((route : Route) → o ≡ some route → IsListed route routes)
      → dispatch d p j cfg b g origins targets o t r h s ≡ (forwarded c' h', s')
      → (jwt_auth j cfg.jwt_secret t.now h ≡ ok (c', h')) × (s' ≡ s)
  unfolding dispatch handle_route
  dispatch-forwarded none t r h s listed e = absurd (cc)
  dispatch-forwarded (some route) t r h s listed e = elim (Bool-cases route.guarded) [
    | inr public ↦
        let (proxied, _, _, _) = handle-forwarded route.endpoint t r nobody h s (rw public at e) in
        absurd (cc (public, proxied_guarded route (listed route refl) proxied))
    | inl guarded ↦ elim (Result-cases (jwt_auth j cfg.jwt_secret t.now h)) [
      | inr (text, q) ↦ absurd (cc (rw (guarded, q) at e))
      | inl ((c, admitted), q) ↦
          let (proxied, eq_c, eq_h, eq_s) =
            handle-forwarded route.endpoint t r c admitted s (rw (guarded, q) at e) in
          (q ∙ ap ok (pair eq_c eq_h), eq_s)
    ]
  ]
    where
      pair :
          {c c' : Caller} {h h' : Headers}
          → c' ≡ c
          → h' ≡ h
          → ◌≡◌ {A = Caller × Headers} (c, h) (c', h')
      pair p q = cc

  limit-forwarded :
      IsLawfulGin g
      → (t : Moment) (r : Request) (h out : Headers) (s : Gate) {c' : Caller} {h' out' : Headers}
        {s' : Gate}
      → limit d p j cfg b g origins targets t r h out s ≡ (forwarded c' h', out', s')
      → (jwt_auth j cfg.jwt_secret t.now h ≡ ok (c', h'))
        × (s'.db ≡ s.db)
        × ((allow b (g.client_ip h r.remote) t.seen t.tick s.clients).0 ≡ true)
  unfolding limit
  limit-forwarded lawful t r h out s e =
      let (allowed, clients') = allow b (g.client_ip h r.remote) t.seen t.tick s.clients in
      elim (Bool-cases (allow b (g.client_ip h r.remote) t.seen t.tick s.clients).0) [
        | inr over ↦ absurd (cc (rw over at e))
        | inl within ↦
            let e' = rw within at e in
            let (q, same) =
              dispatch-forwarded (g.route_of routes r.method r.path) t r h
                (record s { clients = clients' })
                (λ route m. lawful.matched routes r.method r.path m) (ap (λ x. (x.0, x.2)) e') in
            (q, ap (λ x. x.db) same, within)
      ]

  -- A preflight request goes no further than `CORS`.
  pub serve-preflight :
      (t : Moment) (r : Request) (s : Gate)
      → (r.method == "OPTIONS") ≡ true
      → (serve d p j cfg b g origins targets t r s).0 ≡ refused 204 ""
  unfolding serve cors
  serve-preflight t r s q = rw (q, serve) refl

  pub serve-other :
      (t : Moment) (r : Request) (s : Gate)
      → (r.method == "OPTIONS") ≡ false
      → let (h, out) = request_id t.new_id r.headers (λ key. []) in
        serve d p j cfg b g origins targets t r s
        ≡ limit d p j cfg b g origins targets t r h (cors origins r.method h out).1 s
  unfolding serve cors
  serve-other t r s q = rw (q, serve) refl

  pub serve-forwarded :
      IsLawfulGin g
      → (t : Moment) (r : Request) (s : Gate) {c' : Caller} {h' out' : Headers} {s' : Gate}
      → serve d p j cfg b g origins targets t r s ≡ (forwarded c' h', out', s')
      → let h = (request_id t.new_id r.headers (λ key. [])).0 in
        (jwt_auth j cfg.jwt_secret t.now h ≡ ok (c', h'))
        × (s'.db ≡ s.db)
        × ((allow b (g.client_ip h r.remote) t.seen t.tick s.clients).0 ≡ true)
  serve-forwarded lawful t r s e = elim (Bool-cases (r.method == "OPTIONS")) [
    | inl preflight ↦ absurd (cc (serve-preflight t r s preflight, e))
    | inr other ↦
        let (h, out) = request_id t.new_id r.headers (λ key. []) in
        limit-forwarded lawful t r h (cors origins r.method h out).1 s
          (sym (serve-other t r s other) ∙ e)
  ]
