-- ===== src/Gateway/Holdings.antt =====
-- The portfolio that a customer sees through the gateway: api-gateway/internal/middleware/jwt.go,
-- order-service/internal/handler/portfolio_handler.go, order-service/internal/portfolio/client.go and
-- portfolio-service/internal/handler/grpc_server.go.
use fund_kit.Base.{String, some, ◌≡◌, refl, ap, Result, ok, err, text-ne}
use fund_kit.Base.Int.{ℤ}
use fund_kit.Http.{Headers}
use fund_kit.Gateway.Auth.{Jwt}
use fund_kit.Gateway.Identity.{Caller, jwt_auth, ReverseProxy, IsLawfulProxy}
use fund_kit.Gateway.Verified.{jwt_auth-Carries}
use fund_kit.Gateway.Forwarding.{KeepsIdentity, forward-identity}
use fund_kit.Orders.Pnl.{response, resolve_pnl_user_id, get_user_pnl, fetch_user_pnl}
use fund_kit.Portfolio.Float.{Float64}
use fund_kit.Portfolio.Service.{Feed, State, valuate}
use fund_kit.Portfolio.Grpc
use fund_kit.Portfolio.Grpc.{Status, invalid_argument, PnlResponse, to_pnl_response}

-- The text of the gRPC error that the client reports.
unfoldable pub answered {ℓ} : {A : Type ℓ} → Result Status A → Result String A
answered (ok a) = ok a
answered (err (invalid_argument text)) = err text

module _ (f : Float64) (n : Feed f) where
  -- portfolio-service in a state, as order-service calls it.
  unfoldable pub serve : State f n → String → Result String (PnlResponse f)
  unfolding answered
  serve s user_id = answered (Grpc.get_user_pnl f n user_id s).0

  -- If the gateway's check of the token lets a request pass, its Connection header lists none of
  -- the identity headers and the proxy behaves as documented, then order-service answers 200 with
  -- the valuation that portfolio-service makes of the verified caller's holdings, whatever customer
  -- the path names.
  pub forwarded_pnl-IsCallers :
      (j : Jwt) (p : ReverseProxy)
      → IsLawfulProxy p
      → (secret : String) (now : ℤ) (inbound : Headers) {caller : Caller} {h : Headers}
      → jwt_auth j secret now inbound ≡ ok (caller, h)
      → KeepsIdentity p h
      → (path : String) (s : State f n)
      → get_user_pnl (some (serve s)) (p.forward h) path
        ≡ (200, response (to_pnl_response f (valuate f n caller.user_id s).0))
  unfolding get_user_pnl fetch_user_pnl resolve_pnl_user_id serve Grpc.get_user_pnl
  forwarded_pnl-IsCallers j p proxy secret now inbound {caller} {h} e keeps path s =
      let (named, carries) = jwt_auth-Carries j secret now inbound e in
      let here = ap (λ i. i.user_id) (forward-identity p proxy caller h carries keeps) in
      let nonempty = text-ne caller.user_id "" named in rw (here, nonempty, nonempty) refl
