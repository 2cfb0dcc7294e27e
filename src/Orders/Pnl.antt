-- ===== src/Orders/Pnl.antt =====
-- The portfolio of a customer as order-service passes it on:
-- order-service/internal/handler/portfolio_handler.go and order-service/internal/portfolio/client.go.
use fund_kit.Base.{
  ℕ, String, Option, none, some, ◌≡◌, refl, ◌⊎◌, inl, inr, Bool, true, ◌==◌, if◌then◌else◌, ◌≢◌,
  text-cases, ==-false, Option-cases, Result-cases, Result, ok, err,
}
use fund_kit.Http.{Headers}
use fund_kit.Orders.Identity.{identity_from_headers}

-- An error of the client: whether `ErrUnavailable` is in its chain, and its text.
pub record FetchError : Type 0 where
  pub is_unavailable : Bool
  pub text : String

pub data PnlBody {ℓ} (Pnl : Type ℓ) : Type ℓ where
  response : Pnl → PnlBody Pnl
  error : String → PnlBody Pnl

-- The gateway's identity where there is one, and otherwise the path's.
unfoldable pub resolve_pnl_user_id : Headers → String → String
resolve_pnl_user_id h path =
    let caller = identity_from_headers h in if caller.user_id == "" then path else caller.user_id

module _ {ℓ} {Pnl : Type ℓ} where
  -- `FetchUserPnL`; the client is `none` before a connection is made, and otherwise its remote
  -- procedure, which answers or fails within the deadline.
  unfoldable pub fetch_user_pnl :
      Option (String → Result String Pnl) → String → Result FetchError Pnl
  fetch_user_pnl none user_id =
      err (record { is_unavailable = true; text = "portfolio service unavailable" })
  fetch_user_pnl (some rpc) user_id = elim (rpc user_id) [
    | err text ↦ err (record { is_unavailable = true; text = text })
    | ok answered ↦ ok answered
  ]

  -- `GET /portfolio/:userId/pnl`: a status and a body.
  unfoldable pub get_user_pnl :
      Option (String → Result String Pnl) → Headers → String → ℕ × PnlBody Pnl
  get_user_pnl client h path =
      let user_id = resolve_pnl_user_id h path in
      if user_id == ""
      then (400, error "userId is required")
      else elim (fetch_user_pnl client user_id) [
        | ok r ↦ (200, response r)
        | err e ↦
            if e.is_unavailable
            then (503, error "portfolio service unavailable")
            else (502, error "portfolio lookup failed")
      ]

  -- `GetUserPnL` answers 400 when neither the gateway nor the path names a customer, and otherwise
  -- 200 with what portfolio-service answered for that customer, or 503 when there is no answer: it
  -- never answers 502.
  pub get_user_pnl_outcome :
      (client : Option (String → Result String Pnl)) (h : Headers) (path : String)
      → let user_id = resolve_pnl_user_id h path in
        let reply = get_user_pnl client h path in
        ((user_id ≡ "") × (reply ≡ (400, error "userId is required")))
        ⊎ ((user_id ≢ "")
            × ((rpc : String → Result String Pnl) × (r : Pnl) × (client ≡ some rpc)
                × (rpc user_id ≡ ok r)
                × (reply ≡ (200, response r))))
        ⊎ ((user_id ≢ "")
            × ((rpc : String → Result String Pnl) (r : Pnl)
                → client ≡ some rpc
                → rpc user_id ≢ ok r)
            × (reply ≡ (503, error "portfolio service unavailable")))
  unfolding get_user_pnl fetch_user_pnl
  get_user_pnl_outcome client h path = elim (text-cases (resolve_pnl_user_id h path) "") [
    | inl empty ↦ inl (empty, rw (empty, get_user_pnl) refl)
    | inr named ↦
        let present = ==-false (resolve_pnl_user_id h path) "" named in
        elim (Option-cases client) [
          | inl absent ↦
              inr
                (inr (present, λ rpc r there answered. cc (absent, there), rw (named, absent) refl))
          | inr (rpc, here) ↦ elim (Result-cases (rpc (resolve_pnl_user_id h path))) [
            | inl (r, q) ↦ inr (inl (present, (rpc, r, here, q, rw (named, here, q) refl)))
            | inr (e, q) ↦ inr (
                inr (
                  present,
                  λ rpc₂ r there answered. cc (here, there, answered, q),
                  rw (named, here, q) refl,
                ))
          ]
        ]
  ]
