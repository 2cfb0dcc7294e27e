-- ===== src/Examples/Holdings.antt =====
-- A customer who asks for the portfolio of another one.
use fund_kit.Gateway.Identity.{caller_of}
use fund_kit.Portfolio.Service.{price_of}
use fund_kit.Portfolio.Service.{resolve_nav}
use fund_kit.Portfolio.Service.{fetch_nav}
use fund_kit.Portfolio.Service.{valuate_loop}
use fund_kit.Portfolio.Ledger.{list_by_user}
use fund_kit.Portfolio.Position.{value}
use fund_kit.Portfolio.Position.{add}
use fund_kit.Portfolio.Position.{paise_from_product}
use fund_kit.Base.Int.{wrap64}
use fund_kit.Base.Int.{◌+ℤ◌}
use fund_kit.Base.{[], ◌∷◌, ◌≡◌, refl, some, ◌==◌, if◌then◌else◌}
use fund_kit.Base.Int.{pos}
use fund_kit.Orders.Pnl.{response, get_user_pnl}
use fund_kit.Portfolio.Service.{State, valuate}
use fund_kit.Portfolio.Grpc.{to_pnl_response}
use fund_kit.Gateway.Holdings.{serve, forwarded_pnl-IsCallers}
use fund_kit.Examples.Accounts.{jwt, proxy, proxy-IsLawful, auth_config}
use fund_kit.Examples.Gateway.{headers, admitted, passed, identity_kept}
use fund_kit.Examples.Portfolio.{thousandths, feed, empty}

-- One holding of `u1`, at a price of 50 rupees.
abbrev holdings : State thousandths feed
holdings = record {
  ledger = record empty {
    by_user = λ user.
        if user == "u1"
        then record {
          fund_id = "F001";
          fund_name = "Fund";
          units = 10_000;
          invested_amount = pos 40_000;
        }
          ∷ []
        else [];
  };
  world = tt;
}

-- It is worth 500 rupees.
valued : (valuate thousandths feed "u1" holdings).0.total_value ≡ pos 50_000
unfolding valuate valuate_loop list_by_user add wrap64 ◌+ℤ◌ value paise_from_product price_of
    resolve_nav fetch_nav
valued = refl

forwarded_pnl-IsCallers_example :
    get_user_pnl (some (serve thousandths feed holdings)) (proxy.forward admitted) "u9"
    ≡ (200, response (to_pnl_response thousandths (valuate thousandths feed "u1" holdings).0))
unfolding caller_of
forwarded_pnl-IsCallers_example =
    forwarded_pnl-IsCallers thousandths feed jwt proxy proxy-IsLawful auth_config.jwt_secret
      (pos 200) (headers "u9" []) passed identity_kept "u9" holdings
