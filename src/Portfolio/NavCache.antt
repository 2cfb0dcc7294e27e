-- ===== src/Portfolio/NavCache.antt =====
-- The ports of the portfolio service: the NAV cache over Redis,
-- portfolio-service/internal/cache/redis.go, and the simulated feed,
-- portfolio-service/internal/repository/nav_source.go.
use Prim.Native.String.{◌++◌}
use fund_kit.Base.{ℕ, ◌%◌, String, Option, none, some, ◌==◌, if◌then◌else◌, Result, ok, err}
use fund_kit.Base.Int.{pos}
use fund_kit.Portfolio.Float.{Float64}

-- The two Redis commands that the cache sends, and strconv on a float64 of four decimals.
pub record NavStore (f : Float64) : Type 1 where
  pub Cache : Type 0
  -- `GET key`; `none` is `redis.Nil`
  pub get : String → Cache → Result String (Option String) × Cache
  -- `SET key value EX ttl`
  pub set : String → String → ℕ → Cache → Result String (Unit {0}) × Cache
  pub parse_float : String → Option f.F
  pub format_float : f.F → String

unfoldable pub nav_key : String → String
nav_key fund_id = "fundkit:nav:" ++ fund_id

module _ (f : Float64) (r : NavStore f) (ttl : ℕ) where
  open f use {F}
  open r use {Cache}

  -- `GetNAV`: a price, a miss, or an error.
  unfoldable pub get_nav : String → Cache → Result (Unit {0}) (Option F) × Cache
  unfolding nav_key
  get_nav fund_id c =
      let (answer, c') = r.get (nav_key fund_id) c in
      elim answer [
        | err text ↦ (err tt, c')
        | ok none ↦ (ok none, c')
        | ok (some text) ↦ elim (r.parse_float text) [
          | none ↦ (err tt, c')
          | some price ↦ (ok (some price), c')
        ]
      ]

  -- `SetNAV`.
  unfoldable pub set_nav : String → F → Cache → Result String (Unit {0}) × Cache
  unfolding nav_key
  set_nav fund_id price c = r.set (nav_key fund_id) (r.format_float price) ttl c

-- The numbers of the feed: `of_decimal m e` is the literal m / 10 ^ e, and `round` is `math.Round`.
module _ (f : Float64) (of_decimal : ℕ → ℕ → f.F) (round : f.F → f.F) where
  open f use {F}

  unfoldable pub round_nav : F → F
  round_nav price = f.div (round (f.mul price (of_decimal 100 0))) (of_decimal 100 0)

  -- `NewNAVSource`'s prices, and the one of `Fetch` for any other fund.
  unfoldable pub base_price : String → F
  base_price fund_id =
      if fund_id == "fund-axi-blue"
      then of_decimal 12545 2
      else (if fund_id == "fund-icici-growth"
          then of_decimal 9820 2
          else (if fund_id == "fund-hdfc-top" then of_decimal 16010 2 else of_decimal 10000 2))

  -- `Fetch`, at a Unix time.
  unfoldable pub fetch : ℕ → String → F
  unfolding round_nav base_price
  fetch now fund_id =
      round_nav (f.add (base_price fund_id) (f.mul (f.of_int (pos (now % 7))) (of_decimal 12 2)))
