-- ===== src/Config/Env.antt =====
-- Reading one setting, of which each service's internal/config/config.go has a copy. The environment
-- is a function from the name of a variable to its value, which is empty when it is not set.
use Prim.Native.String.{◌++◌}
use fund_kit.Base.{
  ℕ, String, codes, List, [], ◌∷◌, Option, none, some, Bool, true, false, ◌||◌, ◌==◌, if◌then◌else◌,
}
use fund_kit.Base.Int.{ℤ}
use fund_kit.Base.Text.{trim_space, split_commas}
use fund_kit.Base.Decimal.{scan_int}

abbrev pub Env : Type 0
Env = String → String

-- `time.ParseDuration`, in nanoseconds.
abbrev pub ParseDuration : Type 0
ParseDuration = String → Option ℤ

abbrev pub millisecond : ℕ
millisecond = 1000000

abbrev pub second : ℕ
second = 1000000000

abbrev pub minute : ℕ
minute = 60000000000

abbrev pub hour : ℕ
hour = 3600000000000

unfoldable pub env_string : Env → String → String → String → String
env_string env key fallback legacy =
    let value = trim_space (env ("FUNDKIT_" ++ key)) in
    let old = trim_space (env legacy) in
    if value == ""
    then (if legacy == "" then fallback else (if old == "" then fallback else old))
    else value

-- The parts that are not blank, trimmed.
unfoldable pub trimmed_parts : List String → List String
trimmed_parts [] = []
trimmed_parts (p ∷ ps) =
    let rest = trimmed_parts ps in if trim_space p == "" then rest else trim_space p ∷ rest

abbrev pub or_else : List String → List String → List String
or_else fallback [] = fallback
or_else fallback (i ∷ is) = i ∷ is

unfoldable pub env_list : Env → String → List String → String → List String
unfolding env_string trimmed_parts
env_list env key fallback legacy =
    let raw = env_string env key "" legacy in
    if raw == "" then fallback else or_else fallback (trimmed_parts (split_commas raw))

-- The value of a text, or the fallback when it has none.
abbrev pub or_default {ℓ} : {A : Type ℓ} → A → Option A → A
or_default fallback none = fallback
or_default fallback (some parsed) = parsed

unfoldable pub env_duration : ParseDuration → Env → String → ℤ → ℤ
unfolding env_string
env_duration parse env key fallback =
    let raw = env_string env key "" "" in
    if raw == "" then fallback else or_default fallback (parse raw)

unfoldable pub env_int : Env → String → ℤ → ℤ
unfolding env_string
env_int env key fallback =
    let raw = env_string env key "" "" in
    if raw == "" then fallback else or_default fallback (scan_int (codes raw))

-- `strconv.ParseBool`.
unfoldable pub parse_bool : String → Option Bool
parse_bool s =
    if s == "1" || s == "t" || s == "T" || s == "TRUE" || s == "true" || s == "True"
    then some true
    else (if s == "0" || s == "f" || s == "F" || s == "FALSE" || s == "false" || s == "False"
        then some false
        else none)

unfoldable pub env_bool : Env → String → Bool → Bool
unfolding env_string parse_bool
env_bool env key fallback =
    let raw = env_string env key "" "" in
    if raw == "" then fallback else or_default fallback (parse_bool raw)

-- `databaseURL`. `url` is the text of the address that `net/url` builds of a user, a password, a host
-- with its port, a database and an SSL mode.
unfoldable pub database_url : (String → String → String → String → String → String) → Env → String
unfolding env_string
database_url url env =
    let dsn = env_string env "DB_URL" "" "DB_URL" in
    let host = env_string env "DB_HOST" "" "DB_HOST" in
    let name = env_string env "DB_NAME" "" "DB_NAME" in
    let user = env_string env "DB_USER" "" "DB_USER" in
    if dsn == ""
    then (if host == "" || name == "" || user == ""
        then ""
        else url user (env_string env "DB_PASSWORD" "" "DB_PASSWORD")
            (host ++ ":" ++ env_string env "DB_PORT" "5432" "DB_PORT") ("/" ++ name)
            (env_string env "DB_SSLMODE" "disable" "DB_SSLMODE"))
    else dsn

-- `len(list) == 0`.
abbrev pub is_empty : List String → Bool
is_empty [] = true
is_empty (x ∷ xs) = false
