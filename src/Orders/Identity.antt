-- ===== src/Orders/Identity.antt =====
-- The identity that the gateway forwards, as order-service reads it,
-- order-service/internal/handler/identity.go.
use fund_kit.Base.{String, ◌==◌, if◌then◌else◌}
use fund_kit.Http.{Headers, get_header}

abbrev pub header_user_id : String
header_user_id = "x-fundkit-user-id"

abbrev pub header_username : String
header_username = "x-fundkit-username"

abbrev pub header_user_email : String
header_user_email = "x-fundkit-user-email"

abbrev pub header_user_phone : String
header_user_phone = "x-fundkit-user-phone"

abbrev pub header_user_name : String
header_user_name = "x-fundkit-user-name"

pub record CallerIdentity : Type 0 where
  pub user_id : String
  pub username : String
  pub email : String
  pub phone : String
  pub full_name : String

unfoldable pub identity_from_headers : Headers → CallerIdentity
identity_from_headers h = record {
  user_id = get_header h header_user_id;
  username = get_header h header_username;
  email = get_header h header_user_email;
  phone = get_header h header_user_phone;
  full_name = get_header h header_user_name;
}

unfoldable pub display_name : CallerIdentity → String
display_name i = if i.full_name == "" then i.username else i.full_name
