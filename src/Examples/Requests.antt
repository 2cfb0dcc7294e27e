-- ===== src/Examples/Requests.antt =====
-- The requests and states that the runs of the order service start from.
use fund_kit.Base.{[], none}
use fund_kit.Base.Int.{pos}
use fund_kit.Orders.Domain.{Order, NewOrder, Minted}
use fund_kit.Orders.Service.{State, order_of, place}
use fund_kit.Examples.Tables.{Tables, postgres}
use fund_kit.Examples.Keys.{redis}

abbrev pub minted : Minted
minted = record { event_id = "e1"; now = 7; request_id = "r1"; marshal_error = none }

abbrev pub minted_later : Minted
minted_later = record { event_id = "e2"; now = 9; request_id = "r2"; marshal_error = none }

abbrev pub buy : NewOrder
buy = record {
  user_id = "u1";
  user_name = "Asha";
  user_email = "asha@example.com";
  user_phone = "";
  fund_id = "F001";
  amount = pos 50000;
  type = "BUY";
  idempotency_key = "k1";
}

abbrev pub empty_tables : Tables
empty_tables = record { rows = []; events = []; clock = 1 }

abbrev pub empty : State postgres redis
empty = record { db = empty_tables; cache = λ key. none; in_flight = [] }

abbrev pub placed : State postgres redis
placed = (place postgres redis 600 "o1" minted buy empty).1

abbrev pub stored : Order
stored = record (order_of buy) { id = "o1"; created_at = 1; updated_at = 1 }
