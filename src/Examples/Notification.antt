-- ===== src/Examples/Notification.antt =====
-- A failed order's alert, and a provider that fails on its first call.
use fund_kit.Base.{
  ℕ, suc, ◌+◌, ◌*◌, ◌^◌, ◌≤◌, Option, codes, length, arith, String, List, [], ◌∷◌, some, ◌≡◌, ◌≢◌,
  refl, ok, err, false, eqb, if◌then◌else◌, ==-false,
}
use fund_kit.Base.Int.{ℤ, pos}
use fund_kit.Portfolio.Position.{transient}
use fund_kit.Consumer
use fund_kit.Consumer.{offset_of, Fetched, fetched, stopped, failed}
use fund_kit.Notification.Event.{OrderEvent, validate, is_terminal}
use fund_kit.Notification.Notifier.{
  Channel, State, provider_failure, handle, notify, dispatch, is_unrelated, already_handled,
}
use fund_kit.Notification.DeadLetters.{Publisher}
use fund_kit.Notification.Consumer.{Worker, handle_with_retries, process, run}
use fund_kit.Notification.Agreement.{view, with_publisher, consumers_agree}
use fund_kit.Notification.Counting.{AreCounted, run-AreCounted}
use fund_kit.Notification.Waits.{total, handle_with_retries-waits}
use fund_kit.Notification.Delivery.{failed_alert_committed}
use fund_kit.Examples.Consumer.{surroundings, message}

abbrev event : OrderEvent
event = record {
  event_id = "e1";
  event_type = "order.status_changed";
  version = 2;
  occurred_at = 1;
  request_id = "r";
  order = record {
    id = "o1";
    user_id = "u1";
    user_name = "Asha";
    user_email = "asha@example.com";
    user_phone = "";
    fund_id = "F001";
    amount = pos 50000;
    type = "BUY";
    status = "FAILED";
  };
}

-- The provider's state counts its calls.
abbrev email : Channel ℕ
email = record {
  name = "email";
  send = λ r a n. (if eqb n 0 then err provider_failure else ok tt, suc n);
}

abbrev channels : List (Channel ℕ)
channels = email ∷ []

abbrev money : ℤ → String
money amount = "500.00"

abbrev at_start : State ℕ
at_start = record { seen = []; world = 0 }

related : is_unrelated event.event_type ≡ false
unfolding is_unrelated
related = refl

valid : validate event ≡ ok tt
unfolding validate
valid = refl

named : event.event_id ≢ ""
named = ==-false "e1" "" refl

provider_fails : (handle channels money event at_start).0 ≡ err transient
unfolding handle is_unrelated validate already_handled notify is_terminal dispatch
provider_fails = refl

abbrev configured : Publisher
configured = record { topic = "order_events_dlq"; group = codes "notification-service" }

abbrev publisher : Option Publisher
publisher = some configured

abbrev worker : Worker (State ℕ)
worker = record {
  inner = at_start;
  recorder = some (record {
    consumed_success = 0;
    consumed_error = 0;
    consumed_dead_lettered = 0;
    retries = 0;
    unparseable = 0;
    permanent = 0;
    exhausted = 0;
    dlq_failures = 0;
  });
  waits = [];
  parked = [];
  committed = [];
}

abbrev decode : List ℕ → Option OrderEvent
decode bytes = some event

failed_alert_committed_example :
    let s' =
      process (handle channels money) publisher decode 3 (pos 200) surroundings message worker in
    (s'.committed ≡ offset_of message ∷ [])
    × (s'.parked ≡ [])
    × (s'.inner ≡ (handle channels money event at_start).1)
failed_alert_committed_example =
    failed_alert_committed channels money publisher decode (pos 200) surroundings message event 2
      worker refl related valid named provider_fails refl refl

consumers_agree_example :
    view
      (handle channels money)
      (process (handle channels money) publisher decode 3 (pos 200) surroundings message worker)
    ≡ Consumer.process
        (handle channels money)
        decode
        3
        (with_publisher publisher surroundings)
        message
        (view (handle channels money) worker)
consumers_agree_example =
    consumers_agree (handle channels money) publisher decode 3 (pos 200) surroundings message worker

abbrev stream : List Fetched
stream = fetched surroundings message ∷ failed ∷ fetched surroundings message ∷ stopped ∷ []

run-AreCounted_example :
    AreCounted 2 (run (handle channels money) publisher decode 3 (pos 200) stream worker)
run-AreCounted_example =
    run-AreCounted (handle channels money) configured decode 3 (pos 200) stream 0 worker
      (_, refl, omega arith)

handle_with_retries-waits_example :
    let (r, n, s') =
      handle_with_retries (handle channels money) publisher surroundings event 3 (pos 200) worker in
    (k : ℕ) × (more : List ℤ) × (n ≡ suc k)
    × (k ≤ 3)
    × (s'.waits ≡ more)
    × (length more ≡ k)
    × (total more + 200 ≡ 200 * 2 ^ k)
    × (total more + 200 ≤ 1600)
handle_with_retries-waits_example =
    handle_with_retries-waits (handle channels money) publisher surroundings event 3 200 worker
      (omega arith)
