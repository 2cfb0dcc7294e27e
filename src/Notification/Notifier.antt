-- ===== src/Notification/Notifier.antt =====
-- `Notifier` and its channels, notification-service/internal/service/{notifier,channels}.go. `seen`
-- lists the keys of the map, newest first. A provider has a state `W`, such as what it has sent.
-- Logging is left out.
use Prim.Native.String.{◌++◌ as append}
use fund_kit.Base.{
  ℕ, ◌+◌, String, List, [], ◌∷◌, Bool, true, false, not, ◌&&◌, ◌==◌, leb, length, contains,
  if◌then◌else◌, Result, ok, err,
}
use fund_kit.Base.Int.{ℤ}
use fund_kit.Portfolio.Position.{EventError, transient}
use fund_kit.Notification.Event.{OrderEvent, Recipient, recipient, is_terminal, validate}

pub record Alert : Type 0 where
  pub subject : String
  pub body : String

pub data SendError : Type 0 where
  no_address provider_failure : SendError

-- The port `Channel`.
pub record Channel (W : Type 0) : Type 0 where
  pub name : String
  pub send : Recipient → Alert → W → Result SendError (Unit {0}) × W

-- `LogChannel.Send`; `emit` is the structured record that it logs.
unfoldable pub log_channel :
    {W : Type 0} → String → (Recipient → String) → (String → Alert → W → W) → Channel W
log_channel name address emit = record {
  name = name;
  send = λ r a w. if address r == "" then (err no_address, w) else (ok tt, emit (address r) a w);
}

-- `NewEmailChannel` and `NewSMSChannel`.
unfoldable pub email_channel : {W : Type 0} → (String → Alert → W → W) → Channel W
unfolding log_channel
email_channel emit = log_channel "email" (λ r. r.email) emit

unfoldable pub sms_channel : {W : Type 0} → (String → Alert → W → W) → Channel W
unfolding log_channel
sms_channel emit = log_channel "sms" (λ r. r.phone) emit

-- `fmt.Sprintf` of the subject and the body; `money` is `Money.String`.
unfoldable pub alert_of : (ℤ → String) → OrderEvent → Alert
alert_of money e = record {
  subject = append "FundKit order " (append e.order.id (append " is " e.order.status));
  body = append "Dear " (
      append (recipient e.order).name (
        append ",\nYour " (
          append e.order.type (
            append " order for " (
              append e.order.fund_id (
                append " (amount " (
                  append (money e.order.amount) (
                    append ") is now "
                      (append e.order.status ".\nThank you for using FundKit.")))))))));
}

abbrev pub seen_cap : ℕ
seen_cap = 10_000

-- `alreadyHandled`: the answer, and the map after it.
unfoldable pub already_handled : String → List String → Bool × List String
already_handled event_id seen =
    if event_id == ""
    then (false, seen)
    else if contains event_id seen
    then (true, seen)
    else (false, event_id ∷ (if leb seen_cap (length seen) then [] else seen))

pub record State (W : Type 0) : Type 0 where
  pub seen : List String
  pub world : W

-- The guard of `Handle`: a type is given, and it is another one.
unfoldable pub is_unrelated : String → Bool
is_unrelated event_type = not (event_type == "") && not (event_type == "order.status_changed")

module _ {W : Type 0} where
  -- The loop over the channels: how many delivered, or a provider's failure.
  unfoldable pub dispatch : List (Channel W) → Recipient → Alert → ℕ → W → Result EventError ℕ × W
  dispatch [] r a delivered w = (ok delivered, w)
  dispatch (c ∷ cs) r a delivered w =
      let (sent, w') = c.send r a w in
      elim sent [
        | ok done ↦ dispatch cs r a (delivered + 1) w'
        | err no_address ↦ dispatch cs r a delivered w'
        | err provider_failure ↦ (err transient, w')
      ]

  -- `Handle` below the duplicate check.
  unfoldable pub notify :
      List (Channel W) → (ℤ → String) → OrderEvent → State W → Result EventError ℕ × State W
  notify channels money e s =
      if not (is_terminal e.order)
      then (ok 0, s)
      else (let (r, w') = dispatch channels (recipient e.order) (alert_of money e) 0 s.world in
          (r, record s { world = w' }))

  -- `Handle`; a success carries the number of channels that delivered.
  unfoldable pub handle :
      List (Channel W) → (ℤ → String) → OrderEvent → State W → Result EventError ℕ × State W
  handle channels money e s = if is_unrelated e.event_type then (ok 0, s) else elim (validate e) [
    | err x ↦ (err x, s)
    | ok valid ↦
        let (duplicate, seen') = already_handled e.event_id s.seen in
        let t = record s { seen = seen' } in
        if duplicate then (ok 0, t) else notify channels money e t
  ]
