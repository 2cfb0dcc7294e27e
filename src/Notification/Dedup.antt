-- ===== src/Notification/Dedup.antt =====
-- The set of handled events, notification-service/internal/service/notifier.go.
use fund_kit.Base.{
  ℕ, ◌≤◌, String, List, [], ◌∷◌, ◌≡◌, ◌≢◌, true, false, eq_refl, arith, length, contains,
  if◌then◌else◌, Result, ok, Result-cases, Bool-cases, inl, inr, ◌∙◌, text-ne,
}
use fund_kit.Base.Int.{ℤ}
use fund_kit.Portfolio.Position.{EventError}
use fund_kit.Notification.Event.{OrderEvent, validate}
use fund_kit.Notification.Notifier.{
  Channel, State, already_handled, notify, handle, seen_cap, is_unrelated,
}

abbrev IsDistinct : List String → Type 0
IsDistinct [] = Unit
IsDistinct (x ∷ xs) = (contains x xs ≡ false) × IsDistinct xs

-- The map holds no key twice and no more keys than its capacity.
abbrev pub IsBounded : List String → Type 0
IsBounded seen = IsDistinct seen × (length seen ≤ seen_cap)

pub already_handled-IsBounded :
    (id : String) (seen : List String) → IsBounded seen → IsBounded (already_handled id seen).1
unfolding already_handled
already_handled-IsBounded id seen h = ground arith

already_handled_twice :
    (id : String) (seen : List String)
    → id ≢ ""
    → already_handled id (already_handled id seen).1 ≡ (true, (already_handled id seen).1)
unfolding already_handled
already_handled_twice id seen h = ground (arith, text-ne id "" h, eq_refl id)

module _ {W : Type 0} (channels : List (Channel W)) (money : ℤ → String) where
  notify-seen : (e : OrderEvent) (s : State W) → (notify channels money e s).1.seen ≡ s.seen
  unfolding notify
  notify-seen e s = ground arith

  -- `Handle` past its guards.
  unique : OrderEvent → State W → Result EventError ℕ × State W
  unique e s =
      let (duplicate, seen') = already_handled e.event_id s.seen in
      let t = record s { seen = seen' } in
      if duplicate then (ok 0, t) else notify channels money e t

  handle-unique :
      (e : OrderEvent) (s : State W)
      → is_unrelated e.event_type ≡ false
      → validate e ≡ ok tt
      → handle channels money e s ≡ unique e s
  unfolding handle unique
  handle-unique e s related valid = rw (related, valid)

  unique-seen :
      (e : OrderEvent) (s : State W) → (unique e s).1.seen ≡ (already_handled e.event_id s.seen).1
  unfolding unique
  unique-seen e s = elim (Bool-cases (already_handled e.event_id s.seen).0) [
    | inl known ↦ rw known
    | inr new ↦ rw new (notify-seen e (record s { seen = (already_handled e.event_id s.seen).1 }))
  ]

  unique_known :
      (e : OrderEvent) (s : State W)
      → already_handled e.event_id s.seen ≡ (true, s.seen)
      → unique e s ≡ (ok 0, s)
  unfolding unique
  unique_known e s h = rw h

  -- However the first call for an event ends, delivered or failed, a second call answers success,
  -- sends nothing and changes nothing, if the event is related and valid and has an id.
  pub handle_twice :
      (e : OrderEvent) (s : State W)
      → is_unrelated e.event_type ≡ false
      → validate e ≡ ok tt
      → e.event_id ≢ ""
      → let s' = (handle channels money e s).1 in handle channels money e s' ≡ (ok 0, s')
  handle_twice e s related valid named =
      rw (handle-unique e s related valid)
        (handle-unique e (unique e s).1 related valid ∙ unique_known e (unique e s).1 again)
    where
      again : already_handled e.event_id (unique e s).1.seen ≡ (true, (unique e s).1.seen)
      again = rw (unique-seen e s) (already_handled_twice e.event_id s.seen named)

  -- `Handle` keeps the list of handled events free of repeats and within its capacity.
  pub handle-IsBounded :
      (e : OrderEvent) (s : State W)
      → IsBounded s.seen
      → IsBounded (handle channels money e s).1.seen
  unfolding handle
  handle-IsBounded e s h = elim (Bool-cases (is_unrelated e.event_type)) [
    | inl unrelated ↦ rw (unrelated, handle) h
    | inr related ↦ elim (Result-cases (validate e)) [
      | inr (x, p) ↦ rw (related, p, handle) h
      | inl (u, p) ↦
          rw (handle-unique e s related p, unique-seen e s)
            (already_handled-IsBounded e.event_id s.seen h)
    ]
  ]
