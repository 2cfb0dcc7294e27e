-- ===== src/Orders/Placing.antt =====
-- The order that a request to `POST /orders` is answered with
-- (order-service/internal/handler/order_handler.go).
use fund_kit.Base.{
  ℕ, String, List, ◌≡◌, sym, ap, ◌∙◌, subst, refl, ◌≢◌, inl, inr, true, ◌==◌, Result, ok, err,
  ok-injective, Bool-cases, ==-false,
}
use fund_kit.Http.{Headers}
use fund_kit.Orders.Domain.{Order, NewOrder, OrderError, Minted, before_create}
use fund_kit.Orders.Database.{Database, IsLawful, IsStored}
use fund_kit.Orders.Reservation.{Redis, IsLawfulRedis}
use fund_kit.Orders.Service.{State, order_of, place}
use fund_kit.Orders.Outcomes.{IsPlaced, place_outcome}
use fund_kit.Orders.Identity.{CallerIdentity, identity_from_headers, display_name}
use fund_kit.Orders.Handlers.{
  CreateOrderRequest, order, create_order, new_order_of, resolve_order_user_id, is_valid_create,
  write_domain_error, answer,
}

abbrev IsFor : NewOrder → Order → Type 0
IsFor input row =
    (row.user_id ≡ input.user_id)
    × (row.user_email ≡ input.user_email)
    × (row.user_phone ≡ input.user_phone)
    × (row.user_name ≡ input.user_name)

stored-customer :
    (d : Database) (uuid : String) (input : NewOrder) (row : Order)
    → IsStored d (before_create uuid (order_of input)) row
    → IsFor input row
unfolding before_create order_of
stored-customer d uuid input row (t, u, e) = (
  ap (λ r. r.user_id) e,
  ap (λ r. r.user_email) e,
  ap (λ r. r.user_phone) e,
  ap (λ r. r.user_name) e,
)

order-injective : {o p : Order} → order o ≡ order p → o ≡ p
order-injective h = cc

-- Only a success is answered with an order.
answer-created :
    (r : Result OrderError Order) {row : Order}
    → answer (λ o. record { status = 201; body = order o }) r
      ≡ record { status = 201; body = order row }
    → r ≡ ok row
unfolding write_domain_error
answer-created (ok o) h = ap ok (order-injective (ap (λ x. x.body) h))
answer-created (err OrderError.order_not_found) h = absurd (cc)
answer-created (err OrderError.duplicate_order) h = absurd (cc)
answer-created (err OrderError.order_not_cancelable) h = absurd (cc)
answer-created (err OrderError.invalid_transition) h = absurd (cc)
answer-created (err (OrderError.infrastructure text)) h = absurd (cc)

-- An order was created from this request and is the row `row`.
abbrev pub IsCreatedFrom : CallerIdentity → CreateOrderRequest → Order → Type 0
IsCreatedFrom caller request row =
    (row.user_id ≡ resolve_order_user_id caller request)
    × (row.user_id ≢ "")
    × (row.user_email ≡ caller.email)
    × (row.user_phone ≡ caller.phone)
    × (row.user_name ≡ display_name caller)

module _ (d : Database) (c : Redis) (ttl : ℕ) where
  -- The order of the answer is the one that `Place` returned.
  pub create_order-place :
      (uuid : String) (m : Minted) (invalid : List ℕ) (h : Headers)
      (body : Result (List ℕ) CreateOrderRequest) (s : State d c) {row : Order} {s' : State d c}
      → create_order d c ttl uuid m invalid h body s
        ≡ (record { status = 201; body = order row }, s')
      → (request : CreateOrderRequest) × (body ≡ ok request)
        × (is_valid_create request ≡ true)
        × let user_id = resolve_order_user_id (identity_from_headers h) request in
          (user_id ≢ "")
          × (place d c ttl uuid m (new_order_of (identity_from_headers h) user_id request) s
              ≡ (ok row, s'))
  unfolding create_order
  create_order-place uuid m invalid h (err text) s e = absurd (cc)
  create_order-place uuid m invalid h (ok request) s {row} {s'} e =
      elim (Bool-cases (is_valid_create request)) [
        | inr q ↦ absurd (cc (e, q))
        | inl q ↦
            let user_id = resolve_order_user_id (identity_from_headers h) request in
            let input = new_order_of (identity_from_headers h) user_id request in
            elim (Bool-cases (user_id == "")) [
              | inl empty ↦ absurd (cc (e, q, empty))
              | inr named ↦
                  let e' = rw (q, named, create_order) at e in
                  let made : (place d c ttl uuid m input s).0 ≡ ok row =
                    answer-created _ (ap (λ x. x.0) e') in
                  let after : (place d c ttl uuid m input s).1 ≡ s' = ap (λ x. x.1) e' in
                  (request, refl, q, (==-false user_id "" named, λ i. (made i, after i)))
            ]
      ]

module _ (d : Database) (c : Redis) (ttl : ℕ) (lawful : IsLawful d) (sound : IsLawfulRedis c) where
  -- `Place` returned this order.
  pub place-IsPlaced :
      (uuid : String) (m : Minted) (input : NewOrder) (s : State d c) {row : Order} {s' : State d c}
      → place d c ttl uuid m input s ≡ (ok row, s')
      → IsPlaced d c uuid m input row s s'
  place-IsPlaced uuid m input s {row} {s'} h =
      elim (place_outcome d c ttl lawful sound uuid m input s) [
        | inl (made, q, placed) ↦
            subst (λ x. IsPlaced d c uuid m input x s s') (ok-injective (sym q ∙ ap (λ x. x.0) h))
              (subst (λ x. IsPlaced d c uuid m input made s x) (ap (λ x. x.1) h) placed)
        | inr (inl (refused, q, unchanged, rest)) ↦ absurd (cc (h, q))
        | inr (inr (e, q, rest)) ↦ absurd (cc (h, q))
      ]

  pub create_order-IsCreatedFrom :
      (uuid : String) (m : Minted) (invalid : List ℕ) (h : Headers)
      (body : Result (List ℕ) CreateOrderRequest) (s : State d c) {row : Order} {s' : State d c}
      → create_order d c ttl uuid m invalid h body s
        ≡ (record { status = 201; body = order row }, s')
      → (request : CreateOrderRequest) × (body ≡ ok request)
        × (is_valid_create request ≡ true)
        × IsCreatedFrom (identity_from_headers h) request row
  unfolding new_order_of
  create_order-IsCreatedFrom uuid m invalid h body s {row} e =
      let (request, bound, valid, (named, made)) =
        create_order-place d c ttl uuid m invalid h body s e in
      let user_id = resolve_order_user_id (identity_from_headers h) request in
      let input = new_order_of (identity_from_headers h) user_id request in
      let facts = stored-customer d uuid input row (place-IsPlaced uuid m input s made).0.0 in
      (request, bound, valid, (facts.0, λ z. named (sym facts.0 ∙ z), facts.1, facts.2, facts.3))
