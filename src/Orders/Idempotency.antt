-- ===== src/Orders/Idempotency.antt =====
-- Requests that share an idempotency key: `Place` of order-service/internal/service/order_service.go,
-- called again and again.
use fund_kit.Base.{
  ℕ, ◌+◌, ◌≤◌, String, List, [], ◌∷◌, some, ◌≡◌, refl, sym, subst, inl, inr, arith, true, false,
  Result, ok, err, Result-cases,
}
use fund_kit.Orders.Domain.{Order, NewOrder, OrderError, Minted}
use fund_kit.Orders.Database.{Database, IsLawful}
use fund_kit.Orders.Reservation.{Redis, IsLawfulRedis, idempotency_key, claim_idempotency}
use fund_kit.Orders.Service.{State, place}
use fund_kit.Orders.Outcomes.{place_outcome}

-- `SET … NX` does not change a key that is held, whatever it answers.
pub record LeavesHeldKeys (r : Redis) : Type 0 where
  pub kept :
      (k v : String) (ttl : ℕ) (c : r.Cache) {w : String}
      → r.held c k ≡ some w
      → r.held (r.set_nx k v ttl c).1 k ≡ some w

module _ (d : Database) (c : Redis) where
  -- A call of `Place`, and what others do before it.
  pub record Attempt : Type 0 where
    pub uuid : String
    pub minted : Minted
    pub input : NewOrder
    pub others : State d c → State d c

  -- The reservation of the key has neither expired nor been released.
  abbrev pub IsReserved : String → State d c → Type 0
  IsReserved key s = (value : String) × (c.held s.cache (idempotency_key key) ≡ some value)

  -- The attempts are for this key, and the others between them keep its reservation.
  abbrev pub AreFor : String → List Attempt → Type 0
  AreFor key [] = Unit
  AreFor key (a ∷ attempts) =
      (a.input.idempotency_key ≡ key)
      × ((s : State d c) → IsReserved key s → IsReserved key (a.others s))
      × AreFor key attempts

  abbrev pub is_placed : Result OrderError Order → ℕ
  is_placed (ok row) = 1
  is_placed (err e) = 0

  module _ (ttl : ℕ) where
    -- How many of the attempts, made one after the other, are answered with an order.
    unfoldable pub placed_count : List Attempt → State d c → ℕ
    placed_count [] s = 0
    placed_count (a ∷ attempts) s =
        let (r, s') = place d c ttl a.uuid a.minted a.input (a.others s) in
        is_placed r + placed_count attempts s'

module _ (d : Database) (c : Redis) (ttl : ℕ) (lawful : IsLawful d) (sound : IsLawfulRedis c)
    (leaves : LeavesHeldKeys c) where
  place_refuses_held :
      (uuid : String) (m : Minted) (input : NewOrder) (s : State d c)
      → IsReserved d c input.idempotency_key s
      → let (r, s') = place d c ttl uuid m input s in
        (is_placed d c r ≡ 0) × IsReserved d c input.idempotency_key s'
  unfolding place claim_idempotency
  place_refuses_held uuid m input s (value, held) =
      let key = idempotency_key input.idempotency_key in
      let claim = claim_idempotency c ttl input.idempotency_key s.cache in
      let still = leaves.kept key "processing" ttl s.cache held in
      elim (Result-cases claim.0) [
        | inr (e, p) ↦ (rw (p, place) refl, (value, rw (p, place) still))
        | inl (false, p) ↦ (rw (p, place) refl, (value, rw (p, place) still))
        | inl (true, p) ↦
            let taken = sound.set_nx_taken key "processing" ttl s.cache (λ i. (p i, claim.1)) in
            absurd (cc (taken.0, held))
      ]

  -- Once the key is reserved, no attempt is answered with an order.
  placed_count_none :
      (key : String) (attempts : List (Attempt d c)) (s : State d c)
      → AreFor d c key attempts
      → IsReserved d c key s
      → placed_count d c ttl attempts s ≡ 0
  unfolding placed_count
  placed_count_none key [] s h reserved = refl
  placed_count_none key (a ∷ attempts) s (same, keeps, h) reserved =
      let t = a.others s in
      let (none_placed, still) =
        place_refuses_held a.uuid a.minted a.input t
          (subst (λ k. IsReserved d c k t) (sym same) (keeps s reserved)) in
      let s' = (place d c ttl a.uuid a.minted a.input t).1 in
      let later =
        placed_count_none key attempts s' h (subst (λ k. IsReserved d c k s') same still) in
      rw (none_placed, later) (omega arith)

  -- Over a database and a Redis that behave as documented, however often `Place` is called with one
  -- idempotency key, at most one of the calls is answered with an order, as long as what others do
  -- between the calls keeps a reservation of the key that is held.
  pub one_order_per_key :
      (key : String) (attempts : List (Attempt d c)) (s : State d c)
      → AreFor d c key attempts
      → placed_count d c ttl attempts s ≤ 1
  unfolding placed_count
  one_order_per_key key [] s h = omega arith
  one_order_per_key key (a ∷ attempts) s (same, keeps, h) =
      let t = a.others s in
      let s' = (place d c ttl a.uuid a.minted a.input t).1 in
      elim (place_outcome d c ttl lawful sound a.uuid a.minted a.input t) [
        | inl (row, q, (created, held, started)) ↦
            let later =
              placed_count_none key attempts s' h
                (subst (λ k. IsReserved d c k s') same ("processing", held)) in
            rw (q, later) (omega arith)
        | inr (inl (refused, q, unstored, unheld)) ↦
            let ih = one_order_per_key key attempts s' h in rw q (omega (arith, ih))
        | inr (inr (e, q, rest)) ↦
            let ih = one_order_per_key key attempts s' h in rw q (omega (arith, ih))
      ]
