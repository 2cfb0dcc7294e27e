-- ===== src/Orders/Reservation.antt =====
-- The idempotency reservation, order-service/internal/cache/redis.go, over the three Redis
-- commands that it sends. `held` is the value of a key that has not expired.
use Prim.Native.String.{◌++◌}
use fund_kit.Base.{ℕ, String, Option, none, some, ◌≡◌, Bool, true, false, Result, ok, update}
use fund_kit.Orders.Domain.{OrderError}

pub record Redis : Type 1 where
  pub Cache : Type 0
  pub held : Cache → String → Option String
  -- `SET key value EX ttl NX`: whether the key was set
  pub set_nx : String → String → ℕ → Cache → Result OrderError Bool × Cache
  pub set : String → String → ℕ → Cache → Result OrderError (Unit {0}) × Cache
  pub del : String → Cache → Result OrderError (Unit {0}) × Cache

-- What Redis documents of a command that answers. One that fails may have been carried out.
pub record IsLawfulRedis (r : Redis) : Type 1 where
  pub set_nx_taken :
      (k v : String) (ttl : ℕ) (c : r.Cache) {c' : r.Cache}
      → r.set_nx k v ttl c ≡ (ok true, c')
      → (r.held c k ≡ none) × (r.held c' ≡ update (r.held c) k (some v))
  pub set_nx_refused :
      (k v : String) (ttl : ℕ) (c : r.Cache) {c' : r.Cache}
      → r.set_nx k v ttl c ≡ (ok false, c')
      → r.held c' ≡ r.held c
  pub del_lem :
      (k : String) (c : r.Cache) {c' : r.Cache}
      → r.del k c ≡ (ok tt, c')
      → r.held c' ≡ update (r.held c) k none

unfoldable pub idempotency_key : String → String
idempotency_key key = "fundkit:idempotency:" ++ key

module _ (r : Redis) (ttl : ℕ) where
  open r use {Cache}

  unfoldable pub claim_idempotency : String → Cache → Result OrderError Bool × Cache
  unfolding idempotency_key
  claim_idempotency key = r.set_nx (idempotency_key key) "processing" ttl

  unfoldable pub confirm_idempotency : String → Cache → Result OrderError (Unit {0}) × Cache
  unfolding idempotency_key
  confirm_idempotency key = r.set (idempotency_key key) "processed" ttl

  unfoldable pub release_idempotency : String → Cache → Result OrderError (Unit {0}) × Cache
  unfolding idempotency_key
  release_idempotency key = r.del (idempotency_key key)
