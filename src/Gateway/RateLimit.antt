-- ===== src/Gateway/RateLimit.antt =====
-- `RateLimiter`, api-gateway/internal/middleware/ratelimit.go, over the token bucket of
-- golang.org/x/time/rate. Times are counts of ticks. A client is its entry in the map; a request that
-- is not allowed is answered with 429.
use fund_kit.Base.{
  ℕ, ◌+◌, ◌-◌, ◌≤◌, String, List, [], ◌∷◌, Option, none, some, ◌≡◌, Bool, ltb, if◌then◌else◌,
  update,
}

-- `rate.NewLimiter` with the configured rate and burst, and `Allow` at a time. `IsUsedAt l t` says that
-- the last call of `Allow` on `l` was at `t`.
pub record Bucket : Type 1 where
  pub Limiter : Type 0
  pub IsUsedAt : Limiter → ℕ → Type 0
  pub new_limiter : Limiter
  pub allow : ℕ → Limiter → Bool × Limiter

-- A bucket that was last used so long ago that it is full again is like a new one.
pub record IsLawfulBucket (b : Bucket) (refill : ℕ) : Type 0 where
  pub used : (now : ℕ) (l : b.Limiter) → b.IsUsedAt (b.allow now l).1 now
  pub refilled :
      (l : b.Limiter) (last now : ℕ)
      → b.IsUsedAt l last
      → last + refill ≤ now
      → b.allow now l ≡ b.allow now b.new_limiter

module _ (b : Bucket) where
  pub record ClientLimiter : Type 0 where
    pub limiter : b.Limiter
    pub last_seen : ℕ

  abbrev pub Clients : Type 0
  Clients = String → Option ClientLimiter

  abbrev pub limiter_of : Option ClientLimiter → b.Limiter
  limiter_of none = b.new_limiter
  limiter_of (some c) = c.limiter

  -- `allow`: `seen` is the time that is read under the lock, and `now` that of the call of `Allow`.
  unfoldable pub allow : String → ℕ → ℕ → Clients → Bool × Clients
  allow ip seen now clients =
      let (allowed, l) = b.allow now (limiter_of (clients ip)) in
      (allowed, update clients ip (some (record { limiter = l; last_seen = seen })))

  -- One tick of `reapIdleClients`, for one entry of the map and for all.
  unfoldable pub kept : ℕ → ℕ → Option ClientLimiter → Option ClientLimiter
  kept ttl now none = none
  kept ttl now (some c) = if ltb ttl (now - c.last_seen) then none else some c

  unfoldable pub reap_idle_clients : ℕ → ℕ → Clients → Clients
  unfolding kept
  reap_idle_clients ttl now clients ip = kept ttl now (clients ip)

-- What happens to the limiter: a request from an address, or a tick of the janitor.
pub data Event : Type 0 where
  request : String → ℕ → ℕ → Event
  tick : ℕ → Event

module _ (b : Bucket) (ttl : ℕ) where
  -- The answers to the requests, in order.
  unfoldable pub answers : List Event → Clients b → List Bool
  unfolding allow reap_idle_clients
  answers [] clients = []
  answers (request ip seen now ∷ es) clients =
      let (allowed, next) = allow b ip seen now clients in allowed ∷ answers es next
  answers (tick now ∷ es) clients = answers es (reap_idle_clients b ttl now clients)
