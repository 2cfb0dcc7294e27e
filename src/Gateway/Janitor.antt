-- ===== src/Gateway/Janitor.antt =====
-- What the janitor of the rate limiter changes (api-gateway/internal/middleware/ratelimit.go).
use fund_kit.Base.{
  ℕ, ◌+◌, ◌-◌, ◌≤◌, String, List, [], ◌∷◌, Option, none, some, ◌≡◌, refl, sym, ap, ◌∙◌, subst, ◌⊎◌,
  inl, inr, ◌==◌, arith, ltb, update, Bool-cases, ltb→lt, ◌<◌,
}
use fund_kit.Gateway.RateLimit.{
  Bucket, IsLawfulBucket, ClientLimiter, Clients, limiter_of, allow, kept, reap_idle_clients, Event,
  request, tick, answers,
}

-- The requests alone.
unfoldable pub requests : List Event → List Event
requests [] = []
requests (request ip seen now ∷ es) = request ip seen now ∷ requests es
requests (tick now ∷ es) = requests es

-- The times go forward from `t`, and a request calls `Allow` at most `lag` after it was seen.
abbrev pub IsOrdered : ℕ → ℕ → List Event → Type 0
IsOrdered lag t [] = Unit
IsOrdered lag t (request ip seen now ∷ es) =
    (t ≤ seen) × (seen ≤ now) × (now ≤ seen + lag) × IsOrdered lag seen es
IsOrdered lag t (tick now ∷ es) = (t ≤ now) × IsOrdered lag now es

some-injective : {A : Type 0} {x y : A} → ◌≡◌ {A = Option A} (some x) (some y) → x ≡ y
some-injective h = cc

module _ (b : Bucket) (refill ttl lag : ℕ) (lawful : IsLawfulBucket b refill)
    (enough : refill + lag ≤ ttl) where
  -- The bucket was last used at most `lag` after the client was last seen.
  abbrev IsRecent : ClientLimiter b → Type 0
  IsRecent c = (u : ℕ) × b.IsUsedAt c.limiter u × (u ≤ c.last_seen + lag)

  -- The entries with and without a janitor: the same, or one that was reaped while its bucket is full.
  abbrev IsLike : ℕ → Option (ClientLimiter b) → Option (ClientLimiter b) → Type 0
  IsLike t x y =
      ((x ≡ y) × ((c : ClientLimiter b) → y ≡ some c → IsRecent c))
      ⊎ ((x ≡ none)
          × ((c : ClientLimiter b) × (u : ℕ) × (y ≡ some c)
              × b.IsUsedAt c.limiter u
              × (u + refill ≤ t)))

  later : (t t' : ℕ) (x y : Option (ClientLimiter b)) → t ≤ t' → IsLike t x y → IsLike t' x y
  later t t' x y h (inl same) = inl same
  later t t' x y h (inr (gone, (c, u, e, used, full))) = inr (gone, (c, u, e, used, omega arith))

  IsLike-allow :
      (t now : ℕ) (x y : Option (ClientLimiter b))
      → t ≤ now
      → IsLike t x y
      → b.allow now (limiter_of b x) ≡ b.allow now (limiter_of b y)
  IsLike-allow t now x y h (inl (same, recent)) = ap (λ z. b.allow now (limiter_of b z)) same
  IsLike-allow t now x y h (inr (gone, (c, u, e, used, full))) =
      ap (λ z. b.allow now (limiter_of b z)) gone
      ∙ sym (lawful.refilled c.limiter u now used (omega arith))
      ∙ ap (λ z. b.allow now (limiter_of b z)) (sym e)

  kept-IsLike :
      (t now : ℕ) (x y : Option (ClientLimiter b))
      → t ≤ now
      → IsLike t x y
      → IsLike now (kept b ttl now x) y
  unfolding kept
  kept-IsLike t now x y h (inr (gone, (c, u, e, used, full))) =
      inr (ap (kept b ttl now) gone, (c, u, e, used, omega arith))
  kept-IsLike t now none y h (inl (same, recent)) = inl (same, recent)
  kept-IsLike t now (some c) y h (inl (same, recent)) =
      elim (Bool-cases (ltb ttl (now - c.last_seen))) [
        | inr young ↦ inl (rw young same, recent)
        | inl idle ↦
            let (u, used, near) = recent c (sym same) in
            let past : ttl < now - c.last_seen = ltb→lt ttl (now - c.last_seen) idle in
            inr (rw idle refl, (c, u, sym same, used, omega arith))
      ]

  allow-IsLike :
      (t seen now : ℕ) (ip : String) (x y : Clients b)
      → seen ≤ now
      → now ≤ seen + lag
      → t ≤ seen
      → ((k : String) → IsLike t (x k) (y k))
      → ((allow b ip seen now x).0 ≡ (allow b ip seen now y).0)
        × ((k : String) → IsLike seen ((allow b ip seen now x).1 k) ((allow b ip seen now y).1 k))
  unfolding allow update
  allow-IsLike t seen now ip x y h₁ h₂ h₃ like =
      let same = IsLike-allow t now (x ip) (y ip) (omega arith) (like ip) in
      (
        ap (λ r. r.0) same,
        λ k. elim (Bool-cases (ip == k)) [
          | inr other ↦ rw other (later t seen (x k) (y k) h₃ (like k))
          | inl this ↦ rw this (
              inl (
                ap (λ r. some (record { limiter = r.1; last_seen = seen })) same,
                λ c e.
                    subst IsRecent (some-injective e)
                      (now, lawful.used now (limiter_of b (y ip)), h₂),
              ))
        ],
      )

  answers-requests :
      (es : List Event) (t : ℕ) (x y : Clients b)
      → IsOrdered lag t es
      → ((k : String) → IsLike t (x k) (y k))
      → answers b ttl es x ≡ answers b ttl (requests es) y
  unfolding answers requests reap_idle_clients
  answers-requests [] t x y o like = refl
  answers-requests (request ip seen now ∷ es) t x y (h₁, h₂, h₃, o) like =
      let (same, next) = allow-IsLike t seen now ip x y h₂ h₃ h₁ like in
      λ i.
        same i
        ∷ answers-requests es seen (allow b ip seen now x).1 (allow b ip seen now y).1 o next i
  answers-requests (tick now ∷ es) t x y (h, o) like =
      answers-requests es now (reap_idle_clients b ttl now x) y o
        (λ k. kept-IsLike t now (x k) (y k) h (like k))

  -- The janitor of the rate limiter changes no answer: over every history of requests and ticks
  -- whose times go forward, the answers are those of the requests alone, if a bucket fills up again
  -- and a request gets from the map to its bucket within the time that a client may be idle, and
  -- the bucket behaves as documented.
  pub reaping_unobserved :
      (es : List Event)
      → IsOrdered lag 0 es
      → answers b ttl es (λ ip. none) ≡ answers b ttl (requests es) (λ ip. none)
  reaping_unobserved es o =
      answers-requests es 0 (λ ip. none) (λ ip. none) o (λ k. inl (refl, λ c e. absurd (cc)))
