-- ===== src/Examples/Keys.antt =====
-- A small Redis, for runs of the order service: the keys that are held. Nothing expires.
use fund_kit.Base.{
  ℕ, String, Option, none, some, ◌≡◌, refl, inl, inr, Bool, true, false, Result, ok, Option-cases,
  update, ok-injective, ◌∙◌, ap, sym,
}
use fund_kit.Orders.Domain.{OrderError}
use fund_kit.Orders.Reservation.{Redis, IsLawfulRedis}
use fund_kit.Orders.Idempotency.{LeavesHeldKeys}

true≢false : ¬ (true ≡ false)
true≢false h = cc

abbrev pub Keys : Type 0
Keys = String → Option String

unfoldable pub set_nx : String → String → ℕ → Keys → Result OrderError Bool × Keys
set_nx k v ttl keys = elim (keys k) [
  | none ↦ (ok true, update keys k (some v))
  | some held ↦ (ok false, keys)
]

abbrev pub redis : Redis
redis = record {
  Cache = Keys;
  held = λ keys. keys;
  set_nx = set_nx;
  set = λ k v ttl keys. (ok tt, update keys k (some v));
  del = λ k keys. (ok tt, update keys k none);
}

set_nx-takes :
    (k v : String) (ttl : ℕ) (keys : Keys) {keys' : Keys}
    → set_nx k v ttl keys ≡ (ok true, keys')
    → (keys k ≡ none) × (keys' ≡ update keys k (some v))
unfolding set_nx
set_nx-takes k v ttl keys h = elim (Option-cases (keys k)) [
  | inl p ↦ (p, sym (ap (λ x. x.1) h) ∙ rw (p, set_nx) refl)
  | inr (held, p) ↦ absurd (true≢false (ok-injective (sym (ap (λ x. x.0) h) ∙ rw (p, set_nx) refl)))
]

set_nx-refuses :
    (k v : String) (ttl : ℕ) (keys : Keys) {keys' : Keys}
    → set_nx k v ttl keys ≡ (ok false, keys')
    → keys' ≡ keys
unfolding set_nx
set_nx-refuses k v ttl keys h = elim (Option-cases (keys k)) [
  | inl p ↦ absurd (true≢false (ok-injective (sym (rw (p, set_nx) refl) ∙ ap (λ x. x.0) h)))
  | inr (held, p) ↦ sym (ap (λ x. x.1) h) ∙ rw (p, set_nx) refl
]

pub redis-IsLawfulRedis : IsLawfulRedis redis
redis-IsLawfulRedis = record {
  set_nx_taken = set_nx-takes;
  set_nx_refused = set_nx-refuses;
  del_lem = λ k keys h. sym (ap (λ x. x.1) h);
}

set_nx-leaves :
    (k v : String) (ttl : ℕ) (keys : Keys) {w : String}
    → keys k ≡ some w
    → (set_nx k v ttl keys).1 k ≡ some w
unfolding set_nx
set_nx-leaves k v ttl keys h = rw (h, set_nx) h

pub redis-LeavesHeldKeys : LeavesHeldKeys redis
redis-LeavesHeldKeys = record { kept = set_nx-leaves }
