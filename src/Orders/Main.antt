-- ===== src/Orders/Main.antt =====
-- The start and the end of order-service, order-service/cmd/server/main.go: what `run` opens, starts,
-- waits for and closes, in order. What a step meets outside is an argument; logging and the settings
-- of the HTTP server are left out.
use fund_kit.Base.{ℕ, List, [], ◌∷◌, ◌++◌, Option, none, some, ◌≡◌, refl, Bool, true, false}

pub data Dependency : Type 0 where
  postgres redis kafka portfolio : Dependency

-- `drained` is the end of the lifecycle workers, `flushed` the end of the relay with its flush.
pub data Stage : Type 0 where
  relay_started listening server_stopped drained relay_cancelled flushed metrics_stopped : Stage

pub data Event : Type 0 where
  opened closed : Dependency → Event
  reached : Stage → Event

-- How the wait of `run` ends: the server stops by itself, or a signal comes.
pub data Ending : Type 0 where
  server_ended : Option (List ℕ) → Ending
  signalled : Ending

pub record World : Type 0 where
  pub config_error : Option (List ℕ)
  pub postgres_error : Option (List ℕ)
  pub redis_error : Option (List ℕ)
  pub portfolio_error : Option (List ℕ)
  pub ending : Ending

abbrev pub Outcome : Type 0
Outcome = Option (List ℕ) × List Event

-- Open a dependency, or return its error; the deferred call closes it after the rest.
unfoldable pub with_dependency : Dependency → Option (List ℕ) → Outcome → Outcome
with_dependency d (some text) rest = (some text, [])
with_dependency d none (failure, events) = (failure, opened d ∷ (events ++ closed d ∷ []))

-- From the start of the relay on; its deferred cancellation is the last event.
unfoldable pub serve_until : Ending → Outcome
serve_until (server_ended failure) =
    (failure, reached relay_started ∷ reached listening ∷ reached relay_cancelled ∷ [])
serve_until signalled = (
  none,
  reached relay_started
      ∷ reached listening
      ∷ reached server_stopped
      ∷ reached drained
      ∷ reached relay_cancelled
      ∷ reached flushed
      ∷ reached metrics_stopped
      ∷ reached relay_cancelled
      ∷ [],
)

-- `run`. Making the publisher reports no error.
unfoldable pub run : World → Outcome
unfolding with_dependency serve_until
run w = elim w.config_error [
  | some text ↦ (some text, [])
  | none ↦ with_dependency postgres w.postgres_error (
      with_dependency redis w.redis_error (
        with_dependency kafka none
          (with_dependency portfolio w.portfolio_error (serve_until w.ending))))
]

-- The dependencies that are open, the last one first.
abbrev all_open : List Dependency
all_open = portfolio ∷ kafka ∷ redis ∷ postgres ∷ []

-- Each dependency is closed once, in the reverse order of opening, and whatever the service does
-- between is done while all of them are open.
abbrev pub IsBalanced : List Dependency → List Event → Type 0
IsBalanced held [] = held ≡ []
IsBalanced held (opened d ∷ es) = IsBalanced (d ∷ held) es
IsBalanced held (reached stage ∷ es) = (held ≡ all_open) × IsBalanced held es
IsBalanced [] (closed d ∷ es) = ⊥
IsBalanced (h ∷ held) (closed d ∷ es) = (h ≡ d) × IsBalanced held es

run-record-IsBalanced :
    (config_error postgres_error redis_error portfolio_error : Option (List ℕ)) (ending : Ending)
    → IsBalanced []
        (run (record {
          config_error = config_error;
          postgres_error = postgres_error;
          redis_error = redis_error;
          portfolio_error = portfolio_error;
          ending = ending;
        })).1
unfolding run with_dependency serve_until
run-record-IsBalanced (some text) p r f e = refl
run-record-IsBalanced none (some text) r f e = refl
run-record-IsBalanced none none (some text) f e = (refl, refl)
run-record-IsBalanced none none none (some text) e = (refl, (refl, (refl, refl)))
run-record-IsBalanced none none none none (server_ended failure) =
    (refl, (refl, (refl, (refl, (refl, (refl, (refl, refl)))))))
run-record-IsBalanced none none none none signalled = (
  refl,
  (refl, (refl, (refl, (refl, (refl, (refl, (refl, (refl, (refl, (refl, (refl, refl))))))))))),
)

-- Whichever step fails, and however the service ends, each dependency that was opened is closed once,
-- in the reverse order of opening, and all of them are open in every stage, the relay's flush among
-- them.
pub run-IsBalanced : (w : World) → IsBalanced [] (run w).1
run-IsBalanced w =
    run-record-IsBalanced w.config_error w.postgres_error w.redis_error w.portfolio_error w.ending

-- Whether the relay is waited for, with its flush.
abbrev pub is_flushed : List Event → Bool
is_flushed [] = false
is_flushed (reached flushed ∷ es) = true
is_flushed (reached relay_started ∷ es) = is_flushed es
is_flushed (reached listening ∷ es) = is_flushed es
is_flushed (reached server_stopped ∷ es) = is_flushed es
is_flushed (reached drained ∷ es) = is_flushed es
is_flushed (reached relay_cancelled ∷ es) = is_flushed es
is_flushed (reached metrics_stopped ∷ es) = is_flushed es
is_flushed (opened d ∷ es) = is_flushed es
is_flushed (closed d ∷ es) = is_flushed es

abbrev started : Ending → World
started ending = record {
  config_error = none;
  postgres_error = none;
  redis_error = none;
  portfolio_error = none;
  ending = ending;
}

-- A service that has started waits for the relay's flush when a signal ends it, and not when its
-- server stops by itself.
pub run-flushed :
    (failure : Option (List ℕ))
    → (is_flushed (run (started signalled)).1 ≡ true)
      × (is_flushed (run (started (server_ended failure))).1 ≡ false)
unfolding run with_dependency serve_until
run-flushed failure = (refl, refl)
