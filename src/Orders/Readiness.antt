-- ===== src/Orders/Readiness.antt =====
-- The readiness probe, order-service/internal/handler/health_handler.go. What a dependency's probe
-- meets is an argument, and `none` is no error. A Go map is a function of its keys.
use Prim.Native.String.{◌++◌}
use fund_kit.Base.{
  ℕ, String, List, [], ◌∷◌, Option, none, some, ◌≡◌, ◌≢◌, refl, ◌∙◌, inl, inr, Bool, true, false,
  ◌&&◌, update, update_self, update_ne, if◌then◌else◌, Bool-cases,
}

pub record ReadinessCheck : Type 0 where
  pub name : String
  pub failure : Option String

-- What is reported of a dependency.
unfoldable pub report : Option String → String
report none = "UP"
report (some text) = "DOWN: " ++ text

abbrev pub passes : Option String → Bool
passes none = true
passes (some text) = false

-- The loop of `Ready`: the results and whether all have passed.
unfoldable pub check_all :
    List ReadinessCheck → (String → Option String) → Bool → (String → Option String) × Bool
unfolding report
check_all [] results is_ready = (results, is_ready)
check_all (c ∷ cs) results is_ready =
    check_all cs (update results c.name (some (report c.failure))) (is_ready && passes c.failure)

-- `Ready`: the code, the status and the dependencies.
unfoldable pub ready : List ReadinessCheck → ℕ × String × (String → Option String)
unfolding check_all
ready checks =
    let (results, is_ready) = check_all checks (λ name. none) true in
    if is_ready then (200, "READY", results) else (503, "NOT_READY", results)

abbrev pub all_pass : List ReadinessCheck → Bool
all_pass [] = true
all_pass (c ∷ cs) = passes c.failure && all_pass cs

-- No check before it in the list has its name.
abbrev pub IsNamedNone : String → List ReadinessCheck → Type 0
IsNamedNone name [] = Unit
IsNamedNone name (c ∷ cs) = (c.name ≢ name) × IsNamedNone name cs

abbrev pub AreDistinct : List ReadinessCheck → Type 0
AreDistinct [] = Unit
AreDistinct (c ∷ cs) = IsNamedNone c.name cs × AreDistinct cs

abbrev pub AllReported : List ReadinessCheck → (String → Option String) → Type 0
AllReported [] results = Unit
AllReported (c ∷ cs) results = (results c.name ≡ some (report c.failure)) × AllReported cs results

check_all-other :
    (cs : List ReadinessCheck) (name : String) (results : String → Option String) (b : Bool)
    → IsNamedNone name cs
    → (check_all cs results b).0 name ≡ results name
unfolding check_all
check_all-other [] name results b h = refl
check_all-other (c ∷ cs) name results b (other, h) =
    check_all-other cs name _ _ h ∙ update_ne results c.name name _ other

check_all-passes :
    (cs : List ReadinessCheck) (results : String → Option String) (b : Bool)
    → (check_all cs results b).1 ≡ (b && all_pass cs)
unfolding check_all
check_all-passes [] results true = refl
check_all-passes [] results false = refl
check_all-passes (c ∷ cs) results true = check_all-passes cs _ (passes c.failure)
check_all-passes (c ∷ cs) results false = check_all-passes cs _ false

check_all-reports :
    (cs : List ReadinessCheck) (results : String → Option String) (b : Bool)
    → AreDistinct cs
    → AllReported cs (check_all cs results b).0
unfolding check_all
check_all-reports [] results b h = tt
check_all-reports (c ∷ cs) results b (fresh, h) =
    (check_all-other cs c.name _ _ fresh ∙ update_self results c.name _, check_all-reports cs _ _ h)

-- If the checks have different names, the probe answers 200 and READY when all of them pass and 503
-- and NOT_READY when one does not, and reports each of them.
pub ready_outcome :
    (checks : List ReadinessCheck)
    → AreDistinct checks
    → let (code, status, results) = ready checks in
      (code ≡ (if all_pass checks then 200 else 503))
      × (status ≡ (if all_pass checks then "READY" else "NOT_READY"))
      × AllReported checks results
unfolding ready
ready_outcome checks distinct =
    let passed = check_all-passes checks (λ name. none) true in
    let reported = check_all-reports checks (λ name. none) true distinct in
    elim (Bool-cases (all_pass checks)) [
      | inl good ↦ rw (passed ∙ good, good) (refl, refl, reported)
      | inr bad ↦ rw (passed ∙ bad, bad) (refl, refl, reported)
    ]
