-- ===== src/Portfolio/Health.antt =====
-- The probes of portfolio-service, portfolio-service/internal/handler/health_handler.go. The time of a
-- live answer is left out.
use Prim.Native.String.{◌++◌}
use fund_kit.Base.{
  ℕ, String, List, [], ◌∷◌, Option, none, some, ◌≡◌, refl, ap, ◌∙◌, inl, inr, Bool, true, false,
  ◌&&◌, ◌==◌, update, if◌then◌else◌, Bool-cases, Option-cases,
}
use fund_kit.Http.{Headers, get_header, set_header}
use fund_kit.Orders.Readiness.{ReadinessCheck, check_all, ready, report}

-- `writeJSON`: the headers of the answer.
unfoldable pub json_headers : Headers → Headers
json_headers inbound =
    let id = get_header inbound "x-request-id" in
    let h = if id == "" then (λ key. []) else set_header (λ key. []) "x-request-id" id in
    set_header h "content-type" "application/json"

-- `/healthz` and `/health`.
unfoldable pub live : Headers → ℕ × String × Headers
unfolding json_headers
live inbound = (200, "UP", json_headers inbound)

-- The loop of `/readyz`: a check that fails goes on with the next.
unfoldable pub check_from :
    List ReadinessCheck → (String → Option String) → Bool → (String → Option String) × Bool
check_from [] results is_ready = (results, is_ready)
check_from (c ∷ cs) results is_ready = elim c.failure [
  | some text ↦ check_from cs (update results c.name (some ("DOWN: " ++ text))) false
  | none ↦ check_from cs (update results c.name (some "UP")) is_ready
]

unfoldable pub readyz :
    List ReadinessCheck → Headers → ℕ × String × (String → Option String) × Headers
unfolding check_from json_headers
readyz checks inbound =
    let (results, is_ready) = check_from checks (λ name. none) true in
    if is_ready
    then (200, "READY", results, json_headers inbound)
    else (503, "NOT_READY", results, json_headers inbound)

check_from-check_all :
    (cs : List ReadinessCheck) (results : String → Option String) (b : Bool)
    → check_from cs results b ≡ check_all cs results b
unfolding check_from check_all report
check_from-check_all [] results b = refl
check_from-check_all (c ∷ cs) results b = elim (Option-cases c.failure) [
  | inl passed ↦ rw passed (check_from-check_all cs _ b ∙ ap (check_all cs _) (and_true b))
  | inr (text, e) ↦ rw e (check_from-check_all cs _ false ∙ ap (check_all cs _) (and_false b))
]
  where
    and_true : (b : Bool) → b ≡ (b && true)
    and_true true = refl
    and_true false = refl

    and_false : (b : Bool) → false ≡ (b && false)
    and_false true = refl
    and_false false = refl

-- The probe answers as order-service's does.
pub readyz-ready :
    (checks : List ReadinessCheck) (inbound : Headers)
    → let (code, status, results, headers) = readyz checks inbound in
      (code, status, results) ≡ ready checks
unfolding readyz ready
readyz-ready checks inbound =
    let same = check_from-check_all checks (λ name. none) true in
    elim (Bool-cases (check_all checks (λ name. none) true).1) [
      | inl good ↦ rw (same, good) refl
      | inr bad ↦ rw (same, bad) refl
    ]
