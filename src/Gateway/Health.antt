-- ===== src/Gateway/Health.antt =====
-- The health of the services: api-gateway/internal/service/health_aggregator.go and
-- api-gateway/internal/handler/health_handler.go. What a probe meets is an argument.
use fund_kit.Base.{
  ℕ, String, List, [], ◌∷◌, Option, none, some, Bool, true, false, ◌&&◌, ◌==◌, leb, ltb,
  if◌then◌else◌,
}
use fund_kit.Config.Gateway.{HealthTarget}

pub record ServiceStatus : Type 0 where
  pub service : String
  pub url : String
  pub status : String
  pub latency : String
  pub error : String

pub record StackStatus : Type 0 where
  pub status : String
  pub services : List ServiceStatus

-- A request that could not be made, one that got no answer, or an answer: its code, its status line and
-- the time that it took.
pub data ProbeOutcome : Type 0 where
  failed : String → ProbeOutcome
  answered : ℕ → String → String → ProbeOutcome

-- `probe`.
unfoldable pub probe : HealthTarget → ProbeOutcome → ServiceStatus
probe target (failed text) = record {
  service = target.name;
  url = target.url;
  status = "DOWN";
  latency = "";
  error = text;
}
probe target (answered code line latency) =
    if leb 200 code && ltb code 300
    then record {
      service = target.name;
      url = target.url;
      status = "UP";
      latency = latency;
      error = "";
    }
    else record {
      service = target.name;
      url = target.url;
      status = "DOWN";
      latency = latency;
      error = line;
    }

unfoldable pub probe_all : (HealthTarget → ProbeOutcome) → List HealthTarget → List ServiceStatus
unfolding probe
probe_all meets [] = []
probe_all meets (t ∷ ts) = probe t (meets t) ∷ probe_all meets ts

unfoldable pub all_up : List ServiceStatus → Bool
all_up [] = true
all_up (s ∷ ss) = s.status == "UP" && all_up ss

-- `Collect`. The probes run at once; each writes its own place of the result.
unfoldable pub collect : (HealthTarget → ProbeOutcome) → List HealthTarget → StackStatus
unfolding probe_all all_up
collect meets targets =
    let results = probe_all meets targets in
    record {
      status = if all_up results then "UP" else "DEGRADED";
      services =
          record { service = "api-gateway"; url = "self"; status = "UP"; latency = ""; error = "" }
          ∷ results;
    }

-- `Stack`: a code and the body.
unfoldable pub stack : (HealthTarget → ProbeOutcome) → List HealthTarget → ℕ × StackStatus
unfolding collect
stack meets targets =
    let status = collect meets targets in (if status.status == "UP" then 200 else 206, status)

-- One dependency and the error of its probe, and what is reported of it.
pub record ReadinessCheck : Type 0 where
  pub name : String
  pub failure : Option String

unfoldable pub detail : ReadinessCheck → String × String
detail c = elim c.failure [ none ↦ (c.name, "UP") | some text ↦ (c.name, "DOWN") ]

unfoldable pub details : List ReadinessCheck → Bool × List (String × String)
unfolding detail
details [] = (true, [])
details (c ∷ cs) =
    let (ready, rest) = details cs in
    elim c.failure [ none ↦ (ready, detail c ∷ rest) | some text ↦ (false, detail c ∷ rest) ]

-- `Ready`: a code, the status and the dependencies.
unfoldable pub ready : List ReadinessCheck → ℕ × String × List (String × String)
unfolding details
ready checks =
    let (all, found) = details checks in
    if all then (200, "READY", found) else (503, "NOT_READY", found)
