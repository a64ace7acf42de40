-- ===== src/Risk/Tests.antt =====
-- Three risky requests in one trace, and the theorems applied to them.
use rygnal_core.Common.{◌≡◌, refl, List, [], ◌∷◌, some, strip}
use rygnal_core.Models.{text}
use rygnal_core.Risk.{high, RiskSignal, default_profile, RiskEngine, Metadata, trace_identity}
use rygnal_core.Risk.History.{IsBounded, assess_all, assess_all-IsBounded}

abbrev engine : RiskEngine
engine = record {
  scoring_profile = default_profile;
  trace_history_limit = 2;
  trace_risk_history = ("t", 40 ∷ 50 ∷ []) ∷ [];
}

abbrev fresh_engine : RiskEngine
fresh_engine = record engine { trace_risk_history = [] }

abbrev metadata : Metadata
metadata = ("trace_id", text " t ") ∷ []

abbrev signals : List RiskSignal
signals = record { code = "shell"; severity = high; score = 40; reason = "a shell" } ∷ []

fresh_engine-IsBounded : IsBounded fresh_engine
fresh_engine-IsBounded trace h e = cc

assess_all-IsBounded_example :
    IsBounded (assess_all fresh_engine ((metadata, signals) ∷ (metadata, []) ∷ []))
assess_all-IsBounded_example =
    assess_all-IsBounded fresh_engine ((metadata, signals) ∷ (metadata, []) ∷ [])
      fresh_engine-IsBounded

trace_found : trace_identity metadata ≡ some "t"
unfolding trace_identity strip
trace_found = refl
