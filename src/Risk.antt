-- ===== src/Risk.antt =====
-- `RiskEngine` of src/rygnal/risk_engine.py: the score of a request and the history of its trace. The
-- detectors, which look for patterns, are not modelled: `assess` takes the signals that they find.
-- The category, confidence and evidence of a signal and the explanation are left out: no score
-- depends on them.
pub mod History
mod Tests
use rygnal_core.Common.{
  ℕ, ◌+◌, ◌-◌, min, String, Bool, true, false, List, [], ◌∷◌, ◌++◌, Option, none, some,
  if◌then◌else◌, leb, ltb, length, drop, count_where, lookup, insert, strip, truthy,
}
use rygnal_core.Models.{Value, text}

pub data RiskLevel : Type 0 where
  low medium high critical : RiskLevel

abbrev pub risk_level_eq : RiskLevel → RiskLevel → Bool
risk_level_eq low low = true
risk_level_eq medium medium = true
risk_level_eq high high = true
risk_level_eq critical critical = true
risk_level_eq _ _ = false

pub record RiskSignal : Type 0 where
  pub code : String
  pub severity : RiskLevel
  pub score : ℕ
  pub reason : String

pub record RiskScoringProfile : Type 0 where
  pub medium_threshold : ℕ
  pub high_threshold : ℕ
  pub critical_threshold : ℕ

abbrev pub default_profile : RiskScoringProfile
default_profile = record { medium_threshold = 30; high_threshold = 60; critical_threshold = 85 }

unfoldable pub level_from_score : RiskScoringProfile → ℕ → RiskLevel
level_from_score p score =
    if leb p.critical_threshold score
    then critical
    else if leb p.high_threshold score
    then high
    else if leb p.medium_threshold score
    then medium
    else low

pub record RiskAssessment : Type 0 where
  pub risk_score : ℕ
  pub risk_level : RiskLevel
  pub signals : List RiskSignal

-- The engine: its profile, the length of a history, and `_trace_risk_history`.
pub record RiskEngine : Type 0 where
  pub scoring_profile : RiskScoringProfile
  pub trace_history_limit : ℕ
  pub trace_risk_history : List (String × List ℕ)

abbrev pub Metadata : Type 0
Metadata = List (String × Value)

-- The loop of `trace_identity` over its keys.
abbrev identity_from : List String → Metadata → Option String
identity_from [] m = none
identity_from (k ∷ ks) m =
    let rest = identity_from ks m in
    elim (lookup k m) [
      | some (text s) ↦ if truthy (strip s) then some (strip s) else rest
      | _ ↦ rest
    ]

unfoldable pub trace_identity : Metadata → Option String
trace_identity m = identity_from ("trace_id" ∷ "request_id" ∷ "session_id" ∷ "run_id" ∷ []) m

abbrev pub total : List RiskSignal → ℕ
total [] = 0
total (s ∷ ss) = s.score + total ss

-- `_score`
abbrev pub score_of : List RiskSignal → ℕ
score_of ss = min (total ss) 100

abbrev pub history_of : RiskEngine → String → List ℕ
history_of g trace = elim (lookup trace g.trace_risk_history) [ none ↦ [] | some h ↦ h ]

-- How many of the earlier scores were risky.
abbrev pub previous_risky_events : RiskEngine → String → ℕ
previous_risky_events g trace =
    count_where (λ score. leb g.scoring_profile.medium_threshold score) (history_of g trace)

-- `_cumulative_trace_signal`
unfoldable pub cumulative_trace_signal : RiskEngine → Option String → ℕ → Option RiskSignal
cumulative_trace_signal g none current = none
cumulative_trace_signal g (some trace) current =
    if ltb current g.scoring_profile.medium_threshold
    then none
    else if leb 2 (previous_risky_events g trace)
    then some (record {
      code = "cumulative-trace-risk";
      severity = critical;
      score = 45;
      reason = "Multiple risky actions occurred in the same trace.";
    })
    else if leb 1 (previous_risky_events g trace)
    then some (record {
      code = "cumulative-trace-risk";
      severity = high;
      score = 20;
      reason = "Repeated risky actions are accumulating in the same trace.";
    })
    else none

-- `del history[: len(history) - limit]`, where it is longer than the limit.
abbrev pub trimmed : ℕ → List ℕ → List ℕ
trimmed limit h = if ltb limit (length h) then drop (length h - limit) h else h

-- `_record_trace_risk`
unfoldable pub record_trace_risk : RiskEngine → Option String → ℕ → RiskEngine
record_trace_risk g none score = g
record_trace_risk g (some trace) score = record g {
  trace_risk_history =
      insert trace (trimmed g.trace_history_limit (history_of g trace ++ score ∷ []))
        g.trace_risk_history;
}

-- The signals that were detected, or the baseline.
abbrev pub or_baseline : List RiskSignal → List RiskSignal
or_baseline [] =
    record {
      code = "baseline-low-risk";
      severity = low;
      score = 10;
      reason = "No risky tool, target, or input pattern detected.";
    }
    ∷ []
or_baseline (s ∷ ss) = s ∷ ss

abbrev pub and_signal : List RiskSignal → Option RiskSignal → List RiskSignal
and_signal ss none = ss
and_signal ss (some s) = ss ++ s ∷ []

-- `assess`, on the metadata of the request and the signals that were detected.
unfoldable pub assess : RiskEngine → Metadata → List RiskSignal → RiskAssessment × RiskEngine
unfolding cumulative_trace_signal record_trace_risk level_from_score
assess g m detected =
    let found = or_baseline detected in
    let signals =
      and_signal found (cumulative_trace_signal g (trace_identity m) (score_of found)) in
    (
      record {
        risk_score = score_of signals;
        risk_level = level_from_score g.scoring_profile (score_of signals);
        signals = signals;
      },
      record_trace_risk g (trace_identity m) (score_of signals),
    )
