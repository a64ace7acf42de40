-- ===== src/Risk/History.antt =====
-- Bounds and monotony of the risk score, and the history of a trace (src/rygnal/risk_engine.py).
use rygnal_core.Common.{
  ℕ, zero, suc, ◌+◌, ◌-◌, ◌≤◌, min, String, ◌≡◌, List, [], ◌∷◌, ◌++◌, Option, none, some, arith,
  length, drop, lookup, lookup-insert,
}
use rygnal_core.Risk.{
  RiskSignal, RiskScoringProfile, level_from_score, RiskEngine, Metadata, trace_identity, total,
  score_of, history_of, previous_risky_events, cumulative_trace_signal, trimmed, record_trace_risk,
  or_baseline, and_signal, assess,
}
use rygnal_core.Limits.{risk_level_order}

-- A larger score never has a lower level, whatever the thresholds.
pub level_from_score-monotone :
    (p : RiskScoringProfile) (s t : ℕ)
    → s ≤ t
    → risk_level_order (level_from_score p s) ≤ risk_level_order (level_from_score p t)
unfolding level_from_score
level_from_score-monotone p s t h = ground arith

length-drop : {A : Type 0} (n : ℕ) (xs : List A) → length (drop n xs) ≡ length xs - n
length-drop zero xs = omega arith
length-drop (suc n) [] = omega arith
length-drop (suc n) (x ∷ xs) = omega (arith, length-drop n xs)

length-trimmed : (limit : ℕ) (h : List ℕ) → length (trimmed limit h) ≤ limit
length-trimmed limit h = ground (arith, length-drop (length h - limit) h)

total-append : (ss : List RiskSignal) (s : RiskSignal) → total (ss ++ s ∷ []) ≡ total ss + s.score
total-append [] s = omega arith
total-append (x ∷ ss) s = omega (arith, total-append ss s)

abbrev score_added : Option RiskSignal → ℕ
score_added none = 0
score_added (some s) = s.score

total-and_signal :
    (ss : List RiskSignal) (o : Option RiskSignal)
    → total (and_signal ss o) ≡ total ss + score_added o
total-and_signal ss none = omega arith
total-and_signal ss (some s) = total-append ss s

most_added :
    (g : RiskEngine) (trace : String) (current : ℕ)
    → 2 ≤ previous_risky_events g trace
    → g.scoring_profile.medium_threshold ≤ current
    → score_added (cumulative_trace_signal g (some trace) current) ≡ 45
unfolding cumulative_trace_signal
most_added g trace current risky reached = ground arith

-- Every history is within the limit.
abbrev pub IsBounded : RiskEngine → Type 0
IsBounded g =
    (trace : String) (h : List ℕ)
    → lookup trace g.trace_risk_history ≡ some h
    → length h ≤ g.trace_history_limit

record_trace_risk-IsBounded :
    (g : RiskEngine) (o : Option String) (score : ℕ)
    → IsBounded g
    → IsBounded (record_trace_risk g o score)
unfolding record_trace_risk
record_trace_risk-IsBounded g none score b t h e = b t h e
record_trace_risk-IsBounded g (some trace) score b t h e = ground (
  arith,
  b t h,
  lookup-insert trace t (trimmed g.trace_history_limit (history_of g trace ++ score ∷ []))
      g.trace_risk_history,
  length-trimmed g.trace_history_limit (history_of g trace ++ score ∷ []),
)

-- The engine after it has assessed the requests, each given by its metadata and its signals.
abbrev pub assess_all : RiskEngine → List (Metadata × List RiskSignal) → RiskEngine
assess_all g [] = g
assess_all g ((m, ss) ∷ qs) = assess_all (assess g m ss).1 qs

-- From histories within the limit, no history of a trace grows over it, however many requests are
-- assessed.
pub assess_all-IsBounded :
    (g : RiskEngine) (qs : List (Metadata × List RiskSignal))
    → IsBounded g
    → IsBounded (assess_all g qs)
unfolding assess
assess_all-IsBounded g [] b = b
assess_all-IsBounded g ((m, ss) ∷ qs) b =
    assess_all-IsBounded (assess g m ss).1 qs (record_trace_risk-IsBounded g (trace_identity m) _ b)

-- The score of an assessment is at most 100, and not below that of the signals that were detected.
pub assess-bounds :
    (g : RiskEngine) (m : Metadata) (ss : List RiskSignal)
    → ((assess g m ss).0.risk_score ≤ 100)
      × (score_of (or_baseline ss) ≤ (assess g m ss).0.risk_score)
unfolding assess
assess-bounds g m ss =
    let found = or_baseline ss in
    let o = cumulative_trace_signal g (trace_identity m) (score_of found) in
    (omega arith, omega (arith, total-and_signal found o))

-- Where the trace of a request has two earlier risky scores and its signals reach the medium
-- threshold, its score has 45 more, up to 100.
pub assess-repeated :
    (g : RiskEngine) (m : Metadata) (ss : List RiskSignal) (trace : String)
    → trace_identity m ≡ some trace
    → 2 ≤ previous_risky_events g trace
    → g.scoring_profile.medium_threshold ≤ score_of (or_baseline ss)
    → (assess g m ss).0.risk_score ≡ min (total (or_baseline ss) + 45) 100
unfolding assess
assess-repeated g m ss trace same risky reached =
    let found = or_baseline ss in
    let o = cumulative_trace_signal g (trace_identity m) (score_of found) in
    let most : score_added o ≡ 45 =
      rw (same, cumulative_trace_signal) (most_added g trace (score_of found) risky reached) in
    ground (arith, total-and_signal found o, most)
