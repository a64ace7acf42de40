-- ===== src/Interceptor/Safety.antt =====
-- When a tool may run (src/rygnal/interceptor.py), for any engines that the interceptor holds.
use rygnal_core.Common.{
  String, Bool, true, false, ◌≡◌, refl, ◌⊎◌, inl, inr, [], ◌∷◌, Option, none, some, any, arith,
  Bool-cases,
}
use rygnal_core.Models.{
  Decision, RuntimeMode, ToolRequest, PolicyDecision, ApprovalRequest, ApprovalDecision,
}
use rygnal_core.Interceptor.Execution.{Tools, is_approved, execute_with_decision}
use rygnal_core.Interceptor.Control.{
  Caught, ok, error, Parts, Effect, logged, ran, fail_closed_decision, fail_closed_result,
  log_and_execute, approve_and_execute, intercept, runs_tool,
}

abbrev pub is_run : Effect → Bool
is_run (ran q) = true
is_run (logged q p) = false

abbrev pub is_enforcing : RuntimeMode → Bool
is_enforcing RuntimeMode.enforce = true
is_enforcing RuntimeMode.production_safe = true
is_enforcing _ = false

Caught-cases : {A : Type 0} (c : Caught A) → ((a : A) × (c ≡ ok a)) ⊎ ((e : String) × (c ≡ error e))
Caught-cases (ok a) = inl (a, refl)
Caught-cases (error e) = inr (e, refl)

-- The decision lets the tool run, with the approval where it asks for one.
abbrev pub Permits : PolicyDecision → Option ApprovalDecision → Type 0
Permits p a =
    (p.decision ≡ Decision.allow)
    ⊎ (p.decision ≡ Decision.require_approval) × (is_approved a ≡ true)

execute_with_decision-Permits :
    (mode : RuntimeMode) (tools : Tools) (q : ToolRequest) (p : PolicyDecision)
    (a : Option ApprovalDecision)
    → (execute_with_decision mode tools q p a).executed ≡ true
    → (is_enforcing mode ≡ true) × Permits p a
unfolding execute_with_decision
execute_with_decision-Permits RuntimeMode.observe tools q p a h = ground arith
execute_with_decision-Permits RuntimeMode.simulate tools q p a h = ground arith
execute_with_decision-Permits RuntimeMode.enforce tools q p a h = ground arith
execute_with_decision-Permits RuntimeMode.production_safe tools q p a h = ground arith

module _ {R : Type 0} (parts : Parts R) (q : ToolRequest) where
  fail_closed-no_run :
      (code kind : String) → any is_run (fail_closed_result parts q code kind).1 ≡ false
  unfolding fail_closed_result
  fail_closed-no_run code kind =
      elim (Caught-cases (parts.audit q (fail_closed_decision code kind))) [
        | inl (_, e) ↦ rw e refl
        | inr (_, e) ↦ rw e refl
      ]

  -- A tool runs after its decision is in the log, and the decision permits it.
  log_and_execute-Permits :
      (p : PolicyDecision) (a : Option ApprovalDecision)
      → any is_run (log_and_execute parts q p a).1 ≡ true
      → ((log_and_execute parts q p a).1 ≡ logged q p ∷ ran q ∷ [])
        × (is_enforcing parts.runtime_mode ≡ true)
        × Permits p a
  unfolding log_and_execute
  log_and_execute-Permits p a h = elim (Caught-cases (parts.audit q p)) [
    | inl (_, e) ↦ elim (Bool-cases (runs_tool parts q p a)) [
      | inl runs ↦
          let (enforcing, permits) =
            execute_with_decision-Permits parts.runtime_mode parts.tools q p a runs in
          (ground arith, enforcing, permits)
      | inr idle ↦ ground arith
    ]
    | inr (_, e) ↦ ground arith
  ]

-- What has happened when a tool runs.
pub record Cleared {R : Type 0} (parts : Parts R) (q : ToolRequest) : Type 0 where
  pub risk : R
  pub decision_of : PolicyDecision
  pub assessed : parts.assess q ≡ ok risk
  pub evaluated : parts.evaluate q risk ≡ ok decision_of
  pub recorded : (intercept parts q).1 ≡ logged q decision_of ∷ ran q ∷ []
  pub enforcing : is_enforcing parts.runtime_mode ≡ true
  pub permitted :
      (decision_of.decision ≡ Decision.allow)
      ⊎ (decision_of.decision ≡ Decision.require_approval)
        × ((r : ApprovalRequest) × (d : ApprovalDecision) × (parts.request_approval q decision_of
                risk
              ≡ ok (r, d))
            × (d.approved ≡ true))

module _ {R : Type 0} (parts : Parts R) (q : ToolRequest) where
  -- What is granted where a tool runs, with the approval that the workflow gave.
  abbrev Granted : R → PolicyDecision → Type 0
  Granted risk p =
      (p.decision ≡ Decision.allow)
      ⊎ (p.decision ≡ Decision.require_approval)
        × ((r : ApprovalRequest) × (d : ApprovalDecision) × (parts.request_approval q p risk
              ≡ ok (r, d))
            × (d.approved ≡ true))

  approve_and_execute-Granted :
      (risk : R) (p : PolicyDecision) (d : Decision)
      → p.decision ≡ d
      → any is_run (approve_and_execute parts q risk p d).1 ≡ true
      → ((approve_and_execute parts q risk p d).1 ≡ logged q p ∷ ran q ∷ [])
        × (is_enforcing parts.runtime_mode ≡ true)
        × Granted risk p
  unfolding approve_and_execute
  approve_and_execute-Granted risk p Decision.require_approval same h =
      elim (Caught-cases (parts.request_approval q p risk)) [
        | inl ((r, d), e) ↦
            let (steps, enforcing, permits) =
              log_and_execute-Permits parts q p (some d) (ground arith) in
            (rw (e, approve_and_execute) steps, enforcing, inr (same, (r, d, e, ground arith)))
        | inr (kind, e) ↦ ground (arith, fail_closed-no_run parts q "approval_workflow_failed" kind)
      ]
  approve_and_execute-Granted risk p Decision.allow same h =
      let (steps, enforcing, permits) = log_and_execute-Permits parts q p none h in
      (steps, enforcing, inl same)
  approve_and_execute-Granted risk p Decision.block same h =
      let (steps, enforcing, permits) = log_and_execute-Permits parts q p none h in ground arith
  approve_and_execute-Granted risk p Decision.simulate same h =
      let (steps, enforcing, permits) = log_and_execute-Permits parts q p none h in ground arith

-- A tool runs only in an enforcing mode, after its policy decision is in the log, and only where
-- that decision is to allow, or asks for an approval that the workflow gave; it runs once.
pub intercept-Cleared :
    {R : Type 0} (parts : Parts R) (q : ToolRequest)
    → any is_run (intercept parts q).1 ≡ true
    → Cleared parts q
unfolding intercept
intercept-Cleared parts q h = elim (Caught-cases (parts.assess q)) [
  | inr (kind, e) ↦ ground (arith, fail_closed-no_run parts q "risk_assessment_failed" kind)
  | inl (risk, e) ↦ elim (Caught-cases (parts.evaluate q risk)) [
    | inr (kind, f) ↦ ground (arith, fail_closed-no_run parts q "policy_evaluation_failed" kind)
    | inl (p, f) ↦
        let (steps, enforcing, granted) =
          approve_and_execute-Granted parts q risk p p.decision refl (rw (e, intercept, f) at h) in
        record {
          risk = risk;
          decision_of = p;
          assessed = e;
          evaluated = f;
          recorded = rw (e, intercept, f) steps;
          enforcing = enforcing;
          permitted = granted;
        }
  ]
]
