-- ===== src/Intent/Contract.antt =====
-- The validators of src/rygnal/intent_contract.py, which pydantic runs on the fields and then on the
-- whole. A text is stripped, and must not be blank. The error names pydantic's exception.
use rygnal_core.Common.{
  ℕ, String, Bool, false, not, ◌&&◌, List, [], ◌∷◌, Option, none, some, if◌then◌else◌, truthy,
  strip, any, nonempty, leb, text_length, Checked, ok, err, ◌>>=◌,
}
use rygnal_core.Intent.{
  IntentOperation, ResourceScope, IntentContract, NormalizedAction, IntentMatchResult,
  IntentMatchState, operation_eq, match_state_eq,
}

abbrev invalid : {A : Type 0} → Checked A
invalid = err "ValidationError"

abbrev not_blank : String → Checked String
not_blank s = let t = strip s in if truthy t then ok t else invalid

-- `Field(min_length=1, max_length=n)` and the stripping validator.
unfoldable pub checked_text : ℕ → String → Checked String
checked_text n s = if leb 1 (text_length s) && leb (text_length s) n then not_blank s else invalid

unfoldable pub checked_option : ℕ → Option String → Checked (Option String)
unfolding checked_text
checked_option n none = ok none
checked_option n (some s) = do t ← checked_text n s; ok (some t)

-- `_reject_blank_tuple_values` and `_reject_blank_reason_codes`
unfoldable pub checked_texts : List String → Checked (List String)
checked_texts [] = ok []
checked_texts (s ∷ ss) = do t ← not_blank s; ts ← checked_texts ss; ok (t ∷ ts)

-- `_reject_blank_value`
unfoldable pub validate_scope : ResourceScope → Checked ResourceScope
unfolding checked_text
validate_scope s = do v ← checked_text 4096 s.value; ok (record s { value = v })

abbrev pub is_mutating : IntentOperation → Bool
is_mutating o =
    any (λ m. operation_eq m o)
      (IntentOperation.create ∷ IntentOperation.modify ∷ IntentOperation.delete_file
        ∷ IntentOperation.delete_folder ∷ IntentOperation.rename ∷ IntentOperation.move
        ∷ IntentOperation.dependency_change ∷ IntentOperation.config_change ∷ [])

-- `_require_scope_for_mutating_actions`
unfoldable pub require_scope_for_mutating_actions : IntentContract → Checked IntentContract
require_scope_for_mutating_actions c =
    if any is_mutating c.allowed_actions && not (nonempty c.target_scopes) then invalid else ok c

unfoldable pub validate_contract : IntentContract → Checked IntentContract
unfolding checked_text checked_option require_scope_for_mutating_actions
validate_contract c = do
  contract_id ← checked_text 128 c.contract_id
  session_id ← checked_text 128 c.session_id
  task_objective ← checked_text 4096 c.task_objective
  human_prompt ← checked_option 16384 c.human_prompt
  ai_plan ← checked_option 16384 c.ai_plan
  evidence_source ← checked_option 256 c.evidence_source
  expires_at ← checked_option 128 c.expires_at
  approved_by ← checked_option 256 c.approved_by
  if nonempty c.allowed_actions && leb c.risk_ceiling 100
      then require_scope_for_mutating_actions (record c {
        contract_id = contract_id;
        session_id = session_id;
        task_objective = task_objective;
        human_prompt = human_prompt;
        ai_plan = ai_plan;
        evidence_source = evidence_source;
        expires_at = expires_at;
        approved_by = approved_by;
      })
      else invalid

abbrev given_text : Option String → Bool
given_text none = false
given_text (some s) = truthy s

-- `action_id` has no maximal length.
unfoldable pub validate_action : NormalizedAction → Checked NormalizedAction
unfolding checked_option checked_texts
validate_action a = do
  action_id ← not_blank a.action_id
  affected_paths ← checked_texts a.affected_paths
  old_path ← checked_option 4096 a.old_path
  new_path ← checked_option 4096 a.new_path
  reason_codes ← checked_texts a.reason_codes
  if operation_eq a.operation IntentOperation.rename
        && not (given_text old_path && given_text new_path)
      then invalid
      else ok (record a {
        action_id = action_id;
        affected_paths = affected_paths;
        old_path = old_path;
        new_path = new_path;
        reason_codes = reason_codes;
      })

-- `_require_reasoning_for_non_exact_matches`
abbrev is_reasoned : IntentMatchResult → Bool
is_reasoned r =
    if match_state_eq r.match_state IntentMatchState.exact_match
    then not (nonempty r.unmatched_scopes)
    else nonempty r.reason_codes

unfoldable pub validate_match_result : IntentMatchResult → Checked IntentMatchResult
unfolding checked_option checked_texts
validate_match_result r = do
  contract_id ← checked_option 128 r.contract_id
  action_id ← checked_option 128 r.action_id
  reason_codes ← checked_texts r.reason_codes
  if is_reasoned (record r { reason_codes = reason_codes })
      then ok (record r {
        contract_id = contract_id;
        action_id = action_id;
        reason_codes = reason_codes;
      })
      else invalid
