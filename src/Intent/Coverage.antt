-- ===== src/Intent/Coverage.antt =====
-- What an exact match of an action promises (src/rygnal/capability_matcher.py).
use rygnal_core.Common.{
  String, Bool, true, false, not, ◌≡◌, refl, sym, ap, ◌∙◌, bind_ok, ◌⊎◌, inl, inr, List, [], ◌∷◌,
  any, filter, nonempty, arith, All, ok,
}
use rygnal_core.Intent.{
  IntentMatchState, IntentDecisionHint, ResourceKind, IntentContract, NormalizedAction,
  ResourceScope, IntentMatchResult, kind_eq,
}
use rygnal_core.Intent.Contract.{validate_match_result}
use rygnal_core.Intent.Graph.{ResourceGraph}
use rygnal_core.Intent.Scopes.{
  scope_matches, matching_scopes, requires_path_or_graph_scope, action_paths_outside_target_scopes,
  normalized_action_paths,
}
use rygnal_core.Intent.Matcher.{
  allows, operation_allowed, OperationMatch, match_targets, match_allowed, match_paths,
  safe_graph_for_paths, match_action_to_contract,
}

-- What each state recommends.
abbrev pub hint_of : IntentMatchState → IntentDecisionHint
hint_of IntentMatchState.exact_match = IntentDecisionHint.allow
hint_of IntentMatchState.partial_match = IntentDecisionHint.audit
hint_of IntentMatchState.drift = IntentDecisionHint.require_approval
hint_of IntentMatchState.conflict = IntentDecisionHint.require_approval
hint_of IntentMatchState.unknown = IntentDecisionHint.require_approval
hint_of IntentMatchState.hard_sensitive = IntentDecisionHint.block

targets-hint :
    (a : NormalizedAction) (c : IntentContract) (paths : List String) (g : ResourceGraph)
    (o : OperationMatch)
    → let r = match_targets a c paths g o in r.decision_hint ≡ hint_of r.match_state
unfolding match_targets
targets-hint a c paths g o = ground arith

allowed-hint :
    (a : NormalizedAction) (c : IntentContract) (paths : List String) (g : ResourceGraph)
    → let r = match_allowed a c paths g in r.decision_hint ≡ hint_of r.match_state
unfolding match_allowed
allowed-hint a c paths g = ground (arith, targets-hint a c paths g (operation_allowed a c))

paths-hint :
    (a : NormalizedAction) (c : IntentContract) (paths reasons : List String) (g : ResourceGraph)
    → let r = match_paths a c paths reasons g in r.decision_hint ≡ hint_of r.match_state
unfolding match_paths
paths-hint a c paths reasons g = ground (arith, allowed-hint a c paths g)

-- The contract allows the operation, no excluded scope is met, and the target scopes are: all paths
-- are in them, where one of them is about paths.
abbrev pub IsWithin :
    NormalizedAction → IntentContract → List String → List String → ResourceGraph → Type 0
IsWithin a c paths reasons g =
    (kind_eq a.resource_kind ResourceKind.sensitive ≡ false)
    × (nonempty reasons ≡ false)
    × (any (scope_matches a g paths) c.excluded_scopes ≡ false)
    × (allows c a.operation ≡ true)
    × ((nonempty c.target_scopes ≡ false) ⊎ (any (scope_matches a g paths) c.target_scopes ≡ true))
    × ((requires_path_or_graph_scope c.target_scopes ≡ false)
        ⊎ All (λ p. any (scope_matches a g (p ∷ [])) c.target_scopes ≡ true) paths)

nonempty-filter : {A : Type 0} (p : A → Bool) (xs : List A) → nonempty (filter p xs) ≡ any p xs
nonempty-filter p [] = refl
nonempty-filter p (x ∷ xs) = ground (arith, nonempty-filter p xs)

none_left :
    (p : String → Bool) (xs : List String)
    → nonempty (filter (λ x. not (p x)) xs) ≡ false
    → All (λ x. p x ≡ true) xs
none_left p [] h = tt
none_left p (x ∷ xs) h = ground (arith, none_left p xs)

exact_allows :
    (a : NormalizedAction) (c : IntentContract)
    → (operation_allowed a c).exact ≡ true
    → allows c a.operation ≡ true
unfolding operation_allowed
exact_allows a c h = ground arith

none_outside :
    (a : NormalizedAction) (c : IntentContract) (paths : List String) (g : ResourceGraph)
    → nonempty (action_paths_outside_target_scopes c.target_scopes a paths g) ≡ false
    → (requires_path_or_graph_scope c.target_scopes ≡ false)
      ⊎ All (λ p. any (scope_matches a g (p ∷ [])) c.target_scopes ≡ true) paths
unfolding action_paths_outside_target_scopes
none_outside a c [] g h = inr tt
none_outside a c (p ∷ ps) g h =
    ground (arith, none_left (λ x. any (scope_matches a g (x ∷ [])) c.target_scopes) (p ∷ ps))

targets-exact :
    (a : NormalizedAction) (c : IntentContract) (paths : List String) (g : ResourceGraph)
    (o : OperationMatch)
    → (match_targets a c paths g o).match_state ≡ IntentMatchState.exact_match
    → (o.exact ≡ true)
      × (nonempty (matching_scopes c.target_scopes a paths g) ≡ true)
      × (nonempty (action_paths_outside_target_scopes c.target_scopes a paths g) ≡ false)
unfolding match_targets
targets-exact a c paths g o h = ground arith

allowed-exact :
    (a : NormalizedAction) (c : IntentContract) (paths : List String) (g : ResourceGraph)
    → (match_allowed a c paths g).match_state ≡ IntentMatchState.exact_match
    → ((operation_allowed a c).exact ≡ true)
      × ((nonempty c.target_scopes ≡ false)
          ⊎ ((match_targets a c paths g (operation_allowed a c)).match_state
              ≡ IntentMatchState.exact_match))
unfolding match_allowed
allowed-exact a c paths g h = ground (arith, targets-exact a c paths g (operation_allowed a c))

paths-exact :
    (a : NormalizedAction) (c : IntentContract) (paths reasons : List String) (g : ResourceGraph)
    → (match_paths a c paths reasons g).match_state ≡ IntentMatchState.exact_match
    → (kind_eq a.resource_kind ResourceKind.sensitive ≡ false)
      × (nonempty reasons ≡ false)
      × (nonempty (matching_scopes c.excluded_scopes a paths g) ≡ false)
      × ((match_allowed a c paths g).match_state ≡ IntentMatchState.exact_match)
unfolding match_paths
paths-exact a c paths reasons g h = ground arith

scopes_met :
    (a : NormalizedAction) (c : IntentContract) (paths : List String) (g : ResourceGraph)
    → (nonempty c.target_scopes ≡ false)
      ⊎ ((match_targets a c paths g (operation_allowed a c)).match_state
          ≡ IntentMatchState.exact_match)
    → ((nonempty c.target_scopes ≡ false) ⊎ (any (scope_matches a g paths) c.target_scopes ≡ true))
      × ((requires_path_or_graph_scope c.target_scopes ≡ false)
          ⊎ All (λ p. any (scope_matches a g (p ∷ [])) c.target_scopes ≡ true) paths)
unfolding matching_scopes requires_path_or_graph_scope
scopes_met a c paths g (inl bare) = (inl bare, inl (none_required c.target_scopes bare))
  where
    none_required :
        (ss : List ResourceScope) → nonempty ss ≡ false → requires_path_or_graph_scope ss ≡ false
    none_required [] h = refl
    none_required (s ∷ ss) h = cc
scopes_met a c paths g (inr met) =
    let t = targets-exact a c paths g (operation_allowed a c) met in
    (
      inr (sym (nonempty-filter (scope_matches a g paths) c.target_scopes) ∙ t.1),
      none_outside a c paths g t.2,
    )

paths-IsWithin :
    (a : NormalizedAction) (c : IntentContract) (paths reasons : List String) (g : ResourceGraph)
    → (match_paths a c paths reasons g).match_state ≡ IntentMatchState.exact_match
    → IsWithin a c paths reasons g
unfolding matching_scopes
paths-IsWithin a c paths reasons g h =
    let p = paths-exact a c paths reasons g h in
    let e = allowed-exact a c paths g p.3 in
    let m = scopes_met a c paths g e.1 in
    (
      p.0,
      p.1,
      sym (nonempty-filter (scope_matches a g paths) c.excluded_scopes) ∙ p.2,
      exact_allows a c e.0,
      m.0,
      m.1,
    )

pub validated :
    (r s : IntentMatchResult)
    → validate_match_result r ≡ ok s
    → (s.match_state ≡ r.match_state) × (s.decision_hint ≡ r.decision_hint)
unfolding validate_match_result
validated r s h = ground arith

module _ (stable_id : String → String → String → List String → String) where
  -- The action is not sensitive, its paths are valid, and it is within the contract.
  abbrev pub IsCovered : IntentContract → NormalizedAction → Type 0
  IsCovered c a =
      (g : ResourceGraph) × (safe_graph_for_paths stable_id (normalized_action_paths a).0 ≡ ok g)
      × IsWithin a c (normalized_action_paths a).0 (normalized_action_paths a).1 g

  -- An action that is matched exactly is covered by the contract.
  pub exact-IsCovered :
      (a : NormalizedAction) (c : IntentContract) (r : IntentMatchResult)
      → match_action_to_contract stable_id a c ≡ ok r
      → r.match_state ≡ IntentMatchState.exact_match
      → IsCovered c a
  unfolding match_action_to_contract
  exact-IsCovered a c r h e =
      let b = bind_ok (safe_graph_for_paths stable_id (normalized_action_paths a).0) _ r h in
      (b.0, b.1, paths-IsWithin a c _ _ b.0 (sym (validated _ r b.2).0 ∙ e))

  -- The hint of a result is the one of its state.
  pub match_action-hint :
      (a : NormalizedAction) (c : IntentContract) (r : IntentMatchResult)
      → match_action_to_contract stable_id a c ≡ ok r
      → r.decision_hint ≡ hint_of r.match_state
  unfolding match_action_to_contract
  match_action-hint a c r h =
      let b = bind_ok (safe_graph_for_paths stable_id (normalized_action_paths a).0) _ r h in
      let v = validated _ r b.2 in v.1 ∙ paths-hint a c _ _ b.0 ∙ ap hint_of (sym v.0)
