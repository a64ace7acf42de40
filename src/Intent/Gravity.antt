-- ===== src/Intent/Gravity.antt =====
-- The precedence of match states (src/rygnal/intent_fallback_policy.py) against an order of gravity.
use rygnal_core.Common.{
  ℕ, Bool, true, false, ◌≡◌, refl, ap, ◌∙◌, List, [], ◌∷◌, all, nonempty, ltb, arith, All,
  if◌then◌else◌,
}
use rygnal_core.Intent.{IntentMatchState, IntentMatchResult, match_state_eq}
use rygnal_core.Intent.Coverage.{hint_of}
use rygnal_core.Intent.Fallback.{has_state, recommended_fallback}

abbrev pub gravity : IntentMatchState → ℕ
gravity IntentMatchState.exact_match = 0
gravity IntentMatchState.partial_match = 1
gravity IntentMatchState.drift = 2
gravity IntentMatchState.conflict = 3
gravity IntentMatchState.unknown = 4
gravity IntentMatchState.hard_sensitive = 5

abbrev pub graver : IntentMatchState → IntentMatchState → IntentMatchState
graver s t = if ltb (gravity t) (gravity s) then s else t

-- The gravest state of the results.
abbrev pub gravest : List IntentMatchResult → IntentMatchState
gravest [] = IntentMatchState.exact_match
gravest (r ∷ rs) = graver r.match_state (gravest rs)

-- The state that the cascade of tests finds.
abbrev cascade : List IntentMatchResult → IntentMatchState
cascade rs =
    if has_state rs IntentMatchState.hard_sensitive
    then IntentMatchState.hard_sensitive
    else if has_state rs IntentMatchState.unknown
    then IntentMatchState.unknown
    else if has_state rs IntentMatchState.conflict
    then IntentMatchState.conflict
    else if has_state rs IntentMatchState.drift
    then IntentMatchState.drift
    else if has_state rs IntentMatchState.partial_match
    then IntentMatchState.partial_match
    else IntentMatchState.exact_match

cascade-cons :
    (r : IntentMatchResult) (rs : List IntentMatchResult)
    → cascade (r ∷ rs) ≡ graver r.match_state (cascade rs)
cascade-cons r rs = elim (r.match_state) [
  | IntentMatchState.exact_match ↦ ground arith
  | IntentMatchState.partial_match ↦ ground arith
  | IntentMatchState.drift ↦ ground arith
  | IntentMatchState.conflict ↦ ground arith
  | IntentMatchState.unknown ↦ ground arith
  | IntentMatchState.hard_sensitive ↦ ground arith
]

cascade-gravest : (rs : List IntentMatchResult) → cascade rs ≡ gravest rs
cascade-gravest [] = refl
cascade-gravest (r ∷ rs) = cascade-cons r rs ∙ ap (graver r.match_state) (cascade-gravest rs)

abbrev all_exact : List IntentMatchResult → Bool
all_exact rs =
    all (λ (r : IntentMatchResult). match_state_eq r.match_state IntentMatchState.exact_match) rs

exact_or_not :
    (s : IntentMatchState)
    → (match_state_eq s IntentMatchState.hard_sensitive ≡ false)
    → (match_state_eq s IntentMatchState.unknown ≡ false)
    → (match_state_eq s IntentMatchState.conflict ≡ false)
    → (match_state_eq s IntentMatchState.drift ≡ false)
    → (match_state_eq s IntentMatchState.partial_match ≡ false)
    → match_state_eq s IntentMatchState.exact_match ≡ true
exact_or_not s a b c d e = ground arith

rest_exact :
    (rs : List IntentMatchResult)
    → has_state rs IntentMatchState.hard_sensitive ≡ false
    → has_state rs IntentMatchState.unknown ≡ false
    → has_state rs IntentMatchState.conflict ≡ false
    → has_state rs IntentMatchState.drift ≡ false
    → has_state rs IntentMatchState.partial_match ≡ false
    → all_exact rs ≡ true
rest_exact [] a b c d e = refl
rest_exact (r ∷ rs) a b c d e = ground (arith, rest_exact rs, exact_or_not r.match_state)

recommended-cascade :
    (rs : List IntentMatchResult)
    → nonempty rs ≡ true
    → ((recommended_fallback rs).state ≡ cascade rs)
      × ((recommended_fallback rs).hint ≡ hint_of (cascade rs))
unfolding recommended_fallback
recommended-cascade rs h = ground (arith, rest_exact rs)

-- The recommendation for results, one at least, is the gravest of their states and its hint: an
-- exact match, then a partial one, drift, conflict, unknown and hard sensitive.
pub recommended-gravest :
    (rs : List IntentMatchResult)
    → nonempty rs ≡ true
    → ((recommended_fallback rs).state ≡ gravest rs)
      × ((recommended_fallback rs).hint ≡ hint_of (gravest rs))
recommended-gravest rs h =
    let c = recommended-cascade rs h in
    (c.0 ∙ cascade-gravest rs, c.1 ∙ ap hint_of (cascade-gravest rs))

-- Where the gravest state is an exact match, each is.
pub gravest_exact :
    (rs : List IntentMatchResult)
    → gravest rs ≡ IntentMatchState.exact_match
    → All (λ (r : IntentMatchResult). r.match_state ≡ IntentMatchState.exact_match) rs
gravest_exact [] h = tt
gravest_exact (r ∷ rs) h = ground (arith, gravest_exact rs)
