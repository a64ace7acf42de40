-- ===== src/Apply/Replay.antt =====
-- Any sequence of calls of `apply_approved_patch`: no approval is used twice
-- (src/rygnal/approved_apply.py).
use mathlib.Core.Path.{subst}
use rygnal_core.Common.{
  Bool, true, false, ◌||◌, ◌≡◌, refl, sym, ap, ◌∙◌, inl, inr, List, [], ◌∷◌, ◌++◌, ◌&&◌, ◌==◌,
  lower, includes, any, ok, arith, All, eq_iff, Bool-cases,
}
use rygnal_core.Policy.Equality.{value_eq}
use rygnal_core.Approval.Receipt.{Hasher}
use rygnal_core.Apply.Redaction.{redact_metadata, redact_sensitive_value, is_sensitive_key}
use rygnal_core.Apply.Granted.{Clock}
use rygnal_core.Apply.Approved.{
  UseKey, key_eq, key_in, approval_use_key, ApplyEvent, Surroundings, State, Call,
  event_matches_key, apply_event, apply_approved_patch,
}
use rygnal_core.Apply.Effects.{IsApplied, events_after, apply-cases, key_eq_refl}

-- No two keys are equal.
abbrev pub Distinct : List UseKey → Type 0
Distinct [] = Unit
Distinct (k ∷ ks) = (key_in k ks ≡ false) × Distinct ks

key_same : (j k : UseKey) → key_eq j k ≡ true → j ≡ k
key_same (a, b, c) (d, e, f) h = ground (arith, eq_iff a d, eq_iff b e, eq_iff c f)

-- A key that has not the property is not among keys that have it.
not_among :
    (p : UseKey → Bool) (k : UseKey) (ks : List UseKey)
    → All (λ j. p j ≡ true) ks
    → p k ≡ false
    → key_in k ks ≡ false
not_among p k [] a h = refl
not_among p k (j ∷ ks) a h = elim (Bool-cases (key_eq k j)) [
  | inl same ↦ let clash = sym (ap p (key_same k j same) ∙ a.0) ∙ h in cc
  | inr other ↦ ground (arith, not_among p k ks a.1 h)
]

All-map :
    (P Q : UseKey → Type 0) (ks : List UseKey) → ((k : UseKey) → P k → Q k) → All P ks → All Q ks
All-map P Q [] f a = tt
All-map P Q (k ∷ ks) f a = (f k a.0, All-map P Q ks f a.1)

-- Every use that Git applied is in the process's set.
abbrev IsUsed : State → Type 0
IsUsed s = Distinct s.applied × All (λ k. key_in k s.used ≡ true) s.applied

IsUsed-kept :
    (w : Surroundings) (k : UseKey) (s t : State) → IsUsed s → IsApplied w k s t → IsUsed t
IsUsed-kept w k s t i (fresh, unlogged, used, applied, events) =
    subst (λ ks. Distinct ks × All (λ j. key_in j t.used ≡ true) ks) (sym applied)
      (subst (λ us. Distinct (k ∷ s.applied) × All (λ j. key_in j us ≡ true) (k ∷ s.applied))
        (sym used)
        (
          (not_among (λ j. key_in j s.used) k s.applied i.1 fresh, i.0),
          (
            ground (arith, key_eq_refl k),
            All-map (λ j. key_in j s.used ≡ true) (λ j. key_in j (k ∷ s.used) ≡ true) s.applied
                (λ j e. ground arith) i.1,
          ),
        ))

pub any-append :
    {A : Type 0} (p : A → Bool) (xs ys : List A) → any p (xs ++ ys) ≡ (any p xs || any p ys)
any-append p [] ys = refl
any-append p (x ∷ xs) ys = ground (arith, any-append p xs ys)

-- The redaction leaves the texts of a use as they are.
abbrev pub Unredacted : Surroundings → UseKey → Type 0
Unredacted w k =
    (w.redact_sensitive_string k.0 ≡ k.0)
    × (w.redact_sensitive_string k.1 ≡ k.1)
    × (w.redact_sensitive_string k.2 ≡ k.2)

-- The logged event of a use matches it where the redaction leaves its three texts.
pub event_matches_key-apply_event :
    (w : Surroundings) (k : UseKey)
    → event_matches_key k (apply_event w k) ≡ (
        w.redact_sensitive_string k.0 == k.0
        && (w.redact_sensitive_string k.1 == k.1 && w.redact_sensitive_string k.2 == k.2))
unfolding event_matches_key value_eq redact_metadata redact_sensitive_value is_sensitive_key lower
    includes
event_matches_key-apply_event w k = refl

matches_own :
    (w : Surroundings) (k : UseKey) → Unredacted w k → event_matches_key k (apply_event w k) ≡ true
matches_own w k (a, b, c) = ground (
  arith,
  event_matches_key-apply_event w k,
  eq_iff (w.redact_sensitive_string k.0) k.0,
  eq_iff (w.redact_sensitive_string k.1) k.1,
  eq_iff (w.redact_sensitive_string k.2) k.2,
)

added :
    (w : Surroundings) (k : UseKey) (events : List ApplyEvent)
    → Unredacted w k
    → any (event_matches_key k) (events ++ apply_event w k ∷ []) ≡ true
added w k events plain =
    ground
      (arith, any-append (event_matches_key k) events (apply_event w k ∷ []), matches_own w k plain)

-- Every use that Git applied is in the log.
abbrev IsLogged : State → Type 0
IsLogged s = Distinct s.applied × All (λ k. any (event_matches_key k) s.events ≡ true) s.applied

written_events :
    (w : Surroundings) (k : UseKey) (events : List ApplyEvent)
    → w.written ≡ ok tt
    → events_after w k events ≡ events ++ apply_event w k ∷ []
written_events w k events h = rw (h) refl

IsLogged-kept :
    (w : Surroundings) (k : UseKey) (s t : State)
    → w.written ≡ ok tt
    → Unredacted w k
    → IsLogged s
    → IsApplied w k s t
    → IsLogged t
IsLogged-kept w k s t written plain i (fresh, unlogged, used, applied, events) =
    let known : t.events ≡ s.events ++ apply_event w k ∷ [] =
      events ∙ written_events w k s.events written in
    subst (λ ks. Distinct ks × All (λ j. any (event_matches_key j) t.events ≡ true) ks)
      (sym applied)
      (subst
        (λ es.
          Distinct (k ∷ s.applied) × All (λ j. any (event_matches_key j) es ≡ true) (k ∷ s.applied))
        (sym known)
        (
          (not_among (λ j. any (event_matches_key j) s.events) k s.applied i.1 unlogged, i.0),
          (
            added w k s.events plain,
            All-map (λ j. any (event_matches_key j) s.events ≡ true)
                (λ j. any (event_matches_key j) (s.events ++ apply_event w k ∷ []) ≡ true) s.applied
                (λ j e.
                  ground (arith, any-append (event_matches_key j) s.events (apply_event w k ∷ [])))
                i.1,
          ),
        ))

module _ (h : Hasher) (clock : Clock) where
  -- Calls in one process, whatever they find outside.
  pub data Calls : State → State → Type 0 where
    done : (s : State) → Calls s s
    call :
        (w : Surroundings) (c : Call) (s : State) {t : State}
        → Calls (apply_approved_patch h clock w c s).1 t
        → Calls s t

  Calls-IsUsed : {s t : State} → Calls s t → IsUsed s → IsUsed t
  Calls-IsUsed (done s) i = i
  Calls-IsUsed (call w c s rest) i = Calls-IsUsed rest (elim (apply-cases h clock w c s) [
    | inl same ↦ subst IsUsed (sym same) i
    | inr ran ↦ IsUsed-kept w _ s _ i ran.1
  ])

  -- In one process, from a state in which Git has applied nothing, whatever Git, the files and the log
  -- do, Git applies no patch twice under one approval.
  pub used_once : (s t : State) → s.applied ≡ [] → Calls s t → Distinct t.applied
  used_once s t none_yet calls =
      (Calls-IsUsed calls (
        subst (λ ks. Distinct ks × All (λ k. key_in k s.used ≡ true) ks) (sym none_yet) (tt, tt))).0

  -- Calls whose audit events are written and keep their texts in the redaction, and restarts of the
  -- process, which forget its set.
  pub data Runs : State → State → Type 0 where
    finished : (s : State) → Runs s s
    called :
        (w : Surroundings) (c : Call) (s : State) {t : State}
        → w.written ≡ ok tt
        → Unredacted w (approval_use_key c.request c.patch)
        → Runs (apply_approved_patch h clock w c s).1 t
        → Runs s t
    restarted : (s : State) {t : State} → Runs (record s { used = [] }) t → Runs s t

  Runs-IsLogged : {s t : State} → Runs s t → IsLogged s → IsLogged t
  Runs-IsLogged (finished s) i = i
  Runs-IsLogged (restarted s rest) i = Runs-IsLogged rest i
  Runs-IsLogged (called w c s written plain rest) i =
      Runs-IsLogged rest (elim (apply-cases h clock w c s) [
        | inl same ↦ subst IsLogged (sym same) i
        | inr ran ↦ IsLogged-kept w _ s _ written plain i ran.1
      ])

  -- From a state in which Git has applied nothing, where the audit event of each applied patch is
  -- written to the one log of all calls, and the redaction leaves its approval, digest and baseline
  -- as they are, Git applies no patch twice under one approval, however often the process restarts.
  pub never_replayed : (s t : State) → s.applied ≡ [] → Runs s t → Distinct t.applied
  never_replayed s t none_yet runs =
      (Runs-IsLogged runs (
        subst (λ ks. Distinct ks × All (λ k. any (event_matches_key k) s.events ≡ true) ks)
          (sym none_yet) (tt, tt))).0
