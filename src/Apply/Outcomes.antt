-- ===== src/Apply/Outcomes.antt =====
-- What stands behind a patch that was applied, and that a use that Git refused can be tried again
-- (src/rygnal/approved_apply.py, src/rygnal/patch_approval.py).
use Prim.Native.Nat.{◌*◌}
use rygnal_core.Common.{
  ℕ, suc, ◌+◌, ◌≤◌, String, true, false, ◌≡◌, refl, sym, ap, ◌∙◌, inl, inr, List, ◌∷◌, some, ok,
  err, ◌>>=◌, bind_ok, arith, strip, length, eq_iff,
}
use rygnal_core.Models.{text, ApprovalStatus, ApprovalRequest, ApprovalDecision}
use rygnal_core.Policy.Equality.{value_eq}
use rygnal_core.Approval.Receipt.{Hasher, ReceiptStatus, verify_approval_receipt}
use rygnal_core.Limits.Gate.{blocked, evaluate_guarded_change_gate}
use rygnal_core.Apply.{GuardedPatch}
use rygnal_core.Apply.Granted.{
  Clock, positive, decided_text, parse_approval_timestamp, ensure_times,
  ensure_patch_approval_not_expired, ensure_bound, ensure_approved, assert_approval_receipt_valid,
  assert_patch_approval_granted,
}
use rygnal_core.Apply.Approved.{
  UseKey, ApplyEvent, key_in, ensure_target_at_baseline, approval_use_key, Surroundings, State,
  Call, ensure_requirement, ensure_git_repo_root, ensure_applicable,
  ensure_approval_not_previously_applied, apply_reserved, log_applied, apply_approved_patch,
  result_of,
}
use rygnal_core.Apply.Effects.{apply-cases, apply_reserved-failed}

-- The approval is on this patch, given, signed, and made no more than an hour ago.
abbrev pub IsGranted : Hasher → Clock → Call → Type 0
IsGranted h clock c =
    (c.request.approval_id ≡ c.decision.approval_id)
    × (value_eq c.request.target (text c.patch.diff.patch_sha256) ≡ true)
    × (c.decision.status ≡ ApprovalStatus.approved)
    × (c.decision.approved ≡ true)
    × (verify_approval_receipt h c.request c.decision ≡ ReceiptStatus.valid)
    × ((created : ℕ) × (clock (strip c.request.created_at) ≡ some created)
        × (created ≤ c.now)
        × (c.now ≤ created + 3600 * 1000000))

bound_facts :
    (r : ApprovalRequest) (d : ApprovalDecision) (p : GuardedPatch)
    → ensure_bound r d p ≡ ok tt
    → (r.approval_id ≡ d.approval_id) × (value_eq r.target (text p.diff.patch_sha256) ≡ true)
unfolding ensure_bound
bound_facts r d p h = ground (arith, eq_iff r.approval_id d.approval_id)

approved_facts :
    (d : ApprovalDecision)
    → ensure_approved d ≡ ok tt
    → (d.status ≡ ApprovalStatus.approved) × (d.approved ≡ true)
approved_facts d h = ground arith

receipt_facts :
    (h : Hasher) (r : ApprovalRequest) (d : ApprovalDecision)
    → assert_approval_receipt_valid h r d ≡ ok tt
    → verify_approval_receipt h r d ≡ ReceiptStatus.valid
unfolding assert_approval_receipt_valid
receipt_facts h r d e = ground arith

times_facts :
    (created decided now ttl : ℕ)
    → ensure_times created decided now ttl ≡ ok tt
    → (created ≤ now) × (now ≤ created + ttl * 1000000)
unfolding ensure_times
times_facts created decided now ttl h = ground arith

parsed :
    (clock : Clock) (value field : String) (t : ℕ)
    → parse_approval_timestamp clock value field ≡ ok t
    → clock (strip value) ≡ some t
parsed clock value field t h = ground arith

expiry_facts :
    (clock : Clock) (r : ApprovalRequest) (d : ApprovalDecision) (now ttl : ℕ)
    → ensure_patch_approval_not_expired clock r d now ttl ≡ ok tt
    → (created : ℕ) × (clock (strip r.created_at) ≡ some created)
      × (created ≤ now)
      × (now ≤ created + ttl * 1000000)
unfolding ensure_patch_approval_not_expired
expiry_facts clock r d now ttl h =
    let solid = bind_ok (positive ttl) _ _ h in
    let created =
      bind_ok (parse_approval_timestamp clock r.created_at "approval request creation time") _ _
        solid.2 in
    let given = bind_ok (decided_text d.decided_at) _ _ created.2 in
    let decided =
      bind_ok (parse_approval_timestamp clock given.0 "approval decision time") _ _ given.2 in
    let within = times_facts created.0 decided.0 now ttl decided.2 in
    (
      created.0,
      parsed clock r.created_at "approval request creation time" created.0 created.1,
      within.0,
      within.1,
    )

IsGranted-facts :
    (h : Hasher) (clock : Clock) (c : Call)
    → assert_patch_approval_granted h clock c.request c.decision c.patch c.now 3600 ≡ ok tt
    → IsGranted h clock c
unfolding assert_patch_approval_granted
IsGranted-facts h clock c e =
    let bound = bind_ok (ensure_bound c.request c.decision c.patch) _ _ e in
    let timely =
      bind_ok (ensure_patch_approval_not_expired clock c.request c.decision c.now 3600) _ _
        bound.2 in
    let approved = bind_ok (ensure_approved c.decision) _ _ timely.2 in
    let b = bound_facts c.request c.decision c.patch bound.1 in
    let a = approved_facts c.decision approved.1 in
    (
      b.0,
      b.1,
      a.0,
      a.1,
      receipt_facts h c.request c.decision approved.2,
      expiry_facts clock c.request c.decision c.now 3600 timely.1,
    )

requirement_facts :
    (c : Call)
    → ensure_requirement c ≡ ok tt
    → blocked (evaluate_guarded_change_gate c.report) ≡ false
requirement_facts c h = ground arith

applicable_facts :
    (h : Hasher) (clock : Clock) (w : Surroundings) (c : Call)
    → ensure_applicable h clock w c ≡ ok tt
    → (blocked (evaluate_guarded_change_gate c.report) ≡ false) × IsGranted h clock c
unfolding ensure_applicable
applicable_facts h clock w c e =
    let root = bind_ok (ensure_git_repo_root w c.target_repo) _ _ e in
    let safe = bind_ok w.paths_safe _ _ root.2 in
    let required = bind_ok (ensure_requirement c) _ _ safe.2 in
    let granted =
      bind_ok (assert_patch_approval_granted h clock c.request c.decision c.patch c.now 3600) _ _
        required.2 in
    (requirement_facts c required.1, IsGranted-facts h clock c granted.1)

longer : {A : Type 0} (x : A) (xs ys : List A) → ys ≡ xs → ys ≡ x ∷ xs → length xs ≡ suc (length xs)
longer x xs ys same more = ap length (sym same ∙ more)

-- A patch that Git applied for a call is not blocked, and its approval is on the patch, given, signed
-- and made no more than an hour ago.
pub applied-IsGranted :
    (h : Hasher) (clock : Clock) (w : Surroundings) (c : Call) (s : State)
    → (apply_approved_patch h clock w c s).1.applied
      ≡ approval_use_key c.request c.patch ∷ s.applied
    → (blocked (evaluate_guarded_change_gate c.report) ≡ false) × IsGranted h clock c
applied-IsGranted h clock w c s a = elim (apply-cases h clock w c s) [
  | inl same ↦
      let clash =
        longer (approval_use_key c.request c.patch) s.applied _ (ap (λ (x : State). x.applied) same)
          a in
      ground (arith, clash)
  | inr ran ↦ applicable_facts h clock w c ran.0
]

-- The same, with a Git that takes the patch and a log that takes the event.
abbrev pub recovered : Surroundings → Surroundings
recovered w = record w { patch_applies = ok tt; patch_applied = ok tt; written = ok tt }

recovered_checks :
    (h : Hasher) (clock : Clock) (w : Surroundings) (c : Call)
    → ensure_applicable h clock (recovered w) c ≡ ensure_applicable h clock w c
unfolding ensure_applicable ensure_git_repo_root ensure_target_at_baseline
recovered_checks h clock w c = refl

recovered_history :
    (w : Surroundings) (k : UseKey) (events : List ApplyEvent)
    → ensure_approval_not_previously_applied (recovered w) k events
      ≡ ensure_approval_not_previously_applied w k events
unfolding ensure_approval_not_previously_applied
recovered_history w k events = refl

reserved_applies :
    (w : Surroundings) (c : Call) (s : State)
    → key_in (approval_use_key c.request c.patch) s.used ≡ false
    → (apply_reserved (recovered w) c (approval_use_key c.request c.patch) s).0 ≡ ok (result_of c)
unfolding apply_reserved log_applied
reserved_applies w c s fresh = rw (fresh) refl

-- A call that passes the checks under a new use, and for which Git fails, leaves the state as it was,
-- and the call that is made again once Git and the log work applies the patch.
pub apply-retry :
    (h : Hasher) (clock : Clock) (w : Surroundings) (c : Call) (s : State) (e : String)
    → ensure_applicable h clock w c ≡ ok tt
    → ensure_approval_not_previously_applied w (approval_use_key c.request c.patch) s.events ≡ ok tt
    → key_in (approval_use_key c.request c.patch) s.used ≡ false
    → (w.patch_applies >>= λ done. w.patch_applied) ≡ err e
    → let t = (apply_approved_patch h clock w c s).1 in
      (t ≡ s) × ((apply_approved_patch h clock (recovered w) c t).0 ≡ ok (result_of c))
unfolding apply_approved_patch
apply-retry h clock w c s e checked unlogged fresh failed =
    let back = apply_reserved-failed w c (approval_use_key c.request c.patch) s e fresh failed in
    let same : (apply_approved_patch h clock w c s).1 ≡ s =
      rw (checked, unlogged, apply_approved_patch) back in
    let k = approval_use_key c.request c.patch in
    let checked' = recovered_checks h clock w c ∙ checked in
    let unlogged' = recovered_history w k s.events ∙ unlogged in
    let again : (apply_approved_patch h clock (recovered w) c s).0 ≡ ok (result_of c) =
      rw (checked', unlogged', apply_approved_patch) (reserved_applies w c s fresh) in
    (same, ap (λ x. (apply_approved_patch h clock (recovered w) c x).0) same ∙ again)
