-- ===== src/Approval/Lifecycle.antt =====
-- Every history of the in-memory queue (src/rygnal/approval_queue.py).
use rygnal_core.Common.{
  String, true, ◌≡◌, ◌≢◌, inl, inr, refl, ap, sym, ◌∙◌, List, [], ◌∷◌, none, some, if◌then◌else◌,
  ◌==◌, find, All, All-find, find-key, arith, eq_iff, Bool-cases, Option-cases,
}
use mathlib.Core.Path.{subst}
use Prim.{absurd}
use rygnal_core.Models.{ApprovalStatus, ApprovalRequest, ApprovalDecision}
use rygnal_core.Approval.State.{validate_transition}
use rygnal_core.Approval.Authorization.{ApprovalAuthorizationEngine, authorize}
use rygnal_core.Approval.Duties.{IsEntitled, authorize-approved}
use rygnal_core.Approval.Queue.{
  QueuedApproval, id_of, Answer, ok, err, store_item, stored, submit, get, decide_item,
  record_decision, decide, approve, reject,
}

-- The calls that change a queue.
pub data Call : Type 0 where
  submitted : ApprovalRequest → Call
  recorded : String → ApprovalDecision → Call
  approved_by rejected_by : String → String → String → String → Call

-- The state of the queue after a call, whatever the call answers.
abbrev pub after :
    ApprovalAuthorizationEngine
    → (String → String)
    → Call
    → List QueuedApproval
    → List QueuedApproval
after g redact (submitted r) q = submit r q
after g redact (recorded id d) q = (record_decision g id d q).1
after g redact (approved_by now by reason id) q = (approve g redact now by reason id q).1
after g redact (rejected_by now by reason id) q = (reject g redact now by reason id q).1

abbrev pub after_all :
    ApprovalAuthorizationEngine
    → (String → String)
    → List Call
    → List QueuedApproval
    → List QueuedApproval
after_all g redact [] q = q
after_all g redact (c ∷ cs) q = after_all g redact cs (after g redact c q)

-- The item holds a decision on its own request, by an entitled reviewer who is not the requester.
abbrev pub IsDecidedByAnother : ApprovalAuthorizationEngine → QueuedApproval → Type 0
IsDecidedByAnother g x =
    (d : ApprovalDecision) × (x.decision ≡ some d)
    × (d.approval_id ≡ x.request.approval_id)
    × (by : String) × (d.decided_by ≡ some by)
    × (by ≢ x.request.requested_by)
    × IsEntitled g x.request d by

-- What every item of a queue keeps.
abbrev IsGenuine : ApprovalAuthorizationEngine → QueuedApproval → Type 0
IsGenuine g x = x.status ≡ ApprovalStatus.approved → IsDecidedByAnother g x

store_item-All :
    (P : QueuedApproval → Type 0) (x : QueuedApproval) (q : List QueuedApproval)
    → P x
    → All P q
    → All P (store_item x q)
store_item-All P x [] p h = (p, tt)
store_item-All P x (y ∷ ys) p h = ground (arith, store_item-All P x ys p h.1)

-- What is stored has passed every check.
decide_item-ok :
    (g : ApprovalAuthorizationEngine) (id : String) (d : ApprovalDecision) (x y : QueuedApproval)
    → decide_item g id d x ≡ ok y
    → (d.approval_id ≡ id)
      × ((validate_transition x.status d.status).allowed ≡ true)
      × ((authorize g x.request d x.status).allowed ≡ true)
      × (record { request = x.request; status = d.status; decision = some d } ≡ y)
unfolding decide_item
decide_item-ok g id d x y e = ground (arith, eq_iff d.approval_id id)

decide_item-IsGenuine :
    (g : ApprovalAuthorizationEngine) (id : String) (d : ApprovalDecision) (x y : QueuedApproval)
    → id_of x ≡ id
    → decide_item g id d x ≡ ok y
    → IsGenuine g y
decide_item-IsGenuine g id d x y here e =
    let (same, moved, allowed, made) = decide_item-ok g id d x y e in
    subst (IsGenuine g) made (λ s.
      let (_, (by, named, other, entitled)) = authorize-approved g x.request d x.status s allowed in
      (d, refl, same ∙ sym here, by, named, other, entitled))

stored-AllGenuine :
    (g : ApprovalAuthorizationEngine) (id : String) (d : ApprovalDecision) (q : List QueuedApproval)
    (x : QueuedApproval) (a : Answer QueuedApproval)
    → decide_item g id d x ≡ a
    → id_of x ≡ id
    → All (IsGenuine g) q
    → All (IsGenuine g) (stored a q).1
stored-AllGenuine g id d q x (ok y) e here h =
    store_item-All (IsGenuine g) y q (decide_item-IsGenuine g id d x y here e) h
stored-AllGenuine g id d q x (err f) e here h = h

record_decision-AllGenuine :
    (g : ApprovalAuthorizationEngine) (id : String) (d : ApprovalDecision) (q : List QueuedApproval)
    → All (IsGenuine g) q
    → All (IsGenuine g) (record_decision g id d q).1
unfolding record_decision get
record_decision-AllGenuine g id d q h = elim (Option-cases (find id_of id q)) [
  | inl absent ↦ rw (absent, record_decision, get) h
  | inr (x, found) ↦
      rw (found, record_decision, get)
        (stored-AllGenuine g id d q x _ refl (find-key id_of id x q found) h)
]

-- Every call keeps the approved items genuine.
after-AllGenuine :
    (g : ApprovalAuthorizationEngine) (redact : String → String) (c : Call)
    (q : List QueuedApproval)
    → All (IsGenuine g) q
    → All (IsGenuine g) (after g redact c q)
unfolding approve reject decide
after-AllGenuine g redact (submitted r) q h = store_item-All (IsGenuine g) _ q (λ s. cc) h
after-AllGenuine g redact (recorded id d) q h = record_decision-AllGenuine g id d q h
after-AllGenuine g redact (approved_by now by reason id) q h = record_decision-AllGenuine g id _ q h
after-AllGenuine g redact (rejected_by now by reason id) q h = record_decision-AllGenuine g id _ q h

after_all-AllGenuine :
    (g : ApprovalAuthorizationEngine) (redact : String → String) (cs : List Call)
    (q : List QueuedApproval)
    → All (IsGenuine g) q
    → All (IsGenuine g) (after_all g redact cs q)
after_all-AllGenuine g redact [] q h = h
after_all-AllGenuine g redact (c ∷ cs) q h =
    after_all-AllGenuine g redact cs (after g redact c q) (after-AllGenuine g redact c q h)

-- Whatever calls an empty queue has answered, an approved item holds a decision on its own request
-- by a reviewer who is not the requester and whom the roles or the reviewer list entitle.
pub approved_by_another :
    (g : ApprovalAuthorizationEngine) (redact : String → String) (cs : List Call) (id : String)
    (x : QueuedApproval)
    → get id (after_all g redact cs []) ≡ ok x
    → x.status ≡ ApprovalStatus.approved
    → IsDecidedByAnother g x
unfolding get
approved_by_another g redact cs id x e approved =
    All-find id_of (IsGenuine g) id x (after_all g redact cs [])
      (after_all-AllGenuine g redact cs [] tt) (ground arith) approved

find-store_item :
    (id : String) (x : QueuedApproval) (q : List QueuedApproval)
    → find id_of id (store_item x q) ≡ (if id_of x == id then some x else find id_of id q)
find-store_item id x [] = refl
find-store_item id x (y ∷ ys) = ground (
  arith,
  find-store_item id x ys,
  eq_iff (id_of y) (id_of x),
  eq_iff (id_of x) id,
  eq_iff (id_of y) id,
)

decide_item-decided :
    (g : ApprovalAuthorizationEngine) (id : String) (d : ApprovalDecision) (x y : QueuedApproval)
    → x.status ≢ ApprovalStatus.pending
    → decide_item g id d x ≢ ok y
unfolding validate_transition
decide_item-decided g id d x y settled e =
    let (_, moved, _, _) = decide_item-ok g id d x y e in ground arith

stored-decided :
    (g : ApprovalAuthorizationEngine) (id j : String) (d : ApprovalDecision)
    (q : List QueuedApproval) (x z : QueuedApproval) (a : Answer QueuedApproval)
    → find id_of id q ≡ some x
    → x.status ≢ ApprovalStatus.pending
    → find id_of j q ≡ some z
    → decide_item g j d z ≡ a
    → find id_of id (stored a q).1 ≡ some x
stored-decided g id j d q x z (err f) there settled other e = there
stored-decided g id j d q x z (ok y) there settled other e =
    let (_, _, _, made) = decide_item-ok g j d z y e in
    let same = ap id_of made in
    elim (Bool-cases (id_of y == id)) [
      | inl equal ↦ absurd (
          decide_item-decided g j d z y
            (λ p. settled (ground (arith, find-key id_of j z q other, eq_iff (id_of y) id))) e)
      | inr unequal ↦ ground (arith, find-store_item id y q)
    ]

record_decision-decided :
    (g : ApprovalAuthorizationEngine) (id j : String) (d : ApprovalDecision) (x : QueuedApproval)
    (q : List QueuedApproval)
    → find id_of id q ≡ some x
    → x.status ≢ ApprovalStatus.pending
    → find id_of id (record_decision g j d q).1 ≡ some x
unfolding record_decision get
record_decision-decided g id j d x q there settled = elim (Option-cases (find id_of j q)) [
  | inl absent ↦ rw (absent, record_decision, get) there
  | inr (z, found) ↦
      rw (found, record_decision, get) (stored-decided g id j d q x z _ there settled found refl)
]

abbrev pub Resubmits : String → Call → Type 0
Resubmits id (submitted r) = r.approval_id ≡ id
Resubmits id _ = ⊥

after-decided :
    (g : ApprovalAuthorizationEngine) (redact : String → String) (c : Call) (id : String)
    (x : QueuedApproval) (q : List QueuedApproval)
    → ¬ Resubmits id c
    → find id_of id q ≡ some x
    → x.status ≢ ApprovalStatus.pending
    → find id_of id (after g redact c q) ≡ some x
unfolding approve reject decide
after-decided g redact (submitted r) id x q new there settled = ground (
  arith,
  find-store_item id (record { request = r; status = ApprovalStatus.pending; decision = none }) q,
  eq_iff r.approval_id id,
)
after-decided g redact (recorded j d) id x q new there settled =
    record_decision-decided g id j d x q there settled
after-decided g redact (approved_by now by reason j) id x q new there settled =
    record_decision-decided g id j _ x q there settled
after-decided g redact (rejected_by now by reason j) id x q new there settled =
    record_decision-decided g id j _ x q there settled

after_all-decided :
    (g : ApprovalAuthorizationEngine) (redact : String → String) (cs : List Call) (id : String)
    (x : QueuedApproval) (q : List QueuedApproval)
    → All (λ c. ¬ Resubmits id c) cs
    → find id_of id q ≡ some x
    → x.status ≢ ApprovalStatus.pending
    → find id_of id (after_all g redact cs q) ≡ some x
after_all-decided g redact [] id x q new there settled = there
after_all-decided g redact (c ∷ cs) id x q new there settled =
    after_all-decided g redact cs id x (after g redact c q) new.1
      (after-decided g redact c id x q new.0 there settled) settled

-- A decided item stays as it is through all later calls, where none submits its request again.
pub decided_once :
    (g : ApprovalAuthorizationEngine) (redact : String → String) (cs : List Call) (id : String)
    (x : QueuedApproval) (q : List QueuedApproval)
    → All (λ c. ¬ Resubmits id c) cs
    → get id q ≡ ok x
    → x.status ≢ ApprovalStatus.pending
    → get id (after_all g redact cs q) ≡ ok x
unfolding get
decided_once g redact cs id x q new e settled =
    ground (arith, after_all-decided g redact cs id x q new (ground arith) settled)
