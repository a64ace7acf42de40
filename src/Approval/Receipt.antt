-- ===== src/Approval/Receipt.antt =====
-- src/rygnal/approval_receipt.py: the hash that binds an approval to its request.
use rygnal_core.Common.{
  String, Bool, true, false, not, ◌&&◌, ◌||◌, ◌≡◌, refl, ap, ◌∙◌, inl, inr, List, [], ◌∷◌, Option,
  none, some, if◌then◌else◌, ◌==◌, lookup, insert, lookup-insert, merge, filter, truthy, arith,
  eq_iff, eq_refl, Option-cases,
}
use mathlib.Core.Path.{subst}
use rygnal_core.Models.{
  Value, text, ApprovalStatus, approval_status_eq, ApprovalRequest, ApprovalDecision,
}

-- `calculate_approval_receipt_hash`: canonical JSON and SHA-256 of the payload that is made of the
-- request and the decision. None stands for `ApprovalReceiptPayloadError`.
abbrev pub Hasher : Type 0
Hasher = ApprovalRequest → ApprovalDecision → Option String

abbrev pub is_receipt_key : String → Bool
is_receipt_key k = k == "approval_receipt_schema_version" || k == "approval_receipt_hash"

-- `_without_receipt_metadata`
abbrev pub without_receipt_metadata : ApprovalDecision → ApprovalDecision
without_receipt_metadata d = record d {
  metadata = filter (λ (e : String × Value). not (is_receipt_key e.0)) d.metadata;
}

-- An existing hash that is a text, is not empty and differs.
abbrev pub conflicts : Option Value → String → Bool
conflicts (some (text s)) hash = truthy s && not (s == hash)
conflicts _ hash = false

-- The decision with the receipt's version and hash in place of the old ones.
abbrev pub signed : String → ApprovalDecision → ApprovalDecision
signed hash d = record d {
  metadata = merge (without_receipt_metadata d).metadata (
      ("approval_receipt_schema_version", text "approval-receipt.v1")
      ∷ ("approval_receipt_hash", text hash)
      ∷ []);
}

-- `attach_approval_receipt`: only an approval that is granted gets a receipt. None is an exception.
unfoldable pub attach_approval_receipt :
    Hasher → ApprovalRequest → ApprovalDecision → Option ApprovalDecision
attach_approval_receipt h r d =
    if not (approval_status_eq d.status ApprovalStatus.approved) || not d.approved
    then some d
    else elim (h r (without_receipt_metadata d)) [
      | none ↦ none
      | some hash ↦
          if conflicts (lookup "approval_receipt_hash" d.metadata) hash
          then none
          else some (signed hash d)
    ]

pub data ReceiptStatus : Type 0 where
  valid missing tampered : ReceiptStatus

-- The end of `verify_approval_receipt`, on the expected hash.
unfoldable pub verify_expected :
    Hasher → ApprovalRequest → ApprovalDecision → String → ReceiptStatus
verify_expected h r d expected =
    if truthy expected
    then elim (h r (without_receipt_metadata d)) [
      | none ↦ tampered
      | some actual ↦ if actual == expected then valid else tampered
    ]
    else missing

unfoldable pub verify_approval_receipt : Hasher → ApprovalRequest → ApprovalDecision → ReceiptStatus
unfolding verify_expected
verify_approval_receipt h r d = elim (lookup "approval_receipt_hash" d.metadata) [
  | some (text expected) ↦ verify_expected h r d expected
  | _ ↦ missing
]

abbrev free : List (String × Value) → List (String × Value)
free m = filter (λ (e : String × Value). not (is_receipt_key e.0)) m

-- Setting a key of a receipt does not change the rest.
free-insert :
    (k : String) (v : Value) (m : List (String × Value))
    → is_receipt_key k ≡ true
    → free (insert k v m) ≡ free m
free-insert k v [] h = ground arith
free-insert k v ((j, w) ∷ m) h = ground (arith, free-insert k v m h, eq_iff j k)

free-free : (m : List (String × Value)) → free (free m) ≡ free m
free-free [] = refl
free-free ((j, w) ∷ m) = ground (arith, free-free m)

lookup-inserted :
    (k : String) (v : Value) (m : List (String × Value)) → lookup k (insert k v m) ≡ some v
lookup-inserted k v m = ground (arith, lookup-insert k k v m, eq_refl k)

free-signed :
    (hash : String) (d : ApprovalDecision)
    → without_receipt_metadata (signed hash d) ≡ without_receipt_metadata d
free-signed hash d =
    let m = (without_receipt_metadata d).metadata in
    let version = insert "approval_receipt_schema_version" (text "approval-receipt.v1") m in
    ap (λ n. record d { metadata = n })
      (free-insert "approval_receipt_hash" (text hash) version refl
        ∙ free-insert "approval_receipt_schema_version" (text "approval-receipt.v1") m refl
        ∙ free-free d.metadata)

signed-verify :
    (h : Hasher) (r : ApprovalRequest) (d : ApprovalDecision) (hash : String)
    → h r (without_receipt_metadata d) ≡ some hash
    → truthy hash ≡ true
    → verify_approval_receipt h r (signed hash d) ≡ valid
unfolding verify_approval_receipt verify_expected
signed-verify h r d hash hashed solid = ground (
  arith,
  free-signed hash d,
  lookup-inserted "approval_receipt_hash" (text hash) (
      insert "approval_receipt_schema_version" (text "approval-receipt.v1")
        (without_receipt_metadata d).metadata),
  eq_refl hash,
)

-- The receipt attached to a granted approval verifies against the same request, for every hash that
-- is never the empty text.
pub attach-verify :
    (h : Hasher) (r : ApprovalRequest) (d e : ApprovalDecision)
    → ((x : ApprovalRequest) (y : ApprovalDecision) (s : String) → h x y ≡ some s → truthy s ≡ true)
    → d.status ≡ ApprovalStatus.approved
    → d.approved ≡ true
    → attach_approval_receipt h r d ≡ some e
    → verify_approval_receipt h r e ≡ valid
unfolding attach_approval_receipt verify_approval_receipt verify_expected
attach-verify h r d e solid s a made = elim (Option-cases (h r (without_receipt_metadata d))) [
  | inl refused ↦ ground arith
  | inr (hash, hashed) ↦
      let same : signed hash d ≡ e = ground arith in
      subst (λ x. verify_approval_receipt h r x ≡ valid) same
        (signed-verify h r d hash hashed (solid r (without_receipt_metadata d) hash hashed))
]
