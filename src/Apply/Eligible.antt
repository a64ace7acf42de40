-- ===== src/Apply/Eligible.antt =====
-- A patch that is applied without an approval needs none (src/rygnal/safe_apply.py against
-- src/rygnal/patch_approval.py).
use mathlib.Core.Path.{subst}
use rygnal_core.Common.{
  ◌≤◌, String, Bool, true, false, ◌≡◌, refl, ap, inl, inr, List, [], ◌∷◌, ◌++◌, Option, none, some,
  map, nonempty, arith, All, ok, bind_ok, Bool-cases, nat_eq, ◌||◌,
}
use rygnal_core.Limits.{
  RiskLevel, low, critical, risk_level_eq, risk_level_order, highest_risk, higher,
}
use rygnal_core.Limits.Gate.{
  ChangeRiskReason, FileRiskClassification, ChangeRiskReport, GuardedChangeGateDecision,
  overall_level, blocked,
}
use rygnal_core.Apply.{
  GuardedPatch, is_low_risk_docs_or_tests, is_medium_or_high, reasons_of, file_approval_reasons,
  files_approval_reasons, approval_reasons, evaluate_patch_approval_requirement,
}
use rygnal_core.Apply.Safe.{
  SafePatchSkipReason, dedupe_skips, report_skip_reasons, unsafe_mode_skip_reason,
  file_skip_reasons, all_skip_reasons, auto_apply_skip_reasons, SafePatchApplyOutcome,
  SafePatchApplyResult, SafeSurroundings, auto_apply_safe_patch,
}

-- No reason of a file is above the file's level, as the classification makes them.
abbrev pub IsClassified : FileRiskClassification → Type 0
IsClassified f =
    All (λ (r : ChangeRiskReason). risk_level_order r.risk_level ≤ risk_level_order f.risk_level)
      f.reasons

highest_low :
    (ls : List RiskLevel) (d : RiskLevel)
    → highest_risk ls d ≡ low
    → (d ≡ low) × All (λ l. l ≡ low) ls
highest_low [] d h = (h, tt)
highest_low (l ∷ ls) d h = ground (arith, highest_low ls (higher d l) h)

nothing_deduped : (rs : List SafePatchSkipReason) → nonempty (dedupe_skips [] rs) ≡ false → rs ≡ []
nothing_deduped [] h = refl
nothing_deduped (r ∷ rs) h = cc

no_reasons :
    (path : Option String) (p : RiskLevel → Bool) (rs : List ChangeRiskReason)
    → All (λ (r : ChangeRiskReason). p r.risk_level ≡ false) rs
    → reasons_of path p rs ≡ []
no_reasons path p [] a = refl
no_reasons path p (r ∷ rs) a = ground (arith, no_reasons path p rs a.1)

nonempty-append : {A : Type 0} (xs ys : List A) → nonempty (xs ++ ys) ≡ (nonempty xs || nonempty ys)
nonempty-append [] ys = refl
nonempty-append (x ∷ xs) ys = refl

no_skips :
    (p : GuardedPatch) (report : ChangeRiskReport) (gate : GuardedChangeGateDecision)
    → nonempty (all_skip_reasons p report gate) ≡ false
    → (blocked gate ≡ false)
      × (nat_eq p.ignored_file_count 0 ≡ true)
      × (overall_level report ≡ low)
      × (nonempty (file_skip_reasons report.files) ≡ false)
no_skips p report gate h = ground (
  arith,
  nonempty-append (report_skip_reasons report.report_reasons) (file_skip_reasons report.files),
)

file_skips :
    (f : FileRiskClassification) (fs : List FileRiskClassification)
    → nonempty (file_skip_reasons (f ∷ fs)) ≡ false
    → (is_low_risk_docs_or_tests f ≡ true) × (nonempty (file_skip_reasons fs) ≡ false)
file_skips f fs h =
    ground (arith, nonempty-append (unsafe_mode_skip_reason f) (file_skip_reasons fs))

none_medium :
    (rs : List ChangeRiskReason)
    → All (λ (r : ChangeRiskReason). risk_level_order r.risk_level ≤ 0) rs
    → All (λ (r : ChangeRiskReason). is_medium_or_high r.risk_level ≡ false) rs
none_medium [] a = tt
none_medium (r ∷ rs) a = ground (arith, none_medium rs a.1)

no_file_reasons :
    (f : FileRiskClassification)
    → IsClassified f
    → is_low_risk_docs_or_tests f ≡ true
    → file_approval_reasons f ≡ []
unfolding file_approval_reasons
no_file_reasons f c h =
    let level : f.risk_level ≡ low = ground arith in
    let small =
      subst
        (λ v.
          All (λ (r : ChangeRiskReason). risk_level_order r.risk_level ≤ risk_level_order v)
            f.reasons)
        level c in
    ground
      (arith, no_reasons (some f.path) is_medium_or_high f.reasons (none_medium f.reasons small))

files_unrequired :
    (fs : List FileRiskClassification)
    → All IsClassified fs
    → nonempty (file_skip_reasons fs) ≡ false
    → files_approval_reasons fs ≡ []
files_unrequired [] a h = refl
files_unrequired (f ∷ fs) a h =
    let s = file_skips f fs h in
    ground (arith, no_file_reasons f a.0 s.0, files_unrequired fs a.1 s.1)

low_report :
    (ls : List RiskLevel) (rs : List ChangeRiskReason)
    → All (λ l. l ≡ low) (ls ++ map (λ (x : ChangeRiskReason). x.risk_level) rs)
    → All
        (λ (r : ChangeRiskReason).
          (is_medium_or_high r.risk_level || risk_level_eq r.risk_level critical) ≡ false)
        rs
low_report [] [] a = tt
low_report [] (r ∷ rs) a = ground (arith, low_report [] rs a.1)
low_report (l ∷ ls) rs a = low_report ls rs a.1

unrequired :
    (p : GuardedPatch) (report : ChangeRiskReport) (gate : GuardedChangeGateDecision)
    → All IsClassified report.files
    → nonempty (all_skip_reasons p report gate) ≡ false
    → (evaluate_patch_approval_requirement p report gate).required ≡ false
unfolding evaluate_patch_approval_requirement approval_reasons
unrequired p report gate a h =
    let s = no_skips p report gate h in
    let files = map (λ (f : FileRiskClassification). f.risk_level) report.files in
    let levels =
      highest_low (files ++ map (λ (x : ChangeRiskReason). x.risk_level) report.report_reasons) low
        s.2 in
    let own =
      no_reasons none (λ l. is_medium_or_high l || risk_level_eq l critical) report.report_reasons
        (low_report files report.report_reasons levels.1) in
    let changed = files_unrequired report.files a s.3 in
    let safe : risk_level_eq (overall_level report) low ≡ true =
      ap (λ l. risk_level_eq l low) s.2 in
    rw (s.0, s.1, safe, own, changed) refl

-- A patch that is applied without an approval, under levels that are not below their reasons, needs
-- no approval by the same report and gate.
pub auto_apply-unrequired :
    (w : SafeSurroundings) (target : String) (p : GuardedPatch) (report : ChangeRiskReport)
    (gate : GuardedChangeGateDecision) (r : SafePatchApplyResult)
    → All IsClassified report.files
    → auto_apply_safe_patch w target p report gate ≡ ok r
    → r.outcome ≡ SafePatchApplyOutcome.applied
    → (evaluate_patch_approval_requirement p report gate).required ≡ false
unfolding auto_apply_safe_patch auto_apply_skip_reasons
auto_apply-unrequired w target p report gate r a h done =
    let b = bind_ok w.checked _ r h in
    elim (Bool-cases (nonempty (auto_apply_skip_reasons p report gate))) [
      | inl skips ↦ ground (arith, b.2, skips, done)
      | inr none_found ↦
          let none_at_all = nothing_deduped (all_skip_reasons p report gate) none_found in
          unrequired p report gate a (ap nonempty none_at_all)
    ]
