-- ===== src/Limits/Tests.antt =====
-- A large patch, and the theorems applied to it.
use rygnal_core.Common.{◌≡◌, ◌↔◌, true, false, [], ◌∷◌, none, some, All}
use rygnal_core.Limits.{
  low, high, critical, PatchDiff, default_diff_limit_policy, evaluate_diff_limits,
  hard_limit_exceeded, overall_risk_level,
}
use rygnal_core.Limits.Levels.{Exceeds, hard_limit_exceeded-Exceeds, overall_risk_level-Exceeds}
use rygnal_core.Limits.Gate.{
  ChangeRiskReport, GuardedChangeBlockReason, evaluate_guarded_change_gate, blocked,
  blocked-has_critical,
}

abbrev large : PatchDiff
large = record {
  baseline_commit_sha = "base";
  patch_sha256 = "d";
  patch_size_bytes = 2000;
  files =
      record { path = "a"; additions = some 700; deletions = some 200; binary = false }
      ∷ record { path = "b"; additions = none; deletions = none; binary = true }
      ∷ [];
}

hard_limit_exceeded-Exceeds_example :
    (hard_limit_exceeded (evaluate_diff_limits large default_diff_limit_policy) ≡ true)
    ↔ Exceeds large 250 10000 1000000 10
hard_limit_exceeded-Exceeds_example = hard_limit_exceeded-Exceeds large default_diff_limit_policy

overall_risk_level-Exceeds_example :
    ((overall_risk_level (evaluate_diff_limits large default_diff_limit_policy) ≡ critical)
      ↔ Exceeds large 250 10000 1000000 10)
    × ((overall_risk_level (evaluate_diff_limits large default_diff_limit_policy) ≡ high)
        ↔ Exceeds large 25 800 100000 0 × ¬ Exceeds large 250 10000 1000000 10)
    × ((overall_risk_level (evaluate_diff_limits large default_diff_limit_policy) ≡ low)
        ↔ (¬ Exceeds large 25 800 100000 0) × ¬ Exceeds large 250 10000 1000000 10)
overall_risk_level-Exceeds_example = overall_risk_level-Exceeds large default_diff_limit_policy

abbrev secret_found : ChangeRiskReport
secret_found = record {
  baseline_commit_sha = "base";
  patch_sha256 = "d";
  files =
      record {
        path = ".env";
        risk_level = critical;
        binary = false;
        old_mode = none;
        new_mode = none;
        mode_changed = false;
        reasons =
            record { code = "secret"; risk_level = critical; reason = "a secret" }
            ∷ record { code = "new"; risk_level = low; reason = "a new file" }
            ∷ [];
      }
      ∷ [];
  report_reasons = [];
}

blocked-has_critical_example :
    (blocked (evaluate_guarded_change_gate secret_found) ≡ true)
    × All
        (λ (x : GuardedChangeBlockReason). x.risk_level ≡ critical)
        (evaluate_guarded_change_gate secret_found).block_reasons
blocked-has_critical_example = blocked-has_critical secret_found
