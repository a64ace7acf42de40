-- ===== src/Limits/Levels.antt =====
-- When a limit is exceeded, and the level that follows (src/rygnal/diff_limits.py).
use rygnal_core.Common.{ℕ, ◌+◌, ◌<◌, true, ◌≡◌, ◌↔◌, ◌⊎◌, arith}
use rygnal_core.Limits.{
  low, high, critical, PatchDiff, changed_file_count, total_additions, total_deletions,
  binary_file_count, DiffLimitPolicy, limit_reason, evaluate_diff_limits, hard_limit_exceeded,
  overall_risk_level,
}

-- Some metric of the patch is above its limit.
abbrev pub Exceeds : PatchDiff → ℕ → ℕ → ℕ → ℕ → Type 0
Exceeds d files lines bytes binaries =
    (files < changed_file_count d)
    ⊎ (lines < total_additions d + total_deletions d)
    ⊎ (bytes < d.patch_size_bytes)
    ⊎ (binaries < binary_file_count d)

-- The report says that a hard limit is exceeded if and only if one of the four metrics is.
pub hard_limit_exceeded-Exceeds :
    (d : PatchDiff) (p : DiffLimitPolicy)
    → (hard_limit_exceeded (evaluate_diff_limits d p) ≡ true)
      ↔ Exceeds d p.hard_max_changed_files p.hard_max_total_changed_lines
          p.hard_max_patch_size_bytes p.hard_max_binary_files
unfolding evaluate_diff_limits limit_reason
hard_limit_exceeded-Exceeds d p = ((λ h. ground arith), (λ h. ground arith))

-- The level of a report is critical if and only if a hard limit is exceeded, high if and only if a
-- soft limit is exceeded and no hard one, and low if and only if neither is.
pub overall_risk_level-Exceeds :
    (d : PatchDiff) (p : DiffLimitPolicy)
    → ((overall_risk_level (evaluate_diff_limits d p) ≡ critical)
        ↔ Exceeds d p.hard_max_changed_files p.hard_max_total_changed_lines
            p.hard_max_patch_size_bytes p.hard_max_binary_files)
      × ((overall_risk_level (evaluate_diff_limits d p) ≡ high)
          ↔ (Exceeds d p.soft_max_changed_files p.soft_max_total_changed_lines
              p.soft_max_patch_size_bytes p.soft_max_binary_files)
            × ¬ Exceeds d p.hard_max_changed_files p.hard_max_total_changed_lines
                p.hard_max_patch_size_bytes p.hard_max_binary_files)
      × ((overall_risk_level (evaluate_diff_limits d p) ≡ low)
          ↔ (¬ Exceeds d p.soft_max_changed_files p.soft_max_total_changed_lines
              p.soft_max_patch_size_bytes p.soft_max_binary_files)
            × ¬ Exceeds d p.hard_max_changed_files p.hard_max_total_changed_lines
                p.hard_max_patch_size_bytes p.hard_max_binary_files)
unfolding evaluate_diff_limits limit_reason
overall_risk_level-Exceeds d p = (
  ((λ h. ground arith), (λ h. ground arith)),
  ((λ h. (ground arith, λ x. ground arith)), (λ h. ground arith)),
  ((λ h. ((λ x. ground arith), (λ x. ground arith))), (λ h. ground arith)),
)
