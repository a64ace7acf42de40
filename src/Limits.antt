-- ===== src/Limits.antt =====
-- src/rygnal/diff_limits.py: soft and hard limits on the size of a patch, with the totals of
-- `PatchDiff` (src/rygnal/patch_diff.py).
pub mod Gate
pub mod Levels
mod Tests
pub use rygnal_core.Risk.{RiskLevel, low, medium, high, critical, risk_level_eq}
use rygnal_core.Common.{
  ℕ, ◌+◌, String, Bool, true, false, ◌||◌, List, [], ◌∷◌, ◌++◌, Option, none, some, concat, length,
  any, ltb, if◌then◌else◌,
}

-- `RISK_LEVEL_ORDER`
abbrev pub risk_level_order : RiskLevel → ℕ
risk_level_order low = 0
risk_level_order medium = 1
risk_level_order high = 2
risk_level_order critical = 3

-- The larger of two levels, the first where they are equal: one round of the loops that look for
-- the highest.
abbrev pub higher : RiskLevel → RiskLevel → RiskLevel
higher highest l = if ltb (risk_level_order highest) (risk_level_order l) then l else highest

-- `_highest_risk` of src/rygnal/change_risk.py; `default` is the highest so far.
abbrev pub highest_risk : List RiskLevel → RiskLevel → RiskLevel
highest_risk [] default = default
highest_risk (l ∷ ls) default = highest_risk ls (higher default l)

-- What is counted of a changed file, and of a patch.
pub record PatchFileDiff : Type 0 where
  pub path : String
  pub additions : Option ℕ
  pub deletions : Option ℕ
  pub binary : Bool

pub record PatchDiff : Type 0 where
  pub baseline_commit_sha : String
  pub patch_sha256 : String
  pub patch_size_bytes : ℕ
  pub files : List PatchFileDiff

abbrev or_zero : Option ℕ → ℕ
or_zero none = 0
or_zero (some n) = n

abbrev sum_of : (PatchFileDiff → ℕ) → List PatchFileDiff → ℕ
sum_of f [] = 0
sum_of f (x ∷ xs) = f x + sum_of f xs

abbrev pub changed_file_count : PatchDiff → ℕ
changed_file_count d = length d.files

abbrev pub total_additions : PatchDiff → ℕ
total_additions d = sum_of (λ f. or_zero f.additions) d.files

abbrev pub total_deletions : PatchDiff → ℕ
total_deletions d = sum_of (λ f. or_zero f.deletions) d.files

abbrev pub binary_file_count : PatchDiff → ℕ
binary_file_count d = sum_of (λ f. if f.binary then 1 else 0) d.files

-- The thresholds, a soft and a hard one for each metric.
pub record DiffLimitPolicy : Type 0 where
  pub soft_max_changed_files : ℕ
  pub soft_max_total_changed_lines : ℕ
  pub soft_max_patch_size_bytes : ℕ
  pub soft_max_binary_files : ℕ
  pub hard_max_changed_files : ℕ
  pub hard_max_total_changed_lines : ℕ
  pub hard_max_patch_size_bytes : ℕ
  pub hard_max_binary_files : ℕ

abbrev pub default_diff_limit_policy : DiffLimitPolicy
default_diff_limit_policy = record {
  soft_max_changed_files = 25;
  soft_max_total_changed_lines = 800;
  soft_max_patch_size_bytes = 100000;
  soft_max_binary_files = 0;
  hard_max_changed_files = 250;
  hard_max_total_changed_lines = 10000;
  hard_max_patch_size_bytes = 1000000;
  hard_max_binary_files = 10;
}

-- `_validate_limit_pair`: none, or the text of the `ValueError`. A limit that is not positive is 0
-- here, since these are natural numbers.
unfoldable pub validate_limit_pair : String → ℕ → ℕ → Bool → Option String
validate_limit_pair metric soft hard allow_zero_soft =
    if ltb soft (if allow_zero_soft then 0 else 1)
    then some (concat (metric ∷ " soft limit must be at least 1." ∷ []))
    else if ltb hard 1
    then some (concat (metric ∷ " hard limit must be at least 1." ∷ []))
    else if ltb hard soft
    then some (concat (metric ∷ " soft limit must be <= hard limit." ∷ []))
    else none

abbrev first_error : Option String → Option String → Option String
first_error none next = next
first_error (some e) next = some e

-- `__post_init__`
unfoldable pub validate_policy : DiffLimitPolicy → Option String
unfolding validate_limit_pair
validate_policy p =
    first_error
      (validate_limit_pair "changed_files" p.soft_max_changed_files p.hard_max_changed_files false)
      (first_error
        (validate_limit_pair "total_changed_lines" p.soft_max_total_changed_lines
          p.hard_max_total_changed_lines false)
        (first_error
          (validate_limit_pair "patch_size_bytes" p.soft_max_patch_size_bytes
            p.hard_max_patch_size_bytes false)
          (validate_limit_pair "binary_files" p.soft_max_binary_files p.hard_max_binary_files
            true)))

pub record DiffLimitReason : Type 0 where
  pub code : String
  pub risk_level : RiskLevel
  pub reason : String
  pub metric : String
  pub observed : ℕ
  pub limit : ℕ

-- `_limit_reason`; `spoken` is the metric with blanks for underscores.
unfoldable pub limit_reason : String → String → ℕ → ℕ → ℕ → Option DiffLimitReason
limit_reason metric spoken observed soft hard =
    if ltb hard observed
    then some (record {
      code = concat ("hard-diff-" ∷ metric ∷ []);
      risk_level = critical;
      reason = concat ("Patch exceeds hard " ∷ spoken ∷ " limit." ∷ []);
      metric = metric;
      observed = observed;
      limit = hard;
    })
    else if ltb soft observed
    then some (record {
      code = concat ("large-diff-" ∷ metric ∷ []);
      risk_level = high;
      reason = concat ("Patch exceeds reviewable auto-apply " ∷ spoken ∷ " limit." ∷ []);
      metric = metric;
      observed = observed;
      limit = soft;
    })
    else none

abbrev pub keep : Option DiffLimitReason → List DiffLimitReason → List DiffLimitReason
keep none rs = rs
keep (some r) rs = r ∷ rs

pub record DiffLimitReport : Type 0 where
  pub patch_sha256 : String
  pub baseline_commit_sha : String
  pub changed_file_count_of : ℕ
  pub total_additions_of : ℕ
  pub total_deletions_of : ℕ
  pub total_changed_lines : ℕ
  pub patch_size_bytes : ℕ
  pub binary_file_count_of : ℕ
  pub policy : DiffLimitPolicy
  pub reasons : List DiffLimitReason

unfoldable pub evaluate_diff_limits : PatchDiff → DiffLimitPolicy → DiffLimitReport
unfolding limit_reason
evaluate_diff_limits d p =
    let lines = total_additions d + total_deletions d in
    record {
      patch_sha256 = d.patch_sha256;
      baseline_commit_sha = d.baseline_commit_sha;
      changed_file_count_of = changed_file_count d;
      total_additions_of = total_additions d;
      total_deletions_of = total_deletions d;
      total_changed_lines = lines;
      patch_size_bytes = d.patch_size_bytes;
      binary_file_count_of = binary_file_count d;
      policy = p;
      reasons =
          keep
            (limit_reason "changed_files" "changed files" (changed_file_count d)
              p.soft_max_changed_files p.hard_max_changed_files)
            (keep
              (limit_reason "total_changed_lines" "total changed lines" lines
                p.soft_max_total_changed_lines p.hard_max_total_changed_lines)
              (keep
                (limit_reason "patch_size_bytes" "patch size bytes" d.patch_size_bytes
                  p.soft_max_patch_size_bytes p.hard_max_patch_size_bytes)
                (keep
                  (limit_reason "binary_files" "binary files" (binary_file_count d)
                    p.soft_max_binary_files p.hard_max_binary_files)
                  [])));
    }

abbrev pub hard_limit_exceeded : DiffLimitReport → Bool
hard_limit_exceeded r = any (λ (x : DiffLimitReason). risk_level_eq x.risk_level critical) r.reasons

abbrev pub approval_limit_exceeded : DiffLimitReport → Bool
approval_limit_exceeded r = any (λ (x : DiffLimitReason). risk_level_eq x.risk_level high) r.reasons

-- The loop of `overall_risk_level` of a report.
abbrev pub highest_reason : List DiffLimitReason → RiskLevel → RiskLevel
highest_reason [] highest = highest
highest_reason (r ∷ rs) highest = highest_reason rs (higher highest r.risk_level)

abbrev pub overall_risk_level : DiffLimitReport → RiskLevel
overall_risk_level r = highest_reason r.reasons low
