-- ===== src/Paths/Tests.antt =====
-- Paths that are normalized, patterns that match, and the theorems applied to them.
use rygnal_core.Common.{
  String, List, [], ◌∷◌, Option, none, some, concat, is_space, lower, ◌≡◌, refl, true, false, strip,
  ok, err,
}
use rygnal_core.Paths.{with_slashes, normalize_repo_relative_path}
use rygnal_core.Paths.Glob.{fnmatchcase}
use rygnal_core.Paths.Ignore.{
  default_guarded_ignore_rules, normalize_guarded_path, is_protected_normal,
  is_protected_visible_path, is_heavy_normal, is_heavy_or_generated_path, decide_untracked_path,
}
use rygnal_core.Paths.Changed.{
  ChangedFileKind, ChangedFile, kind_from_raw_status, parse_git_raw_diff,
}
use rygnal_core.Paths.Parsed.{AreNormal, parse_git_raw_diff-AreNormal}

windows_path : normalize_repo_relative_path " .\\src//a.py" ≡ ok "src/a.py"
unfolding normalize_repo_relative_path strip with_slashes
windows_path = refl

bare_path : strip "src/a.py" ≡ "src/a.py"
unfolding strip
bare_path = refl

traversal :
    normalize_repo_relative_path "a/../b" ≡ err "Changed file path must not traverse: a/../b"
unfolding normalize_repo_relative_path strip with_slashes
traversal = refl

-- A blank after a dot part stays, and a second normalization takes it away.
blank_left : normalize_repo_relative_path "./ a" ≡ ok " a"
unfolding normalize_repo_relative_path strip with_slashes
blank_left = refl

-- The second normalization refuses what the first accepts.
hidden_traversal : normalize_repo_relative_path "./ .." ≡ ok " .."
unfolding normalize_repo_relative_path strip with_slashes
hidden_traversal = refl

hidden_traversal_again :
    normalize_repo_relative_path " .." ≡ err "Changed file path must not traverse:  .."
unfolding normalize_repo_relative_path strip with_slashes
hidden_traversal_again = refl

set_and_star : fnmatchcase "src/d1.p]" "src/[!a-c]?.*[]y]" ≡ true
unfolding fnmatchcase
set_and_star = refl

outside_set : fnmatchcase "src/b1.py" "src/[!a-c]?.*[]y]" ≡ false
unfolding fnmatchcase
outside_set = refl

unclosed_set : fnmatchcase "a[b" "a[b" ≡ true
unfolding fnmatchcase
unclosed_set = refl

abbrev header_of : String → String
header_of status = concat (":100644 100755 1111 2222 " ∷ status ∷ [])

abbrev raw_fields : List String
raw_fields = header_of "R090" ∷ "old.py" ∷ "./src//new.py" ∷ header_of "M" ∷ "a.py" ∷ []

abbrev raw_file : ChangedFileKind → Option String → String → ChangedFile
raw_file kind old path = record {
  path = path;
  kind = kind;
  old_path = old;
  old_mode = some "100644";
  new_mode = some "100755";
  mode_changed_of = true;
}

raw_parsed :
    parse_git_raw_diff raw_fields
    ≡ ok (
        raw_file ChangedFileKind.renamed (some "old.py") "src/new.py"
        ∷ raw_file ChangedFileKind.modified none "a.py"
        ∷ [])
unfolding parse_git_raw_diff kind_from_raw_status normalize_repo_relative_path strip with_slashes
    is_space
raw_parsed = refl

rename_cut_off :
    parse_git_raw_diff (header_of "R100" ∷ "old.py" ∷ []) ≡ err "Rename record missing path fields."
unfolding parse_git_raw_diff is_space
rename_cut_off = refl

parse_git_raw_diff-AreNormal_example : AreNormal (
    raw_file ChangedFileKind.renamed (some "old.py") "src/new.py"
    ∷ raw_file ChangedFileKind.modified none "a.py"
    ∷ [])
parse_git_raw_diff-AreNormal_example = parse_git_raw_diff-AreNormal raw_fields _ raw_parsed

-- Noise in a generated folder is ignored, a lock file in it is not.
noise_ignored :
    decide_untracked_path default_guarded_ignore_rules "node_modules/a.js"
    ≡ ok (record { path = "node_modules/a.js"; ignored = true; protected = false })
unfolding decide_untracked_path normalize_guarded_path is_protected_visible_path is_protected_normal
    is_heavy_or_generated_path is_heavy_normal strip with_slashes lower fnmatchcase
noise_ignored = refl

lock_visible :
    decide_untracked_path default_guarded_ignore_rules "node_modules/x.lock"
    ≡ ok (record { path = "node_modules/x.lock"; ignored = false; protected = true })
unfolding decide_untracked_path normalize_guarded_path is_protected_visible_path is_protected_normal
    is_heavy_or_generated_path is_heavy_normal strip with_slashes lower fnmatchcase
lock_visible = refl
