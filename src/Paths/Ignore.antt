-- ===== src/Paths/Ignore.antt =====
-- src/rygnal/ignore_rules.py: which untracked files of a guarded workspace are generated noise, and
-- which stay visible whatever their folder.
use rygnal_core.Common.{
  String, Bool, true, false, not, ◌&&◌, ◌||◌, List, [], ◌∷◌, if◌then◌else◌, ◌==◌, any, concat,
  lower, strip, truthy, nonempty, starts_with, ends_with, text_in, map, Checked, ok, err, ◌>>=◌,
}
use rygnal_core.Paths.{name_of, parts, is_absolute, join_parts, with_slashes}
use rygnal_core.Paths.Glob.{fnmatchcase}

abbrev pub default_heavy_path_segments : List String
default_heavy_path_segments =
    ".cache" ∷ ".coverage" ∷ ".git" ∷ ".hg" ∷ ".mypy_cache" ∷ ".next" ∷ ".nox" ∷ ".pytest_cache"
    ∷ ".ruff_cache" ∷ ".svn" ∷ ".tox" ∷ ".venv" ∷ "__pycache__" ∷ "build" ∷ "coverage" ∷ "dist"
    ∷ "node_modules" ∷ "site-packages" ∷ "target" ∷ "venv" ∷ []

abbrev pub default_visible_basenames : List String
default_visible_basenames =
    ".dockerignore" ∷ ".env" ∷ ".env.example" ∷ ".env.local" ∷ ".env.production" ∷ ".gitattributes"
    ∷ ".gitignore" ∷ ".gitlab-ci.yml" ∷ ".npmrc" ∷ ".pypirc" ∷ "Cargo.lock" ∷ "Cargo.toml"
    ∷ "Dockerfile" ∷ "Gemfile" ∷ "Gemfile.lock" ∷ "Pipfile" ∷ "Pipfile.lock" ∷ "bun.lock"
    ∷ "bun.lockb" ∷ "compose.yaml" ∷ "compose.yml" ∷ "docker-compose.yaml" ∷ "docker-compose.yml"
    ∷ "go.mod" ∷ "go.sum" ∷ "package-lock.json" ∷ "package.json" ∷ "pnpm-lock.yaml" ∷ "poetry.lock"
    ∷ "pyproject.toml" ∷ "requirements-dev.txt" ∷ "requirements.txt" ∷ "uv.lock" ∷ "yarn.lock" ∷ []

abbrev pub default_visible_suffixes : List String
default_visible_suffixes = ".env" ∷ ".env.local" ∷ ".env.production" ∷ []

abbrev pub default_visible_prefixes : List String
default_visible_prefixes = ".github/workflows/" ∷ ".gitlab/" ∷ []

abbrev pub default_visible_globs : List String
default_visible_globs = "requirements-*.txt" ∷ "*.lock" ∷ "*.pem" ∷ "*.key" ∷ "*.p12" ∷ "*.pfx" ∷ []

pub record GuardedIgnoreRules : Type 0 where
  pub heavy_path_segments : List String
  pub visible_basenames : List String
  pub visible_suffixes : List String
  pub visible_prefixes : List String
  pub visible_globs : List String

abbrev pub default_guarded_ignore_rules : GuardedIgnoreRules
default_guarded_ignore_rules = record {
  heavy_path_segments = default_heavy_path_segments;
  visible_basenames = default_visible_basenames;
  visible_suffixes = default_visible_suffixes;
  visible_prefixes = default_visible_prefixes;
  visible_globs = default_visible_globs;
}

-- `ignored`, with the one reason that there is, `generated_or_heavy_path`.
pub record GuardedIgnoreDecision : Type 0 where
  pub path : String
  pub ignored : Bool
  pub protected : Bool

unfoldable pub normalize_guarded_path : String → Checked String
unfolding with_slashes
normalize_guarded_path path =
    let normalized = strip (with_slashes path) in
    if not (truthy normalized)
    then err "Guarded path must not be empty."
    else if is_absolute normalized
    then err (concat ("Guarded path must be repository-relative: " ∷ path ∷ []))
    else if any (λ p. p == "..") (parts normalized)
    then err (concat ("Guarded path must not traverse: " ∷ path ∷ []))
    else if not (nonempty (parts normalized))
    then err "Guarded path must not normalize to empty."
    else ok (join_parts (parts normalized))

abbrev reversed : List String → List String → List String
reversed [] later = later
reversed (x ∷ xs) later = reversed xs (x ∷ later)

-- The last parts of a path, against those of the pattern from the right.
abbrev match_from_right : List String → List String → Bool
match_from_right ps [] = true
match_from_right [] (q ∷ qs) = false
match_from_right (p ∷ ps) (q ∷ qs) = fnmatchcase p q && match_from_right ps qs

-- `PurePosixPath(path).match(pattern)`, for a relative pattern.
abbrev path_match : String → String → Bool
path_match path pattern = match_from_right (reversed (parts path) []) (reversed (parts pattern) [])

-- The tests of `is_protected_visible_path` on a normalized path.
unfoldable pub is_protected_normal : GuardedIgnoreRules → String → Bool
is_protected_normal g p =
    let lowered = lower p in
    text_in (lower (name_of p)) (map lower g.visible_basenames)
    || (any (λ t. ends_with lowered (lower t)) g.visible_suffixes
        || (any (λ t. starts_with lowered (lower t)) g.visible_prefixes
            || any (λ t. path_match p t || path_match lowered (lower t)) g.visible_globs))

unfoldable pub is_protected_visible_path : GuardedIgnoreRules → String → Checked Bool
unfolding normalize_guarded_path is_protected_normal
is_protected_visible_path g path = do p ← normalize_guarded_path path; ok (is_protected_normal g p)

-- The tests of `is_heavy_or_generated_path` on a normalized path.
unfoldable pub is_heavy_normal : GuardedIgnoreRules → String → Bool
is_heavy_normal g p =
    let ignored_segments = map lower g.heavy_path_segments in
    any (λ part. text_in (lower part) ignored_segments) (parts p)

unfoldable pub is_heavy_or_generated_path : GuardedIgnoreRules → String → Checked Bool
unfolding normalize_guarded_path is_heavy_normal
is_heavy_or_generated_path g path = do p ← normalize_guarded_path path; ok (is_heavy_normal g p)

abbrev ignore_decision : String → Bool → Bool → GuardedIgnoreDecision
ignore_decision p ignored protected = record { path = p; ignored = ignored; protected = protected }

unfoldable pub decide_untracked_path : GuardedIgnoreRules → String → Checked GuardedIgnoreDecision
unfolding is_protected_visible_path is_heavy_or_generated_path
decide_untracked_path g path = do
  p ← normalize_guarded_path path
  visible ← is_protected_visible_path g p
  heavy ← is_heavy_or_generated_path g p
  ok (if visible then ignore_decision p false true else ignore_decision p heavy false)
