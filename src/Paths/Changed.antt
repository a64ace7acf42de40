-- ===== src/Paths/Changed.antt =====
-- The inventory of changed files (src/rygnal/changed_files.py), from the outputs of `git diff --raw -z`
-- and `git ls-files -z`: their fields, decoded and without the empty ones.
use Prim.Native.Char.{Char, code}
use rygnal_core.Common.{
  String, Bool, false, not, ◌&&◌, ◌||◌, List, [], ◌∷◌, ◌++◌, Option, none, some, if◌then◌else◌,
  ◌==◌, concat, starts_with, nat_eq, leb, sort_by_text, every, lower, strip, text_length, truthy,
  Checked, Passed, ok, err, ◌>>=◌, is_space,
}
use rygnal_core.Paths.{normalize_repo_relative_path}
use rygnal_core.Paths.Ignore.{GuardedIgnoreRules, decide_untracked_path}

pub data ChangedFileKind : Type 0 where
  added modified deleted renamed mode_changed untracked : ChangedFileKind

abbrev pub changed_file_kind_value : ChangedFileKind → String
changed_file_kind_value ChangedFileKind.added = "added"
changed_file_kind_value ChangedFileKind.modified = "modified"
changed_file_kind_value ChangedFileKind.deleted = "deleted"
changed_file_kind_value ChangedFileKind.renamed = "renamed"
changed_file_kind_value ChangedFileKind.mode_changed = "mode_changed"
changed_file_kind_value ChangedFileKind.untracked = "untracked"

pub record ChangedFile : Type 0 where
  pub path : String
  pub kind : ChangedFileKind
  pub old_path : Option String
  pub old_mode : Option String
  pub new_mode : Option String
  pub mode_changed_of : Bool

abbrev is_hex : Char → Bool
is_hex c =
    leb 48 (code c) && leb (code c) 57
    || (leb 97 (code c) && leb (code c) 102 || leb 65 (code c) && leb (code c) 70)

unfoldable pub normalize_baseline_commit_sha : String → Checked String
normalize_baseline_commit_sha sha =
    let baseline = strip sha in
    if nat_eq (text_length baseline) 40 && every is_hex baseline
    then ok (lower baseline)
    else err "Baseline commit must be a full 40-character SHA."

abbrev push_word : Char → List String → List String
push_word c [] = String.◌∷◌ c "" ∷ []
push_word c (w ∷ ws) = String.◌∷◌ c w ∷ ws

-- `s.split()` with an empty word where blanks meet or stand at an end, and the words of it.
abbrev blank_pieces : String → List String
blank_pieces String.[] = "" ∷ []
blank_pieces (String.◌∷◌ c s) =
    let rest = blank_pieces s in if is_space c then "" ∷ rest else push_word c rest

abbrev words : List String → List String
words [] = []
words (w ∷ ws) = let rest = words ws in if truthy w then w ∷ rest else rest

abbrev first_char : String → String
first_char String.[] = ""
first_char (String.◌∷◌ c s) = String.◌∷◌ c ""

abbrev without_first : String → String
without_first String.[] = ""
without_first (String.◌∷◌ c s) = s

-- What is read of a header: `parts[0][1:]`, `parts[1]` and the first character of `parts[4]`.
pub record RawHeader : Type 0 where
  pub old_mode : String
  pub new_mode : String
  pub status_code : String

abbrev read_parts : String → List String → Checked RawHeader
read_parts header (a ∷ b ∷ c ∷ d ∷ e ∷ more) =
    ok (record { old_mode = without_first a; new_mode = b; status_code = first_char e })
read_parts header _ = err (concat ("Incomplete raw diff header: " ∷ header ∷ []))

abbrev pub read_header : String → Checked RawHeader
read_header header =
    if starts_with header ":"
    then read_parts header (words (blank_pieces header))
    else err (concat ("Invalid raw diff header: " ∷ header ∷ []))

-- `_kind_from_raw_status`
unfoldable pub kind_from_raw_status : String → Checked ChangedFileKind
kind_from_raw_status code =
    if code == "A"
    then ok ChangedFileKind.added
    else if code == "D"
    then ok ChangedFileKind.deleted
    else if code == "T"
    then ok ChangedFileKind.mode_changed
    else if code == "M"
    then ok ChangedFileKind.modified
    else err (concat ("Unsupported Git raw status: " ∷ code ∷ []))

abbrev changed_file : RawHeader → ChangedFileKind → Option String → String → ChangedFile
changed_file h kind old path = record {
  path = path;
  kind = kind;
  old_path = old;
  old_mode = some h.old_mode;
  new_mode = some h.new_mode;
  mode_changed_of = not (h.old_mode == h.new_mode);
}

-- The record of a rename, from the two fields after its header.
abbrev pub renamed_file : RawHeader → String → String → Checked ChangedFile
renamed_file h old new = do
  old_path ← normalize_repo_relative_path old
  new_path ← normalize_repo_relative_path new
  ok (changed_file h ChangedFileKind.renamed (some old_path) new_path)

abbrev pub plain_file : RawHeader → String → Checked ChangedFile
plain_file h field = do
  path ← normalize_repo_relative_path field
  kind ← kind_from_raw_status h.status_code
  ok (changed_file h kind none path)

abbrev pub with_rest : Checked ChangedFile → Checked (List ChangedFile) → Checked (List ChangedFile)
with_rest m rest = do f ← m; fs ← rest; ok (f ∷ fs)

-- The loop of `parse_git_raw_diff`: a header, then one path, or two for a rename.
unfoldable pub parse_git_raw_diff : List String → Checked (List ChangedFile)
unfolding kind_from_raw_status
parse_git_raw_diff [] = ok []
parse_git_raw_diff (header ∷ []) = do
  h ← read_header header
  if h.status_code == "R"
      then err "Rename record missing path fields."
      else err "Raw diff record missing path field."
parse_git_raw_diff (header ∷ a ∷ []) = do
  h ← read_header header
  if h.status_code == "R"
      then err "Rename record missing path fields."
      else with_rest (plain_file h a) (ok [])
parse_git_raw_diff (header ∷ a ∷ b ∷ rest) =
    let after_rename = parse_git_raw_diff rest in
    let after_path = parse_git_raw_diff (b ∷ rest) in
    read_header header >>= λ h.
    if h.status_code == "R"
    then with_rest (renamed_file h a b) after_rename
    else with_rest (plain_file h a) after_path

-- The files of `_classify_untracked_files` that are reported, and the paths that are ignored.
unfoldable pub classify_untracked_files :
    GuardedIgnoreRules → List String → Checked (List ChangedFile × List String)
classify_untracked_files g [] = ok ([], [])
classify_untracked_files g (field ∷ fields) = do
  path ← normalize_repo_relative_path field
  d ← decide_untracked_path g path
  found ← classify_untracked_files g fields
  ok (
      if d.ignored then (found.0, d.path ∷ found.1) else (
        record {
          path = d.path;
          kind = ChangedFileKind.untracked;
          old_path = none;
          old_mode = none;
          new_mode = none;
          mode_changed_of = false;
        }
            ∷ found.0,
        found.1,
      ))

abbrev text_of : Option String → String
text_of none = ""
text_of (some s) = s

-- `sorted(..., key=_changed_file_sort_key)`: a stable sort by each part of the key, the last first.
abbrev sorted_files : List ChangedFile → List ChangedFile
sorted_files fs =
    sort_by_text (λ (f : ChangedFile). f.path)
      (sort_by_text (λ (f : ChangedFile). changed_file_kind_value f.kind)
        (sort_by_text (λ (f : ChangedFile). text_of f.old_path) fs))

pub record ChangedFileReport : Type 0 where
  pub workspace_path : String
  pub baseline_commit_sha : String
  pub files : List ChangedFile
  pub ignored_files : List String

abbrev ensure_directory : Bool → String → Passed
ensure_directory is_directory workspace =
    if is_directory
    then ok tt
    else err (concat ("Guarded workspace does not exist: " ∷ workspace ∷ []))

-- The fields of Git's outputs are outcomes, as is whether the resolved workspace is a directory.
unfoldable pub detect_changed_files :
    String
    → String
    → Bool
    → Checked (List String)
    → Checked (List String)
    → GuardedIgnoreRules
    → Checked ChangedFileReport
unfolding normalize_baseline_commit_sha parse_git_raw_diff classify_untracked_files
detect_changed_files workspace sha is_directory diff others g = do
  baseline ← normalize_baseline_commit_sha sha
  present ← ensure_directory is_directory workspace
  raw ← diff
  listed ← others
  tracked ← parse_git_raw_diff raw
  untracked_found ← classify_untracked_files g listed
  ok (record {
    workspace_path = workspace;
    baseline_commit_sha = baseline;
    files = sorted_files (tracked ++ untracked_found.0);
    ignored_files = sort_by_text (λ p. p) untracked_found.1;
  })
