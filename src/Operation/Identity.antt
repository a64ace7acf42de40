-- ===== src/Operation/Identity.antt =====
-- The keys of an operation, the identity of a process, and the inspection of a repository
-- (the module functions of src/rygnal/operation_store.py).
use Prim.Native.Char.{nul}
use rygnal_core.Common.{
  ℕ, zero, suc, String, Bool, false, not, List, [], ◌∷◌, Option, none, some, concat, lower, strip,
  truthy, decimal, ◌==◌, if◌then◌else◌, drop,
}
use rygnal_core.Operation.{
  OperationRecord, Result, ok, err, ◌>>=◌, store, missing, unreadable, fields, Completed, Host,
}

-- `separator.join(parts)`
abbrev pub join : String → List String → String
join s [] = ""
join s (x ∷ []) = x
join s (x ∷ y ∷ ys) = concat (x ∷ s ∷ join s (y ∷ ys) ∷ [])

unfoldable pub artifact_apply_operation_key :
    Host → String → String → String → String → String → String
artifact_apply_operation_key h artifact approval patch baseline target = h.sha256 (
    join (String.◌∷◌ nul "")
      ("artifact_apply" ∷ artifact ∷ approval ∷ patch ∷ lower baseline ∷ target ∷ []))

unfoldable pub repository_resource_key : Host → String → String
repository_resource_key h target = h.sha256 (h.resolve target)

-- Field 22 of `/proc/PID/stat`, the start time; `none` where there are fewer fields.
abbrev start_time : List String → Option String
start_time xs = elim (drop 21 xs) [ [] ↦ none | x ∷ _ ↦ some x ]

abbrev identity_from_ps : Host → ℕ → Option (ℕ → Completed) → Result String
identity_from_ps h pid none = err (store "Process start identity cannot be verified.")
identity_from_ps h pid (some run) =
    let completed = run pid in
    let normalized = join " " (h.words completed.stdout) in
    if not completed.succeeded
    then err (store "Process start identity cannot be read.")
    else if not (truthy normalized)
    then err (store "Process start identity is empty.")
    else ok (h.sha256 (concat ("ps:" ∷ decimal pid ∷ ":" ∷ normalized ∷ [])))

-- The three answers of `/proc`: no such file falls back to `ps`.
unfoldable pub process_identity_token : Host → ℕ → Result String
process_identity_token h zero = err (store "Process identity requires a positive PID.")
process_identity_token h (suc n) = elim (h.proc_stat (suc n)) [
  | missing ↦ identity_from_ps h (suc n) h.ps
  | unreadable ↦ err (store "Could not inspect process identity.")
  | fields xs ↦ elim (start_time xs) [
    | none ↦ err (store "Linux process identity is incomplete.")
    | some t ↦ ok (h.sha256 (concat ("proc:" ∷ decimal (suc n) ∷ ":" ∷ t ∷ [])))
  ]
]

unfoldable pub process_identity_matches : Host → ℕ → String → Bool
process_identity_matches h pid expected = elim (process_identity_token h pid) [
  | ok actual ↦ actual == expected
  | err _ ↦ false
]

unfoldable pub owner_record_is_active : Host → OperationRecord → Bool
owner_record_is_active h r = process_identity_matches h r.owner_pid r.owner_start_token

pub record RepositoryState : Type 0 where
  pub head : String
  pub clean : Bool

-- `completed.stderr.strip() or completed.stdout.strip() or "..."`
abbrev first_truthy : List String → String → String
first_truthy [] d = d
first_truthy (x ∷ xs) d = if truthy x then x else first_truthy xs d

-- The local function `run`.
abbrev run_git : (List String → Completed) → List String → Result String
run_git git args =
    let c = git args in
    if c.succeeded
    then ok (strip c.stdout)
    else err (
        store
          (first_truthy (strip c.stderr ∷ strip c.stdout ∷ []) "Git repository inspection failed."))

abbrev inspect_head : Host → (List String → Completed) → Result RepositoryState
inspect_head h git = do
  head ← run_git git ("rev-parse" ∷ "HEAD" ∷ [])
  status ← run_git git ("status" ∷ "--porcelain" ∷ "--untracked-files=all" ∷ [])
  ok (record { head = lower head; clean = not (truthy status) })

abbrev inspect_with : Host → (List String → Completed) → String → Result RepositoryState
inspect_with h git resolved = do
  top ← run_git git ("rev-parse" ∷ "--show-toplevel" ∷ [])
  if h.resolve top == resolved
      then inspect_head h git
      else err (store "Target path is not the Git repository root.")

unfoldable pub inspect_repository_state : Host → String → Result RepositoryState
inspect_repository_state h repository =
    let resolved = h.resolve repository in
    if not (h.is_dir resolved)
    then err (store "Trusted repository does not exist.")
    else elim h.git [
      | none ↦ err (store "Git executable is unavailable.")
      | some git ↦ inspect_with h (git resolved) resolved
    ]
