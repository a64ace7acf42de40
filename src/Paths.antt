-- ===== src/Paths.antt =====
-- `normalize_repo_relative_path` of src/rygnal/changed_files.py, over the lexical part of
-- `PurePosixPath`: its parts are texts between slashes.
pub mod Normal
pub mod Glob
pub mod Literal
pub mod Ignore
pub mod Changed
pub mod Parsed
mod Tests
use Prim.Native.Char.{Char, code}
use Prim.Native.String
use rygnal_core.Common.{
  String, Bool, true, false, not, ◌&&◌, ◌||◌, List, [], ◌∷◌, if◌then◌else◌, ◌==◌, nat_eq, concat,
  truthy, strip, any, filter, nonempty, Checked, ok, err,
}

abbrev pub is_slash : Char → Bool
is_slash c = nat_eq (code c) 47

abbrev slash_of : Char → Char
slash_of c = if nat_eq (code c) 92 then Prim.Native.String.char_at "/" 0 else c

-- `path.replace("\\", "/")`
unfoldable pub with_slashes : String → String
with_slashes String.[] = ""
with_slashes (String.◌∷◌ c s) = String.◌∷◌ (slash_of c) (with_slashes s)

abbrev pub push_char : Char → List String → List String
push_char c [] = String.◌∷◌ c "" ∷ []
push_char c (p ∷ ps) = String.◌∷◌ c p ∷ ps

-- `s.split("/")`
abbrev pub pieces : String → List String
pieces String.[] = "" ∷ []
pieces (String.◌∷◌ c s) = let rest = pieces s in if is_slash c then "" ∷ rest else push_char c rest

-- A part that `PurePosixPath` keeps: not empty and no dot.
abbrev pub is_part : String → Bool
is_part s = not (s == "") && not (s == ".")

-- `PurePosixPath(s).parts` of a relative path
abbrev pub parts : String → List String
parts s = filter is_part (pieces s)

-- The last part, or the empty text.
abbrev pub last_part : List String → String
last_part [] = ""
last_part (p ∷ []) = p
last_part (p ∷ q ∷ ps) = last_part (q ∷ ps)

-- `PurePosixPath(path).name`
abbrev pub name_of : String → String
name_of path = last_part (parts path)

-- `PurePosixPath(s).is_absolute()`
abbrev pub is_absolute : String → Bool
is_absolute String.[] = false
is_absolute (String.◌∷◌ c s) = is_slash c

-- `a + "/" + b`
abbrev pub join_two : String → String → String
join_two String.[] s = String.◌∷◌ (Prim.Native.String.char_at "/" 0) s
join_two (String.◌∷◌ c p) s = String.◌∷◌ c (join_two p s)

-- `PurePosixPath(*parts).as_posix()`
abbrev pub join_parts : List String → String
join_parts [] = ""
join_parts (p ∷ []) = p
join_parts (p ∷ q ∷ ps) = join_two p (join_parts (q ∷ ps))

unfoldable pub normalize_repo_relative_path : String → Checked String
unfolding with_slashes
normalize_repo_relative_path path =
    let normalized = strip (with_slashes path) in
    if not (truthy normalized)
    then err "Changed file path must not be empty."
    else if is_absolute normalized
    then err (concat ("Changed file path must be relative: " ∷ path ∷ []))
    else if any (λ p. p == "..") (parts normalized)
    then err (concat ("Changed file path must not traverse: " ∷ path ∷ []))
    else if not (nonempty (parts normalized))
    then err "Changed file path must not be empty."
    else ok (join_parts (parts normalized))
