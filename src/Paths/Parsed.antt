-- ===== src/Paths/Parsed.antt =====
-- What the parser of a raw diff answers (`parse_git_raw_diff` of src/rygnal/changed_files.py).
use mathlib.Core.Path.{subst}
use rygnal_core.Common.{
  String, Option, none, some, Bool, true, false, ◌≡◌, ◌⊎◌, inl, inr, List, [], ◌∷◌, if◌then◌else◌,
  ◌==◌, All, bind_ok, ok_inj, Checked, ok,
}
use rygnal_core.Paths.{normalize_repo_relative_path}
use rygnal_core.Paths.Normal.{IsNormal, normalize-IsNormal}
use rygnal_core.Paths.Changed.{
  ChangedFile, RawHeader, read_header, kind_from_raw_status, plain_file, renamed_file, with_rest,
  parse_git_raw_diff,
}

abbrev OldNormal : Option String → Type 0
OldNormal none = Unit
OldNormal (some p) = IsNormal p

-- The path of a file is normal, and so is its old path where it has one.
abbrev pub NamesNormal : ChangedFile → Type 0
NamesNormal f = IsNormal f.path × OldNormal f.old_path

plain-IsNormal :
    (h : RawHeader) (field : String) (f : ChangedFile) → plain_file h field ≡ ok f → NamesNormal f
plain-IsNormal h field f e =
    let path = bind_ok (normalize_repo_relative_path field) _ f e in
    let kind = bind_ok (kind_from_raw_status h.status_code) _ f path.2 in
    subst NamesNormal (ok_inj _ f kind.2) ((normalize-IsNormal field path.0 path.1).0, tt)

renamed-IsNormal :
    (h : RawHeader) (old new : String) (f : ChangedFile)
    → renamed_file h old new ≡ ok f
    → NamesNormal f
renamed-IsNormal h old new f e =
    let from = bind_ok (normalize_repo_relative_path old) _ f e in
    let to = bind_ok (normalize_repo_relative_path new) _ f from.2 in
    subst NamesNormal (ok_inj _ f to.2)
      ((normalize-IsNormal new to.0 to.1).0, (normalize-IsNormal old from.0 from.1).0)

-- Every file has a normal path, and a normal old path where it has one.
abbrev pub AreNormal : List ChangedFile → Type 0
AreNormal fs = All NamesNormal fs

with_rest-AreNormal :
    (m : Checked ChangedFile) (rest : Checked (List ChangedFile)) (fs : List ChangedFile)
    → ((f : ChangedFile) → m ≡ ok f → NamesNormal f)
    → ((gs : List ChangedFile) → rest ≡ ok gs → AreNormal gs)
    → with_rest m rest ≡ ok fs
    → AreNormal fs
with_rest-AreNormal m rest fs first later e =
    let f = bind_ok m _ fs e in
    let gs = bind_ok rest _ fs f.2 in
    subst AreNormal (ok_inj (f.0 ∷ gs.0) fs gs.2) (first f.0 f.1, later gs.0 gs.1)

if_ok :
    {A : Type 0} (b : Bool) (x y : Checked A) (a : A)
    → (if b then x else y) ≡ ok a
    → (x ≡ ok a) ⊎ (y ≡ ok a)
if_ok true x y a e = inl e
if_ok false x y a e = inr e

none-AreNormal :
    (fs : List ChangedFile) → ◌≡◌ {A = Checked (List ChangedFile)} (ok []) (ok fs) → AreNormal fs
none-AreNormal fs e = subst AreNormal (ok_inj [] fs e) tt

-- Every path and every old path of a raw diff that is read is relative, has a part and no part
-- `..`.
pub parse_git_raw_diff-AreNormal :
    (fields : List String) (fs : List ChangedFile)
    → parse_git_raw_diff fields ≡ ok fs
    → AreNormal fs
unfolding parse_git_raw_diff
parse_git_raw_diff-AreNormal [] fs e = none-AreNormal fs e
parse_git_raw_diff-AreNormal (header ∷ []) fs e =
    let h = bind_ok (read_header header) _ fs e in
    elim (if_ok (h.0.status_code == "R") _ _ fs h.2) [ inl x ↦ cc | inr x ↦ cc ]
parse_git_raw_diff-AreNormal (header ∷ a ∷ []) fs e =
    let h = bind_ok (read_header header) _ fs e in
    elim (if_ok (h.0.status_code == "R") _ _ fs h.2) [
      | inl x ↦ cc
      | inr x ↦
          with_rest-AreNormal (plain_file h.0 a) (ok []) fs (plain-IsNormal h.0 a) none-AreNormal x
    ]
parse_git_raw_diff-AreNormal (header ∷ a ∷ b ∷ rest) fs e =
    let h = bind_ok (read_header header) _ fs e in
    elim (if_ok (h.0.status_code == "R") _ _ fs h.2) [
      | inl x ↦
          with_rest-AreNormal (renamed_file h.0 a b) (parse_git_raw_diff rest) fs
            (renamed-IsNormal h.0 a b) (parse_git_raw_diff-AreNormal rest) x
      | inr x ↦
          with_rest-AreNormal (plain_file h.0 a) (parse_git_raw_diff (b ∷ rest)) fs
            (plain-IsNormal h.0 a) (parse_git_raw_diff-AreNormal (b ∷ rest)) x
    ]
