-- ===== src/Paths/Normal.antt =====
-- The normal form of a path (src/rygnal/changed_files.py): its parts, and what none of them is.
use Prim.Native.Char.{Char, code}
use Prim.Native.String
use rygnal_core.Common.{
  String, Bool, true, false, not, ◌≡◌, refl, List, [], ◌∷◌, if◌then◌else◌, ◌==◌, nat_eq, truthy,
  strip, every, strip-every, any, filter, nonempty, ok, All, arith, eq_refl, ap, ◌∙◌, sym,
}
use rygnal_core.Paths.{
  is_slash, push_char, pieces, is_part, parts, is_absolute, join_two, join_parts, with_slashes,
  normalize_repo_relative_path,
}

-- No character is a slash.
abbrev pub no_slash : String → Bool
no_slash = every (λ c. not (is_slash c))

-- A part of a path: a text with no slash, neither empty nor a dot.
abbrev pub IsPart : String → Type 0
IsPart s = (no_slash s ≡ true) × (is_part s ≡ true)

push_char-no_slash :
    (c : Char) (ps : List String)
    → is_slash c ≡ false
    → All (λ p. no_slash p ≡ true) ps
    → All (λ p. no_slash p ≡ true) (push_char c ps)
push_char-no_slash c [] h a = ground arith
push_char-no_slash c (p ∷ ps) h a = ground arith

pieces-no_slash : (s : String) → All (λ p. no_slash p ≡ true) (pieces s)
pieces-no_slash String.[] = (refl, tt)
pieces-no_slash (String.◌∷◌ c s) =
    ground (arith, pieces-no_slash s, push_char-no_slash c (pieces s))

filter-IsPart :
    (ps : List String) → All (λ p. no_slash p ≡ true) ps → All IsPart (filter is_part ps)
filter-IsPart [] a = tt
filter-IsPart (p ∷ ps) a = ground (arith, filter-IsPart ps a.1)

pub parts-IsPart : (s : String) → All IsPart (parts s)
parts-IsPart s = filter-IsPart (pieces s) (pieces-no_slash s)

pieces_of_part : (p : String) → no_slash p ≡ true → pieces p ≡ p ∷ []
pieces_of_part String.[] h = refl
pieces_of_part (String.◌∷◌ c p) h = ground (arith, pieces_of_part p)

pieces-join_two : (p s : String) → no_slash p ≡ true → pieces (join_two p s) ≡ p ∷ pieces s
pieces-join_two String.[] s h = refl
pieces-join_two (String.◌∷◌ c p) s h = ground (arith, pieces-join_two p s)

-- The parts of joined parts are the parts.
pub parts-join_parts :
    (p : String) (ps : List String)
    → IsPart p
    → All IsPart ps
    → parts (join_parts (p ∷ ps)) ≡ p ∷ ps
parts-join_parts p [] h hs = ground (arith, pieces_of_part p h.0)
parts-join_parts p (q ∷ ps) h hs =
    ground (arith, pieces-join_two p (join_parts (q ∷ ps)) h.0, parts-join_parts q ps hs.0 hs.1)

any_of_parts : (p : String → Bool) (xs : List String) → any p xs ≡ false → All (λ x. p x ≡ false) xs
any_of_parts p [] h = tt
any_of_parts p (x ∷ xs) h = ground (arith, any_of_parts p xs)

join_parts-is_absolute :
    (p : String) (ps : List String) → IsPart p → is_absolute (join_parts (p ∷ ps)) ≡ false
join_parts-is_absolute String.[] ps h = ground (arith, eq_refl "")
join_parts-is_absolute (String.◌∷◌ c p) [] h = ground arith
join_parts-is_absolute (String.◌∷◌ c p) (q ∷ ps) h = ground arith

-- A relative path with a part, none of them `..`, and nothing but its parts and the slashes between
-- them.
abbrev pub IsNormal : String → Type 0
IsNormal q =
    (is_absolute q ≡ false)
    × (nonempty (parts q) ≡ true)
    × (any (λ p. p == "..") (parts q) ≡ false)
    × (q ≡ join_parts (parts q))

join_parts-IsNormal :
    (ps : List String)
    → All IsPart ps
    → nonempty ps ≡ true
    → any (λ p. p == "..") ps ≡ false
    → IsNormal (join_parts ps) × (parts (join_parts ps) ≡ ps)
join_parts-IsNormal [] a h e = cc
join_parts-IsNormal (p ∷ ps) a h e =
    let same = parts-join_parts p ps a.0 a.1 in
    (
      (
        join_parts-is_absolute p ps a.0,
        ap nonempty same,
        ap (any (λ x. x == "..")) same ∙ e,
        ap join_parts (sym same),
      ),
      same,
    )

-- A path that is accepted is relative, has a part and no part `..`, and has the parts of the path
-- that was given.
pub normalize-IsNormal :
    (path q : String)
    → normalize_repo_relative_path path ≡ ok q
    → IsNormal q × (parts q ≡ parts (strip (with_slashes path)))
unfolding normalize_repo_relative_path
normalize-IsNormal path q h =
    let s = strip (with_slashes path) in
    ground (arith, join_parts-IsNormal (parts s) (parts-IsPart s))

-- No character is a backslash.
abbrev no_backslash : String → Bool
no_backslash = every (λ c. not (nat_eq (code c) 92))

chosen-no_backslash :
    (b : Bool) (c : Char)
    → nat_eq (code c) 92 ≡ b
    → nat_eq (code (if b then Prim.Native.String.char_at "/" 0 else c)) 92 ≡ false
chosen-no_backslash true c h = refl
chosen-no_backslash false c h = h

with_slashes-no_backslash : (s : String) → no_backslash (with_slashes s) ≡ true
unfolding with_slashes
with_slashes-no_backslash String.[] = refl
with_slashes-no_backslash (String.◌∷◌ c s) =
    ground (arith, with_slashes-no_backslash s, chosen-no_backslash (nat_eq (code c) 92) c refl)

with_slashes-same : (s : String) → no_backslash s ≡ true → with_slashes s ≡ s
unfolding with_slashes
with_slashes-same String.[] h = refl
with_slashes-same (String.◌∷◌ c s) h = ground (arith, with_slashes-same s)

push_char-no_backslash :
    (c : Char) (ps : List String)
    → nat_eq (code c) 92 ≡ false
    → All (λ p. no_backslash p ≡ true) ps
    → All (λ p. no_backslash p ≡ true) (push_char c ps)
push_char-no_backslash c [] h a = ground arith
push_char-no_backslash c (p ∷ ps) h a = ground arith

pieces-no_backslash :
    (s : String) → no_backslash s ≡ true → All (λ p. no_backslash p ≡ true) (pieces s)
pieces-no_backslash String.[] h = (refl, tt)
pieces-no_backslash (String.◌∷◌ c s) h =
    ground (arith, pieces-no_backslash s, push_char-no_backslash c (pieces s))

All-filter :
    (P : String → Type 0) (t : String → Bool) (ps : List String) → All P ps → All P (filter t ps)
All-filter P t [] a = tt
All-filter P t (p ∷ ps) a = ground (arith, All-filter P t ps a.1)

join_two-no_backslash :
    (p s : String)
    → no_backslash p ≡ true
    → no_backslash s ≡ true
    → no_backslash (join_two p s) ≡ true
join_two-no_backslash String.[] s h k = ground arith
join_two-no_backslash (String.◌∷◌ c p) s h k = ground (arith, join_two-no_backslash p s)

join_parts-no_backslash :
    (ps : List String) → All (λ p. no_backslash p ≡ true) ps → no_backslash (join_parts ps) ≡ true
join_parts-no_backslash [] a = refl
join_parts-no_backslash (p ∷ []) a = a.0
join_parts-no_backslash (p ∷ q ∷ ps) a =
    join_two-no_backslash p (join_parts (q ∷ ps)) a.0 (join_parts-no_backslash (q ∷ ps) a.1)

normalize-no_backslash :
    (path q : String) → normalize_repo_relative_path path ≡ ok q → with_slashes q ≡ q
unfolding normalize_repo_relative_path
normalize-no_backslash path q h =
    let s = strip (with_slashes path) in
    let plain = strip-every _ (with_slashes path) (with_slashes-no_backslash path) in
    let joined =
      join_parts-no_backslash (parts s)
        (All-filter _ is_part (pieces s) (pieces-no_backslash s plain)) in
    with_slashes-same q (ground arith)

normal-truthy : (q : String) → IsNormal q → truthy q ≡ true
normal-truthy String.[] n = ground (arith, eq_refl "")
normal-truthy (String.◌∷◌ c q) n = refl

-- A path that was accepted and has no blank at either end is accepted again, as it is.
pub normalize-fixed :
    (path q : String)
    → normalize_repo_relative_path path ≡ ok q
    → strip q ≡ q
    → normalize_repo_relative_path q ≡ ok q
unfolding normalize_repo_relative_path
normalize-fixed path q h bare =
    let same : strip (with_slashes q) ≡ q = ap strip (normalize-no_backslash path q h) ∙ bare in
    let n = (normalize-IsNormal path q h).0 in ground (arith, same, n, normal-truthy q n)
