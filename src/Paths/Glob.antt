-- ===== src/Paths/Glob.antt =====
-- `fnmatch.fnmatchcase` of Python, as src/rygnal/capability_matcher.py uses it: a pattern is read
-- once into its tokens, and the tokens are held against the text from the left.
use Prim.Native.Char.{Char, code}
use rygnal_core.Common.{
  ℕ, zero, suc, String, Bool, true, false, not, ◌&&◌, ◌||◌, List, [], ◌∷◌, Option, none, some,
  if◌then◌else◌, nat_eq, leb, text_length,
}

pub data Token : Type 0 where
  literal : Char → Token
  any_char star : Token
  one_of : Bool → String → Token

-- The characters up to the first `]`, where there is one.
abbrev until_bracket : String → Option String
until_bracket String.[] = none
until_bracket (String.◌∷◌ c s) =
    let rest = until_bracket s in
    if nat_eq (code c) 93
    then some ""
    else elim rest [ none ↦ none | some body ↦ some (String.◌∷◌ c body) ]

-- The first character is no closing bracket, wherever it is one.
abbrev set_body : String → Option String
set_body String.[] = none
set_body (String.◌∷◌ c s) = elim (until_bracket s) [
  | none ↦ none
  | some body ↦ some (String.◌∷◌ c body)
]

pub data Opened : Type 0 where
  unclosed : Opened
  closed : Bool → String → ℕ → Opened

-- What stands after `[`: a set, negated by `!`, with the number of characters that it takes. A set
-- of no character is none: its bracket is one of its characters.
abbrev open_set : String → Opened
open_set String.[] = unclosed
open_set (String.◌∷◌ c s) =
    if nat_eq (code c) 33
    then elim (set_body s) [
      | none ↦ unclosed
      | some body ↦ closed true body (suc (suc (text_length body)))
    ]
    else elim (set_body (String.◌∷◌ c s)) [
      | none ↦ unclosed
      | some body ↦ closed false body (suc (text_length body))
    ]

-- The tokens of a pattern after so many characters that a set has taken.
abbrev pub tokens_after : ℕ → String → List Token
tokens_after n String.[] = []
tokens_after (suc n) (String.◌∷◌ c s) = tokens_after n s
tokens_after zero (String.◌∷◌ c s) =
    let rest = tokens_after zero s in
    if nat_eq (code c) 42
    then star ∷ rest
    else if nat_eq (code c) 63
    then any_char ∷ rest
    else if nat_eq (code c) 91
    then elim (open_set s) [
      | unclosed ↦ literal c ∷ rest
      | closed negated body n ↦ one_of negated body ∷ tokens_after n s
    ]
    else literal c ∷ rest

abbrev same_char : Char → Char → Bool
same_char a b = nat_eq (code a) (code b)

-- A set is read from the left: `a-z` is a range, any other character stands for itself.
abbrev in_set : Char → String → Bool
in_set x (String.◌∷◌ a (String.◌∷◌ b (String.◌∷◌ c s))) =
    let rest = in_set x s in
    let later = in_set x (String.◌∷◌ b (String.◌∷◌ c s)) in
    if nat_eq (code b) 45
    then leb (code a) (code x) && leb (code x) (code c) || rest
    else same_char a x || later
in_set x (String.◌∷◌ a s) = same_char a x || in_set x s
in_set x String.[] = false

-- The test holds of the text or of what is left after some of its first characters.
abbrev pub any_suffix : (String → Bool) → String → Bool
any_suffix f String.[] = f ""
any_suffix f (String.◌∷◌ c s) = f (String.◌∷◌ c s) || any_suffix f s

abbrev pub accepts : List Token → String → Bool
accepts [] String.[] = true
accepts [] (String.◌∷◌ c s) = false
accepts (star ∷ ts) s = any_suffix (accepts ts) s
accepts (literal a ∷ ts) (String.◌∷◌ c s) = same_char a c && accepts ts s
accepts (any_char ∷ ts) (String.◌∷◌ c s) = accepts ts s
accepts (one_of negated body ∷ ts) (String.◌∷◌ c s) =
    (if negated then not (in_set c body) else in_set c body) && accepts ts s
accepts (_ ∷ ts) String.[] = false

unfoldable pub fnmatchcase : String → String → Bool
fnmatchcase name pattern = accepts (tokens_after zero pattern) name
