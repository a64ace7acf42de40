-- ===== src/Paths/Literal.antt =====
-- Patterns with no special character (`fnmatch.fnmatchcase` of Python).
use Prim.Native.Char.{code}
use text.Mathlib.TextEquality.{Char-path}
use rygnal_core.Common.{
  zero, String, Bool, true, not, ◌||◌, ◌≡◌, refl, List, [], ◌∷◌, nat_eq, every, arith, ◌↔◌,
}
use rygnal_core.Paths.Glob.{Token, literal, accepts, tokens_after, fnmatchcase}

-- No character is special.
abbrev pub is_plain : String → Bool
is_plain = every (λ c. not (nat_eq (code c) 42 || nat_eq (code c) 63 || nat_eq (code c) 91))

abbrev literals : String → List Token
literals String.[] = []
literals (String.◌∷◌ c s) = literal c ∷ literals s

tokens_of_plain : (s : String) → is_plain s ≡ true → tokens_after zero s ≡ literals s
tokens_of_plain String.[] h = refl
tokens_of_plain (String.◌∷◌ c s) h = ground (arith, tokens_of_plain s)

accepted_same : (p s : String) → accepts (literals p) s ≡ true → s ≡ p
accepted_same String.[] String.[] h = refl
accepted_same String.[] (String.◌∷◌ c s) h = cc
accepted_same (String.◌∷◌ a p) String.[] h = cc
accepted_same (String.◌∷◌ a p) (String.◌∷◌ c s) h = ground (arith, accepted_same p s, Char-path a c)

accepts_same : (p : String) → accepts (literals p) p ≡ true
accepts_same String.[] = refl
accepts_same (String.◌∷◌ c p) = ground (arith, accepts_same p)

-- A pattern with no special character matches itself and nothing else.
pub fnmatchcase-plain :
    (name pattern : String)
    → is_plain pattern ≡ true
    → (fnmatchcase name pattern ≡ true) ↔ (name ≡ pattern)
unfolding fnmatchcase
fnmatchcase-plain name pattern plain =
    rw (tokens_of_plain pattern plain)
      ((accepted_same pattern name, (λ same. rw (same) (accepts_same pattern))))
