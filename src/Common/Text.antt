-- ===== src/Common/Text.antt =====
-- Python's texts and its dictionaries with text keys.
use Prim.Native.Nat.{ℕ, zero, suc, ◌-◌, ◌/◌, ◌%◌}
use Prim.Native.Char.{Char, code}
use Prim.Native.String
use Prim.Native.String.{String, char_at}
use mathlib.Core.Path.{◌≡◌, refl}
use mathlib.Core.Bool.{Bool, true, false, not, ◌&&◌, ◌||◌}
use mathlib.Core.Option.{Option, none, some}
use mathlib.Core.List.{List}
use native.Mathlib.Omega.{arith}
use text.Mathlib.TextEquality.{eq_iff}
use text.Mathlib.Text.{find?}
use rygnal_core.Common.Tests.{◌==◌, nat_eq, ltb, leb, if◌then◌else◌}

-- An f-string, or `"".join(parts)`.
abbrev pub concat : List String → String
concat List.[] = ""
concat (List.◌∷◌ s ss) = String.◌++◌ s (concat ss)

-- The truth value of a text.
abbrev pub truthy : String → Bool
truthy String.[] = false
truthy (String.◌∷◌ c s) = true

-- `str.lower` and `str.strip` on ASCII texts.
lower_char : Char → Char
lower_char c =
    if leb 65 (code c) && leb (code c) 90
    then char_at "abcdefghijklmnopqrstuvwxyz" (code c - 65)
    else c

unfoldable pub lower : String → String
unfolding lower_char
lower String.[] = ""
lower (String.◌∷◌ c s) = String.◌∷◌ (lower_char c) (lower s)

unfoldable pub is_space : Char → Bool
is_space c =
    nat_eq (code c) 32 || leb 9 (code c) && leb (code c) 13 || leb 28 (code c) && leb (code c) 31

left_strip : String → String
unfolding is_space
left_strip String.[] = ""
left_strip (String.◌∷◌ c s) = if is_space c then left_strip s else String.◌∷◌ c s

right_strip : String → String
unfolding is_space
right_strip String.[] = ""
right_strip (String.◌∷◌ c s) =
    let rest = right_strip s in if not (truthy rest) && is_space c then "" else String.◌∷◌ c rest

unfoldable pub strip : String → String
unfolding left_strip right_strip
strip s = right_strip (left_strip s)

-- The test holds of every character.
abbrev pub every : (Char → Bool) → String → Bool
every p String.[] = true
every p (String.◌∷◌ c s) = p c && every p s

left_strip-every : (p : Char → Bool) (s : String) → every p s ≡ true → every p (left_strip s) ≡ true
unfolding left_strip
left_strip-every p String.[] h = refl
left_strip-every p (String.◌∷◌ c s) h = ground (arith, left_strip-every p s)

right_strip-every :
    (p : Char → Bool) (s : String) → every p s ≡ true → every p (right_strip s) ≡ true
unfolding right_strip
right_strip-every p String.[] h = refl
right_strip-every p (String.◌∷◌ c s) h = ground (arith, right_strip-every p s)

pub strip-every : (p : Char → Bool) (s : String) → every p s ≡ true → every p (strip s) ≡ true
unfolding strip
strip-every p s h = right_strip-every p (left_strip s) (left_strip-every p s h)

-- `len(s)`
abbrev pub text_length : String → ℕ
text_length String.[] = 0
text_length (String.◌∷◌ c s) = suc (text_length s)

-- `s.endswith(t)`
abbrev pub ends_with : String → String → Bool
ends_with String.[] t = "" == t
ends_with (String.◌∷◌ c s) t = String.◌∷◌ c s == t || ends_with s t

-- `s.removesuffix(t)`, for a text `t` that is not empty
abbrev pub remove_suffix : String → String → String
remove_suffix String.[] t = ""
remove_suffix (String.◌∷◌ c s) t =
    let rest = remove_suffix s t in if String.◌∷◌ c s == t then "" else String.◌∷◌ c rest

-- `sep.join(parts)`
abbrev pub join_by : String → List String → String
join_by sep List.[] = ""
join_by sep (List.◌∷◌ p List.[]) = p
join_by sep (List.◌∷◌ p (List.◌∷◌ q ps)) =
    String.◌++◌ p (String.◌++◌ sep (join_by sep (List.◌∷◌ q ps)))

-- `t in s`
unfoldable pub includes : String → String → Bool
includes s t = elim (find? s t) [ none ↦ false | some _ ↦ true ]

-- `str(n)`; one unit of fuel for each digit.
digits : ℕ → ℕ → String → String
digits zero n rest = rest
digits (suc fuel) n rest =
    let shown = String.◌∷◌ (char_at "0123456789" (n % 10)) rest in
    let more = digits fuel (n / 10) shown in if ltb n 10 then shown else more

unfoldable pub decimal : ℕ → String
unfolding digits
decimal n = digits (suc n) n ""

module _ {ℓ} {V : Type ℓ} where
  -- `d.get(k)`
  abbrev pub lookup : String → List (String × V) → Option V
  lookup k List.[] = none
  lookup k (List.◌∷◌ (j, v) m) = if j == k then some v else lookup k m

  -- `{**d, k: v}`: the key keeps its place.
  abbrev pub insert : String → V → List (String × V) → List (String × V)
  insert k v List.[] = List.◌∷◌ (k, v) List.[]
  insert k v (List.◌∷◌ (j, w) m) =
      if j == k then List.◌∷◌ (j, v) m else List.◌∷◌ (j, w) (insert k v m)

  -- `{**d, **e}`
  abbrev pub merge : List (String × V) → List (String × V) → List (String × V)
  merge d List.[] = d
  merge d (List.◌∷◌ (k, v) e) = merge (insert k v d) e

  pub lookup-insert :
      (k j : String) (v : V) (m : List (String × V))
      → lookup j (insert k v m) ≡ (if k == j then some v else lookup j m)
  lookup-insert k j v List.[] = refl
  lookup-insert k j v (List.◌∷◌ (i, w) m) =
      ground (arith, eq_iff k j, eq_iff i k, eq_iff i j, lookup-insert k j v m)

-- `x in xs`
abbrev pub text_in : String → List String → Bool
text_in k List.[] = false
text_in k (List.◌∷◌ x xs) = x == k || text_in k xs

abbrev without : String → List String → List String
without x List.[] = List.[]
without x (List.◌∷◌ y ys) = let rest = without x ys in if x == y then rest else List.◌∷◌ y rest

-- `tuple(dict.fromkeys(xs))`: the first of equal texts is kept.
abbrev pub unique : List String → List String
unique List.[] = List.[]
unique (List.◌∷◌ x xs) = List.◌∷◌ x (without x (unique xs))
