-- ===== src/Policy/Equality.antt =====
-- Python's `==` on the values of JSON. A dictionary has each key once, and its order does not
-- count. A number is kept as it is printed: a whole float is compared without its fraction, and one
-- that is printed with an exponent (from 1e16 on) as it is.
use rygnal_core.Common.{
  ℕ, suc, String, Bool, true, false, ◌&&◌, Option, none, some, ◌==◌, if◌then◌else◌, nat_eq,
}
use rygnal_core.Models.{
  Value, null, bool, number, text, list, dict, Values, nil, item, Fields, end, field,
}

abbrev pub field_of : String → Fields → Option Value
field_of k end = none
field_of k (field j v f) = if j == k then some v else field_of k f

abbrev field_count : Fields → ℕ
field_count end = 0
field_count (field j v f) = suc (field_count f)

-- A printed number without the fraction of a whole float.
abbrev whole : String → String
whole String.[] = ""
whole (String.◌∷◌ c s) =
    let rest = whole s in if String.◌∷◌ c s == ".0" then "" else String.◌∷◌ c rest

-- `-0.0 == 0`
abbrev unsigned_zero : String → String
unsigned_zero n = if n == "-0" then "0" else n

abbrev pub number_eq : String → String → Bool
number_eq m n = unsigned_zero (whole m) == unsigned_zero (whole n)

-- `True == 1` and `False == 0`
abbrev bool_number : Bool → String
bool_number true = "1"
bool_number false = "0"

abbrev bool_eq : Bool → Bool → Bool
bool_eq true b = b
bool_eq false true = false
bool_eq false false = true

unfoldable mutual
  pub value_eq : Value → Value → Bool
  value_eq null null = true
  value_eq (bool a) (bool b) = bool_eq a b
  value_eq (bool a) (number n) = number_eq (bool_number a) n
  value_eq (number n) (bool b) = number_eq (bool_number b) n
  value_eq (number m) (number n) = number_eq m n
  value_eq (text s) (text t) = s == t
  value_eq (list a) (list b) = values_eq a b
  value_eq (dict a) (dict b) = nat_eq (field_count a) (field_count b) && fields_in a b
  value_eq _ _ = false

  pub values_eq : Values → Values → Bool
  values_eq nil nil = true
  values_eq (item a xs) (item b ys) = value_eq a b && values_eq xs ys
  values_eq _ _ = false

  pub fields_in : Fields → Fields → Bool
  fields_in end g = true
  fields_in (field k v f) g =
      elim (field_of k g) [ none ↦ false | some w ↦ value_eq v w ] && fields_in f g
