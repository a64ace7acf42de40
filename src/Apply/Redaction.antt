-- ===== src/Apply/Redaction.antt =====
-- The redaction of what is logged (`redact_sensitive_value` of src/rygnal/security.py). The
-- substitutions of SECRET_PATTERNS in a text, which are regular expressions, are an argument.
use Prim.Native.Char.{code}
use Prim.Native.String
use rygnal_core.Common.{
  String, Bool, List, [], ◌∷◌, if◌then◌else◌, any, includes, lower, map, nat_eq,
}
use rygnal_core.Models.{
  Value, null, bool, number, text, list, dict, Values, nil, item, Fields, end, field,
}

abbrev sensitive_keywords : List String
sensitive_keywords =
    "password" ∷ "passwd" ∷ "secret" ∷ "token" ∷ "api_key" ∷ "apikey" ∷ "access_key" ∷ "private_key"
    ∷ "credential" ∷ "authorization" ∷ []

-- `key.replace("-", "_")`
abbrev with_underscores : String → String
with_underscores String.[] = ""
with_underscores (String.◌∷◌ c s) =
    String.◌∷◌ (if nat_eq (code c) 45 then Prim.Native.String.char_at "_" 0 else c)
      (with_underscores s)

unfoldable pub is_sensitive_key : String → Bool
unfolding lower includes
is_sensitive_key key = any (λ w. includes w (with_underscores (lower key))) sensitive_keywords

abbrev pub redacted : Value
redacted = text "[REDACTED]"

module _ (redact_sensitive_string : String → String) where
  unfoldable mutual
    pub redact_sensitive_value : Value → Value
    redact_sensitive_value null = null
    redact_sensitive_value (bool b) = bool b
    redact_sensitive_value (number n) = number n
    redact_sensitive_value (text s) = text (redact_sensitive_string s)
    redact_sensitive_value (list vs) = list (redact_items vs)
    redact_sensitive_value (dict f) = dict (redact_fields f)

    pub redact_items : Values → Values
    redact_items nil = nil
    redact_items (item v vs) = item (redact_sensitive_value v) (redact_items vs)

    pub redact_fields : Fields → Fields
    redact_fields end = end
    redact_fields (field key v f) =
        field key (if is_sensitive_key key then redacted else redact_sensitive_value v)
          (redact_fields f)

  -- `redact_sensitive_value`, of a dictionary that is read by its keys
  unfoldable pub redact_metadata : List (String × Value) → List (String × Value)
  redact_metadata = map (λ (e : String × Value).
      (e.0, if is_sensitive_key e.0 then redacted else redact_sensitive_value e.1))
