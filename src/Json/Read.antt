-- ===== src/Json/Read.antt =====
-- Reading an `unknown` value as frontend/src does: `typeof`, `===` and property access.
use private_chat.Prelude.{ℕ, Bool, true, false, not, [], Option, none, some, if◌then◌else◌}
use private_chat.Text.{Text, text_eq}
use private_chat.Json.{Numbers, Json, null, bool, num, str, arr, obj, Fields, end}

module _ {F : Type 0} where
  -- `obj && typeof obj === "object"`. An array passes, and has none of the properties asked for.
  abbrev pub as_object : Json F → Option (Fields F)
  as_object (obj fs) = some fs
  as_object (arr xs) = some end
  as_object _ = none

  -- `typeof v === "string"`
  abbrev pub as_string : Option (Json F) → Option Text
  as_string (some (str s)) = some s
  as_string _ = none

  -- `typeof v === "number"`
  abbrev pub as_number : Option (Json F) → Option F
  as_number (some (num x)) = some x
  as_number _ = none

  -- `v === s` for a string
  abbrev pub is_text : Option (Json F) → Text → Bool
  is_text (some (str s)) t = text_eq s t
  is_text _ t = false

  -- `v === true`
  abbrev pub is_true : Option (Json F) → Bool
  is_true (some (bool b)) = b
  is_true _ = false

-- `v === n` for a number
abbrev pub is_number : (N : Numbers) → Option (Json N.Number) → ℕ → Bool
is_number N (some (num x)) n = N.equal x (N.of_nat n)
is_number N _ n = false

-- `typeof v === "string" && test(v) ? v : null`
abbrev pub string_if : {F : Type 0} → (Text → Bool) → Option (Json F) → Option Text
string_if test (some (str s)) = if test s then some s else none
string_if test _ = none

-- `v` is truthy.
unfoldable pub is_truthy_value : (N : Numbers) → Option (Json N.Number) → Bool
is_truthy_value N none = false
is_truthy_value N (some null) = false
is_truthy_value N (some (bool b)) = b
is_truthy_value N (some (num x)) = not (N.equal x (N.of_nat 0))
is_truthy_value N (some (str [])) = false
is_truthy_value N (some v) = true
