-- ===== src/Json/Scan.antt =====
-- The tokens of JSON: white space, strings, numbers and literals.
use private_chat.Prelude.{
  ℕ, zero, suc, ◌+◌, ◌-◌, ◌*◌, Bool, true, false, ◌&&◌, ◌||◌, Option, none, some, [], ◌∷◌, ◌++◌,
  ltb, leb, ◌==◌, if◌then◌else◌,
}
use private_chat.Text.{Text, codes}

abbrev is_json_space : ℕ → Bool
is_json_space c = c == 32 || c == 9 || c == 10 || c == 13

unfoldable pub skip_spaces : Text → Text
skip_spaces [] = []
skip_spaces (c ∷ s) = if is_json_space c then skip_spaces s else c ∷ s

abbrev pub is_digit : ℕ → Bool
is_digit c = leb b'0' c && leb c b'9'

-- The value of a hexadecimal digit.
unfoldable pub hex_value : ℕ → Option ℕ
hex_value c =
    if is_digit c
    then some (c - b'0')
    else if leb b'a' c && leb c b'f'
    then some (c - b'a' + 10)
    else if leb b'A' c && leb c b'F'
    then some (c - b'A' + 10)
    else none

-- Where the scan of a string stands: between characters, behind a backslash, or with `more + 1`
-- hexadecimal digits to come.
pub data Mode : Type 0 where
  plain escape : Mode
  hex : (more value : ℕ) → Mode

pub data Step : Type 0 where
  stop fail : Step
  next : Mode → Text → Step

unfoldable pub escaped : ℕ → Step
escaped c =
    if c == b'"' || c == b'\\' || c == b'/'
    then next plain (c ∷ [])
    else if c == b'b'
    then next plain (8 ∷ [])
    else if c == b'f'
    then next plain (12 ∷ [])
    else if c == b'n'
    then next plain (10 ∷ [])
    else if c == b'r'
    then next plain (13 ∷ [])
    else if c == b't'
    then next plain (9 ∷ [])
    else if c == b'u'
    then next (hex 3 0) []
    else fail

abbrev pub hex_digit : ℕ → ℕ → Step
hex_digit zero value = next plain (value ∷ [])
hex_digit (suc more) value = next (hex more value) []

unfoldable pub scan_char : Mode → ℕ → Step
scan_char plain c =
    if c == b'"'
    then stop
    else if c == b'\\'
    then next escape []
    else if ltb c 32
    then fail
    else next plain (c ∷ [])
scan_char escape c = escaped c
scan_char (hex more value) c = elim (hex_value c) [
  | none ↦ fail
  | some d ↦ hex_digit more (value * 16 + d)
]

abbrev pub in_front : Text → Option (Text × Text) → Option (Text × Text)
in_front out none = none
in_front out (some (s, rest)) = some (out ++ s, rest)

unfoldable pub scan_string_from : Mode → Text → Option (Text × Text)
scan_string_from m [] = none
scan_string_from m (c ∷ s) = elim (scan_char m c) [
  | stop ↦ some ([], s)
  | fail ↦ none
  | next m' out ↦ in_front out (scan_string_from m' s)
]

-- The content of a string, behind its opening quote, and what follows the closing one.
unfoldable pub scan_string : Text → Option (Text × Text)
scan_string s = scan_string_from plain s

-- Where the scan of a number stands.
pub data Place : Type 0 where
  start minus zero_int int dot fraction exponent exponent_sign exponent_int : Place

abbrev pub when {ℓ} : {A : Type ℓ} → Bool → A → Option A
when true a = some a
when false a = none

unfoldable pub int_place : ℕ → Option Place
int_place c = if c == b'0' then some zero_int else when (is_digit c) int

unfoldable pub advance : Place → ℕ → Option Place
advance start c = if c == b'-' then some minus else int_place c
advance minus c = int_place c
advance zero_int c = if c == b'.' then some dot else when (c == b'e' || c == b'E') exponent
advance int c =
    if is_digit c
    then some int
    else if c == b'.'
    then some dot
    else when (c == b'e' || c == b'E') exponent
advance dot c = when (is_digit c) fraction
advance fraction c = if is_digit c then some fraction else when (c == b'e' || c == b'E') exponent
advance exponent c =
    if c == b'+' || c == b'-' then some exponent_sign else when (is_digit c) exponent_int
advance exponent_sign c = when (is_digit c) exponent_int
advance exponent_int c = when (is_digit c) exponent_int

-- A number may end here.
abbrev pub may_end : Place → Bool
may_end zero_int = true
may_end int = true
may_end fraction = true
may_end exponent_int = true
may_end _ = false

unfoldable pub scan_number_from : Place → Text → Option (Text × Text)
scan_number_from p [] = when (may_end p) ([], [])
scan_number_from p (c ∷ s) = elim (advance p c) [
  | none ↦ when (may_end p) ([], c ∷ s)
  | some q ↦ in_front (c ∷ []) (scan_number_from q s)
]

-- The literal of a number, as long as it goes, and what follows it.
unfoldable pub scan_number : Text → Option (Text × Text)
scan_number s = scan_number_from start s

-- The text behind a literal.
unfoldable pub after_literal : Text → Text → Option Text
after_literal [] s = some s
after_literal (c ∷ l) [] = none
after_literal (c ∷ l) (d ∷ s) = if d == c then after_literal l s else none

-- What a value begins with, and the text behind the part that is read: all of it for a number.
pub data Lead : Type 0 where
  lead_object lead_array lead_string lead_true lead_false lead_null lead_number : Text → Lead
  lead_other : Lead

abbrev pub literal_or_other : (Text → Lead) → Option Text → Lead
literal_or_other make none = lead_other
literal_or_other make (some s) = make s

unfoldable pub lead : Text → Lead
lead [] = lead_other
lead (c ∷ s) =
    if c == b'{'
    then lead_object s
    else if c == b'['
    then lead_array s
    else if c == b'"'
    then lead_string s
    else if c == b't'
    then literal_or_other lead_true (after_literal (codes "rue") s)
    else if c == b'f'
    then literal_or_other lead_false (after_literal (codes "alse") s)
    else if c == b'n'
    then literal_or_other lead_null (after_literal (codes "ull") s)
    else if c == b'-' || is_digit c
    then lead_number (c ∷ s)
    else lead_other
