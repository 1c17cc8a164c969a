-- ===== src/Json/RoundTrip.antt =====
-- `JSON.parse` behind `JSON.stringify`.
pub mod Strings
pub mod Printed
pub mod WellFormed
use private_chat.Prelude.{
  ℕ, zero, suc, ◌+◌, ◌-◌, ◌*◌, ◌/◌, ◌%◌, ◌^◌, ◌≤◌, ◌<◌, min, ◌≡◌, refl, sym, ap, ap₂, subst, ◌∙◌,
  ◌≢◌, ◌↔◌, ◌⊎◌, inl, inr, Bool, true, false, not, ◌&&◌, ◌||◌, Option, none, some, List, [], ◌∷◌,
  ◌++◌, map, reverse, append-nil, append_assoc, arith, ltb, leb, ◌==◌, if◌then◌else◌, ltb→lt,
  lt→ltb, leb→le, ==_iff, Bool-cases, Option-cases, length, length-append, take, drop, replicate,
  length-replicate, take-length-append, drop-length-append, take-append-drop, length-drop, all, All,
  All-append, All-all, all-All, all_below, all_below_sound, length-map, map-map,
}
use private_chat.Text.{Text, codes}
use private_chat.Text.Decimal.{decimal, digit_decimal}
use private_chat.Text.Utf8.Range.{IsUnits}
use private_chat.Json.{
  Numbers, Json, null, bool, num, str, arr, obj, Items, nil, cons, Fields, end, field, Parsed,
  expect, number_from, parse_value, parse_items, parse_fields, whole, parse,
}
use private_chat.Json.Scan.{
  skip_spaces, Lead, lead_number, lead, advance, int_place, after_literal, scan_number,
  scan_number_from, scan_string,
}
use private_chat.Json.Print.{quote, quote_from, stringify, stringify_items, stringify_fields}
use private_chat.Json.RoundTrip.Printed.{
  IsPlain, IsPlainFields, printed_number, printed_one, printed_more, printed_none, printed_object,
  IsPlain-parts, plain_object, no_array, length-object, printed_quote,
}
use private_chat.Json.RoundTrip.Strings.{scan_string-quote}

-- What may stand behind a value: nothing, or the punctuation that ends it.
abbrev ends : Text → Bool
ends [] = true
ends (c ∷ s) = c == b',' || c == b'}' || c == b']'

module _ (N : Numbers) where
  open N use {Number, of_nat}

  -- With fuel above `bound` a parser reads `a` off what is printed.
  abbrev Reads : {A : Type 0} → (ℕ → Text → Parsed N A) → ℕ → Text → A → Type 0
  Reads p bound printed a =
      (rest : Text) (f : ℕ) → ends rest ≡ true → bound < f → p f (printed ++ rest) ≡ some (a, rest)

  abbrev ReadsValue : Json Number → Type 0
  ReadsValue v = IsPlain N v → Reads (parse_value N) (2 * length (stringify N v)) (stringify N v) v

  -- The members of an object that has some, up to its brace.
  abbrev ReadsFields : Fields Number → Type 0
  ReadsFields end = Unit {0}
  ReadsFields (field k x fs) =
      IsPlainFields N (field k x fs)
      → (rest : Text) (f : ℕ) → suc (2 * length (stringify_fields N (field k x fs))) < f
      → parse_fields N f (stringify_fields N (field k x fs) ++ b'}' ∷ rest)
        ≡ some (field k x fs, rest)

  scan_digit :
      (n : ℕ) (rest : Text)
      → n < 10
      → ends rest ≡ true
      → scan_number ((48 + n) ∷ rest) ≡ some ((48 + n) ∷ [], rest)
  unfolding scan_number scan_number_from advance int_place
  scan_digit n [] h e = ground arith
  scan_digit n (c ∷ rest) h e = ground arith

  lead_digit :
      (n : ℕ) (rest : Text)
      → n < 10
      → lead (skip_spaces ((48 + n) ∷ rest)) ≡ lead_number ((48 + n) ∷ rest)
  unfolding lead skip_spaces
  lead_digit n rest h = ground arith

  fields_key :
      (k t : Text) → IsUnits k → scan_string ((quote_from none k ++ b'"' ∷ []) ++ t) ≡ some (k, t)
  fields_key k t u =
      ap scan_string (append_assoc (quote_from none k) (b'"' ∷ []) t) ∙ scan_string-quote k t u

  -- The last member, and one that is followed by others.
  fields_one :
      (k : Text) (x : Json Number) (rest : Text) (f : ℕ)
      → IsUnits k
      → parse_value N f (stringify N x ++ b'}' ∷ rest) ≡ some (x, b'}' ∷ rest)
      → parse_fields N (suc f) (quote k ++ b':' ∷ (stringify N x ++ b'}' ∷ rest))
        ≡ some (field k x end, rest)
  unfolding parse_fields quote skip_spaces
  fields_one k x rest f u e =
      rw (parse_fields, fields_key k (b':' ∷ (stringify N x ++ b'}' ∷ rest)) u, e) refl

  fields_more :
      (k : Text) (x : Json Number) (fs : Fields Number) (t rest : Text) (f : ℕ)
      → IsUnits k
      → parse_value N f (stringify N x ++ b',' ∷ t) ≡ some (x, b',' ∷ t)
      → parse_fields N f t ≡ some (fs, rest)
      → parse_fields N (suc f) (quote k ++ b':' ∷ (stringify N x ++ b',' ∷ t))
        ≡ some (field k x fs, rest)
  unfolding parse_fields quote skip_spaces
  fields_more k x fs t rest f u e g =
      rw (parse_fields, fields_key k (b':' ∷ (stringify N x ++ b',' ∷ t)) u, e, g) refl

  value_of_digit : (n : ℕ) (x : Number) → n < 10 → x ≡ of_nat n → N.of_literal ((48 + n) ∷ []) ≡ x
  value_of_digit n x small same =
      ap N.of_literal (sym (digit_decimal n small))
      ∙ N.of_literal-decimal n (omega arith)
      ∙ sym same

  parse_digit :
      (n f : ℕ) (rest : Text)
      → n < 10
      → ends rest ≡ true
      → parse_value N (suc f) ((48 + n) ∷ rest) ≡ some (num (N.of_literal ((48 + n) ∷ [])), rest)
  unfolding parse_value
  parse_digit n f rest small e =
      rw (parse_value, lead_digit n rest small, number_from, scan_digit n rest small e) refl

  reads_number : (x : Number) → ReadsValue (num x)
  unfolding IsPlain
  reads_number x (n, small, same) rest zero e h = absurd (omega arith)
  reads_number x (n, small, same) rest (suc f) e h =
      ap (λ t. parse_value N (suc f) (t ++ rest)) (printed_number N n x small same)
      ∙ parse_digit n f rest small e
      ∙ ap (λ y. some (num y, rest)) (value_of_digit n x small same)

  parse_string :
      (s t rest : Text) (f : ℕ)
      → scan_string t ≡ some (s, rest)
      → parse_value N (suc f) (b'"' ∷ t) ≡ some (str s, rest)
  unfolding parse_value skip_spaces lead
  parse_string s t rest f e = rw (parse_value, e) refl

  reads_string : (s : Text) → ReadsValue (str s)
  unfolding IsPlain stringify quote
  reads_string s u rest zero e h = absurd (omega arith)
  reads_string s u rest (suc f) e h =
      parse_string s ((quote_from none s ++ b'"' ∷ []) ++ rest) rest f (fields_key s rest u)

  parse_object :
      (fs : Fields Number) (t rest : Text) (f : ℕ)
      → parse_fields N f (b'"' ∷ t) ≡ some (fs, rest)
      → parse_value N (suc f) (b'{' ∷ b'"' ∷ t) ≡ some (obj fs, rest)
  unfolding parse_value skip_spaces lead
  parse_object fs t rest f e = rw (parse_value, e) refl

  parse_empty :
      (f : ℕ) (rest : Text) → parse_value N (suc f) (b'{' ∷ b'}' ∷ rest) ≡ some (obj end, rest)
  unfolding parse_value skip_spaces lead
  parse_empty f rest = refl

  reads_object : (fs : Fields Number) → ReadsFields fs → ReadsValue (obj fs)
  reads_object fs ih u rest zero e h = absurd (omega arith)
  reads_object end ih u rest (suc f) e h =
      ap (λ t. parse_value N (suc f) (t ++ rest)) (printed_object N end)
      ∙ ap (λ w. parse_value N (suc f) (b'{' ∷ ((w ++ b'}' ∷ []) ++ rest))) (printed_none N)
      ∙ parse_empty f rest
  reads_object (field k x fs) ih u rest (suc f) e h =
      let fields = field k x fs in
      let (t, quoted) = printed_quote N k x fs in
      let inner = ih (plain_object N fields u) rest f (omega (arith, length-object N fields)) in
      let line : stringify_fields N fields ++ b'}' ∷ rest ≡ b'"' ∷ (t ++ b'}' ∷ rest) =
        ap (λ w. w ++ b'}' ∷ rest) quoted in
      ap (λ w. parse_value N (suc f) (w ++ rest)) (printed_object N fields)
      ∙ ap (λ w. parse_value N (suc f) (b'{' ∷ w))
          (append_assoc (stringify_fields N fields) (b'}' ∷ []) rest ∙ line)
      ∙ parse_object fields (t ++ b'}' ∷ rest) rest f (ap (parse_fields N f) (sym line) ∙ inner)

  reads_field :
      (k : Text) (x : Json Number) (fs : Fields Number)
      → ReadsValue x
      → ReadsFields fs
      → ReadsFields (field k x fs)
  reads_field k x fs ih ihs u rest zero h = absurd (omega arith)
  reads_field k x end ih ihs u rest (suc f) h =
      let (units, plain, _) = IsPlain-parts N k x end u in
      let n = ap length (printed_one N k x) in
      let m = length-append (quote k) (b':' ∷ stringify N x) in
      ap (λ w. parse_fields N (suc f) (w ++ b'}' ∷ rest)) (printed_one N k x)
      ∙ ap (parse_fields N (suc f)) (append_assoc (quote k) (b':' ∷ stringify N x) (b'}' ∷ rest))
      ∙ fields_one k x rest f units (ih plain (b'}' ∷ rest) f refl (omega (arith, n, m)))
  reads_field k x (field l y fs) ih ihs u rest (suc f) h =
      let tail = stringify_fields N (field l y fs) in
      let (units, plain, others) = IsPlain-parts N k x (field l y fs) u in
      let n = ap length (printed_more N k l x y fs) in
      let m = length-append (quote k) (b':' ∷ (stringify N x ++ b',' ∷ tail)) in
      let m' = length-append (stringify N x) (b',' ∷ tail) in
      let here = ih plain (b',' ∷ (tail ++ b'}' ∷ rest)) f refl (omega (arith, n, m, m')) in
      let there = ihs others rest f (omega (arith, n, m, m')) in
      ap (λ w. parse_fields N (suc f) (w ++ b'}' ∷ rest)) (printed_more N k l x y fs)
      ∙ ap (parse_fields N (suc f)) (
          append_assoc (quote k) (b':' ∷ (stringify N x ++ b',' ∷ tail)) (b'}' ∷ rest)
          ∙ ap (λ w. quote k ++ b':' ∷ w)
              (append_assoc (stringify N x) (b',' ∷ tail) (b'}' ∷ rest)))
      ∙ fields_more k x (field l y fs) (tail ++ b'}' ∷ rest) rest f units here there

  reads_word :
      (v : Json Number)
      → (word : Text) → stringify N v ≡ word
      → ((rest : Text) (f : ℕ) → parse_value N (suc f) (word ++ rest) ≡ some (v, rest))
      → ReadsValue v
  reads_word v word q p u rest zero e h = absurd (omega arith)
  reads_word v word q p u rest (suc f) e h =
      ap (λ t. parse_value N (suc f) (t ++ rest)) q ∙ p rest f

  reads_null : ReadsValue null
  unfolding stringify parse_value skip_spaces lead after_literal
  reads_null = reads_word null (codes "null") refl (λ rest f. refl)

  reads_bool : (b : Bool) → ReadsValue (bool b)
  unfolding stringify parse_value skip_spaces lead after_literal
  reads_bool true = reads_word (bool true) (codes "true") refl (λ rest f. refl)
  reads_bool false = reads_word (bool false) (codes "false") refl (λ rest f. refl)

  reads_value : (v : Json Number) → ReadsValue v
  reads_value v = elim v as ReadsValue (λ xs. Unit {0}) ReadsFields [
    | num x ↦ reads_number x
    | str s ↦ reads_string s
    | obj (fs → ih) ↦ reads_object fs ih
    | end ↦ tt
    | field k (x → ih) (fs → ihs) ↦ reads_field k x fs ih ihs
    | arr (xs → ih) ↦ λ u rest f e h. absurd (no_array N xs u)
    | nil ↦ tt
    | cons (x → ih) (xs → ihs) ↦ tt
    | null ↦ reads_null
    | bool b ↦ reads_bool b
  ]

  -- What is printed of a plain value is parsed to it.
  pub parse-stringify : (v : Json Number) → IsPlain N v → parse N (stringify N v) ≡ some v
  unfolding parse skip_spaces
  parse-stringify v u =
      let s = stringify N v in
      let read : parse_value N (2 * length s + 1) s ≡ some (v, []) =
        ap (parse_value N (2 * length s + 1)) (sym (append-nil s))
        ∙ reads_value v u [] (2 * length s + 1) refl (omega arith) in
      ap (whole N) read
