-- ===== src/Json.antt =====
-- JSON values, and `JSON.parse` of the language. A number is of a type that is a parameter: its
-- literal is read by `Numbers`.
pub mod Scan
pub mod Read
pub mod Print
pub mod RoundTrip
use private_chat.Prelude.{
  ◌*◌, ◌+◌, ℕ, zero, suc, ◌+◌, ◌-◌, ◌*◌, ◌/◌, ◌%◌, ◌^◌, ◌≤◌, ◌<◌, min, ◌≡◌, refl, sym, ap, ap₂,
  subst, ◌∙◌, ◌≢◌, ◌↔◌, ◌⊎◌, inl, inr, Bool, true, false, not, ◌&&◌, ◌||◌, Option, none, some, List,
  [], ◌∷◌, ◌++◌, map, reverse, append-nil, append_assoc, arith, ltb, leb, ◌==◌, if◌then◌else◌,
  ltb→lt, lt→ltb, leb→le, ==_iff, Bool-cases, Option-cases, length, length-append, take, drop,
  replicate, length-replicate, take-length-append, drop-length-append, take-append-drop,
  length-drop, all, All, All-append, All-all, all-All, all_below, all_below_sound, length-map,
  map-map,
}
use private_chat.Text.{Text, text_eq, codes}
use private_chat.Text.Decimal.{decimal}
use Scan.{
  skip_spaces, scan_string, scan_number, Lead, lead_object, lead_array, lead_string, lead_true,
  lead_false, lead_null, lead_number, lead_other, lead, after_literal,
}

-- The numbers of the language (IEEE doubles): the value of a literal, `JSON.stringify`, `===` and `<`.
-- What is used of them: natural numbers print as their digits, are read back, and are compared as
-- such.
pub record Numbers : Type 1 where
  pub Number : Type 0
  pub of_literal : Text → Number
  pub to_literal : Number → Text
  pub of_nat : ℕ → Number
  pub equal : Number → Number → Bool
  pub less : Number → Number → Bool
  pub to_literal-of_nat : (n : ℕ) → n < 2 ^ 53 → to_literal (of_nat n) ≡ decimal n
  pub of_literal-decimal : (n : ℕ) → n < 2 ^ 53 → of_literal (decimal n) ≡ of_nat n
  pub equal-of_nat : (m n : ℕ) → m < 2 ^ 53 → n < 2 ^ 53 → equal (of_nat m) (of_nat n) ≡ (m == n)
  pub less-of_nat : (m n : ℕ) → m < 2 ^ 53 → n < 2 ^ 53 → less (of_nat m) (of_nat n) ≡ ltb m n

mutual
  pub data Json (F : Type 0) : Type 0 where
    null : Json F
    bool : Bool → Json F
    num : F → Json F
    str : Text → Json F
    arr : Items F → Json F
    obj : Fields F → Json F

  pub data Items (F : Type 0) : Type 0 where
    nil : Items F
    cons : Json F → Items F → Items F

  pub data Fields (F : Type 0) : Type 0 where
    end : Fields F
    field : Text → Json F → Fields F → Fields F

-- The property `name` of a parsed object: of a name that occurs twice, the last value. `none` is
-- `undefined`.
module _ {F : Type 0} where
  unfoldable pub get : Fields F → Text → Option (Json F)
  get end name = none
  get (field key value rest) name = elim (get rest name) [
    | some later ↦ some later
    | none ↦ if text_eq key name then some value else none
  ]

module _ (N : Numbers) where
  open N use {Number, of_literal}

  abbrev pub Parsed : Type 0 → Type 0
  Parsed A = Option (A × Text)

  abbrev pub expect : ℕ → Text → Option Text
  expect c [] = none
  expect c (d ∷ s) = if d == c then some s else none

  abbrev pub starts : ℕ → Text → Bool
  starts c [] = false
  starts c (d ∷ s) = d == c

  -- The value of a number's literal, an array that may be empty, an object that may be empty.
  abbrev pub number_from : Text → Parsed (Json Number)
  number_from s = elim (scan_number s) [
    | none ↦ none
    | some (literal, rest) ↦ some (num (of_literal literal), rest)
  ]

  -- The fuel bounds how deep the calls go: two for each character are enough.
  unfoldable mutual
    pub parse_value : ℕ → Text → Parsed (Json Number)
    parse_value zero s = none
    parse_value (suc fuel) s = elim (lead (skip_spaces s)) [
      | lead_object t ↦ elim (expect b'}' (skip_spaces t)) [
        | some rest ↦ some (obj end, rest)
        | none ↦ elim (parse_fields fuel t) [ none ↦ none | some (fs, rest) ↦ some (obj fs, rest) ]
      ]
      | lead_array t ↦ elim (expect b']' (skip_spaces t)) [
        | some rest ↦ some (arr nil, rest)
        | none ↦ elim (parse_items fuel t) [ none ↦ none | some (xs, rest) ↦ some (arr xs, rest) ]
      ]
      | lead_string t ↦ elim (scan_string t) [ none ↦ none | some (x, rest) ↦ some (str x, rest) ]
      | lead_true t ↦ some (bool true, t)
      | lead_false t ↦ some (bool false, t)
      | lead_null t ↦ some (null, t)
      | lead_number t ↦ number_from t
      | lead_other ↦ none
    ]

    -- The elements of an array up to its `]`, at least one.
    pub parse_items : ℕ → Text → Parsed (Items Number)
    parse_items zero s = none
    parse_items (suc fuel) s = elim (parse_value fuel s) [
      | none ↦ none
      | some (x, t) ↦ elim (expect b']' (skip_spaces t)) [
        | some rest ↦ some (cons x nil, rest)
        | none ↦ elim (expect b',' (skip_spaces t)) [
          | none ↦ none
          | some u ↦ elim (parse_items fuel u) [
            | none ↦ none
            | some (xs, rest) ↦ some (cons x xs, rest)
          ]
        ]
      ]
    ]

    -- The members of an object up to its `}`, at least one.
    pub parse_fields : ℕ → Text → Parsed (Fields Number)
    parse_fields zero s = none
    parse_fields (suc fuel) s = elim (expect b'"' (skip_spaces s)) [
      | none ↦ none
      | some q ↦ elim (scan_string q) [
        | none ↦ none
        | some (key, t) ↦ elim (expect b':' (skip_spaces t)) [
          | none ↦ none
          | some u ↦ elim (parse_value fuel u) [
            | none ↦ none
            | some (x, v) ↦ elim (expect b'}' (skip_spaces v)) [
              | some rest ↦ some (field key x end, rest)
              | none ↦ elim (expect b',' (skip_spaces v)) [
                | none ↦ none
                | some w ↦ elim (parse_fields fuel w) [
                  | none ↦ none
                  | some (fs, rest) ↦ some (field key x fs, rest)
                ]
              ]
            ]
          ]
        ]
      ]
    ]

  -- Only white space may follow the value.
  abbrev pub whole : Parsed (Json Number) → Option (Json Number)
  whole none = none
  whole (some (j, rest)) = elim (skip_spaces rest) [ [] ↦ some j | c ∷ s ↦ none ]

  -- `JSON.parse`; `none` is a `SyntaxError`.
  unfoldable pub parse : Text → Option (Json Number)
  parse s = whole (parse_value (2 * length s + 1) s)
