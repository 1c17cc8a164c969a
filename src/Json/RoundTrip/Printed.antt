-- ===== src/Json/RoundTrip/Printed.antt =====
-- What `JSON.stringify` prints for the values that the client prints.
use private_chat.Prelude.{
  ℕ, ◌+◌, ◌<◌, ◌≡◌, refl, ap, ◌∙◌, [], ◌∷◌, ◌++◌, arith, length, length-append,
}
use private_chat.Text.{Text}
use private_chat.Text.Decimal.{digit_decimal}
use private_chat.Text.Utf8.Range.{IsUnits}
use private_chat.Json.{Numbers, Json, num, str, arr, obj, Items, Fields, end, field}
use private_chat.Json.Print.{quote, stringify, stringify_fields}

module _ (N : Numbers) where
  open N use {Number, of_nat}

  -- Texts of 16-bit units, numbers of one digit, and no arrays, of which the client prints none.
  unfoldable mutual
    pub IsPlain : Json Number → Type 0
    IsPlain (num x) = (n : ℕ) × (n < 10) × (x ≡ of_nat n)
    IsPlain (str s) = IsUnits s
    IsPlain (arr xs) = ⊥
    IsPlain (obj fs) = IsPlainFields fs
    IsPlain _ = Unit {0}

    pub IsPlainFields : Fields Number → Type 0
    IsPlainFields end = Unit {0}
    IsPlainFields (field k x fs) = IsUnits k × IsPlain x × IsPlainFields fs

  pub printed_number :
      (n : ℕ) (x : Number) → n < 10 → x ≡ of_nat n → stringify N (num x) ≡ (48 + n) ∷ []
  unfolding stringify
  printed_number n x small same =
      ap N.to_literal same ∙ N.to_literal-of_nat n (omega arith) ∙ digit_decimal n small

  pub printed_one :
      (k : Text) (x : Json Number)
      → stringify_fields N (field k x end) ≡ quote k ++ b':' ∷ stringify N x
  unfolding stringify stringify_fields
  printed_one k x = refl

  pub printed_more :
      (k l : Text) (x y : Json Number) (fs : Fields Number)
      → stringify_fields N (field k x (field l y fs))
        ≡ quote k ++ b':' ∷ (stringify N x ++ b',' ∷ stringify_fields N (field l y fs))
  unfolding stringify stringify_fields
  printed_more k l x y fs = refl

  pub printed_none : stringify_fields N end ≡ []
  unfolding stringify stringify_fields
  printed_none = refl

  pub printed_object :
      (fs : Fields Number) → stringify N (obj fs) ≡ b'{' ∷ (stringify_fields N fs ++ b'}' ∷ [])
  unfolding stringify stringify_fields
  printed_object fs = refl

  pub IsPlain-parts :
      (k : Text) (x : Json Number) (fs : Fields Number)
      → IsPlainFields (field k x fs)
      → IsUnits k × IsPlain x × IsPlainFields fs
  unfolding IsPlain IsPlainFields
  IsPlain-parts k x fs u = u

  pub plain_object : (fs : Fields Number) → IsPlain (obj fs) → IsPlainFields fs
  unfolding IsPlain IsPlainFields
  plain_object fs u = u

  pub no_array : (xs : Items Number) → IsPlain (arr xs) → ⊥
  unfolding IsPlain
  no_array xs u = u

  pub length-object :
      (fs : Fields Number) → length (stringify N (obj fs)) ≡ length (stringify_fields N fs) + 2
  length-object fs =
      ap length (printed_object fs)
      ∙ omega (arith, length-append (stringify_fields N fs) (b'}' ∷ []))

  -- Members begin with a quote.
  pub printed_quote :
      (k : Text) (x : Json Number) (fs : Fields Number)
      → (t : Text) × (stringify_fields N (field k x fs) ≡ b'"' ∷ t)
  unfolding quote
  printed_quote k x end = (_, printed_one k x)
  printed_quote k x (field l y fs) = (_, printed_more k l x y fs)
