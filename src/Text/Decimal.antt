-- ===== src/Text/Decimal.antt =====
-- `${n}` for a natural number: its decimal digits.
use private_chat.Prelude.{
  All, All-append, ℕ, zero, suc, ◌+◌, ◌-◌, ◌*◌, ◌/◌, ◌%◌, ◌≤◌, ◌<◌, ◌≡◌, refl, sym, ap, ◌∙◌, false,
  [], ◌∷◌, ◌++◌, arith, ltb, ◌==◌, if◌then◌else◌, Bool-cases, inl, inr,
}
use private_chat.Text.{Text, includes}

-- The fuel is more than the number of digits.
decimal_from : ℕ → ℕ → Text
decimal_from zero n = []
decimal_from (suc fuel) n =
    let longer = decimal_from fuel (n / 10) ++ (b'0' + n % 10) ∷ [] in
    if ltb n 10 then (b'0' + n) ∷ [] else longer

unfoldable pub decimal : ℕ → Text
unfolding decimal_from
decimal n = decimal_from (suc n) n

-- The value of a row of digits, `acc` standing for those in front.
value_from : ℕ → Text → ℕ
value_from acc [] = acc
value_from acc (d ∷ s) = value_from (acc * 10 + (d - b'0')) s

value_from-append :
    (acc : ℕ) (s t : Text) → value_from acc (s ++ t) ≡ value_from (value_from acc s) t
unfolding value_from
value_from-append acc [] t = refl
value_from-append acc (d ∷ s) t = value_from-append (acc * 10 + (d - b'0')) s t

value-decimal_from : (fuel n : ℕ) → n < fuel → value_from 0 (decimal_from fuel n) ≡ n
unfolding decimal_from value_from
value-decimal_from zero n h = absurd (omega arith)
value-decimal_from (suc fuel) n h = elim (Bool-cases (ltb n 10)) [
  | inl short ↦ ground arith
  | inr long ↦ ground (
    arith,
    value_from-append 0 (decimal_from fuel (n / 10)) ((b'0' + n % 10) ∷ []),
    value-decimal_from fuel (n / 10),
  )
]

-- The number that a row of digits stands for.
unfoldable pub value : Text → ℕ
unfolding value_from
value s = value_from 0 s

pub value-decimal : (n : ℕ) → value (decimal n) ≡ n
unfolding value decimal
value-decimal n = value-decimal_from (suc n) n (omega arith)

pub decimal_injective : (m n : ℕ) → decimal m ≡ decimal n → m ≡ n
unfolding decimal
decimal_injective m n e =
    sym (value-decimal_from (suc m) m (omega arith))
    ∙ ap (value_from 0) e
    ∙ value-decimal_from (suc n) n (omega arith)

includes-append-one :
    (c d : ℕ) (s : Text)
    → includes c s ≡ false
    → (d == c) ≡ false
    → includes c (s ++ d ∷ []) ≡ false
unfolding includes
includes-append-one c d [] h k = ground arith
includes-append-one c d (x ∷ s) h k = ground (arith, includes-append-one c d s)

decimal_from-includes : (fuel n c : ℕ) → 58 ≤ c → includes c (decimal_from fuel n) ≡ false
unfolding decimal_from includes
decimal_from-includes zero n c h = refl
decimal_from-includes (suc fuel) n c h = ground (
  arith,
  decimal_from-includes fuel (n / 10) c h,
  includes-append-one c (b'0' + n % 10) (decimal_from fuel (n / 10)),
)

-- No separator that follows the digits in the code table occurs among them.
pub decimal-includes : (n c : ℕ) → 58 ≤ c → includes c (decimal n) ≡ false
unfolding decimal
decimal-includes n c h = decimal_from-includes (suc n) n c h

decimal_from-ascii : (fuel n : ℕ) → All (λ c. c < 0x80) (decimal_from fuel n)
unfolding decimal_from
decimal_from-ascii zero n = tt
decimal_from-ascii (suc fuel) n =
    let longer =
      All-append (λ c. c < 0x80) (decimal_from fuel (n / 10)) ((b'0' + n % 10) ∷ [])
        (decimal_from-ascii fuel (n / 10)) (omega arith) in
    ground (arith, longer)

pub decimal-ascii : (n : ℕ) → All (λ c. c < 0x80) (decimal n)
unfolding decimal
decimal-ascii n = decimal_from-ascii (suc n) n

-- A number below ten is its digit.
pub digit_decimal : (n : ℕ) → n < 10 → decimal n ≡ (b'0' + n) ∷ []
unfolding decimal decimal_from
digit_decimal n h = ground arith
