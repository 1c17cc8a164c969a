-- ===== src/Json/RoundTrip/Strings.antt =====
-- Strings of JSON: what `JSON.stringify` quotes is scanned back.
use private_chat.Prelude.{
  ℕ, suc, ◌+◌, ◌*◌, ◌/◌, ◌%◌, ◌<◌, ◌≡◌, refl, sym, ap, ◌∙◌, inl, inr, true, false, ◌&&◌, ◌||◌,
  Option, none, some, [], ◌∷◌, ◌++◌, append_assoc, arith, ltb, leb, ◌==◌, if◌then◌else◌, Bool-cases,
}
use private_chat.Text.{Text}
use private_chat.Text.Utf8.Range.{IsUnits}
use private_chat.Json.Scan.{
  Mode, plain, escape, hex, next, hex_value, escaped, scan_char, in_front, scan_string_from,
  scan_string,
}
use private_chat.Json.Print.{
  hex_char, unicode_escape, is_surrogate, quote_unit, lead_of, quote_at, quote_from,
}

in_front-nil : (o : Option (Text × Text)) → in_front [] o ≡ o
in_front-nil none = refl
in_front-nil (some (s, rest)) = refl

in_front-append :
    (s t : Text) (o : Option (Text × Text)) → in_front s (in_front t o) ≡ in_front (s ++ t) o
in_front-append s t none = refl
in_front-append s t (some (u, rest)) = ap (λ w. some (w, rest)) (sym (append_assoc s t u))

hex_value-char : (d : ℕ) → d < 16 → hex_value (hex_char d) ≡ some d
unfolding hex_value
hex_value-char d h = ground arith

-- One step of the scan.
scan_next :
    (m m' : Mode) (c : ℕ) (out t : Text)
    → scan_char m c ≡ next m' out
    → scan_string_from m (c ∷ t) ≡ in_front out (scan_string_from m' t)
unfolding scan_string_from
scan_next m m' c out t e = rw (scan_string_from, e) refl

-- A step that puts out nothing.
scan_silent :
    (m m' : Mode) (c : ℕ) (t : Text)
    → scan_char m c ≡ next m' []
    → scan_string_from m (c ∷ t) ≡ scan_string_from m' t
scan_silent m m' c t e = scan_next m m' c [] t e ∙ in_front-nil (scan_string_from m' t)

scan_plain :
    (c : ℕ) (t : Text)
    → (c == b'"') ≡ false
    → (c == b'\\') ≡ false
    → ltb c 32 ≡ false
    → scan_string_from plain (c ∷ t) ≡ in_front (c ∷ []) (scan_string_from plain t)
unfolding scan_char
scan_plain c t q b l = scan_next plain plain c (c ∷ []) t (rw (scan_char, q, b, l) refl)

scan_hex :
    (more value d : ℕ) (t : Text)
    → d < 16
    → scan_string_from (hex (suc more) value) (hex_char d ∷ t)
      ≡ scan_string_from (hex more (value * 16 + d)) t
unfolding scan_char
scan_hex more value d t h =
    scan_next (hex (suc more) value) (hex more (value * 16 + d)) (hex_char d) [] t
      (rw (scan_char, hex_value-char d h) refl)
    ∙ in_front-nil (scan_string_from (hex more (value * 16 + d)) t)

scan_last_hex :
    (value d : ℕ) (t : Text)
    → d < 16
    → scan_string_from (hex 0 value) (hex_char d ∷ t)
      ≡ in_front ((value * 16 + d) ∷ []) (scan_string_from plain t)
unfolding scan_char
scan_last_hex value d t h =
    scan_next (hex 0 value) plain (hex_char d) ((value * 16 + d) ∷ []) t
      (rw (scan_char, hex_value-char d h) refl)

nibbles :
    (c : ℕ)
    → c < 65536
    → (((0 * 16 + c / 4096 % 16) * 16 + c / 256 % 16) * 16 + c / 16 % 16) * 16 + c % 16 ≡ c
nibbles c h = omega arith

scan_unicode_escape :
    (c : ℕ) (t : Text)
    → c < 65536
    → scan_string_from plain (unicode_escape c ++ t) ≡ in_front (c ∷ []) (scan_string_from plain t)
unfolding unicode_escape scan_char escaped
scan_unicode_escape c t h =
    let d3 = c / 4096 % 16 in
    let d2 = c / 256 % 16 in
    let d1 = c / 16 % 16 in
    let d0 = c % 16 in
    let t0 = hex_char d0 ∷ t in
    let t1 = hex_char d1 ∷ t0 in
    let t2 = hex_char d2 ∷ t1 in
    let t3 = hex_char d3 ∷ t2 in
    scan_silent plain escape b'\\' (b'u' ∷ t3) refl
    ∙ scan_silent escape (hex 3 0) b'u' t3 refl
    ∙ scan_hex 2 0 d3 t2 (omega arith)
    ∙ scan_hex 1 (0 * 16 + d3) d2 t1 (omega arith)
    ∙ scan_hex 0 ((0 * 16 + d3) * 16 + d2) d1 t0 (omega arith)
    ∙ scan_last_hex (((0 * 16 + d3) * 16 + d2) * 16 + d1) d0 t (omega arith)
    ∙ ap (λ x. in_front (x ∷ []) (scan_string_from plain t)) (nibbles c h)

-- An escape of one character.
scan_escape :
    (d c : ℕ) (t : Text)
    → escaped d ≡ next plain (c ∷ [])
    → scan_string_from plain (b'\\' ∷ d ∷ t) ≡ in_front (c ∷ []) (scan_string_from plain t)
unfolding scan_char
scan_escape d c t e =
    scan_silent plain escape b'\\' (d ∷ t) refl ∙ scan_next escape plain d (c ∷ []) t e

scan_quote_unit :
    (c : ℕ) (t : Text)
    → c < 65536
    → scan_string_from plain (quote_unit c ++ t) ≡ in_front (c ∷ []) (scan_string_from plain t)
unfolding quote_unit escaped
scan_quote_unit c t h = elim (Bool-cases (c == b'"' || c == b'\\')) [
  | inl q ↦ rw (quote_unit, q) (scan_escape c c t (ground arith))
  | inr q ↦ elim (Bool-cases (c == 8)) [
    | inl e ↦ rw (quote_unit, q, e) (scan_escape b'b' c t (ground arith))
    | inr e8 ↦ elim (Bool-cases (c == 9)) [
      | inl e ↦ rw (quote_unit, q, e8, e) (scan_escape b't' c t (ground arith))
      | inr e9 ↦ elim (Bool-cases (c == 10)) [
        | inl e ↦ rw (quote_unit, q, e8, e9, e) (scan_escape b'n' c t (ground arith))
        | inr e10 ↦ elim (Bool-cases (c == 12)) [
          | inl e ↦ rw (quote_unit, q, e8, e9, e10, e) (scan_escape b'f' c t (ground arith))
          | inr e12 ↦ elim (Bool-cases (c == 13)) [
            | inl e ↦ rw (quote_unit, q, e8, e9, e10, e12, e) (scan_escape b'r' c t (ground arith))
            | inr e13 ↦ elim (Bool-cases (ltb c 32 || is_surrogate c)) [
              | inl e ↦ rw (quote_unit, q, e8, e9, e10, e12, e13, e) (scan_unicode_escape c t h)
              | inr e ↦
                  rw (quote_unit, q, e8, e9, e10, e12, e13, e)
                    (scan_plain c t (ground arith) (ground arith) (ground arith))
            ]
          ]
        ]
      ]
    ]
  ]
]

abbrev held : Option ℕ → Text
held none = []
held (some h) = h ∷ []

abbrev IsHeld : Option ℕ → Type 0
IsHeld none = Unit {0}
IsHeld (some h) = (leb 0xd800 h && leb h 0xdbff) ≡ true

lead_of-IsHeld : (c : ℕ) → IsHeld (lead_of c)
lead_of-IsHeld c = elim (Bool-cases (leb 0xd800 c && leb c 0xdbff)) [
  | inl l ↦ rw l l
  | inr l ↦ rw l tt
]

-- What is written at a code unit reads as what it completes; a lead surrogate waits for the next.
abbrev completed : Option ℕ → ℕ → Text
completed p c = if leb 0xd800 c && leb c 0xdbff then held p else held p ++ c ∷ []

scan_quote_at :
    (p : Option ℕ) (c : ℕ) (t : Text)
    → IsHeld p
    → c < 65536
    → scan_string_from plain (quote_at p c ++ t)
      ≡ in_front (completed p c) (scan_string_from plain t)
unfolding quote_at
scan_quote_at none c t h k = elim (Bool-cases (leb 0xd800 c && leb c 0xdbff)) [
  | inl l ↦ rw (quote_at, l) (sym (in_front-nil (scan_string_from plain t)))
  | inr l ↦ rw (quote_at, l) (scan_quote_unit c t k)
]
scan_quote_at (some p) c t h k = elim (Bool-cases (leb 0xdc00 c && leb c 0xdfff)) [
  | inl l ↦
      let no_lead : (leb 0xd800 c && leb c 0xdbff) ≡ false = ground arith in
      rw (quote_at, l, no_lead)
        (scan_plain p (c ∷ t) (ground arith) (ground arith) (ground arith)
          ∙ ap (in_front (p ∷ [])) (scan_plain c t (ground arith) (ground arith) (ground arith))
          ∙ in_front-append (p ∷ []) (c ∷ []) (scan_string_from plain t))
  | inr l ↦ elim (Bool-cases (leb 0xd800 c && leb c 0xdbff)) [
    | inl k' ↦ rw (quote_at, l, k') (scan_unicode_escape p t (ground arith))
    | inr k' ↦
        rw (quote_at, l, k')
          (ap (scan_string_from plain) (append_assoc (unicode_escape p) (quote_unit c) t)
            ∙ scan_unicode_escape p (quote_unit c ++ t) (ground arith)
            ∙ ap (in_front (p ∷ [])) (scan_quote_unit c t k)
            ∙ in_front-append (p ∷ []) (c ∷ []) (scan_string_from plain t))
  ]
]

completed-held :
    (p : Option ℕ) (c : ℕ) (s : Text) → completed p c ++ (held (lead_of c) ++ s) ≡ held p ++ c ∷ s
completed-held p c s = elim (Bool-cases (leb 0xd800 c && leb c 0xdbff)) [
  | inl l ↦ rw l refl
  | inr l ↦ rw l (append_assoc (held p) (c ∷ []) s)
]

scan_quote_from :
    (p : Option ℕ) (s rest : Text)
    → IsHeld p
    → IsUnits s
    → scan_string_from plain (quote_from p s ++ b'"' ∷ rest) ≡ some (held p ++ s, rest)
unfolding quote_from scan_string_from scan_char
scan_quote_from none [] rest h u = refl
scan_quote_from (some p) [] rest h u = scan_unicode_escape p (b'"' ∷ rest) (ground arith)
scan_quote_from p (c ∷ s) rest h (k, u) =
    let tail = quote_from (lead_of c) s in
    ap (scan_string_from plain) (append_assoc (quote_at p c) tail (b'"' ∷ rest))
    ∙ scan_quote_at p c (tail ++ b'"' ∷ rest) h k
    ∙ ap (in_front (completed p c)) (scan_quote_from (lead_of c) s rest (lead_of-IsHeld c) u)
    ∙ ap (λ w. some (w, rest)) (completed-held p c s)

-- Behind the opening quote a string reads back.
pub scan_string-quote :
    (s rest : Text) → IsUnits s → scan_string (quote_from none s ++ b'"' ∷ rest) ≡ some (s, rest)
unfolding scan_string
scan_string-quote s rest u = scan_quote_from none s rest tt u
