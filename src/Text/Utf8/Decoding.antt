-- ===== src/Text/Utf8/Decoding.antt =====
-- On `new TextDecoder().decode` of the bytes of `new TextEncoder().encode`, which e2ee.ts uses.
use private_chat.Prelude.{
  ℕ, ◌+◌, ◌-◌, ◌*◌, ◌/◌, ◌<◌, ◌≡◌, refl, sym, ap, ◌∙◌, inl, inr, Bool, true, false, not, ◌&&◌,
  Option, none, some, List, [], ◌∷◌, ◌++◌, arith, ◌==◌, Bool-cases, All,
}
use private_chat.Text.{Text}
use private_chat.Text.Utf8.{
  is_lead, is_trail, pending, points_from, points, bytes_of_points, utf8_encode, utf8_decode, idle,
  decode_from, units, text_of_points, drop_bom,
}
use private_chat.Text.Utf8.Sequences.{IsScalar, decode_from-bytes_of}

-- `s.isWellFormed()`, behind a pending lead surrogate or none.
abbrev pub well_formed_from : Option ℕ → Text → Bool
well_formed_from none [] = true
well_formed_from (some l) [] = false
well_formed_from none (c ∷ s) = not (is_trail c) && well_formed_from (pending c) s
well_formed_from (some l) (c ∷ s) = is_trail c && well_formed_from none s

-- A text of 16-bit code units with no lone surrogate.
pub record IsWellFormed (s : Text) : Type 0 where
  pub narrow : All (λ c. c < 0x10000) s
  pub paired : well_formed_from none s ≡ true

-- Scalar values come back.
pub decode_from-bytes_of_points :
    (cps : List ℕ) → All IsScalar cps → decode_from idle (bytes_of_points cps) ≡ cps
unfolding bytes_of_points decode_from
decode_from-bytes_of_points [] h = refl
decode_from-bytes_of_points (cp ∷ cps) h =
    decode_from-bytes_of cp (bytes_of_points cps) h.0
    ∙ ap (◌∷◌ cp) (decode_from-bytes_of_points cps h.1)

-- What a pending lead surrogate asks of itself.
abbrev IsLead? : Option ℕ → Type 0
IsLead? none = Unit {0}
IsLead? (some l) = is_lead l ≡ true

abbrev held : Option ℕ → Text
held none = []
held (some l) = l ∷ []

pending-IsLead? : (c : ℕ) → IsLead? (pending c)
unfolding pending
pending-IsLead? c = elim (Bool-cases (is_lead c)) [
  | inl e ↦ rw (e, pending) e
  | inr e ↦ rw (e, pending) tt
]

points_from-IsScalar :
    (p : Option ℕ) (s : Text)
    → IsLead? p
    → All (λ c. c < 0x10000) s
    → well_formed_from p s ≡ true
    → All IsScalar (points_from p s)
unfolding points_from pending
points_from-IsScalar none [] l n w = tt
points_from-IsScalar (some l) [] h n w = cc
points_from-IsScalar none (c ∷ s) l n w =
    ground (arith, points_from-IsScalar (pending c) s (pending-IsLead? c) n.1)
points_from-IsScalar (some l) (c ∷ s) h n w = ground (arith, points_from-IsScalar none s tt n.1)

units_single : (c : ℕ) → c < 0x10000 → units c ≡ c ∷ []
unfolding units
units_single c h = ground arith

units_pair :
    (l c : ℕ)
    → is_lead l ≡ true
    → is_trail c ≡ true
    → units (0x10000 + (l - 0xd800) * 0x400 + (c - 0xdc00)) ≡ l ∷ c ∷ []
unfolding units
units_pair l c h k =
    let low : ℕ = c - 0xdc00 in
    let high : ℕ = l - 0xd800 in
    let small : low < 0x400 = ground arith in
    let trail : 0xdc00 + low ≡ c = ground arith in
    let lead : 0xd800 + high ≡ l = ground arith in
    let quotient : (high * 0x400 + low) / 0x400 ≡ high = omega arith in ground arith

text_of_points-points_from :
    (p : Option ℕ) (s : Text)
    → IsLead? p
    → All (λ c. c < 0x10000) s
    → well_formed_from p s ≡ true
    → text_of_points (points_from p s) ≡ held p ++ s
unfolding text_of_points points_from pending
text_of_points-points_from none [] l n w = refl
text_of_points-points_from (some l) [] h n w = cc
text_of_points-points_from none (c ∷ s) l n w =
    ground
      (arith, units_single c n.0, text_of_points-points_from (pending c) s (pending-IsLead? c) n.1)
text_of_points-points_from (some l) (c ∷ s) h n w =
    ground (arith, units_pair l c h, text_of_points-points_from none s tt n.1)

decode_from-utf8_encode : (s : Text) → IsWellFormed s → decode_from idle (utf8_encode s) ≡ points s
unfolding utf8_encode
decode_from-utf8_encode s w =
    decode_from-bytes_of_points (points s) (points_from-IsScalar none s tt w.narrow w.paired)

text_of_points-points : (s : Text) → IsWellFormed s → text_of_points (points s) ≡ s
text_of_points-points s w = text_of_points-points_from none s tt w.narrow w.paired

-- On well-formed texts the encoding is injective.
pub utf8_encode_injective :
    (s t : Text) → IsWellFormed s → IsWellFormed t → utf8_encode s ≡ utf8_encode t → s ≡ t
utf8_encode_injective s t v w e =
    let same : points s ≡ points t =
      sym (decode_from-utf8_encode s v) ∙ ap (decode_from idle) e ∙ decode_from-utf8_encode t w in
    sym (text_of_points-points s v) ∙ ap text_of_points same ∙ text_of_points-points t w

-- The first code unit is no byte order mark.
abbrev pub has_bom : Text → Bool
has_bom [] = false
has_bom (c ∷ s) = c == 0xfeff

drop_bom-points : (s : Text) → has_bom s ≡ false → drop_bom (points s) ≡ points s
unfolding points_from pending
drop_bom-points [] h = refl
drop_bom-points (c ∷ []) h = ground arith
drop_bom-points (c ∷ d ∷ s) h = ground arith

-- Decoding reads back the encoding of a well-formed text that does not begin with a byte order
-- mark.
pub utf8_decode-utf8_encode :
    (s : Text) → IsWellFormed s → has_bom s ≡ false → utf8_decode (utf8_encode s) ≡ s
unfolding utf8_decode
utf8_decode-utf8_encode s w h =
    rw (decode_from-utf8_encode s w, drop_bom-points s h) (text_of_points-points s w)

-- A byte order mark in front is lost.
pub utf8_decode-bom :
    (s : Text) → IsWellFormed (0xfeff ∷ s) → utf8_decode (utf8_encode (0xfeff ∷ s)) ≡ s
unfolding utf8_decode points_from pending
utf8_decode-bom s w =
    rw (decode_from-utf8_encode (0xfeff ∷ s) w)
      (text_of_points-points s (record { narrow = w.narrow.1; paired = w.paired }))
