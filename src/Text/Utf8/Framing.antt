-- ===== src/Text/Utf8/Framing.antt =====
-- On the bytes of a concatenation, for the texts that e2ee.ts and identity.ts join with separators.
use private_chat.Prelude.{
  ℕ, ◌<◌, ◌≡◌, refl, sym, ap, ◌∙◌, Option, none, some, List, [], ◌∷◌, ◌++◌, append_assoc, arith,
  length, All,
}
use private_chat.Text.{Text}
use private_chat.Text.Utf8.{
  emit, pending, points_from, points, bytes_of, bytes_of_points, utf8_encode,
}

points_from-split :
    (p : Option ℕ) (s : Text) (c : ℕ) (t : Text)
    → c < 0xd800
    → points_from p (s ++ c ∷ t) ≡ points_from p s ++ c ∷ points t
unfolding points_from
points_from-split none [] c t h = ground arith
points_from-split (some l) [] c t h = ground arith
points_from-split none (d ∷ s) c t h =
    rw (points_from-split (pending d) s c t h) (sym (append_assoc (emit none d) _ _))
points_from-split (some l) (d ∷ s) c t h =
    rw (points_from-split (pending d) s c t h) (sym (append_assoc (emit (some l) d) _ _))

bytes_of_points-append :
    (xs ys : List ℕ) → bytes_of_points (xs ++ ys) ≡ bytes_of_points xs ++ bytes_of_points ys
unfolding bytes_of_points
bytes_of_points-append [] ys = refl
bytes_of_points-append (x ∷ xs) ys =
    rw (bytes_of_points-append xs ys) (sym (append_assoc (bytes_of x) _ _))

-- An ASCII code unit is its own byte, and separates the bytes of what stands around it.
pub utf8_encode-split :
    (s : Text) (c : ℕ) (t : Text)
    → c < 0x80
    → utf8_encode (s ++ c ∷ t) ≡ utf8_encode s ++ c ∷ utf8_encode t
unfolding utf8_encode
utf8_encode-split s c t h =
    rw
      (points_from-split none s c t (omega arith), bytes_of_points-append (points s) (c ∷ points t))
      (ground arith)

pub utf8_encode-cons : (c : ℕ) (t : Text) → c < 0x80 → utf8_encode (c ∷ t) ≡ c ∷ utf8_encode t
unfolding utf8_encode
utf8_encode-cons c t h = ground arith

-- An ASCII text is its own encoding, also in front of another text.
pub utf8_encode-ascii :
    (s t : Text) → All (λ c. c < 0x80) s → utf8_encode (s ++ t) ≡ s ++ utf8_encode t
utf8_encode-ascii [] t h = refl
utf8_encode-ascii (c ∷ s) t h =
    utf8_encode-cons c (s ++ t) h.0 ∙ ap (◌∷◌ c) (utf8_encode-ascii s t h.1)

-- Rows of equal length in front of two equal lists are equal.
pub append-cancel_length {ℓ} :
    {A : Type ℓ} (a b s t : List A) → length a ≡ length b → a ++ s ≡ b ++ t → (a ≡ b) × (s ≡ t)
append-cancel_length [] [] s t h e = (refl, e)
append-cancel_length [] (y ∷ b) s t h e = absurd (omega arith)
append-cancel_length (x ∷ a) [] s t h e = absurd (omega arith)
append-cancel_length (x ∷ a) (y ∷ b) s t h e =
    let (same, rest) = append-cancel_length a b s t (omega arith) (ground arith) in
    (ground arith, rest)
