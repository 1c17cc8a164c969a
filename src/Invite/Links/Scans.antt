-- ===== src/Invite/Links/Scans.antt =====
-- The scans of frontend/src/invite.ts on characters of the class, and in front of what stops them.
use private_chat.Prelude.{
  ℕ, zero, suc, ◌≤◌, ◌≡◌, refl, Bool, true, false, not, Option, none, some, [], ◌∷◌, ◌++◌, arith,
  ◌==◌, length, all,
}
use private_chat.Text.{Text, text_eq, is_b64url_char}
use private_chat.Text.Utf8.{utf8_encode, decode_from, text_of_points}
use private_chat.E2ee.AesGcm.Keys.{class-is_space}
use private_chat.Invite.{
  strip_prefix, take_while, strict_utf8, between, decode_percent, decode_key_param, in_link,
  in_hash,
}

pub strip_prefix-same : (p s : Text) → strip_prefix p (p ++ s) ≡ some s
unfolding strip_prefix
strip_prefix-same [] s = refl
strip_prefix-same (c ∷ p) s = ground (arith, strip_prefix-same p s)

abbrev pub is_absent : Option Text → Bool
is_absent none = true
is_absent (some s) = false

-- A prefix that is not there is still not there when the text goes on.
pub strip_prefix-extend :
    (p u s : Text) → length p ≤ length u → strip_prefix p u ≡ none → strip_prefix p (u ++ s) ≡ none
unfolding strip_prefix
strip_prefix-extend [] u s h e = cc
strip_prefix-extend (c ∷ p) [] s h e = absurd (omega arith)
strip_prefix-extend (c ∷ p) (d ∷ u) s h e = ground (arith, strip_prefix-extend p u s)

-- The part stops at the first character that is out of the class.
unfoldable pub stops : (ℕ → Bool) → Text → Bool
stops test [] = true
stops test (c ∷ s) = not (test c)

pub take_while-all :
    (test : ℕ → Bool) (n : ℕ) (s t : Text)
    → all test s ≡ true
    → length s ≤ n
    → stops test t ≡ true
    → take_while test n (s ++ t) ≡ (s, t)
unfolding take_while stops
take_while-all test zero [] t h k e = refl
take_while-all test zero (c ∷ s) t h k e = absurd (omega arith)
take_while-all test (suc n) [] [] h k e = refl
take_while-all test (suc n) [] (c ∷ t) h k e = ground arith
take_while-all test (suc n) (c ∷ s) t h k e = ground (arith, take_while-all test n s t)

-- A text of the class holds no `%`, and is its own decoding.
strict_utf8-empty : strict_utf8 [] ≡ some []
unfolding strict_utf8 utf8_encode decode_from text_of_points text_eq
strict_utf8-empty = refl

class-percent : (c : ℕ) → is_b64url_char c ≡ true → (c == b'%') ≡ false
unfolding is_b64url_char
class-percent c h = ground arith

class-ampersand : (c : ℕ) → is_b64url_char c ≡ true → (c == b'&') ≡ false
unfolding is_b64url_char
class-ampersand c h = ground arith

pub all-head :
    (test : ℕ → Bool) (c : ℕ) (s : Text)
    → all test (c ∷ s) ≡ true
    → (test c ≡ true) × (all test s ≡ true)
all-head test c s h = ground arith

decode_percent-class :
    (s : Text) → all is_b64url_char s ≡ true → decode_percent between [] s ≡ some s
unfolding decode_percent
decode_percent-class [] h = strict_utf8-empty
decode_percent-class (c ∷ s) h =
    let (head, tail) = all-head is_b64url_char c s h in
    rw (decode_percent, class-percent c head, strict_utf8-empty, decode_percent-class s tail) refl

pub decode_key_param-class : (s : Text) → all is_b64url_char s ≡ true → decode_key_param s ≡ s
unfolding decode_key_param
decode_key_param-class s h = rw (decode_key_param, decode_percent-class s h) refl

pub class_in_link : (s : Text) → all is_b64url_char s ≡ true → all in_link s ≡ true
class_in_link [] h = refl
class_in_link (c ∷ s) h =
    let (head, tail) = all-head is_b64url_char c s h in
    rw (class-ampersand c head, class-is_space c head) (class_in_link s tail)

pub class_in_hash : (s : Text) → all is_b64url_char s ≡ true → all in_hash s ≡ true
class_in_hash [] h = refl
class_in_hash (c ∷ s) h =
    let (head, tail) = all-head is_b64url_char c s h in
    rw (class-ampersand c head) (class_in_hash s tail)
