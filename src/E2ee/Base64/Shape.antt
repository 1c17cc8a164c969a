-- ===== src/E2ee/Base64/Shape.antt =====
-- On lengths and alphabets in `base64UrlEncode` and `base64UrlDecode` of frontend/src/e2ee.ts.
use private_chat.Prelude.{
  length-map, ℕ, ◌+◌, ◌*◌, ◌/◌, ◌%◌, ◌<◌, ◌≡◌, refl, ap, ◌∙◌, ◌≢◌, inl, inr, Bool, true, false, not,
  ◌&&◌, ◌||◌, none, some, List, [], ◌∷◌, map, arith, ltb, Option-cases, length, all, All, all_below,
  all_below_sound,
}
use private_chat.Text.{Text, is_b64url, is_b64url_char}
use private_chat.E2ee.Base64.{
  Bytes, IsBytes, char_of, value_of, sextets, to_url, base64_url_encode, from_url, values,
  join_sextets, decode_unpadded, atob, base64_url_decode,
}
use private_chat.E2ee.Base64.RoundTrip.{
  is_plain, url_char, sextets-lt, length-sextets, base64_url_encode-sextets, unpad-pad_to_four,
}

url_in_class : all_below 64 (λ v. is_b64url_char (url_char v)) ≡ true
unfolding all_below is_b64url_char to_url char_of
url_in_class = refl

All-url : (vs : List ℕ) → All (λ v. v < 64) vs → all is_b64url_char (map url_char vs) ≡ true
All-url [] h = refl
All-url (v ∷ vs) h = ground (
  arith,
  all_below_sound 64 (λ u. is_b64url_char (url_char u)) v url_in_class h.0,
  All-url vs h.1,
)

pub length-base64_url_encode :
    (bs : Bytes) → IsBytes bs → length (base64_url_encode bs) ≡ (4 * length bs + 2) / 3
length-base64_url_encode bs h =
    ap length (base64_url_encode-sextets bs h)
    ∙ length-map url_char (sextets bs)
    ∙ length-sextets bs

-- An encoding of at least one byte passes the check by `/^[A-Za-z0-9_-]+$/`.
pub base64_url_encode-is_b64url :
    (bs : Bytes) → IsBytes bs → 0 < length bs → is_b64url (base64_url_encode bs) ≡ true
unfolding is_b64url sextets
base64_url_encode-is_b64url [] h k = absurd (omega arith)
base64_url_encode-is_b64url (a ∷ []) h k =
    rw (base64_url_encode-sextets (a ∷ []) h) (All-url (sextets (a ∷ [])) (sextets-lt (a ∷ []) h))
base64_url_encode-is_b64url (a ∷ b ∷ []) h k =
    rw (base64_url_encode-sextets (a ∷ b ∷ []) h)
      (All-url (sextets (a ∷ b ∷ [])) (sextets-lt (a ∷ b ∷ []) h))
base64_url_encode-is_b64url (a ∷ b ∷ c ∷ bs) h k =
    rw (base64_url_encode-sextets (a ∷ b ∷ c ∷ bs) h)
      (All-url (sextets (a ∷ b ∷ c ∷ bs)) (sextets-lt (a ∷ b ∷ c ∷ bs) h))

-- What a character of the class becomes for `atob`: plain, with a value.
is_read : ℕ → Bool
is_read c =
    is_plain (from_url c) && elim (value_of (from_url c)) [ none ↦ false | some v ↦ ltb v 64 ]

all_read : all_below 123 (λ c. not (is_b64url_char c) || is_read c) ≡ true
unfolding all_below is_b64url_char is_read value_of from_url
all_read = refl

is_b64url_char-lt : (c : ℕ) → is_b64url_char c ≡ true → c < 123
unfolding is_b64url_char
is_b64url_char-lt c h = ground arith

is_read_of_class : (c : ℕ) → is_b64url_char c ≡ true → is_read c ≡ true
is_read_of_class c h = ground (
  arith,
  all_below_sound 123 (λ u. not (is_b64url_char u) || is_read u) c all_read (is_b64url_char-lt c h),
)

plain_of_class :
    (s : Text) → all is_b64url_char s ≡ true → All (λ c. is_plain c ≡ true) (map from_url s)
unfolding is_read
plain_of_class [] h = tt
plain_of_class (c ∷ s) h = (ground (arith, is_read_of_class c), plain_of_class s (ground arith))

value_of_class :
    (c : ℕ) → is_b64url_char c ≡ true → (v : ℕ) × (value_of (from_url c) ≡ some v) × (v < 64)
unfolding is_read
value_of_class c h = elim (Option-cases (value_of (from_url c))) [
  | inl e ↦ absurd (ground (arith, is_read_of_class c h))
  | inr (v, e) ↦ (v, e, ground (arith, is_read_of_class c h))
]

values_of_class :
    (s : Text)
    → all is_b64url_char s ≡ true
    → (vs : List ℕ) × (values (map from_url s) ≡ some vs)
      × (length vs ≡ length s)
      × All (λ v. v < 64) vs
unfolding values is_read
values_of_class [] h = ([], refl, refl, tt)
values_of_class (c ∷ s) h =
    let (vs, e, n, small) = values_of_class s (ground arith) in
    let (v, f, k) = value_of_class c (ground arith) in
    (v ∷ vs, ground (arith, e, f), omega arith, (k, small))

length-join_sextets : (vs : List ℕ) → length (join_sextets vs) ≡ length vs * 3 / 4
unfolding join_sextets
length-join_sextets [] = omega arith
length-join_sextets (a ∷ []) = omega arith
length-join_sextets (a ∷ b ∷ []) = omega arith
length-join_sextets (a ∷ b ∷ c ∷ []) = omega arith
length-join_sextets (a ∷ b ∷ c ∷ d ∷ vs) = omega (arith, length-join_sextets vs)

join_sextets-IsBytes : (vs : List ℕ) → All (λ v. v < 64) vs → IsBytes (join_sextets vs)
unfolding join_sextets
join_sextets-IsBytes [] h = tt
join_sextets-IsBytes (a ∷ []) h = tt
join_sextets-IsBytes (a ∷ b ∷ []) h = omega arith
join_sextets-IsBytes (a ∷ b ∷ c ∷ []) h = omega arith
join_sextets-IsBytes (a ∷ b ∷ c ∷ d ∷ vs) (ha, (hb, (hc, (hd, h)))) =
    (omega arith, (omega arith, (omega arith, join_sextets-IsBytes vs h)))

-- A text of the class whose length is not one more than a multiple of four is decoded, to three
-- bytes for four characters.
pub base64_url_decode_total :
    (s : Text)
    → all is_b64url_char s ≡ true
    → length s % 4 ≢ 1
    → (bs : Bytes) × (base64_url_decode s ≡ some bs) × (length bs ≡ length s * 3 / 4) × IsBytes bs
unfolding base64_url_decode atob decode_unpadded
base64_url_decode_total s h k =
    let (vs, e, n, small) = values_of_class s h in
    let whole : length (map from_url s) % 4 ≢ 1 = omega (arith, length-map from_url s) in
    (
      join_sextets vs,
      ground (arith, e, unpad-pad_to_four (map from_url s) (plain_of_class s h) whole),
      omega (arith, length-join_sextets vs),
      join_sextets-IsBytes vs small,
    )
