-- ===== src/E2ee/Base64/RoundTrip.antt =====
-- On `base64UrlDecode` of what `base64UrlEncode` of frontend/src/e2ee.ts writes.
use private_chat.Prelude.{
  length-map, map-map, ℕ, ◌+◌, ◌-◌, ◌*◌, ◌/◌, ◌%◌, ◌<◌, ◌≡◌, refl, ap, ap₂, ◌≢◌, inl, inr, Bool,
  true, false, not, ◌&&◌, none, some, List, [], ◌∷◌, ◌++◌, map, append_assoc, arith, ◌==◌,
  Bool-cases, length, length-append, replicate, All, all_below, all_below_sound,
}
use mathlib.Core.List.{map-append}
use private_chat.Text.{Text}
use private_chat.E2ee.Base64.{
  Bytes, IsBytes, char_of, value_of, sextets, padding, btoa, to_url, strip_padding,
  base64_url_encode, from_url, is_ascii_space, drop_spaces, drop_pad, values, join_sextets,
  decode_unpadded, unpad, atob, pad_to_four, base64_url_decode,
}

-- A character that `atob` neither skips nor takes for padding.
abbrev pub is_plain : ℕ → Bool
is_plain c = not (c == b'=') && not (is_ascii_space c)

drop_spaces_plain : (s : Text) → All (λ c. is_plain c ≡ true) s → drop_spaces s ≡ s
unfolding drop_spaces
drop_spaces_plain [] h = refl
drop_spaces_plain (c ∷ s) h = ground (arith, drop_spaces_plain s h.1)

drop_spaces_padded :
    (s t : Text)
    → All (λ c. is_plain c ≡ true) s
    → drop_spaces t ≡ t
    → drop_spaces (s ++ t) ≡ s ++ t
unfolding drop_spaces
drop_spaces_padded [] t h e = e
drop_spaces_padded (c ∷ s) t h e = ground (arith, drop_spaces_padded s t h.1 e)

drop_pad_plain : (s : Text) → All (λ c. is_plain c ≡ true) s → drop_pad s ≡ s
unfolding drop_pad
drop_pad_plain [] h = refl
drop_pad_plain (c ∷ []) h = ground arith
drop_pad_plain (c ∷ d ∷ s) h = ap (◌∷◌ c) (drop_pad_plain (d ∷ s) h.1)

drop_pad-append : (s : Text) → drop_pad (s ++ b'=' ∷ []) ≡ s
unfolding drop_pad
drop_pad-append [] = refl
drop_pad-append (c ∷ []) = refl
drop_pad-append (c ∷ d ∷ s) = ap (◌∷◌ c) (drop_pad-append (d ∷ s))

drop_pad-append_two : (s : Text) → drop_pad (drop_pad (s ++ b'=' ∷ b'=' ∷ [])) ≡ s
drop_pad-append_two s =
    rw (← append_assoc s (b'=' ∷ []) (b'=' ∷ []), drop_pad-append (s ++ b'=' ∷ []))
      (drop_pad-append s)

pad_to_four_by :
    (s : Text) (n : ℕ) → length s % 4 ≡ n → n ≢ 0 → pad_to_four s ≡ s ++ replicate (4 - n) b'='
unfolding pad_to_four
pad_to_four_by s n e k = rw e (ground arith)

module _ (s : Text) (h : All (λ c. is_plain c ≡ true) s) where
  unpad_zero : length s % 4 ≡ 0 → unpad (drop_spaces (pad_to_four s)) ≡ s
  unfolding pad_to_four
  unpad_zero e = ground (arith, drop_spaces_plain s h, drop_pad_plain s h)

  unpad_two : length s % 4 ≡ 2 → unpad (drop_spaces (pad_to_four s)) ≡ s
  unfolding drop_spaces
  unpad_two e =
      rw (pad_to_four_by s 2 e (omega arith), drop_spaces_padded s (b'=' ∷ b'=' ∷ []) h refl)
        (ground (arith, length-append s (b'=' ∷ b'=' ∷ []), drop_pad-append_two s))

  unpad_three : length s % 4 ≡ 3 → unpad (drop_spaces (pad_to_four s)) ≡ s
  unfolding drop_spaces
  unpad_three e =
      rw (pad_to_four_by s 3 e (omega arith), drop_spaces_padded s (b'=' ∷ []) h refl)
        (ground (arith, length-append s (b'=' ∷ []), drop_pad-append s, drop_pad_plain s h))

  -- `atob` undoes the padding.
  pub unpad-pad_to_four : length s % 4 ≢ 1 → unpad (drop_spaces (pad_to_four s)) ≡ s
  unpad-pad_to_four k = elim (Bool-cases (length s % 4 == 0)) [
    | inl e ↦ unpad_zero (ground arith)
    | inr e ↦ elim (Bool-cases (length s % 4 == 2)) [
      | inl f ↦ unpad_two (ground arith)
      | inr f ↦ unpad_three (ground arith)
    ]
  ]

strip_padding-append :
    (s t : Text)
    → All (λ c. is_plain c ≡ true) s
    → strip_padding t ≡ []
    → strip_padding (s ++ t) ≡ s
unfolding strip_padding
strip_padding-append [] t h e = e
strip_padding-append (c ∷ s) t h e = ground (arith, strip_padding-append s t h.1 e)

strip_padding-padding : (bs : Bytes) → strip_padding (map to_url (padding bs)) ≡ []
unfolding strip_padding padding to_url
strip_padding-padding [] = refl
strip_padding-padding (a ∷ []) = refl
strip_padding-padding (a ∷ b ∷ []) = refl
strip_padding-padding (a ∷ b ∷ c ∷ bs) = strip_padding-padding bs

pub sextets-lt : (bs : Bytes) → IsBytes bs → All (λ v. v < 64) (sextets bs)
unfolding sextets
sextets-lt [] h = tt
sextets-lt (a ∷ []) h = omega arith
sextets-lt (a ∷ b ∷ []) h = omega arith
sextets-lt (a ∷ b ∷ c ∷ bs) (ha, (hb, (hc, h))) =
    (omega arith, (omega arith, (omega arith, (omega arith, sextets-lt bs h))))

-- The alphabet of `base64UrlEncode`.
abbrev pub url_char : ℕ → ℕ
url_char v = to_url (char_of v)

-- What the round trip asks of one sextet.
is_faithful : ℕ → Bool
is_faithful v =
    is_plain (url_char v)
    && is_plain (char_of v)
    && (from_url (url_char v) == char_of v)
    && elim (value_of (char_of v)) [ none ↦ false | some w ↦ v == w ]

all_faithful : all_below 64 is_faithful ≡ true
unfolding all_below is_faithful char_of value_of to_url from_url
all_faithful = refl

record IsFaithful (v : ℕ) : Type 0 where
  plain_url : is_plain (url_char v) ≡ true
  plain : is_plain (char_of v) ≡ true
  from_to : from_url (url_char v) ≡ char_of v
  value : value_of (char_of v) ≡ some v

IsFaithful-of : (v : ℕ) → is_faithful v ≡ true → IsFaithful v
unfolding is_faithful
IsFaithful-of v e = ground arith

sextet-IsFaithful : (v : ℕ) → v < 64 → IsFaithful v
sextet-IsFaithful v h = IsFaithful-of v (all_below_sound 64 is_faithful v all_faithful h)

All-plain_url :
    (vs : List ℕ) → All (λ v. v < 64) vs → All (λ c. is_plain c ≡ true) (map url_char vs)
All-plain_url [] h = tt
All-plain_url (v ∷ vs) h = ((sextet-IsFaithful v h.0).plain_url, All-plain_url vs h.1)

All-plain : (vs : List ℕ) → All (λ v. v < 64) vs → All (λ c. is_plain c ≡ true) (map char_of vs)
All-plain [] h = tt
All-plain (v ∷ vs) h = ((sextet-IsFaithful v h.0).plain, All-plain vs h.1)

map-from_url :
    (vs : List ℕ) → All (λ v. v < 64) vs → map from_url (map url_char vs) ≡ map char_of vs
map-from_url [] h = refl
map-from_url (v ∷ vs) h = ap₂ ◌∷◌ (sextet-IsFaithful v h.0).from_to (map-from_url vs h.1)

values-char_of : (vs : List ℕ) → All (λ v. v < 64) vs → values (map char_of vs) ≡ some vs
unfolding values
values-char_of [] h = refl
values-char_of (v ∷ vs) h = ground (arith, (sextet-IsFaithful v h.0).value, values-char_of vs h.1)

join_sextets-sextets : (bs : Bytes) → IsBytes bs → join_sextets (sextets bs) ≡ bs
unfolding join_sextets sextets
join_sextets-sextets [] h = refl
join_sextets-sextets (a ∷ []) h = ground arith
join_sextets-sextets (a ∷ b ∷ []) h = ground arith
join_sextets-sextets (a ∷ b ∷ c ∷ bs) (ha, (hb, (hc, h))) =
    ground (arith, join_sextets-sextets bs h)

-- The count of sextets: four for three bytes, rounded up.
pub length-sextets : (bs : Bytes) → length (sextets bs) ≡ (4 * length bs + 2) / 3
unfolding sextets
length-sextets [] = omega arith
length-sextets (a ∷ []) = omega arith
length-sextets (a ∷ b ∷ []) = omega arith
length-sextets (a ∷ b ∷ c ∷ bs) = omega (arith, length-sextets bs)

-- The encoding is the row of sextets over the alphabet, with no padding.
pub base64_url_encode-sextets :
    (bs : Bytes) → IsBytes bs → base64_url_encode bs ≡ map url_char (sextets bs)
unfolding base64_url_encode btoa
base64_url_encode-sextets bs h =
    rw
      (
        btoa,
        map-append to_url (map char_of (sextets bs)) (padding bs),
        map-map to_url char_of (sextets bs),
      )
      (strip_padding-append (map url_char (sextets bs)) (map to_url (padding bs))
        (All-plain_url (sextets bs) (sextets-lt bs h)) (strip_padding-padding bs))

decode_unpadded-char_of :
    (vs : List ℕ)
    → All (λ v. v < 64) vs
    → length vs % 4 ≢ 1
    → decode_unpadded (map char_of vs) ≡ some (join_sextets vs)
unfolding decode_unpadded
decode_unpadded-char_of vs h k = ground (arith, length-map char_of vs, values-char_of vs h)

-- Decoding reads back what encoding writes, for any bytes.
pub base64_url_decode-encode :
    (bs : Bytes) → IsBytes bs → base64_url_decode (base64_url_encode bs) ≡ some bs
unfolding base64_url_decode atob
base64_url_decode-encode bs h =
    let vs = sextets bs in
    let small = sextets-lt bs h in
    let whole : length (map char_of vs) % 4 ≢ 1 =
      omega (arith, length-map char_of vs, length-sextets bs) in
    rw
      (
        base64_url_encode-sextets bs h,
        map-from_url vs small,
        unpad-pad_to_four (map char_of vs) (All-plain vs small) whole,
        decode_unpadded-char_of vs small (omega (arith, length-sextets bs)),
      )
      (ap some (join_sextets-sextets bs h))
