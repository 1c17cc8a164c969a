-- ===== src/E2ee/AesGcm/Keys.antt =====
-- On `importRoomKey` and `exportRoomKey` of frontend/src/e2ee.ts.
use mathlib.Core.List.{reverse-reverse, reverse-cons}
use private_chat.Prelude.{
  ℕ, ◌≡◌, refl, ◌∙◌, ◌⊎◌, inl, inr, Bool, true, false, ◌&&◌, some, [], ◌∷◌, ◌++◌, reverse, arith,
  if◌then◌else◌, Bool-cases, length, all,
}
use private_chat.Result.{ok, throw, crypto_unavailable, invalid_key_format}
use private_chat.Text.{Text, trim, trim_start, is_space, is_b64url_char}
use private_chat.E2ee.Base64.{Bytes, IsBytes, base64_url_encode, base64_url_decode}
use private_chat.E2ee.Base64.RoundTrip.{base64_url_decode-encode}
use private_chat.E2ee.Base64.Shape.{
  base64_url_decode_total, base64_url_encode-is_b64url, length-base64_url_encode,
}
use private_chat.E2ee.Envelope.{is_room_key_b64, is_channel_id}
use private_chat.E2ee.Envelope.Parts.{all_of_is_b64url}
use private_chat.E2ee.AesGcm.{
  Aead, RoomKey, Crypto, export_room_key, import_room_key, create_aes_gcm_crypto, aes_gcm_encrypt,
  aes_gcm_decrypt,
}

pub class-is_space : (c : ℕ) → is_b64url_char c ≡ true → is_space c ≡ false
unfolding is_b64url_char is_space
class-is_space c h = ground arith

trim_start_class : (s : Text) → all is_b64url_char s ≡ true → trim_start s ≡ s
unfolding trim_start
trim_start_class [] h = refl
trim_start_class (c ∷ s) h = ground (arith, class-is_space c)

all-append : (p : ℕ → Bool) (s t : Text) → all p (s ++ t) ≡ (all p s && all p t)
all-append p [] t = refl
all-append p (c ∷ s) t = ground (arith, all-append p s t)

pub all-reverse : (p : ℕ → Bool) (s : Text) → all p (reverse s) ≡ all p s
all-reverse p [] = refl
all-reverse p (c ∷ s) =
    rw (reverse-cons c s, all-append p (reverse s) (c ∷ []), all-reverse p s) (ground arith)

pub trim_class : (s : Text) → all is_b64url_char s ≡ true → trim s ≡ s
unfolding trim
trim_class s h =
    rw (trim_start_class s h, trim_start_class (reverse s) (all-reverse is_b64url_char s ∙ h))
      (reverse-reverse s)

-- 43 characters of the class always decode, to 32 bytes.
pub room_key_decodes :
    (s : Text)
    → is_room_key_b64 s ≡ true
    → (raw : Bytes) × (base64_url_decode s ≡ some raw) × (length raw ≡ 32)
unfolding is_room_key_b64
room_key_decodes s h =
    let n : length s ≡ 43 = ground arith in
    let (raw, e, k, _) = base64_url_decode_total s (ground arith) (omega arith) in
    (raw, e, omega arith)

-- importRoomKey succeeds exactly on 43 characters of the class between white space with Web Crypto
-- at hand, and only its two first checks ever fail.
pub import_room_key_cases :
    (available : Bool) (b64 : Text)
    → (import_room_key available b64
          ≡ (if available then throw invalid_key_format else throw crypto_unavailable))
        × ((available && is_room_key_b64 (trim b64)) ≡ false)
      ⊎ ((raw : Bytes) × (import_room_key available b64
            ≡ ok (record { raw = raw; extractable = false }))
          × (base64_url_decode (trim b64) ≡ some raw)
          × (length raw ≡ 32)
          × ((available && is_room_key_b64 (trim b64)) ≡ true))
unfolding import_room_key
import_room_key_cases false b64 = inl (refl, refl)
import_room_key_cases true b64 = elim (Bool-cases (is_room_key_b64 (trim b64))) [
  | inl good ↦
      let (raw, e, n) = room_key_decodes (trim b64) good in inr (raw, rw (good, e, n), e, n, good)
  | inr bad ↦ inl (rw bad, bad)
]

encoded-is_room_key :
    (raw : Bytes) → IsBytes raw → length raw ≡ 32 → is_room_key_b64 (base64_url_encode raw) ≡ true
unfolding is_room_key_b64
encoded-is_room_key raw h n = ground (
  arith,
  length-base64_url_encode raw h,
  all_of_is_b64url (base64_url_encode raw) (base64_url_encode-is_b64url raw h (omega arith)),
)

-- An extractable key of 32 bytes is exported as a text that passes the key check, and importing
-- that text gives the same key, which can then no longer be exported.
pub import-export :
    (raw : Bytes)
    → IsBytes raw
    → length raw ≡ 32
    → (s : Text) × (export_room_key (record { raw = raw; extractable = true }) ≡ ok s)
      × (is_room_key_b64 s ≡ true)
      × (import_room_key true s ≡ ok (record { raw = raw; extractable = false }))
unfolding export_room_key import_room_key
import-export raw h n =
    let s = base64_url_encode raw in
    let key = encoded-is_room_key raw h n in
    let class = all_of_is_b64url s (base64_url_encode-is_b64url raw h (omega arith)) in
    (s, refl, key, rw (trim_class s class, key, base64_url_decode-encode raw h, n))

-- A room with a valid id always gets a crypto for a key.
pub create_crypto :
    (aead : Aead) (available : Bool) (k : RoomKey) (id : Text)
    → is_channel_id id ≡ true
    → (crypto : Crypto) × (create_aes_gcm_crypto aead available k id ≡ ok crypto)
unfolding create_aes_gcm_crypto
create_crypto aead available k id h = (
  record {
    encrypt = aes_gcm_encrypt aead available k id;
    decrypt = aes_gcm_decrypt aead available k id;
  },
  rw (create_aes_gcm_crypto, h) refl,
)
