-- ===== src/E2ee/AesGcm.antt =====
-- Room keys and `createAesGcmCrypto` of frontend/src/e2ee.ts. AES-GCM itself is a parameter.
pub mod RoundTrip
pub mod Binding
pub mod Keys
use private_chat.Prelude.{
  ℕ, zero, suc, ◌+◌, ◌-◌, ◌*◌, ◌/◌, ◌%◌, ◌^◌, ◌≤◌, ◌<◌, min, ◌≡◌, refl, sym, ap, ap₂, subst, ◌∙◌,
  ◌≢◌, ◌↔◌, ◌⊎◌, inl, inr, Bool, true, false, not, ◌&&◌, ◌||◌, Option, none, some, List, [], ◌∷◌,
  ◌++◌, map, reverse, append-nil, append_assoc, arith, ltb, leb, ◌==◌, if◌then◌else◌, ltb→lt,
  lt→ltb, leb→le, ==_iff, Bool-cases, Option-cases, length, length-append, take, drop, replicate,
  length-replicate, take-length-append, drop-length-append, take-append-drop, length-drop, all, All,
  All-append, All-all, all-All, all_below, all_below_sound, length-map, map-map,
}
use private_chat.Result.{
  Result, ok, throw, ◌>>=◌, ◌>>◌, require, or_throw, crypto_unavailable, invalid_channel_id_for_aad,
  invalid_preset_message_id, invalid_preset_message_id_length, invalid_cipher_format,
  invalid_iv_length, invalid_message_id_length, invalid_key_format, invalid_key_length,
  invalid_character, operation_failed, invalid_access,
}
use private_chat.Text.{Text, codes, split, trim, is_b64url}
use private_chat.Text.Utf8.{utf8_encode, utf8_decode}
use private_chat.E2ee.Base64.{Bytes, IsBytes, base64_url_encode, base64_url_decode}
use private_chat.E2ee.Envelope.{is_room_key_b64, is_channel_id, join_envelope}

-- AES-GCM with a 128-bit tag, `crypto.subtle.encrypt` and `decrypt`: decryption gives back what was
-- encrypted under the same key, vector and additional data, and the tag makes 16 bytes.
pub record Aead : Type 0 where
  pub seal : (key iv aad plain : Bytes) → Bytes
  pub unseal : (key iv aad ct : Bytes) → Option Bytes
  pub unseal-seal :
      (key iv aad plain : Bytes)
      → IsBytes plain
      → unseal key iv aad (seal key iv aad plain) ≡ some plain
  pub length-seal : (key iv aad plain : Bytes) → length (seal key iv aad plain) ≡ length plain + 16
  pub seal-IsBytes : (key iv aad plain : Bytes) → IsBytes plain → IsBytes (seal key iv aad plain)

-- A `CryptoKey` of AES-GCM.
pub record RoomKey : Type 0 where
  pub raw : Bytes
  pub extractable : Bool

-- What `crypto.getRandomValues` fills in one call of `encrypt`.
pub record Random : Type 0 where
  pub iv : Bytes
  pub message_id : Bytes

pub record IsRandom (r : Random) : Type 0 where
  pub iv_length : length r.iv ≡ 12
  pub iv_bytes : IsBytes r.iv
  pub message_id_length : length r.message_id ≡ 16
  pub message_id_bytes : IsBytes r.message_id

-- `interface Crypto`; the second argument of `encrypt` is `opts?.messageIdB64`.
pub record Crypto : Type 0 where
  pub encrypt : Text → Option Text → Random → Result Text
  pub decrypt : Text → Result Text

unfoldable pub noop_crypto : Crypto
noop_crypto = record { encrypt = λ plain preset r. ok plain; decrypt = λ cipher. ok cipher }

-- `generateRoomKey`: the bytes come from the platform's generator.
unfoldable pub generate_room_key : Bool → Bytes → Result RoomKey
generate_room_key available raw = do
  require available crypto_unavailable
  ok (record { raw = raw; extractable = true })

unfoldable pub export_room_key : RoomKey → Result Text
export_room_key key = do require key.extractable invalid_access; ok (base64_url_encode key.raw)

unfoldable pub import_room_key_raw : Bytes → Result RoomKey
import_room_key_raw raw = do
  require (length raw == 32) invalid_key_length
  ok (record { raw = raw; extractable = false })

unfoldable pub import_room_key : Bool → Text → Result RoomKey
import_room_key available b64 = do
  require available crypto_unavailable
  let key = trim b64
  require (is_room_key_b64 key) invalid_key_format
  raw ← or_throw (base64_url_decode key) invalid_character
  require (length raw == 32) invalid_key_length
  ok (record { raw = raw; extractable = false })

-- `v1|${channelId}|${messageIdB64}`
unfoldable pub aad_text : Text → Text → Text
aad_text channel_id message_id_b64 = codes "v1|" ++ (channel_id ++ b'|' ∷ message_id_b64)

unfoldable pub choose_message_id : Option Text → Bytes → Result Text
choose_message_id none fresh = ok (base64_url_encode fresh)
choose_message_id (some preset) fresh = do
  require (is_b64url preset) invalid_preset_message_id
  mid ← or_throw (base64_url_decode preset) invalid_character
  require (length mid == 16) invalid_preset_message_id_length
  ok preset

pub record Parts : Type 0 where
  pub iv : Text
  pub mid : Text
  pub ct : Text

unfoldable pub three_parts : List Text → Option Parts
three_parts (iv ∷ mid ∷ ct ∷ []) = some (record { iv = iv; mid = mid; ct = ct })
three_parts _ = none

module _ (aead : Aead) (available : Bool) (key : RoomKey) (channel_id : Text) where
  unfoldable pub aes_gcm_encrypt : Text → Option Text → Random → Result Text
  aes_gcm_encrypt plain preset r = do
    require available crypto_unavailable
    mid ← choose_message_id preset r.message_id
    let aad = utf8_encode (aad_text channel_id mid)
    let ct = aead.seal key.raw r.iv aad (utf8_encode plain)
    ok (join_envelope (base64_url_encode r.iv) mid (base64_url_encode ct))

  unfoldable pub aes_gcm_decrypt : Text → Result Text
  aes_gcm_decrypt cipher = do
    require available crypto_unavailable
    parts ← or_throw (three_parts (split b'.' cipher)) invalid_cipher_format
    iv ← or_throw (base64_url_decode parts.iv) invalid_character
    message_id ← or_throw (base64_url_decode parts.mid) invalid_character
    require (length iv == 12) invalid_iv_length
    require (length message_id == 16) invalid_message_id_length
    let aad = utf8_encode (aad_text channel_id parts.mid)
    ct ← or_throw (base64_url_decode parts.ct) invalid_character
    plain ← or_throw (aead.unseal key.raw iv aad ct) operation_failed
    ok (utf8_decode plain)

-- `createAesGcmCrypto`
unfoldable pub create_aes_gcm_crypto : Aead → Bool → RoomKey → Text → Result Crypto
create_aes_gcm_crypto aead available key channel_id = do
  require (is_channel_id channel_id) invalid_channel_id_for_aad
  ok (record {
    encrypt = aes_gcm_encrypt aead available key channel_id;
    decrypt = aes_gcm_decrypt aead available key channel_id;
  })
