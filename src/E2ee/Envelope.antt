-- ===== src/E2ee/Envelope.antt =====
-- The checks on keys and envelopes of frontend/src/e2ee.ts.
pub mod Parts
use private_chat.Prelude.{
  ◌++◌, ℕ, zero, suc, ◌+◌, ◌-◌, ◌*◌, ◌/◌, ◌%◌, ◌^◌, ◌≤◌, ◌<◌, min, ◌≡◌, refl, sym, ap, ap₂, subst,
  ◌∙◌, ◌≢◌, ◌↔◌, ◌⊎◌, inl, inr, Bool, true, false, not, ◌&&◌, ◌||◌, Option, none, some, List, [],
  ◌∷◌, ◌++◌, map, reverse, append-nil, append_assoc, arith, ltb, leb, ◌==◌, if◌then◌else◌, ltb→lt,
  lt→ltb, leb→le, ==_iff, Bool-cases, Option-cases, length, length-append, take, drop, replicate,
  length-replicate, take-length-append, drop-length-append, take-append-drop, length-drop, all, All,
  All-append, All-all, all-All, all_below, all_below_sound, length-map, map-map,
}
use private_chat.Text.{Text, is_truthy, split, is_b64url, is_b64url_char}
use private_chat.E2ee.Base64.{Bytes, base64_url_decode}

-- `/^[A-Za-z0-9_-]{43}$/.test(s)`
unfoldable pub is_room_key_b64 : Text → Bool
is_room_key_b64 s = length s == 43 && all is_b64url_char s

-- `/^[a-zA-Z0-9_-]{1,64}$/.test(id)`
unfoldable pub is_channel_id : Text → Bool
is_channel_id id = leb 1 (length id) && leb (length id) 64 && all is_b64url_char id

-- `${iv}.${messageId}.${ct}`
unfoldable pub join_envelope : Text → Text → Text → Text
join_envelope iv mid ct = iv ++ b'.' ∷ (mid ++ b'.' ∷ ct)

-- A decoded part and a test of its length; `false` where `atob` throws.
abbrev pub decoded_length : Text → (ℕ → Bool) → Bool
decoded_length s test = elim (base64_url_decode s) [
  | none ↦ false
  | some bytes ↦ test (length bytes)
]

unfoldable pub parts_valid : List Text → Bool
parts_valid (iv ∷ mid ∷ ct ∷ []) =
    is_truthy iv
    && is_truthy mid
    && is_truthy ct
    && is_b64url iv
    && is_b64url mid
    && is_b64url ct
    && decoded_length iv (λ n. n == 12)
    && decoded_length mid (λ n. n == 16)
    && decoded_length ct (λ n. leb 16 n)
parts_valid _ = false

unfoldable pub is_valid_envelope : Text → Bool
is_valid_envelope payload = parts_valid (split b'.' payload)

-- `parts[1] || null`
abbrev pub or_null : Text → Option Text
or_null [] = none
or_null (c ∷ s) = some (c ∷ s)

unfoldable pub second_part : List Text → Option Text
second_part (iv ∷ mid ∷ ct ∷ []) = or_null mid
second_part _ = none

unfoldable pub extract_message_id_b64 : Text → Option Text
extract_message_id_b64 payload = second_part (split b'.' payload)
