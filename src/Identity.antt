-- ===== src/Identity.antt =====
-- frontend/src/identity.ts: the session identity of a room, its signed claims, and their check.
-- Ed25519 itself is a parameter.
pub mod Framing
pub mod Verified
pub mod RoundTrip
use private_chat.Prelude.{
  ℕ, zero, suc, ◌+◌, ◌-◌, ◌*◌, ◌/◌, ◌%◌, ◌^◌, ◌≤◌, ◌<◌, min, ◌≡◌, refl, sym, ap, ap₂, subst, ◌∙◌,
  ◌≢◌, ◌↔◌, ◌⊎◌, inl, inr, Bool, true, false, not, ◌&&◌, ◌||◌, Option, none, some, List, [], ◌∷◌,
  ◌++◌, map, reverse, append-nil, append_assoc, arith, ltb, leb, ◌==◌, if◌then◌else◌, ltb→lt,
  lt→ltb, leb→le, ==_iff, Bool-cases, Option-cases, length, length-append, take, drop, replicate,
  length-replicate, take-length-append, drop-length-append, take-append-drop, length-drop, all, All,
  All-append, All-all, all-All, all_below, all_below_sound, length-map, map-map,
}
use private_chat.Result.{
  Result, ok, throw, ◌>>=◌, ◌>>◌, require, or_throw, ed25519_unavailable, unexpected_public_key,
  invalid_nick,
}
use private_chat.Text.{Text, codes, starts_with, trim, is_b64url}
use private_chat.Text.Decimal.{decimal}
use private_chat.Text.Utf8.{utf8_encode, utf8_length}
use private_chat.Json.{Numbers, Json, num, str, obj, Fields, end, field, get, parse}
use private_chat.Json.Read.{as_object, as_string, is_text, is_number, string_if}
use private_chat.Json.Print.{stringify}
use private_chat.E2ee.Base64.{Bytes, IsBytes, base64_url_encode, base64_url_decode}
use private_chat.E2ee.Envelope.{is_room_key_b64}
use private_chat.E2ee.AesGcm.{Crypto, Random}
use private_chat.E2ee.Names.{is_valid_nick, nick_json}

-- `crypto.subtle` for Ed25519 (RFC 8032): a signature is 64 bytes, a public key 32, and what a private
-- key signs verifies under its public key. `none` is a key or signature that the platform rejects.
pub record Signing : Type 0 where
  pub public_of : Bytes → Bytes
  pub sign : (private_key data' : Bytes) → Bytes
  pub verify : (public_key sig data' : Bytes) → Option Bool
  pub verify-sign : (k d : Bytes) → verify (public_of k) (sign k d) d ≡ some true
  pub length-sign : (k d : Bytes) → length (sign k d) ≡ 64
  pub sign-IsBytes : (k d : Bytes) → IsBytes (sign k d)
  pub length-public_of : (k : Bytes) → length (public_of k) ≡ 32
  pub public_of-IsBytes : (k : Bytes) → IsBytes (public_of k)

pub record Identity : Type 0 where
  pub private_key : Bytes
  pub pub_b64 : Text
  pub fp : Text

-- `frame`: the UTF-8 length in front of the field
unfoldable pub frame : Text → Text
frame field' = decimal (utf8_length field') ++ b':' ∷ field'

-- `isIdentityAvailable`: Web Crypto at hand, the cached answer, and the outcome of a probe (`none` if
-- it throws). Returns the answer and the new cache.
unfoldable pub is_identity_available : Bool → Option Bool → Option Bool → Bool × Option Bool
is_identity_available false cached probe = (false, cached)
is_identity_available true (some answer) probe = (answer, some answer)
is_identity_available true none none = (false, some false)
is_identity_available true none (some usable) = (usable, some usable)

unfoldable pub is_identity_pub_b64 : Text → Bool
is_identity_pub_b64 s = is_room_key_b64 s

-- `pubB64.slice(0, FP_LEN)`
unfoldable pub fp_of : Text → Text
fp_of pub_b64 = take 10 pub_b64

-- `identity-v2|msg|${channelId}|${messageIdB64}|${frame(nick)}|${frame(text)}`
unfoldable pub message_sig_data : (channel_id message_id_b64 nick text : Text) → Text
message_sig_data channel_id message_id_b64 nick text =
    codes "identity-v2|msg|"
    ++ (channel_id ++ b'|' ∷ (message_id_b64 ++ b'|' ∷ (frame nick ++ b'|' ∷ frame text)))

-- `identity-v2|nick|${channelId}|${frame(nick)}`
unfoldable pub nick_sig_data : (channel_id nick : Text) → Text
nick_sig_data channel_id nick = codes "identity-v2|nick|" ++ (channel_id ++ b'|' ∷ frame nick)

module _ (S : Signing) where
  -- `generateIdentity`, over the bytes of the generated private key
  unfoldable pub generate_identity : Bool → Bytes → Result Identity
  generate_identity available private_key = do
    require available ed25519_unavailable
    let pub_b64 = base64_url_encode (S.public_of private_key)
    require (is_identity_pub_b64 pub_b64) unexpected_public_key
    ok (record { private_key = private_key; pub_b64 = pub_b64; fp = fp_of pub_b64 })

  unfoldable pub sign_identity : Bytes → Text → Text
  sign_identity private_key data' = base64_url_encode (S.sign private_key (utf8_encode data'))

  -- `catch { return false; }`
  abbrev pub or_false : Option Bool → Bool
  or_false none = false
  or_false (some b) = b

  -- The `try` block of `verifyIdentity`.
  unfoldable pub verify_decoded : Option Bytes → Option Bytes → Text → Bool
  verify_decoded none key data' = false
  verify_decoded (some sig) none data' = false
  verify_decoded (some sig) (some key) data' =
      length sig == 64 && or_false (S.verify key sig (utf8_encode data'))

  unfoldable pub verify_identity : Text → Text → Text → Bool
  verify_identity pub_b64 sig_b64 data' =
      is_identity_pub_b64 pub_b64
      && is_b64url sig_b64
      && verify_decoded (base64_url_decode sig_b64) (base64_url_decode pub_b64) data'

pub record SignedMessagePayload : Type 0 where
  pub text : Text
  pub nick : Text
  pub pk : Text
  pub sig : Text

infixl 5 ◌>=>◌
abbrev ◌>=>◌ {ℓ κ} : {A : Type ℓ} {B : Type κ} → Option A → (A → Option B) → Option B
none >=> f = none
some a >=> f = f a

abbrev only_if : Bool → Option (Unit {0})
only_if true = some tt
only_if false = none

module _ (N : Numbers) where
  open N use {Number, of_nat}

  -- `{ t: "msg", v: 2, text, nick, pk: identity.pubB64, sig }`
  abbrev pub signed_message_json : SignedMessagePayload → Json Number
  signed_message_json m = obj (
      field (codes "t") (str (codes "msg")) (
        field (codes "v") (num (of_nat 2)) (
          field (codes "text") (str m.text) (
            field (codes "nick") (str m.nick)
              (field (codes "pk") (str m.pk) (field (codes "sig") (str m.sig) end))))))

  unfoldable pub wrap_signed_message :
      Signing → Identity → (channel_id message_id_b64 text nick : Text) → Text
  wrap_signed_message S identity channel_id message_id_b64 text nick = stringify N (
      signed_message_json (record {
        text = text;
        nick = nick;
        pk = identity.pub_b64;
        sig =
            sign_identity S identity.private_key
              (message_sig_data channel_id message_id_b64 nick text);
      }))

  -- The fields of a plaintext that is a JSON object: `startsWith("{")`, `JSON.parse` and the test for
  -- an object, which three functions of identity.ts share.
  unfoldable pub parse_object : Text → Option (Fields Number)
  parse_object plain = only_if (starts_with b'{' plain) >=> λ _. parse N plain >=> as_object

  unfoldable pub read_signed_message : Fields Number → Option SignedMessagePayload
  read_signed_message o =
      only_if (is_text (get o (codes "t")) (codes "msg") && is_number N (get o (codes "v")) 2)
      >=> λ _. as_string (get o (codes "text")) >=> λ text.
          string_if is_valid_nick (get o (codes "nick")) >=> λ nick.
          string_if is_identity_pub_b64 (get o (codes "pk")) >=> λ pk.
          string_if is_b64url (get o (codes "sig")) >=> λ sig.
          some (record { text = text; nick = nick; pk = pk; sig = sig })

  unfoldable pub parse_signed_message : Text → Option SignedMessagePayload
  parse_signed_message plain = parse_object plain >=> read_signed_message

  unfoldable pub read_stale_pk : Fields Number → Option Text
  read_stale_pk o =
      only_if (is_text (get o (codes "t")) (codes "msg") && is_number N (get o (codes "v")) 1)
      >=> λ _. string_if is_b64url (get o (codes "sig")) >=> λ _.
          string_if is_identity_pub_b64 (get o (codes "pk"))

  unfoldable pub stale_signed_message_pk : Text → Option Text
  stale_signed_message_pk plain = parse_object plain >=> read_stale_pk

  abbrev pub has_type_tag : Option (Fields Number) → Bool
  has_type_tag none = false
  has_type_tag (some o) = elim (as_string (get o (codes "t"))) [ none ↦ false | some t ↦ true ]

  unfoldable pub is_unknown_structured_payload : Text → Bool
  is_unknown_structured_payload plain = has_type_tag (parse_object plain)

unfoldable pub verify_signed_message :
    Signing → (channel_id mid : Text) → SignedMessagePayload → Bool
verify_signed_message S channel_id message_id_b64 m =
    verify_identity S m.pk m.sig (message_sig_data channel_id message_id_b64 m.nick m.text)

unfoldable pub wrap_signed_nick :
    Numbers → Signing → Identity → Crypto → (channel_id nick : Text) → Random → Result Text
wrap_signed_nick N S identity crypto channel_id nick r = do
  let n = trim nick
  require (is_valid_nick n) invalid_nick
  let sig = sign_identity S identity.private_key (nick_sig_data channel_id n)
  crypto.encrypt
      (stringify N (
        nick_json N n
          (field (codes "pk") (str identity.pub_b64) (field (codes "sig") (str sig) end))))
      none r

unfoldable pub verify_signed_nick : Signing → (channel_id nick pk sig : Text) → Bool
verify_signed_nick S channel_id nick pk sig =
    verify_identity S pk sig (nick_sig_data channel_id nick)
