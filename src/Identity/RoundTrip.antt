-- ===== src/Identity/RoundTrip.antt =====
-- The signed payloads of frontend/src/identity.ts, read again and verified.
use private_chat.Prelude.{◌≡◌, refl, sym, ap, Bool, true, false, some, arith}
use private_chat.Result.{ok}
use private_chat.Text.{Text, codes, text_eq, trim, is_b64url, starts_with}
use private_chat.Text.Utf8.Range.{IsUnits}
use private_chat.Text.Laws.{trim_twice}
use private_chat.Json.{Numbers, Json, str, end, field, get}
use private_chat.Json.Print.{stringify}
use private_chat.Json.RoundTrip.{parse-stringify}
use private_chat.Text.Utf8.Decoding.{IsWellFormed, has_bom}
use private_chat.Json.RoundTrip.WellFormed.{stringify-IsWellFormed}
use private_chat.Json.RoundTrip.Printed.{IsPlain, IsPlainFields}
use private_chat.E2ee.Base64.{Bytes, base64_url_encode}
use private_chat.E2ee.Envelope.{is_room_key_b64}
use private_chat.E2ee.AesGcm.{Crypto, Random}
use private_chat.E2ee.Names.{is_valid_nick, nick_json, read_nick, unwrap_nick}
use private_chat.E2ee.Names.RoundTrip.{Seals, IsUnits-codes, class-IsUnits, key-IsUnits}
use private_chat.Identity.{
  Signing, Identity, is_identity_pub_b64, message_sig_data, nick_sig_data, generate_identity,
  sign_identity, SignedMessagePayload, signed_message_json, wrap_signed_message, parse_object,
  read_signed_message, parse_signed_message, verify_signed_message, wrap_signed_nick,
  verify_signed_nick,
}
use private_chat.Identity.Verified.{
  public-is_identity_pub_b64, sign-is_b64url, verify_identity-sign, generate-identity_of,
}

module _ (N : Numbers) (S : Signing) where
  open N use {Number, of_nat}

  two_equal : N.equal (of_nat 2) (of_nat 2) ≡ true
  two_equal = N.equal-of_nat 2 2 (omega arith) (omega arith)

  sig-IsUnits : (s : Text) → is_b64url s ≡ true → IsUnits s
  unfolding is_b64url
  sig-IsUnits s h = class-IsUnits s (ground arith)

  pk-IsUnits : (s : Text) → is_identity_pub_b64 s ≡ true → IsUnits s
  unfolding is_identity_pub_b64
  pk-IsUnits s h = key-IsUnits s h

  signed_message_json-IsPlain :
      (m : SignedMessagePayload)
      → IsUnits m.text
      → is_valid_nick m.nick ≡ true
      → IsUnits m.nick
      → is_identity_pub_b64 m.pk ≡ true
      → is_b64url m.sig ≡ true
      → IsPlain N (signed_message_json N m)
  unfolding IsPlain IsPlainFields
  signed_message_json-IsPlain m text n nick p s = (
    IsUnits-codes (codes "t") refl,
    IsUnits-codes (codes "msg") refl,
    (
      IsUnits-codes (codes "v") refl,
      (2, omega arith, refl),
      (
        IsUnits-codes (codes "text") refl,
        text,
        (
          IsUnits-codes (codes "nick") refl,
          nick,
          (
            IsUnits-codes (codes "pk") refl,
            pk-IsUnits m.pk p,
            (IsUnits-codes (codes "sig") refl, sig-IsUnits m.sig s, tt),
          ),
        ),
      ),
    ),
  )

  parse_signed_message-json :
      (m : SignedMessagePayload)
      → IsUnits m.text
      → is_valid_nick m.nick ≡ true
      → IsUnits m.nick
      → is_identity_pub_b64 m.pk ≡ true
      → is_b64url m.sig ≡ true
      → parse_signed_message N (stringify N (signed_message_json N m)) ≡ some m
  unfolding parse_signed_message parse_object starts_with stringify read_signed_message get text_eq
  parse_signed_message-json m text n nick p s =
      let plain = signed_message_json-IsPlain m text n nick p s in
      rw (parse-stringify N (signed_message_json N m) plain, two_equal, n, p, s) refl

  -- What wrapSignedMessage makes of a text and a valid nickname under a generated identity,
  -- parseSignedMessage reads as that text, nickname and public key, and verifySignedMessage accepts
  -- it for the same channel and message id.
  pub parse-wrap_signed_message :
      (available : Bool) (k : Bytes) (identity : Identity) (channel_id mid text nick : Text)
      → generate_identity S available k ≡ ok identity
      → is_valid_nick nick ≡ true
      → IsUnits text
      → IsUnits nick
      → (m : SignedMessagePayload) × (parse_signed_message N
            (wrap_signed_message N S identity channel_id mid text nick)
          ≡ some m)
        × (m.text ≡ text)
        × (m.nick ≡ nick)
        × (m.pk ≡ identity.pub_b64)
        × (verify_signed_message S channel_id mid m ≡ true)
  unfolding wrap_signed_message verify_signed_message
  parse-wrap_signed_message available k identity channel_id mid text nick g n t u =
      let sig = sign_identity S k (message_sig_data channel_id mid nick text) in
      let m : SignedMessagePayload = record {
        text = text;
        nick = nick;
        pk = base64_url_encode (S.public_of k);
        sig = sig;
      } in
      let made = generate-identity_of S available k identity g in
      let read =
        parse_signed_message-json m t n u (public-is_identity_pub_b64 S k)
          (sign-is_b64url S k (message_sig_data channel_id mid nick text)) in
      (
        m,
        rw made read,
        refl,
        refl,
        sym (ap (λ i. i.pub_b64) made),
        verify_identity-sign S k (message_sig_data channel_id mid nick text),
      )

  -- A signed message is printed with no lone surrogate and no byte order mark.
  pub wrap_signed_message-IsWellFormed :
      (available : Bool) (k : Bytes) (identity : Identity) (channel_id mid text nick : Text)
      → generate_identity S available k ≡ ok identity
      → is_valid_nick nick ≡ true
      → IsUnits text
      → IsUnits nick
      → let plain = wrap_signed_message N S identity channel_id mid text nick in
        IsWellFormed plain × (has_bom plain ≡ false)
  unfolding wrap_signed_message stringify
  wrap_signed_message-IsWellFormed available k identity channel_id mid text nick g n t u =
      let made = generate-identity_of S available k identity g in
      let d = message_sig_data channel_id mid nick text in
      let m : SignedMessagePayload = record {
        text = text;
        nick = nick;
        pk = base64_url_encode (S.public_of k);
        sig = sign_identity S k d;
      } in
      let plain =
        signed_message_json-IsPlain m t n u (public-is_identity_pub_b64 S k)
          (sign-is_b64url S k d) in
      (rw made (stringify-IsWellFormed N (signed_message_json N m) plain), refl)

  -- `{ t: "nick", v: 1, nick, pk, sig }`
  abbrev signed_nick_json : (nick pk sig : Text) → Json Number
  signed_nick_json nick pk sig =
      nick_json N nick (field (codes "pk") (str pk) (field (codes "sig") (str sig) end))

  read_nick-signed :
      (n pk sig : Text)
      → is_valid_nick n ≡ true
      → is_room_key_b64 pk ≡ true
      → is_b64url sig ≡ true
      → read_nick N (signed_nick_json n pk sig)
        ≡ ok (record { nick = trim n; pk = some pk; sig = some sig })
  unfolding read_nick get text_eq
  read_nick-signed n pk sig h p s =
      rw (N.equal-of_nat 1 1 (omega arith) (omega arith), h, p, s) refl

  signed_nick_json-IsPlain :
      (n pk sig : Text)
      → IsUnits n
      → is_room_key_b64 pk ≡ true
      → is_b64url sig ≡ true
      → IsPlain N (signed_nick_json n pk sig)
  unfolding IsPlain IsPlainFields
  signed_nick_json-IsPlain n pk sig u p s = (
    IsUnits-codes (codes "t") refl,
    IsUnits-codes (codes "nick") refl,
    (
      IsUnits-codes (codes "v") refl,
      (1, omega arith, refl),
      (
        IsUnits-codes (codes "nick") refl,
        u,
        (
          IsUnits-codes (codes "pk") refl,
          key-IsUnits pk p,
          (IsUnits-codes (codes "sig") refl, sig-IsUnits sig s, tt),
        ),
      ),
    ),
  )

  -- The signature of a nick claim.
  abbrev nick_sig : Bytes → (channel_id nick : Text) → Text
  nick_sig k channel_id nick = sign_identity S k (nick_sig_data channel_id nick)

  -- Where the crypto opens what it makes of the signed claim, wrapSignedNick succeeds for a valid
  -- nickname and a generated identity, unwrapNick reads the trimmed nickname, the public key and a
  -- signature from its result, and verifySignedNick accepts them for the same channel.
  pub unwrap-wrap_signed_nick :
      (available : Bool) (k : Bytes) (identity : Identity) (crypto : Crypto)
      (channel_id nick : Text) (r : Random)
      → generate_identity S available k ≡ ok identity
      → is_valid_nick (trim nick) ≡ true
      → IsUnits (trim nick)
      → Seals crypto r (
          stringify N
            (signed_nick_json (trim nick) identity.pub_b64 (nick_sig k channel_id (trim nick))))
      → (c sig : Text) × (wrap_signed_nick N S identity crypto channel_id nick r ≡ ok c)
        × (unwrap_nick N crypto c
            ≡ ok (record { nick = trim nick; pk = some identity.pub_b64; sig = some sig }))
        × (verify_signed_nick S channel_id (trim nick) identity.pub_b64 sig ≡ true)
  unfolding wrap_signed_nick unwrap_nick verify_signed_nick is_identity_pub_b64
  unwrap-wrap_signed_nick available k identity crypto channel_id nick r g h u (c, e, o) =
      let n = trim nick in
      let pk = identity.pub_b64 in
      let sig = nick_sig k channel_id n in
      let made = generate-identity_of S available k identity g in
      let own : pk ≡ base64_url_encode (S.public_of k) = ap (λ i. i.pub_b64) made in
      let private : identity.private_key ≡ k = ap (λ i. i.private_key) made in
      let p : is_room_key_b64 pk ≡ true = rw own (public-is_identity_pub_b64 S k) in
      let s = sign-is_b64url S k (nick_sig_data channel_id n) in
      let read =
        parse-stringify N (signed_nick_json n pk sig) (signed_nick_json-IsPlain n pk sig u p s) in
      (
        c,
        sig,
        rw (h, private, e) refl,
        rw (o, read, read_nick-signed n pk sig h p s, trim_twice nick) refl,
        rw own (verify_identity-sign S k (nick_sig_data channel_id n)),
      )
