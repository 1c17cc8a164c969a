-- ===== src/Channel/Delivery.antt =====
-- What `sendMessage` of one store sends, and what the message handler of another makes of it, in
-- frontend/src/channel.svelte.ts.
pub mod Shown
pub mod Rotation
use private_chat.Prelude.{
  ℕ, ◌≤◌, ◌≡◌, refl, sym, ap, subst, ◌∙◌, ◌≢◌, inl, inr, Bool, true, false, Option, none, some,
  List, [], ◌∷◌, ◌++◌, append-nil, append_assoc, arith, Bool-cases, length,
}
use private_chat.Result.{Result, ok}
use private_chat.Text.{Text, codes, trim, is_truthy}
use private_chat.Text.Utf8.{utf8_length}
use private_chat.Text.Utf8.Range.{IsUnits}
use private_chat.Json.{Numbers, Fields}
use private_chat.Json.Print.{stringify}
use private_chat.Collections.{map_get, set_has}
use private_chat.E2ee.Base64.{Bytes, IsBytes}
use private_chat.E2ee.Envelope.{is_valid_envelope, extract_message_id_b64}
use private_chat.E2ee.AesGcm.{Aead, RoomKey, Random, IsRandom, aes_gcm_decrypt}
use private_chat.E2ee.AesGcm.RoundTrip.{encode-Decodes, encrypt-valid, decrypt-encrypt, IsPreset}
use private_chat.E2ee.Names.{is_valid_nick}
use private_chat.Identity.{
  Signing, Identity, fp_of, SignedMessagePayload, generate_identity, wrap_signed_message,
  parse_signed_message, verify_signed_message,
}
use private_chat.Identity.RoundTrip.{parse-wrap_signed_message, wrap_signed_message-IsWellFormed}
use private_chat.Codec.{max_inner_utf8, message}
use private_chat.Transport.{Transport, Handlers, send_raw}
use private_chat.Channel.{
  ChannelStore, ChatMessage, MessageIdent, verified, invalid, conflict, from_frame, system,
  identity_conflict, append, differs, lacks, is_replay, remember, record_identity, note_ident,
  warn_conflict, check_connection, warning_key,
}
use private_chat.Channel.Send.{
  Fresh, payload_json, new_message_id_b64, nick_or_anonymous, inner_of, send_message,
}
use private_chat.Channel.Receive.{
  Job, open_message, Content, shown, mid_text, payload_of, from_of, id_of, mid_of, guarded,
  show_content, read_signed, read_plain, finish_message, receive_message, receive_frame, resume,
}
use private_chat.Channel.Budget.{HasAesGcm, IsFreshMid, send_inner-answer}
use private_chat.Channel.Delivery.Shown.{IsShown, finish_signed}

module _ (N : Numbers) (H : Handlers) (S : Signing) (aead : Aead) where
  open N use {Number}

  -- Both stores have the AES-GCM crypto of one channel and key.
  pub record SharesRoom (key : RoomKey) (s t : ChannelStore Number) : Type 0 where
    pub sealing : HasAesGcm N H aead key s
    pub same_channel : t.channel_id ≡ s.channel_id
    pub opening : t.crypto.decrypt ≡ aes_gcm_decrypt aead true key s.channel_id

  -- What a call of `sendMessage` needs of the texts and of the bytes drawn.
  pub record IsSendable (k : Bytes) (text nick : Text) (fresh : Fresh) (s : ChannelStore Number)
      : Type 0 where
    pub signer : Identity
    pub joined : s.identity ≡ some signer
    pub generated : generate_identity S true k ≡ ok signer
    pub some_text : is_truthy (trim text) ≡ true
    pub text_units : IsUnits text
    pub nick_units : IsUnits (nick_or_anonymous nick)
    pub nick_valid : is_valid_nick (nick_or_anonymous nick) ≡ true
    pub mid_bytes : IsBytes fresh.message_id
    pub mid_length : length fresh.message_id ≡ 16
    pub drawn : IsRandom fresh.encryption
    pub fits : utf8_length (inner_of N H S text nick fresh.message_id s).0 ≤ max_inner_utf8

  -- The payload that is sent, and the message that is shown of it.
  pub record IsDelivered (text nick : Text) (fresh : Fresh) (relay : Text → Fields Number)
      (available : Bool) (now later : ℕ) (pk : Text) (s t : ChannelStore Number) (w : Transport)
      : Type 0 where
    pub payload : Text
    pub sent :
        (send_message N H S text nick fresh s w).transport
        ≡ (send_raw H (stringify N (payload_json (codes "send_message") s.channel_id payload)) w).0
    pub job : Job Number
    pub waits : receive_frame N S aead available now message (relay payload) t ≡ (t, some job)
    pub is_shown :
        IsShown N S aead
          (relay payload)
          later
          text
          (nick_or_anonymous nick)
          pk
          t
          (resume N S aead later job t).0

  module _ (key : RoomKey) (k : Bytes) (text nick : Text) (fresh : Fresh) (s : ChannelStore Number)
      (h : IsSendable k text nick fresh s) where
    abbrev mid : Text
    mid = new_message_id_b64 fresh.message_id

    abbrev inner : Text
    inner = wrap_signed_message N S h.signer s.channel_id mid text (nick_or_anonymous nick)

    inner_of-signed : inner_of N H S text nick fresh.message_id s ≡ (inner, some mid)
    unfolding inner_of
    inner_of-signed = rw h.joined refl

    sends :
        (w : Transport) (payload : Text)
        → HasAesGcm N H aead key s
        → IsUnits inner
        → s.crypto.encrypt inner (some mid) fresh.encryption ≡ ok payload
        → (send_message N H S text nick fresh s w).transport
          ≡ (send_raw H
              (stringify N (payload_json (codes "send_message") s.channel_id payload))
              w).0
    unfolding send_message
    sends w payload c u e =
        let small : utf8_length inner ≤ max_inner_utf8 =
          subst (λ (p : Text × Option Text). utf8_length p.0 ≤ max_inner_utf8) inner_of-signed
            h.fits in
        let fresh_mid : IsFreshMid (some mid) =
          (fresh.message_id, refl, h.mid_bytes, h.mid_length) in
        let (transport, _) =
          send_inner-answer N H aead key inner (some mid) fresh.encryption s w payload c h.drawn u
            fresh_mid small e in
        rw (h.some_text, inner_of-signed) transport

    receives :
        (t : ChannelStore Number) (o : Fields Number) (available : Bool) (now : ℕ) (payload : Text)
        → payload_of o ≡ payload
        → is_valid_envelope payload ≡ true
        → extract_message_id_b64 payload ≡ some mid
        → is_replay (some mid) t ≡ false
        → receive_frame N S aead available now message o t
          ≡ (t, some (open_message o (t.crypto.decrypt payload)))
    unfolding receive_frame receive_message guarded
    receives t o available now payload p valid extracted unseen =
        rw (receive_frame, receive_message, p, valid, guarded, extracted, unseen) refl

    -- With Web Crypto at hand, if a store sends a text that is not blank with sendMessage, within
    -- the budget, with a valid nickname or none, with random bytes of the right lengths and under
    -- an identity that was generated, then the transport is handed a frame with some payload; and a
    -- second store with the same channel and AES-GCM key, which gets that payload from the relay
    -- and has not seen its message id, lets it wait for decryption and then shows that text in one
    -- message, under the nickname and public key of the sender, and not marked invalid.
    pub send_message-IsDelivered :
        (t : ChannelStore Number) (w : Transport) (relay : Text → Fields Number) (available : Bool)
        (now later : ℕ)
        → SharesRoom key s t
        → ((payload : Text) → payload_of (relay payload) ≡ payload)
        → is_replay (some mid) t ≡ false
        → IsDelivered text nick fresh relay available now later h.signer.pub_b64 s t w
    unfolding new_message_id_b64 resume
    send_message-IsDelivered t w relay available now later shares keeps unseen =
        let n = nick_or_anonymous nick in
        let id = s.channel_id in
        let c = shares.sealing in
        let preset : IsPreset aead key id (some mid) = (
          fresh.message_id,
          encode-Decodes fresh.message_id h.mid_bytes (omega (arith, h.mid_length)),
          h.mid_length,
        ) in
        let (whole, bom) =
          wrap_signed_message-IsWellFormed N S true k h.signer id mid text n h.generated
            h.nick_valid h.text_units h.nick_units in
        let (payload, sealed, opened) =
          decrypt-encrypt aead key id inner (some mid) fresh.encryption h.drawn preset whole bom in
        let (valid, own, extracted, same) =
          encrypt-valid aead key id true inner (some mid) fresh.encryption payload h.drawn
            whole.narrow sealed in
        let extracts : extract_message_id_b64 payload ≡ some mid =
          extracted ∙ ap some (same mid refl) in
        let (m, parsed, same_text, same_nick, same_pk, good) =
          parse-wrap_signed_message N S true k h.signer id mid text n h.generated h.nick_valid
            h.text_units h.nick_units in
        let o = relay payload in
        let mine : mid_of o ≡ some mid = ap extract_message_id_b64 (keeps payload) ∙ extracts in
        let answer : t.crypto.decrypt payload ≡ ok inner =
          ap (λ (f : Text → Result Text). f payload) shares.opening ∙ opened in
        let here : verify_signed_message S t.channel_id (mid_text (mid_of o)) m ≡ true =
          rw (shares.same_channel, mine) good in
        let read =
          finish_signed N S aead o later inner m t same_text same_nick same_pk parsed here in
        record {
          payload = payload;
          sent = sends w payload c whole.narrow (
              ap
                (λ (f : Text → Option Text → Random → Result Text).
                  f inner (some mid) fresh.encryption)
                c.cipher
              ∙ sealed);
          job = open_message o (t.crypto.decrypt payload);
          waits = receives t o available now payload (keeps payload) valid extracts unseen;
          is_shown = rw answer read;
        }
