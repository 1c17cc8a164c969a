-- ===== src/Channel/Budget.antt =====
-- On the size of what `sendMessage` of frontend/src/channel.svelte.ts sends, and on its answer.
use private_chat.Prelude.{
  ◌+◌, ◌≤◌, ◌≡◌, refl, sym, ap, ◌∙◌, inl, inr, Bool, true, false, Option, none, some, ◌∷◌, ◌++◌,
  arith, ltb, leb, if◌then◌else◌, Bool-cases, length, length-append,
}
use private_chat.Result.{Error, Result, ok, throw, Result-cases}
use private_chat.Text.{Text, codes, text_eq}
use private_chat.Text.Utf8.{utf8_length}
use private_chat.Text.Utf8.Range.{IsUnits}
use private_chat.Json.{Numbers, Json, str, Fields, end, field, get}
use private_chat.Json.Print.{stringify}
use private_chat.E2ee.Base64.{Bytes, IsBytes, base64_url_encode}
use private_chat.E2ee.Base64.Shape.{length-base64_url_encode}
use private_chat.E2ee.Envelope.{is_channel_id, join_envelope}
use private_chat.E2ee.AesGcm.{Aead, RoomKey, Random, IsRandom, choose_message_id, aes_gcm_encrypt}
use private_chat.E2ee.AesGcm.RoundTrip.{encrypt-Sealed}
use private_chat.Collections.{map_get}
use private_chat.Codec.{
  Kind, send_message, key_update, set_room_name, set_nickname, max_inner_utf8, max_payload, encode,
  encode_check, encode_case, assert_send, assert_channel_id, assert_payload, tag_kind, kind_of,
  client_types, server_types,
}
use private_chat.Transport.{Transport, Handlers, send_raw}
use private_chat.Transport.Sending.{send_raw-refused}
use private_chat.Channel.{ChannelStore}
use private_chat.Channel.Send.{Sent, payload_json, new_message_id_b64, send_json, send_inner}

length-join_envelope :
    (a b c : Text) → length (join_envelope a b c) ≡ length a + length b + length c + 2
unfolding join_envelope
length-join_envelope a b c =
    omega (arith, length-append a (b'.' ∷ (b ++ b'.' ∷ c)), length-append b (b'.' ∷ c))

-- No message id, or one that `newMessageIdB64` makes.
abbrev pub IsFreshMid : Option Text → Type 0
IsFreshMid none = Unit {0}
IsFreshMid (some mid) =
    (fresh : Bytes) × (mid ≡ new_message_id_b64 fresh) × IsBytes fresh × (length fresh ≡ 16)

length-chosen :
    (preset : Option Text) (r : Random) (mid : Text)
    → IsRandom r
    → IsFreshMid preset
    → choose_message_id preset r.message_id ≡ ok mid
    → length mid ≡ 22
unfolding choose_message_id new_message_id_b64
length-chosen none r mid h f e =
    let found : mid ≡ base64_url_encode r.message_id = ground (arith, e) in
    rw found
      (omega (arith, length-base64_url_encode r.message_id h.message_id_bytes, h.message_id_length))
length-chosen (some p) r mid h (fresh, made, bytes, n) e =
    let found : mid ≡ p = ground (arith, e) in
    rw (found, made) (omega (arith, length-base64_url_encode fresh bytes, n))

module _ (aead : Aead) (key : RoomKey) (channel_id : Text) where
  -- What encrypt makes of a string of at most 6098 UTF-8 bytes, with a fresh message id or none,
  -- has at most 8192 characters.
  pub envelope_fits :
      (available : Bool) (plain : Text) (mid : Option Text) (r : Random) (out : Text)
      → IsRandom r
      → IsUnits plain
      → IsFreshMid mid
      → utf8_length plain ≤ max_inner_utf8
      → aes_gcm_encrypt aead available key channel_id plain mid r ≡ ok out
      → length out ≤ max_payload
  unfolding utf8_length
  envelope_fits available plain mid r out h u f n e =
      let s = encrypt-Sealed aead key channel_id available plain mid r out h u e in
      let ct_length : length s.ct ≡ utf8_length plain + 16 =
        rw s.sealed (aead.length-seal _ _ _ _) in
      let ct_bytes : IsBytes s.ct = rw s.sealed (aead.seal-IsBytes _ _ _ _ s.plain_bytes) in
      let mid_length = length-chosen mid r s.mid h f s.chosen_from in
      rw s.joined (
        omega (
          arith,
          length-join_envelope (base64_url_encode r.iv) s.mid (base64_url_encode s.ct),
          length-base64_url_encode r.iv h.iv_bytes,
          h.iv_length,
          mid_length,
          length-base64_url_encode s.ct ct_bytes,
          ct_length,
          n,
        ))

-- The four kinds that carry a payload to the room.
pub data IsSendTag : Text → Kind → Type 0 where
  sends_message : IsSendTag (codes "send_message") send_message
  updates_key : IsSendTag (codes "key_update") key_update
  sets_room_name : IsSendTag (codes "set_room_name") set_room_name
  sets_nickname : IsSendTag (codes "set_nickname") set_nickname

payload_fields : {F : Type 0} → (tag channel_id payload : Text) → Fields F
payload_fields tag id payload =
    field (codes "type") (str tag)
      (field (codes "channelId") (str id) (field (codes "payload") (str payload) end))

module _ (N : Numbers) where
  open N use {Number}

  tag_kind-payload :
      (tag : Text) (k : Kind) (id payload : Text)
      → IsSendTag tag k
      → tag_kind {F = Number} (payload_fields tag id payload) ≡ ok k
  unfolding tag_kind payload_fields get text_eq kind_of map_get client_types server_types
  tag_kind-payload tag k id payload sends_message = refl
  tag_kind-payload tag k id payload updates_key = refl
  tag_kind-payload tag k id payload sets_room_name = refl
  tag_kind-payload tag k id payload sets_nickname = refl

  assert_send-payload :
      (tag id payload : Text)
      → is_channel_id id ≡ true
      → length payload ≤ max_payload
      → assert_send {F = Number} (payload_fields tag id payload) ≡ ok tt
  unfolding assert_send assert_channel_id assert_payload payload_fields get text_eq
  assert_send-payload tag id payload h n =
      let fits : leb (length payload) max_payload ≡ true = ground arith in rw (h, fits) refl

  encode_case-send :
      (tag : Text) (k : Kind) (o : Fields Number)
      → IsSendTag tag k
      → encode_case N k o ≡ assert_send o
  unfolding encode_case
  encode_case-send tag k o sends_message = refl
  encode_case-send tag k o updates_key = refl
  encode_case-send tag k o sets_room_name = refl
  encode_case-send tag k o sets_nickname = refl

  -- A payload of at most 8192 characters for a valid channel, under one of the four tags that carry
  -- one to the room, is printed.
  pub encode-payload_json :
      (tag : Text) (k : Kind) (channel_id payload : Text)
      → IsSendTag tag k
      → is_channel_id channel_id ≡ true
      → length payload ≤ max_payload
      → encode N (payload_json tag channel_id payload)
        ≡ ok (stringify N (payload_json tag channel_id payload))
  unfolding encode encode_check payload_json payload_fields
  encode-payload_json tag k id payload t h n =
      rw
        (
          tag_kind-payload tag k id payload t,
          encode_case-send tag k (payload_fields tag id payload) t,
          assert_send-payload tag id payload h n,
        )
        refl

module _ (N : Numbers) (H : Handlers) where
  open N use {Number}

  -- The store's crypto is that of `createAesGcmCrypto` for its channel.
  pub record HasAesGcm (aead : Aead) (key : RoomKey) (s : ChannelStore Number) : Type 0 where
    pub id_valid : is_channel_id s.channel_id ≡ true
    pub cipher : s.crypto.encrypt ≡ aes_gcm_encrypt aead true key s.channel_id

  send_json-ok :
      (msg : Json Number) (raw : Text) (s : ChannelStore Number) (w : Transport)
      → encode N msg ≡ ok raw
      → ((send_json N H msg s w).transport ≡ (send_raw H raw w).0)
        × ((send_json N H msg s w).answer ≡ (send_raw H raw w).1)
  unfolding send_json
  send_json-ok msg raw s w e = rw (send_json, e) (refl, refl)

  send_json-throw :
      (msg : Json Number) (x : Error) (s : ChannelStore Number) (w : Transport)
      → encode N msg ≡ throw x
      → (send_json N H msg s w).transport ≡ w
  unfolding send_json
  send_json-throw msg x s w e = rw (send_json, e) refl

  -- Clearing the error text after a success changes neither answer nor transport.
  cleared :
      (out : Sent Number) (s : ChannelStore Number)
      → let out' = if out.answer then record out { store = record s { error = none } } else out in
        (out'.transport ≡ out.transport) × (out'.answer ≡ out.answer)
  cleared out s = elim (Bool-cases out.answer) [ inl y ↦ ground arith | inr y ↦ ground arith ]

  -- With the AES-GCM crypto of its channel, sendMessage of an inner string within the budget and a
  -- fresh message id or none, once encrypted, hands the printed frame to the transport and answers
  -- what sendRaw answers.
  pub send_inner-answer :
      (aead : Aead) (key : RoomKey) (inner : Text) (mid : Option Text) (r : Random)
      (s : ChannelStore Number) (w : Transport) (payload : Text)
      → HasAesGcm aead key s
      → IsRandom r
      → IsUnits inner
      → IsFreshMid mid
      → utf8_length inner ≤ max_inner_utf8
      → s.crypto.encrypt inner mid r ≡ ok payload
      → let raw = stringify N (payload_json (codes "send_message") s.channel_id payload) in
        let out = send_inner N H inner mid r s w in
        (out.transport ≡ (send_raw H raw w).0) × (out.answer ≡ (send_raw H raw w).1)
  unfolding send_inner
  send_inner-answer aead key inner mid r s w payload c h u f n e =
      let within : ltb max_inner_utf8 (utf8_length inner) ≡ false = ground arith in
      let fits = envelope_fits aead key s.channel_id true inner mid r payload h u f n (
        ap (λ (enc : Text → Option Text → Random → Result Text). enc inner mid r) (sym c.cipher)
        ∙ e) in
      let printed =
        encode-payload_json N (codes "send_message") send_message s.channel_id payload sends_message
          c.id_valid fits in
      let msg = payload_json (codes "send_message") s.channel_id payload in
      let (same_transport, same_answer) = cleared (send_json N H msg s w) s in
      let (transport, answer) = send_json-ok msg _ s w printed in
      rw (within, e) (same_transport ∙ transport, same_answer ∙ answer)

  -- Where a send answers false, the frame is neither sent nor queued.
  pub send_json-unsent :
      (msg : Json Number) (s : ChannelStore Number) (w : Transport)
      → (send_json N H msg s w).answer ≡ false
      → (send_json N H msg s w).transport ≡ w
  send_json-unsent msg s w e = elim (Result-cases (encode N msg)) [
    | inl (raw, f) ↦
        let (transport, answer) = send_json-ok msg raw s w f in
        transport ∙ send_raw-refused H raw w (sym answer ∙ e)
    | inr (x, f) ↦ send_json-throw msg x s w f
  ]
