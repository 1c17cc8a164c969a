-- ===== src/Channel/Delivery/Rotation.antt =====
-- A new room key on its way from one store to another: `wrapNewKey` of frontend/src/e2ee.ts, and the
-- handler of `key_updated` in frontend/src/channel.svelte.ts.
use private_chat.Prelude.{
  ℕ, ◌≡◌, refl, sym, ap, ◌∙◌, inl, inr, true, false, Option, none, some, [], ◌∷◌, ◌++◌, arith,
  Bool-cases,
}
use private_chat.Result.{Result, ok}
use private_chat.Text.{Text, codes, trim, is_truthy}
use private_chat.Text.Utf8.Decoding.{has_bom}
use private_chat.Json.{Numbers, Fields, get}
use private_chat.Json.Read.{is_truthy_value}
use private_chat.Json.Print.{stringify}
use private_chat.Json.RoundTrip.WellFormed.{stringify-IsWellFormed}
use private_chat.E2ee.Base64.{base64_url_encode}
use private_chat.E2ee.Envelope.{is_room_key_b64, is_valid_envelope, extract_message_id_b64}
use private_chat.E2ee.ReplayCache.{clear}
use private_chat.E2ee.AesGcm.{
  Aead, RoomKey, aes_gcm_encrypt, Random, IsRandom, Crypto, import_room_key, create_aes_gcm_crypto,
}
use private_chat.E2ee.AesGcm.RoundTrip.{extract-encrypt, encrypt-valid, decrypt-encrypt}
use private_chat.E2ee.AesGcm.Keys.{import_room_key_cases, trim_class, create_crypto}
use private_chat.E2ee.Names.{new_key_json, wrap_new_key, unwrap_new_key}
use private_chat.E2ee.Names.RoundTrip.{
  Seals, key-IsUnits, new_key_json-IsPlain, unwrap_new_key-wrap,
}
use private_chat.Identity.{Signing}
use private_chat.Codec.{key_updated}
use private_chat.Transport.{Handlers}
use private_chat.Channel.{ChannelStore, system, key_rotation, key_rotated, is_replay, remember}
use private_chat.Channel.Receive.{
  Job, rotate, payload_of, from_of, id_of, mid_of, guarded, new_crypto, finish_rotation,
  receive_key, receive_frame, resume,
}
use private_chat.Channel.Delivery.{SharesRoom}

remember_keeps :
    {F : Type 0} (mid : Option Text) (s : ChannelStore F)
    → let s' = remember mid s in
      (s'.crypto ≡ s.crypto) × (s'.called ≡ s.called) × (s'.messages ≡ s.messages)
unfolding remember
remember_keeps none s = (refl, refl, refl)
remember_keeps (some mid) s = elim (Bool-cases (is_truthy mid)) [
  | inl p ↦ rw p (refl, refl, refl)
  | inr p ↦ rw p (refl, refl, refl)
]

module _ (N : Numbers) (H : Handlers) (S : Signing) (aead : Aead) where
  open N use {Number}

  -- The store has gone over to the key of the text.
  pub record IsSwitched (key_text : Text) (o : Fields Number) (now : ℕ) (t t' : ChannelStore Number)
      : Type 0 where
    pub room_key : RoomKey
    pub crypto : Crypto
    pub imported : import_room_key true key_text ≡ ok room_key
    pub created : create_aes_gcm_crypto aead true room_key t.channel_id ≡ ok crypto
    pub switched : t'.crypto ≡ crypto
    pub told : t'.called ≡ t.called ++ key_rotated key_text crypto ∷ []
    pub noticed : t'.messages ≡ t.messages ++ system (id_of o) [] now key_rotation (from_of o) ∷ []

  pub record IsRotationDelivered (key_text : Text) (r : Random) (relay : Text → Fields Number)
      (now later : ℕ) (s t : ChannelStore Number) : Type 0 where
    pub payload : Text
    pub wrapped : wrap_new_key N s.crypto key_text r ≡ ok payload
    pub job : Job Number
    pub waits : receive_frame N S aead true now key_updated (relay payload) t ≡ (t, some job)
    pub is_switched : IsSwitched key_text (relay payload) later t (resume N S aead later job t).0

  import_total :
      (key_text : Text)
      → is_room_key_b64 key_text ≡ true
      → (room_key : RoomKey) × (import_room_key true key_text ≡ ok room_key)
  unfolding is_room_key_b64
  import_total key_text valid =
      let same : trim key_text ≡ key_text = trim_class key_text (ground arith) in
      elim (import_room_key_cases true key_text) [
        | inl (e, refused) ↦ absurd (ground (arith, same, refused))
        | inr (raw, e, _, _, _) ↦ (_, e)
      ]

  finish_rotation-IsSwitched :
      (key_text : Text) (o : Fields Number) (now : ℕ) (t : ChannelStore Number) (room_key : RoomKey)
      (crypto : Crypto)
      → import_room_key true key_text ≡ ok room_key
      → create_aes_gcm_crypto aead true room_key t.channel_id ≡ ok crypto
      → IsSwitched key_text o now t (finish_rotation o now (ok (key_text, crypto)) t)
  unfolding finish_rotation
  finish_rotation-IsSwitched key_text o now t room_key crypto e f =
      let anew = record t { crypto = crypto; replay_cache = clear t.replay_cache } in
      let (same_crypto, same_called, same_messages) = remember_keeps (mid_of o) anew in
      record {
        room_key = room_key;
        crypto = crypto;
        imported = e;
        created = f;
        switched = same_crypto;
        told = ap (λ cs. cs ++ key_rotated key_text crypto ∷ []) same_called;
        noticed =
            ap (λ ms. ms ++ system (id_of o) [] now key_rotation (from_of o) ∷ []) same_messages;
      }

  starts_plain : (key_text : Text) → has_bom (stringify N (new_key_json N key_text)) ≡ false
  unfolding stringify
  starts_plain key_text = refl

  -- What the receiver's job holds.
  new_crypto-wrapped :
      (key_text payload : Text) (t : ChannelStore Number) (room_key : RoomKey) (crypto : Crypto)
      → unwrap_new_key N t.crypto payload ≡ ok key_text
      → import_room_key true key_text ≡ ok room_key
      → create_aes_gcm_crypto aead true room_key t.channel_id ≡ ok crypto
      → new_crypto N S aead true t payload ≡ ok (key_text, crypto)
  unfolding new_crypto
  new_crypto-wrapped key_text payload t room_key crypto u e f = rw (u, e, f) refl

  receives_key :
      (t : ChannelStore Number) (o : Fields Number) (now : ℕ) (payload mid : Text)
      → is_truthy_value N (get o (codes "self")) ≡ false
      → payload_of o ≡ payload
      → is_valid_envelope payload ≡ true
      → extract_message_id_b64 payload ≡ some mid
      → is_replay (some mid) t ≡ false
      → receive_frame N S aead true now key_updated o t
        ≡ (t, some (rotate o (new_crypto N S aead true t payload)))
  unfolding receive_frame receive_key guarded
  receives_key t o now payload mid from_other p valid extracted unseen =
      rw (from_other, p, valid, guarded, extracted, unseen) refl

  -- With Web Crypto at hand, between two stores with the same channel and AES-GCM key, and random
  -- bytes for the message id that the receiver has not seen, wrapNewKey wraps a valid room key for
  -- the first, and the key_updated frame with that payload, from another member, lets the second
  -- wait and then go over to a crypto of the imported key, call onKeyRotated once with both, and
  -- show one notice of the rotation.
  pub rotation-IsDelivered :
      (key : RoomKey) (key_text : Text) (r : Random) (relay : Text → Fields Number) (now later : ℕ)
      (s t : ChannelStore Number)
      → SharesRoom N H S aead key s t
      → is_room_key_b64 key_text ≡ true
      → IsRandom r
      → ((payload : Text) → payload_of (relay payload) ≡ payload)
      → ((payload : Text) → is_truthy_value N (get (relay payload) (codes "self")) ≡ false)
      → is_replay (some (base64_url_encode r.message_id)) t ≡ false
      → IsRotationDelivered key_text r relay now later s t
  unfolding wrap_new_key unwrap_new_key resume
  rotation-IsDelivered key key_text r relay now later s t shares valid drawn keeps from_other
        unseen =
      let id = s.channel_id in
      let json = new_key_json N key_text in
      let plain = stringify N json in
      let whole =
        stringify-IsWellFormed N json
          (new_key_json-IsPlain N key_text (key-IsUnits key_text valid)) in
      let (c, sealed, opened) =
        decrypt-encrypt aead key id plain none r drawn tt whole (starts_plain key_text) in
      let between : Crypto = record { encrypt = s.crypto.encrypt; decrypt = t.crypto.decrypt } in
      let seals : Seals between r plain = (
        c,
        ap (λ (f : Text → Option Text → Random → Result Text). f plain none r) shares.sealing.cipher
            ∙ sealed,
        ap (λ (f : Text → Result Text). f c) shares.opening ∙ opened,
      ) in
      let (payload, wrapped, unwrapped) = unwrap_new_key-wrap N between key_text r valid seals in
      let same : aes_gcm_encrypt aead true key id plain none r ≡ ok payload =
        ap (λ (f : Text → Option Text → Random → Result Text). f plain none r)
          (sym shares.sealing.cipher)
        ∙ (rw valid at wrapped) in
      let (good, _, _, _) =
        encrypt-valid aead key id true plain none r payload drawn whole.narrow same in
      let extracted = extract-encrypt aead key id true plain r payload drawn whole.narrow same in
      let o = relay payload in
      let mid = base64_url_encode r.message_id in
      let (room_key, imported) = import_total key_text valid in
      let (crypto, created) =
        create_crypto aead true room_key t.channel_id
          (rw shares.same_channel shares.sealing.id_valid) in
      let answer : new_crypto N S aead true t payload ≡ ok (key_text, crypto) =
        new_crypto-wrapped key_text payload t room_key crypto unwrapped imported created in
      record {
        payload = payload;
        wrapped = wrapped;
        job = rotate o (new_crypto N S aead true t payload);
        waits =
            receives_key t o now payload mid (from_other payload) (keeps payload) good extracted
              unseen;
        is_switched =
            rw answer
              (finish_rotation-IsSwitched key_text o later t room_key crypto imported created);
      }
