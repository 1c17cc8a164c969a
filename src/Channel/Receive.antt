-- ===== src/Channel/Receive.antt =====
-- The message handler of class ChannelStore, cut at its `await`s: `receive` runs up to the first one
-- and returns the job that waits for it; `resume` runs a job that has its answer up to the next. Jobs
-- of several frames may be resumed in any order, which `Step` describes.
use private_chat.Prelude.{ℕ, Bool, true, false, not, Option, none, some, [], ◌++◌, if◌then◌else◌}
use private_chat.Result.{Result, ok, throw, ◌>>=◌}
use private_chat.Text.{Text, codes, text_eq}
use private_chat.Json.{Numbers, Fields, get}
use private_chat.Json.Read.{as_number, is_truthy_value}
use private_chat.E2ee.Envelope.{is_valid_envelope, extract_message_id_b64}
use private_chat.E2ee.ReplayCache.{clear}
use private_chat.E2ee.AesGcm.{Aead, Crypto, import_room_key, create_aes_gcm_crypto}
use private_chat.E2ee.Names.{RoomName, UnwrappedNick, unwrap_new_key, unwrap_room_name, unwrap_nick}
use private_chat.Identity.{
  Signing, SignedMessagePayload, fp_of, parse_signed_message, stale_signed_message_pk,
  is_unknown_structured_payload, verify_signed_message, verify_signed_nick,
}
use private_chat.Codec.{
  Kind, message, key_updated, room_name_updated, nickname_updated, joined, online_count, error,
  decode,
}
use private_chat.Channel.{
  ChannelStore, MessageIdent, invalid, from_frame, system, room_name, key_rotation, Callback,
  key_rotated, thrown, warning, complain, append, call, text_of, is_replay, remember,
  record_identity, note_ident,
}

-- What a decrypted message becomes.
pub data Content : Type 0 where
  ignored : Content
  shown : Text → Option MessageIdent → Content

-- What waits for an `await`, with the answer that it will get: of `decrypt`, of `unwrapNewKey` and
-- `importRoomKey`, of `unwrapRoomName`, of `unwrapNick`, and of `verifySignedNick`.
pub data Job (F : Type 0) : Type 0 where
  open_message : Fields F → Result Text → Job F
  rotate : Fields F → Result (Text × Crypto) → Job F
  name_room : Fields F → Result RoomName → Job F
  open_nick : Fields F → Result UnwrappedNick → Job F
  claim_nick : Fields F → (nick pk : Text) → Bool → Job F

abbrev pub same_name : Option Text → Text → Bool
same_name none name = false
same_name (some last) name = text_eq last name

-- `{ fp: fpOf(pk), nick, pk, status: "invalid" }`
abbrev pub rejected : Option Text → Text → Option MessageIdent
rejected nick pk = some (record { fp = fp_of pk; nick = nick; pk = pk; status = invalid })

-- `mid ?? ""`
abbrev pub mid_text : Option Text → Text
mid_text none = []
mid_text (some mid) = mid

module _ {F : Type 0} where
  abbrev pub payload_of : Fields F → Text
  payload_of o = text_of o (codes "payload")

  abbrev pub from_of : Fields F → Text
  from_of o = text_of o (codes "from")

  abbrev pub id_of : Fields F → Text
  id_of o = text_of o (codes "channelId")

  abbrev pub mid_of : Fields F → Option Text
  mid_of o = extract_message_id_b64 (payload_of o)

  -- The two checks in front of every encrypted frame, and the job behind them.
  unfoldable pub guarded :
      (invalid_text replay_text : Text)
      → Fields F
      → Job F
      → ChannelStore F
      → ChannelStore F × Option (Job F)
  guarded invalid_text replay_text o job s =
      if not (is_valid_envelope (payload_of o))
      then (complain invalid_text s, none)
      else if is_replay (mid_of o) s
      then (complain replay_text s, none)
      else (s, some job)

  unfoldable pub show_content : Fields F → ℕ → Content → ChannelStore F → ChannelStore F
  show_content o now ignored s = remember (mid_of o) s
  show_content o now (shown payload ident) s =
      note_ident ident (id_of o) (from_of o) now
        (append (from_frame o payload now ident) (remember (mid_of o) s))

  unfoldable pub finish_rotation :
      Fields F → ℕ → Result (Text × Crypto) → ChannelStore F → ChannelStore F
  finish_rotation o now (throw e) s = complain (codes "key rotation failed (decrypt/import)") s
  finish_rotation o now (ok (new_key_b64, new_crypto)) s =
      let switched = record s { crypto = new_crypto; replay_cache = clear s.replay_cache } in
      let told = call (key_rotated new_key_b64 new_crypto) (remember (mid_of o) switched) in
      record (append (system (id_of o) [] now key_rotation (from_of o)) told) { error = none }

  unfoldable pub finish_room_name : Fields F → ℕ → Result RoomName → ChannelStore F → ChannelStore F
  finish_room_name o now (throw e) s = complain (codes "room_name update failed") s
  finish_room_name o now (ok r) s =
      let s' = remember (mid_of o) s in
      let told = call (Callback.room_name_updated r.name (from_of o)) s' in
      if same_name s'.last_room_name r.name
      then told
      else (let named = record told { last_room_name = some r.name } in
          let entered =
            if r.initial
            then named
            else append (system (id_of o) r.name now room_name (from_of o)) named in
          record entered { error = none })

  unfoldable pub finish_claim : Fields F → Text → ChannelStore F → ChannelStore F
  finish_claim o nick s = record (call (Callback.nickname_updated (from_of o) nick) s) {
    error = none;
  }

module _ (N : Numbers) (S : Signing) (aead : Aead) where
  open N use {Number}

  unfoldable pub read_signed :
      Option Text → SignedMessagePayload → ChannelStore Number → ChannelStore Number × Content
  read_signed mid m s =
      if verify_signed_message S s.channel_id (mid_text mid) m
      then (let (ident, s') = record_identity m.nick m.pk s in (s', shown m.text (some ident)))
      else (
        complain (codes "invalid signature") s,
        shown (warning (codes "invalid signature")) (rejected (some m.nick) m.pk),
      )

  unfoldable pub read_unsigned : Text → ChannelStore Number → ChannelStore Number × Content
  read_unsigned plain s = elim (stale_signed_message_pk N plain) [
    | some pk ↦ (
      complain (codes "stale signature (identity-v1 no longer accepted)") s,
      shown (warning (codes "stale signature — refresh to upgrade")) (rejected none pk),
    )
    | none ↦ (s, if is_unknown_structured_payload N plain then ignored else shown plain none)
  ]

  unfoldable pub read_plain :
      Option Text → Result Text → ChannelStore Number → ChannelStore Number × Content
  read_plain mid (throw e) s = (
    complain (codes "decrypt failed (wrong key or corrupted)") s,
    shown (warning (codes "decrypt failed")) none,
  )
  read_plain mid (ok plain) s = elim (parse_signed_message N plain) [
    | some m ↦ read_signed mid m s
    | none ↦ read_unsigned plain s
  ]

  unfoldable pub finish_message :
      Fields Number → ℕ → Result Text → ChannelStore Number → ChannelStore Number
  finish_message o now answer s =
      let (s', content) = read_plain (mid_of o) answer s in show_content o now content s'

  -- `importRoomKey(await unwrapNewKey(…))` and `createAesGcmCrypto` for the new key
  unfoldable pub new_crypto : Bool → ChannelStore Number → Text → Result (Text × Crypto)
  new_crypto available s payload = do
    new_key_b64 ← unwrap_new_key N s.crypto payload
    key ← import_room_key available new_key_b64
    crypto ← create_aes_gcm_crypto aead available key s.channel_id
    ok (new_key_b64, crypto)

  unfoldable pub receive_message :
      Fields Number → ℕ → ChannelStore Number → ChannelStore Number × Option (Job Number)
  receive_message o now s =
      if is_valid_envelope (payload_of o)
      then guarded (codes "invalid envelope") (codes "replay dropped") o
          (open_message o (s.crypto.decrypt (payload_of o))) s
      else (
        append (from_frame o (warning (codes "invalid envelope")) now none)
            (complain (codes "invalid envelope") s),
        none,
      )

  unfoldable pub receive_key :
      Bool → Fields Number → ChannelStore Number → ChannelStore Number × Option (Job Number)
  receive_key available o s =
      if is_truthy_value N (get o (codes "self"))
      then (s, none)
      else guarded (codes "invalid key_update envelope") (codes "replay dropped (key_update)") o
          (rotate o (new_crypto available s (payload_of o))) s

  -- The `switch` of the handler. `available` is whether Web Crypto is there, `now` is `Date.now()`.
  unfoldable pub receive_frame :
      Bool
      → ℕ
      → Kind
      → Fields Number
      → ChannelStore Number
      → ChannelStore Number × Option (Job Number)
  receive_frame available now joined o s =
      (record s { online = as_number (get o (codes "online")) }, none)
  receive_frame available now message o s = receive_message o now s
  receive_frame available now key_updated o s = receive_key available o s
  receive_frame available now room_name_updated o s =
      guarded (codes "invalid room_name envelope") (codes "replay dropped (room_name)") o
        (name_room o (unwrap_room_name N s.crypto (payload_of o))) s
  receive_frame available now nickname_updated o s =
      guarded (codes "invalid nick envelope") (codes "replay dropped (nick)") o
        (open_nick o (unwrap_nick N s.crypto (payload_of o))) s
  receive_frame available now online_count o s =
      (record s { online = as_number (get o (codes "count")) }, none)
  receive_frame available now error o s =
      (complain (text_of o (codes "code") ++ codes ": " ++ text_of o (codes "message")) s, none)
  receive_frame available now _ o s = (s, none)

  unfoldable pub receive :
      Bool → ℕ → Text → ChannelStore Number → ChannelStore Number × Option (Job Number)
  receive available now raw s = elim (decode N raw) [
    | throw e ↦ (record s { error = some (thrown e) }, none)
    | ok f ↦ receive_frame available now f.kind f.object s
  ]

  -- `pk && sig`: both, and neither empty, which the checks on them rule out.
  abbrev pub claim_of : UnwrappedNick → Option (Text × Text)
  claim_of u = elim u.pk [
    | none ↦ none
    | some pk ↦ elim u.sig [ none ↦ none | some sig ↦ some (pk, sig) ]
  ]

  unfoldable pub finish_nick :
      Fields Number
      → Result UnwrappedNick
      → ChannelStore Number
      → ChannelStore Number × Option (Job Number)
  finish_nick o (throw e) s = (complain (codes "nickname update failed") s, none)
  finish_nick o (ok u) s =
      let s' = remember (mid_of o) s in
      elim (claim_of u) [
        | none ↦ (finish_claim o u.nick s', none)
        | some (pk, sig) ↦
            (s', some (claim_nick o u.nick pk (verify_signed_nick S s'.channel_id u.nick pk sig)))
      ]

  unfoldable pub resume :
      ℕ → Job Number → ChannelStore Number → ChannelStore Number × Option (Job Number)
  resume now (open_message o answer) s = (finish_message o now answer s, none)
  resume now (rotate o answer) s = (finish_rotation o now answer s, none)
  resume now (name_room o answer) s = (finish_room_name o now answer s, none)
  resume now (open_nick o answer) s = finish_nick o answer s
  resume now (claim_nick o nick pk false) s = (complain (codes "invalid signature (nick)") s, none)
  resume now (claim_nick o nick pk true) s =
      (finish_claim o nick (record_identity nick pk s).1, none)
