-- ===== src/Channel/Send.antt =====
-- The calls of class ChannelStore that send: joining, leaving, messages and wrapped payloads. A call
-- that awaits the identity and the ciphers is one step, over the values that they give.
use private_chat.Prelude.{Bool, true, false, Option, none, some, ◌++◌, ltb, if◌then◌else◌}
use private_chat.Result.{Error, ok, throw}
use private_chat.Text.{Text, codes, is_truthy, trim}
use private_chat.Text.Utf8.{utf8_length}
use private_chat.Text.Decimal.{decimal}
use private_chat.Json.{Numbers, Json, str, obj, end, field}
use private_chat.E2ee.Base64.{Bytes, base64_url_encode}
use private_chat.E2ee.AesGcm.{Random}
use private_chat.Identity.{Signing, Identity, wrap_signed_message}
use private_chat.Codec.{max_inner_utf8, encode}
use private_chat.Transport.{Status, open', status_eq, Transport, Handlers, send_raw, disconnect}
use private_chat.Channel.{ChannelStore, thrown, complain}

-- `newMessageIdB64`, over 16 random bytes
unfoldable pub new_message_id_b64 : Bytes → Text
new_message_id_b64 fresh = base64_url_encode fresh

-- `this.selfNick().trim() || "Anonymous"`
unfoldable pub nick_or_anonymous : Text → Text
nick_or_anonymous nick = if is_truthy (trim nick) then trim nick else codes "Anonymous"

-- The random bytes of one `sendMessage`: the message id, and those of `encrypt`.
pub record Fresh : Type 0 where
  pub message_id : Bytes
  pub encryption : Random

module _ {F : Type 0} where
  -- `{ type, channelId }` and `{ type, channelId, payload }`
  unfoldable pub channel_json : (tag channel_id : Text) → Json F
  channel_json tag channel_id =
      obj (field (codes "type") (str tag) (field (codes "channelId") (str channel_id) end))

  unfoldable pub payload_json : (tag channel_id payload : Text) → Json F
  payload_json tag channel_id payload = obj (
      field (codes "type") (str tag)
        (field (codes "channelId") (str channel_id) (field (codes "payload") (str payload) end)))

  -- The handler of the transport's status, and whether it waits for the identity to join.
  unfoldable pub on_status : Status → ChannelStore F → ChannelStore F × Bool
  on_status s store =
      if status_eq s open'
      then (record store { status = s; error = none }, true)
      else (record store { status = s }, false)

  abbrev pub fail : Error → ChannelStore F → ChannelStore F
  fail e s = record s { error = some (thrown e) }

-- A store, its transport, and the answer of a call.
pub record Sent (F : Type 0) : Type 0 where
  pub store : ChannelStore F
  pub transport : Transport
  pub answer : Bool

module _ (N : Numbers) (H : Handlers) where
  open N use {Number}

  -- `encode` and `sendRaw`, for a call that answers.
  unfoldable pub send_json : Json Number → ChannelStore Number → Transport → Sent Number
  send_json msg s w = elim (encode N msg) [
    | throw e ↦ record { store = fail e s; transport = w; answer = false }
    | ok raw ↦
        let (w', taken) = send_raw H raw w in
        record {
          store = if taken then s else complain (codes "not connected (queued)") s;
          transport = w';
          answer = taken;
        }
  ]

  unfoldable pub send_join : ChannelStore Number → Transport → ChannelStore Number × Transport
  send_join s w = elim (encode N (channel_json (codes "join_channel") s.channel_id)) [
    | throw e ↦ (fail e s, w)
    | ok raw ↦ (s, (send_raw H raw w).0)
  ]

  -- When the identity is there: `if (this.status === "open") this.sendJoin();`
  unfoldable pub identity_ready :
      Option Identity → ChannelStore Number → Transport → ChannelStore Number × Transport
  identity_ready i s w =
      let s' = record s { identity = i } in
      if status_eq s'.status open' then send_join s' w else (s', w)

  unfoldable pub disconnect_store : ChannelStore Number → Transport → Transport
  disconnect_store s w = elim (encode N (channel_json (codes "leave_channel") s.channel_id)) [
    | throw e ↦ disconnect H w
    | ok raw ↦ disconnect H (send_raw H raw w).0
  ]

  unfoldable pub send_key_update : Text → ChannelStore Number → Transport → Sent Number
  send_key_update wrapped s w =
      send_json (payload_json (codes "key_update") s.channel_id wrapped) s w

  unfoldable pub send_set_room_name : Text → ChannelStore Number → Transport → Sent Number
  send_set_room_name wrapped s w =
      send_json (payload_json (codes "set_room_name") s.channel_id wrapped) s w

  unfoldable pub send_set_nickname : Text → ChannelStore Number → Transport → Sent Number
  send_set_nickname wrapped s w =
      send_json (payload_json (codes "set_nickname") s.channel_id wrapped) s w

  -- The plaintext to encrypt, and the message id if it is signed.
  unfoldable pub inner_of :
      Signing → (text nick : Text) → Bytes → ChannelStore Number → Text × Option Text
  inner_of S text nick fresh s = elim s.identity [
    | none ↦ (text, none)
    | some i ↦
        let mid = new_message_id_b64 fresh in
        (wrap_signed_message N S i s.channel_id mid text (nick_or_anonymous nick), some mid)
  ]

  -- `sendMessage` once the inner plaintext is there.
  unfoldable pub send_inner :
      Text → Option Text → Random → ChannelStore Number → Transport → Sent Number
  send_inner inner mid r s w =
      if ltb max_inner_utf8 (utf8_length inner)
      then record {
        store =
            complain
              (codes "message too long (max " ++ decimal max_inner_utf8 ++ codes " UTF-8 bytes)") s;
        transport = w;
        answer = false;
      }
      else elim (s.crypto.encrypt inner mid r) [
        | throw e ↦ record { store = fail e s; transport = w; answer = false }
        | ok payload ↦
            let out = send_json (payload_json (codes "send_message") s.channel_id payload) s w in
            if out.answer then record out { store = record s { error = none } } else out
      ]

  unfoldable pub send_message :
      Signing → (text nick : Text) → Fresh → ChannelStore Number → Transport → Sent Number
  send_message S text nick fresh s w =
      if is_truthy (trim text)
      then (let (inner, mid) = inner_of S text nick fresh.message_id s in
          send_inner inner mid fresh.encryption s w)
      else record { store = s; transport = w; answer = false }
