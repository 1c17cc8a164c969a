-- ===== src/App/Rename.antt =====
-- Calls of frontend/src/App.svelte on the store of the room shown: `handleSend`, `updateRoomName` and
-- `updateNick`. The room is read again behind an `await`.
use private_chat.Prelude.{Bool, true, false, not, Option, none, some, [], if◌then◌else◌}
use private_chat.Result.{Result, ok, throw, ◌>>=◌}
use private_chat.Text.{Text, codes, is_truthy, trim}
use private_chat.Collections.{map_get, map_set}
use private_chat.Json.{Numbers}
use private_chat.E2ee.AesGcm.{Aead, RoomKey, Random, create_aes_gcm_crypto}
use private_chat.E2ee.Names.{is_valid_room_name, is_valid_nick, wrap_room_name, wrap_nick}
use private_chat.Identity.{Signing, Identity, wrap_signed_nick}
use private_chat.Transport.{Transport, Handlers}
use private_chat.Channel.{ChannelStore}
use private_chat.Channel.Send.{Fresh, Sent, send_set_room_name, send_set_nickname, send_message}
use private_chat.App.{
  Complaint, literal, message_of, null_read, Session, App, or_else, channel_id, channel_store,
}
use private_chat.App.Join.{set_self_nick}

-- A new name or nick, and what it is wrapped to.
pub record Renaming : Type 0 where
  pub name : Text
  pub wrapped : Result Text

-- A method of a store that sends.
abbrev pub SendCall : Type 0 → Type 0
SendCall F = ChannelStore F → Transport → Sent F

module _ {F : Type 0} where
  abbrev pub complain_key : Complaint → App F → App F
  complain_key complaint a = record a { key_error = some complaint }

  -- A call on the store of a room, and its answer; `none` if there is no store.
  unfoldable pub call_store : Text → SendCall F → App F → App F × Option Bool
  call_store id send a = elim (map_get a.stores id) [
    | none ↦ (a, none)
    | some s ↦
        let out = send s.store s.transport in
        (
          record a {
            stores = map_set a.stores id (record { store = out.store; transport = out.transport });
          },
          some out.answer,
        )
  ]

  -- The checks in front, with the key of the room.
  unfoldable pub begin_renaming :
      (Text → Bool)
      → (complaint name : Text) → (Session F → RoomKey → Result Text)
      → App F
      → App F × Option Renaming
  begin_renaming is_valid complaint name wrap a = elim (channel_store a) [
    | none ↦ (a, none)
    | some s ↦
        if not (is_truthy (channel_id a))
        then (a, none)
        else if not (is_valid name)
        then (complain_key (literal complaint) a, none)
        else (elim (map_get a.room_keys (channel_id a)) [
          | none ↦ (complain_key (literal (codes "no key")) a, none)
          | some k ↦ (a, some (record { name = name; wrapped = wrap s k }))
        ])
  ]

  -- The send behind the `await`, and what is done when it is taken.
  unfoldable pub end_renaming :
      (Text → SendCall F) → (Text → App F → App F) → Renaming → App F → App F
  end_renaming send rename r a = elim r.wrapped [
    | throw e ↦ complain_key (message_of e) a
    | ok payload ↦
        let (a', answer) = call_store (channel_id a) (send payload) a in
        elim answer [
          | none ↦ complain_key null_read a'
          | some false ↦ complain_key (literal (codes "not connected")) a'
          | some true ↦ rename r.name a'
        ]
  ]

module _ (N : Numbers) (H : Handlers) (S : Signing) (aead : Aead) (available : Bool) where
  open N use {Number}

  unfoldable pub begin_room_name : Random → App Number → App Number × Option Renaming
  begin_room_name r a =
      let name = trim a.room_name_draft in
      begin_renaming is_valid_room_name (codes "Room name 1-32 chars") name
        (λ s k. create_aes_gcm_crypto aead available k (channel_id a) >>= λ crypto.
          wrap_room_name N crypto name false r)
        a

  unfoldable pub end_room_name : Renaming → App Number → App Number
  end_room_name = end_renaming (send_set_room_name N H) (λ name a. record a {
    room_names = map_set a.room_names (channel_id a) name;
    editing_room_name = false;
  })

  -- A nick is signed if the store has an identity.
  unfoldable pub wrap_claim : Option Identity → RoomKey → (id nick : Text) → Random → Result Text
  wrap_claim none k id nick r =
      create_aes_gcm_crypto aead available k id >>= λ crypto. wrap_nick N crypto nick r
  wrap_claim (some i) k id nick r = create_aes_gcm_crypto aead available k id >>= λ crypto.
      wrap_signed_nick N S i crypto id nick r

  unfoldable pub begin_nick : Random → App Number → App Number × Option Renaming
  begin_nick r a =
      let nick = trim a.nick_draft in
      begin_renaming is_valid_nick (codes "Nick 1-20 chars") nick
        (λ s k. wrap_claim s.store.identity k (channel_id a) nick r) a

  unfoldable pub end_nick : Renaming → App Number → App Number
  end_nick =
      end_renaming (send_set_nickname N H)
        (λ nick a. record (set_self_nick (channel_id a) nick a) { editing_nick = false })

  -- `s.setSelfNick(() => selfNicks.get(id) ?? "Anonymous")`
  unfoldable pub nick_source : Text → App Number → Text
  nick_source id a = or_else (map_get a.self_nicks id) (codes "Anonymous")

  unfoldable pub handle_send : Fresh → App Number → App Number
  handle_send fresh a =
      if is_truthy (trim a.input)
      then (let (a', answer) =
            call_store (channel_id a)
              (send_message N H S a.input (nick_source (channel_id a) a) fresh) a in
          elim answer [ some true ↦ record a' { input = [] } | _ ↦ a' ])
      else a
