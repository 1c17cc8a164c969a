-- ===== src/App/Join.antt =====
-- Creating and joining rooms in frontend/src/App.svelte: `handleCreateRoom`, `joinRoom`,
-- `handleJoinConfirm`, `cancelJoin`, and `importPastedKey`.
pub mod Entered
pub mod ByLink
pub mod Creating
use private_chat.Prelude.{
  Bool, true, false, not, ◌||◌, Option, none, some, [], ◌∷◌, ◌++◌, if◌then◌else◌,
}
use private_chat.Result.{Result, ok, throw, ◌>>=◌}
use private_chat.Text.{Text, codes, is_truthy, trim}
use private_chat.Collections.{map_get, map_has, map_set, map_delete}
use private_chat.E2ee.Base64.{Bytes}
use private_chat.E2ee.Envelope.{is_room_key_b64, is_channel_id}
use private_chat.E2ee.AesGcm.{
  Aead, RoomKey, generate_room_key, export_room_key, import_room_key, create_aes_gcm_crypto,
}
use private_chat.E2ee.Names.{is_valid_room_name, is_valid_nick}
use private_chat.Channel.{update_crypto}
use private_chat.Channel.Create.{Outcome, created, refused, failed, timed_out}
use private_chat.Invite.{parse_invite}
use private_chat.App.{
  Complaint, literal, message_of, App, or_else, peer_key, room_path, navigate, strip_hash,
  channel_id, change_store,
}
use private_chat.App.Gate.{keep_key, or_else_maybe, if_truthy}

-- A room that is being created: its key and the key's text.
pub record NewKey : Type 0 where
  pub key : RoomKey
  pub b64 : Text

abbrev pub truthy_or_null : Text → Option Text
truthy_or_null s = if is_truthy s then some s else none

-- `importRoomKey(await exportRoomKey(await generateRoomKey()))`, over the bytes of the new key
unfoldable pub make_key : Bool → Bytes → Result NewKey
make_key available raw = do
  tmp_key ← generate_room_key available raw
  b64 ← export_room_key tmp_key
  key ← import_room_key available b64
  ok (record { key = key; b64 = b64 })

module _ {F : Type 0} where
  -- The nick that this tab goes by in a room.
  unfoldable pub set_self_nick : (id nick : Text) → App F → App F
  set_self_nick id nick a = record a {
    self_nicks = map_set a.self_nicks id nick;
    peer_nicks = map_set a.peer_nicks (peer_key id (codes "self")) nick;
  }

  -- `handleCreateRoom` up to its first `await`, and whether it goes on.
  unfoldable pub begin_create : App F → App F × Bool
  begin_create a =
      if a.creating
      then (a, false)
      else if not (is_truthy (trim a.create_room_name))
          || not (is_valid_room_name a.create_room_name)
      then (
        record a { create_error = some (literal (codes "Room name 1-32 chars, no newline")) },
        false,
      )
      else if not (is_truthy (trim a.create_nick)) || not (is_valid_nick a.create_nick)
      then (
        record a { create_error = some (literal (codes "Nickname 1-20 chars, no newline")) },
        false,
      )
      else (record a { creating = true; create_error = none }, true)

  -- What follows the promise of `createChannel`; the name and the nick are read here.
  unfoldable pub enter_created : NewKey → (id : Text) → App F → App F
  enter_created new id a =
      let named = record (keep_key id new.key new.b64 a) {
        room_names = map_set a.room_names id (trim a.create_room_name);
      } in
      record (navigate (room_path id) (set_self_nick id (trim a.create_nick) named)) {
        create_room_name = [];
        create_nick = [];
        creating = false;
      }

  abbrev pub creation_failed : Complaint → App F → App F
  creation_failed complaint a = record a { create_error = some complaint; creating = false }

  -- A rejection with a code and a message is an `Error` of the two.
  unfoldable pub end_create : Bool → Result NewKey → Outcome → App F → App F
  end_create false new answer a = creation_failed (literal (codes "Web Crypto unavailable")) a
  end_create true (throw e) answer a = creation_failed (message_of e) a
  end_create true (ok new) (created id) a = enter_created new id a
  end_create true (ok new) (refused code message) a =
      creation_failed (literal (code ++ codes ": " ++ message)) a
  end_create true (ok new) (failed e) a = creation_failed (message_of e) a
  end_create true (ok new) timed_out a =
      creation_failed (literal (codes "timeout creating channel")) a

-- A `joinRoom` whose key, if it has one, is being imported.
pub record Joining : Type 0 where
  pub id : Text
  pub key : Option Text

-- A `handleJoinConfirm`, with the key that it imports if the room has none yet.
pub record Confirming : Type 0 where
  pub id : Text
  pub nick : Text
  pub import_key : Option Text

module _ {F : Type 0} where
  abbrev pub alert : Text → App F → App F
  alert text a = record a { alerts = a.alerts ++ text ∷ [] }

  unfoldable pub begin_join : App F → App F × Option Joining
  begin_join a =
      let invite = parse_invite a.join_input in
      if is_room_key_b64 invite.id
      then (
        alert
            (codes "This looks like a room key, not an invite link. Paste the full invite link "
              ++ codes "(/r/<id>#k=...) or open the room first and paste the key there.")
            a,
        none,
      )
      else if not (is_channel_id invite.id)
      then (alert (codes "Invalid room id. Use 1-64 chars: a-z, A-Z, 0-9, _ -") a, none)
      else (
        a,
        some (record {
          id = invite.id;
          key = or_else_maybe invite.key (truthy_or_null (trim a.key_input));
        }),
      )

  -- The nickname gate of the room that the link names.
  unfoldable pub enter_gate : Text → Option Text → App F → App F
  enter_gate id k a = navigate (codes "/join") (record a {
    join_pending_id = some id;
    join_pending_key = or_else_maybe k (map_get a.room_key_b64 id);
    join_nick = or_else (map_get a.self_nicks id) [];
    join_error = none;
    join_input = [];
    drawer_open = false;
  })

  unfoldable pub end_join : Bool → Joining → App F → App F
  end_join available j a = elim (if_truthy j.key) [
    | none ↦ enter_gate j.id j.key a
    | some k ↦ elim (import_room_key available k) [
      | throw e ↦ alert (codes "Invalid room key in invite link. Expect 43 chars base64url.") a
      | ok key ↦ enter_gate j.id j.key (keep_key j.id key k a)
    ]
  ]

  unfoldable pub begin_confirm : App F → App F × Option Confirming
  begin_confirm a = elim (if_truthy a.join_pending_id) [
    | none ↦ (a, none)
    | some id ↦
        let nick = trim a.join_nick in
        if not (is_valid_nick nick)
        then (
          record a {
            join_error = some (literal (codes "Nickname 1-20 chars, no newline (required)"));
          },
          none,
        )
        else (
          record a { join_creating = true; join_error = none },
          some (record {
            id = id;
            nick = nick;
            import_key = if map_has a.room_keys id then none else if_truthy a.join_pending_key;
          }),
        )
  ]

  abbrev pub confirm_failed : Complaint → App F → App F
  confirm_failed complaint a = record a { join_error = some complaint; join_creating = false }

  -- `roomKeyB64.set(id, joinPendingKey)`: a null reads like a missing key.
  abbrev pub keep_pending : Text → RoomKey → App F → App F
  keep_pending id k a = record a {
    room_keys = map_set a.room_keys id k;
    room_key_b64 = elim a.join_pending_key [
      | none ↦ map_delete a.room_key_b64 id
      | some b64 ↦ map_set a.room_key_b64 id b64
    ];
  }

  -- `${pendingId}` of a null is "null".
  unfoldable pub enter_room : Text → Text → App F → App F
  enter_room id nick a =
      if map_has a.room_keys id
      then (let pending_id = or_else a.join_pending_id (codes "null") in
          record (navigate (room_path pending_id) (record (set_self_nick id nick a) {
            join_pending_id = none;
            join_pending_key = none;
            join_nick = [];
          })) { join_creating = false })
      else confirm_failed (literal (codes "missing room key — paste key from invite link")) a

  unfoldable pub end_confirm : Bool → Confirming → App F → App F
  end_confirm available c a = elim c.import_key [
    | none ↦ enter_room c.id c.nick a
    | some b64 ↦ elim (import_room_key available b64) [
      | throw e ↦ confirm_failed (message_of e) a
      | ok k ↦ enter_room c.id c.nick (keep_pending c.id k a)
    ]
  ]

  unfoldable pub cancel_join : App F → App F
  cancel_join a = navigate (codes "/") (record a {
    join_pending_id = none;
    join_pending_key = none;
    join_nick = [];
    join_error = none;
  })

  unfoldable pub begin_paste : App F → App F × Option Text
  begin_paste a =
      let b64 = trim a.key_input in
      if is_truthy b64
      then (record a { key_error = none }, some b64)
      else (record a { key_error = some (literal (codes "empty key")) }, none)

  -- `stores.get(channelId)?.updateCrypto(createAesGcmCrypto(k, channelId))`, and the lines behind it.
  unfoldable pub use_key : Aead → Bool → RoomKey → App F → App F
  use_key aead available k a =
      let swapped =
        if map_has a.stores (channel_id a)
        then (elim (create_aes_gcm_crypto aead available k (channel_id a)) [
          | throw e ↦ throw e
          | ok crypto ↦ ok (change_store (channel_id a) (update_crypto crypto) a)
        ])
        else ok a in
      elim swapped [
        | throw e ↦ record a { key_error = some (message_of e) }
        | ok a' ↦ record (strip_hash (record a' { pending_hash_key = none })) { key_input = [] }
      ]

  unfoldable pub end_paste : Aead → Bool → Text → App F → App F
  end_paste aead available b64 a = elim (import_room_key available b64) [
    | throw e ↦ record a { key_error = some (message_of e) }
    | ok k ↦
        if is_truthy (channel_id a)
        then use_key aead available k (keep_key (channel_id a) k b64 a)
        else record a { key_error = some (literal (codes "no channel")) }
  ]
