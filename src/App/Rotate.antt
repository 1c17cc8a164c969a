-- ===== src/App/Rotate.antt =====
-- Invite links and key rotation in frontend/src/App.svelte: `copyInviteLink`, `rotateKeyViaE2EE` and
-- `rotateKeyLocally`. The room is read again behind each `await`.
pub mod Switched
pub mod Keys
pub mod Link
use private_chat.Prelude.{
  ℕ, ◌+◌, ◌/◌, ◌%◌, Bool, true, false, not, ◌&&◌, ◌||◌, Option, none, some, List, [], ◌∷◌, ◌++◌,
  ltb, leb, ◌==◌, if◌then◌else◌,
}
use private_chat.Result.{Result, ok, throw, ◌>>=◌}
use private_chat.Text.{Text, codes, is_truthy, is_b64url_char}
use private_chat.Text.Utf8.{utf8_encode}
use private_chat.Collections.{map_get, map_has}
use private_chat.Json.{Numbers, str, bool, Fields, end, field}
use private_chat.E2ee.Base64.{Bytes}
use private_chat.E2ee.AesGcm.{Aead, RoomKey, Random, create_aes_gcm_crypto}
use private_chat.E2ee.Names.{wrap_new_key}
use private_chat.Transport.{Handlers}
use private_chat.Channel.{from_frame, append, update_crypto}
use private_chat.Channel.Send.{send_key_update}
use private_chat.App.{
  Complaint, literal, message_of, null_read, copied, copy_failed, App, room_path, channel_id,
  change_store,
}
use private_chat.App.Gate.{keep_key, if_truthy}
use private_chat.App.Join.{NewKey, make_key}
use private_chat.App.Rename.{call_store}

-- A byte that `encodeURIComponent` leaves alone: the class, and `.!~*'()`.
abbrev pub is_unreserved : ℕ → Bool
is_unreserved c = is_b64url_char c || c == 33 || (leb 39 c && leb c 42) || c == 46 || c == 126

abbrev pub hex_digit : ℕ → ℕ
hex_digit d = if ltb d 10 then 48 + d else 55 + d

unfoldable pub encode_bytes : List ℕ → Text
encode_bytes [] = []
encode_bytes (c ∷ s) =
    let rest = encode_bytes s in
    if is_unreserved c then c ∷ rest else b'%' ∷ hex_digit (c / 16) ∷ hex_digit (c % 16) ∷ rest

-- `encodeURIComponent` of a well-formed text
unfoldable pub encode_uri_component : Text → Text
encode_uri_component s = encode_bytes (utf8_encode s)

-- `${location.origin}/r/${id}#k=${encodeURIComponent(b64)}`
unfoldable pub invite_link : (origin id b64 : Text) → Text
invite_link origin id b64 = origin ++ room_path id ++ codes "#k=" ++ encode_uri_component b64

-- A key that was made, and what it is wrapped to under the old one.
pub record Rotation : Type 0 where
  pub new : NewKey
  pub wrapped : Text

-- "🔑 Key rotated locally — share new invite only with members to keep (old members excluded)"
abbrev pub rotated_text : Text
rotated_text =
    0xd83d ∷ 0xdd11 ∷ codes " Key rotated locally — share new invite only with members to keep"
    ++ codes " (old members excluded)"

module _ {F : Type 0} where
  -- `channelId ? roomKeyB64.get(channelId) : undefined`
  abbrev pub shown_b64 : App F → Option Text
  shown_b64 a = if is_truthy (channel_id a) then map_get a.room_key_b64 (channel_id a) else none

  -- The link that `copyInviteLink` copies; the last branch is `location.href`.
  unfoldable pub copied_link : App F → Text
  copied_link a = elim (if_truthy (shown_b64 a)) [
    | some b64 ↦ invite_link a.location.origin (channel_id a) b64
    | none ↦ a.location.origin ++ a.location.pathname ++ a.location.search ++ a.location.hash
  ]

  abbrev pub write_text : Text → App F → App F
  write_text text a = record a { clipboard = a.clipboard ++ text ∷ [] }

  unfoldable pub copy_invite_link : (written : Bool) → App F → App F
  copy_invite_link written a = record (write_text (copied_link a) a) {
    copy_feedback = some (if written then copied else copy_failed);
  }

  -- The callback of the timer that `copyInviteLink` sets.
  unfoldable pub feedback_over : App F → App F
  feedback_over a = record a { copy_feedback = none }

  abbrev pub rotation_failed : Complaint → App F → App F
  rotation_failed complaint a = record a { key_error = some complaint; rotating = false }

  abbrev pub may_rotate : App F → Bool
  may_rotate a = is_truthy (channel_id a) && map_has a.stores (channel_id a) && not a.rotating

  -- The lines from `roomKeys.set` to the copied link, for the room that is shown now; and whether the
  -- clipboard is awaited.
  unfoldable pub switch_key : Aead → Bool → NewKey → App F → App F × Bool
  switch_key aead available new a =
      let id = channel_id a in
      let kept = keep_key id new.key new.b64 a in
      if map_has a.stores id
      then (elim (create_aes_gcm_crypto aead available new.key id) [
        | throw e ↦ (rotation_failed (message_of e) kept, false)
        | ok crypto ↦ (
          write_text (invite_link a.location.origin id new.b64)
              (change_store id (update_crypto crypto) kept),
          true,
        )
      ])
      else (rotation_failed null_read kept, false)

  -- `finally`, once the clipboard has answered.
  unfoldable pub finish_rotate : App F → App F
  finish_rotate a = record a { rotating = false }

  abbrev pub rotated_frame : Text → Fields F
  rotated_frame id =
      field (codes "channelId") (str id)
        (field (codes "from") (str (codes "system")) (field (codes "self") (bool true) end))

  unfoldable pub finish_rotate_locally : (now : ℕ) → App F → App F
  finish_rotate_locally now a =
      record (change_store (channel_id a)
        (append (from_frame (rotated_frame (channel_id a)) rotated_text now none)) a) {
          rotating = false;
        }

module _ (N : Numbers) (H : Handlers) (aead : Aead) (available : Bool) where
  open N use {Number}

  -- The `try` block of `rotateKeyViaE2EE` up to `wrapNewKey`.
  unfoldable pub prepare_rotation : RoomKey → Text → Bytes → Random → Result Rotation
  prepare_rotation old_key id raw r = do
    old_crypto ← create_aes_gcm_crypto aead available old_key id
    new ← make_key available raw
    wrapped ← wrap_new_key N old_crypto new.b64 r
    ok (record { new = new; wrapped = wrapped })

  unfoldable pub begin_rotate : Bytes → Random → App Number → App Number × Option (Result Rotation)
  begin_rotate raw r a =
      if may_rotate a
      then (elim (if_truthy (map_get a.room_key_b64 (channel_id a))) [
        | none ↦ (rotation_failed (literal (codes "no current key")) a, none)
        | some old_b64 ↦ elim (map_get a.room_keys (channel_id a)) [
          | none ↦ (rotation_failed (literal (codes "no current key")) a, none)
          | some old_key ↦ (
            record a { rotating = true; key_error = none },
            some (prepare_rotation old_key (channel_id a) raw r),
          )
        ]
      ])
      else (a, none)

  -- From `sendKeyUpdate` to the clipboard.
  unfoldable pub send_rotation : Result Rotation → App Number → App Number × Bool
  send_rotation (throw e) a = (rotation_failed (message_of e) a, false)
  send_rotation (ok rotation) a =
      let (a', answer) = call_store (channel_id a) (send_key_update N H rotation.wrapped) a in
      elim answer [
        | none ↦ (rotation_failed null_read a', false)
        | some false ↦ (rotation_failed (literal (codes "not connected")) a', false)
        | some true ↦ switch_key aead available rotation.new a'
      ]

  unfoldable pub begin_rotate_locally : Bytes → App Number → App Number × Option (Result NewKey)
  begin_rotate_locally raw a =
      if may_rotate a
      then (record a { rotating = true; key_error = none }, some (make_key available raw))
      else (a, none)

  unfoldable pub rotate_locally : Result NewKey → App Number → App Number × Bool
  rotate_locally (throw e) a = (rotation_failed (message_of e) a, false)
  rotate_locally (ok new) a = switch_key aead available new a
