-- ===== src/App/Join/ByLink.antt =====
-- Joining a room by its link in frontend/src/App.svelte, from `joinRoom` to the effect that connects.
use private_chat.Prelude.{◌≡◌, true, none, some}
use private_chat.Result.{ok}
use private_chat.Text.{Text, trim}
use private_chat.Json.{Numbers}
use private_chat.E2ee.Envelope.{is_channel_id, is_room_key_b64}
use private_chat.E2ee.AesGcm.{Aead, RoomKey, import_room_key}
use private_chat.E2ee.Names.{is_valid_nick}
use private_chat.Transport.{Handlers}
use private_chat.App.{App}
use private_chat.App.Gate.{through, begin_connect, keep_key, end_connect}
use private_chat.App.Join.{begin_join, enter_gate, end_join, begin_confirm, end_confirm}

module _ {F : Type 0} (a : App F) (id key nick : Text) (k : RoomKey) (i : is_channel_id id ≡ true)
    (h : is_room_key_b64 key ≡ true) (e : import_room_key true key ≡ ok k)
    (v : is_valid_nick (trim nick) ≡ true) where
  abbrev gated : App F
  gated = record (enter_gate id (some key) (keep_key id k key a)) { join_nick = nick }

  abbrev confirming : App F
  confirming = record gated { join_creating = true; join_error = none }

module _ (N : Numbers) (H : Handlers) (aead : Aead) where
  open N use {Number}

  -- A link in the field, the nick typed at the gate, and the effect that connects.
  abbrev pub join_by_link : Text → App Number → App Number
  join_by_link nick a =
      let at_gate = record (through (begin_join a) (end_join true)) { join_nick = nick } in
      let entered = through (begin_confirm at_gate) (end_confirm true) in
      through (begin_connect entered) (end_connect N H aead true)
