-- ===== src/App/Leave.antt =====
-- `leaveRoom` of frontend/src/App.svelte.
pub mod Forgets
pub mod Late
use private_chat.Prelude.{Bool, true, false, Option, none, some, List, [], ◌∷◌, ◌++◌, if◌then◌else◌}
use private_chat.Text.{Text, codes, text_eq, is_truthy}
use private_chat.Collections.{map_get, map_delete, map_delete_if}
use private_chat.Json.{Numbers}
use private_chat.Transport.{Handlers}
use private_chat.App.{Session, HistoryEntry, App, channel_id, navigate}
use private_chat.App.Gate.{close_session}
use private_chat.Invite.{strip_prefix}

-- `k.startsWith(`${channelId}:`)`
unfoldable pub is_peer_key : (channel_id k : Text) → Bool
is_peer_key channel_id k = elim (strip_prefix (channel_id ++ b':' ∷ []) k) [
  | none ↦ false
  | some from ↦ true
]

unfoldable pub forget_history : Text → List HistoryEntry → List HistoryEntry
forget_history id [] = []
forget_history id (r ∷ rs) =
    let rest = forget_history id rs in if text_eq r.id id then rest else r ∷ rest

module _ (N : Numbers) (H : Handlers) where
  open N use {Number}

  abbrev pub closed_session : Option (Session Number) → List (Session Number)
  closed_session none = []
  closed_session (some s) = close_session N H s ∷ []

  -- What is forgotten of a room.
  unfoldable pub forget_room : Text → App Number → App Number
  forget_room id a = record a {
    stores = map_delete a.stores id;
    left = a.left ++ closed_session (map_get a.stores id);
    last_online_by_room = map_delete a.last_online_by_room id;
    last_broadcast_nick_by_room = map_delete a.last_broadcast_nick_by_room id;
    last_broadcast_room_name_by_room = map_delete a.last_broadcast_room_name_by_room id;
    room_keys = map_delete a.room_keys id;
    room_key_b64 = map_delete a.room_key_b64 id;
    room_names = map_delete a.room_names id;
    self_nicks = map_delete a.self_nicks id;
    peer_nicks = map_delete_if (is_peer_key id) a.peer_nicks;
    room_history = forget_history id a.room_history;
  }

  unfoldable pub leave_room : App Number → App Number
  leave_room a =
      let forgotten = if is_truthy (channel_id a) then forget_room (channel_id a) a else a in
      navigate (codes "/") (record forgotten {
        key_input = [];
        editing_room_name = false;
        editing_nick = false;
        drawer_open = false;
      })
