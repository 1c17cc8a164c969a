-- ===== src/Tests/Pages.antt =====
-- The application on concrete data: a page at home, and one in a room that is connected.
use private_chat.Prelude.{
  ℕ, ◌≡◌, refl, ap, ◌∙◌, ◌⊎◌, true, false, ◌||◌, none, some, [], ◌∷◌, ◌++◌, arith, ltb, replicate,
}
use private_chat.Result.{ok}
use private_chat.Text.{Text, codes, text_eq, is_truthy, split, is_b64url_char, is_space}
use private_chat.Collections.{map_get, map_has, set_has, IsDistinct}
use private_chat.E2ee.Envelope.{is_channel_id, is_room_key_b64}
use private_chat.E2ee.AesGcm.{RoomKey, export_room_key, Crypto, import_room_key}
use private_chat.E2ee.AesGcm.Keys.{import-export}
use private_chat.Invite.{parse_invite, strip_prefix}
use private_chat.Invite.Links.{is_origin, link_of}
use private_chat.App.{Session, App, channel_id_of, channel_id, in_history, sidebar_rooms}
use private_chat.App.Gate.{
  through, begin_connect, in_link, open_session, end_connect, ask_nick, Connecting,
}
use private_chat.App.Gate.Beginning.{IsOpening}
use private_chat.App.Gate.Opening.{IsOpened, connect_effect-IsOpened}
use private_chat.App.Rotate.{Rotation, send_rotation, copied_link}
use private_chat.App.Rotate.Keys.{IsRotated, send_rotation-IsRotated}
use private_chat.App.Rotate.Link.{parse_invite-copied_link}
use private_chat.App.Leave.{closed_session, leave_room}
use private_chat.App.Leave.Forgets.{
  IsForgotten, IsSameRoom, leave_room-IsForgotten, leave_room-IsSameRoom,
}
use private_chat.App.Leave.Late.{left_room-reopened}
use private_chat.App.Announce.{AnnounceRandom, announce}
use private_chat.App.Announce.Quiet.{announce-quiet}
use private_chat.App.Shown.{entry_ids, sidebar_rooms-once}
use private_chat.Tests.Fixtures.{
  naturals, tagging, trusting, idle_handlers, zeros, zero_key, room, room_store, linked,
}

abbrev origin : Text
origin = codes "https://chat.example"

-- 32 zero bytes
abbrev key_text : Text
key_text = replicate 43 b'A'

abbrev home : App ℕ
home = record {
  location = record { origin = origin; pathname = codes "/"; search = []; hash = [] };
  path = codes "/";
  pending_hash_key = none;
  stores = [];
  left = [];
  input = [];
  join_input = [];
  creating = false;
  create_error = none;
  key_input = [];
  key_error = none;
  copy_feedback = none;
  rotating = false;
  drawer_open = false;
  create_room_name = [];
  create_nick = [];
  join_pending_id = none;
  join_pending_key = none;
  join_nick = [];
  join_error = none;
  join_creating = false;
  room_history = [];
  room_keys = [];
  room_key_b64 = [];
  room_names = [];
  self_nicks = [];
  peer_nicks = [];
  editing_room_name = false;
  room_name_draft = [];
  editing_nick = false;
  nick_draft = [];
  peek_store = none;
  last_online_by_room = [];
  last_broadcast_nick_by_room = [];
  last_broadcast_room_name_by_room = [];
  alerts = [];
  clipboard = [];
}

abbrev room_session : Session ℕ
room_session = record { store = room_store; transport = linked }

-- A page in the room, with its key, the own nick and a peer's.
abbrev in_room : App ℕ
in_room = record home {
  path = codes "/r/room";
  stores = (room, room_session) ∷ [];
  room_keys = (room, zero_key) ∷ [];
  room_key_b64 = (room, key_text) ∷ [];
  self_nicks = (room, codes "ann") ∷ [];
  peer_nicks = (codes "room:u1", codes "bob") ∷ [];
}

in_room-shown : channel_id in_room ≡ room
unfolding channel_id_of strip_prefix split
in_room-shown = refl

room-valid : is_channel_id room ≡ true
unfolding is_channel_id is_b64url_char
room-valid = refl

leave_room-IsForgotten_example :
    IsForgotten (channel_id in_room) (leave_room naturals idle_handlers in_room)
    × ((leave_room naturals idle_handlers in_room).left
        ≡ in_room.left
          ++ closed_session naturals idle_handlers (map_get in_room.stores (channel_id in_room)))
    × ((leave_room naturals idle_handlers in_room).path ≡ codes "/")
leave_room-IsForgotten_example =
    leave_room-IsForgotten naturals idle_handlers in_room (ap is_truthy in_room-shown)

shown-valid : is_channel_id (channel_id in_room) ≡ true
shown-valid = ap is_channel_id in_room-shown ∙ room-valid

other-valid : is_channel_id (codes "other") ≡ true
unfolding is_channel_id is_b64url_char
other-valid = refl

room-other : text_eq room (codes "other") ≡ false
unfolding text_eq
room-other = refl

leave_room-IsSameRoom_example :
    IsSameRoom (codes "other") (leave_room naturals idle_handlers in_room) in_room
leave_room-IsSameRoom_example =
    leave_room-IsSameRoom naturals idle_handlers (codes "other") in_room shown-valid other-valid
      (ap (λ id. text_eq id (codes "other")) in_room-shown ∙ room-other)

abbrev zero_import :
    (s : Text) × (export_room_key zero_key ≡ ok s)
    × (is_room_key_b64 s ≡ true)
    × (import_room_key true s ≡ ok (record { raw = replicate 32 0; extractable = false }))
zero_import = import-export (replicate 32 0) (omega arith) refl

abbrev imported_key : RoomKey
imported_key = record { raw = replicate 32 0; extractable = false }

left_room-reopened_example :
    let id = channel_id in_room in
    let b =
      end_connect naturals idle_handlers tagging true
        (record { id = id; source = in_link zero_import.0 })
        (leave_room naturals idle_handlers in_room) in
    (crypto : Crypto) × (map_get b.stores id ≡ some (open_session naturals idle_handlers id crypto))
    × (map_get b.room_key_b64 id ≡ some zero_import.0)
    × (map_get b.self_nicks id ≡ none)
    × (b.path ≡ codes "/")
left_room-reopened_example =
    left_room-reopened naturals idle_handlers tagging in_room zero_import.0 imported_key shown-valid
      zero_import.3

in_room-stored : map_get in_room.stores (channel_id in_room) ≡ some room_session
unfolding channel_id_of strip_prefix split map_get text_eq
in_room-stored = refl

abbrev rotation : Rotation
rotation = record { new = record { key = imported_key; b64 = zero_import.0 }; wrapped = codes "x" }

send_rotation-IsRotated_example :
    IsRotated naturals idle_handlers tagging true rotation in_room room_session in_room-stored
      (send_rotation naturals idle_handlers tagging true (ok rotation) in_room)
send_rotation-IsRotated_example =
    send_rotation-IsRotated naturals idle_handlers tagging true rotation in_room room_session
      in_room-stored shown-valid zero_import.3

in_room-key : map_get in_room.room_key_b64 (channel_id in_room) ≡ some key_text
unfolding channel_id_of strip_prefix split map_get text_eq
in_room-key = refl

key-is_room_key_b64 : is_room_key_b64 key_text ≡ true
unfolding is_room_key_b64 is_b64url_char
key-is_room_key_b64 = refl

origin-is_origin : is_origin origin ≡ true
unfolding strip_prefix
origin-is_origin = refl

h-is_space : is_space b'h' ≡ false
unfolding is_space
h-is_space = refl

parse_invite-copied_link_example :
    parse_invite (copied_link in_room) ≡ record { id = channel_id in_room; key = some key_text }
parse_invite-copied_link_example =
    parse_invite-copied_link in_room b'h' (codes "ttps://chat.example") key_text refl h-is_space
      origin-is_origin shown-valid in_room-key key-is_room_key_b64

connect_effect-IsOpened_example :
    let a' = through (begin_connect in_room) (end_connect naturals idle_handlers tagging true) in
    (a' ≡ in_room)
    ⊎ (a' ≡ ask_nick (channel_id in_room) in_room)
    ⊎ ((c : Connecting) × IsOpening in_room c
        × IsOpened naturals idle_handlers tagging true c in_room a')
connect_effect-IsOpened_example =
    connect_effect-IsOpened naturals idle_handlers tagging true in_room

-- A page whose field holds an invite link.
abbrev invited : App ℕ
invited = record home { join_input = link_of origin room key_text }

-- A page whose form for a new room is filled in.
abbrev filled : App ℕ
filled = record home { create_room_name = codes "plan"; create_nick = codes "ann" }

alone : set_has [] room ≡ false
unfolding set_has
alone = refl

less_irreflexive : (x : ℕ) → ltb x x ≡ false
less_irreflexive x = ground arith

abbrev announce_random : Text → AnnounceRandom
announce_random id = record { for_nick = zeros; for_name = zeros }

-- The room reports two members.
abbrev two_members : App ℕ
two_members = record in_room {
  stores = (room, record room_session { store = record room_store { online = some 2 } }) ∷ [];
}

announce-quiet_example :
    let b = (announce naturals idle_handlers trusting tagging true announce_random two_members).0 in
    ((announce naturals idle_handlers trusting tagging true announce_random b).1 ≡ [])
    × (b.stores ≡ two_members.stores)
announce-quiet_example =
    announce-quiet naturals idle_handlers trusting tagging true less_irreflexive announce_random
      announce_random two_members (alone, tt)

abbrev visited : App ℕ
visited = record in_room {
  room_history = record { id = codes "old"; online = 0; connected = false } ∷ [];
}

not_again : in_history (codes "old") [] ≡ false
unfolding in_history
not_again = refl

sidebar_rooms-once_example :
    IsDistinct (entry_ids (sidebar_rooms visited))
    × ((id : Text)
        → set_has (entry_ids (sidebar_rooms visited)) id
          ≡ (map_has visited.stores id || in_history id visited.room_history))
sidebar_rooms-once_example = sidebar_rooms-once visited (alone, tt) (not_again, tt)
