-- ===== src/App/Address.antt =====
-- The addresses of rooms in frontend/src/App.svelte.
use private_chat.Prelude.{ℕ, ◌≡◌, refl, true, false, [], ◌∷◌, arith, all}
use private_chat.Text.{Text, split, includes, is_b64url_char}
use private_chat.Text.Laws.{split_none}
use private_chat.E2ee.Envelope.{is_channel_id}
use private_chat.Invite.{strip_prefix}
use private_chat.App.{Location, channel_id_of, is_room_path, room_path, first_part, resolve}

class-includes :
    (s : Text) (sep : ℕ)
    → all is_b64url_char s ≡ true
    → is_b64url_char sep ≡ false
    → includes sep s ≡ false
unfolding includes
class-includes [] sep h e = refl
class-includes (c ∷ s) sep h e = ground (arith, class-includes s sep)

first_part-class :
    (s : Text) (sep : ℕ)
    → all is_b64url_char s ≡ true
    → is_b64url_char sep ≡ false
    → first_part sep s ≡ s
first_part-class s sep h e = rw (first_part, split_none sep s (class-includes s sep h e)) refl

pub class_of_id : (id : Text) → is_channel_id id ≡ true → all is_b64url_char id ≡ true
unfolding is_channel_id
class_of_id id h = ground arith

pub channel_id_of-room_path :
    (id : Text) → is_channel_id id ≡ true → channel_id_of (room_path id) ≡ id
unfolding channel_id_of room_path strip_prefix is_b64url_char
channel_id_of-room_path id h =
    let class = class_of_id id h in
    rw
      (
        first_part-class id b'/' class refl,
        first_part-class id b'?' class refl,
        first_part-class id b'#' class refl,
      )
      refl

pub is_room_path-room_path : (id : Text) → is_room_path (room_path id) ≡ true
unfolding room_path strip_prefix
is_room_path-room_path id = refl

-- The address behind a navigation to a room.
pub resolve-room_path :
    (id : Text) (here : Location)
    → is_channel_id id ≡ true
    → resolve (room_path id) here
      ≡ record { origin = here.origin; pathname = room_path id; search = []; hash = [] }
unfolding resolve room_path includes is_b64url_char
resolve-room_path id here h =
    let class = class_of_id id h in
    let hash : split b'#' (room_path id) ≡ room_path id ∷ [] =
      split_none b'#' (room_path id) (class-includes id b'#' class refl) in
    let query : split b'?' (room_path id) ≡ room_path id ∷ [] =
      split_none b'?' (room_path id) (class-includes id b'?' class refl) in
    rw (resolve, first_part, hash, query) refl

-- A path whose room is not empty is the path of a room.
pub is_room_path-channel_id :
    (path : Text) → is_channel_id (channel_id_of path) ≡ true → is_room_path path ≡ true
unfolding channel_id_of is_channel_id
is_room_path-channel_id path h = ground arith
