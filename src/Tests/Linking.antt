-- ===== src/Tests/Linking.antt =====
-- Invite links on concrete data.
use private_chat.Prelude.{◌≡◌, refl, true, false, some, ◌∷◌, replicate}
use private_chat.Text.{Text, codes, is_space, is_b64url_char}
use private_chat.E2ee.Envelope.{is_channel_id, is_room_key_b64}
use private_chat.Invite.{parse_invite, strip_prefix}
use private_chat.Invite.Links.{is_origin, link_of, parse_invite-link}
use private_chat.Tests.Fixtures.{room}

abbrev key_text : Text
key_text = replicate 43 b'A'

key-is_room_key_b64 : is_room_key_b64 key_text ≡ true
unfolding is_room_key_b64 is_b64url_char
key-is_room_key_b64 = refl

room-is_channel_id : is_channel_id room ≡ true
unfolding is_channel_id is_b64url_char
room-is_channel_id = refl

abbrev origin : Text
origin = codes "ttps://chat.example"

origin-is_origin : is_origin (b'h' ∷ origin) ≡ true
unfolding strip_prefix
origin-is_origin = refl

h-is_space : is_space b'h' ≡ false
unfolding is_space
h-is_space = refl

parse_invite-link_example :
    parse_invite (link_of (b'h' ∷ origin) room key_text) ≡ record { id = room; key = some key_text }
parse_invite-link_example =
    parse_invite-link b'h' origin room key_text h-is_space origin-is_origin room-is_channel_id
      key-is_room_key_b64
