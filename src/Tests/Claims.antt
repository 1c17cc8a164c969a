-- ===== src/Tests/Claims.antt =====
-- Signed claims on concrete data.
use private_chat.Prelude.{
  ℕ, ◌≡◌, refl, ◌≢◌, ◌⊎◌, true, false, some, [], ◌∷◌, ◌++◌, arith, replicate,
}
use private_chat.Result.{ok}
use private_chat.Text.{
  Text, codes, text_eq, is_b64url, is_b64url_char, starts_with, is_space, trim_start, trim,
  includes,
}
use private_chat.Text.Utf8.{utf8_encode, pending}
use private_chat.Text.Utf8.Decoding.{IsWellFormed}
use private_chat.Collections.{map_get}
use private_chat.Json.{get, parse, parse_value, parse_fields}
use private_chat.Json.Scan.{
  skip_spaces, lead, after_literal, scan_char, scan_string_from, scan_string, scan_number,
  scan_number_from, int_place, advance,
}
use private_chat.Text.Decimal.{value}
use private_chat.E2ee.Envelope.{is_channel_id, is_room_key_b64}
use private_chat.E2ee.Base64.{
  value_of, from_url, drop_spaces, drop_pad, values, join_sextets, decode_unpadded, atob,
  pad_to_four, base64_url_decode,
}
use private_chat.E2ee.Names.{is_valid_nick}
use private_chat.Identity.{
  message_sig_data, nick_sig_data, SignedMessagePayload, parse_object, read_signed_message,
  parse_signed_message, is_identity_pub_b64, fp_of, verify_identity, verify_decoded,
  verify_signed_message,
}
use private_chat.Identity.Framing.{message_sig_data_injective, message-ne-nick}
use private_chat.Channel.{MessageIdent, verified, record_identity, differs, new_store}
use private_chat.Channel.Receive.{shown, read_plain, read_signed}
use private_chat.Channel.Authentic.{IsAuthentic, shown-IsAuthentic}
use private_chat.Json.{Fields, end, field, str}
use private_chat.Json.Read.{is_truthy_value}
use private_chat.Channel.{text_of, from_frame}
use private_chat.View.{RoomView, peer_name, display_nick}
use private_chat.View.Shown.{display_nick-IsAuthentic}
use private_chat.Tests.Fixtures.{naturals, trusting, tagging, room, mid_text, room_store}

room-is_channel_id : is_channel_id room ≡ true
unfolding is_channel_id is_b64url_char
room-is_channel_id = refl

mid-is_b64url : is_b64url mid_text ≡ true
unfolding is_b64url is_b64url_char
mid-is_b64url = refl

ann-IsWellFormed : IsWellFormed (codes "ann")
unfolding pending
ann-IsWellFormed = record { narrow = omega arith; paired = refl }

hi-IsWellFormed : IsWellFormed (codes "hi")
unfolding pending
hi-IsWellFormed = record { narrow = omega arith; paired = refl }

message_sig_data_injective_example :
    (room ≡ room) × (mid_text ≡ mid_text) × (codes "ann" ≡ codes "ann") × (codes "hi" ≡ codes "hi")
message_sig_data_injective_example =
    message_sig_data_injective room room mid_text mid_text (codes "ann") (codes "ann") (codes "hi")
      (codes "hi") room-is_channel_id room-is_channel_id mid-is_b64url mid-is_b64url
      ann-IsWellFormed ann-IsWellFormed hi-IsWellFormed hi-IsWellFormed refl

message-ne-nick_example :
    utf8_encode (message_sig_data room mid_text (codes "ann") (codes "hi"))
    ≢ utf8_encode (nick_sig_data room (codes "ann"))
message-ne-nick_example =
    message-ne-nick room room mid_text (codes "ann") (codes "ann") (codes "hi") room-is_channel_id
      room-is_channel_id mid-is_b64url

abbrev key_text : Text
key_text = replicate 43 b'A'

-- A signed message of `key_text`, with a signature of 64 zero bytes.
abbrev signed_hi : Text
signed_hi =
    codes "{\"t\":\"msg\",\"v\":2,\"text\":\"hi\",\"nick\":\"ann\",\"pk\":\""
    ++ (key_text ++ (codes "\",\"sig\":\"" ++ (replicate 86 b'A' ++ codes "\"}")))

abbrev hi_payload : SignedMessagePayload
hi_payload = record {
  text = codes "hi";
  nick = codes "ann";
  pk = key_text;
  sig = replicate 86 b'A';
}

abbrev ann : MessageIdent
ann = record { fp = replicate 10 b'A'; nick = some (codes "ann"); pk = key_text; status = verified }

signed_hi-parses : parse_signed_message naturals signed_hi ≡ some hi_payload
unfolding parse_signed_message parse_object starts_with read_signed_message parse parse_value
    parse_fields skip_spaces lead after_literal scan_char scan_string_from scan_string scan_number
    scan_number_from int_place advance value get text_eq is_valid_nick is_space trim_start trim
    includes is_identity_pub_b64 is_room_key_b64 is_b64url is_b64url_char
signed_hi-parses = refl

hi_payload-verifies : verify_signed_message trusting room mid_text hi_payload ≡ true
unfolding verify_signed_message verify_identity verify_decoded is_identity_pub_b64 is_room_key_b64
    is_b64url is_b64url_char value_of from_url drop_spaces drop_pad values join_sextets
    decode_unpadded atob pad_to_four base64_url_decode
hi_payload-verifies = refl

signed_hi-shown :
    (read_plain naturals trusting tagging (some mid_text) (ok signed_hi) room_store).1
    ≡ shown (codes "hi") (some ann)
unfolding read_plain read_signed record_identity new_store differs map_get fp_of
signed_hi-shown = rw (read_plain, signed_hi-parses, hi_payload-verifies) refl

shown-IsAuthentic_example :
    IsAuthentic naturals trusting tagging (some mid_text) (ok signed_hi) room_store (codes "hi") ann
shown-IsAuthentic_example =
    shown-IsAuthentic naturals trusting tagging (some mid_text) (ok signed_hi) room_store
      (codes "hi") ann signed_hi-shown (ground arith)

abbrev peer_view : RoomView
peer_view = record {
  room_id = room;
  peer_nicks = (codes "room:u1", codes "bob") ∷ [];
  self_nicks = [];
}

abbrev peer_frame : Fields ℕ
peer_frame = field (codes "from") (str (codes "u1")) end

peer_frame_from : text_eq (text_of peer_frame (codes "from")) (codes "system") ≡ false
unfolding text_of get text_eq
peer_frame_from = refl

peer_frame_self : is_truthy_value naturals (get peer_frame (codes "self")) ≡ false
unfolding is_truthy_value get text_eq
peer_frame_self = refl

display_nick-IsAuthentic_example :
    let name = display_nick naturals peer_view (from_frame peer_frame (codes "hi") 5 (some ann)) in
    (name ≡ peer_name naturals peer_view (text_of peer_frame (codes "from")))
    ⊎ ((i : MessageIdent) × (some ann ≡ some i)
        × IsAuthentic naturals trusting tagging
            (some mid_text)
            (ok signed_hi)
            room_store
            (codes "hi")
            i
        × (i.nick ≡ some name))
display_nick-IsAuthentic_example =
    display_nick-IsAuthentic naturals trusting tagging peer_view (some mid_text) (ok signed_hi)
      room_store peer_frame 5 (codes "hi") (some ann) signed_hi-shown peer_frame_from
      peer_frame_self
