-- ===== src/Tests/Protocol.antt =====
-- The codec, and the budget of a message, on concrete data.
use private_chat.Prelude.{ℕ, ◌≤◌, ◌≡◌, refl, ◌↔◌, true, false, none, arith, length}
use private_chat.Result.{ok}
use private_chat.Text.{Text, codes, text_eq, is_b64url_char}
use private_chat.Text.Utf8.{
  utf8_encode, utf8_length, points_from, emit, pending, bytes_of, bytes_of_points,
}
use private_chat.Text.Utf8.Decoding.{IsWellFormed}
use private_chat.Collections.{map_get}
use private_chat.Json.{str, Fields, end, field, obj, get, parse, parse_value, parse_fields}
use private_chat.Json.Scan.{
  skip_spaces, lead, after_literal, scan_char, scan_string_from, scan_string,
}
use private_chat.Json.Print.{stringify}
use private_chat.E2ee.Envelope.{is_channel_id}
use private_chat.E2ee.AesGcm.{aes_gcm_encrypt}
use private_chat.E2ee.AesGcm.RoundTrip.{decrypt-encrypt}
use private_chat.Codec.{
  message, Frame, client_types, server_types, has_type, is_client_message, encode_check,
  decode_check, encode, decode, tag_kind, kind_of, encode_case, max_payload, max_inner_utf8,
  assert_channel_id, decode_case, decode_relay, want_string,
}
use private_chat.Codec.Checks.{encode_check-iff_decode_check}
use private_chat.Transport.{send_raw, create}
use private_chat.Channel.{new_store}
use private_chat.Channel.Send.{payload_json, send_inner, send_json}
use private_chat.Channel.Budget.{HasAesGcm, envelope_fits, send_inner-answer, send_json-unsent}
use private_chat.Tests.Fixtures.{
  naturals, tagging, zeros, zeros-IsRandom, zero_key, room, room_store, fresh_link, linked,
  idle_handlers,
}

abbrev join : Fields ℕ
join = field (codes "type") (str (codes "join_channel")) (field (codes "channelId") (str room) end)

join-is_client_message : is_client_message join ≡ true
unfolding is_client_message has_type client_types map_get text_eq get
join-is_client_message = refl

encode_check-iff_decode_check_example :
    (encode_check naturals (obj join) ≡ ok tt)
    ↔ ((f : Frame naturals) × (decode_check naturals (obj join) ≡ ok f) × (f.object ≡ join))
encode_check-iff_decode_check_example =
    encode_check-iff_decode_check naturals join join-is_client_message

join-encodes : encode naturals (obj join) ≡ ok (stringify naturals (obj join))
unfolding encode encode_check tag_kind kind_of client_types server_types map_get text_eq get
    encode_case assert_channel_id is_channel_id is_b64url_char
join-encodes = refl

abbrev raw_message : Text
raw_message =
    codes "{\"type\":\"message\",\"channelId\":\"room\",\"payload\":\"x\",\"from\":\"u1\"}"

abbrev message_frame : Frame naturals
message_frame = record {
  kind = message;
  object = field (codes "type") (str (codes "message")) (
      field (codes "channelId") (str room)
        (field (codes "payload") (str (codes "x")) (field (codes "from") (str (codes "u1")) end)));
}

raw_message-decodes : decode naturals raw_message ≡ ok message_frame
unfolding decode decode_check tag_kind kind_of client_types server_types map_get text_eq get
    decode_case decode_relay want_string parse parse_value parse_fields skip_spaces lead
    after_literal scan_char scan_string_from scan_string
raw_message-decodes = refl

room-is_channel_id : is_channel_id room ≡ true
unfolding is_channel_id is_b64url_char
room-is_channel_id = refl

hi-IsWellFormed : IsWellFormed (codes "hi")
unfolding pending
hi-IsWellFormed = record { narrow = omega arith; paired = refl }

sealed_hi :
    (out : Text) × (aes_gcm_encrypt tagging true zero_key room (codes "hi") none zeros ≡ ok out)
sealed_hi =
    let (out, e, _) =
      decrypt-encrypt tagging zero_key room (codes "hi") none zeros zeros-IsRandom tt
        hi-IsWellFormed refl in
    (out, e)

hi_within : utf8_length (codes "hi") ≤ max_inner_utf8
unfolding utf8_length utf8_encode points_from emit pending bytes_of bytes_of_points
hi_within = omega arith

envelope_fits_example : length sealed_hi.0 ≤ max_payload
envelope_fits_example =
    envelope_fits tagging zero_key room true (codes "hi") none zeros sealed_hi.0 zeros-IsRandom
      hi-IsWellFormed.narrow tt hi_within sealed_hi.1

room_store-HasAesGcm : HasAesGcm naturals idle_handlers tagging zero_key room_store
unfolding new_store
room_store-HasAesGcm = record { id_valid = room-is_channel_id; cipher = refl }

room_store-encrypts : room_store.crypto.encrypt (codes "hi") none zeros ≡ ok sealed_hi.0
unfolding new_store
room_store-encrypts = sealed_hi.1

send_inner-answer_example :
    let raw =
      stringify naturals (payload_json (codes "send_message") room_store.channel_id sealed_hi.0) in
    let out = send_inner naturals idle_handlers (codes "hi") none zeros room_store linked in
    (out.transport ≡ (send_raw idle_handlers raw linked).0)
    × (out.answer ≡ (send_raw idle_handlers raw linked).1)
send_inner-answer_example =
    send_inner-answer naturals idle_handlers tagging zero_key (codes "hi") none zeros room_store
      linked sealed_hi.0 room_store-HasAesGcm zeros-IsRandom hi-IsWellFormed.narrow tt hi_within
      room_store-encrypts

fresh-unsent : (send_json naturals idle_handlers (obj join) room_store fresh_link).answer ≡ false
unfolding send_json send_raw create
fresh-unsent = rw (send_json, join-encodes) refl

send_json-unsent_example :
    (send_json naturals idle_handlers (obj join) room_store fresh_link).transport ≡ fresh_link
send_json-unsent_example =
    send_json-unsent naturals idle_handlers (obj join) room_store fresh_link fresh-unsent
