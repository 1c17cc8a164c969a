-- ===== src/Tests/Delivery.antt =====
-- A message on its way from one store to another, on concrete data.
use private_chat.Prelude.{
  ℕ, ◌≤◌, ◌≡◌, refl, sym, subst, ◌∙◌, true, false, some, [], arith, replicate,
}
use private_chat.Text.{Text, codes, text_eq, trim, includes, is_b64url_char}
use private_chat.Text.Utf8.{
  utf8_length, utf8_encode, points_from, emit, pending, bytes_of, bytes_of_points,
}
use private_chat.Json.{Fields, end, field, str, get}
use private_chat.Json.Print.{stringify, quote, quote_from, quote_at, quote_unit}
use private_chat.Text.Decimal.{decimal}
use private_chat.E2ee.Base64.{
  base64_url_encode, btoa, sextets, strip_padding, to_url, char_of, padding,
}
use private_chat.E2ee.Names.{is_valid_nick}
use private_chat.Identity.{
  Identity, sign_identity, wrap_signed_message, SignedMessagePayload, signed_message_json,
}
use private_chat.Identity.Verified.{identity_of, generate_total}
use private_chat.Channel.{ChannelStore, new_store, is_replay, text_of}
use private_chat.Codec.{max_inner_utf8}
use private_chat.E2ee.ReplayCache.{create, has}
use private_chat.Collections.{set_has}
use private_chat.E2ee.Envelope.{is_channel_id}
use private_chat.Channel.Send.{Fresh, new_message_id_b64, nick_or_anonymous, inner_of}
use private_chat.Channel.Receive.{payload_of}
use private_chat.Channel.Delivery.{SharesRoom, IsSendable, IsDelivered, send_message-IsDelivered}
use private_chat.Json.Read.{is_truthy_value}
use private_chat.E2ee.Envelope.{is_room_key_b64}
use private_chat.Channel.Delivery.Rotation.{IsRotationDelivered, rotation-IsDelivered}
use private_chat.Tests.Fixtures.{
  naturals, tagging, trusting, idle_handlers, zeros, zeros-IsRandom, zero_key, room, room_store,
  linked,
}

abbrev al : Identity
al = identity_of trusting []

al-pub : al.pub_b64 ≡ replicate 43 b'A'
unfolding base64_url_encode strip_padding btoa sextets to_url char_of padding
al-pub = refl

al_signs : (d : Text) → sign_identity trusting [] d ≡ replicate 86 b'A'
unfolding sign_identity base64_url_encode strip_padding btoa sextets to_url char_of padding
al_signs d = refl

-- The signed message that is sent.
abbrev signed_hi : SignedMessagePayload
signed_hi = record {
  text = codes "hi";
  nick = codes "Al";
  pk = replicate 43 b'A';
  sig = replicate 86 b'A';
}

wraps_hi :
    (mid : Text)
    → wrap_signed_message naturals trusting al room mid (codes "hi") (codes "Al")
      ≡ stringify naturals (signed_message_json naturals signed_hi)
unfolding wrap_signed_message
wraps_hi mid = rw (al-pub, al_signs) refl

signed_hi_within :
    utf8_length (stringify naturals (signed_message_json naturals signed_hi)) ≤ max_inner_utf8
unfolding utf8_length utf8_encode points_from emit pending bytes_of bytes_of_points stringify quote
    quote_from quote_at quote_unit decimal
signed_hi_within = omega arith

abbrev fresh : Fresh
fresh = record { message_id = replicate 16 0; encryption = zeros }

abbrev sender : ChannelStore ℕ
sender = record room_store { identity = some al }

hi_inner :
    (inner_of naturals idle_handlers trusting (codes "hi") (codes "Al") fresh.message_id sender).0
    ≡ wrap_signed_message naturals trusting al room
        (new_message_id_b64 fresh.message_id)
        (codes "hi")
        (codes "Al")
unfolding inner_of nick_or_anonymous trim new_store
hi_inner = refl

hi_within :
    utf8_length
      (inner_of naturals idle_handlers trusting (codes "hi") (codes "Al") fresh.message_id sender).0
    ≤ max_inner_utf8
hi_within =
    subst (λ t. utf8_length t ≤ max_inner_utf8)
      (sym (hi_inner ∙ wraps_hi (new_message_id_b64 fresh.message_id))) signed_hi_within

hi-IsSendable :
    IsSendable naturals idle_handlers trusting tagging [] (codes "hi") (codes "Al") fresh sender
unfolding is_valid_nick trim includes nick_or_anonymous
hi-IsSendable = record {
  signer = al;
  joined = refl;
  generated = generate_total trusting [];
  some_text = refl;
  text_units = omega arith;
  nick_units = omega arith;
  nick_valid = refl;
  mid_bytes = omega arith;
  mid_length = refl;
  drawn = zeros-IsRandom;
  fits = hi_within;
}

hi-SharesRoom : SharesRoom naturals idle_handlers trusting tagging zero_key sender room_store
unfolding new_store is_channel_id is_b64url_char
hi-SharesRoom = record {
  sealing = record { id_valid = refl; cipher = refl };
  same_channel = refl;
  opening = refl;
}

-- The frame that the relay makes of a payload.
abbrev relay : Text → Fields ℕ
relay payload = field (codes "type") (str (codes "message")) (
    field (codes "channelId") (str room)
      (field (codes "payload") (str payload) (field (codes "from") (str (codes "u1")) end)))

relay_keeps : (payload : Text) → payload_of (relay payload) ≡ payload
unfolding text_of get text_eq
relay_keeps payload = refl

new_to_room : is_replay (some (new_message_id_b64 fresh.message_id)) room_store ≡ false
unfolding new_store is_replay create has set_has new_message_id_b64 base64_url_encode strip_padding
    btoa sextets to_url char_of
new_to_room = refl

send_message-IsDelivered_example :
    IsDelivered naturals idle_handlers trusting tagging
      (codes "hi")
      (codes "Al")
      fresh
      relay
      true
      5
      6
      hi-IsSendable.signer.pub_b64
      sender
      room_store
      linked
send_message-IsDelivered_example =
    send_message-IsDelivered naturals idle_handlers trusting tagging zero_key [] (codes "hi")
      (codes "Al") fresh sender hi-IsSendable room_store linked relay true 5 6 hi-SharesRoom
      relay_keeps new_to_room

not_own : (payload : Text) → is_truthy_value naturals (get (relay payload) (codes "self")) ≡ false
unfolding is_truthy_value get text_eq
not_own payload = refl

new_key_to_room : is_replay (some (base64_url_encode zeros.message_id)) room_store ≡ false
unfolding new_store is_replay create has set_has base64_url_encode strip_padding btoa sextets to_url
    char_of
new_key_to_room = refl

key_text-is_room_key_b64 : is_room_key_b64 (replicate 43 b'A') ≡ true
unfolding is_room_key_b64 is_b64url_char
key_text-is_room_key_b64 = refl

rotation-IsDelivered_example :
    IsRotationDelivered naturals idle_handlers trusting tagging
      (replicate 43 b'A')
      zeros
      relay
      5
      6
      sender
      room_store
rotation-IsDelivered_example =
    rotation-IsDelivered naturals idle_handlers trusting tagging zero_key (replicate 43 b'A') zeros
      relay 5 6 sender room_store hi-SharesRoom key_text-is_room_key_b64 zeros-IsRandom relay_keeps
      not_own new_key_to_room
