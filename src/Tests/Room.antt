-- ===== src/Tests/Room.antt =====
-- A room that receives frames, on concrete data.
use private_chat.Prelude.{ℕ, ◌≡◌, refl, ap, ◌∙◌, true, false, none, some, [], ◌∷◌, ◌++◌, arith}
use private_chat.Result.{ok}
use private_chat.Text.{Text, codes, text_eq, is_b64url, is_b64url_char, starts_with, split}
use private_chat.Text.Utf8.{pending}
use private_chat.Text.Utf8.Decoding.{IsWellFormed}
use private_chat.Collections.{map_get, set_has}
use private_chat.Json.{Fields, str, field, end, get}
use private_chat.E2ee.Envelope.{is_valid_envelope, extract_message_id_b64, parts_valid, second_part}
use private_chat.E2ee.Base64.{
  value_of, from_url, drop_spaces, drop_pad, values, join_sextets, decode_unpadded, atob,
  pad_to_four, base64_url_decode,
}
use private_chat.E2ee.ReplayCache.{create, has}
use private_chat.E2ee.AesGcm.{aes_gcm_encrypt}
use private_chat.E2ee.AesGcm.RoundTrip.{decrypt-encrypt, encrypt-valid}
use private_chat.Identity.{
  parse_signed_message, stale_signed_message_pk, is_unknown_structured_payload, parse_object,
}
use private_chat.Channel.{ChannelStore, new_store, text_of, is_replay, from_frame}
use private_chat.Channel.Receive.{
  payload_of, mid_of, open_message, receive_message, receive, resume,
}
use private_chat.Channel.Replay.{IsRaw, overlap_shown_twice}
use private_chat.Channel.Replay.Runs.{IsSound, new_world, reachable-IsSound}
use private_chat.Channel.Pins.{Pinned}
use private_chat.Channel.Pins.Runs.{pin_kept}
use private_chat.Channel.World.{World, Reach, at_start, next, arrives, queued}
use private_chat.Tests.Fixtures.{
  naturals, trusting, tagging, zeros, zeros-IsRandom, zero_key, room, mid_text, envelope,
  room_store, room_crypto,
}

hi-IsWellFormed : IsWellFormed (codes "hi")
unfolding pending
hi-IsWellFormed = record { narrow = omega arith; paired = refl }

-- An envelope of "hi", and what `encrypt` and `decrypt` say of it.
sealed_hi :
    (out : Text) × (aes_gcm_encrypt tagging true zero_key room (codes "hi") none zeros ≡ ok out)
    × (room_store.crypto.decrypt out ≡ ok (codes "hi"))
unfolding new_store
sealed_hi =
    decrypt-encrypt tagging zero_key room (codes "hi") none zeros zeros-IsRandom tt hi-IsWellFormed
      refl

-- A message frame of a peer.
abbrev frame_of : Text → Fields ℕ
frame_of p = field (codes "type") (str (codes "message")) (
    field (codes "channelId") (str room)
      (field (codes "payload") (str p) (field (codes "from") (str (codes "u1")) end)))

payload_of-frame_of : (p : Text) → payload_of (frame_of p) ≡ p
unfolding text_of get text_eq
payload_of-frame_of p = refl

abbrev hi_frame : Fields ℕ
hi_frame = frame_of sealed_hi.0

hi_frame-valid : is_valid_envelope (payload_of hi_frame) ≡ true
hi_frame-valid =
    rw (payload_of-frame_of sealed_hi.0)
      (encrypt-valid tagging zero_key room true (codes "hi") none zeros sealed_hi.0 zeros-IsRandom
        hi-IsWellFormed.narrow sealed_hi.1).0

-- A frame that is no message has arrived before.
abbrev later_world : World ℕ
later_world =
    let (s, job) = receive naturals trusting tagging true 5 (codes "{}") room_store in
    record { store = s; jobs = queued job [] }

reached :
    Reach naturals trusting tagging
      (new_world naturals trusting tagging room room_crypto)
      later_world
reached =
    next at_start
      (arrives true 5 (codes "{}") (new_world naturals trusting tagging room room_crypto))

reachable-IsSound_example : IsSound later_world.store.replay_cache
reachable-IsSound_example = reachable-IsSound naturals trusting tagging room room_crypto reached

hi_frame-mid : (mid : Text) × (mid_of hi_frame ≡ some mid)
hi_frame-mid =
    let (_, mid, e, _) =
      encrypt-valid tagging zero_key room true (codes "hi") none zeros sealed_hi.0 zeros-IsRandom
        hi-IsWellFormed.narrow sealed_hi.1 in
    (mid, ap extract_message_id_b64 (payload_of-frame_of sealed_hi.0) ∙ e)

abbrev zero_frame : Fields ℕ
zero_frame = frame_of envelope

zero_frame-valid : is_valid_envelope (payload_of zero_frame) ≡ true
unfolding text_of get text_eq is_valid_envelope parts_valid split is_b64url is_b64url_char value_of
    from_url drop_spaces drop_pad values join_sextets decode_unpadded atob pad_to_four
    base64_url_decode
zero_frame-valid = refl

-- A room that has seen that envelope.
abbrev seen_store : ChannelStore ℕ
seen_store = record room_store {
  replay_cache = record { seen = mid_text ∷ []; queue = mid_text ∷ []; max = 1000 };
}

zero_frame-seen : is_replay (mid_of zero_frame) seen_store ≡ true
unfolding text_of get text_eq extract_message_id_b64 second_part split is_replay has set_has
zero_frame-seen = refl

hi-IsRaw : IsRaw naturals trusting tagging (codes "hi")
unfolding parse_signed_message stale_signed_message_pk is_unknown_structured_payload parse_object
    starts_with
hi-IsRaw = record { unsigned = refl; not_stale = refl; unstructured = refl }

unseen : is_replay (mid_of hi_frame) room_store ≡ false
unfolding is_replay new_store create has set_has
unseen = rw hi_frame-mid.1 (ground arith)

overlap_shown_twice_example :
    let job = open_message hi_frame (ok (codes "hi")) in
    (receive_message naturals trusting tagging hi_frame 5 room_store ≡ (room_store, some job))
    × ((resume naturals trusting tagging 6 job
          (resume naturals trusting tagging 5 job room_store).0).0.messages
        ≡ room_store.messages
          ++ from_frame hi_frame (codes "hi") 5 none ∷ from_frame hi_frame (codes "hi") 6 none ∷ [])
overlap_shown_twice_example =
    overlap_shown_twice naturals trusting tagging hi_frame 5 6 (codes "hi") room_store
      hi_frame-valid unseen
      (ap room_store.crypto.decrypt (payload_of-frame_of sealed_hi.0) ∙ sealed_hi.2) hi-IsRaw

-- A room in which "ann" is pinned, two frames later.
abbrev pinned_store : ChannelStore ℕ
pinned_store = record room_store { nick_to_fp = (codes "ann", codes "AAAAAAAAAA") ∷ [] }

abbrev start : World ℕ
start = record { store = pinned_store; jobs = [] }

ann-Pinned : Pinned (codes "ann") (codes "AAAAAAAAAA") pinned_store
unfolding map_get text_eq
ann-Pinned = (refl, refl)

abbrev arrived : World ℕ
arrived =
    let (s, job) = receive naturals trusting tagging true 5 (codes "{}") start.store in
    record { store = s; jobs = queued job start.jobs }

pin_kept_example : Pinned (codes "ann") (codes "AAAAAAAAAA") arrived.store
pin_kept_example =
    pin_kept naturals trusting tagging (codes "ann") (codes "AAAAAAAAAA")
      (next at_start (arrives true 5 (codes "{}") start)) ann-Pinned
