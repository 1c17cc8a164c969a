-- ===== src/Codec/Checks.antt =====
-- On the checks of `encode` and `decode` in frontend/src/codec.ts.
use private_chat.Prelude.{
  ◌≤◌, ◌≡◌, refl, ◌↔◌, inl, inr, Bool, true, false, Option, none, some, arith, Option-cases, length,
}
use private_chat.Result.{invalid_json, ok, or_throw, >>=-eq-ok, invalid_json}
use private_chat.Text.{Text, codes}
use private_chat.Collections.{map_get, map_get-append}
use private_chat.Json.{Numbers, Json, str, obj, Fields, get, parse}
use private_chat.Json.Read.{as_string}
use private_chat.Json.Print.{stringify}
use private_chat.E2ee.Envelope.{is_channel_id}
use private_chat.Codec.{
  Kind, create_channel, join_channel, leave_channel, send_message, key_update, set_room_name,
  set_nickname, message, key_updated, room_name_updated, nickname_updated, Frame, is_client_message,
  client_types, server_types, kind_of, has_type, max_payload, assert_channel_id, assert_payload,
  want_string, channel_id, payload, tag_kind, assert_relay, assert_send, encode_case, encode_check,
  encode, decode_send, decode_named, decode_relay, decode_case, decode_check, decode,
}

-- The kinds that the client sends.
abbrev pub client_kind : Kind → Bool
client_kind create_channel = true
client_kind join_channel = true
client_kind leave_channel = true
client_kind send_message = true
client_kind key_update = true
client_kind set_room_name = true
client_kind set_nickname = true
client_kind _ = false

-- The kinds with a payload.
abbrev pub carries_payload : Kind → Bool
carries_payload send_message = true
carries_payload key_update = true
carries_payload set_room_name = true
carries_payload set_nickname = true
carries_payload message = true
carries_payload key_updated = true
carries_payload room_name_updated = true
carries_payload nickname_updated = true
carries_payload _ = false

client_types-client_kind :
    (t : Text) (k : Kind) → map_get client_types t ≡ some k → client_kind k ≡ true
unfolding client_types map_get
client_types-client_kind t k h = ground arith

client_type-kind :
    (t : Text)
    → has_type client_types t ≡ true
    → (k : Kind) × (kind_of t ≡ some k) × (client_kind k ≡ true)
unfolding has_type kind_of
client_type-kind t h = elim (Option-cases (map_get client_types t)) [
  | inl e ↦ absurd (ground arith)
  | inr (k, e) ↦ (
    k,
    ground (arith, map_get-append client_types server_types t),
    client_types-client_kind t k e,
  )
]

client_message-kind :
    {F : Type 0} (o : Fields F)
    → is_client_message o ≡ true
    → (k : Kind) × (tag_kind o ≡ ok k) × (client_kind k ≡ true)
unfolding is_client_message tag_kind
client_message-kind o h = elim (Option-cases (as_string (get o (codes "type")))) [
  | inl e ↦ absurd (ground arith)
  | inr (t, e) ↦ let (k, f, c) = client_type-kind t (ground arith) in (k, ground arith, c)
]

module _ (N : Numbers) where
  open N use {Number}

  -- For the messages that the client sends, `encode` and `decode` accept the same objects.
  case_iff :
      (k : Kind) (o : Fields Number)
      → client_kind k ≡ true
      → (encode_case N k o ≡ ok tt) ↔ (decode_case N k o ≡ ok tt)
  unfolding encode_case decode_case decode_send decode_named want_string assert_send
      assert_channel_id assert_payload
  case_iff create_channel o h = ground arith
  case_iff k o h = ground arith

  -- For a message with a client's type tag, encode accepts the object exactly when decode accepts
  -- it, as the object that it is.
  pub encode_check-iff_decode_check :
      (o : Fields Number)
      → is_client_message o ≡ true
      → (encode_check N (obj o) ≡ ok tt)
        ↔ ((f : Frame N) × (decode_check N (obj o) ≡ ok f) × (f.object ≡ o))
  unfolding encode_check decode_check
  encode_check-iff_decode_check o h =
      let (k, e, c) = client_message-kind o h in
      let iff = case_iff k o c in
      (
        λ p. (record { kind = k; object = o }, ground (arith, iff.0), refl),
        λ q. ground (arith, q.1, iff.1),
      )

  as_string-inv : (v : Option (Json Number)) {s : Text} → as_string v ≡ some s → v ≡ some (str s)
  as_string-inv (some (str t)) h = ground arith
  as_string-inv none h = cc
  as_string-inv _ h = cc

  assert_channel_id-inv :
      (v : Option (Json Number))
      → assert_channel_id v ≡ ok tt
      → (s : Text) × (v ≡ some (str s)) × (is_channel_id s ≡ true)
  unfolding assert_channel_id
  assert_channel_id-inv v h = elim (Option-cases (as_string v)) [
    | inl e ↦ absurd (ground arith)
    | inr (s, e) ↦ (s, as_string-inv v e, ground arith)
  ]

  assert_payload-inv :
      (v : Option (Json Number))
      → assert_payload v ≡ ok tt
      → (s : Text) × (v ≡ some (str s)) × (length s ≤ max_payload)
  unfolding assert_payload
  assert_payload-inv v h = elim (Option-cases (as_string v)) [
    | inl e ↦ absurd (ground arith)
    | inr (s, e) ↦ (s, as_string-inv v e, ground arith)
  ]

  want_string-inv :
      (o : Fields Number) (name : Text)
      → want_string o name ≡ ok tt
      → (s : Text) × (get o name ≡ some (str s))
  unfolding want_string
  want_string-inv o name h = elim (Option-cases (as_string (get o name))) [
    | inl e ↦ absurd (ground arith)
    | inr (s, e) ↦ (s, as_string-inv (get o name) e)
  ]

  -- What an object with a payload carries once it is checked.
  pub record Carries (o : Fields Number) : Type 0 where
    pub id : Text
    pub text : Text
    pub id_found : channel_id o ≡ some (str id)
    pub text_found : payload o ≡ some (str text)
    pub id_valid : is_channel_id id ≡ true
    pub text_within : length text ≤ max_payload

  Carries-of :
      (o : Fields Number)
      → assert_channel_id (channel_id o) ≡ ok tt
      → assert_payload (payload o) ≡ ok tt
      → Carries o
  Carries-of o h k =
      let (id, e, valid) = assert_channel_id-inv (channel_id o) h in
      let (text, f, within) = assert_payload-inv (payload o) k in
      record {
        id = id;
        text = text;
        id_found = e;
        text_found = f;
        id_valid = valid;
        text_within = within;
      }

  case-Carries :
      (k : Kind) (o : Fields Number)
      → carries_payload k ≡ true
      → encode_case N k o ≡ ok tt
      → (assert_channel_id (channel_id o) ≡ ok tt) × (assert_payload (payload o) ≡ ok tt)
  unfolding encode_case assert_send assert_relay
  case-Carries send_message o c h = ground arith
  case-Carries k o c h = ground arith

  -- What encode writes is the object as JSON, of a known kind; and if the kind has a payload, the
  -- channel id is well-formed and the payload is a text within the wire limit.
  pub encode-Carries :
      (o : Fields Number) (raw : Text)
      → encode N (obj o) ≡ ok raw
      → (k : Kind) × (tag_kind o ≡ ok k)
        × (raw ≡ stringify N (obj o))
        × (carries_payload k ≡ true → Carries o)
  unfolding encode encode_check
  encode-Carries o raw h =
      let (_, checked, printed) = >>=-eq-ok (encode_check N (obj o)) _ h in
      let (k, e, passed) = >>=-eq-ok (tag_kind o) _ checked in
      (k, e, ground arith, λ c. let (p, q) = case-Carries k o c (ground arith) in Carries-of o p q)

  -- What a decoded frame with a payload holds: strings for the channel id and the payload, and, where
  -- the client sends that kind itself, an id and a payload within the limits.
  decode_case-strings :
      (k : Kind) (o : Fields Number)
      → carries_payload k ≡ true
      → decode_case N k o ≡ ok tt
      → (want_string o (codes "channelId") ≡ ok tt)
        × (want_string o (codes "payload") ≡ ok tt)
        × (client_kind k ≡ false → want_string o (codes "from") ≡ ok tt)
  unfolding decode_case decode_send decode_relay
  decode_case-strings send_message o c h = ground arith
  decode_case-strings k o c h = ground arith

  decode_check-inv :
      (j : Json Number) (f : Frame N)
      → decode_check N j ≡ ok f
      → (j ≡ obj f.object)
        × (tag_kind f.object ≡ ok f.kind)
        × (decode_case N f.kind f.object ≡ ok tt)
  unfolding decode_check
  decode_check-inv (obj o) f h =
      let (k, e, rest) = >>=-eq-ok (tag_kind o) _ h in
      let (_, passed, made) = >>=-eq-ok (decode_case N k o) _ rest in
      (ground arith, ground arith, ground arith)
  decode_check-inv _ f h = cc

  -- A decoded frame is the parsed object with the kind of its tag; of a relayed kind, it has
  -- strings for the channel id, the payload and the sender.
  pub decode-relayed :
      (raw : Text) (f : Frame N)
      → decode N raw ≡ ok f
      → (parse N raw ≡ some (obj f.object))
        × (tag_kind f.object ≡ ok f.kind)
        × (carries_payload f.kind ≡ true
            → client_kind f.kind ≡ false
            → ((s : Text) × (channel_id f.object ≡ some (str s)))
              × ((s : Text) × (payload f.object ≡ some (str s)))
              × ((s : Text) × (get f.object (codes "from") ≡ some (str s))))
  unfolding decode
  decode-relayed raw f h =
      let (j, parsed, checked) = >>=-eq-ok (or_throw (parse N raw) invalid_json) _ h in
      let (same, tag, passed) = decode_check-inv j f checked in
      (
        ground arith,
        tag,
        λ c k.
            let (p, q, r) = decode_case-strings f.kind f.object c passed in
            (
              want_string-inv f.object (codes "channelId") p,
              want_string-inv f.object (codes "payload") q,
              want_string-inv f.object (codes "from") (r k),
            ),
      )
