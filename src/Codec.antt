-- ===== src/Codec.antt =====
-- frontend/src/codec.ts: checking and printing of protocol messages. A message is a JSON object; its
-- type tag is one of the kinds of frontend/src/protocol.gen.ts.
pub mod Checks
use private_chat.Prelude.{
  ℕ, zero, suc, ◌+◌, ◌-◌, ◌*◌, ◌/◌, ◌%◌, ◌^◌, ◌≤◌, ◌<◌, min, ◌≡◌, refl, sym, ap, ap₂, subst, ◌∙◌,
  ◌≢◌, ◌↔◌, ◌⊎◌, inl, inr, Bool, true, false, not, ◌&&◌, ◌||◌, Option, none, some, List, [], ◌∷◌,
  ◌++◌, map, reverse, append-nil, append_assoc, arith, ltb, leb, ◌==◌, if◌then◌else◌, ltb→lt,
  lt→ltb, leb→le, ==_iff, Bool-cases, Option-cases, length, length-append, take, drop, replicate,
  length-replicate, take-length-append, drop-length-append, take-append-drop, length-drop, all, All,
  All-append, All-all, all-All, all_below, all_below_sound, length-map, map-map,
}
use private_chat.Result.{
  Result, ok, throw, ◌>>=◌, ◌>>◌, require, or_throw, invalid_json, message_missing_type,
  invalid_channel_id, payload_not_string, payload_too_large, invalid_online, invalid_from,
  invalid_count, invalid_error_code, unknown_message_type, missing,
}
use private_chat.Text.{Text, codes, is_truthy}
use private_chat.Text.Utf8.{utf8_length}
use private_chat.Collections.{set_has, map_get}
use private_chat.Json.{Numbers, Json, str, obj, Fields, end, field, get, parse}
use private_chat.Json.Read.{as_string, as_number}
use private_chat.Json.Print.{stringify}
use private_chat.E2ee.Envelope.{is_channel_id}

pub data Kind : Type 0 where
  create_channel join_channel leave_channel send_message key_update set_room_name set_nickname :
      Kind
  channel_created joined left message key_updated room_name_updated nickname_updated : Kind
  online_count error : Kind

-- `CLIENT_TYPES` and `SERVER_TYPES`, with the kind of each tag.
unfoldable pub client_types : List (Text × Kind)
client_types =
    (codes "create_channel", create_channel)
    ∷ (codes "join_channel", join_channel)
    ∷ (codes "leave_channel", leave_channel)
    ∷ (codes "send_message", send_message)
    ∷ (codes "key_update", key_update)
    ∷ (codes "set_room_name", set_room_name)
    ∷ (codes "set_nickname", set_nickname)
    ∷ []

unfoldable pub server_types : List (Text × Kind)
server_types =
    (codes "channel_created", channel_created)
    ∷ (codes "joined", joined)
    ∷ (codes "left", left)
    ∷ (codes "message", message)
    ∷ (codes "key_updated", key_updated)
    ∷ (codes "room_name_updated", room_name_updated)
    ∷ (codes "nickname_updated", nickname_updated)
    ∷ (codes "online_count", online_count)
    ∷ (codes "error", error)
    ∷ []

-- `ALL_TYPES`, and the `case` that a tag selects.
unfoldable pub kind_of : Text → Option Kind
kind_of t = map_get (client_types ++ server_types) t

-- `types.has(t)`
unfoldable pub has_type : List (Text × Kind) → Text → Bool
has_type types t = elim (map_get types t) [ none ↦ false | some kind ↦ true ]

unfoldable pub error_codes : List Text
error_codes =
    codes "invalid_message"
    ∷ codes "channel_not_found"
    ∷ codes "rate_limited"
    ∷ codes "internal_error"
    ∷ []

-- `MAX_INNER_UTF8`
abbrev pub max_inner_utf8 : ℕ
max_inner_utf8 = 6098

-- The wire limit on a payload.
abbrev pub max_payload : ℕ
max_payload = 8192

-- `types.has(msg.type)`
abbrev type_in : List (Text × Kind) → Option Text → Bool
type_in types none = false
type_in types (some t) = has_type types t

module _ {F : Type 0} where
  unfoldable pub assert_channel_id : Option (Json F) → Result (Unit {0})
  assert_channel_id id = do
    s ← or_throw (as_string id) invalid_channel_id
    require (is_channel_id s) invalid_channel_id

  unfoldable pub assert_payload : Option (Json F) → Result (Unit {0})
  assert_payload p = do
    s ← or_throw (as_string p) payload_not_string
    require (leb (length s) max_payload) payload_too_large

  unfoldable pub assert_from : Option (Json F) → Result (Unit {0})
  assert_from v = do s ← or_throw (as_string v) invalid_from; require (is_truthy s) invalid_from

  -- `typeof parsed[name] !== "string"`
  unfoldable pub want_string : Fields F → Text → Result (Unit {0})
  want_string o name = do _ ← or_throw (as_string (get o name)) (missing name); ok tt

  unfoldable pub want_number : Fields F → Text → Result (Unit {0})
  want_number o name = do _ ← or_throw (as_number (get o name)) (missing name); ok tt

  abbrev pub channel_id : Fields F → Option (Json F)
  channel_id o = get o (codes "channelId")

  abbrev pub payload : Fields F → Option (Json F)
  payload o = get o (codes "payload")

  -- Type tag and kind of an object.
  unfoldable pub tag_kind : Fields F → Result Kind
  tag_kind o = do
    t ← or_throw (as_string (get o (codes "type"))) message_missing_type
    or_throw (kind_of t) (unknown_message_type t)

  unfoldable pub assert_relay : Fields F → Result (Unit {0})
  assert_relay o = do
    assert_channel_id (channel_id o)
    assert_payload (payload o)
    assert_from (get o (codes "from"))

  unfoldable pub assert_send : Fields F → Result (Unit {0})
  assert_send o = do assert_channel_id (channel_id o); assert_payload (payload o)

  unfoldable pub is_client_message : Fields F → Bool
  is_client_message msg = type_in client_types (as_string (get msg (codes "type")))

  unfoldable pub is_server_message : Fields F → Bool
  is_server_message msg = type_in server_types (as_string (get msg (codes "type")))

  -- `isObject(msg)`
  abbrev pub plain_object : Json F → Option (Fields F)
  plain_object (obj fs) = some fs
  plain_object _ = none

module _ (N : Numbers) where
  open N use {Number, of_nat, less}

  -- `typeof v !== "number" || v < least`
  unfoldable pub is_at_least : ℕ → Option (Json Number) → Bool
  is_at_least least v = elim (as_number v) [ none ↦ false | some x ↦ not (less x (of_nat least)) ]

  -- The `switch` of `encode`.
  unfoldable pub encode_case : Kind → Fields Number → Result (Unit {0})
  encode_case create_channel o = ok tt
  encode_case join_channel o = assert_channel_id (channel_id o)
  encode_case leave_channel o = assert_channel_id (channel_id o)
  encode_case channel_created o = assert_channel_id (channel_id o)
  encode_case left o = assert_channel_id (channel_id o)
  encode_case send_message o = assert_send o
  encode_case key_update o = assert_send o
  encode_case set_room_name o = assert_send o
  encode_case set_nickname o = assert_send o
  encode_case joined o = do
    assert_channel_id (channel_id o)
    require (is_at_least 1 (get o (codes "online"))) invalid_online
  encode_case message o = assert_relay o
  encode_case key_updated o = assert_relay o
  encode_case room_name_updated o = assert_relay o
  encode_case nickname_updated o = assert_relay o
  encode_case online_count o = do
    assert_channel_id (channel_id o)
    require (is_at_least 0 (get o (codes "count"))) invalid_count
  encode_case error o = do
    c ← or_throw (as_string (get o (codes "code"))) invalid_error_code
    require (set_has error_codes c) invalid_error_code

  unfoldable pub encode_check : Json Number → Result (Unit {0})
  encode_check msg = do
    o ← or_throw (plain_object msg) message_missing_type
    kind ← tag_kind o
    encode_case kind o

  unfoldable pub encode : Json Number → Result Text
  encode msg = do encode_check msg; ok (stringify N msg)

  unfoldable pub decode_send : Fields Number → Result (Unit {0})
  decode_send o = do
    want_string o (codes "channelId")
    want_string o (codes "payload")
    assert_channel_id (channel_id o)
    assert_payload (payload o)

  unfoldable pub decode_named : Fields Number → Result (Unit {0})
  decode_named o = do want_string o (codes "channelId"); assert_channel_id (channel_id o)

  unfoldable pub decode_relay : Fields Number → Result (Unit {0})
  decode_relay o = do
    want_string o (codes "channelId")
    want_string o (codes "payload")
    want_string o (codes "from")

  -- The `switch` of `decode`.
  unfoldable pub decode_case : Kind → Fields Number → Result (Unit {0})
  decode_case create_channel o = ok tt
  decode_case join_channel o = decode_named o
  decode_case leave_channel o = decode_named o
  decode_case send_message o = decode_send o
  decode_case key_update o = decode_send o
  decode_case set_room_name o = decode_send o
  decode_case set_nickname o = decode_send o
  decode_case channel_created o = decode_named o
  decode_case joined o = do want_string o (codes "channelId"); want_number o (codes "online")
  decode_case left o = want_string o (codes "channelId")
  decode_case message o = decode_relay o
  decode_case key_updated o = decode_relay o
  decode_case room_name_updated o = decode_relay o
  decode_case nickname_updated o = decode_relay o
  decode_case online_count o = do want_string o (codes "channelId"); want_number o (codes "count")
  decode_case error o = do want_string o (codes "code"); want_string o (codes "message")

  -- A parsed message with the kind that its tag selects.
  pub record Frame : Type 0 where
    pub kind : Kind
    pub object : Fields Number

  unfoldable pub decode_check : Json Number → Result Frame
  decode_check parsed = do
    o ← or_throw (plain_object parsed) message_missing_type
    kind ← tag_kind o
    decode_case kind o
    ok (record { kind = kind; object = o })

  unfoldable pub decode : Text → Result Frame
  decode raw = do parsed ← or_throw (parse N raw) invalid_json; decode_check parsed
