-- ===== src/E2ee/Names.antt =====
-- The wrapped payloads of frontend/src/e2ee.ts: new room keys, room names and nicknames.
pub mod RoundTrip
use private_chat.Prelude.{Bool, true, false, not, ◌&&◌, Option, none, leb, length}
use private_chat.Result.{
  Result, ok, ◌>>=◌, ◌>>◌, require, or_throw, invalid_new_key_format, invalid_key_update_payload,
  invalid_key_update_version, invalid_wrapped_key, invalid_room_name, invalid_room_name_payload,
  invalid_room_name_fields, invalid_nick, invalid_nick_payload, invalid_nick_fields,
}
use private_chat.Text.{Text, codes, includes, trim, is_b64url}
use private_chat.Json.{Numbers, Json, bool, num, str, obj, Fields, end, field, get, parse}
use private_chat.Json.Read.{as_object, is_text, is_true, is_number, string_if}
use private_chat.Json.Print.{stringify}
use private_chat.E2ee.Envelope.{is_room_key_b64}
use private_chat.E2ee.AesGcm.{Crypto, Random}

-- `isValidRoomName`
unfoldable pub is_valid_room_name : Text → Bool
is_valid_room_name s =
    let t = trim s in leb 1 (length t) && leb (length t) 32 && not (includes 10 t)

-- `isValidNick`
unfoldable pub is_valid_nick : Text → Bool
is_valid_nick s = let t = trim s in leb 1 (length t) && leb (length t) 20 && not (includes 10 t)

pub record RoomName : Type 0 where
  pub name : Text
  pub initial : Bool

pub record UnwrappedNick : Type 0 where
  pub nick : Text
  pub pk : Option Text
  pub sig : Option Text

module _ (N : Numbers) where
  open N use {Number, of_nat}

  -- `{ k: newKeyB64, v: 1 }`
  abbrev pub new_key_json : Text → Json Number
  new_key_json k = obj (field (codes "k") (str k) (field (codes "v") (num (of_nat 1)) end))

  unfoldable pub wrap_new_key : Crypto → Text → Random → Result Text
  wrap_new_key crypto new_key_b64 r = do
    require (is_room_key_b64 new_key_b64) invalid_new_key_format
    crypto.encrypt (stringify N (new_key_json new_key_b64)) none r

  -- The checks of `unwrapNewKey` on the parsed plaintext.
  unfoldable pub read_new_key : Json Number → Result Text
  read_new_key j = do
    o ← or_throw (as_object j) invalid_key_update_version
    require (is_number N (get o (codes "v")) 1) invalid_key_update_version
    or_throw (string_if is_room_key_b64 (get o (codes "k"))) invalid_wrapped_key

  unfoldable pub unwrap_new_key : Crypto → Text → Result Text
  unwrap_new_key crypto payload = do
    plain ← crypto.decrypt payload
    j ← or_throw (parse N plain) invalid_key_update_payload
    read_new_key j

  -- `...(opts?.initial ? { initial: true } : {})`
  abbrev pub initial_field : Bool → Fields Number
  initial_field true = field (codes "initial") (bool true) end
  initial_field false = end

  abbrev pub room_name_json : Text → Bool → Json Number
  room_name_json name initial = obj (
      field (codes "t") (str (codes "room_name")) (
        field (codes "v") (num (of_nat 1))
          (field (codes "name") (str name) (initial_field initial))))

  unfoldable pub wrap_room_name : Crypto → Text → Bool → Random → Result Text
  wrap_room_name crypto name initial r = do
    let n = trim name
    require (is_valid_room_name n) invalid_room_name
    crypto.encrypt (stringify N (room_name_json n initial)) none r

  unfoldable pub read_room_name : Json Number → Result RoomName
  read_room_name j = do
    o ← or_throw (as_object j) invalid_room_name_payload
    require (is_text (get o (codes "t")) (codes "room_name")) invalid_room_name_fields
    require (is_number N (get o (codes "v")) 1) invalid_room_name_fields
    name ← or_throw (string_if is_valid_room_name (get o (codes "name"))) invalid_room_name_fields
    ok (record { name = trim name; initial = is_true (get o (codes "initial")) })

  unfoldable pub unwrap_room_name : Crypto → Text → Result RoomName
  unwrap_room_name crypto payload = do
    plain ← crypto.decrypt payload
    j ← or_throw (parse N plain) invalid_room_name_payload
    read_room_name j

  abbrev pub nick_json : Text → Fields Number → Json Number
  nick_json nick claim = obj (
      field (codes "t") (str (codes "nick"))
        (field (codes "v") (num (of_nat 1)) (field (codes "nick") (str nick) claim)))

  unfoldable pub wrap_nick : Crypto → Text → Random → Result Text
  wrap_nick crypto nick r = do
    let n = trim nick
    require (is_valid_nick n) invalid_nick
    crypto.encrypt (stringify N (nick_json n end)) none r

  unfoldable pub read_nick : Json Number → Result UnwrappedNick
  read_nick j = do
    o ← or_throw (as_object j) invalid_nick_payload
    require (is_text (get o (codes "t")) (codes "nick")) invalid_nick_fields
    require (is_number N (get o (codes "v")) 1) invalid_nick_fields
    nick ← or_throw (string_if is_valid_nick (get o (codes "nick"))) invalid_nick_fields
    ok (record {
      nick = trim nick;
      pk = string_if is_room_key_b64 (get o (codes "pk"));
      sig = string_if is_b64url (get o (codes "sig"));
    })

  unfoldable pub unwrap_nick : Crypto → Text → Result UnwrappedNick
  unwrap_nick crypto payload = do
    plain ← crypto.decrypt payload
    j ← or_throw (parse N plain) invalid_nick_payload
    read_nick j
