-- ===== src/App/Gate.antt =====
-- The connection of rooms in frontend/src/App.svelte: the effect that asks for a nickname or opens the
-- store of the room shown, `getCryptoForChannel`, the callbacks of a store, and the short connection
-- that peeks at a room's name.
pub mod Beginning
pub mod Opening
use private_chat.Prelude.{
  ◌⊎◌, inl, inr, Bool, true, false, not, ◌&&◌, ◌||◌, Option, none, some, [], ◌∷◌, ◌++◌,
  if◌then◌else◌,
}
use private_chat.Result.{Result, ok, throw}
use private_chat.Text.{Text, codes, text_eq, is_truthy, trim}
use private_chat.Collections.{map_get, map_has, map_set}
use private_chat.Json.{Numbers}
use private_chat.E2ee.Envelope.{is_room_key_b64, is_channel_id}
use private_chat.E2ee.AesGcm.{Aead, RoomKey, Crypto, import_room_key, create_aes_gcm_crypto}
use private_chat.Transport.{Handlers, create, connect}
use private_chat.Channel.{new_store, Callback, key_rotated, room_name_updated, nickname_updated}
use private_chat.Channel.Send.{disconnect_store}
use private_chat.App.{
  Complaint, literal, message_of, caused, Session, App, is_room_path, peer_key, channel_id,
  navigate, strip_hash,
}

-- Where the key of a room comes from.
pub data KeySource : Type 0 where
  in_link : (hash_b64 : Text) → KeySource
  kept : RoomKey → KeySource
  pasted : (b64 : Text) → KeySource
  nowhere : KeySource

-- A connection whose key is being imported.
pub record Connecting : Type 0 where
  pub id : Text
  pub source : KeySource

-- `keyInput.trim() && isRoomKeyB64(keyInput.trim()) ? keyInput.trim() : null`
abbrev pub input_key : Text → Option Text
input_key key_input = if is_room_key_b64 (trim key_input) then some (trim key_input) else none

-- `hk ?? a ?? b`
abbrev pub or_else_maybe {ℓ} : {A : Type ℓ} → Option A → Option A → Option A
or_else_maybe none b = b
or_else_maybe (some a) b = some a

-- A handler from its beginning to its end, with nothing in between.
abbrev pub through {κ ℓ} : {A : Type ℓ} {J : Type κ} → A × Option J → (J → A → A) → A
through (a, none) finish = a
through (a, some job) finish = finish job a

-- `if (hashB64)` is false of an empty text.
abbrev pub if_truthy : Option Text → Option Text
if_truthy none = none
if_truthy (some s) = if is_truthy s then some s else none

abbrev pub is_pending : Text → Option Text → Bool
is_pending id none = false
is_pending id (some pending) = text_eq pending id

-- `createAesGcmCrypto(k, id)` in a `try` block
abbrev pub crypto_for : Aead → Bool → Text → RoomKey → Complaint ⊎ Crypto
crypto_for aead available id k = elim (create_aes_gcm_crypto aead available k id) [
  | throw e ↦ inl (message_of e)
  | ok crypto ↦ inr crypto
]

module _ {F : Type 0} where
  -- The branch of `getCryptoForChannel`.
  unfoldable pub key_source : Text → Option Text → App F → KeySource
  key_source id hash_b64 a = elim (if_truthy hash_b64) [
    | some b64 ↦ in_link b64
    | none ↦ elim (map_get a.room_keys id) [
      | some k ↦ kept k
      | none ↦ elim (input_key a.key_input) [ some b64 ↦ pasted b64 | none ↦ nowhere ]
    ]
  ]

  -- The nickname gate: the room waits at `/join`.
  unfoldable pub ask_nick : Text → App F → App F
  ask_nick id a = navigate (codes "/join") (record a {
    join_pending_id = some id;
    join_pending_key =
        or_else_maybe a.pending_hash_key
          (or_else_maybe (map_get a.room_key_b64 id) (input_key a.key_input));
    join_nick = [];
    join_error = none;
  })

  -- The effect, up to the import of the key. `queueMicrotask` runs before any other event.
  unfoldable pub begin_connect : App F → App F × Option Connecting
  begin_connect a =
      let id = channel_id a in
      if not (is_channel_id id)
      then (a, none)
      else if not (map_has a.self_nicks id) && is_room_path a.path
      then (ask_nick id a, none)
      else if map_has a.stores id
      then (a, none)
      else (a, some (record { id = id; source = key_source id a.pending_hash_key a }))

  unfoldable pub keep_key : Text → RoomKey → Text → App F → App F
  keep_key id k b64 a = record a {
    room_keys = map_set a.room_keys id k;
    room_key_b64 = map_set a.room_key_b64 id b64;
  }

  -- The callbacks of the store of a room; the second part of `onKeyRotated` runs when the key is
  -- imported, and a failure is ignored.
  unfoldable pub on_callback : Text → Callback → App F → App F
  on_callback id (key_rotated new_key_b64 new_crypto) a = record a {
    room_key_b64 = map_set a.room_key_b64 id new_key_b64;
  }
  on_callback id (room_name_updated name from) a = record a {
    room_names = map_set a.room_names id name;
  }
  on_callback id (nickname_updated from nick) a =
      let a' = record a { peer_nicks = map_set a.peer_nicks (peer_key id from) nick } in
      if text_eq from (codes "self")
      then record a' { self_nicks = map_set a'.self_nicks id nick }
      else a'

  unfoldable pub finish_key_rotated : Text → Result RoomKey → App F → App F
  finish_key_rotated id (throw e) a = a
  finish_key_rotated id (ok k) a = record a { room_keys = map_set a.room_keys id k }

  -- The effect of the peek, from its checks to the import.
  unfoldable pub begin_peek : App F → Option (Text × Text)
  begin_peek a = elim (if_truthy a.join_pending_id) [
    | none ↦ none
    | some id ↦ elim (if_truthy a.join_pending_key) [
      | none ↦ none
      | some key ↦ if map_has a.room_names id then none else some (id, key)
    ]
  ]

  -- `cancelled || joinPendingId !== id`
  abbrev pub is_stale : Bool → Text → App F → Bool
  is_stale cancelled id a = cancelled || not (is_pending id a.join_pending_id)

module _ (N : Numbers) (H : Handlers) where
  open N use {Number}

  -- `new ChannelStore(id, crypto, …)` and `s.connect()`
  unfoldable pub open_session : Text → Crypto → Session Number
  open_session id crypto = record {
    store = new_store id crypto;
    transport = connect H (create true 1000 10000);
  }

  -- `s.disconnect()`
  unfoldable pub close_session : Session Number → Session Number
  close_session s = record s { transport = disconnect_store N H s.store s.transport }

  -- `stopRoomNamePeek`
  unfoldable pub stop_peek : App Number → App Number
  stop_peek a = elim a.peek_store [
    | none ↦ a
    | some s ↦ record a { peek_store = none; left = a.left ++ close_session s ∷ [] }
  ]

  -- `onRoomNameUpdated` of the peek
  unfoldable pub on_peeked : (cancelled : Bool) → (id name : Text) → App Number → App Number
  on_peeked cancelled id name a =
      if is_stale cancelled id a || map_has a.room_names id
      then a
      else stop_peek (record a { room_names = map_set a.room_names id name })

module _ (N : Numbers) (H : Handlers) (aead : Aead) (available : Bool) where
  open N use {Number}

  -- The rest of `getCryptoForChannel`: the crypto, or the text of the error.
  unfoldable pub get_crypto : Text → KeySource → App Number → App Number × (Complaint ⊎ Crypto)
  get_crypto id nowhere a =
      (a, inl (literal (codes "missing room key - paste key from invite link")))
  get_crypto id (kept k) a = (a, crypto_for aead available id k)
  get_crypto id (in_link b64) a = elim (import_room_key available b64) [
    | throw e ↦ (a, inl (caused (codes "invalid key in link: ") e))
    | ok k ↦ (
      strip_hash (record (keep_key id k b64 a) { key_input = [] }),
      crypto_for aead available id k,
    )
  ]
  get_crypto id (pasted b64) a = elim (import_room_key available b64) [
    | throw e ↦ (a, inl (caused (codes "invalid pasted key: ") e))
    | ok k ↦ (
      record (keep_key id k (trim a.key_input) a) { key_input = [] },
      crypto_for aead available id k,
    )
  ]

  unfoldable pub end_connect : Connecting → App Number → App Number
  end_connect c a =
      if not available
      then record a { key_error = some (literal (codes "E2EE requires HTTPS or localhost")) }
      else (let (a', answer) = get_crypto c.id c.source a in
          elim answer [
            | inl complaint ↦ record a' { key_error = some complaint }
            | inr crypto ↦ if map_has a'.stores c.id then a' else record a' {
              stores = map_set a'.stores c.id (open_session N H c.id crypto);
              key_error = none;
            }
          ])

  -- Behind the import; nothing runs between its two tests of `cancelled`.
  unfoldable pub end_peek : (cancelled : Bool) → (id key : Text) → App Number → App Number
  end_peek cancelled id key a = elim (import_room_key available key) [
    | throw e ↦ a
    | ok k ↦
        if is_stale cancelled id a then a else (elim (create_aes_gcm_crypto aead available k id) [
          | throw e ↦ a
          | ok crypto ↦ record a { peek_store = some (open_session N H id crypto) }
        ])
  ]
