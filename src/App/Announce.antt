-- ===== src/App/Announce.antt =====
-- The effect of frontend/src/App.svelte that sends the room's name and the own nick again when members
-- join: for each store, up to the `await` of the wrapping, and what follows it.
pub mod Quiet
use private_chat.Prelude.{Bool, true, Option, none, some, List, [], ◌∷◌, ◌++◌, if◌then◌else◌}
use private_chat.Result.{Result, ok, throw, ◌>>=◌}
use private_chat.Text.{Text}
use private_chat.Collections.{map_get, map_set}
use private_chat.Json.{Numbers}
use private_chat.E2ee.AesGcm.{Aead, Random, create_aes_gcm_crypto}
use private_chat.E2ee.Names.{is_valid_room_name, is_valid_nick, wrap_room_name}
use private_chat.Identity.{Signing}
use private_chat.Transport.{Handlers}
use private_chat.Channel.Send.{send_set_room_name, send_set_nickname}
use private_chat.App.{Session, App}
use private_chat.App.Gate.{if_truthy}
use private_chat.App.Rename.{call_store, wrap_claim}

-- What is being wrapped for a room.
pub data Announcement : Type 0 where
  own_nick : (id : Text) → Result Text → Announcement
  own_room_name : (id : Text) → Result Text → Announcement

-- The random bytes of the two wrappings of a room
pub record AnnounceRandom : Type 0 where
  pub for_nick : Random
  pub for_name : Random

-- A name that passes its check.
abbrev pub valid_name : (Text → Bool) → Option Text → Option Text
valid_name is_valid name = elim (if_truthy name) [
  | none ↦ none
  | some n ↦ if is_valid n then some n else none
]

module _ (N : Numbers) (H : Handlers) (S : Signing) (aead : Aead) (available : Bool) where
  open N use {Number, less, of_nat}

  -- `lastOnlineByRoom.get(id) ?? 0`, and `online`, whose first value is 0
  abbrev pub number_or_zero : Option Number → Number
  number_or_zero none = of_nat 0
  number_or_zero (some x) = x

  abbrev pub last_online : Text → App Number → Number
  last_online id a = elim (map_get a.last_online_by_room id) [
    | none ↦ of_nat 0
    | some x ↦ number_or_zero x
  ]

  -- The nick of a room that has a key.
  unfoldable pub announce_nick :
      Random → Text → Session Number → App Number → App Number × List Announcement
  announce_nick r id s a = elim (valid_name is_valid_nick (map_get a.self_nicks id)) [
    | none ↦ (a, [])
    | some nick ↦ elim (map_get a.room_keys id) [
      | none ↦ (a, [])
      | some k ↦ (
        record a {
          last_broadcast_nick_by_room = map_set a.last_broadcast_nick_by_room id (some nick);
        },
        own_nick id (wrap_claim N H S aead available s.store.identity k id nick r) ∷ [],
      )
    ]
  ]

  unfoldable pub announce_room_name : Random → Text → App Number → App Number × List Announcement
  announce_room_name r id a = elim (valid_name is_valid_room_name (map_get a.room_names id)) [
    | none ↦ (a, [])
    | some name ↦ elim (map_get a.room_keys id) [
      | none ↦ (a, [])
      | some k ↦ (
        record a {
          last_broadcast_room_name_by_room =
              map_set a.last_broadcast_room_name_by_room id (some name);
        },
        own_room_name id (
              create_aes_gcm_crypto aead available k id >>= λ crypto.
              wrap_room_name N crypto name true r)
            ∷ [],
      )
    ]
  ]

  -- One round of the loop over the stores.
  unfoldable pub announce_room :
      AnnounceRandom → Text → Session Number → App Number → App Number × List Announcement
  announce_room r id s a =
      let seen = record a {
        last_online_by_room = map_set a.last_online_by_room id s.store.online;
      } in
      if less (last_online id a) (number_or_zero s.store.online)
      then (let reset = record seen {
        last_broadcast_nick_by_room = map_set a.last_broadcast_nick_by_room id none;
        last_broadcast_room_name_by_room = map_set a.last_broadcast_room_name_by_room id none;
      } in
          let (a', nicks) = announce_nick r.for_nick id s reset in
          let (a'', names) = announce_room_name r.for_name id a' in (a'', nicks ++ names))
      else (seen, [])

  unfoldable pub announce_rooms :
      (Text → AnnounceRandom)
      → List (Text × Session Number)
      → App Number
      → App Number × List Announcement
  announce_rooms r [] a = (a, [])
  announce_rooms r ((id, s) ∷ rest) a =
      let (a', first) = announce_room (r id) id s a in
      let (a'', more) = announce_rooms r rest a' in (a'', first ++ more)

  unfoldable pub announce : (Text → AnnounceRandom) → App Number → App Number × List Announcement
  announce r a = announce_rooms r a.stores a

  -- The answer of the send is not read; a failed wrapping is forgotten.
  unfoldable pub end_announce : Announcement → App Number → App Number
  end_announce (own_nick id (throw e)) a = record a {
    last_broadcast_nick_by_room = map_set a.last_broadcast_nick_by_room id none;
  }
  end_announce (own_nick id (ok payload)) a = (call_store id (send_set_nickname N H payload) a).0
  end_announce (own_room_name id (throw e)) a = record a {
    last_broadcast_room_name_by_room = map_set a.last_broadcast_room_name_by_room id none;
  }
  end_announce (own_room_name id (ok payload)) a =
      (call_store id (send_set_room_name N H payload) a).0
