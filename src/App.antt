-- ===== src/App.antt =====
-- frontend/src/App.svelte: the state of the application, the address it shows, and what it derives
-- from them. A room's store is kept with its transport; an effect or handler that awaits is cut there,
-- in a part that begins and a part that ends it.
pub mod Shown
pub mod Address
pub mod Gate
pub mod Join
pub mod Rename
pub mod Rotate
pub mod Leave
pub mod Announce
use private_chat.Prelude.{
  ℕ, ◌+◌, ◌*◌, ◌%◌, ◌^◌, Bool, true, false, not, ◌||◌, Option, none, some, List, [], ◌∷◌, ◌++◌, ltb,
  ◌==◌, if◌then◌else◌, length, take,
}
use private_chat.Result.{Error}
use private_chat.Text.{Text, codes, text_eq, is_truthy, split}
use private_chat.Collections.{map_get, map_has, map_set}
use private_chat.E2ee.AesGcm.{RoomKey}
use private_chat.Transport.{Transport, open', status_eq}
use private_chat.Channel.{ChannelStore, ChatMessage}
use private_chat.Invite.{strip_prefix, parse_key_from_hash}

-- `window.location`
pub record Location : Type 0 where
  pub origin : Text
  pub pathname : Text
  pub search : Text
  pub hash : Text

-- The text of an error on the page: a literal, the message of what was thrown, both, or the message
-- of the `TypeError` of a method that is called on null.
pub data Complaint : Type 0 where
  literal : Text → Complaint
  message_of : Error → Complaint
  caused : Text → Error → Complaint
  null_read : Complaint

pub data CopyFeedback : Type 0 where
  copied copy_failed : CopyFeedback

-- A store and its transport.
pub record Session (F : Type 0) : Type 0 where
  pub store : ChannelStore F
  pub transport : Transport

pub record HistoryEntry : Type 0 where
  pub id : Text
  pub online : ℕ
  pub connected : Bool

-- `RoomEntry` of Sidebar.svelte: `none` is the 0 of a store that was told no number yet.
pub record RoomEntry (F : Type 0) : Type 0 where
  pub id : Text
  pub online : Option F
  pub connected : Bool

-- `left` holds the stores that were taken out of `stores` or of `peek_store`, which live on until what
-- they wait for is over; `alerts` and `clipboard` hold the
-- calls of `alert` and of `navigator.clipboard.writeText`.
pub record App (F : Type 0) : Type 0 where
  pub location : Location
  pub path : Text
  pub pending_hash_key : Option Text
  pub stores : List (Text × Session F)
  pub left : List (Session F)
  pub input : Text
  pub join_input : Text
  pub creating : Bool
  pub create_error : Option Complaint
  pub key_input : Text
  pub key_error : Option Complaint
  pub copy_feedback : Option CopyFeedback
  pub rotating : Bool
  pub drawer_open : Bool
  pub create_room_name : Text
  pub create_nick : Text
  pub join_pending_id : Option Text
  pub join_pending_key : Option Text
  pub join_nick : Text
  pub join_error : Option Complaint
  pub join_creating : Bool
  pub room_history : List HistoryEntry
  pub room_keys : List (Text × RoomKey)
  pub room_key_b64 : List (Text × Text)
  pub room_names : List (Text × Text)
  pub self_nicks : List (Text × Text)
  pub peer_nicks : List (Text × Text)
  pub editing_room_name : Bool
  pub room_name_draft : Text
  pub editing_nick : Bool
  pub nick_draft : Text
  pub peek_store : Option (Session F)
  pub last_online_by_room : List (Text × Option F)
  pub last_broadcast_nick_by_room : List (Text × Option Text)
  pub last_broadcast_room_name_by_room : List (Text × Option Text)
  pub alerts : List Text
  pub clipboard : List Text

abbrev pub or_else {ℓ} : {A : Type ℓ} → Option A → A → A
or_else none a = a
or_else (some b) a = b

-- `s.split(sep)[0]`
abbrev pub first_part : ℕ → Text → Text
first_part sep s = elim (split sep s) [ [] ↦ [] | part ∷ parts ↦ part ]

-- `channelId`
unfoldable pub channel_id_of : Text → Text
channel_id_of path = elim (strip_prefix (codes "/r/") path) [
  | none ↦ []
  | some rest ↦ first_part b'#' (first_part b'?' (first_part b'/' rest))
]

-- `path.startsWith("/r/")`
abbrev pub is_room_path : Text → Bool
is_room_path path = elim (strip_prefix (codes "/r/") path) [ none ↦ false | some rest ↦ true ]

-- `${channelId}:${from}`
unfoldable pub peer_key : (channel_id from : Text) → Text
peer_key channel_id from = channel_id ++ b':' ∷ from

-- `/r/${id}`
unfoldable pub room_path : Text → Text
room_path id = codes "/r/" ++ id

unfoldable pub short_id : Text → Text
short_id id = if ltb 6 (length id) then take 6 id else id

-- The loop of `hashColor`; `>>> 0` keeps 32 bits.
unfoldable pub hash_from : ℕ → Text → ℕ
hash_from h [] = h
hash_from h (c ∷ s) = hash_from ((h * 31 + c) % 2 ^ 32) s

-- The hue of `hashColor`, in degrees
unfoldable pub hue : Text → ℕ
hue str = hash_from 0 str % 360

-- An absolute path without dot segments, resolved against the address: up to the first `?` or `#` it
-- is the pathname, and `#` begins the hash.
unfoldable pub resolve : Text → Location → Location
resolve to here = record here {
  pathname = first_part b'?' (first_part b'#' to);
  search = elim (split b'?' (first_part b'#' to)) [ p ∷ q ∷ rest ↦ b'?' ∷ q | _ ↦ [] ];
  hash = elim (split b'#' to) [ p ∷ h ∷ rest ↦ b'#' ∷ h | _ ↦ [] ];
}

unfoldable pub in_history : Text → List HistoryEntry → Bool
in_history id [] = false
in_history id (r ∷ rs) = text_eq r.id id || in_history id rs

-- `Room: ${shortId(id)}`
abbrev pub fallback_label : Text → Text
fallback_label id = codes "Room: " ++ short_id id

module _ {F : Type 0} where
  -- `popstate`, `hashchange`, and the lines behind `pushState`: reads the address.
  unfoldable pub sync : Location → App F → App F
  sync here a = record a {
    location = here;
    path = here.pathname;
    pending_hash_key = parse_key_from_hash here.hash;
  }

  unfoldable pub navigate : Text → App F → App F
  navigate to a = sync (resolve to a.location) a

  unfoldable pub navigate_to_room : Text → App F → App F
  navigate_to_room id a = navigate (room_path id) a

  -- `history.replaceState({}, "", location.pathname)`
  unfoldable pub strip_hash : App F → App F
  strip_hash a = record a { location = record a.location { search = []; hash = [] } }

  abbrev pub channel_id : App F → Text
  channel_id a = channel_id_of a.path

  -- `channelStore`
  unfoldable pub channel_store : App F → Option (Session F)
  channel_store a = map_get a.stores (channel_id a)

  -- What is done to the store object that a map holds.
  unfoldable pub change_store : Text → (ChannelStore F → ChannelStore F) → App F → App F
  change_store id f a = elim (map_get a.stores id) [
    | none ↦ a
    | some s ↦ record a { stores = map_set a.stores id (record s { store = f s.store }) }
  ]

  -- The effect that remembers rooms without a store.
  unfoldable pub remember_room : App F → App F
  remember_room a =
      let id = channel_id a in
      if not (is_truthy id) || map_has a.stores id || in_history id a.room_history
      then a
      else record a {
        room_history = a.room_history ++ record { id = id; online = 0; connected = false } ∷ [];
      }

  unfoldable pub live_rooms : List (Text × Session F) → List (RoomEntry F)
  live_rooms [] = []
  live_rooms ((id, s) ∷ rest) =
      record { id = id; online = s.store.online; connected = status_eq s.store.status open' }
      ∷ live_rooms rest

  -- `online` of a remembered room is always the 0 it starts with.
  unfoldable pub other_rooms : List (Text × Session F) → List HistoryEntry → List (RoomEntry F)
  other_rooms stores [] = []
  other_rooms stores (r ∷ rs) =
      let rest = other_rooms stores rs in
      if map_has stores r.id
      then rest
      else record { id = r.id; online = none; connected = false } ∷ rest

  unfoldable pub sidebar_rooms : App F → List (RoomEntry F)
  sidebar_rooms a = live_rooms a.stores ++ other_rooms a.stores a.room_history

  unfoldable pub header_room_label : App F → Text
  header_room_label a =
      or_else (map_get a.room_names (channel_id a)) (fallback_label (channel_id a))

  -- The name above the nickname gate.
  unfoldable pub join_room_preview : App F → Option Text
  join_room_preview a = elim a.join_pending_id [
    | none ↦ none
    | some id ↦
        some (or_else (if is_truthy id then map_get a.room_names id else none) (fallback_label id))
  ]

  -- `filter((_, i) => i !== idx)`, from the index `i` on
  unfoldable pub filter_from : (i idx : ℕ) → List (ChatMessage F) → List (ChatMessage F)
  filter_from i idx [] = []
  filter_from i idx (m ∷ ms) =
      let rest = filter_from (i + 1) idx ms in if i == idx then rest else m ∷ rest

  unfoldable pub delete_message : ℕ → App F → App F
  delete_message idx a =
      change_store (channel_id a) (λ s. record s { messages = filter_from 0 idx s.messages }) a

  unfoldable pub clear_local_messages : App F → App F
  clear_local_messages a = change_store (channel_id a) (λ s. record s { messages = [] }) a
