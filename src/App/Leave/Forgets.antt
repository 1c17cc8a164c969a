-- ===== src/App/Leave/Forgets.antt =====
-- Leaving rooms, `leaveRoom` of frontend/src/App.svelte.
use private_chat.Prelude.{
  ◌≡◌, refl, sym, ap, subst, Bool, true, false, not, ◌&&◌, none, List, [], ◌∷◌, ◌++◌, arith,
  if◌then◌else◌, all,
}
use private_chat.Text.{Text, codes, text_eq, is_truthy, is_b64url_char, split}
use private_chat.Text.Laws.{text_eq_iff, text_eq_refl}
use private_chat.Collections.{map_get, map_delete, map_get-delete, map_get-delete_if}
use private_chat.E2ee.Envelope.{is_channel_id}
use private_chat.Json.{Numbers}
use private_chat.Transport.{Handlers}
use private_chat.Invite.{strip_prefix}
use private_chat.App.Address.{class_of_id}
use private_chat.App.{HistoryEntry, in_history, App, channel_id, navigate, sync, resolve, peer_key}
use private_chat.App.Leave.{is_peer_key, closed_session, forget_history, forget_room, leave_room}

is_peer_key-append : (id from : Text) → is_peer_key id (id ++ b':' ∷ from) ≡ true
unfolding is_peer_key strip_prefix
is_peer_key-append [] from = refl
is_peer_key-append (c ∷ id) from = ground (arith, is_peer_key-append id from)

is_peer_key-same : (id from : Text) → is_peer_key id (peer_key id from) ≡ true
unfolding peer_key
is_peer_key-same id from = is_peer_key-append id from

-- Behind an id of the class the colon ends it.
is_peer_key-other :
    (id other from : Text)
    → all is_b64url_char id ≡ true
    → all is_b64url_char other ≡ true
    → text_eq id other ≡ false
    → is_peer_key id (other ++ b':' ∷ from) ≡ false
unfolding is_peer_key strip_prefix is_b64url_char text_eq
is_peer_key-other [] [] from h k e = cc
is_peer_key-other [] (d ∷ other) from h k e = ground arith
is_peer_key-other (c ∷ id) [] from h k e = ground arith
is_peer_key-other (c ∷ id) (d ∷ other) from h k e = ground (arith, is_peer_key-other id other from)

-- No map of the application knows the room, its peers' nicks included.
pub record IsForgotten {F : Type 0} (id : Text) (a : App F) : Type 0 where
  pub stores : map_get a.stores id ≡ none
  pub keys : (map_get a.room_keys id ≡ none) × (map_get a.room_key_b64 id ≡ none)
  pub names : (map_get a.room_names id ≡ none) × (map_get a.self_nicks id ≡ none)
  pub peers : (from : Text) → map_get a.peer_nicks (peer_key id from) ≡ none
  pub history : in_history id a.room_history ≡ false
  pub online : map_get a.last_online_by_room id ≡ none
  pub broadcast :
      (map_get a.last_broadcast_nick_by_room id ≡ none)
      × (map_get a.last_broadcast_room_name_by_room id ≡ none)

-- What the maps know of a room is the same in both.
pub record IsSameRoom {F : Type 0} (id : Text) (a b : App F) : Type 0 where
  pub stores : map_get a.stores id ≡ map_get b.stores id
  pub keys :
      (map_get a.room_keys id ≡ map_get b.room_keys id)
      × (map_get a.room_key_b64 id ≡ map_get b.room_key_b64 id)
  pub names :
      (map_get a.room_names id ≡ map_get b.room_names id)
      × (map_get a.self_nicks id ≡ map_get b.self_nicks id)
  pub peers :
      (from : Text)
      → map_get a.peer_nicks (peer_key id from) ≡ map_get b.peer_nicks (peer_key id from)
  pub history : in_history id a.room_history ≡ in_history id b.room_history
  pub online : map_get a.last_online_by_room id ≡ map_get b.last_online_by_room id
  pub broadcast :
      (map_get a.last_broadcast_nick_by_room id ≡ map_get b.last_broadcast_nick_by_room id)
      × (map_get a.last_broadcast_room_name_by_room id
          ≡ map_get b.last_broadcast_room_name_by_room id)

map_get-gone : {V : Type 0} (m : List (Text × V)) (k : Text) → map_get (map_delete m k) k ≡ none
map_get-gone m k = ground (arith, map_get-delete m k k, text_eq_refl k)

map_get-stays :
    {V : Type 0} (m : List (Text × V)) (k j : Text)
    → text_eq k j ≡ false
    → map_get (map_delete m k) j ≡ map_get m j
map_get-stays m k j e = ground (arith, map_get-delete m k j)

in_history-forget :
    (id j : Text) (rs : List HistoryEntry)
    → in_history j (forget_history id rs) ≡ (in_history j rs && not (text_eq id j))
unfolding in_history forget_history
in_history-forget id j [] = refl
in_history-forget id j (r ∷ rs) =
    ground
      (arith, in_history-forget id j rs, text_eq_iff r.id id, text_eq_iff r.id j, text_eq_iff id j)

and_false : (b : Bool) → (b && not true) ≡ false
and_false b = ground arith

and_true : (b : Bool) → (b && not false) ≡ b
and_true b = ground arith

pub truthy_id : (id : Text) → is_channel_id id ≡ true → is_truthy id ≡ true
unfolding is_channel_id
truthy_id [] h = cc
truthy_id (c ∷ id) h = refl

is_peer_key-colon :
    (id other from : Text)
    → is_channel_id id ≡ true
    → is_channel_id other ≡ true
    → text_eq id other ≡ false
    → is_peer_key id (peer_key other from) ≡ false
unfolding peer_key
is_peer_key-colon id other from h k e =
    is_peer_key-other id other from (class_of_id id h) (class_of_id other k) e

module _ (N : Numbers) (H : Handlers) where
  open N use {Number}

  forget_room-IsForgotten : (id : Text) (a : App Number) → IsForgotten id (forget_room N H id a)
  unfolding forget_room
  forget_room-IsForgotten id a = record {
    stores = map_get-gone a.stores id;
    keys = (map_get-gone a.room_keys id, map_get-gone a.room_key_b64 id);
    names = (map_get-gone a.room_names id, map_get-gone a.self_nicks id);
    peers = λ from.
        rw
          (
            map_get-delete_if (is_peer_key id) a.peer_nicks (peer_key id from),
            is_peer_key-same id from,
          )
          refl;
    history =
        rw (in_history-forget id id a.room_history, text_eq_refl id)
          (and_false (in_history id a.room_history));
    online = map_get-gone a.last_online_by_room id;
    broadcast = (
      map_get-gone a.last_broadcast_nick_by_room id,
      map_get-gone a.last_broadcast_room_name_by_room id,
    );
  }

  forget_room-IsSameRoom :
      (id other : Text) (a : App Number)
      → is_channel_id id ≡ true
      → is_channel_id other ≡ true
      → text_eq id other ≡ false
      → IsSameRoom other (forget_room N H id a) a
  unfolding forget_room
  forget_room-IsSameRoom id other a h k e = record {
    stores = map_get-stays a.stores id other e;
    keys = (map_get-stays a.room_keys id other e, map_get-stays a.room_key_b64 id other e);
    names = (map_get-stays a.room_names id other e, map_get-stays a.self_nicks id other e);
    peers = λ from.
        rw
          (
            map_get-delete_if (is_peer_key id) a.peer_nicks (peer_key other from),
            is_peer_key-colon id other from h k e,
          )
          refl;
    history =
        rw (in_history-forget id other a.room_history, e)
          (and_true (in_history other a.room_history));
    online = map_get-stays a.last_online_by_room id other e;
    broadcast = (
      map_get-stays a.last_broadcast_nick_by_room id other e,
      map_get-stays a.last_broadcast_room_name_by_room id other e,
    );
  }

  -- What `leaveRoom` does behind the maps.
  abbrev close_view : App Number → App Number
  close_view a = navigate (codes "/") (record a {
    key_input = [];
    editing_room_name = false;
    editing_nick = false;
    drawer_open = false;
  })

  leave_room-truthy :
      (a : App Number)
      → is_truthy (channel_id a) ≡ true
      → leave_room N H a ≡ close_view (forget_room N H (channel_id a) a)
  unfolding leave_room
  leave_room-truthy a h = ap (λ b. close_view (if b then forget_room N H (channel_id a) a else a)) h

  close_view-IsForgotten :
      (id : Text) (a : App Number) → IsForgotten id a → IsForgotten id (close_view a)
  unfolding navigate sync
  close_view-IsForgotten id a f = record {
    stores = f.stores;
    keys = f.keys;
    names = f.names;
    peers = f.peers;
    history = f.history;
    online = f.online;
    broadcast = f.broadcast;
  }

  close_view-IsSameRoom :
      (id : Text) (a b : App Number) → IsSameRoom id a b → IsSameRoom id (close_view a) b
  unfolding navigate sync
  close_view-IsSameRoom id a b f = record {
    stores = f.stores;
    keys = f.keys;
    names = f.names;
    peers = f.peers;
    history = f.history;
    online = f.online;
    broadcast = f.broadcast;
  }

  -- After leaveRoom on a room's page, no map of the application knows the room: no store, key,
  -- name, nick, peer's nick, history or broadcast mark is left; its store is the one that was
  -- disconnected, and the page is the home page.
  pub leave_room-IsForgotten :
      (a : App Number)
      → is_truthy (channel_id a) ≡ true
      → IsForgotten (channel_id a) (leave_room N H a)
        × ((leave_room N H a).left ≡ a.left ++ closed_session N H (map_get a.stores (channel_id a)))
        × ((leave_room N H a).path ≡ codes "/")
  unfolding leave_room navigate sync resolve split forget_room
  leave_room-IsForgotten a h =
      let id = channel_id a in
      let P : App Number → Type 0 = λ b.
        IsForgotten id b
        × (b.left ≡ a.left ++ closed_session N H (map_get a.stores id))
        × (b.path ≡ codes "/") in
      subst P (sym (leave_room-truthy a h)) (
        close_view-IsForgotten id (forget_room N H id a) (forget_room-IsForgotten id a),
        refl,
        refl,
      )

  -- Leaving a room with a valid id changes nothing of what the maps know of another room with a
  -- valid id, the nicks of its peers included.
  pub leave_room-IsSameRoom :
      (other : Text) (a : App Number)
      → is_channel_id (channel_id a) ≡ true
      → is_channel_id other ≡ true
      → text_eq (channel_id a) other ≡ false
      → IsSameRoom other (leave_room N H a) a
  unfolding leave_room navigate sync resolve split
  leave_room-IsSameRoom other a h k e =
      let id = channel_id a in
      subst (λ b. IsSameRoom other b a) (sym (leave_room-truthy a (truthy_id id h)))
        (close_view-IsSameRoom other (forget_room N H id a) a
          (forget_room-IsSameRoom id other a h k e))
