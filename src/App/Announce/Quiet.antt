-- ===== src/App/Announce/Quiet.antt =====
-- Repeated announcements of frontend/src/App.svelte.
use private_chat.Prelude.{
  ◌≡◌, refl, sym, ap, subst, ◌∙◌, inl, inr, Bool, false, Option, none, some, List, [], ◌∷◌, arith,
  Bool-cases, Option-cases,
}
use private_chat.Text.{Text}
use private_chat.Text.Laws.{text_eq_iff}
use private_chat.Collections.{
  set_has, IsDistinct, map_get, map_set, map_get-set, map_get-set_same, map_get-set_other,
}
use private_chat.Json.{Numbers}
use private_chat.E2ee.AesGcm.{Aead, Random}
use private_chat.E2ee.Names.{is_valid_nick, is_valid_room_name}
use private_chat.Identity.{Signing}
use private_chat.Transport.{Handlers}
use private_chat.App.{Session, App}
use private_chat.App.Announce.{
  AnnounceRandom, valid_name, number_or_zero, last_online, announce_nick, announce_room_name,
  announce_room, announce_rooms, announce,
}

module _ (N : Numbers) (H : Handlers) (S : Signing) (aead : Aead) (available : Bool) where
  open N use {Number, less}

  abbrev Rooms : Type 0
  Rooms = List (Text × Session Number)

  -- The ids of the rooms.
  abbrev pub ids_of : Rooms → List Text
  ids_of [] = []
  ids_of ((id, s) ∷ rest) = id ∷ ids_of rest

  set_all : Rooms → List (Text × Option Number) → List (Text × Option Number)
  set_all [] m = m
  set_all ((id, s) ∷ rest) m = set_all rest (map_set m id s.store.online)

  -- What an announcement keeps.
  record IsKept (a b : App Number) : Type 0 where
    online : b.last_online_by_room ≡ a.last_online_by_room
    stores : b.stores ≡ a.stores

  announce_nick-IsKept :
      (r : Random) (id : Text) (s : Session Number) (a : App Number)
      → IsKept a (announce_nick N H S aead available r id s a).0
  unfolding announce_nick
  announce_nick-IsKept r id s a =
      elim (Option-cases (valid_name is_valid_nick (map_get a.self_nicks id))) [
        | inl e ↦ rw (announce_nick, e) (record { online = refl; stores = refl })
        | inr (nick, e) ↦ elim (Option-cases (map_get a.room_keys id)) [
          | inl n ↦ rw (announce_nick, e, n) (record { online = refl; stores = refl })
          | inr (k, q) ↦ rw (announce_nick, e, q) (record { online = refl; stores = refl })
        ]
      ]

  announce_room_name-IsKept :
      (r : Random) (id : Text) (a : App Number)
      → IsKept a (announce_room_name N H S aead available r id a).0
  unfolding announce_room_name
  announce_room_name-IsKept r id a =
      elim (Option-cases (valid_name is_valid_room_name (map_get a.room_names id))) [
        | inl e ↦ rw (announce_room_name, e) (record { online = refl; stores = refl })
        | inr (name, e) ↦ elim (Option-cases (map_get a.room_keys id)) [
          | inl n ↦ rw (announce_room_name, e, n) (record { online = refl; stores = refl })
          | inr (k, q) ↦ rw (announce_room_name, e, q) (record { online = refl; stores = refl })
        ]
      ]

  announce_room-online :
      (r : AnnounceRandom) (id : Text) (s : Session Number) (a : App Number)
      → let b = (announce_room N H S aead available r id s a).0 in
        (b.last_online_by_room ≡ map_set a.last_online_by_room id s.store.online)
        × (b.stores ≡ a.stores)
  unfolding announce_room
  announce_room-online r id s a =
      elim (Bool-cases (
        less (last_online N H S aead available id a)
          (number_or_zero N H S aead available s.store.online))) [
            | inr q ↦ rw (announce_room, q) (refl, refl)
            | inl q ↦
                let reset : App Number = record a {
                  last_online_by_room = map_set a.last_online_by_room id s.store.online;
                  last_broadcast_nick_by_room = map_set a.last_broadcast_nick_by_room id none;
                  last_broadcast_room_name_by_room =
                      map_set a.last_broadcast_room_name_by_room id none;
                } in
                let nick = announce_nick-IsKept r.for_nick id s reset in
                let name =
                  announce_room_name-IsKept r.for_name id
                    (announce_nick N H S aead available r.for_nick id s reset).0 in
                rw (announce_room, q) (name.online ∙ nick.online, name.stores ∙ nick.stores)
          ]

  announce_rooms-online :
      (r : Text → AnnounceRandom) (rooms : Rooms) (a : App Number)
      → let b = (announce_rooms N H S aead available r rooms a).0 in
        (b.last_online_by_room ≡ set_all rooms a.last_online_by_room) × (b.stores ≡ a.stores)
  unfolding announce_rooms set_all
  announce_rooms-online r [] a = (refl, refl)
  announce_rooms-online r ((id, s) ∷ rest) a =
      let (online, stores) = announce_room-online (r id) id s a in
      let (rest_online, rest_stores) =
        announce_rooms-online r rest (announce_room N H S aead available (r id) id s a).0 in
      (rest_online ∙ ap (set_all rest) online, rest_stores ∙ stores)

  -- The rooms whose number of members was the last that was seen.
  abbrev AllSeen : Rooms → List (Text × Option Number) → Type 0
  AllSeen [] m = Unit {0}
  AllSeen ((id, s) ∷ rest) m = (map_get m id ≡ some s.store.online) × AllSeen rest m

  AllSeen-same :
      (rooms : Rooms) (m n : List (Text × Option Number))
      → ((k : Text) → map_get m k ≡ map_get n k)
      → AllSeen rooms n
      → AllSeen rooms m
  AllSeen-same [] m n e h = tt
  AllSeen-same ((id, s) ∷ rest) m n e (h, hs) = (e id ∙ h, AllSeen-same rest m n e hs)

  set_all-absent :
      (rooms : Rooms) (m : List (Text × Option Number)) (k : Text)
      → set_has (ids_of rooms) k ≡ false
      → map_get (set_all rooms m) k ≡ map_get m k
  unfolding set_all set_has
  set_all-absent [] m k h = refl
  set_all-absent ((id, s) ∷ rest) m k h =
      set_all-absent rest (map_set m id s.store.online) k (ground arith)
      ∙ map_get-set_other m id k s.store.online (ground arith)

  set_all-AllSeen :
      (rooms : Rooms) (m : List (Text × Option Number))
      → IsDistinct (ids_of rooms)
      → AllSeen rooms (set_all rooms m)
  unfolding set_all
  set_all-AllSeen [] m d = tt
  set_all-AllSeen ((id, s) ∷ rest) m (d, ds) = (
    set_all-absent rest (map_set m id s.store.online) id d ∙ map_get-set_same m id s.store.online,
    set_all-AllSeen rest (map_set m id s.store.online) ds,
  )

  map_get-set_again :
      (m : List (Text × Option Number)) (k j : Text) (v : Option Number)
      → map_get m k ≡ some v
      → map_get (map_set m k v) j ≡ map_get m j
  map_get-set_again m k j v e = ground (arith, map_get-set m k j v, text_eq_iff k j)

  module _ (irreflexive : (x : Number) → less x x ≡ false) where
    announce_room-quiet :
        (r : AnnounceRandom) (id : Text) (s : Session Number) (a : App Number)
        → map_get a.last_online_by_room id ≡ some s.store.online
        → (announce_room N H S aead available r id s a).1 ≡ []
    unfolding announce_room
    announce_room-quiet r id s a e =
        let x = number_or_zero N H S aead available s.store.online in
        let last : last_online N H S aead available id a ≡ x =
          ap
            (λ (o : Option (Option Number)). elim o [
              | none ↦ N.of_nat 0
              | some y ↦ number_or_zero N H S aead available y
            ])
            e in
        let calm : less (last_online N H S aead available id a) x ≡ false =
          ap (λ y. less y x) last ∙ irreflexive x in
        rw (announce_room, calm) refl

    announce_rooms-quiet :
        (r : Text → AnnounceRandom) (rooms : Rooms) (a : App Number)
        → AllSeen rooms a.last_online_by_room
        → (announce_rooms N H S aead available r rooms a).1 ≡ []
    unfolding announce_rooms
    announce_rooms-quiet r [] a h = refl
    announce_rooms-quiet r ((id, s) ∷ rest) a (h, hs) =
        let b = (announce_room N H S aead available (r id) id s a).0 in
        let (online, stores) = announce_room-online (r id) id s a in
        let seen : AllSeen rest b.last_online_by_room =
          AllSeen-same rest b.last_online_by_room a.last_online_by_room
            (λ k.
              ap (λ m. map_get m k) online
              ∙ map_get-set_again a.last_online_by_room id k s.store.online h)
            hs in
        rw (announce_room-quiet (r id) id s a h) (announce_rooms-quiet r rest b seen)

    -- Where no number is less than itself and no two stores have the same id, the effect that
    -- announces names leaves the stores as they are, and run again at once it announces nothing.
    pub announce-quiet :
        (r q : Text → AnnounceRandom) (a : App Number)
        → IsDistinct (ids_of a.stores)
        → let b = (announce N H S aead available r a).0 in
          ((announce N H S aead available q b).1 ≡ []) × (b.stores ≡ a.stores)
    unfolding announce
    announce-quiet r q a d =
        let b = (announce N H S aead available r a).0 in
        let (online, stores) = announce_rooms-online r a.stores a in
        let seen : AllSeen a.stores b.last_online_by_room =
          subst (AllSeen a.stores) (sym online)
            (set_all-AllSeen a.stores a.last_online_by_room d) in
        (
          ap (λ rooms. (announce_rooms N H S aead available q rooms b).1) stores
              ∙ announce_rooms-quiet q a.stores b seen,
          stores,
        )
