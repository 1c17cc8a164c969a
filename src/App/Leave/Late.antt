-- ===== src/App/Leave/Late.antt =====
-- Leaving a room of frontend/src/App.svelte while its key is still being imported.
use private_chat.Prelude.{
  ◌≡◌, refl, sym, ap, subst, ◌∙◌, ◌⊎◌, inl, inr, true, false, none, some, [], if◌then◌else◌,
}
use private_chat.Result.{ok}
use private_chat.Text.{Text, codes}
use private_chat.Collections.{map_get, map_has, map_set, map_has-none, map_get-set_same}
use private_chat.Json.{Numbers}
use private_chat.E2ee.Envelope.{is_channel_id}
use private_chat.E2ee.AesGcm.{Aead, RoomKey, Crypto, import_room_key, create_aes_gcm_crypto}
use private_chat.E2ee.AesGcm.Keys.{create_crypto}
use private_chat.Transport.{Handlers}
use private_chat.App.{Complaint, App, channel_id, strip_hash}
use private_chat.App.Gate.{in_link, crypto_for, keep_key, get_crypto, open_session, end_connect}
use private_chat.App.Leave.{leave_room}
use private_chat.App.Leave.Forgets.{truthy_id, leave_room-IsForgotten}

module _ (N : Numbers) (H : Handlers) (aead : Aead) where
  open N use {Number}

  abbrev with_link_key : Text → Text → RoomKey → App Number → App Number
  with_link_key id b64 k a = strip_hash (record (keep_key id k b64 a) { key_input = [] })

  abbrev with_store : Text → Crypto → App Number → App Number
  with_store id crypto a = record a {
    stores = map_set a.stores id (open_session N H id crypto);
    key_error = none;
  }

  abbrev settled : Text → App Number × (Complaint ⊎ Crypto) → App Number
  settled id (a, answer) = elim answer [
    | inl complaint ↦ record a { key_error = some complaint }
    | inr crypto ↦ if map_has a.stores id then a else with_store id crypto a
  ]

  -- The key of a link that is imported opens the store of a room that has none.
  end_connect-link :
      (a : App Number) (id b64 : Text) (k : RoomKey) (crypto : Crypto)
      → create_aes_gcm_crypto aead true k id ≡ ok crypto
      → import_room_key true b64 ≡ ok k
      → map_has a.stores id ≡ false
      → end_connect N H aead true (record { id = id; source = in_link b64 }) a
        ≡ with_store id crypto (with_link_key id b64 k a)
  unfolding end_connect get_crypto strip_hash keep_key
  end_connect-link a id b64 k crypto q e u =
      let b = with_link_key id b64 k a in
      let got : get_crypto N H aead true id (in_link b64) a ≡ (b, inr crypto) =
        rw (get_crypto, e, crypto_for, q) refl in
      ap (settled id) got ∙ ap (λ t. if t then b else with_store id crypto b) u

  link_key-kept :
      (a : App Number) (id b64 : Text) (k : RoomKey) (crypto : Crypto)
      → let b = with_store id crypto (with_link_key id b64 k a) in
        (map_get b.stores id ≡ some (open_session N H id crypto))
        × (map_get b.room_key_b64 id ≡ some b64)
        × (map_get b.self_nicks id ≡ map_get a.self_nicks id)
        × (b.path ≡ a.path)
  unfolding strip_hash keep_key
  link_key-kept a id b64 k crypto = (
    map_get-set_same a.stores id (open_session N H id crypto),
    map_get-set_same a.room_key_b64 id b64,
    refl,
    refl,
  )

  -- If a room is left while the key of its link is still being imported, the end of the import
  -- opens a store of the room that was left and keeps its key, without a nickname and on the home
  -- page.
  pub left_room-reopened :
      (a : App Number) (b64 : Text) (k : RoomKey)
      → is_channel_id (channel_id a) ≡ true
      → import_room_key true b64 ≡ ok k
      → let id = channel_id a in
        let b =
          end_connect N H aead true (record { id = id; source = in_link b64 }) (leave_room N H a) in
        (crypto : Crypto) × (map_get b.stores id ≡ some (open_session N H id crypto))
        × (map_get b.room_key_b64 id ≡ some b64)
        × (map_get b.self_nicks id ≡ none)
        × (b.path ≡ codes "/")
  left_room-reopened a b64 k i e =
      let id = channel_id a in
      let (forgotten, _, home) = leave_room-IsForgotten N H a (truthy_id id i) in
      let (crypto, q) = create_crypto aead true k id i in
      let a' = leave_room N H a in
      let (stored, kept, nick, path) = link_key-kept a' id b64 k crypto in
      subst
        (λ b.
          (c : Crypto) × (map_get b.stores id ≡ some (open_session N H id c))
          × (map_get b.room_key_b64 id ≡ some b64)
          × (map_get b.self_nicks id ≡ none)
          × (b.path ≡ codes "/"))
        (sym (end_connect-link a' id b64 k crypto q e (map_has-none a'.stores id forgotten.stores)))
        (crypto, stored, kept, nick ∙ forgotten.names.1, path ∙ home)
