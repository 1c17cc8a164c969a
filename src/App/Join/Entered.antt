-- ===== src/App/Join/Entered.antt =====
-- A room that was entered, in frontend/src/App.svelte, and the effect that then connects it.
use private_chat.Prelude.{◌≡◌, refl, ap, ◌∙◌, true, false, none, some}
use private_chat.Result.{ok}
use private_chat.Text.{Text, trim}
use private_chat.Collections.{map_get, map_has, map_get-set_same, map_has-get}
use private_chat.Json.{Numbers}
use private_chat.E2ee.Envelope.{is_channel_id}
use private_chat.E2ee.AesGcm.{Aead, RoomKey, Crypto, import_room_key, create_aes_gcm_crypto}
use private_chat.E2ee.AesGcm.Keys.{create_crypto}
use private_chat.Transport.{Handlers}
use private_chat.App.{App, channel_id_of, room_path, channel_id}
use private_chat.App.Gate.{
  kept, key_source, begin_connect, crypto_for, get_crypto, open_session, end_connect,
}
use private_chat.App.Address.{channel_id_of-room_path}

-- A room whose nick is confirmed, behind the gate.
pub record IsEntered {F : Type 0} (a : App F) (id nick : Text) (k : RoomKey) (s : App F)
    : Type 0 where
  pub path : s.path ≡ room_path id
  pub no_hash : s.pending_hash_key ≡ none
  pub key : map_get s.room_keys id ≡ some k
  pub named : map_get s.self_nicks id ≡ some nick
  pub stores : s.stores ≡ a.stores

key_source-kept :
    {F : Type 0} (id : Text) (k : RoomKey) (s : App F)
    → map_get s.room_keys id ≡ some k
    → key_source id none s ≡ kept k
unfolding key_source
key_source-kept id k s e = rw (key_source, e) refl

-- An application that shows a room whose nick is known begins to connect with the key that it has.
pub begin_connect-entered :
    {F : Type 0} (a : App F) (id nick : Text) (k : RoomKey) (s : App F)
    → is_channel_id id ≡ true
    → map_has a.stores id ≡ false
    → IsEntered a id nick k s
    → begin_connect s ≡ (s, some (record { id = id; source = kept k }))
unfolding begin_connect
begin_connect-entered a id nick k s i u f =
    let shown : channel_id s ≡ id = ap channel_id_of f.path ∙ channel_id_of-room_path id i in
    let absent : map_has s.stores id ≡ false = ap (λ m. map_has m id) f.stores ∙ u in
    let source : key_source id s.pending_hash_key s ≡ kept k =
      ap (λ hash. key_source id hash s) f.no_hash ∙ key_source-kept id k s f.key in
    let known = map_has-get s.self_nicks id nick f.named in
    rw (begin_connect, shown, i, known, absent, source) refl

module _ (N : Numbers) (H : Handlers) (aead : Aead) where
  open N use {Number}

  -- A room of which the store is connecting, with the key and the nick.
  pub record IsJoined (id key nick : Text) (a : App Number) : Type 0 where
    pub k : RoomKey
    pub imported : import_room_key true key ≡ ok k
    pub crypto : Crypto
    pub created : create_aes_gcm_crypto aead true k id ≡ ok crypto
    pub stored : map_get a.stores id ≡ some (open_session N H id crypto)
    pub named : map_get a.self_nicks id ≡ some (trim nick)
    pub shown : channel_id a ≡ id
    pub no_error : a.key_error ≡ none

  pub end_connect-entered :
      (a s : App Number) (id key nick : Text) (k : RoomKey)
      → is_channel_id id ≡ true
      → map_has a.stores id ≡ false
      → import_room_key true key ≡ ok k
      → IsEntered a id (trim nick) k s
      → IsJoined id key nick (end_connect N H aead true (record { id = id; source = kept k }) s)
  unfolding end_connect get_crypto
  end_connect-entered a s id key nick k i u e f =
      let (crypto, q) = create_crypto aead true k id i in
      let open_before : map_has s.stores id ≡ false = ap (λ m. map_has m id) f.stores ∙ u in
      rw (end_connect, get_crypto, crypto_for, q, open_before)
        (record {
          k = k;
          imported = e;
          crypto = crypto;
          created = q;
          stored = map_get-set_same s.stores id (open_session N H id crypto);
          named = f.named;
          shown = ap channel_id_of f.path ∙ channel_id_of-room_path id i;
          no_error = refl;
        })

  -- Connecting leaves the names of rooms as they are.
  pub end_connect-room_names :
      (s : App Number) (id : Text) (k : RoomKey)
      → is_channel_id id ≡ true
      → map_has s.stores id ≡ false
      → (end_connect N H aead true (record { id = id; source = kept k }) s).room_names
        ≡ s.room_names
  unfolding end_connect get_crypto
  end_connect-room_names s id k i u =
      let (crypto, q) = create_crypto aead true k id i in
      rw (end_connect, get_crypto, crypto_for, q, u) refl
