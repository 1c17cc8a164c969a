-- ===== src/App/Rotate/Switched.antt =====
-- What `rotateKeyViaE2EE` of frontend/src/App.svelte does to the key of a room once it is sent.
use private_chat.Prelude.{
  ◌≡◌, refl, ap, subst, inl, inr, Bool, true, false, Option, none, some, if◌then◌else◌,
}
use private_chat.Result.{ok, throw, >>=-eq-ok, Result-cases}
use private_chat.Text.{Text, codes, text_eq}
use private_chat.Collections.{map_get, map_set, map_get-set_same, map_get-set_other, map_has-get}
use private_chat.Json.{Numbers, Json}
use private_chat.E2ee.Base64.{Bytes}
use private_chat.E2ee.Envelope.{is_channel_id}
use private_chat.E2ee.AesGcm.{
  Aead, Crypto, generate_room_key, export_room_key, import_room_key, create_aes_gcm_crypto,
}
use private_chat.E2ee.AesGcm.Keys.{create_crypto}
use private_chat.Codec.{encode}
use private_chat.Transport.{Transport, Handlers, send_raw}
use private_chat.Channel.{ChannelStore, complain, update_crypto}
use private_chat.Channel.Send.{Sent, payload_json, send_json, send_key_update}
use private_chat.App.{Session, App, channel_id, change_store}
use private_chat.App.Gate.{keep_key}
use private_chat.App.Join.{NewKey, make_key}
use private_chat.App.Rename.{call_store}
use private_chat.App.Rotate.{switch_key}

-- The key, the key's text and the crypto of the store of a room belong together.
pub record IsKeyed {F : Type 0} (aead : Aead) (available : Bool) (id : Text) (new : NewKey)
    (a : App F) : Type 0 where
  pub key : map_get a.room_keys id ≡ some new.key
  pub b64 : map_get a.room_key_b64 id ≡ some new.b64
  pub imported : import_room_key available new.b64 ≡ ok new.key
  pub session : Session F
  pub stored : map_get a.stores id ≡ some session
  pub crypto : create_aes_gcm_crypto aead available new.key id ≡ ok session.store.crypto

abbrev pub stored_crypto : {F : Type 0} → Option (Session F) → Option Crypto
stored_crypto none = none
stored_crypto (some s) = some s.store.crypto

-- The keys of a room, and the crypto that its store uses, are the same in both.
pub record IsSameKey {F : Type 0} (id : Text) (a b : App F) : Type 0 where
  pub key : map_get a.room_keys id ≡ map_get b.room_keys id
  pub b64 : map_get a.room_key_b64 id ≡ map_get b.room_key_b64 id
  pub crypto : stored_crypto (map_get a.stores id) ≡ stored_crypto (map_get b.stores id)

make_key-import :
    (available : Bool) (raw : Bytes) (new : NewKey)
    → make_key available raw ≡ ok new
    → import_room_key available new.b64 ≡ ok new.key
unfolding make_key
make_key-import available raw new e =
    let (tmp, _, e1) = >>=-eq-ok (generate_room_key available raw) _ e in
    let (b64, _, e2) = >>=-eq-ok (export_room_key tmp) _ e1 in
    let (key, e3, e4) = >>=-eq-ok (import_room_key available b64) _ e2 in
    subst (λ r. elim r [ throw e ↦ Unit {0} | ok n ↦ import_room_key available n.b64 ≡ ok n.key ])
      e4 e3

-- A call on a store that keeps its crypto.
pub call_store-stored :
    {F : Type 0} (id : Text) (send : ChannelStore F → Transport → Sent F) (a : App F)
    (s : Session F)
    → map_get a.stores id ≡ some s
    → let out = send s.store s.transport in
      call_store id send a ≡ (
        record a {
          stores = map_set a.stores id (record { store = out.store; transport = out.transport });
        },
        some out.answer,
      )
unfolding call_store
call_store-stored id send a s e = rw (call_store, e) refl

complain-crypto :
    {F : Type 0} (b : Bool) (notice : Text) (s : ChannelStore F)
    → (if b then s else complain notice s).crypto ≡ s.crypto
complain-crypto true notice s = refl
complain-crypto false notice s = refl

send_json-crypto :
    (N : Numbers) (H : Handlers) (msg : Json N.Number) (s : ChannelStore N.Number) (w : Transport)
    → (send_json N H msg s w).store.crypto ≡ s.crypto
unfolding send_json
send_json-crypto N H msg s w = elim (Result-cases (encode N msg)) [
  | inr (e, q) ↦ rw (send_json, q) refl
  | inl (raw, q) ↦
      rw (send_json, q) (complain-crypto (send_raw H raw w).1 (codes "not connected (queued)") s)
]

pub send_key_update-crypto :
    (N : Numbers) (H : Handlers) (wrapped : Text) (s : ChannelStore N.Number) (w : Transport)
    → (send_key_update N H wrapped s w).store.crypto ≡ s.crypto
unfolding send_key_update
send_key_update-crypto N H wrapped s w =
    send_json-crypto N H (payload_json (codes "key_update") s.channel_id wrapped) s w

module _ (aead : Aead) (available : Bool) where
  pub switch_key-IsKeyed :
      {F : Type 0} (new : NewKey) (a : App F) (s : Session F)
      → is_channel_id (channel_id a) ≡ true
      → map_get a.stores (channel_id a) ≡ some s
      → import_room_key available new.b64 ≡ ok new.key
      → let (a', done) = switch_key aead available new a in
        (done ≡ true) × IsKeyed aead available (channel_id a) new a'
  unfolding switch_key keep_key change_store update_crypto
  switch_key-IsKeyed new a s h e i =
      let id = channel_id a in
      let (crypto, q) = create_crypto aead available new.key id h in
      rw (switch_key, map_has-get a.stores id s e, q, change_store, e)
        (
          refl,
          record {
            key = map_get-set_same a.room_keys id new.key;
            b64 = map_get-set_same a.room_key_b64 id new.b64;
            imported = i;
            session = record s { store = update_crypto crypto s.store };
            stored =
                map_get-set_same a.stores id (record s { store = update_crypto crypto s.store });
            crypto = q;
          },
        )

  pub switch_key-IsSameKey :
      {F : Type 0} (new : NewKey) (a : App F) (s : Session F) (other : Text)
      → is_channel_id (channel_id a) ≡ true
      → map_get a.stores (channel_id a) ≡ some s
      → text_eq (channel_id a) other ≡ false
      → IsSameKey other (switch_key aead available new a).0 a
  unfolding switch_key keep_key change_store
  switch_key-IsSameKey new a s other h e n =
      let id = channel_id a in
      let (crypto, q) = create_crypto aead available new.key id h in
      rw (switch_key, map_has-get a.stores id s e, q, change_store, e)
        (record {
          key = map_get-set_other a.room_keys id other new.key n;
          b64 = map_get-set_other a.room_key_b64 id other new.b64 n;
          crypto = ap stored_crypto (
              map_get-set_other a.stores id other
                (record s { store = update_crypto crypto s.store }) n);
        })
