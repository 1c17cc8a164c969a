-- ===== src/App/Rotate/Keys.antt =====
-- The keys of a room behind a rotation in frontend/src/App.svelte.
use private_chat.Prelude.{
  ◌≡◌, refl, sym, ap, subst, ◌∙◌, ◌⊎◌, inl, inr, Bool, true, false, Option, none, some, Bool-cases,
}
use private_chat.Result.{ok}
use private_chat.Text.{Text, codes, text_eq}
use private_chat.Collections.{map_get, map_set, map_get-set_same, map_get-set_other}
use private_chat.Json.{Numbers}
use private_chat.E2ee.Envelope.{is_channel_id}
use private_chat.E2ee.AesGcm.{Aead, import_room_key}
use private_chat.Transport.{Handlers}
use private_chat.Channel.Send.{Sent, send_key_update}
use private_chat.App.{literal, null_read, Session, App, channel_id}
use private_chat.App.Rotate.{Rotation, rotation_failed, switch_key, send_rotation}
use private_chat.App.Rotate.Switched.{
  IsKeyed, stored_crypto, IsSameKey, call_store-stored, send_key_update-crypto, switch_key-IsKeyed,
  switch_key-IsSameKey,
}

module _ (N : Numbers) (H : Handlers) (aead : Aead) (available : Bool) where
  open N use {Number}

  -- The application behind a call of the store that is shown.
  abbrev pub after_call : App Number → Sent Number → App Number
  after_call a out = record a {
    stores =
        map_set a.stores (channel_id a) (record { store = out.store; transport = out.transport });
  }

  after_call-stored :
      (a : App Number) (out : Sent Number)
      → map_get (after_call a out).stores (channel_id a)
        ≡ some (record { store = out.store; transport = out.transport })
  after_call-stored a out =
      let s : Session Number = record { store = out.store; transport = out.transport } in
      map_get-set_same a.stores (channel_id a) s

  after_call-IsSameKey :
      (a : App Number) (out : Sent Number) (other : Text)
      → text_eq (channel_id a) other ≡ false
      → IsSameKey other (after_call a out) a
  after_call-IsSameKey a out other n =
      let s : Session Number = record { store = out.store; transport = out.transport } in
      record {
        key = refl;
        b64 = refl;
        crypto = ap stored_crypto (map_get-set_other a.stores (channel_id a) other s n);
      }

  module _ (rotation : Rotation) (a : App Number) (s : Session Number)
      (e : map_get a.stores (channel_id a) ≡ some s) where
    abbrev pub key_sent : Sent Number
    key_sent = send_key_update N H rotation.wrapped s.store s.transport

    -- What follows a send.
    abbrev ended : App Number × Option Bool → App Number × Bool
    ended (a', answer) = elim answer [
      | none ↦ (rotation_failed null_read a', false)
      | some false ↦ (rotation_failed (literal (codes "not connected")) a', false)
      | some true ↦ switch_key aead available rotation.new a'
    ]

    send_rotation-ended :
        send_rotation N H aead available (ok rotation) a
        ≡ ended (after_call a key_sent, some key_sent.answer)
    unfolding send_rotation
    send_rotation-ended =
        ap ended (call_store-stored (channel_id a) (send_key_update N H rotation.wrapped) a s e)

    -- What a rotation leaves.
    pub record IsRotated (result : App Number × Bool) : Type 0 where
      pub answered : result.1 ≡ key_sent.answer
      pub shown :
          ((result.1 ≡ true) × IsKeyed aead available (channel_id a) rotation.new result.0)
          ⊎ ((result.1 ≡ false) × IsSameKey (channel_id a) result.0 a)
      pub others :
          (other : Text) → text_eq (channel_id a) other ≡ false → IsSameKey other result.0 a

    refused_IsRotated :
        key_sent.answer ≡ false
        → IsRotated
            (rotation_failed (literal (codes "not connected")) (after_call a key_sent), false)
    refused_IsRotated q =
        let stored = after_call-stored a key_sent in
        record {
          answered = sym q;
          shown = inr (
            refl,
            record {
              key = refl;
              b64 = refl;
              crypto =
                  ap stored_crypto stored
                  ∙ (ap some (send_key_update-crypto N H rotation.wrapped s.store s.transport)
                      ∙ ap stored_crypto (sym e));
            },
          );
          others = λ other n.
              let f = after_call-IsSameKey a key_sent other n in
              record { key = f.key; b64 = f.b64; crypto = f.crypto };
        }

    taken_IsRotated :
        is_channel_id (channel_id a) ≡ true
        → import_room_key available rotation.new.b64 ≡ ok rotation.new.key
        → key_sent.answer ≡ true
        → IsRotated (switch_key aead available rotation.new (after_call a key_sent))
    taken_IsRotated h i q =
        let b = after_call a key_sent in
        let stored = after_call-stored a key_sent in
        let s' : Session Number = record {
          store = key_sent.store;
          transport = key_sent.transport;
        } in
        let (done, keyed) = switch_key-IsKeyed aead available rotation.new b s' h stored i in
        record {
          answered = done ∙ sym q;
          shown = inl (done, keyed);
          others = λ other n.
              let f = switch_key-IsSameKey aead available rotation.new b s' other h stored n in
              let g = after_call-IsSameKey a key_sent other n in
              record { key = f.key ∙ g.key; b64 = f.b64 ∙ g.b64; crypto = f.crypto ∙ g.crypto };
        }

    -- When a rotated key, which imports from its text, is sent in a room with a valid id and a
    -- store: if the send is taken, the key, its text and the crypto of the store belong together
    -- afterwards; if not, the room keeps its key, text and crypto; in both cases every other room
    -- keeps its own.
    pub send_rotation-IsRotated :
        is_channel_id (channel_id a) ≡ true
        → import_room_key available rotation.new.b64 ≡ ok rotation.new.key
        → IsRotated (send_rotation N H aead available (ok rotation) a)
    send_rotation-IsRotated h i =
        let to_end =
          λ (b : Bool) (q : key_sent.answer ≡ b)
              (r : IsRotated (ended (after_call a key_sent, some b))).
            subst IsRotated
              (sym (send_rotation-ended ∙ ap (λ c. ended (after_call a key_sent, some c)) q)) r in
        elim (Bool-cases key_sent.answer) [
          | inl q ↦ to_end true q (taken_IsRotated h i q)
          | inr q ↦ to_end false q (refused_IsRotated q)
        ]
