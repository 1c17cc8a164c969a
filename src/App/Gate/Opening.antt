-- ===== src/App/Gate/Opening.antt =====
-- Opening the store of a room in frontend/src/App.svelte.
use private_chat.Prelude.{
  ◌≡◌, refl, sym, ap, ap₂, subst, ◌∙◌, ◌⊎◌, inl, inr, Bool, true, false, not, none, some,
  if◌then◌else◌, Bool-cases,
}
use private_chat.Result.{ok, Result-cases}
use private_chat.Text.{Text, codes}
use private_chat.Collections.{map_get, map_has, map_set, map_get-set_same}
use private_chat.Json.{Numbers}
use private_chat.E2ee.Envelope.{is_channel_id}
use private_chat.E2ee.AesGcm.{Aead, RoomKey, Crypto, import_room_key, create_aes_gcm_crypto}
use private_chat.Transport.{Handlers}
use private_chat.App.{Complaint, literal, App, channel_id, strip_hash}
use private_chat.E2ee.AesGcm.Keys.{create_crypto}
use private_chat.App.Gate.{
  through, KeySource, in_link, kept, pasted, nowhere, Connecting, ask_nick, begin_connect, keep_key,
  crypto_for, get_crypto, open_session, end_connect,
}
use private_chat.App.Gate.Beginning.{IsOpening, begin_connect-cases, key_source-kept}

-- The key that a source gives.
abbrev pub IsKeyFrom : Bool → KeySource → RoomKey → Type 0
IsKeyFrom available (in_link b64) k = import_room_key available b64 ≡ ok k
IsKeyFrom available (kept old) k = old ≡ k
IsKeyFrom available (pasted b64) k = import_room_key available b64 ≡ ok k
IsKeyFrom available nowhere k = ⊥

module _ (N : Numbers) (H : Handlers) (aead : Aead) (available : Bool) where
  open N use {Number}

  abbrev IsCrypto : Text → KeySource → App Number → App Number × (Complaint ⊎ Crypto) → Type 0
  IsCrypto id source a (a', answer) =
      ((k : RoomKey) × (crypto : Crypto) × (answer ≡ inr crypto)
        × IsKeyFrom available source k
        × (create_aes_gcm_crypto aead available k id ≡ ok crypto)
        × (a'.stores ≡ a.stores)
        × (map_get a'.room_keys id ≡ some k))
      ⊎ ((complaint : Complaint) × (answer ≡ inl complaint) × (a' ≡ a))

  crypto_for-ok :
      (id : Text) (k : RoomKey)
      → is_channel_id id ≡ true
      → (crypto : Crypto) × (crypto_for aead available id k ≡ inr crypto)
        × (create_aes_gcm_crypto aead available k id ≡ ok crypto)
  crypto_for-ok id k h =
      let (crypto, e) = create_crypto aead available k id h in (crypto, rw (crypto_for, e) refl, e)

  get_crypto-IsCrypto :
      (id : Text) (source : KeySource) (a : App Number)
      → is_channel_id id ≡ true
      → ((old : RoomKey) → source ≡ kept old → map_get a.room_keys id ≡ some old)
      → IsCrypto id source a (get_crypto N H aead available id source a)
  unfolding get_crypto strip_hash keep_key
  get_crypto-IsCrypto id nowhere a h o = inr (_, refl, refl)
  get_crypto-IsCrypto id (kept k) a h o =
      let (crypto, e, q) = crypto_for-ok id k h in inl (k, crypto, e, refl, q, refl, o k refl)
  get_crypto-IsCrypto id (in_link b64) a h o = elim (Result-cases (import_room_key available b64)) [
    | inr (e, q) ↦ rw (get_crypto, q) (inr (_, refl, refl))
    | inl (k, q) ↦
        let (crypto, e, r) = crypto_for-ok id k h in
        rw (get_crypto, q) (inl (k, crypto, e, refl, r, refl, map_get-set_same a.room_keys id k))
  ]
  get_crypto-IsCrypto id (pasted b64) a h o = elim (Result-cases (import_room_key available b64)) [
    | inr (e, q) ↦ rw (get_crypto, q) (inr (_, refl, refl))
    | inl (k, q) ↦
        let (crypto, e, r) = crypto_for-ok id k h in
        rw (get_crypto, q) (inl (k, crypto, e, refl, r, refl, map_get-set_same a.room_keys id k))
  ]

  -- Either the room has a store with the key of its source, or nothing but the error has changed.
  abbrev pub IsOpened : Connecting → App Number → App Number → Type 0
  IsOpened c a a' =
      ((k : RoomKey) × (crypto : Crypto) × IsKeyFrom available c.source k
        × (create_aes_gcm_crypto aead available k c.id ≡ ok crypto)
        × (a'.stores ≡ map_set a.stores c.id (open_session N H c.id crypto))
        × (map_get a'.room_keys c.id ≡ some k)
        × (a'.key_error ≡ none))
      ⊎ ((complaint : Complaint) × (a' ≡ record a { key_error = some complaint }))

  abbrev settled : Connecting → App Number × (Complaint ⊎ Crypto) → App Number
  settled c (a', answer) = elim answer [
    | inl complaint ↦ record a' { key_error = some complaint }
    | inr crypto ↦ if map_has a'.stores c.id then a' else record a' {
      stores = map_set a'.stores c.id (open_session N H c.id crypto);
      key_error = none;
    }
  ]

  settled-IsOpened :
      (c : Connecting) (a : App Number) (p : App Number × (Complaint ⊎ Crypto))
      → map_has a.stores c.id ≡ false
      → IsCrypto c.id c.source a p
      → IsOpened c a (settled c p)
  settled-IsOpened c a (a', answer) u (inr (complaint, e, q)) =
      subst (λ r. IsOpened c a (settled c (a', r))) (sym e)
        (inr (complaint, ap (λ (b : App Number). record b { key_error = some complaint }) q))
  settled-IsOpened c a (a', answer) u (inl (k, crypto, e, from, q, s, kk)) =
      let absent : map_has a'.stores c.id ≡ false = ap (λ m. map_has m c.id) s ∙ u in
      subst (λ r. IsOpened c a (settled c (a', r))) (sym e)
        (inl (
          k,
          crypto,
          from,
          q,
          ap
                (λ b.
                  (if b then a' else record a' {
                    stores = map_set a'.stores c.id (open_session N H c.id crypto);
                    key_error = none;
                  }).stores)
                absent
              ∙ ap (λ m. map_set m c.id (open_session N H c.id crypto)) s,
          ap
                (λ b.
                  map_get
                    (if b then a' else record a' {
                      stores = map_set a'.stores c.id (open_session N H c.id crypto);
                      key_error = none;
                    }).room_keys
                    c.id)
                absent
              ∙ kk,
          ap
              (λ b.
                (if b then a' else record a' {
                  stores = map_set a'.stores c.id (open_session N H c.id crypto);
                  key_error = none;
                }).key_error)
              absent,
        ))

  -- Behind the import the room is opened, or an error is shown.
  end_connect-IsOpened :
      (c : Connecting) (a : App Number)
      → is_channel_id c.id ≡ true
      → map_has a.stores c.id ≡ false
      → ((old : RoomKey) → c.source ≡ kept old → map_get a.room_keys c.id ≡ some old)
      → IsOpened c a (end_connect N H aead available c a)
  unfolding end_connect
  end_connect-IsOpened c a h u o = elim (Bool-cases available) [
    | inr off ↦ rw (end_connect, off) (inr (_, refl))
    | inl on ↦
        subst (IsOpened c a)
          (ap
            (λ b.
              if not b
              then record a {
                key_error = some (literal (codes "E2EE requires HTTPS or localhost"));
              }
              else settled c (get_crypto N H aead available c.id c.source a))
            (sym on))
          (settled-IsOpened c a (get_crypto N H aead available c.id c.source a) u
            (get_crypto-IsCrypto c.id c.source a h o))
  ]

  -- The effect that connects either changes nothing, or asks for a nickname, or begins to connect a
  -- room with a valid id, a nickname and no store; then either the room's store is opened with a
  -- crypto for the key that its source gives, or nothing but the error text has changed.
  pub connect_effect-IsOpened :
      (a : App Number)
      → let a' = through (begin_connect a) (end_connect N H aead available) in
        (a' ≡ a)
        ⊎ (a' ≡ ask_nick (channel_id a) a)
        ⊎ ((c : Connecting) × IsOpening a c × IsOpened c a a')
  connect_effect-IsOpened a =
      let finish = end_connect N H aead available in
      elim (begin_connect-cases a) [
        | inr (stopped, inl same) ↦
            inl (ap (λ job. through ((begin_connect a).0, job) finish) stopped ∙ same)
        | inr (stopped, inr asked) ↦
            inr (inl (ap (λ job. through ((begin_connect a).0, job) finish) stopped ∙ asked))
        | inl (c, started, same, opening, source) ↦
            let e : through (begin_connect a) finish ≡ finish c a =
              ap₂ (λ b job. through (b, job) finish) same started in
            let kept_key = λ (old : RoomKey) (q : c.source ≡ kept old).
              key_source-kept c.id a.pending_hash_key a old (sym source ∙ q) in
            inr (
              inr (
                c,
                opening,
                subst (IsOpened c a) (sym e)
                    (end_connect-IsOpened c a opening.id_valid opening.unopened kept_key),
              ))
      ]
