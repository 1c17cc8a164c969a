-- ===== src/App/Gate/Beginning.antt =====
-- When the effect in frontend/src/App.svelte begins to connect a room, and from where it takes a kept key.
use private_chat.Prelude.{
  ◌≡◌, refl, sym, ap, ◌∙◌, ◌≢◌, ◌⊎◌, inl, inr, true, false, Option, none, some, Bool-cases,
  Option-cases,
}
use private_chat.Text.{Text}
use private_chat.Collections.{map_get, map_has}
use private_chat.E2ee.Envelope.{is_channel_id}
use private_chat.E2ee.AesGcm.{RoomKey}
use private_chat.App.{App, channel_id}
use private_chat.App.Gate.{
  if_truthy, input_key, in_link, kept, pasted, nowhere, Connecting, key_source, ask_nick,
  begin_connect,
}
use private_chat.App.Address.{is_room_path-channel_id}

-- A connection is opened only for a valid id whose room has a nick and no store yet.
pub record IsOpening {F : Type 0} (a : App F) (c : Connecting) : Type 0 where
  pub shown : c.id ≡ channel_id a
  pub id_valid : is_channel_id c.id ≡ true
  pub unopened : map_has a.stores c.id ≡ false
  pub named : map_has a.self_nicks c.id ≡ true

-- Either the page stays, or the gate asks, or a connection begins.
pub begin_connect-cases :
    {F : Type 0} (a : App F)
    → let (a', job) = begin_connect a in
      ((c : Connecting) × (job ≡ some c)
        × (a' ≡ a)
        × IsOpening a c
        × (c.source ≡ key_source c.id a.pending_hash_key a))
      ⊎ ((job ≡ none) × ((a' ≡ a) ⊎ (a' ≡ ask_nick (channel_id a) a)))
unfolding begin_connect
begin_connect-cases a =
    let id = channel_id a in
    elim (Bool-cases (is_channel_id id)) [
      | inr h ↦ rw (begin_connect, h) (inr (refl, inl refl))
      | inl h ↦ elim (Bool-cases (map_has a.self_nicks id)) [
        | inr n ↦ rw (begin_connect, h, n, is_room_path-channel_id a.path h) (inr (refl, inr refl))
        | inl n ↦ elim (Bool-cases (map_has a.stores id)) [
          | inl s ↦ rw (begin_connect, h, n, s) (inr (refl, inl refl))
          | inr s ↦
              rw (begin_connect, h, n, s)
                (inl (
                  record { id = id; source = key_source id a.pending_hash_key a },
                  refl,
                  refl,
                  record { shown = refl; id_valid = h; unopened = s; named = n },
                  refl,
                ))
        ]
      ]
    ]

-- A key that a source takes from the map is in the map.
in_link-kept : (b64 : Text) (k : RoomKey) → in_link b64 ≢ kept k
in_link-kept b64 k e = cc

pasted-kept : (b64 : Text) (k : RoomKey) → pasted b64 ≢ kept k
pasted-kept b64 k e = cc

nowhere-kept : (k : RoomKey) → nowhere ≢ kept k
nowhere-kept k e = cc

kept_injective : (k old : RoomKey) → kept k ≡ kept old → k ≡ old
kept_injective k old e = cc

pub key_source-kept :
    {F : Type 0} (id : Text) (hash : Option Text) (a : App F) (old : RoomKey)
    → key_source id hash a ≡ kept old
    → map_get a.room_keys id ≡ some old
unfolding key_source
key_source-kept id hash a old e = elim (Option-cases (if_truthy hash)) [
  | inr (b64, h) ↦
      let q : key_source id hash a ≡ in_link b64 = rw (key_source, h) refl in
      absurd (in_link-kept b64 old (sym q ∙ e))
  | inl h ↦ elim (Option-cases (map_get a.room_keys id)) [
    | inr (k, n) ↦
        let q : key_source id hash a ≡ kept k = rw (key_source, h, n) refl in
        n ∙ ap some (kept_injective k old (sym q ∙ e))
    | inl n ↦ elim (Option-cases (input_key a.key_input)) [
      | inr (b64, i) ↦
          let q : key_source id hash a ≡ pasted b64 = rw (key_source, h, n, i) refl in
          absurd (pasted-kept b64 old (sym q ∙ e))
      | inl i ↦
          let q : key_source id hash a ≡ nowhere = rw (key_source, h, n, i) refl in
          absurd (nowhere-kept old (sym q ∙ e))
    ]
  ]
]
