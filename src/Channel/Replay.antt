-- ===== src/Channel/Replay.antt =====
-- On the replay checks of the message handler in frontend/src/channel.svelte.ts.
pub mod Runs
use private_chat.Prelude.{
  ℕ, ◌<◌, ◌≡◌, refl, ap, ◌∙◌, inl, inr, Bool, true, false, Option, none, some, [], ◌∷◌, ◌++◌,
  append_assoc, arith, Bool-cases,
}
use private_chat.Result.{Result, ok, throw}
use private_chat.Text.{Text, codes, is_truthy, is_b64url}
use private_chat.Json.Read.{is_truthy_value}
use private_chat.Json.{Numbers, Fields, get}
use private_chat.E2ee.Envelope.{is_valid_envelope}
use private_chat.E2ee.Envelope.Parts.{valid-Opened, extract-Opened}
use private_chat.E2ee.ReplayCache.{ReplayCache, has, add}
use private_chat.E2ee.ReplayCache.Fifo.{IsValid}
use private_chat.E2ee.ReplayCache.Memory.{remembered}
use private_chat.E2ee.AesGcm.{Aead}
use private_chat.Identity.{
  Signing, parse_signed_message, stale_signed_message_pk, is_unknown_structured_payload,
}
use private_chat.Codec.{Kind, message, key_updated, room_name_updated, nickname_updated}
use private_chat.Channel.{
  ChannelStore, IdentStatus, MessageIdent, verified, invalid, conflict, from_frame, is_replay,
  remember, note_ident, warn_conflict, check_connection, record_identity,
}
use private_chat.Channel.Receive.{
  Job, open_message, Content, ignored, shown, payload_of, mid_of, guarded, show_content,
  finish_message, receive_message, receive_key, receive_frame, resume, read_plain, read_signed,
  read_unsigned,
}

-- The kinds whose payload is an envelope that a peer has made.
abbrev pub is_encrypted : Kind → Bool
is_encrypted message = true
is_encrypted key_updated = true
is_encrypted room_name_updated = true
is_encrypted nickname_updated = true
is_encrypted _ = false

has-add_same : (c : ReplayCache) (id : Text) → IsValid c → 0 < c.max → has (add c id) id ≡ true
unfolding add
has-add_same c id v h = elim (Bool-cases (has c id)) [
  | inl old ↦ ground arith
  | inr new ↦ remembered c id [] v new h
]

is_b64url-truthy : (s : Text) → is_b64url s ≡ true → is_truthy s ≡ true
unfolding is_b64url
is_b64url-truthy [] h = ground arith
is_b64url-truthy (c ∷ s) h = refl

module _ {F : Type 0} where
  -- Nothing but the error text is changed, and nothing waits.
  pub record Refused (s : ChannelStore F) (r : ChannelStore F × Option (Job F)) : Type 0 where
    pub only_error : r.0 ≡ record s { error = r.0.error }
    pub no_job : r.1 ≡ none

  guarded-Refused :
      (a b : Text) (o : Fields F) (job : Job F) (s : ChannelStore F)
      → is_replay (mid_of o) s ≡ true
      → Refused s (guarded a b o job s)
  unfolding guarded
  guarded-Refused a b o job s h = elim (Bool-cases (is_valid_envelope (payload_of o))) [
    | inl e ↦ rw (e, h) (record { only_error = refl; no_job = refl })
    | inr e ↦ rw e (record { only_error = refl; no_job = refl })
  ]

  warn_conflict-cache :
      (i : MessageIdent) (id from : Text) (ts : ℕ) (s : ChannelStore F)
      → (warn_conflict i id from ts s).replay_cache ≡ s.replay_cache
  unfolding warn_conflict
  warn_conflict-cache i id from ts s = ground arith

  check_connection-cache :
      (fp from : Text) (s : ChannelStore F)
      → (check_connection fp from s).replay_cache ≡ s.replay_cache
  unfolding check_connection
  check_connection-cache fp from s = ground arith

  pub note_ident-cache :
      (i : Option MessageIdent) (id from : Text) (ts : ℕ) (s : ChannelStore F)
      → (note_ident i id from ts s).replay_cache ≡ s.replay_cache
  unfolding note_ident
  note_ident-cache none id from ts s = refl
  note_ident-cache (some i) id from ts s = split i.status
    where
      act : IdentStatus → ChannelStore F
      act st = elim st [
        | invalid ↦ s
        | verified ↦ check_connection i.fp from s
        | conflict ↦ check_connection i.fp from (warn_conflict i id from ts s)
      ]

      split : (st : IdentStatus) → (act st).replay_cache ≡ s.replay_cache
      split invalid = refl
      split verified = check_connection-cache i.fp from s
      split conflict =
          check_connection-cache i.fp from (warn_conflict i id from ts s)
          ∙ warn_conflict-cache i id from ts s

  pub show_content-cache :
      (o : Fields F) (now : ℕ) (c : Content) (s : ChannelStore F)
      → (show_content o now c s).replay_cache ≡ (remember (mid_of o) s).replay_cache
  unfolding show_content
  show_content-cache o now ignored s = refl
  show_content-cache o now (shown p i) s = note_ident-cache i _ _ now _

  is_replay-remember :
      (mid : Text) (s s' : ChannelStore F)
      → IsValid s.replay_cache
      → 0 < s.replay_cache.max
      → is_truthy mid ≡ true
      → s'.replay_cache ≡ (remember (some mid) s).replay_cache
      → is_replay (some mid) s' ≡ true
  unfolding is_replay remember
  is_replay-remember mid s s' v h t e =
      let kept : s'.replay_cache ≡ add s.replay_cache mid = ground arith in
      rw (t, kept) (has-add_same s.replay_cache mid v h)

module _ (N : Numbers) (S : Signing) (aead : Aead) where
  open N use {Number}

  -- A frame of one of the four encrypted kinds with a valid envelope whose message id the cache
  -- holds changes nothing but the error text, and no job waits for it.
  pub receive_frame-Refused :
      (available : Bool) (now : ℕ) (k : Kind) (o : Fields Number) (s : ChannelStore Number)
      → is_encrypted k ≡ true
      → is_valid_envelope (payload_of o) ≡ true
      → is_replay (mid_of o) s ≡ true
      → Refused s (receive_frame N S aead available now k o s)
  unfolding receive_frame receive_message receive_key
  receive_frame-Refused available now message o s e v h = rw v (guarded-Refused _ _ o _ s h)
  receive_frame-Refused available now key_updated o s e v h =
      elim (Bool-cases (is_truthy_value N (get o (codes "self")))) [
        | inl own ↦ rw own (record { only_error = refl; no_job = refl })
        | inr other ↦ rw other (guarded-Refused _ _ o _ s h)
      ]
  receive_frame-Refused available now room_name_updated o s e v h = guarded-Refused _ _ o _ s h
  receive_frame-Refused available now nickname_updated o s e v h = guarded-Refused _ _ o _ s h
  receive_frame-Refused available now k o s e v h = absurd (ground arith)

  pub read_plain-cache :
      (mid : Option Text) (answer : Result Text) (s : ChannelStore Number)
      → (read_plain N S aead mid answer s).0.replay_cache ≡ s.replay_cache
  unfolding read_plain read_signed read_unsigned record_identity
  read_plain-cache mid (throw e) s = refl
  read_plain-cache mid (ok plain) s = ground arith

  -- When the decryption of a message has its answer, whatever it is, the message id is in the cache: the
  -- same envelope is refused from then on, until the cache is cleared or has taken 1000 others.
  pub finish_message-remembers :
      (o : Fields Number) (now : ℕ) (answer : Result Text) (s : ChannelStore Number) (mid : Text)
      → IsValid s.replay_cache
      → 0 < s.replay_cache.max
      → mid_of o ≡ some mid
      → is_truthy mid ≡ true
      → is_replay (mid_of o) (finish_message N S aead o now answer s) ≡ true
  unfolding finish_message
  finish_message-remembers o now answer s mid v h e t =
      let read = read_plain N S aead (mid_of o) answer s in
      let same = read_plain-cache (mid_of o) answer s in
      let kept : (show_content o now read.1 read.0).replay_cache
          ≡ (remember (some mid) read.0).replay_cache =
        ground (arith, show_content-cache o now read.1 read.0) in
      rw e (is_replay-remember mid read.0 _ (rw same v) (rw same h) t (ground arith))

  -- Once the decryption of a message has been handled, whatever it gave, another frame of an
  -- encrypted kind with the same valid envelope changes only the error text, and no job waits for
  -- it.
  pub second_copy-Refused :
      (available : Bool) (now later : ℕ) (k : Kind) (o o' : Fields Number) (answer : Result Text)
      (s : ChannelStore Number)
      → IsValid s.replay_cache
      → 0 < s.replay_cache.max
      → is_encrypted k ≡ true
      → is_valid_envelope (payload_of o) ≡ true
      → payload_of o' ≡ payload_of o
      → let s' = finish_message N S aead o now answer s in
        Refused s' (receive_frame N S aead available later k o' s')
  second_copy-Refused available now later k o o' answer s v h e valid same =
      let opened = valid-Opened (payload_of o) valid in
      let found = extract-Opened (payload_of o) opened in
      receive_frame-Refused available later k o' (finish_message N S aead o now answer s) e
        (rw same valid)
        (rw same (
          finish_message-remembers o now answer s opened.mid v h found
            (is_b64url-truthy opened.mid opened.mid_decodes.in_class)))

  -- What is shown for a plaintext that is no JSON object of ours.
  pub record IsRaw (plain : Text) : Type 0 where
    pub unsigned : parse_signed_message N plain ≡ none
    pub not_stale : stale_signed_message_pk N plain ≡ none
    pub unstructured : is_unknown_structured_payload N plain ≡ false

  read_plain-raw :
      (mid : Option Text) (plain : Text) (s : ChannelStore Number)
      → IsRaw plain
      → read_plain N S aead mid (ok plain) s ≡ (s, shown plain none)
  unfolding read_plain read_unsigned
  read_plain-raw mid plain s r = ground (arith, r.unsigned, r.not_stale, r.unstructured)

  messages-remember :
      (mid : Option Text) (s : ChannelStore Number) → (remember mid s).messages ≡ s.messages
  unfolding remember
  messages-remember none s = refl
  messages-remember (some mid) s = ground arith

  finish_message-raw :
      (o : Fields Number) (now : ℕ) (plain : Text) (s : ChannelStore Number)
      → IsRaw plain
      → (finish_message N S aead o now (ok plain) s).messages
        ≡ s.messages ++ from_frame o plain now none ∷ []
  unfolding finish_message show_content note_ident
  finish_message-raw o now plain s r =
      ap (λ (p : ChannelStore Number × Content). (show_content o now p.1 p.0).messages)
        (read_plain-raw (mid_of o) plain s r)
      ∙ ap (λ ms. ms ++ from_frame o plain now none ∷ []) (messages-remember (mid_of o) s)

  -- Two copies of a message that arrive before the first is decrypted both pass the replay check,
  -- and its text, if it decrypts to one that is no structured payload, is shown twice.
  pub overlap_shown_twice :
      (o : Fields Number) (now later : ℕ) (plain : Text) (s : ChannelStore Number)
      → is_valid_envelope (payload_of o) ≡ true
      → is_replay (mid_of o) s ≡ false
      → s.crypto.decrypt (payload_of o) ≡ ok plain
      → IsRaw plain
      → let job = open_message o (ok plain) in
        (receive_message N S aead o now s ≡ (s, some job))
        × ((resume N S aead later job (resume N S aead now job s).0).0.messages
            ≡ s.messages ++ from_frame o plain now none ∷ from_frame o plain later none ∷ [])
  unfolding receive_message guarded resume
  overlap_shown_twice o now later plain s v h d r = (
    rw (v, h, d) refl,
    finish_message-raw o later plain (finish_message N S aead o now (ok plain) s) r
        ∙ ap (λ ms. ms ++ from_frame o plain later none ∷ []) (finish_message-raw o now plain s r)
        ∙ append_assoc s.messages (from_frame o plain now none ∷ [])
            (from_frame o plain later none ∷ []),
  )
